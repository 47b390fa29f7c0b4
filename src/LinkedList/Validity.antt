-- ===== src/LinkedList/Validity.antt =====
-- Well-formed lists of libs/src/linked_list.c, and the lists that its operations lead to.
use irc_client_server.Base.{
  ℕ, zero, suc, ◌+◌, ◌≤◌, ltb, ◌==◌, Bool-cases, ◌≡◌, refl, sym, ap, ◌∙◌, inl, inr, Bool, Option,
  none, some, [], ◌∷◌, arith, length, length-append, length-set,
}
use irc_client_server.LinkedList.{
  LinkedList, Cursor, at, dangling, cursor_append, cursor_unlink, create_linked_list,
  reset_iterator, reset_linked_list, append_node, remove_node, iterator_next, advance, set_data,
}
use irc_client_server.LinkedList.Search.{remove_node-Removes, Removes}

-- An iterator that is not dangling points into the list.
abbrev pub PointsInto : ℕ → Cursor → Type 0
PointsInto n (at k) = k ≤ n
PointsInto n dangling = Unit

pub record IsValid {A : Type 0} (l : LinkedList A) : Type 0 where
  pub counted : l.count ≡ length l.nodes
  pub pointed : PointsInto (length l.nodes) l.iterator

-- One call of an operation that changes the list.
pub data Step {A : Type 0} (comparator : A → A → Bool) : LinkedList A → LinkedList A → Type 0 where
  reset : (l : LinkedList A) → Step comparator l (reset_linked_list l).1
  append : (l : LinkedList A) (item : A) → Step comparator l (append_node l item)
  remove : (l : LinkedList A) (item : A) → Step comparator l (remove_node comparator l item).1
  rewind : (l : LinkedList A) → Step comparator l (reset_iterator l)
  next :
      (l l' : LinkedList A) (r : Option A) → iterator_next l ≡ some (r, l') → Step comparator l l'
  write : (l : LinkedList A) (i : ℕ) (item : A) → Step comparator l (set_data l i item)

-- The lists that calls lead to from a new one.
pub data ReachedList {A : Type 0} (comparator : A → A → Bool) : LinkedList A → Type 0 where
  new : ReachedList comparator create_linked_list
  further :
      {l l' : LinkedList A}
      → ReachedList comparator l
      → Step comparator l l'
      → ReachedList comparator l'

cursor_append_in : (n : ℕ) (c : Cursor) → PointsInto n c → PointsInto (n + 1) (cursor_append c)
cursor_append_in n (at zero) h = omega arith
cursor_append_in n (at (suc k)) h = omega arith
cursor_append_in n dangling h = tt

cursor_unlink_in :
    (n m j : ℕ) (c : Cursor) → n ≡ suc m → j ≤ n → PointsInto n c → PointsInto m (cursor_unlink j c)
cursor_unlink_in n m j (at k) e b h = elim (Bool-cases (k == j)) [
  | inl same ↦ rw same tt
  | inr other ↦ elim (Bool-cases (ltb j k)) [
    | inl above ↦ rw (other, above) (omega arith)
    | inr below ↦ rw (other, below) (ground arith)
  ]
]
cursor_unlink_in n m j dangling e b h = tt

module _ {A : Type 0} where
  append_node-IsValid : (l : LinkedList A) (item : A) → IsValid l → IsValid (append_node l item)
  unfolding append_node
  append_node-IsValid l item v = record {
    counted = omega (arith, v.counted, length-append l.nodes (item ∷ []));
    pointed =
        rw (length-append l.nodes (item ∷ []))
          (cursor_append_in (length l.nodes) l.iterator v.pointed);
  }

  remove_node-IsValid :
      (comparator : A → A → Bool) (l : LinkedList A) (item : A)
      → IsValid l
      → IsValid (remove_node comparator l item).1
  remove_node-IsValid comparator l item v =
      go (remove_node comparator l item) (remove_node-Removes comparator item l)
    where
      go : (r : Option A × LinkedList A) → Removes comparator item l r → IsValid r.1
      go (none, l') (absent, e) = rw e v
      go (some x, l') (before, after, s, nodes, count, iterator) =
          let whole : length l.nodes ≡ length before + suc (length after) =
            ap length s.parts ∙ length-append before (x ∷ after) in
          let rest : length l'.nodes ≡ length before + length after =
            ap length nodes ∙ length-append before after in
          record {
            counted = omega (arith, v.counted);
            pointed = rw iterator (
                cursor_unlink_in (length l.nodes) (length l'.nodes) (suc (length after)) l.iterator
                  (omega arith) (omega arith) v.pointed);
          }

  iterator_next-IsValid :
      (l l' : LinkedList A) (r : Option A) → iterator_next l ≡ some (r, l') → IsValid l → IsValid l'
  unfolding iterator_next
  iterator_next-IsValid l l' r e v = go l.iterator v.pointed e
    where
      second : Option (Option A × LinkedList A) → LinkedList A
      second none = l
      second (some p) = p.1

      go : (c : Cursor) → PointsInto (length l.nodes) c → advance l c ≡ some (r, l') → IsValid l'
      go (at zero) h f = rw (← ap second f) v
      go (at (suc k)) h f =
          rw (← ap second f) (record { counted = v.counted; pointed = omega arith })
      go dangling h f = cc

  -- Every operation keeps a list well formed: the count is the number of nodes, and the iterator is
  -- null, points to a node of the list, or dangles.
  pub Step-IsValid :
      (comparator : A → A → Bool) {l l' : LinkedList A}
      → Step comparator l l'
      → IsValid l
      → IsValid l'
  Step-IsValid comparator (reset l) v =
      unfold reset_linked_list in record { counted = refl; pointed = omega arith }
  Step-IsValid comparator (append l item) v = append_node-IsValid l item v
  Step-IsValid comparator (remove l item) v = remove_node-IsValid comparator l item v
  Step-IsValid comparator (rewind l) v = record { counted = v.counted; pointed = omega arith }
  Step-IsValid comparator (next l l' r e) v = iterator_next-IsValid l l' r e v
  Step-IsValid comparator (write l i item) v = record {
    counted = v.counted ∙ sym (length-set l.nodes i item);
    pointed = rw (length-set l.nodes i item) v.pointed;
  }

  -- Every list that the operations lead to from a new one is well formed.
  pub ReachedList-IsValid :
      (comparator : A → A → Bool) {l : LinkedList A} → ReachedList comparator l → IsValid l
  ReachedList-IsValid comparator new = record { counted = refl; pointed = tt }
  ReachedList-IsValid comparator (further h s) =
      Step-IsValid comparator s (ReachedList-IsValid comparator h)
