-- ===== src/LinkedList.antt =====
-- libs/src/linked_list.c: a singly linked list with an iterator. The chain of nodes from `head` is
-- the list of their data; a pointer to a node is its position. The comparison and deletion functions
-- that a list carries are called on data that live elsewhere, so the comparison is an argument of
-- the operations that call it, and an operation returns the data that its source deletes.
-- Guards against null arguments end the process and have no counterpart: a list is a value.
pub mod Search
pub mod Validity
pub mod Iteration
use irc_client_server.Base.{
  ℕ, zero, suc, ◌+◌, ◌-◌, ◌*◌, ◌/◌, ◌%◌, ◌^◌, ◌≤◌, ◌<◌, min, bit_xor, ltb, leb, ◌==◌, if◌then◌else◌,
  ltb→lt, lt→ltb, ==_iff, ==_refl, Bool-cases, Option-cases, ◌≡◌, refl, sym, ap, ◌∙◌, ◌≢◌, ◌↔◌, ◌⊎◌,
  inl, inr, Bool, true, false, not, ◌&&◌, ◌||◌, Option, none, some, List, [], ◌∷◌, ◌++◌, map, arith,
  length, get_elem?, set, get_or, replicate, take, drop, length-append, length-set,
  length-replicate, get_or-replicate, get_or-set_self, get_or-set_ne, get_elem?-set_self,
  get_elem?-set_ne, get_elem?-append_left, get_elem?-append_last, get_elem?-drop_one, All,
}

-- The iterator: `at k` points to the node with which the last `k` nodes begin, `at 0` is null, and
-- `dangling` is a pointer that was never set or whose node was freed.
pub data Cursor : Type 0 where
  at : ℕ → Cursor
  dangling : Cursor

pub record LinkedList {ℓ} (A : Type ℓ) : Type ℓ where
  pub nodes : List A
  pub iterator : Cursor
  pub count : ℕ

-- A node appended behind the iterator's node.
abbrev pub cursor_append : Cursor → Cursor
cursor_append (at zero) = at 0
cursor_append (at (suc k)) = at (suc (suc k))
cursor_append dangling = dangling

-- The node with which the last `j` nodes began was freed.
abbrev pub cursor_unlink : ℕ → Cursor → Cursor
cursor_unlink j (at k) = if k == j then dangling else if ltb j k then at (k - 1) else at k
cursor_unlink j dangling = dangling

module _ {ℓ} {A : Type ℓ} where
  -- `create_linked_list` leaves the iterator as `malloc` found it.
  abbrev pub create_linked_list : LinkedList A
  create_linked_list = record { nodes = []; iterator = dangling; count = 0 }

  abbrev pub reset_iterator : LinkedList A → LinkedList A
  reset_iterator l = record l { iterator = at (length l.nodes) }

  -- The deleted data, in the order of the deletions, and the empty list.
  unfoldable pub reset_linked_list : LinkedList A → List A × LinkedList A
  reset_linked_list l = (l.nodes, record { nodes = []; iterator = at 0; count = 0 })

  unfoldable pub append_node : LinkedList A → A → LinkedList A
  append_node l item = record {
    nodes = l.nodes ++ item ∷ [];
    iterator = cursor_append l.iterator;
    count = l.count + 1;
  }

  -- Outer none: the iterator dangles, which C leaves undefined.
  abbrev pub advance : LinkedList A → Cursor → Option (Option A × LinkedList A)
  advance l dangling = none
  advance l (at zero) = some (none, l)
  advance l (at (suc k)) =
      some (get_elem? l.nodes (length l.nodes - suc k), record l { iterator = at k })

  unfoldable pub iterator_next : LinkedList A → Option (Option A × LinkedList A)
  iterator_next l = advance l l.iterator

  abbrev pub iterate_nodes {κ} : {S : Type κ} → (A → S → S) → List A → S → S
  iterate_nodes f [] s = s
  iterate_nodes f (x ∷ xs) s = iterate_nodes f xs (f x s)

  abbrev pub iterate_list {κ} : {S : Type κ} → (A → S → S) → LinkedList A → S → S
  iterate_list f l s = iterate_nodes f l.nodes s

  abbrev pub get_data : LinkedList A → Option ℕ → Option A
  get_data l none = none
  get_data l (some i) = get_elem? l.nodes i

  abbrev pub set_data : LinkedList A → ℕ → A → LinkedList A
  set_data l i item = record l { nodes = set l.nodes i item }

  abbrev pub get_next : LinkedList A → Option ℕ → Option ℕ
  get_next l none = none
  get_next l (some i) = if ltb (i + 1) (length l.nodes) then some (i + 1) else none

  abbrev pub get_list_count : LinkedList A → ℕ
  get_list_count l = l.count

  module _ (comparator : A → A → Bool) where
    -- The loop of `remove_node` and `find_node`: the nodes passed over, the node that it stops at,
    -- and the nodes behind that.
    pub locate : A → List A → Option (List A × A × List A)
    locate item [] = none
    locate item (x ∷ xs) =
        let rest = locate item xs in
        if comparator x item
        then some ([], x, xs)
        else elim rest [ none ↦ none | some (before, y, after) ↦ some (x ∷ before, y, after) ]

    unfoldable pub remove_node : LinkedList A → A → Option A × LinkedList A
    remove_node l item = elim (locate item l.nodes) [
      | none ↦ (none, l)
      | some (before, x, after) ↦ (
        some x,
        record {
          nodes = before ++ after;
          iterator = cursor_unlink (suc (length after)) l.iterator;
          count = l.count - 1;
        },
      )
    ]

    -- With a count of zero the source returns `head` unread.
    unfoldable pub find_node : LinkedList A → A → Option ℕ
    find_node l item =
        if l.count == 0
        then if length l.nodes == 0 then none else some 0
        else elim (locate item l.nodes) [
          | none ↦ none
          | some (before, x, after) ↦ some (length before)
        ]

    -- `get_data(find_node(...))`, as the callers write it.
    unfoldable pub find_data : LinkedList A → A → Option A
    unfolding find_node
    find_data l item = get_data l (find_node l item)
