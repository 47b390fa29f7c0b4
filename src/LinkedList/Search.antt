-- ===== src/LinkedList/Search.antt =====
-- What `find_node` and `remove_node` of libs/src/linked_list.c do with the first node that compares
-- equal.
use mathlib.Core.List.{append-nil}
use mathlib.Core.Path.{subst}
use irc_client_server.Base.{
  suc, ◌+◌, ◌-◌, ◌==◌, Bool-cases, ◌≡◌, refl, ap, ◌∙◌, inl, inr, Bool, true, false, Option, none,
  some, List, [], ◌∷◌, ◌++◌, arith, length, get_elem?, All,
}
use irc_client_server.LinkedList.{
  LinkedList, cursor_unlink, locate, append_node, remove_node, find_node, find_data, get_data,
}

pub get_elem?-middle {ℓ} :
    {A : Type ℓ} (xs : List A) (y : A) (ys : List A) → get_elem? (xs ++ y ∷ ys) (length xs) ≡ some y
get_elem?-middle [] y ys = refl
get_elem?-middle (x ∷ xs) y ys = get_elem?-middle xs y ys

module _ {A : Type 0} (comparator : A → A → Bool) (item : A) where
  -- No node of `xs` compares equal to the item.
  abbrev pub NoMatch : List A → Type 0
  NoMatch xs = All (λ y. comparator y item ≡ false) xs

  -- `xs` splits at its first node that compares equal to the item.
  pub record Splits (xs : List A) (before : List A) (x : A) (after : List A) : Type 0 where
    pub parts : xs ≡ before ++ x ∷ after
    pub first : NoMatch before
    pub hit : comparator x item ≡ true

  abbrev pub Locates : List A → Option (List A × A × List A) → Type 0
  Locates xs none = NoMatch xs
  Locates xs (some (before, x, after)) = Splits xs before x after

  pub locate-Locates : (xs : List A) → Locates xs (locate comparator item xs)
  unfolding locate
  locate-Locates [] = tt
  locate-Locates (x ∷ xs) = elim (Bool-cases (comparator x item)) [
    | inl e ↦ rw e (record { parts = refl; first = tt; hit = e })
    | inr e ↦ rw e (extend x xs e (locate comparator item xs) (locate-Locates xs))
  ]
    where
      extend :
          (x : A) (xs : List A)
          → comparator x item ≡ false
          → (r : Option (List A × A × List A)) → Locates xs r
          → Locates
              (x ∷ xs)
              (elim r [ none ↦ none | some (before, y, after) ↦ some (x ∷ before, y, after) ])
      extend x xs e none h = (e, h)
      extend x xs e (some (before, y, after)) s = record {
        parts = ap (◌∷◌ x) s.parts;
        first = (e, s.first);
        hit = s.hit;
      }

  -- The place is the only one.
  pub locate-Splits :
      {xs : List A} (before : List A) (x : A) (after : List A)
      → Splits xs before x after
      → locate comparator item xs ≡ some (before, x, after)
  unfolding locate
  locate-Splits {xs} before x after s = ap (locate comparator item) s.parts ∙ go before s.first
    where
      go :
          (before : List A)
          → NoMatch before
          → locate comparator item (before ++ x ∷ after) ≡ some (before, x, after)
      go [] h = rw s.hit refl
      go (y ∷ before) (h, hs) = rw (h, go before hs) refl

  -- What `remove_node` does: with no equal node it changes nothing, else it takes out the first one.
  abbrev pub Removes : LinkedList A → Option A × LinkedList A → Type 0
  Removes l (none, l') = NoMatch l.nodes × (l' ≡ l)
  Removes l (some x, l') =
      (before : List A) × (after : List A) × Splits l.nodes before x after
      × (l'.nodes ≡ before ++ after)
      × (l'.count ≡ l.count - 1)
      × (l'.iterator ≡ cursor_unlink (suc (length after)) l.iterator)

  -- Removing by an item takes out the first node that compares equal to it, keeps the order of the
  -- others and lowers the count by one; if no node does, the list stays as it was.
  pub remove_node-Removes : (l : LinkedList A) → Removes l (remove_node comparator l item)
  unfolding remove_node
  remove_node-Removes l = go (locate comparator item l.nodes) (locate-Locates l.nodes)
    where
      go :
          (r : Option (List A × A × List A))
          → Locates l.nodes r
          → Removes l (elim r [
            | none ↦ (none, l)
            | some (before, x, after) ↦ (
              some x,
              record {
                nodes = before ++ after;
                iterator = cursor_unlink (suc (length after)) l.iterator;
                count = l.count - 1;
              },
            )
          ])
      go none h = (h, refl)
      go (some (before, x, after)) s = (before, after, s, refl, refl, refl)

  -- What a search may return for a list: nothing, or the first equal node's data.
  abbrev pub Finds : List A → Option A → Type 0
  Finds xs none = NoMatch xs
  Finds xs (some x) = (before : List A) × (after : List A) × Splits xs before x after

  NoMatch-empty : (xs : List A) → length xs ≡ 0 → NoMatch xs
  NoMatch-empty [] h = tt
  NoMatch-empty (x ∷ xs) h = absurd (omega arith)

  -- A search of a list whose count is its number of nodes returns the data of the first node that
  -- compares equal to the item, and nothing exactly if no node does.
  pub find_data-Finds :
      (l : LinkedList A) → l.count ≡ length l.nodes → Finds l.nodes (find_data comparator l item)
  unfolding find_data
  find_data-Finds l counted = elim (Bool-cases (l.count == 0)) [
    | inl e ↦
        let none_there : length l.nodes == 0 ≡ true = ground (arith, counted) in
        rw (e, none_there) (NoMatch-empty l.nodes (ground (arith, counted)))
    | inr e ↦ rw e (go (locate comparator item l.nodes) (locate-Locates l.nodes))
  ]
    where
      go :
          (r : Option (List A × A × List A))
          → Locates l.nodes r
          → Finds l.nodes
              (get_data l (elim r [ none ↦ none | some (before, x, after) ↦ some (length before) ]))
      go none h = h
      go (some (before, x, after)) s =
          rw (ap (λ ys. get_elem? ys (length before)) s.parts ∙ get_elem?-middle before x after)
            (before, after, s)

  -- A node that compares equal is not in a list where none does.
  pub NoMatch-middle :
      {xs : List A} (before : List A) (x : A) (after : List A)
      → comparator x item ≡ true
      → xs ≡ before ++ x ∷ after
      → ¬ NoMatch xs
  NoMatch-middle before x after hit parts none_there =
      in_middle before (subst NoMatch parts none_there)
    where
      in_middle : (before : List A) → ¬ NoMatch (before ++ x ∷ after)
      in_middle [] h = cc (h.0, hit)
      in_middle (y ∷ before) h = in_middle before h.1

  -- Where no node compares equal, a search of a counted list finds none.
  pub find_node-none :
      (l : LinkedList A)
      → l.count ≡ length l.nodes
      → NoMatch l.nodes
      → find_node comparator l item ≡ none
  unfolding find_node
  find_node-none l counted absent = elim (Bool-cases (l.count == 0)) [
    | inl e ↦
        let none_there : length l.nodes == 0 ≡ true = ground (arith, counted) in rw (e, none_there)
    | inr e ↦ rw e (rw (locate_none l.nodes absent))
  ]
    where
      locate_none : (xs : List A) → NoMatch xs → locate comparator item xs ≡ none
      locate_none xs h = go (locate comparator item xs) (locate-Locates xs)
        where
          go : (r : Option (List A × A × List A)) → Locates xs r → r ≡ none
          go none k = refl
          go (some (before, x, after)) s = absurd (NoMatch-middle before x after s.hit s.parts h)

  locate-append :
      (xs : List A) (x : A)
      → comparator x item ≡ true
      → NoMatch xs
      → locate comparator item (xs ++ x ∷ []) ≡ some (xs, x, [])
  unfolding locate
  locate-append [] x same fresh = rw same
  locate-append (y ∷ xs) x same fresh = rw (fresh.0, locate-append xs x same fresh.1)

  -- Where nothing compares equal to the item, appended data that do are found.
  pub find_data-append_node :
      (l : LinkedList A) (x : A)
      → comparator x item ≡ true
      → NoMatch l.nodes
      → find_data comparator (append_node l x) item ≡ some x
  unfolding find_data append_node
  find_data-append_node l x same fresh =
      let some_there : l.count + 1 == 0 ≡ false = ground arith in
      rw some_there (rw (locate-append l.nodes x same fresh) (get_elem?-middle l.nodes x []))

  -- An item that compares equal to itself, appended to a list where nothing compares equal to it
  -- and removed again, is the item removed, and the nodes and the count are as before.
  pub remove_node-append_node :
      (l : LinkedList A)
      → comparator item item ≡ true
      → NoMatch l.nodes
      → let r = remove_node comparator (append_node l item) item in
        (r.0 ≡ some item) × (r.1.nodes ≡ l.nodes) × (r.1.count ≡ l.count)
  unfolding remove_node append_node
  remove_node-append_node l same fresh =
      rw (locate-append l.nodes item same fresh, remove_node)
        (refl, append-nil l.nodes, omega arith)
