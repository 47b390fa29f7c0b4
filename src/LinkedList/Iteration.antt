-- ===== src/LinkedList/Iteration.antt =====
-- Loops over a list of libs/src/linked_list.c by its iterator, as in `leave_all_channels` of
-- server/src/session.c.
use mathlib.Core.List.{append_assoc}
use irc_client_server.Base.{
  ℕ, zero, suc, ◌-◌, ◌≡◌, refl, sym, ap, ◌∙◌, Bool, true, Option, none, some, List, [], ◌∷◌, ◌++◌,
  arith, length, get_elem?, length-append,
}
use irc_client_server.LinkedList.{
  LinkedList, at, cursor_unlink, reset_iterator, remove_node, iterator_next, locate,
}
use irc_client_server.LinkedList.Search.{get_elem?-middle}

module _ {ℓ} {A : Type ℓ} where
  cons_visited : A → Option (List A × LinkedList A) → Option (List A × LinkedList A)
  cons_visited x none = none
  cons_visited x (some (xs, l)) = some (x ∷ xs, l)

  -- `while ((node = iterator_next(list)) != NULL) { ... }`: the data visited and the list at the end,
  -- or none if the iterator dangles or the fuel runs out.
  pub visit_all : ℕ → LinkedList A → Option (List A × LinkedList A)
  unfolding cons_visited
  visit_all zero l = none
  visit_all (suc fuel) l = elim (iterator_next l) [
    | none ↦ none
    | some (none, l') ↦ some ([], l')
    | some (some x, l') ↦ cons_visited x (visit_all fuel l')
  ]

  -- The same loop with `remove_node(list, get_data(node))` in its body.
  pub visit_removing : (A → A → Bool) → ℕ → LinkedList A → Option (List A × LinkedList A)
  unfolding cons_visited
  visit_removing comparator zero l = none
  visit_removing comparator (suc fuel) l = elim (iterator_next l) [
    | none ↦ none
    | some (none, l') ↦ some ([], l')
    | some (some x, l') ↦
        cons_visited x (visit_removing comparator fuel (remove_node comparator l' x).1)
  ]

  visit_rest :
      (count : ℕ) (zs xs ys : List A)
      → zs ≡ xs ++ ys
      → visit_all
          (suc (length ys))
          (record { nodes = zs; iterator = at (length ys); count = count })
        ≡ some (ys, record { nodes = zs; iterator = at 0; count = count })
  unfolding visit_all iterator_next
  visit_rest count zs xs [] e = refl
  visit_rest count zs xs (y ∷ ys) e =
      rw (here, visit_all)
        (rw (visit_rest count zs (xs ++ y ∷ []) ys (e ∙ sym (append_assoc xs (y ∷ []) ys))))
    where
      place : length zs - suc (length ys) ≡ length xs
      place = omega (arith, ap length e, length-append xs (y ∷ ys))

      here : get_elem? zs (length zs - suc (length ys)) ≡ some y
      here =
          ap (get_elem? zs) place ∙ ap (λ l. get_elem? l (length xs)) e ∙ get_elem?-middle xs y ys

  -- From `reset_iterator` the loop visits every node once, in order, and leaves the nodes alone;
  -- one round more than there are nodes is enough.
  pub visit_all-reset_iterator :
      (l : LinkedList A)
      → visit_all (suc (length l.nodes)) (reset_iterator l)
        ≡ some (l.nodes, record l { iterator = at 0 })
  visit_all-reset_iterator l = visit_rest l.count l.nodes [] l.nodes refl

  module _ (comparator : A → A → Bool) (reflexive : (x : A) → comparator x x ≡ true) where
    -- The iterator has moved on to the second node when the first one is removed.
    remove_first :
        (x : A) (xs : List A)
        → (remove_node comparator
            (record { nodes = x ∷ xs; iterator = at (length xs); count = suc (length xs) })
            x).1
          ≡ record { nodes = xs; iterator = at (length xs); count = length xs }
    unfolding remove_node locate
    remove_first x xs =
        rw (reflexive x, remove_node)
          (λ i. record { nodes = xs; iterator = unlinked i; count = counted i })
      where
        unlinked : cursor_unlink (suc (length xs)) (at (length xs)) ≡ at (length xs)
        unlinked = ground arith

        counted : suc (length xs) - 1 ≡ length xs
        counted = omega arith

    visit_removing_rest :
        (xs : List A)
        → visit_removing comparator
            (suc (length xs))
            (record { nodes = xs; iterator = at (length xs); count = length xs })
          ≡ some (xs, record { nodes = []; iterator = at 0; count = 0 })
    unfolding visit_removing iterator_next
    visit_removing_rest [] = refl
    visit_removing_rest (x ∷ xs) =
        rw (first, visit_removing)
          (ap (λ l. cons_visited x (visit_removing comparator (suc (length xs)) l))
              (remove_first x xs)
            ∙ ap (cons_visited x) (visit_removing_rest xs))
      where
        first : get_elem? (x ∷ xs) (suc (length xs) - suc (length xs)) ≡ some x
        first =
            let none_left : suc (length xs) - suc (length xs) ≡ 0 = omega arith in
            ap (get_elem? (x ∷ xs)) none_left

  -- Removing each visited node inside the loop is safe where every datum compares equal to itself
  -- and the count is the number of nodes: the iterator never dangles, every node is visited once,
  -- in order, and the list ends empty.
  pub visit_removing-reset_iterator :
      (comparator : A → A → Bool)
      → ((x : A) → comparator x x ≡ true)
      → (l : LinkedList A) → l.count ≡ length l.nodes
      → visit_removing comparator (suc (length l.nodes)) (reset_iterator l)
        ≡ some (l.nodes, record { nodes = []; iterator = at 0; count = 0 })
  visit_removing-reset_iterator comparator reflexive l counted =
      ap
        (λ n.
          visit_removing comparator (suc (length l.nodes))
            (record { nodes = l.nodes; iterator = at (length l.nodes); count = n }))
        counted
      ∙ visit_removing_rest comparator reflexive l.nodes
