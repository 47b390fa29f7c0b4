-- ===== src/Session/Counts.antt =====
-- The counts of server/src/session.c beside the lists that they count.
use irc_client_server.Base.{
  ℕ, zero, suc, ◌+◌, ◌≤◌, ◌<◌, ltb, if◌then◌else◌, ltb→lt, lt→ltb, Bool-cases, ◌≡◌, refl, sym, ap,
  ◌∙◌, ◌≢◌, ◌⊎◌, inl, inr, Bool, true, Option, none, some, [], ◌∷◌, ◌++◌, arith, length,
  length-append,
}
use native.Mathlib.Numerals.{add-one}
use irc_client_server.Base.Int.{pos, increment, decrement, is_below}
use irc_client_server.LinkedList.{LinkedList, append_node, remove_node}
use irc_client_server.LinkedList.Search.{
  NoMatch, Removes, NoMatch-middle, remove_node-Removes, remove_node-append_node,
}
use irc_client_server.Session.State.{Members, Address}
use irc_client_server.Session.Membership.{add_member, remove_member}

-- Both counts are the number of nodes, and that is within the capacity.
pub record IsCounted (m : Members) : Type 0 where
  pub counted : m.count ≡ pos (length m.list.nodes)
  pub list_counted : m.list.count ≡ length m.list.nodes
  pub within : length m.list.nodes ≤ m.capacity

-- In a counted record a member is added exactly if there is room; then it stands last, else the
-- list of members stays. The counts stay right and within the capacity.
pub add_member-IsCounted :
    (m : Members) (p : Address)
    → IsCounted m
    → IsCounted (add_member m p).1
      × ((add_member m p).0 ≡ ltb (length m.list.nodes) m.capacity)
      × ((add_member m p).1.list.nodes
          ≡ (if ltb (length m.list.nodes) m.capacity then m.list.nodes ++ p ∷ [] else m.list.nodes))
unfolding add_member append_node
add_member-IsCounted m p h =
    let tested = ap (λ z. is_below z m.capacity) h.counted in
    elim (Bool-cases (ltb (length m.list.nodes) m.capacity)) [
      | inl e ↦
          rw (tested ∙ e, e)
            (
              record {
                counted =
                    ap increment h.counted
                    ∙ ap pos (omega (arith, length-append m.list.nodes (p ∷ [])));
                list_counted = omega (arith, h.list_counted, length-append m.list.nodes (p ∷ []));
                within = omega (arith, ltb→lt _ _ e, length-append m.list.nodes (p ∷ []));
              },
              refl,
              refl,
            )
      | inr e ↦ rw (tested ∙ e, e) (h, refl, refl)
    ]

module _ (same : Address → Address → Bool) (p : Address) where
  up_down : (n : ℕ) → decrement (increment (pos n)) ≡ pos n
  up_down n = rw add-one

  decrement_ne : (n : ℕ) → decrement (pos n) ≢ pos n
  decrement_ne zero e = cc
  decrement_ne (suc n) e = ground arith

  -- Removing a member from a counted record keeps the counts right exactly if a node of the list
  -- compares equal to it: otherwise the list stays as it is and the counts are wrong.
  pub remove_member-IsCounted :
      (m : Members)
      → IsCounted m
      → (IsCounted (remove_member same m p) × ¬ NoMatch same p m.list.nodes)
        ⊎ ((¬ IsCounted (remove_member same m p))
            × NoMatch same p m.list.nodes
            × ((remove_member same m p).list ≡ m.list))
  unfolding remove_member
  remove_member-IsCounted m h = go (remove_node same m.list p) (remove_node-Removes same p m.list)
    where
      go :
          (r : Option Address × LinkedList Address)
          → Removes same p m.list r
          → let m' = record m { list = r.1; count = decrement m.count } in
            (IsCounted m' × ¬ NoMatch same p m.list.nodes)
            ⊎ ((¬ IsCounted m') × NoMatch same p m.list.nodes × (r.1 ≡ m.list))
      go (none, l) (absent, e) = inr (
        λ c.
            decrement_ne (length m.list.nodes)
              (ap decrement (sym h.counted) ∙ c.counted ∙ ap (λ k. pos (length k.nodes)) e),
        absent,
        e,
      )
      go (some x, l) (before, after, s, nodes, count, iterator) =
          let whole : length m.list.nodes ≡ length before + suc (length after) =
            ap length s.parts ∙ length-append before (x ∷ after) in
          let rest : length l.nodes ≡ length before + length after =
            ap length nodes ∙ length-append before after in
          let one_more : length m.list.nodes ≡ suc (length before + length after) = omega arith in
          inl (
            record {
              counted = ap decrement (h.counted ∙ ap pos one_more) ∙ ap pos (sym rest);
              list_counted = omega (arith, h.list_counted);
              within = omega (arith, h.within);
            },
            NoMatch-middle same p before x after s.hit s.parts,
          )

  -- In a counted record, a member that compares equal to itself and that nothing in the list
  -- compares equal to, added where there is room and removed again, leaves the list of members
  -- and their number as they were.
  pub remove_member-add_member :
      (m : Members)
      → IsCounted m
      → length m.list.nodes < m.capacity
      → same p p ≡ true
      → NoMatch same p m.list.nodes
      → let m' = remove_member same (add_member m p).1 p in
        (m'.list.nodes ≡ m.list.nodes) × (m'.count ≡ m.count)
  unfolding remove_member add_member
  remove_member-add_member m h room reflexive fresh =
      let tested : is_below m.count m.capacity ≡ true =
        ap (λ z. is_below z m.capacity) h.counted ∙ lt→ltb _ _ room in
      rw (tested, add_member)
        (
          (remove_node-append_node same p m.list reflexive fresh).1,
          ap (λ z. decrement (increment z)) h.counted
              ∙ up_down (length m.list.nodes)
              ∙ sym h.counted,
        )
