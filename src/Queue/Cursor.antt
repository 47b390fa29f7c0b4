-- ===== src/Queue/Cursor.antt =====
-- The cursor of the ring buffer, by which the client's line editor walks its command history.
use native.Mathlib.Nat.{mod-eq_of_lt, mod-lt, add-mod_right}
use native.Mathlib.Decide.{dec_lt}
use irc_client_server.Base.{
  ◌+◌, ◌-◌, ◌%◌, ◌≤◌, ◌<◌, ltb, if◌then◌else◌, ltb→lt, lt→ltb, Bool-cases, ◌≡◌, refl, ap, ◌∙◌, inl,
  inr, true, false, none, some, List, arith, get_elem?, set, get_elem?-set_self,
}
use irc_client_server.Queue.{Queue, enqueue, get_previous_item, get_next_item}
use irc_client_server.Queue.Refine.{Holds, mod_wrap, enqueue-push}

module _ {ℓ} {A : Type ℓ} (q : Queue A) where
  -- An idle cursor stands at `rear`, as `enqueue` leaves it.
  pub enqueue-cursor : (x : A) → (enqueue q x).current_idx ≡ (enqueue q x).rear
  unfolding enqueue
  enqueue-cursor x = refl

  enqueue-capacity : (x : A) → q.capacity ≡ (enqueue q x).capacity
  unfolding enqueue
  enqueue-capacity x = refl

  module _ (xs : List A) (h : Holds q xs) where
    rear_bound : q.rear < q.capacity
    rear_bound = omega (arith, h.rear_at, mod-lt (q.front + q.count) h.room)

    new_slot :
        (x : A)
        → 0 < (q.rear + 1) % q.capacity
        → get_elem? (set q.items q.rear x) (((q.rear + 1) % q.capacity - 1) % q.capacity) ≡ some x
    new_slot x p =
        ap (get_elem? (set q.items q.rear x)) back
        ∙ get_elem?-set_self q.items q.rear x (omega (arith, h.size, rear_bound))
      where
        back : ((q.rear + 1) % q.capacity - 1) % q.capacity ≡ q.rear
        back = elim (dec_lt (q.rear + 1) q.capacity) [
          | yes r ↦
              ap (λ n. (n - 1) % q.capacity) (mod-eq_of_lt r)
              ∙ ap (λ n. n % q.capacity) (omega arith)
              ∙ mod-eq_of_lt rear_bound
          | no r ↦ absurd (
              omega (
                arith,
                rear_bound,
                h.room,
                mod_wrap (q.rear + 1) q.capacity (omega arith) (omega (arith, rear_bound, h.room)),
              ))
        ]

    -- Directly after an item was added to a queue that holds a sequence, stepping back yields
    -- that item exactly if the new `front` lies below the new `rear`; otherwise it yields none.
    pub enqueue-previous :
        (x : A)
        → (get_previous_item (enqueue q x)).0
          ≡ (if ltb (enqueue q x).front (enqueue q x).rear then some x else none)
    unfolding get_previous_item enqueue
    enqueue-previous x = elim (Bool-cases (ltb (enqueue q x).front (enqueue q x).rear)) [
      | inl e ↦ rw e (new_slot x (omega (arith, ltb→lt _ _ e)))
      | inr e ↦ rw e
    ]

    count_full : (x : A) → q.capacity ≤ q.count + 1 → (enqueue q x).count ≡ q.capacity
    unfolding enqueue
    count_full x full = ground (arith, h.fits)

    rear_meets_front :
        (x : A) → q.capacity ≤ q.count + 1 → ltb (enqueue q x).front (enqueue q x).rear ≡ false
    rear_meets_front x full =
        let h' = enqueue-push q xs h x in
        let e : (enqueue q x).rear ≡ (enqueue q x).front =
          h'.rear_at
          ∙ ap (λ n. ((enqueue q x).front + n) % (enqueue q x).capacity)
              (count_full x full ∙ enqueue-capacity x)
          ∙ add-mod_right (enqueue q x).front (enqueue q x).capacity
          ∙ mod-eq_of_lt h'.front_lt in
        ground (arith, e)

    -- If a queue that holds a sequence is full after an item was added, stepping back yields
    -- none, though the queue holds as many items as its capacity.
    pub enqueue-previous_full :
        (x : A)
        → q.capacity ≤ q.count + 1
        → ((get_previous_item (enqueue q x)).0 ≡ none) × ((enqueue q x).count ≡ q.capacity)
    enqueue-previous_full x full =
        (enqueue-previous x ∙ rw (rear_meets_front x full), count_full x full)

  -- Stepping back from a place between `front` and `rear` and then forward restores the queue.
  pub get_next-get_previous :
      q.front < q.current_idx
      → q.current_idx ≤ q.rear
      → q.rear < q.capacity
      → (get_next_item (get_previous_item q).1).1 ≡ q
  unfolding get_next_item get_previous_item
  get_next-get_previous a b c =
      rw (lt→ltb _ _ a) (rw lower (λ i. record q { current_idx = back i }))
    where
      down : (q.current_idx - 1) % q.capacity ≡ q.current_idx - 1
      down = mod-eq_of_lt (omega arith)

      lower : ltb ((q.current_idx - 1) % q.capacity) q.rear ≡ true
      lower = lt→ltb _ _ (omega (arith, down))

      back : ((q.current_idx - 1) % q.capacity + 1) % q.capacity ≡ q.current_idx
      back =
          ap (λ n. (n + 1) % q.capacity) down
          ∙ ap (λ n. n % q.capacity) (omega arith)
          ∙ mod-eq_of_lt (omega arith)
