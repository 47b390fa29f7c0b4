-- ===== src/Queue/Refine.antt =====
-- The ring buffer of libs/src/queue.c beside a bounded sequence, oldest item first, that drops its
-- oldest item when an item is added to a full one.
use native.Mathlib.Nat.{mod-eq_of_lt, mod-eq-sub-mod, mod-lt, mod-add-mod, mod-mod, add-mod_right}
use native.Mathlib.Numerals.{add-one}
use native.Mathlib.Decide.{dec_lt}
use irc_client_server.Base.{
  ℕ, zero, suc, ◌+◌, ◌-◌, ◌%◌, ◌≤◌, ◌<◌, ◌==◌, if◌then◌else◌, ◌≡◌, refl, sym, ap, ◌∙◌, ◌≢◌, ◌⊎◌,
  inl, inr, true, false, Option, none, some, List, [], ◌∷◌, ◌++◌, arith, length, get_elem?, set,
  drop, length-append, length-set, length-replicate, get_elem?-set_self, get_elem?-set_ne,
  get_elem?-append_left, get_elem?-append_last, get_elem?-drop_one,
}
use irc_client_server.Queue.{Queue, empty_queue, create_queue, enqueue, dequeue}

pub mod_wrap : (a c : ℕ) → c ≤ a → a < c + c → a % c ≡ a - c
mod_wrap a c h k = mod-eq-sub-mod h ∙ mod-eq_of_lt (omega arith)

pub mod_cases : (a c : ℕ) → a < c + c → ((a < c) × (a % c ≡ a)) ⊎ ((c ≤ a) × (a % c ≡ a - c))
mod_cases a c h = elim (dec_lt a c) [
  | yes p ↦ inl (p, mod-eq_of_lt p)
  | no p ↦ inr (omega arith, mod-eq-sub-mod (omega arith) ∙ mod-eq_of_lt (omega arith))
]

-- The abstract sequence: a full one drops its oldest item.
abbrev pub push {ℓ} : {A : Type ℓ} → ℕ → List A → A → List A
push capacity xs x = if length xs == capacity then drop 1 xs ++ x ∷ [] else xs ++ x ∷ []

module _ {ℓ} {A : Type ℓ} where
  -- `xs` are the items of `q`, oldest first.
  pub record Holds (q : Queue A) (xs : List A) : Type ℓ where
    pub room : 0 < q.capacity
    pub size : length q.items ≡ q.capacity
    pub front_lt : q.front < q.capacity
    pub counted : q.count ≡ length xs
    pub fits : q.count ≤ q.capacity
    pub rear_at : q.rear ≡ (q.front + q.count) % q.capacity
    pub slots :
        (i : ℕ) → i < q.count → get_elem? q.items ((q.front + i) % q.capacity) ≡ get_elem? xs i

  length-drop_one : (xs : List A) → length (drop 1 xs) ≡ length xs - 1
  length-drop_one [] = omega arith
  length-drop_one (x ∷ xs) = omega arith

  module _ (q : Queue A) (xs : List A) (h : Holds q xs) where
    index_ne :
        (i j : ℕ) → i < j → j < q.capacity → (q.front + i) % q.capacity ≢ (q.front + j) % q.capacity
    index_ne i j p r e = omega (
      arith,
      h.front_lt,
      mod_cases (q.front + i) q.capacity (omega (arith, h.front_lt)),
      mod_cases (q.front + j) q.capacity (omega (arith, h.front_lt)),
    )

    rear_lt : q.rear < length q.items
    rear_lt = omega (arith, h.size, h.rear_at, mod-lt (q.front + q.count) h.room)

    old_slot :
        (x : A) (i : ℕ)
        → i < q.count
        → q.count < q.capacity
        → get_elem? (set q.items q.rear x) ((q.front + i) % q.capacity) ≡ get_elem? xs i
    old_slot x i p r =
        get_elem?-set_ne q.items q.rear ((q.front + i) % q.capacity) x
          (λ e. index_ne i q.count p r (sym (sym h.rear_at ∙ e)))
        ∙ h.slots i p

    -- After a write at `rear` the slot of each index up to `count` holds the item of `xs ++ x ∷ []`.
    room_slot :
        (x : A)
        → q.count < q.capacity
        → (i : ℕ) → i < q.count + 1
        → get_elem? (set q.items q.rear x) ((q.front + i) % q.capacity) ≡ get_elem? (xs ++ x ∷ []) i
    room_slot x r i p = elim (dec_lt i q.count) [
      | yes s ↦
          old_slot x i s r ∙ sym (get_elem?-append_left xs (x ∷ []) i (omega (arith, h.counted)))
      | no s ↦
          let last : i ≡ q.count = omega arith in
          ap (λ j. get_elem? (set q.items q.rear x) ((q.front + j) % q.capacity)) last
          ∙ ap (get_elem? (set q.items q.rear x)) (sym h.rear_at)
          ∙ get_elem?-set_self q.items q.rear x rear_lt
          ∙ sym (get_elem?-append_last xs x i (last ∙ h.counted))
    ]

    enqueue_room : (x : A) → q.count < q.capacity → Holds (enqueue q x) (xs ++ x ∷ [])
    unfolding enqueue
    enqueue_room x r =
        let e : (q.count == q.capacity) ≡ false = ground arith in
        rw e record {
          room = h.room;
          size = length-set q.items q.rear x ∙ h.size;
          front_lt = h.front_lt;
          counted = omega (arith, h.counted, length-append xs (x ∷ []));
          fits = omega arith;
          rear_at = rw h.rear_at (
              mod-add-mod (q.front + q.count) q.capacity 1
              ∙ ap (λ n. n % q.capacity) (omega arith));
          slots = room_slot x r;
        }

    rear_front : q.count ≡ q.capacity → q.rear ≡ q.front
    rear_front r =
        h.rear_at
        ∙ ap (λ n. (q.front + n) % q.capacity) r
        ∙ add-mod_right q.front q.capacity
        ∙ mod-eq_of_lt h.front_lt

    -- Index `i` counted from the next front is index `i + 1` from this one.
    next_index :
        (i : ℕ) → ((q.front + 1) % q.capacity + i) % q.capacity ≡ (q.front + (i + 1)) % q.capacity
    next_index i = mod-add-mod (q.front + 1) q.capacity i ∙ ap (λ n. n % q.capacity) (omega arith)

    full_slot :
        (x : A)
        → q.count ≡ q.capacity
        → (i : ℕ) → i < q.count
        → get_elem? (set q.items q.rear x) (((q.front + 1) % q.capacity + i) % q.capacity)
          ≡ get_elem? (drop 1 xs ++ x ∷ []) i
    full_slot x r i p =
        ap (get_elem? (set q.items q.rear x)) (next_index i) ∙ elim (dec_lt (i + 1) q.count) [
          | yes s ↦
              get_elem?-set_ne q.items q.rear ((q.front + (i + 1)) % q.capacity) x (λ e.
                index_ne 0 (i + 1) (omega arith) (omega arith)
                  (front_index ∙ sym (rear_front r) ∙ e))
              ∙ h.slots (i + 1) s
              ∙ ap (get_elem? xs) (add-one i)
              ∙ sym (get_elem?-drop_one xs i)
              ∙ sym (
                  get_elem?-append_left (drop 1 xs) (x ∷ []) i
                    (omega (arith, h.counted, length-drop_one xs)))
          | no s ↦
              ap (get_elem? (set q.items q.rear x))
                (ap (λ n. (q.front + n) % q.capacity) (omega arith) ∙ sym h.rear_at)
              ∙ get_elem?-set_self q.items q.rear x rear_lt
              ∙ sym (
                  get_elem?-append_last (drop 1 xs) x i
                    (omega (arith, h.counted, length-drop_one xs)))
        ]
      where
        front_index : (q.front + 0) % q.capacity ≡ q.front
        front_index = ap (λ n. n % q.capacity) (omega arith) ∙ mod-eq_of_lt h.front_lt

    enqueue_full : (x : A) → q.count ≡ q.capacity → Holds (enqueue q x) (drop 1 xs ++ x ∷ [])
    unfolding enqueue
    enqueue_full x r =
        let e : (q.count == q.capacity) ≡ true = ground arith in
        rw e record {
          room = h.room;
          size = length-set q.items q.rear x ∙ h.size;
          front_lt = mod-lt (q.front + 1) h.room;
          counted =
              omega
                (arith, h.counted, h.room, length-append (drop 1 xs) (x ∷ []), length-drop_one xs);
          fits = h.fits;
          rear_at =
              ap (λ n. (n + 1) % q.capacity) (rear_front r)
              ∙ sym (
                  ap (λ n. ((q.front + 1) % q.capacity + n) % q.capacity) r
                  ∙ add-mod_right ((q.front + 1) % q.capacity) q.capacity
                  ∙ mod-mod (q.front + 1) q.capacity);
          slots = full_slot x r;
        }

    -- Adding an item to a queue that holds a sequence makes it hold the sequence with the item at
    -- the end, without the oldest item if the queue was full.
    pub enqueue-push : (x : A) → Holds (enqueue q x) (push q.capacity xs x)
    enqueue-push x = elim (dec_lt q.count q.capacity) [
      | yes r ↦
          let e : (length xs == q.capacity) ≡ false = ground (arith, h.counted) in
          rw e (enqueue_room x r)
      | no r ↦
          let e : (length xs == q.capacity) ≡ true = ground (arith, h.counted, h.fits) in
          rw e (enqueue_full x (omega (arith, h.fits)))
    ]

  abbrev pub Dequeues : Queue A → List A → Option A × Queue A → Type ℓ
  Dequeues q [] r = (r.0 ≡ none) × (r.1 ≡ q)
  Dequeues q (x ∷ xs) r = (r.0 ≡ some x) × Holds r.1 xs

  -- Removing an item from a queue that holds nothing returns none and changes nothing; from one that
  -- holds `x ∷ xs` it returns `x` and leaves a queue that holds `xs`.
  pub dequeue-Dequeues : (q : Queue A) (xs : List A) → Holds q xs → Dequeues q xs (dequeue q)
  unfolding dequeue
  dequeue-Dequeues q [] h =
      let e : (q.count == 0) ≡ true = ground (arith, h.counted) in rw e (refl, refl)
  dequeue-Dequeues q (x ∷ xs) h =
      let e : (q.count == 0) ≡ false = ground (arith, h.counted) in
      rw e (
        ap (get_elem? q.items)
              (sym (ap (λ n. n % q.capacity) (omega arith) ∙ mod-eq_of_lt h.front_lt))
            ∙ h.slots 0 (omega (arith, h.counted)),
        record {
          room = h.room;
          size = h.size;
          front_lt = mod-lt (q.front + 1) h.room;
          counted = omega (arith, h.counted);
          fits = omega (arith, h.fits);
          rear_at =
              h.rear_at
              ∙ sym (
                  next_index q (x ∷ xs) h (q.count - 1)
                  ∙ ap (λ n. (q.front + n) % q.capacity) (omega (arith, h.counted)));
          slots = λ i p.
              ap (get_elem? q.items) (next_index q (x ∷ xs) h i)
              ∙ h.slots (i + 1) (omega arith)
              ∙ ap (get_elem? (x ∷ xs)) (add-one i);
        },
      )

  pub empty_queue-Holds :
      (blank : A) (capacity : ℕ) → 0 < capacity → Holds (empty_queue blank capacity) []
  empty_queue-Holds blank capacity room = record {
    room = room;
    size = length-replicate capacity blank;
    front_lt = room;
    counted = refl;
    fits = omega arith;
    rear_at = sym (mod-eq_of_lt (omega arith));
    slots = λ i p. absurd (omega arith);
  }

  -- A new queue of a positive capacity holds nothing, and there is none of capacity 0.
  pub create_queue-Holds :
      (blank : A) (capacity : ℕ)
      → ((capacity ≡ 0) × (create_queue blank capacity ≡ none))
        ⊎ ((create_queue blank capacity ≡ some (empty_queue blank capacity))
            × Holds (empty_queue blank capacity) [])
  unfolding create_queue
  create_queue-Holds blank zero = inl (refl, refl)
  create_queue-Holds blank (suc n) =
      let e : (suc n == 0) ≡ false = ground arith in
      rw e (inr (refl, empty_queue-Holds blank (suc n) (omega arith)))
