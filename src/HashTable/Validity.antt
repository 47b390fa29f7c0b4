-- ===== src/HashTable/Validity.antt =====
-- Well-formed tables of libs/src/hash_table.c, and the tables that its operations lead to.
use native.Mathlib.Nat.{mod-lt}
use native.Mathlib.Decide.{ℕ_discrete}
use irc_client_server.Base.{
  ℕ, zero, suc, ◌+◌, ◌-◌, ◌%◌, ◌≤◌, ◌<◌, ◌==◌, some_eq, Bool-cases, Option-cases, ◌≡◌, refl, sym,
  ap, ◌∙◌, inl, inr, true, false, ◌&&◌, Option, none, some, List, [], ◌∷◌, ◌++◌, arith, length, set,
  get_or, replicate, length-append, length-set, length-replicate, get_or-replicate, get_or-set_self,
  get_or-set_ne, All,
}
use irc_client_server.HashTable.Chain.{
  total, total-set, IsDistinct, IsDistinct-append, IsDistinct-unlink, All-append, All-unlink,
  length-unlink,
}
use mathlib.Core.Path.{subst}
use irc_client_server.HashTable.{
  HashTable, calculate_table_capacity, KeyOps, new_table, create_hash_table, index, chain,
  find_in_chain, unlink, find_item_in_hash_table, add_item, insert_item_to_hash_table, drop_item,
  remove_item_from_hash_table, is_null, stops_first, get_total_items, is_hash_table_full,
  is_hash_table_empty,
}

abbrev pub occupied {ℓ} : {A : Type ℓ} → List A → ℕ
occupied [] = 0
occupied (x ∷ xs) = 1

pub record IsValid {K V : Type 0} (ops : KeyOps K) (t : HashTable K V) : Type 0 where
  pub room : 0 < t.capacity
  pub width : length t.items ≡ t.capacity
  -- The chains in use are counted, and so are all items.
  pub used : t.item_count ≡ total occupied t.items
  pub stored : t.item_count + t.link_count ≡ total length t.items
  -- No key occurs twice, and every item stands in the chain of its key.
  pub distinct : (i : ℕ) → IsDistinct ops (get_or t.items i [])
  pub placed : (i : ℕ) → All (λ item. ops.hash item.0 % t.capacity ≡ i) (get_or t.items i [])

occupied_le {ℓ} : {A : Type ℓ} (c : List A) → occupied c ≤ length c
occupied_le [] = omega arith
occupied_le (x ∷ c) = omega arith

total-occupied_le {ℓ} : {A : Type ℓ} (xs : List (List A)) → total occupied xs ≤ total length xs
total-occupied_le [] = omega arith
total-occupied_le (c ∷ xs) = omega (arith, occupied_le c, total-occupied_le xs)

full_one {ℓ} : {A : Type ℓ} (c : List A) → 0 < length c → occupied c ≡ 1
full_one [] h = elim h [ ]
full_one (x ∷ c) h = refl

-- The chain that is longer than one item takes its part in `link_count`.
total_slack {ℓ} :
    {A : Type ℓ} (xs : List (List A)) (i : ℕ)
    → i < length xs
    → (occupied (get_or xs i []) ≤ total occupied xs)
      × (total occupied xs + length (get_or xs i []) ≤ total length xs + occupied (get_or xs i []))
total_slack [] i h = elim h [ ]
total_slack (c ∷ xs) zero h = (omega arith, omega (arith, total-occupied_le xs))
total_slack (c ∷ xs) (suc i) h = omega (arith, occupied_le c, total_slack xs i (omega arith))

module _ {K V : Type 0} (ops : KeyOps K) where
  -- What is left of a chain is empty only if the walk stopped at its first item.
  null_last :
      (key : K) (c : List (K × V)) (item : K × V)
      → find_in_chain ops key c ≡ some item
      → (stops_first ops key c && is_null ops (unlink ops key c)) ≡ is_null ops (unlink ops key c)
  unfolding find_in_chain unlink
  null_last key [] item h = cc
  null_last key (x ∷ c) item h = ground arith

  null_sizes : (c : List (K × V)) → is_null ops c ≡ true → (length c ≡ 0) × (occupied c ≡ 0)
  null_sizes [] h = (refl, refl)
  null_sizes (x ∷ c) h = cc

  sizes : (c : List (K × V)) → is_null ops c ≡ false → (0 < length c) × (occupied c ≡ 1)
  sizes [] h = cc
  sizes (x ∷ c) h = (omega arith, refl)

module _ {K V : Type 0} (ops : KeyOps K) where
  pub new_table-IsValid :
      (capacity load_factor : ℕ)
      → 0 < capacity
      → IsValid {V = V} ops (new_table capacity load_factor)
  new_table-IsValid capacity load_factor room = record {
    room = room;
    width = length-replicate capacity [];
    used = sym (none_used capacity);
    stored = sym (none_stored capacity);
    distinct = λ i. rw (get_or-replicate {A = List (K × V)} capacity i []) tt;
    placed = λ i. rw (get_or-replicate {A = List (K × V)} capacity i []) tt;
  }
    where
      none_used : (n : ℕ) → total occupied (replicate n (let c : List (K × V) = [] in c)) ≡ 0
      none_used zero = refl
      none_used (suc n) = omega (arith, none_used n)

      none_stored : (n : ℕ) → total length (replicate n (let c : List (K × V) = [] in c)) ≡ 0
      none_stored zero = refl
      none_stored (suc n) = omega (arith, none_stored n)

  module _ (t : HashTable K V) (v : IsValid ops t) where
    pub index_lt : (key : K) → index ops t key < length t.items
    index_lt key = omega (arith, v.width, mod-lt (ops.hash key) v.room)

    slack :
        (key : K)
        → (occupied (chain ops t key) ≤ total occupied t.items)
          × (total occupied t.items + length (chain ops t key)
              ≤ total length t.items + occupied (chain ops t key))
    slack key = total_slack t.items (index ops t key) (index_lt key)

    -- Another chain in place of the one of `key`, with counts that follow it.
    replace :
        (key : K) (c : List (K × V)) (item_count link_count : ℕ)
        → item_count + occupied (chain ops t key) ≡ t.item_count + occupied c
        → item_count + link_count + length (chain ops t key) ≡ get_total_items t + length c
        → IsDistinct ops c
        → All (λ item. ops.hash item.0 % t.capacity ≡ index ops t key) c
        → IsValid ops (record t {
          items = set t.items (index ops t key) c;
          item_count = item_count;
          link_count = link_count;
        })
    replace key c n m e f d p = record {
      room = v.room;
      width = length-set t.items (index ops t key) c ∙ v.width;
      used =
          omega (arith, v.used, total-set occupied t.items (index ops t key) c [] (index_lt key));
      stored =
          omega (arith, v.stored, total-set length t.items (index ops t key) c [] (index_lt key));
      distinct = λ i. elim (ℕ_discrete (index ops t key) i) [
        | yes same ↦
            rw (← same) (rw (get_or-set_self t.items (index ops t key) c [] (index_lt key)) d)
        | no other ↦ rw (get_or-set_ne t.items (index ops t key) i c [] other) (v.distinct i)
      ];
      placed = λ i. elim (ℕ_discrete (index ops t key) i) [
        | yes same ↦
            rw (← same) (rw (get_or-set_self t.items (index ops t key) c [] (index_lt key)) p)
        | no other ↦ rw (get_or-set_ne t.items (index ops t key) i c [] other) (v.placed i)
      ];
    }

    pub add_item-IsValid :
        (item : K × V)
        → find_in_chain ops item.0 (chain ops t item.0) ≡ none
        → (c : List (K × V)) → chain ops t item.0 ≡ c
        → IsValid ops (add_item ops t item c)
    unfolding add_item
    add_item-IsValid item fresh [] e =
        replace item.0 (item ∷ []) (t.item_count + 1) t.link_count (omega (arith, ap occupied e))
          (omega (arith, ap length e)) (IsDistinct-append ops [] item (rw e at fresh) tt) (refl, tt)
    add_item-IsValid item fresh (first ∷ rest) e =
        replace item.0 (first ∷ rest ++ item ∷ []) t.item_count (t.link_count + 1)
          (omega (arith, ap occupied e))
          (omega (arith, ap length e, length-append rest (item ∷ [])))
          (IsDistinct-append ops (first ∷ rest) item (rw e at fresh)
            (rw e at (v.distinct (index ops t item.0))))
          (All-append _ (first ∷ rest) item (rw e at (v.placed (index ops t item.0))) refl)

    pub drop_item-IsValid :
        (key : K) (item : K × V)
        → find_in_chain ops key (chain ops t key) ≡ some item
        → IsValid ops (drop_item ops t key)
    unfolding drop_item
    drop_item-IsValid key item found =
        let c = chain ops t key in
        let shorter = length-unlink ops key c item found in
        elim (Bool-cases (is_null ops (unlink ops key c))) [
          | inl e ↦
              rw (null_last ops key c item found, e)
                (replace key (unlink ops key c) (t.item_count - 1) t.link_count
                  (omega (
                    arith,
                    null_sizes ops (unlink ops key c) e,
                    shorter,
                    full_one c (omega (arith, null_sizes ops (unlink ops key c) e, shorter)),
                    slack key,
                    v.used,
                  ))
                  (omega (
                    arith,
                    null_sizes ops (unlink ops key c) e,
                    shorter,
                    full_one c (omega (arith, null_sizes ops (unlink ops key c) e, shorter)),
                    slack key,
                    v.used,
                  ))
                  (IsDistinct-unlink ops key c (v.distinct _))
                  (All-unlink ops _ key c (v.placed _)))
          | inr e ↦
              rw (null_last ops key c item found, e)
                (replace key (unlink ops key c) t.item_count (t.link_count - 1)
                  (omega
                    (arith, sizes ops (unlink ops key c) e, full_one c (omega (arith, shorter))))
                  (omega (
                    arith,
                    sizes ops (unlink ops key c) e,
                    shorter,
                    full_one c (omega (arith, shorter)),
                    slack key,
                    v.used,
                    v.stored,
                  ))
                  (IsDistinct-unlink ops key c (v.distinct _))
                  (All-unlink ops _ key c (v.placed _)))
        ]

    -- With a count of zero every chain is empty, so the test for an empty table loses no item.
    pub find_item-chain :
        (key : K) → find_item_in_hash_table ops t key ≡ find_in_chain ops key (chain ops t key)
    unfolding find_item_in_hash_table
    find_item-chain key = elim (Bool-cases (t.item_count == 0)) [
      | inl e ↦ rw e (sym (unused (chain ops t key) (ground (arith, slack key, v.used))))
      | inr e ↦ rw e
    ]
      where
        unused : (c : List (K × V)) → occupied c ≡ 0 → find_in_chain ops key c ≡ none
        unused [] h = unfold find_in_chain in refl
        unused (x ∷ c) h = absurd (omega arith)

    pub insert-IsValid : (item : K × V) → IsValid ops (insert_item_to_hash_table ops t item).1
    unfolding insert_item_to_hash_table
    insert-IsValid item = elim (Bool-cases (is_hash_table_full t)) [
      | inl e ↦ rw e v
      | inr e ↦ rw e (elim (Option-cases (find_item_in_hash_table ops t item.0)) [
        | inl absent ↦ rw absent (
            add_item-IsValid item (sym (find_item-chain item.0) ∙ absent) (chain ops t item.0) refl)
        | inr (x, present) ↦ rw present v
      ])
    ]

    pub remove-IsValid : (key : K) → IsValid ops (remove_item_from_hash_table ops t key).1
    unfolding remove_item_from_hash_table
    remove-IsValid key = elim (Bool-cases (is_hash_table_empty t)) [
      | inl e ↦ rw e v
      | inr e ↦ rw e (elim (Option-cases (find_in_chain ops key (chain ops t key))) [
        | inl absent ↦ rw absent v
        | inr (x, present) ↦ rw present (drop_item-IsValid key x present)
      ])
    ]

-- The tables that insertions and removals lead to from a new one.
pub data Reached {K V : Type 0} (ops : KeyOps K) : HashTable K V → Type 0 where
  new :
      {t : HashTable K V} (max_items load_factor : ℕ)
      → create_hash_table max_items load_factor ≡ some t
      → Reached ops t
  insert :
      {t : HashTable K V} (item : K × V)
      → Reached ops t
      → Reached ops (insert_item_to_hash_table ops t item).1
  remove :
      {t : HashTable K V} (key : K)
      → Reached ops t
      → Reached ops (remove_item_from_hash_table ops t key).1

module _ {K V : Type 0} (ops : KeyOps K) where
  create_hash_table-IsValid :
      (max_items load_factor : ℕ) (t : HashTable K V)
      → create_hash_table max_items load_factor ≡ some t
      → IsValid ops t
  unfolding create_hash_table
  create_hash_table-IsValid max_items load_factor t h =
      elim (Bool-cases (calculate_table_capacity max_items load_factor == 0)) [
        | inl e ↦
            (let bad : ◌≡◌ {A = Option (HashTable K V)} none (some t) =
                rw (e, create_hash_table) at h in
              cc)
        | inr e ↦ subst (IsValid ops) (some_eq (rw (e, create_hash_table) at h)) (
            new_table-IsValid ops (calculate_table_capacity max_items load_factor) load_factor
              (ground arith))
      ]

  -- Every table that the operations lead to is well formed: the two counts add up to the items
  -- stored, the first counts the chains in use, no key occurs twice, and each item stands in the chain
  -- that its key hashes to.
  pub Reached-IsValid : {t : HashTable K V} → Reached ops t → IsValid ops t
  Reached-IsValid (new max_items load_factor h) =
      create_hash_table-IsValid max_items load_factor _ h
  Reached-IsValid (insert item r) = insert-IsValid ops _ (Reached-IsValid r) item
  Reached-IsValid (remove key r) = remove-IsValid ops _ (Reached-IsValid r) key
