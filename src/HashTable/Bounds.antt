-- ===== src/HashTable/Bounds.antt =====
-- The size of a table of libs/src/hash_table.c: the capacity that it is created with, and the limit on
-- the number of its items.
use irc_client_server.Base.{
  is_none, ℕ, zero, suc, ◌+◌, ◌*◌, ◌/◌, ◌%◌, ◌≤◌, ◌<◌, ◌==◌, if◌then◌else◌, some_eq, Bool-cases,
  ◌≡◌, refl, ap, ◌⊎◌, inl, inr, Bool, not, ◌&&◌, Option, none, some, List, [], ◌∷◌, arith,
}
use irc_client_server.HashTable.{
  HashTable, KeyOps, create_hash_table, get_valid_load_factor, calculate_table_capacity,
  insert_item_to_hash_table, remove_item_from_hash_table, add_item, drop_item,
  find_item_in_hash_table, chain, get_total_items, is_hash_table_full,
}
use irc_client_server.HashTable.Validity.{Reached, new, insert, remove, Reached-IsValid}
use irc_client_server.HashTable.Map.{insert-Inserts, remove-Removes}

valid_factor :
    (load_factor : ℕ)
    → (get_valid_load_factor load_factor ≡ 1) ⊎ (get_valid_load_factor load_factor ≡ 2)
valid_factor zero = inl refl
valid_factor (suc zero) = inl refl
valid_factor (suc (suc zero)) = inr refl
valid_factor (suc (suc (suc n))) = inr (ground arith)

least :
    (n f : ℕ)
    → (f ≡ 1) ⊎ (f ≡ 2)
    → let capacity = if n % f == 0 then n / f else n / f + 1 in
      (n ≤ f * capacity) × (f * capacity < n + f)
least n f (inl e) = rw e (ground arith)
least n f (inr e) = rw e (ground arith)

-- The capacity is the least one that holds the wanted number of items at the load factor.
pub calculate_table_capacity_least :
    (item_count load_factor : ℕ)
    → let factor = get_valid_load_factor load_factor in
      let capacity = calculate_table_capacity item_count load_factor in
      (item_count ≤ factor * capacity) × (factor * capacity < item_count + factor)
unfolding calculate_table_capacity
calculate_table_capacity_least item_count load_factor =
    least item_count (get_valid_load_factor load_factor) (valid_factor load_factor)

module _ {K V : Type 0} (ops : KeyOps K) where
  -- An operation keeps the capacity and the load factor.
  abbrev pub SameShape : HashTable K V → HashTable K V → Type 0
  SameShape t t' = (t'.capacity ≡ t.capacity) × (t'.load_factor ≡ t.load_factor)

  add_item-shape :
      (t : HashTable K V) (item : K × V) (c : List (K × V)) → SameShape t (add_item ops t item c)
  unfolding add_item
  add_item-shape t item [] = (refl, refl)
  add_item-shape t item (x ∷ c) = (refl, refl)

  pub insert-shape :
      (t : HashTable K V) (item : K × V) → SameShape t (insert_item_to_hash_table ops t item).1
  unfolding insert_item_to_hash_table
  insert-shape t item = ground (arith, add_item-shape t item (chain ops t item.0))

  pub remove-shape :
      (t : HashTable K V) (key : K) → SameShape t (remove_item_from_hash_table ops t key).1
  unfolding remove_item_from_hash_table drop_item
  remove-shape t key = ground arith

  new_bounded :
      (max_items load_factor : ℕ) (t : HashTable K V)
      → create_hash_table max_items load_factor ≡ some t
      → get_total_items t ≤ t.load_factor * t.capacity
  unfolding create_hash_table
  new_bounded max_items load_factor t h =
      elim (Bool-cases (calculate_table_capacity max_items load_factor == 0)) [
        | inl e ↦
            let bad : ◌≡◌ {A = Option (HashTable K V)} none (some t) =
              rw (e, create_hash_table) at h in
            absurd (cc)
        | inr e ↦ omega (arith, ap get_total_items (some_eq (rw (e, create_hash_table) at h)))
      ]

  -- The test of a full table keeps room for the item that an insertion adds.
  grow_bounded :
      (t : HashTable K V) (inserted : Bool) (o : Option (K × V))
      → 0 < t.capacity
      → get_total_items t ≤ t.load_factor * t.capacity
      → inserted ≡ not (is_hash_table_full t) && is_none o
      → (if inserted then get_total_items t + 1 else get_total_items t) ≤ t.load_factor * t.capacity
  grow_bounded t inserted o room h d = ground arith

  -- A table that insertions and removals lead to from a new one never holds more items than its
  -- load factor times its capacity.
  pub Reached-bounded :
      {t : HashTable K V} → Reached ops t → get_total_items t ≤ t.load_factor * t.capacity
  Reached-bounded (new max_items load_factor h) = new_bounded max_items load_factor _ h
  Reached-bounded {t} (insert {t = t₀} item r) =
      let i = insert-Inserts ops t₀ (Reached-IsValid ops r) item in
      let s = insert-shape t₀ item in
      rw (s.0, s.1, i.counts)
        (grow_bounded t₀ (insert_item_to_hash_table ops t₀ item).0
          (find_item_in_hash_table ops t₀ item.0) (Reached-IsValid ops r).room (Reached-bounded r)
          i.decides)
  Reached-bounded {t} (remove {t = t₀} key r) =
      let i = remove-Removes ops t₀ (Reached-IsValid ops r) key in
      let s = remove-shape t₀ key in rw (s.0, s.1) (omega (arith, i.counts, Reached-bounded r))
