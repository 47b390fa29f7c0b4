-- ===== src/HashTable/Map.antt =====
-- A table of libs/src/hash_table.c seen as a map from keys to items: what each operation returns and
-- what it does to every key.
use native.Mathlib.Decide.{ℕ_discrete}
use irc_client_server.Base.{
  is_none, ℕ, ◌+◌, ◌%◌, if◌then◌else◌, Bool-cases, Option-cases, ◌≡◌, refl, sym, ap, ◌∙◌, ◌≢◌, inl,
  inr, Bool, false, not, ◌&&◌, Option, none, some, List, [], ◌∷◌, ◌++◌, arith, length, set, get_or,
  get_or-set_self, get_or-set_ne,
}
use irc_client_server.HashTable.Chain.{
  find_in_chain-append, find_in_chain-unlink, length-unlink, total-set,
}
use irc_client_server.HashTable.{
  HashTable, KeyOps, index, chain, find_in_chain, unlink, find_item_in_hash_table, add_item,
  insert_item_to_hash_table, drop_item, remove_item_from_hash_table, get_total_items,
  is_hash_table_full, is_hash_table_empty,
}
use irc_client_server.HashTable.Validity.{
  IsValid, index_lt, find_item-chain, add_item-IsValid, drop_item-IsValid,
}

abbrev pub found {ℓ} : {A : Type ℓ} → Option A → ℕ
found none = 0
found (some x) = 1

module _ {K V : Type 0} (ops : KeyOps K) where
  -- What an insertion of `item` that returned `r` did.
  pub record Inserts (t : HashTable K V) (item : K × V) (r : Bool × HashTable K V) : Type 0 where
    pub decides : r.0 ≡ not (is_hash_table_full t) && is_none (find_item_in_hash_table ops t item.0)
    pub reads :
        (q : K)
        → find_item_in_hash_table ops r.1 q
          ≡ (if r.0 && ops.equal item.0 q then some item else find_item_in_hash_table ops t q)
    pub counts : get_total_items r.1 ≡ (if r.0 then get_total_items t + 1 else get_total_items t)

  -- What a removal of `key` that returned `r` did.
  pub record Removes (t : HashTable K V) (key : K) (r : Option (K × V) × HashTable K V)
      : Type 0 where
    pub returns : r.0 ≡ find_item_in_hash_table ops t key
    pub reads :
        (q : K)
        → find_item_in_hash_table ops r.1 q
          ≡ (if ops.equal key q then none else find_item_in_hash_table ops t q)
    pub counts : get_total_items r.1 + found r.0 ≡ get_total_items t

  module _ (t : HashTable K V) (v : IsValid ops t) where
    -- A write to the chain of `key` is seen from every key's own chain.
    reads_written :
        (key : K) (c : List (K × V)) (new : Option (K × V))
        → ((q : K)
            → find_in_chain ops q c
              ≡ (if ops.equal key q then new else find_in_chain ops q (chain ops t key)))
        → (q : K)
        → find_in_chain ops q (get_or (set t.items (index ops t key) c) (index ops t q) [])
          ≡ (if ops.equal key q then new else find_in_chain ops q (chain ops t q))
    reads_written key c new h q = elim (ℕ_discrete (index ops t key) (index ops t q)) [
      | yes same ↦
          rw (← same)
            (rw (get_or-set_self t.items (index ops t key) c [] (index_lt ops t v key)) (h q))
      | no other ↦
          rw (get_or-set_ne t.items (index ops t key) (index ops t q) c [] other, apart other) refl
    ]
      where
        apart : index ops t key ≢ index ops t q → ops.equal key q ≡ false
        apart other = elim (Bool-cases (ops.equal key q)) [
          | inl e ↦ absurd (other (ap (index ops t) ((ops.equal_iff key q).0 e)))
          | inr e ↦ e
        ]

    -- The chain that an insertion leaves is the old one with the item at its end.
    add_item-items :
        (item : K × V) (c : List (K × V))
        → ((add_item ops t item c).items ≡ set t.items (index ops t item.0) (c ++ item ∷ []))
          × (get_total_items (add_item ops t item c) ≡ get_total_items t + 1)
    unfolding add_item
    add_item-items item [] = (refl, omega arith)
    add_item-items item (x ∷ c) = (refl, omega arith)

    add_item-capacity :
        (item : K × V) (c : List (K × V)) → (add_item ops t item c).capacity ≡ t.capacity
    unfolding add_item
    add_item-capacity item [] = refl
    add_item-capacity item (x ∷ c) = refl

    add_item-reads :
        (item : K × V)
        → find_item_in_hash_table ops t item.0 ≡ none
        → IsValid ops (add_item ops t item (chain ops t item.0))
        → (q : K)
        → find_item_in_hash_table ops (add_item ops t item (chain ops t item.0)) q
          ≡ (if ops.equal item.0 q then some item else find_item_in_hash_table ops t q)
    add_item-reads item absent v' q =
        let c = chain ops t item.0 in
        let fresh = sym (find_item-chain ops t v item.0) ∙ absent in
        let where_now : chain ops (add_item ops t item c) q
            ≡ get_or (set t.items (index ops t item.0) (c ++ item ∷ [])) (index ops t q) [] =
          λ i. get_or ((add_item-items item c).0 i) (ops.hash q % add_item-capacity item c i) [] in
        find_item-chain ops (add_item ops t item c) v' q
        ∙ ap (find_in_chain ops q) where_now
        ∙ reads_written item.0 (c ++ item ∷ []) (some item)
            (λ k. find_in_chain-append ops k c item fresh) q
        ∙ ap (λ o. if ops.equal item.0 q then some item else o) (sym (find_item-chain ops t v q))

    -- An insertion into a well-formed table succeeds exactly if the table is not full and the key is
    -- absent; then the key finds the new item, every other key finds what it found before, and there
    -- is one item more. Otherwise every key finds what it found before and the number of items stays.
    pub insert-Inserts : (item : K × V) → Inserts t item (insert_item_to_hash_table ops t item)
    unfolding insert_item_to_hash_table
    insert-Inserts item = elim (Bool-cases (is_hash_table_full t)) [
      | inl e ↦
          rw (e, insert_item_to_hash_table)
            (record { decides = rw e; reads = λ q. refl; counts = refl })
      | inr e ↦ elim (Option-cases (find_item_in_hash_table ops t item.0)) [
        | inr (x, present) ↦
            rw (e, insert_item_to_hash_table)
              (rw present (record { decides = rw (e, present); reads = λ q. refl; counts = refl }))
        | inl absent ↦
            let v' =
              add_item-IsValid ops t v item (sym (find_item-chain ops t v item.0) ∙ absent)
                (chain ops t item.0) refl in
            rw (e, insert_item_to_hash_table)
              (rw absent (record {
                decides = rw (e, absent);
                reads = add_item-reads item absent v';
                counts = (add_item-items item (chain ops t item.0)).1;
              }))
      ]
    ]

    drop_item-reads :
        (key : K) (item : K × V)
        → find_in_chain ops key (chain ops t key) ≡ some item
        → (q : K)
        → find_item_in_hash_table ops (drop_item ops t key) q
          ≡ (if ops.equal key q then none else find_item_in_hash_table ops t q)
    unfolding drop_item
    drop_item-reads key item present q =
        let c = chain ops t key in
        find_item-chain ops (drop_item ops t key) (drop_item-IsValid ops t v key item present) q
        ∙ reads_written key (unlink ops key c) none
            (λ k. find_in_chain-unlink ops key k c (v.distinct (index ops t key))) q
        ∙ ap (λ o. if ops.equal key q then none else o) (sym (find_item-chain ops t v q))

    drop_item-total :
        (key : K) (item : K × V)
        → find_in_chain ops key (chain ops t key) ≡ some item
        → get_total_items (drop_item ops t key) + 1 ≡ get_total_items t
    unfolding drop_item
    drop_item-total key item present =
        let c = chain ops t key in
        omega (
          arith,
          (drop_item-IsValid ops t v key item present).stored,
          v.stored,
          length-unlink ops key c item present,
          total-set length t.items (index ops t key) (unlink ops key c) [] (index_lt ops t v key),
        )

    -- With nothing found, clearing the key changes no lookup.
    clear_absent :
        (key q : K)
        → find_item_in_hash_table ops t key ≡ none
        → find_item_in_hash_table ops t q
          ≡ (if ops.equal key q then none else find_item_in_hash_table ops t q)
    clear_absent key q absent = elim (Bool-cases (ops.equal key q)) [
      | inl e ↦ rw e (ap (find_item_in_hash_table ops t) (sym ((ops.equal_iff key q).0 e)) ∙ absent)
      | inr e ↦ rw e
    ]

    -- A removal from a well-formed table returns the item that the key finds; afterwards the key finds
    -- nothing, every other key finds what it found before, and an item that was found is one less.
    pub remove-Removes : (key : K) → Removes t key (remove_item_from_hash_table ops t key)
    unfolding remove_item_from_hash_table
    remove-Removes key = elim (Bool-cases (is_hash_table_empty t)) [
      | inl e ↦
          rw (e, remove_item_from_hash_table)
            (nothing_found (unfold find_item_in_hash_table in rw e))
      | inr e ↦ elim (Option-cases (find_in_chain ops key (chain ops t key))) [
        | inl absent ↦
            rw (e, remove_item_from_hash_table)
              (rw absent (nothing_found (find_item-chain ops t v key ∙ absent)))
        | inr (x, present) ↦
            rw (e, remove_item_from_hash_table)
              (rw present (record {
                returns = sym (find_item-chain ops t v key ∙ present);
                reads = drop_item-reads key x present;
                counts = drop_item-total key x present;
              }))
      ]
    ]
      where
        nothing_found : find_item_in_hash_table ops t key ≡ none → Removes t key (none, t)
        nothing_found absent = record {
          returns = sym absent;
          reads = λ q. clear_absent key q absent;
          counts = omega arith;
        }
