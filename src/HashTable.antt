-- ===== src/HashTable.antt =====
-- libs/src/hash_table.c: a table of chains of a fixed capacity that refuses insertions once its load
-- factor is reached. `items` is the array of chains, and a chain is the list of its key-value pairs;
-- `item_count` counts the chains in use and `link_count` the further items in them.
-- The hash and comparison functions that a table carries are the interface `KeyOps`. A load factor
-- is an integer, as the field that stores it is; a factor of zero or less is 0. For counts below
-- 2^22 the float quotient of `calculate_load_factor` compares with an integer as the fraction does.
-- Removal returns the pair whose key and value the source deletes.
pub mod Hashes
pub mod Chain
pub mod Validity
pub mod Map
pub mod Bounds
use irc_client_server.Base.{
  ℕ, zero, suc, ◌+◌, ◌-◌, ◌*◌, ◌/◌, ◌%◌, ◌^◌, ◌≤◌, ◌<◌, min, bit_xor, ltb, leb, ◌==◌, if◌then◌else◌,
  ltb→lt, lt→ltb, ==_iff, ==_refl, Bool-cases, Option-cases, ◌≡◌, refl, sym, ap, ◌∙◌, ◌≢◌, ◌↔◌, ◌⊎◌,
  inl, inr, Bool, true, false, not, ◌&&◌, ◌||◌, Option, none, some, List, [], ◌∷◌, ◌++◌, map, arith,
  length, get_elem?, set, get_or, replicate, take, drop, length-append, length-set,
  length-replicate, get_or-replicate, get_or-set_self, get_or-set_ne, get_elem?-set_self,
  get_elem?-set_ne, get_elem?-append_left, get_elem?-append_last, get_elem?-drop_one, All,
}

-- A hash function and a comparison function, with what a table asks of them.
pub record KeyOps (K : Type 0) : Type 0 where
  pub hash : K → ℕ
  pub equal : K → K → Bool
  pub equal_iff : (a b : K) → (equal a b ≡ true) ↔ (a ≡ b)

pub record HashTable (K V : Type 0) : Type 0 where
  pub items : List (List (K × V))
  pub load_factor : ℕ
  pub item_count : ℕ
  pub link_count : ℕ
  pub capacity : ℕ

abbrev pub get_valid_load_factor : ℕ → ℕ
get_valid_load_factor load_factor =
    if load_factor == 0 then 1 else if ltb 2 load_factor then 2 else load_factor

unfoldable pub calculate_table_capacity : ℕ → ℕ → ℕ
calculate_table_capacity item_count load_factor =
    let factor = get_valid_load_factor load_factor in
    if item_count % factor == 0 then item_count / factor else item_count / factor + 1

module _ {K V : Type 0} where
  abbrev pub new_table : ℕ → ℕ → HashTable K V
  new_table capacity load_factor = record {
    items = replicate capacity [];
    load_factor = get_valid_load_factor load_factor;
    item_count = 0;
    link_count = 0;
    capacity = capacity;
  }

  unfoldable pub create_hash_table : ℕ → ℕ → Option (HashTable K V)
  create_hash_table max_items load_factor =
      let capacity = calculate_table_capacity max_items load_factor in
      if capacity == 0 then none else some (new_table capacity load_factor)

  -- The items that `delete_hash_table` deletes, in the order of the deletions.
  pub delete_hash_table : List (List (K × V)) → List (K × V)
  delete_hash_table [] = []
  delete_hash_table (c ∷ cs) = c ++ delete_hash_table cs

  abbrev pub get_total_items : HashTable K V → ℕ
  get_total_items t = t.item_count + t.link_count

  abbrev pub is_hash_table_empty : HashTable K V → Bool
  is_hash_table_empty t = t.item_count == 0

  -- `calculate_load_factor(table) >= loadFactor`; the load of a table of capacity 0 is 0.
  abbrev pub is_hash_table_full : HashTable K V → Bool
  is_hash_table_full t =
      if t.capacity == 0
      then t.load_factor == 0
      else leb (t.load_factor * t.capacity) (get_total_items t)

  abbrev pub get_value : Option (K × V) → Option V
  get_value none = none
  get_value (some item) = some item.1

  abbrev pub get_key : Option (K × V) → Option K
  get_key none = none
  get_key (some item) = some item.0

  module _ (ops : KeyOps K) where
    abbrev pub index : HashTable K V → K → ℕ
    index t key = ops.hash key % t.capacity

    abbrev pub chain : HashTable K V → K → List (K × V)
    chain t key = get_or t.items (index t key) []

    -- The walk along a chain up to the first item with the key.
    unfoldable pub find_in_chain : K → List (K × V) → Option (K × V)
    find_in_chain key [] = none
    find_in_chain key (item ∷ items) =
        if ops.equal item.0 key then some item else find_in_chain key items

    -- The chain without that item.
    pub unlink : K → List (K × V) → List (K × V)
    unlink key [] = []
    unlink key (item ∷ items) = if ops.equal item.0 key then items else item ∷ unlink key items

    -- Whether the walk stops at the first item, where `previous` is null.
    abbrev pub stops_first : K → List (K × V) → Bool
    stops_first key [] = false
    stops_first key (item ∷ items) = ops.equal item.0 key

    unfoldable pub find_item_in_hash_table : HashTable K V → K → Option (K × V)
    find_item_in_hash_table t key =
        if is_hash_table_empty t then none else find_in_chain key (chain t key)

    -- An item put at the end of its chain.
    unfoldable pub add_item : HashTable K V → K × V → List (K × V) → HashTable K V
    add_item t item [] = record t {
      items = set t.items (index t item.0) (item ∷ []);
      item_count = t.item_count + 1;
    }
    add_item t item (first ∷ rest) = record t {
      items = set t.items (index t item.0) ((first ∷ rest) ++ item ∷ []);
      link_count = t.link_count + 1;
    }

    unfoldable pub insert_item_to_hash_table : HashTable K V → K × V → Bool × HashTable K V
    insert_item_to_hash_table t item =
        if is_hash_table_full t then (false, t) else elim (find_item_in_hash_table t item.0) [
          | some found ↦ (false, t)
          | none ↦ (true, add_item t item (chain t item.0))
        ]

    abbrev pub is_null : List (K × V) → Bool
    is_null [] = true
    is_null (item ∷ items) = false

    -- The table without the item that the walk stopped at.
    unfoldable pub drop_item : HashTable K V → K → HashTable K V
    drop_item t key =
        let rest = unlink key (chain t key) in
        let last = stops_first key (chain t key) && is_null rest in
        record t {
          items = set t.items (index t key) rest;
          item_count = if last then t.item_count - 1 else t.item_count;
          link_count = if last then t.link_count else t.link_count - 1;
        }

    unfoldable pub remove_item_from_hash_table : HashTable K V → K → Option (K × V) × HashTable K V
    remove_item_from_hash_table t key =
        if is_hash_table_empty t then (none, t) else elim (find_in_chain key (chain t key)) [
          | none ↦ (none, t)
          | some item ↦ (some item, drop_item t key)
        ]
