-- ===== src/Examples/Tables.antt =====
-- Runs of the hash table of libs/src/hash_table.c, with nicknames for keys and sockets for values.
use irc_client_server.Base.{ℕ, ◌*◌, ◌≤◌, refl, List, [], ◌∷◌}
use irc_client_server.HashTable.{
  HashTable, create_hash_table, new_table, calculate_table_capacity, insert_item_to_hash_table,
  remove_item_from_hash_table, get_total_items,
}
use irc_client_server.HashTable.Hashes.{string_keys}
use irc_client_server.HashTable.Validity.{IsValid, Reached, new, insert, Reached-IsValid}
use irc_client_server.HashTable.Map.{Inserts, Removes, insert-Inserts, remove-Removes}
use irc_client_server.HashTable.Bounds.{Reached-bounded}

-- "ana"
abbrev ana : List ℕ
ana = b'a' ∷ b'n' ∷ b'a' ∷ []

-- "ivo"
abbrev ivo : List ℕ
ivo = b'i' ∷ b'v' ∷ b'o' ∷ []

abbrev with_ana : HashTable (List ℕ) ℕ
with_ana = (insert_item_to_hash_table string_keys (new_table 2 1) (ana, 4)).1

with_ana-Reached : Reached string_keys with_ana
unfolding create_hash_table calculate_table_capacity
with_ana-Reached = insert (ana, 4) (new 2 1 refl)

Reached-IsValid_example : IsValid string_keys with_ana
Reached-IsValid_example = Reached-IsValid string_keys with_ana-Reached

insert-Inserts_example :
    Inserts string_keys with_ana (ivo, 5) (insert_item_to_hash_table string_keys with_ana (ivo, 5))
insert-Inserts_example =
    insert-Inserts string_keys with_ana (Reached-IsValid string_keys with_ana-Reached) (ivo, 5)

remove-Removes_example :
    Removes string_keys with_ana ana (remove_item_from_hash_table string_keys with_ana ana)
remove-Removes_example =
    remove-Removes string_keys with_ana (Reached-IsValid string_keys with_ana-Reached) ana

Reached-bounded_example : get_total_items with_ana ≤ with_ana.load_factor * with_ana.capacity
Reached-bounded_example = Reached-bounded string_keys with_ana-Reached
