-- ===== src/Examples/Lists.antt =====
-- Runs of the linked list of libs/src/linked_list.c.
use irc_client_server.Base.{ℕ, ◌==◌, ==_refl, ◌≡◌, refl, some, [], ◌∷◌, arith}
use irc_client_server.LinkedList.{
  LinkedList, at, append_node, remove_node, find_data, reset_iterator,
}
use irc_client_server.LinkedList.Search.{
  Removes, Finds, remove_node-Removes, find_data-Finds, remove_node-append_node,
}
use irc_client_server.LinkedList.Validity.{IsValid, remove, Step-IsValid}
use irc_client_server.LinkedList.Iteration.{
  visit_all, visit_removing, visit_all-reset_iterator, visit_removing-reset_iterator,
}

abbrev numbers : LinkedList ℕ
numbers = record { nodes = 3 ∷ 5 ∷ 3 ∷ []; iterator = at 2; count = 3 }

numbers-IsValid : IsValid numbers
numbers-IsValid = record { counted = refl; pointed = omega arith }

remove_node-Removes_example : Removes ◌==◌ 5 numbers (remove_node ◌==◌ numbers 5)
remove_node-Removes_example = remove_node-Removes ◌==◌ 5 numbers

find_data-Finds_example : Finds ◌==◌ 5 (3 ∷ 5 ∷ 3 ∷ []) (find_data ◌==◌ numbers 5)
find_data-Finds_example = find_data-Finds ◌==◌ 5 numbers refl

remove_node-append_node_example :
    ((remove_node ◌==◌ (append_node numbers 8) 8).0 ≡ some 8)
    × ((remove_node ◌==◌ (append_node numbers 8) 8).1.nodes ≡ 3 ∷ 5 ∷ 3 ∷ [])
    × ((remove_node ◌==◌ (append_node numbers 8) 8).1.count ≡ 3)
remove_node-append_node_example =
    remove_node-append_node ◌==◌ 8 numbers refl (refl, (refl, (refl, tt)))

Step-IsValid_example : IsValid (remove_node ◌==◌ numbers 5).1
Step-IsValid_example = Step-IsValid ◌==◌ (remove numbers 5) numbers-IsValid

visit_all-reset_iterator_example :
    visit_all 4 (reset_iterator numbers) ≡ some (3 ∷ 5 ∷ 3 ∷ [], record numbers { iterator = at 0 })
visit_all-reset_iterator_example = visit_all-reset_iterator numbers

visit_removing-reset_iterator_example :
    visit_removing ◌==◌ 4 (reset_iterator numbers)
    ≡ some (3 ∷ 5 ∷ 3 ∷ [], record { nodes = []; iterator = at 0; count = 0 })
visit_removing-reset_iterator_example = visit_removing-reset_iterator ◌==◌ ==_refl numbers refl
