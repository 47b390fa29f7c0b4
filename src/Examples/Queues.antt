-- ===== src/Examples/Queues.antt =====
-- Runs of the ring buffer of libs/src/queue.c.
use irc_client_server.Base.{ℕ, ◌≡◌, none, [], ◌∷◌, arith}
use irc_client_server.Queue.{Queue, empty_queue, enqueue, dequeue, get_previous_item, get_next_item}
use irc_client_server.Queue.Refine.{
  Holds, Dequeues, empty_queue-Holds, enqueue-push, dequeue-Dequeues,
}
use irc_client_server.Queue.Cursor.{enqueue-previous_full, get_next-get_previous}

abbrev blank_queue : Queue ℕ
blank_queue = empty_queue 0 2

abbrev two : ℕ
two = 2

abbrev one_item : Queue ℕ
one_item = enqueue (blank_queue) 5

abbrev two_items : Queue ℕ
two_items = enqueue one_item 7

one_item-Holds : Holds one_item (5 ∷ [])
one_item-Holds = enqueue-push (blank_queue) [] (empty_queue-Holds 0 two (omega arith)) 5

two_items-Holds : Holds two_items (5 ∷ 7 ∷ [])
unfolding enqueue
two_items-Holds = enqueue-push one_item (5 ∷ []) one_item-Holds 7

-- The queue is full: the oldest item gives way.
enqueue-push_example : Holds (enqueue two_items 9) (7 ∷ 9 ∷ [])
unfolding enqueue
enqueue-push_example = enqueue-push two_items (5 ∷ 7 ∷ []) two_items-Holds 9

dequeue-Dequeues_example : Dequeues two_items (5 ∷ 7 ∷ []) (dequeue two_items)
dequeue-Dequeues_example = dequeue-Dequeues two_items (5 ∷ 7 ∷ []) two_items-Holds

enqueue-previous_full_example :
    ((get_previous_item (enqueue one_item 7)).0 ≡ none) × ((enqueue one_item 7).count ≡ 2)
unfolding enqueue
enqueue-previous_full_example =
    enqueue-previous_full one_item (5 ∷ []) one_item-Holds 7 (omega arith)

abbrev walked : Queue ℕ
walked = record (empty_queue 0 4) {
  items = 5 ∷ 7 ∷ 0 ∷ 0 ∷ [];
  rear = 2;
  count = 2;
  current_idx = 2;
}

get_next-get_previous_example : (get_next_item (get_previous_item walked).1).1 ≡ walked
get_next-get_previous_example =
    get_next-get_previous walked (omega arith) (omega arith) (omega arith)
