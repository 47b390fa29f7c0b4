-- ===== src/Queue.antt =====
-- libs/src/queue.c: a ring buffer that overwrites its oldest item when it is full, with a cursor
-- `current_idx` beside the standard operations. The raw memory of `capacity * itemSize` bytes is a
-- list of slots, and `memcpy` of an item writes one slot; `blank` is what `malloc` leaves in a slot.
-- The guards against a null queue or item end the process and have no counterpart here: a queue is
-- a value. A capacity below zero is 0.
pub mod Refine
pub mod Cursor
use irc_client_server.Base.{
  ℕ, ◌+◌, ◌-◌, ◌%◌, ltb, ◌==◌, if◌then◌else◌, Bool, Option, none, some, List, replicate, set,
  get_elem?,
}

pub record Queue {ℓ} (A : Type ℓ) : Type ℓ where
  pub items : List A
  pub front : ℕ
  pub rear : ℕ
  pub current_idx : ℕ
  pub count : ℕ
  pub capacity : ℕ

module _ {ℓ} {A : Type ℓ} where
  -- What `create_queue` fills in.
  abbrev pub empty_queue : A → ℕ → Queue A
  empty_queue blank capacity = record {
    items = replicate capacity blank;
    front = 0;
    rear = 0;
    current_idx = 0;
    count = 0;
    capacity = capacity;
  }

  unfoldable pub create_queue : A → ℕ → Option (Queue A)
  create_queue blank capacity = if capacity == 0 then none else some (empty_queue blank capacity)

  abbrev pub is_queue_empty : Queue A → Bool
  is_queue_empty q = q.count == 0

  abbrev pub is_queue_full : Queue A → Bool
  is_queue_full q = q.count == q.capacity

  unfoldable pub enqueue : Queue A → A → Queue A
  enqueue q item = record q {
    items = set q.items q.rear item;
    front = if is_queue_full q then (q.front + 1) % q.capacity else q.front;
    count = if is_queue_full q then q.count else q.count + 1;
    rear = (q.rear + 1) % q.capacity;
    current_idx = (q.rear + 1) % q.capacity;
  }

  -- The pointer into the array is read at once by the callers: its item is returned.
  unfoldable pub dequeue : Queue A → Option A × Queue A
  dequeue q = if is_queue_empty q then (none, q) else (
    get_elem? q.items q.front,
    record q { front = (q.front + 1) % q.capacity; count = q.count - 1 },
  )

  unfoldable pub get_previous_item : Queue A → Option A × Queue A
  get_previous_item q =
      let idx = (q.current_idx - 1) % q.capacity in
      if ltb q.front q.current_idx
      then (get_elem? q.items idx, record q { current_idx = idx })
      else (none, q)

  unfoldable pub get_next_item : Queue A → Option A × Queue A
  get_next_item q =
      let idx = (q.current_idx + 1) % q.capacity in
      if ltb q.current_idx q.rear
      then (get_elem? q.items idx, record q { current_idx = idx })
      else (none, q)

  abbrev pub get_current_item : Queue A → Option A
  get_current_item q = get_elem? q.items q.current_idx

  -- The source computes an address with no check; out of range it is no item.
  abbrev pub get_item_at_idx : Queue A → ℕ → Option A
  get_item_at_idx q idx = get_elem? q.items idx

  abbrev pub get_queue_capacity : Queue A → ℕ
  get_queue_capacity q = q.capacity
