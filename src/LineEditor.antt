-- ===== src/LineEditor.antt =====
-- client/src/input_window.c: the line editor of the client. The edited line is the current message of
-- the front queue; the cursor counts from the start of the prompt. Operations return whether they did
-- something, and none where a null pointer ends the process.
pub mod Line
pub mod Refine
pub mod Contents
pub mod Keys
pub mod Shown
pub mod Uncovered
pub mod Simulation
use irc_client_server.Base.{
  ℕ, zero, suc, ◌+◌, ◌-◌, ltb, leb, ◌==◌, if◌then◌else◌, Bool, true, false, ◌&&◌, Option, none,
  some, List, [], ◌∷◌, length, set, get_or, get_elem?,
}
use irc_client_server.Text.{Text, max_chars}
use irc_client_server.Queue.{
  Queue, empty_queue, get_current_item, get_item_at_idx, get_queue_capacity,
}
use irc_client_server.HashTable.Hashes.{are_strings_equal}
use irc_client_server.Message.{
  Message, msg_command, no_priority, string_of, set_message_char, get_message_content,
  set_message_content, set_message_type, set_message_priority,
}

abbrev pub prompt_size : ℕ
prompt_size = 2

abbrev pub def_history : ℕ
def_history = 10

pub record LineEditor : Type 0 where
  pub front_cmd_queue : Queue Message
  pub back_cmd_queue : Queue Message
  pub input_width : ℕ
  pub cursor : ℕ
  pub char_count : ℕ

-- A width or a count below zero is 0; `garbage` is what `malloc` leaves in an item.
unfoldable pub create_line_editor : Message → ℕ → ℕ → LineEditor
create_line_editor garbage input_width cmd_history_count =
    let count = if ltb cmd_history_count 1 then def_history else cmd_history_count in
    record {
      front_cmd_queue = empty_queue garbage count;
      back_cmd_queue = empty_queue garbage count;
      input_width = input_width;
      cursor = prompt_size;
      char_count = 0;
    }

unfoldable pub move_le_cursor_left : LineEditor → Bool × LineEditor
move_le_cursor_left e =
    if ltb prompt_size e.cursor then (true, record e { cursor = e.cursor - 1 }) else (false, e)

unfoldable pub move_le_cursor_right : LineEditor → Bool × LineEditor
move_le_cursor_right e =
    if ltb (e.cursor - prompt_size) e.char_count
    then (true, record e { cursor = e.cursor + 1 })
    else (false, e)

unfoldable pub use_le_home : LineEditor → Bool × LineEditor
use_le_home e =
    if ltb prompt_size e.cursor then (true, record e { cursor = prompt_size }) else (false, e)

unfoldable pub use_le_end : LineEditor → Bool × LineEditor
use_le_end e =
    if ltb e.cursor (e.char_count + prompt_size)
    then (true, record e { cursor = e.char_count + prompt_size })
    else (false, e)

unfoldable pub can_add_char : LineEditor → Bool
can_add_char e = ltb (e.cursor + 1) e.input_width && ltb e.char_count max_chars

-- The item that `get_current_item` points to is written.
abbrev pub put_current : LineEditor → Message → LineEditor
put_current e m = record e {
  front_cmd_queue = record e.front_cmd_queue {
    items = set e.front_cmd_queue.items e.front_cmd_queue.current_idx m;
  };
}

-- The loop of `add_le_char`: `n` bytes from `at` on move up by one, the last one first.
pub move_up : ℕ → ℕ → Message → Message
move_up zero at m = m
move_up (suc n) at m = move_up n at (set_message_char m (get_or m.content (at + n) 0) (at + n + 1))

-- The new byte at a position, with `n` bytes behind it.
unfoldable pub insert_char : ℕ → ℕ → ℕ → Message → Message
unfolding move_up
insert_char ch at n m =
    let typed =
      if length (get_message_content m) == 0
      then set_message_priority (set_message_type m msg_command) no_priority
      else m in
    set_message_char (move_up n at typed) ch at

unfoldable pub add_le_char : LineEditor → ℕ → Option (Bool × LineEditor)
unfolding insert_char
add_le_char e ch =
    if can_add_char e
    then elim (get_current_item e.front_cmd_queue) [
      | none ↦ none
      | some m ↦
          let at = e.cursor - prompt_size in
          some (
            true,
            record (put_current e (insert_char ch at (e.char_count - at) m)) {
              char_count = e.char_count + 1;
              cursor = e.cursor + 1;
            },
          )
    ]
    else some (false, e)

-- libs/src/string_utils.c: the loop of `shift_chars`, and the function on an array.
pub shift_down : ℕ → ℕ → ℕ → List ℕ → List ℕ
shift_down zero start end bytes = bytes
shift_down (suc n) start end bytes =
    shift_down n (start + 1) (end + 1) (set bytes start (get_or bytes end 0))

unfoldable pub shift_chars : List ℕ → ℕ → ℕ → ℕ → List ℕ
unfolding shift_down
shift_chars bytes size start end =
    if ltb start end && leb end size then shift_down (size - end + 1) start end bytes else bytes

-- A local array with a string and its NUL.
abbrev pub terminated : Text → List ℕ
terminated [] = 0 ∷ []
terminated (c ∷ string) = c ∷ terminated string

-- The content without the byte at a position. It is copied into a local array and back.
unfoldable pub remove_char : ℕ → Message → Message
unfolding shift_chars string_of
remove_char at m =
    let string = get_message_content m in
    let buffer = shift_chars (terminated string) (length string) at (at + 1) in
    set_message_content m (string_of buffer)

unfoldable pub delete_le_char : LineEditor → LineEditor
unfolding remove_char
delete_le_char e = elim (get_current_item e.front_cmd_queue) [
  | none ↦ e
  | some m ↦ record (put_current e (remove_char (e.cursor - prompt_size) m)) {
    char_count = e.char_count - 1;
  }
]

unfoldable pub use_le_backspace : LineEditor → Bool × LineEditor
unfolding delete_le_char
use_le_backspace e =
    if ltb prompt_size e.cursor
    then (true, delete_le_char (record e { cursor = e.cursor - 1 }))
    else (false, e)

unfoldable pub use_le_delete : LineEditor → Bool × LineEditor
unfolding delete_le_char
use_le_delete e =
    if ltb (e.cursor - prompt_size) e.char_count then (true, delete_le_char e) else (false, e)

-- One round of `reload_saved_commands`: an item that differs is overwritten by the saved one.
abbrev pub reload_item : Queue Message → Queue Message → ℕ → Option (Queue Message)
reload_item front back i = elim (get_item_at_idx front i) [
  | none ↦ none
  | some m ↦ elim (get_item_at_idx back i) [
    | none ↦ none
    | some saved ↦
        if are_strings_equal (get_message_content m) (get_message_content saved)
        then some front
        else some (record front {
          items = set front.items i (set_message_content m (get_message_content saved));
        })
  ]
]

-- The loop, with `n` rounds left. none: a null message.
pub reload_items : ℕ → ℕ → Queue Message → Queue Message → Option (Queue Message)
reload_items zero i front back = some front
reload_items (suc n) i front back = elim (reload_item front back i) [
  | none ↦ none
  | some front' ↦ reload_items n (i + 1) front' back
]

unfoldable pub reload_saved_commands : LineEditor → Option LineEditor
unfolding reload_items
reload_saved_commands e =
    elim (reload_items (get_queue_capacity e.front_cmd_queue) 0 e.front_cmd_queue
      e.back_cmd_queue) [ none ↦ none | some front ↦ some (record e { front_cmd_queue = front }) ]

abbrev pub set_le_char_count : LineEditor → ℕ → LineEditor
set_le_char_count e char_count = record e { char_count = char_count }

abbrev pub set_le_cursor : LineEditor → ℕ → LineEditor
set_le_cursor e cursor = record e { cursor = cursor }
