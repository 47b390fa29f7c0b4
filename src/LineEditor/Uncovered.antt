-- ===== src/LineEditor/Uncovered.antt =====
-- `add_le_char` of client/src/input_window.c on any line, whatever its array holds behind the NUL.
use irc_client_server.Base.{
  ℕ, ◌+◌, ◌-◌, ◌<◌, ltb, lt→ltb, if◌then◌else◌, Bool, true, false, ◌&&◌, ◌≡◌, ap, ◌∙◌, Option, none,
  some, List, ◌∷◌, ◌++◌, reverse, length, arith,
}
use irc_client_server.Text.{Text, max_chars}
use irc_client_server.Queue.{get_current_item}
use irc_client_server.Message.{Message}
use irc_client_server.LineEditor.{LineEditor, put_current, insert_char, add_le_char, can_add_char}
use irc_client_server.LineEditor.Refine.{get_elem?-set_present, length-reverse}
use irc_client_server.LineEditor.Contents.{insert_char-bytes}
use irc_client_server.LineEditor.Shown.{ShowsText}

-- A byte was typed: the bytes that the array of the current message holds then, and the count.
pub record Types (r : Option (Bool × LineEditor)) (bytes : List ℕ) (count : ℕ) : Type 0 where
  pub editor : LineEditor
  pub message : Message
  pub result : r ≡ some (true, editor)
  pub current : get_current_item editor.front_cmd_queue ≡ some message
  pub content : message.content ≡ bytes
  pub counted : editor.char_count ≡ count

-- Whenever the editor shows a line with room for one byte more, in the window and in the array, a
-- byte typed goes to the cursor and moves the bytes behind it up, over the NUL: the array then
-- holds the text before the cursor, the byte, the text behind the cursor, and directly behind
-- that whatever stood behind the NUL. The count of characters grows by one.
pub add_le_char-Types :
    (e : LineEditor) (b a : Text) (ch : ℕ) (s : ShowsText e b a)
    → 2 + length b + 1 < e.input_width
    → length b + length a < max_chars
    → Types (add_le_char e ch) (reverse b ++ (ch ∷ (a ++ s.rest))) (length b + length a + 1)
unfolding add_le_char can_add_char
add_le_char-Types e b a ch s wide room = record {
  editor = typed_into s.message;
  message = inserted s.message;
  result =
      ap (λ c. if c then added (get_current_item e.front_cmd_queue) else some (false, e)) has_room
      ∙ ap added s.current;
  current =
      get_elem?-set_present e.front_cmd_queue.items e.front_cmd_queue.current_idx s.message
        (inserted s.message) s.current;
  content =
      ap (λ n. (insert_char ch (e.cursor - 2) n s.message).content) bytes_behind
      ∙ insert_char-bytes ch (e.cursor - 2) s.message (reverse b) a s.rest
          (omega (arith, length-reverse b, s.cursor)) (omega (arith, length-reverse b, room))
          s.content;
  counted = omega (arith, s.char_count);
}
  where
    bytes_behind : e.char_count - (e.cursor - 2) ≡ length a
    bytes_behind = omega (arith, s.cursor, s.char_count)

    inserted : Message → Message
    inserted m = insert_char ch (e.cursor - 2) (e.char_count - (e.cursor - 2)) m

    typed_into : Message → LineEditor
    typed_into m = record (put_current e (inserted m)) {
      char_count = e.char_count + 1;
      cursor = e.cursor + 1;
    }

    added : Option Message → Option (Bool × LineEditor)
    added o = elim o [ none ↦ none | some m ↦ some (true, typed_into m) ]

    has_room : (ltb (e.cursor + 1) e.input_width && ltb e.char_count max_chars) ≡ true
    has_room =
        ap (λ c. c && ltb e.char_count max_chars)
          (lt→ltb (e.cursor + 1) e.input_width (omega (arith, s.cursor, wide)))
        ∙ lt→ltb e.char_count max_chars (omega (arith, s.char_count, room))
