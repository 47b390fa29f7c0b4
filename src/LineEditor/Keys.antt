-- ===== src/LineEditor/Keys.antt =====
-- Each key of the line editor of client/src/input_window.c on a line.
use irc_client_server.Base.{
  ℕ, suc, ◌+◌, ◌-◌, ◌<◌, ltb, ltb→lt, Bool-cases, Bool, true, false, ◌&&◌, inl, inr, ◌≡◌, refl, sym,
  ap, ◌∙◌, subst, Option, none, some, ◌∷◌, ◌++◌, reverse, length, replicate, All, arith,
}
use irc_client_server.Text.{Text, max_chars}
use irc_client_server.Message.{Message}
use irc_client_server.LineEditor.{
  LineEditor, insert_char, remove_char, put_current, add_le_char, delete_le_char, can_add_char,
}
use irc_client_server.LineEditor.Line.{NotNul}
use irc_client_server.LineEditor.Refine.{
  Holds, reverse-shift, All-append, All-left, All-right, get_elem?-set_present, length-reverse, gap,
  edit, Matches, typed,
}
use irc_client_server.LineEditor.Contents.{insert_char-content, remove_char-content, All-without}

-- The message that the cursor is in, replaced.
pub changed : LineEditor → Message → ℕ → ℕ → LineEditor
changed e m count cursor = record (put_current e m) { char_count = count; cursor = cursor }

-- What `delete_le_char` does at the cursor.
pub delete_le_char-Holds :
    (e : LineEditor) (b : Text) (c : ℕ) (a : Text)
    → Holds e b (c ∷ a)
    → Holds (delete_le_char e) b a
unfolding delete_le_char changed
delete_le_char-Holds e b c a h =
    subst (λ e. Holds e b a) (sym deleted)
      (record {
        message = m;
        spare = suc h.spare;
        current =
            get_elem?-set_present e.front_cmd_queue.items e.front_cmd_queue.current_idx h.message m
              h.current;
        content =
            remove_char-content c (e.cursor - 2) h.message (reverse b) a h.spare at size h.no_nul
              (All-without c (reverse b) a h.no_nul) h.content;
        size = omega (arith, h.size);
        no_nul = All-without c (reverse b) a h.no_nul;
        cursor = h.cursor;
        char_count = omega (arith, h.char_count);
      })
  where
    m : Message
    m = remove_char (e.cursor - 2) h.message

    deleted : delete_le_char e ≡ changed e m (e.char_count - 1) e.cursor
    deleted =
        ap
          (λ o. elim o as (λ x. LineEditor) [
            | none ↦ e
            | some m ↦ record (put_current e (remove_char (e.cursor - 2) m)) {
              char_count = e.char_count - 1;
            }
          ])
          h.current

    at : length (reverse b) ≡ e.cursor - 2
    at = omega (arith, length-reverse b, h.cursor)

    size : length (reverse b) + suc (length a) + h.spare ≡ max_chars
    size = omega (arith, length-reverse b, h.size)

-- A byte is typed where there is room.
typed-Holds :
    (e : LineEditor) (b a : Text) (ch : ℕ) (h : Holds e b a)
    → NotNul ch
    → length b + length a < max_chars
    → Holds
        (changed e
          (insert_char ch (e.cursor - 2) (e.char_count - (e.cursor - 2)) h.message)
          (e.char_count + 1)
          (e.cursor + 1))
        (ch ∷ b)
        a
unfolding changed
typed-Holds e b a ch h nn room = record {
  message = m;
  spare = h.spare - 1;
  current =
      get_elem?-set_present e.front_cmd_queue.items e.front_cmd_queue.current_idx h.message m
        h.current;
  content =
      ap (λ n. (insert_char ch (e.cursor - 2) n h.message).content)
        (omega (arith, h.cursor, h.char_count))
      ∙ insert_char-content ch (e.cursor - 2) h.message (reverse b) a (h.spare - 1)
          (omega (arith, length-reverse b, h.cursor))
          (omega (arith, length-reverse b, h.size, room))
          (h.content ∙ ap (λ n. reverse b ++ (a ++ (0 ∷ replicate n 0))) spare)
      ∙ sym (reverse-shift ch b (a ++ (0 ∷ replicate (h.spare - 1) 0)));
  size = omega (arith, h.size, room);
  no_nul = subst (All NotNul) (sym (reverse-shift ch b a)) (
      All-append (reverse b) (ch ∷ a) (All-left (reverse b) a h.no_nul)
        (nn, All-right (reverse b) a h.no_nul));
  cursor = omega (arith, h.cursor);
  char_count = omega (arith, h.char_count);
}
  where
    m : Message
    m = insert_char ch (e.cursor - 2) (e.char_count - (e.cursor - 2)) h.message

    spare : h.spare ≡ suc (h.spare - 1)
    spare = omega (arith, h.size, room)

pub add_le_char-Matches :
    (e : LineEditor) (b a : Text) (ch : ℕ)
    → Holds e b a
    → NotNul ch
    → Matches (add_le_char e ch) (edit e.input_width (typed ch) (gap b a))
unfolding add_le_char can_add_char changed
add_le_char-Matches e b a ch h nn = elim (Bool-cases room) [
  | inl t ↦ rw (same ∙ t) (
      rw t (record {
        editor =
            changed e (insert_char ch (e.cursor - 2) (e.char_count - (e.cursor - 2)) h.message)
              (e.char_count + 1) (e.cursor + 1);
        result =
            ap
              (λ o. elim o as (λ x. Option (Bool × LineEditor)) [
                | none ↦ none
                | some m ↦ some (
                  true,
                  changed e (insert_char ch (e.cursor - 2) (e.char_count - (e.cursor - 2)) m)
                      (e.char_count + 1) (e.cursor + 1),
                )
              ])
              h.current;
        shows = typed-Holds e b a ch h nn (below (ltb (2 + length b + 1) e.input_width) t);
      }))
  | inr f ↦ rw (same ∙ f) (rw f (record { editor = e; result = refl; shows = h }))
]
  where
    room : Bool
    room = ltb (2 + length b + 1) e.input_width && ltb (length b + length a) max_chars

    same : can_add_char e ≡ room
    same =
        ap (λ n. ltb (n + 1) e.input_width && ltb e.char_count max_chars) h.cursor
        ∙ ap (λ n. ltb (2 + length b + 1) e.input_width && ltb n max_chars) h.char_count

    below :
        (d : Bool)
        → (d && ltb (length b + length a) max_chars) ≡ true
        → length b + length a < max_chars
    below true t = ltb→lt (length b + length a) max_chars t
    below false t = absurd (cc)
