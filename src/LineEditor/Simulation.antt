-- ===== src/LineEditor/Simulation.antt =====
-- All keys of the line editor of client/src/input_window.c: it does to its line what the key does to a
-- line with a gap.
use irc_client_server.Base.{
  ℕ, ◌+◌, ◌-◌, ◌<◌, ltb, lt→ltb, true, false, ◌≡◌, refl, sym, ap, ◌∙◌, some, [], ◌∷◌, ◌++◌,
  append-nil, reverse, reverse-append, reverse-reverse, length-append, arith,
}
use irc_client_server.Text.{Text}
use irc_client_server.LineEditor.{
  LineEditor, delete_le_char, use_le_backspace, use_le_delete, move_le_cursor_left,
  move_le_cursor_right, use_le_home, use_le_end,
}
use irc_client_server.LineEditor.Refine.{
  Holds, HoldsLine, reverse-shift, move_cursor, length-reverse, Line, gap, Key, edit, press,
  Matches, IsTypable, typed, backspace, delete, left, right, home, end,
}
use irc_client_server.LineEditor.Shown.{Shows, IsCleared, Agrees, shown-HoldsLine, Matches-Agrees}
use irc_client_server.LineEditor.Keys.{delete_le_char-Holds, add_le_char-Matches}

not_below : (m n : ℕ) → n ≡ m → ltb m n ≡ false
not_below m n h = ground arith

below : (m n : ℕ) → m < n → ltb m n ≡ true
below m n h = lt→ltb m n h

module _ (e : LineEditor) where
  backspace-Matches :
      (b a : Text)
      → Holds e b a
      → Matches (some (use_le_backspace e)) (edit e.input_width backspace (gap b a))
  unfolding use_le_backspace
  backspace-Matches [] a h =
      rw (not_below 2 e.cursor h.cursor) (record { editor = e; result = refl; shows = h })
  backspace-Matches (c ∷ b) a h = rw (below 2 e.cursor (omega (arith, h.cursor))) (record {
    editor = delete_le_char (record e { cursor = e.cursor - 1 });
    result = refl;
    shows =
        delete_le_char-Holds (record e { cursor = e.cursor - 1 }) b c a
          (move_cursor e (c ∷ b) a b (c ∷ a) (e.cursor - 1) h (reverse-shift c b a)
            (omega (arith, h.cursor)));
  })

  delete-Matches :
      (b a : Text)
      → Holds e b a
      → Matches (some (use_le_delete e)) (edit e.input_width delete (gap b a))
  unfolding use_le_delete
  delete-Matches b [] h =
      rw (not_below (e.cursor - 2) e.char_count (omega (arith, h.cursor, h.char_count)))
        (record { editor = e; result = refl; shows = h })
  delete-Matches b (c ∷ a) h =
      rw (below (e.cursor - 2) e.char_count (omega (arith, h.cursor, h.char_count))) (record {
        editor = delete_le_char e;
        result = refl;
        shows = delete_le_char-Holds e b c a h;
      })

  left-Matches :
      (b a : Text)
      → Holds e b a
      → Matches (some (move_le_cursor_left e)) (edit e.input_width left (gap b a))
  unfolding move_le_cursor_left
  left-Matches [] a h =
      rw (not_below 2 e.cursor h.cursor) (record { editor = e; result = refl; shows = h })
  left-Matches (c ∷ b) a h = rw (below 2 e.cursor (omega (arith, h.cursor))) (record {
    editor = record e { cursor = e.cursor - 1 };
    result = refl;
    shows =
        move_cursor e (c ∷ b) a b (c ∷ a) (e.cursor - 1) h (reverse-shift c b a)
          (omega (arith, h.cursor));
  })

  right-Matches :
      (b a : Text)
      → Holds e b a
      → Matches (some (move_le_cursor_right e)) (edit e.input_width right (gap b a))
  unfolding move_le_cursor_right
  right-Matches b [] h =
      rw (not_below (e.cursor - 2) e.char_count (omega (arith, h.cursor, h.char_count)))
        (record { editor = e; result = refl; shows = h })
  right-Matches b (c ∷ a) h =
      rw (below (e.cursor - 2) e.char_count (omega (arith, h.cursor, h.char_count))) (record {
        editor = record e { cursor = e.cursor + 1 };
        result = refl;
        shows =
            move_cursor e b (c ∷ a) (c ∷ b) a (e.cursor + 1) h (sym (reverse-shift c b a))
              (omega (arith, h.cursor));
      })

  home-Matches :
      (b a : Text)
      → Holds e b a
      → Matches (some (use_le_home e)) (edit e.input_width home (gap b a))
  unfolding use_le_home
  home-Matches [] a h =
      rw (not_below 2 e.cursor h.cursor) (record { editor = e; result = refl; shows = h })
  home-Matches (c ∷ b) a h = rw (below 2 e.cursor (omega (arith, h.cursor))) (record {
    editor = record e { cursor = 2 };
    result = refl;
    shows = move_cursor e (c ∷ b) a [] (reverse (c ∷ b) ++ a) 2 h refl refl;
  })

  end-Matches :
      (b a : Text) → Holds e b a → Matches (some (use_le_end e)) (edit e.input_width end (gap b a))
  unfolding use_le_end
  end-Matches b [] h =
      rw (not_below e.cursor (e.char_count + 2) (omega (arith, h.cursor, h.char_count)))
        (record { editor = e; result = refl; shows = h })
  end-Matches b (c ∷ a) h =
      rw (below e.cursor (e.char_count + 2) (omega (arith, h.cursor, h.char_count))) (record {
        editor = record e { cursor = e.char_count + 2 };
        result = refl;
        shows =
            move_cursor e b (c ∷ a) (reverse (c ∷ a) ++ b) [] (e.char_count + 2) h
              (sym (
                append-nil (reverse (reverse (c ∷ a) ++ b))
                ∙ reverse-append (reverse (c ∷ a)) b
                ∙ ap (λ t. reverse b ++ t) (reverse-reverse (c ∷ a))))
              (omega
                (arith, h.char_count, length-append (reverse (c ∷ a)) b, length-reverse (c ∷ a)));
      })

press-Matches :
    (e : LineEditor) (k : Key) (l : Line)
    → HoldsLine e l
    → IsTypable k
    → Matches (press k e) (edit e.input_width k l)
press-Matches e (typed ch) (gap b a) h nn = add_le_char-Matches e b a ch h nn
press-Matches e backspace (gap b a) h nn = backspace-Matches e b a h
press-Matches e delete (gap b a) h nn = delete-Matches e b a h
press-Matches e left (gap b a) h nn = left-Matches e b a h
press-Matches e right (gap b a) h nn = right-Matches e b a h
press-Matches e home (gap b a) h nn = home-Matches e b a h
press-Matches e end (gap b a) h nn = end-Matches e b a h

-- Whenever the editor shows a line and the array of the current message holds nothing but NULs
-- behind it, every key, and every byte typed but the NUL, does to the line what it does to a line
-- with a gap at the cursor: the result tells alike whether something was done, and afterwards the
-- editor shows the edited line, with its cursor and its count of characters, and NULs behind it.
pub press-Agrees :
    (e : LineEditor) (k : Key) (l : Line)
    → Shows e l
    → IsCleared e l
    → IsTypable k
    → Agrees (press k e) (edit e.input_width k l)
press-Agrees e k l s cleared nn =
    Matches-Agrees (press k e) (edit e.input_width k l)
      (press-Matches e k l (shown-HoldsLine e l s cleared) nn)
