-- ===== src/LineEditor/Shown.antt =====
-- What a user sees of the line editor of client/src/input_window.c, and what the array of the current
-- message holds behind it.
use irc_client_server.Base.{
  ℕ, zero, suc, ◌+◌, ◌≡◌, refl, sym, ap, ◌∙◌, subst, some_eq, Bool, Option, some, List, [], ◌∷◌,
  ◌++◌, append_assoc, reverse, length, length-append, drop, replicate, length-replicate, All, arith,
}
use irc_client_server.Text.{Text, max_chars}
use irc_client_server.Queue.{get_current_item}
use irc_client_server.Message.{Message}
use irc_client_server.LineEditor.{LineEditor}
use irc_client_server.LineEditor.Line.{NotNul}
use irc_client_server.LineEditor.Contents.{drop-length}
use irc_client_server.LineEditor.Refine.{Line, gap, HoldsLine, Matches, length-reverse}

-- The string of the current message is the text before the cursor and the text behind it; `rest` are
-- the bytes of its array behind the NUL.
pub record ShowsText (e : LineEditor) (before after : Text) : Type 0 where
  pub message : Message
  pub rest : List ℕ
  pub current : get_current_item e.front_cmd_queue ≡ some message
  pub content : message.content ≡ reverse before ++ (after ++ (0 ∷ rest))
  pub size : length before + length after + length rest ≡ max_chars
  pub no_nul : All NotNul (reverse before ++ after)
  pub cursor : e.cursor ≡ 2 + length before
  pub char_count : e.char_count ≡ length before + length after

abbrev pub Shows : LineEditor → Line → Type 0
Shows e (gap before after) = ShowsText e before after

abbrev line_length : Line → ℕ
line_length (gap before after) = length before + length after

abbrev pub IsNul : ℕ → Type 0
IsNul c = c ≡ 0

-- The array of the current message holds nothing but NULs behind the line.
abbrev pub IsCleared : LineEditor → Line → Type 0
IsCleared e l =
    (m : Message)
    → get_current_item e.front_cmd_queue ≡ some m
    → All IsNul (drop (line_length l) m.content)

-- A result of a key that agrees with a result for the line.
pub record Agrees (r : Option (Bool × LineEditor)) (l : Bool × Line) : Type 0 where
  pub editor : LineEditor
  pub result : r ≡ some (l.0, editor)
  pub shows : Shows editor l.1
  pub cleared : IsCleared editor l.1

nothing_left : (xs : List ℕ) → All IsNul xs → xs ≡ replicate (length xs) 0
nothing_left [] h = refl
nothing_left (x ∷ xs) (h, hs) = λ i. h i ∷ nothing_left xs hs i

replicate-cleared : (n : ℕ) → All IsNul (replicate n 0)
replicate-cleared zero = tt
replicate-cleared (suc n) = (refl, replicate-cleared n)

-- The bytes from the end of the line on.
behind :
    (b a : Text) (rest content : List ℕ)
    → content ≡ reverse b ++ (a ++ rest)
    → drop (length b + length a) content ≡ rest
behind b a rest content e =
    ap (drop (length b + length a)) (e ∙ sym (append_assoc (reverse b) a rest))
    ∙ drop-length (reverse b ++ a) rest (length b + length a)
        (omega (arith, length-append (reverse b) a, length-reverse b))

pub shown-HoldsLine : (e : LineEditor) (l : Line) → Shows e l → IsCleared e l → HoldsLine e l
shown-HoldsLine e (gap b a) s cleared = record {
  message = s.message;
  spare = length s.rest;
  current = s.current;
  content = s.content ∙ ap (λ r. reverse b ++ (a ++ (0 ∷ r))) (nothing_left s.rest only_nuls);
  size = s.size;
  no_nul = s.no_nul;
  cursor = s.cursor;
  char_count = s.char_count;
}
  where
    all_nuls : All IsNul (0 ∷ s.rest)
    all_nuls =
        subst (All IsNul) (behind b a (0 ∷ s.rest) s.message.content s.content)
          (cleared s.message s.current)

    only_nuls : All IsNul s.rest
    only_nuls = all_nuls.1

HoldsLine-Shows : (e : LineEditor) (l : Line) → HoldsLine e l → Shows e l
HoldsLine-Shows e (gap b a) h = record {
  message = h.message;
  rest = replicate h.spare 0;
  current = h.current;
  content = h.content;
  size = omega (arith, h.size, length-replicate {A = ℕ} h.spare 0);
  no_nul = h.no_nul;
  cursor = h.cursor;
  char_count = h.char_count;
}

HoldsLine-IsCleared : (e : LineEditor) (l : Line) → HoldsLine e l → IsCleared e l
HoldsLine-IsCleared e (gap b a) h m current =
    subst (All IsNul)
      (sym (
        behind b a (replicate (suc h.spare) 0) m.content
          (ap (λ m. m.content) (some_eq (sym current ∙ h.current)) ∙ h.content)))
      (replicate-cleared (suc h.spare))

pub Matches-Agrees : (r : Option (Bool × LineEditor)) (l : Bool × Line) → Matches r l → Agrees r l
Matches-Agrees r l m = record {
  editor = m.editor;
  result = m.result;
  shows = HoldsLine-Shows m.editor l.1 m.shows;
  cleared = HoldsLine-IsCleared m.editor l.1 m.shows;
}
