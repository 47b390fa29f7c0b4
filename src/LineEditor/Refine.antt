-- ===== src/LineEditor/Refine.antt =====
-- The line editor of client/src/input_window.c beside a line with a gap at the cursor.
use irc_client_server.Base.{
  ℕ, zero, suc, ◌+◌, ltb, if◌then◌else◌, Bool, true, false, ◌&&◌, ◌≡◌, refl, sym, ap, ◌∙◌, subst,
  Option, some, List, [], ◌∷◌, ◌++◌, append_assoc, reverse, reverse-cons, length, set, get_elem?,
  replicate, length-append, All, arith,
}
use irc_client_server.Text.{Text, max_chars}
use irc_client_server.Queue.{get_current_item}
use irc_client_server.Message.{Message}
use irc_client_server.LineEditor.{
  LineEditor, add_le_char, use_le_backspace, use_le_delete, move_le_cursor_left,
  move_le_cursor_right, use_le_home, use_le_end,
}
use irc_client_server.LineEditor.Line.{NotNul}

-- A line with the cursor in it: the text before the cursor, its last byte first, and the text behind.
pub data Line : Type 0 where
  gap : Text → Text → Line

pub data Key : Type 0 where
  typed : ℕ → Key
  backspace delete left right home end : Key

-- What a key does to a line in a window of a width: whether something, and the line.
abbrev pub edit : ℕ → Key → Line → Bool × Line
edit width (typed ch) (gap before after) =
    if ltb (2 + length before + 1) width && ltb (length before + length after) max_chars
    then (true, gap (ch ∷ before) after)
    else (false, gap before after)
edit width backspace (gap [] after) = (false, gap [] after)
edit width backspace (gap (c ∷ before) after) = (true, gap before after)
edit width delete (gap before []) = (false, gap before [])
edit width delete (gap before (c ∷ after)) = (true, gap before after)
edit width left (gap [] after) = (false, gap [] after)
edit width left (gap (c ∷ before) after) = (true, gap before (c ∷ after))
edit width right (gap before []) = (false, gap before [])
edit width right (gap before (c ∷ after)) = (true, gap (c ∷ before) after)
edit width home (gap [] after) = (false, gap [] after)
edit width home (gap (c ∷ before) after) = (true, gap [] (reverse (c ∷ before) ++ after))
edit width end (gap before []) = (false, gap before [])
edit width end (gap before (c ∷ after)) = (true, gap (reverse (c ∷ after) ++ before) [])

-- The operation of a key.
abbrev pub press : Key → LineEditor → Option (Bool × LineEditor)
press (typed ch) e = add_le_char e ch
press backspace e = some (use_le_backspace e)
press delete e = some (use_le_delete e)
press left e = some (move_le_cursor_left e)
press right e = some (move_le_cursor_right e)
press home e = some (use_le_home e)
press end e = some (use_le_end e)

-- The editor shows the text before the cursor and the text behind it: the current message holds them,
-- and NULs up to its end.
pub record Holds (e : LineEditor) (before after : Text) : Type 0 where
  pub message : Message
  pub spare : ℕ
  pub current : get_current_item e.front_cmd_queue ≡ some message
  pub content : message.content ≡ reverse before ++ (after ++ (0 ∷ replicate spare 0))
  pub size : length before + length after + spare ≡ max_chars
  pub no_nul : All NotNul (reverse before ++ after)
  pub cursor : e.cursor ≡ 2 + length before
  pub char_count : e.char_count ≡ length before + length after

abbrev pub HoldsLine : LineEditor → Line → Type 0
HoldsLine e (gap before after) = Holds e before after

-- A result of a key that agrees with a result for the line.
pub record Matches (r : Option (Bool × LineEditor)) (l : Bool × Line) : Type 0 where
  pub editor : LineEditor
  pub result : r ≡ some (l.0, editor)
  pub shows : HoldsLine editor l.1

abbrev pub IsTypable : Key → Type 0
IsTypable (typed ch) = NotNul ch
IsTypable backspace = Unit
IsTypable delete = Unit
IsTypable left = Unit
IsTypable right = Unit
IsTypable home = Unit
IsTypable end = Unit

pub length-reverse : (t : Text) → length (reverse t) ≡ length t
length-reverse [] = refl
length-reverse (c ∷ t) =
    ap length (reverse-cons c t)
    ∙ omega (arith, length-append (reverse t) (c ∷ []), length-reverse t)

-- A byte moves from one side of the cursor to the other.
pub reverse-shift :
    (c : ℕ) (before : Text) (after : List ℕ)
    → reverse (c ∷ before) ++ after ≡ reverse before ++ (c ∷ after)
reverse-shift c before after =
    ap (λ t. t ++ after) (reverse-cons c before) ∙ append_assoc (reverse before) (c ∷ []) after

pub All-append : (xs ys : Text) → All NotNul xs → All NotNul ys → All NotNul (xs ++ ys)
All-append [] ys hx hy = hy
All-append (x ∷ xs) ys (h, hx) hy = (h, All-append xs ys hx hy)

pub All-left : (xs ys : Text) → All NotNul (xs ++ ys) → All NotNul xs
All-left [] ys h = tt
All-left (x ∷ xs) ys (h, hs) = (h, All-left xs ys hs)

pub All-right : (xs ys : Text) → All NotNul (xs ++ ys) → All NotNul ys
All-right [] ys h = h
All-right (x ∷ xs) ys (h, hs) = All-right xs ys hs

pub get_elem?-set_present :
    (xs : List Message) (i : ℕ) (m v : Message)
    → get_elem? xs i ≡ some m
    → get_elem? (set xs i v) i ≡ some v
get_elem?-set_present [] i m v h = cc
get_elem?-set_present (x ∷ xs) zero m v h = refl
get_elem?-set_present (x ∷ xs) (suc i) m v h = get_elem?-set_present xs i m v h

-- The cursor alone moves.
pub move_cursor :
    (e : LineEditor) (b a b' a' : Text) (n : ℕ)
    → Holds e b a
    → reverse b ++ a ≡ reverse b' ++ a'
    → n ≡ 2 + length b'
    → Holds (record e { cursor = n }) b' a'
move_cursor e b a b' a' n h same at = record {
  message = h.message;
  spare = h.spare;
  current = h.current;
  content =
      h.content
      ∙ sym (append_assoc (reverse b) a (0 ∷ replicate h.spare 0))
      ∙ ap (λ t. t ++ (0 ∷ replicate h.spare 0)) same
      ∙ append_assoc (reverse b') a' (0 ∷ replicate h.spare 0);
  size = omega (arith, h.size, lengths);
  no_nul = subst (All NotNul) same h.no_nul;
  cursor = at;
  char_count = omega (arith, h.char_count, lengths);
}
  where
    lengths : length b + length a ≡ length b' + length a'
    lengths = omega (
      arith,
      ap length same,
      length-append (reverse b) a,
      length-append (reverse b') a',
      length-reverse b,
      length-reverse b',
    )
