-- ===== src/LineEditor/Contents.antt =====
-- The bytes of a message that the line editor of client/src/input_window.c changes.
use irc_client_server.Base.{
  ℕ, zero, suc, ◌+◌, ◌-◌, ◌<◌, ltb, leb, lt→ltb, ◌==◌, if◌then◌else◌, Bool, true, false, ◌&&◌, ◌≡◌,
  refl, sym, ap, ◌∙◌, List, [], ◌∷◌, ◌++◌, append_assoc, length, set, drop, replicate,
  length-append, All, arith,
}
use irc_client_server.Text.{Text, max_chars}
use irc_client_server.Message.{
  Message, msg_command, no_priority, string_of, get_message_content, set_message_content,
  set_message_type, set_message_priority, copy_into, strcpy,
}
use irc_client_server.LineEditor.{
  insert_char, remove_char, terminated, move_up, shift_chars, shift_down,
}
use irc_client_server.LineEditor.Line.{
  set-at, head_or, move_up_lem, set_message_char-content, shift_down_lem, NotNul,
  string_of-terminated,
}
use irc_client_server.LineEditor.Refine.{All-append, All-left, All-right}

typed-content :
    (b : Bool) (m : Message)
    → (if b then set_message_priority (set_message_type m msg_command) no_priority else m).content
      ≡ m.content
typed-content true m = refl
typed-content false m = refl

-- A byte is put between two texts, over the NUL behind them.
pub insert_char-bytes :
    (ch at : ℕ) (m : Message) (xs ys : Text) (rest : List ℕ)
    → length xs ≡ at
    → length xs + length ys < max_chars
    → m.content ≡ xs ++ (ys ++ (0 ∷ rest))
    → (insert_char ch at (length ys) m).content ≡ xs ++ (ch ∷ (ys ++ rest))
unfolding insert_char
insert_char-bytes ch at m xs ys rest hl size e =
    set_message_char-content (move_up (length ys) at m') ch at (omega arith)
    ∙ ap (λ bytes. set bytes at ch)
        (move_up_lem (length ys) at m' xs ys 0 rest hl refl (omega arith) (typed-content b m ∙ e))
    ∙ set-at xs (ys ++ rest) (head_or ys 0) ch at (omega arith)
  where
    b : Bool
    b = length (get_message_content m) == 0

    m' : Message
    m' = if b then set_message_priority (set_message_type m msg_command) no_priority else m

-- The same where the array has room and holds NULs.
pub insert_char-content :
    (ch at : ℕ) (m : Message) (xs ys : Text) (spare : ℕ)
    → length xs ≡ at
    → length xs + length ys + suc spare ≡ max_chars
    → m.content ≡ xs ++ (ys ++ (0 ∷ replicate (suc spare) 0))
    → (insert_char ch at (length ys) m).content ≡ xs ++ (ch ∷ (ys ++ (0 ∷ replicate spare 0)))
insert_char-content ch at m xs ys spare hl size e =
    insert_char-bytes ch at m xs ys (replicate (suc spare) 0) hl (omega arith) e

terminated-append : (t : Text) → terminated t ≡ t ++ (0 ∷ [])
terminated-append [] = refl
terminated-append (c ∷ t) = ap (◌∷◌ c) (terminated-append t)

pub drop-length : (xs ys : List ℕ) (n : ℕ) → n ≡ length xs → drop n (xs ++ ys) ≡ ys
drop-length [] ys n e = ap (λ n. drop n ys) e
drop-length (x ∷ xs) ys zero e = absurd (omega arith)
drop-length (x ∷ xs) ys (suc n) e = drop-length xs ys n (omega arith)

-- The string behind a shift by one.
shift_chars-string :
    (c at : ℕ) (xs ys : Text)
    → length xs ≡ at
    → All NotNul (xs ++ ys)
    → string_of (shift_chars (terminated (xs ++ (c ∷ ys))) (length (xs ++ (c ∷ ys))) at (at + 1))
      ≡ xs ++ ys
unfolding shift_chars
shift_chars-string c at xs ys hl no_nul =
    let (last, e) = shift_down_lem (ys ++ (0 ∷ [])) xs c at hl in
    ap string_of (
      guard
      ∙ ap (λ n. shift_down n at (at + 1) (terminated (xs ++ (c ∷ ys)))) rounds
      ∙ ap (shift_down (length (ys ++ (0 ∷ []))) at (at + 1)) shape
      ∙ e
      ∙ ap (λ t. xs ++ t) (append_assoc ys (0 ∷ []) (last ∷ []))
      ∙ sym (append_assoc xs ys (0 ∷ last ∷ [])))
    ∙ string_of-terminated (xs ++ ys) (last ∷ []) no_nul
  where
    size : ℕ
    size = length (xs ++ (c ∷ ys))

    bytes : List ℕ
    bytes = terminated (xs ++ (c ∷ ys))

    test : (ltb at (at + 1) && leb (at + 1) size) ≡ true
    test = ground (arith, length-append xs (c ∷ ys))

    guard : shift_chars bytes size at (at + 1) ≡ shift_down (size - (at + 1) + 1) at (at + 1) bytes
    guard = ap (λ b. if b then shift_down (size - (at + 1) + 1) at (at + 1) bytes else bytes) test

    rounds : size - (at + 1) + 1 ≡ length (ys ++ (0 ∷ []))
    rounds = omega (arith, length-append xs (c ∷ ys), length-append ys (0 ∷ []))

    shape : bytes ≡ xs ++ (c ∷ (ys ++ (0 ∷ [])))
    shape = terminated-append (xs ++ (c ∷ ys)) ∙ append_assoc xs (c ∷ ys) (0 ∷ [])

-- The byte between two texts is taken out, and one more NUL ends the content.
pub remove_char-content :
    (c at : ℕ) (m : Message) (xs ys : Text) (spare : ℕ)
    → length xs ≡ at
    → length xs + suc (length ys) + spare ≡ max_chars
    → All NotNul (xs ++ (c ∷ ys))
    → All NotNul (xs ++ ys)
    → m.content ≡ xs ++ (c ∷ (ys ++ (0 ∷ replicate spare 0)))
    → (remove_char at m).content ≡ xs ++ (ys ++ (0 ∷ replicate (suc spare) 0))
unfolding remove_char get_message_content set_message_content copy_into
remove_char-content c at m xs ys spare hl size nn nn' e =
    ap
      (λ t.
        copy_into m.content (max_chars + 1)
          (string_of (shift_chars (terminated t) (length t) at (at + 1))))
      string
    ∙ ap (copy_into m.content (max_chars + 1)) (shift_chars-string c at xs ys hl nn')
    ∙ ap (λ b. if b then strcpy m.content (xs ++ ys) else m.content)
        (lt→ltb (length (xs ++ ys)) (max_chars + 1) (omega (arith, length-append xs ys)))
    ∙ ap (λ rest. (xs ++ ys) ++ (0 ∷ rest)) rest
    ∙ append_assoc xs ys (0 ∷ replicate (suc spare) 0)
  where
    shape : m.content ≡ (xs ++ (c ∷ ys)) ++ (0 ∷ replicate spare 0)
    shape = e ∙ sym (append_assoc xs (c ∷ ys) (0 ∷ replicate spare 0))

    string : string_of m.content ≡ xs ++ (c ∷ ys)
    string = ap string_of shape ∙ string_of-terminated (xs ++ (c ∷ ys)) (replicate spare 0) nn

    rest : drop (suc (length (xs ++ ys))) m.content ≡ 0 ∷ replicate spare 0
    rest =
        ap (drop (suc (length (xs ++ ys)))) shape
        ∙ drop-length (xs ++ (c ∷ ys)) (0 ∷ replicate spare 0) (suc (length (xs ++ ys)))
            (omega (arith, length-append xs (c ∷ ys), length-append xs ys))

pub All-without : (c : ℕ) (xs ys : Text) → All NotNul (xs ++ (c ∷ ys)) → All NotNul (xs ++ ys)
All-without c xs ys h = All-append xs ys (All-left xs (c ∷ ys) h) (All-right xs (c ∷ ys) h).1
