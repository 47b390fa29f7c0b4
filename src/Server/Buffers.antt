-- ===== src/Server/Buffers.antt =====
-- The buffer of a client in `server_read` of server/src/tcp_server.c.
use irc_client_server.Base.{
  ℕ, ◌+◌, ◌-◌, ◌≤◌, ◌<◌, ltb, leb, lt→ltb, ◌==◌, if◌then◌else◌, Bool, true, false, not, ◌&&◌,
  is_none, ◌⊎◌, inl, inr, ◌≡◌, refl, ap, ◌∙◌, [], ◌++◌, append-nil, length, length-append, arith,
}
use irc_client_server.Text.{Text, max_chars, safe_copy}
use irc_client_server.Text.Scanning.{crlf}
use irc_client_server.Text.Messages.{find_delimiter}
use irc_client_server.Server.Reading.{copy_bytes, add_to_buffer, fill_buffer}

leb-le : (a b : ℕ) → a ≤ b → leb a b ≡ true
leb-le a b h = ground arith

leb-gt : (a b : ℕ) → b < a → leb a b ≡ false
leb-gt a b h = ground arith

ltb-ge : (a b : ℕ) → b ≤ a → ltb a b ≡ false
ltb-ge a b h = ground arith

-- Whether a buffer holds a message.
abbrev pub holds_message : Text → Bool
holds_message buffer = not (is_none (find_delimiter buffer crlf))

copy_bytes-fits : (b t : Text) → length b + length t ≤ max_chars → copy_bytes b t ≡ length t
copy_bytes-fits b t h =
    ap (λ c. if c then max_chars - length b else length t)
      (leb-gt (max_chars + 1) (length b + length t) (omega arith))

copy_bytes-too_long :
    (b t : Text) → max_chars < length b + length t → copy_bytes b t ≡ max_chars - length b
copy_bytes-too_long b t h =
    ap (λ c. if c then max_chars - length b else length t)
      (leb-le (max_chars + 1) (length b + length t) (omega arith))

-- The copy, by the test of `safe_copy`.
copied : Text → Text → Bool → Text
copied b t c = let r : Bool × Text = if c then (true, t) else (false, []) in b ++ r.1

add_to_buffer-fits : (b t : Text) → length b + length t ≤ max_chars → add_to_buffer b t ≡ b ++ t
unfolding add_to_buffer safe_copy copied
add_to_buffer-fits b t h =
    ap (λ n. copied b t (ltb (length t) (n + 1))) (copy_bytes-fits b t h)
    ∙ ap (copied b t) (lt→ltb (length t) (length t + 1) (omega arith))

add_to_buffer-too_long :
    (b t : Text) → length b ≤ max_chars → max_chars < length b + length t → add_to_buffer b t ≡ b
unfolding add_to_buffer safe_copy copied
add_to_buffer-too_long b t room h =
    ap (λ n. copied b t (ltb (length t) (n + 1))) (copy_bytes-too_long b t h)
    ∙ ap (copied b t) (ltb-ge (length t) (max_chars - length b + 1) (omega arith))
    ∙ append-nil b

-- The result for a buffer that was filled, with the count of its bytes.
filled : Text → ℕ → Bool × Text
filled buffer n =
    (holds_message buffer, if not (holds_message buffer) && n == max_chars then [] else buffer)

filled-held :
    (buffer : Text) (n : ℕ) → holds_message buffer ≡ true → filled buffer n ≡ (true, buffer)
unfolding filled
filled-held buffer n e = ap (λ c. (c, if not c && n == max_chars then [] else buffer)) e

filled-partial :
    (buffer : Text) (n : ℕ) (c : Bool)
    → holds_message buffer ≡ false
    → (n == max_chars) ≡ c
    → filled buffer n ≡ (false, if c then [] else buffer)
unfolding filled
filled-partial buffer n c e f =
    ap (λ d. (d, if not d && n == max_chars then [] else buffer)) e
    ∙ ap (λ d. (false, if d then [] else buffer)) f

fill_buffer-filled :
    (b t : Text) → fill_buffer b t ≡ filled (add_to_buffer b t) (length b + copy_bytes b t)
unfolding fill_buffer filled
fill_buffer-filled b t = refl

fill_buffer-fits :
    (b t : Text)
    → length b + length t ≤ max_chars
    → fill_buffer b t ≡ filled (b ++ t) (length b + length t)
fill_buffer-fits b t h =
    fill_buffer-filled b t
    ∙ ap (λ u. filled u (length b + copy_bytes b t)) (add_to_buffer-fits b t h)
    ∙ ap (λ n. filled (b ++ t) (length b + n)) (copy_bytes-fits b t h)

fill_buffer-too_long :
    (b t : Text)
    → length b ≤ max_chars
    → max_chars < length b + length t
    → fill_buffer b t ≡ filled b max_chars
fill_buffer-too_long b t room h =
    fill_buffer-filled b t
    ∙ ap (λ u. filled u (length b + copy_bytes b t)) (add_to_buffer-too_long b t room h)
    ∙ ap (λ n. filled b (length b + n)) (copy_bytes-too_long b t h)
    ∙ ap (filled b) (omega (arith, room))

filled-short : (buffer : Text) (n : ℕ) → length (filled buffer n).1 ≤ length buffer
unfolding filled
filled-short buffer n = go (not (holds_message buffer) && n == max_chars)
  where
    go : (c : Bool) → length (if c then [] else buffer) ≤ length buffer
    go true = omega arith
    go false = omega arith

-- What a read of a text makes of a buffer: a text that fits is added, else nothing is; and if no
-- message is there and the buffer was to be full, it is empty. The result tells whether there is a
-- message.
pub record Fills (b t : Text) (r : Bool × Text) : Type 0 where
  pub fits : length b + length t ≤ max_chars → holds_message (b ++ t) ≡ true → r ≡ (true, b ++ t)
  pub waits : length b + length t < max_chars → holds_message (b ++ t) ≡ false → r ≡ (false, b ++ t)
  pub full : length b + length t ≡ max_chars → holds_message (b ++ t) ≡ false → r ≡ (false, [])
  pub lost : max_chars < length b + length t → holds_message b ≡ false → r ≡ (false, [])
  pub kept : max_chars < length b + length t → holds_message b ≡ true → r ≡ (true, b)
  pub bounded : length r.1 ≤ max_chars

le_cases : (m n : ℕ) → (m ≤ n) ⊎ (n < m)
le_cases m n = ground arith

-- What a read makes of a buffer of at most 512 bytes: a text that fits behind it is kept if then
-- there is a message, or the buffer is not full; a full buffer without a message is emptied. A
-- text that does not fit is lost: a buffer that holds a message stays as it is, and one without
-- is emptied. The result tells whether there is a message, and the buffer never holds more than
-- 512 bytes.
pub fill_buffer-Fills : (b t : Text) → length b ≤ max_chars → Fills b t (fill_buffer b t)
fill_buffer-Fills b t room = record {
  fits = λ h e. fill_buffer-fits b t h ∙ filled-held (b ++ t) (length b + length t) e;
  waits = λ h e.
      fill_buffer-fits b t (omega (arith, h))
      ∙ filled-partial (b ++ t) (length b + length t) false e (ground arith);
  full = λ h e.
      fill_buffer-fits b t (omega (arith, h))
      ∙ filled-partial (b ++ t) (length b + length t) true e (ground arith);
  lost = λ h e. fill_buffer-too_long b t room h ∙ filled-partial b max_chars true e refl;
  kept = λ h e. fill_buffer-too_long b t room h ∙ filled-held b max_chars e;
  bounded = elim (le_cases (length b + length t) max_chars) [
    | inl h ↦ omega (
      arith,
      ap (λ r. length r.1) (fill_buffer-fits b t h),
      filled-short (b ++ t) (length b + length t),
      length-append b t,
    )
    | inr h ↦ omega (
      arith,
      room,
      ap (λ r. length r.1) (fill_buffer-too_long b t room h),
      filled-short b max_chars,
    )
  ];
}
