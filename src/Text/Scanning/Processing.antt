-- ===== src/Text/Scanning/Processing.antt =====
-- The two ways of libs/src/string_utils.c to cut a string into messages.
use irc_client_server.Base.{
  ℕ, zero, suc, ◌<◌, ◌==◌, if◌then◌else◌, false, ◌≡◌, refl, sym, ap, ◌∙◌, Option, none, some, List,
  [], drop, length, arith,
}
use irc_client_server.Text.{Text}
use irc_client_server.Text.Messages.{find_delimiter, extract_messages, cons_message}
use irc_client_server.Text.Messages.Delimiters.{FindsFirst, find_delimiter-FindsFirst, rest-shorter}
use irc_client_server.Text.Messages.Framing.{pieces, next_piece, extract_messages-pieces}
use irc_client_server.Text.Scanning.{
  count_from, count_delimiters, delimit_messages, process_messages,
}

module _ (delim : Text) (has_delim : 0 < length delim) where
  -- One round of either loop.
  counted : ℕ → Option (Text × Text) → ℕ
  counted n none = 0
  counted n (some (before, found)) = suc (count_from n (drop (length delim) found) delim)

  delimited : Text → ℕ → Option (Text × Text) → List Text × Text
  delimited s n none = ([], s)
  delimited s n (some (before, found)) =
      cons_message before (delimit_messages (drop (length delim) found) n delim)

  -- As many messages are cut off as delimiters were counted.
  delimit_messages-pieces :
      (n : ℕ) (s : Text)
      → length s < n
      → delimit_messages s (count_from n s delim) delim ≡ pieces delim has_delim n s
  unfolding delimit_messages count_from pieces counted delimited
  delimit_messages-pieces zero s h = absurd (omega arith)
  delimit_messages-pieces (suc n) s h =
      go (λ r lt. delimit_messages-pieces n r (omega arith)) (find_delimiter s delim) refl
        (find_delimiter-FindsFirst delim has_delim s)
    where
      go :
          ((r : Text)
            → length r < length s
            → delimit_messages r (count_from n r delim) delim ≡ pieces delim has_delim n r)
          → (o : Option (Text × Text)) → find_delimiter s delim ≡ o
          → FindsFirst delim s o
          → delimit_messages s (count_from (suc n) s delim) delim
            ≡ next_piece delim has_delim (pieces delim has_delim n) s (find_delimiter s delim)
      go again none e f =
          ap (λ k. delimit_messages s k delim) (ap (counted n) e)
          ∙ sym (ap (next_piece delim has_delim (pieces delim has_delim n) s) e)
      go again (some (before, found)) e f =
          ap (λ k. delimit_messages s k delim) (ap (counted n) e)
          ∙ ap (delimited s (count_from n (drop (length delim) found) delim)) e
          ∙ ap (cons_message before)
              (again (drop (length delim) found) (rest-shorter delim has_delim s before found f))
          ∙ sym (ap (next_piece delim has_delim (pieces delim has_delim n) s) e)

  not_zero : (n : ℕ) → (suc n == 0) ≡ false
  not_zero n = ground arith

  delimit_nothing :
      (n : ℕ) (s : Text)
      → (let (messages, partial_message) = delimit_messages s n delim in
          if n == 0 then ([], s) else (messages, partial_message))
        ≡ delimit_messages s n delim
  unfolding delimit_messages
  delimit_nothing zero s = refl
  delimit_nothing (suc n) s = rw (not_zero n) refl

  -- With a delimiter that is not empty, cutting a string into all its messages at once yields the
  -- messages, and leaves the string, that taking one message after the other does, if that loop's
  -- buffer has room for the whole string.
  pub process_messages-extract_messages :
      (buffer : Text) (size : ℕ) (s : Text)
      → length s < size
      → process_messages s delim ≡ extract_messages (suc (length s)) buffer size s delim
  unfolding process_messages count_delimiters
  process_messages-extract_messages buffer size s room =
      delimit_nothing (count_from (suc (length s)) s delim) s
      ∙ delimit_messages-pieces (suc (length s)) s (omega arith)
      ∙ sym (extract_messages-pieces delim has_delim (suc (length s)) buffer size s room)
