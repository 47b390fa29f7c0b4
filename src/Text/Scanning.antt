-- ===== src/Text/Scanning.antt =====
-- libs/src/string_utils.c: the counting of delimiters, the cutting of a string into all its messages,
-- and the escaping of CR and LF for the log.
pub mod Processing
use irc_client_server.Base.{
  ℕ, zero, suc, ◌+◌, ◌*◌, ltb, ◌==◌, if◌then◌else◌, ◌||◌, Option, none, some, List, [], ◌∷◌, drop,
  length,
}
use irc_client_server.Text.{Text}
use irc_client_server.Text.Messages.{find_delimiter, cons_message}

abbrev pub crlf : Text
crlf = 13 ∷ 10 ∷ []

-- The loop of `count_delimiters`; the fuel bounds its rounds.
unfoldable pub count_from : ℕ → Text → Text → ℕ
count_from zero string delim = 0
count_from (suc fuel) string delim = elim (find_delimiter string delim) [
  | none ↦ 0
  | some (before, found) ↦ suc (count_from fuel (drop (length delim) found) delim)
]

-- A delimiter that is not empty is found at most once per byte.
unfoldable pub count_delimiters : Text → Text → ℕ
count_delimiters string delim = count_from (suc (length string)) string delim

-- The tokens of `delimit_messages`, and the string behind the last of them.
unfoldable pub delimit_messages : Text → ℕ → Text → List Text × Text
delimit_messages string zero delim = ([], string)
delimit_messages string (suc tk_count) delim = elim (find_delimiter string delim) [
  | none ↦ ([], string)
  | some (before, found) ↦
      cons_message before (delimit_messages (drop (length delim) found) tk_count delim)
]

-- What the iterator function sees, in order, and what is left in the string.
unfoldable pub process_messages : Text → Text → List Text × Text
process_messages string delim =
    let tk_count = count_delimiters string delim in
    let (messages, partial_message) = delimit_messages string tk_count delim in
    if tk_count == 0 then ([], string) else (messages, partial_message)

-- The loop of `escape_crlf_sequence`: "\r" and "\n" are written for the two bytes.
unfoldable pub escape_bytes : Text → Text
escape_bytes [] = []
escape_bytes (c ∷ string) =
    let rest = escape_bytes string in
    if (c == 13) || (c == 10) then 0x5c ∷ (if c == 13 then b'r' else b'n') ∷ rest else c ∷ rest

-- What an empty buffer holds afterwards. The test counts CRLF, the loop every CR and every LF: the
-- text may be longer than the test expects.
unfoldable pub escape_crlf_sequence : ℕ → Text → Text
escape_crlf_sequence size string =
    if ltb (length string + length crlf * count_delimiters string crlf) size
    then escape_bytes string
    else []

unfoldable pub count_format_specifiers : Text → ℕ
count_format_specifiers [] = 0
count_format_specifiers (c ∷ string) = (if c == b'%' then 1 else 0) + count_format_specifiers string
