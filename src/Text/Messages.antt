-- ===== src/Text/Messages.antt =====
-- libs/src/string_utils.c: the cutting of a buffer into messages at a delimiter, and the loop over
-- `extract_message` by which the dispatchers of both programs read a client's buffer.
pub mod Delimiters
pub mod Framing
use irc_client_server.Base.{
  ℕ, zero, suc, ◌==◌, if◌then◌else◌, Bool, true, false, ◌&&◌, Option, none, some, List, [], ◌∷◌,
  drop, length,
}
use irc_client_server.Text.{Text, safe_copy}

unfoldable pub starts_with : Text → Text → Bool
starts_with [] string = true
starts_with (d ∷ delim) [] = false
starts_with (d ∷ delim) (c ∷ string) = (c == d) && starts_with delim string

-- `strstr(string, delim)`: what stands before the first occurrence, and the rest from there.
unfoldable pub find_delimiter : Text → Text → Option (Text × Text)
find_delimiter [] delim = if starts_with delim [] then some ([], []) else none
find_delimiter (c ∷ string) delim =
    let rest = find_delimiter string delim in
    if starts_with delim (c ∷ string)
    then some ([], c ∷ string)
    else elim rest [ none ↦ none | some (before, found) ↦ some (c ∷ before, found) ]

-- The result, the buffer and the remaining string.
unfoldable pub extract_message : Text → ℕ → Text → Text → Bool × Text × Text
extract_message buffer size string delim = elim (find_delimiter string delim) [
  | none ↦ (false, buffer, string)
  | some (before, found) ↦ (true, (safe_copy buffer size before).1, drop (length delim) found)
]

abbrev pub cons_message : Text → List Text × Text → List Text × Text
cons_message message (messages, string) = (message ∷ messages, string)

-- `while (extract_message(message, size, string, delim)) { ... }`: the messages that the body sees,
-- and the string at the end; the fuel bounds the rounds.
unfoldable pub extract_messages : ℕ → Text → ℕ → Text → Text → List Text × Text
extract_messages zero buffer size string delim = ([], string)
extract_messages (suc fuel) buffer size string delim =
    let r = extract_message buffer size string delim in
    let later = extract_messages fuel r.1 size r.2 delim in
    if r.0 then cons_message r.1 later else ([], r.2)
