-- ===== src/Text/Tokens.antt =====
-- libs/src/string_utils.c: the splitting of a string into tokens and their concatenation. A buffer is
-- the string it holds; `strncat` with the room left in a buffer of `size` bytes takes what fits.
pub mod Concatenation
pub mod Pairs
use irc_client_server.Base.{
  ℕ, zero, suc, ◌+◌, ◌-◌, ltb, leb, ◌==◌, if◌then◌else◌, Bool, true, false, not, ◌&&◌, ◌||◌, Option,
  none, some, List, [], ◌∷◌, ◌++◌, length, take, drop,
}
use irc_client_server.Text.{Text}
use irc_client_server.Text.Messages.{find_delimiter}
use irc_client_server.Text.Endings.{is_terminated}

-- What the loop of `tokenize_string` has: the tokens it has cut off, the last token, which runs to the
-- end of the string, and `strPtr`, none for a null pointer.
pub record Split : Type 0 where
  pub tokens : List Text
  pub last_token : Text
  pub str_ptr : Option Text

abbrev pub cons_token : Text → Split → Split
cons_token token split = record split { tokens = token ∷ split.tokens }

-- The loop with `cuts` rounds of cutting left, bounded by fuel. `position` is `strPtr - string`,
-- `previous` is `prevDelimIdx + 1`, and `token` is the text from `tokenPtr` to `strPtr`.
unfoldable pub split_tokens : ℕ → ℕ → ℕ → ℕ → Text → Text → Text → Split
split_tokens zero cuts previous position token string delim = record {
  tokens = [];
  last_token = token ++ string;
  str_ptr = some string;
}
split_tokens (suc fuel) zero previous position token string delim = record {
  tokens = [];
  last_token = token ++ string;
  str_ptr = some string;
}
split_tokens (suc fuel) (suc cuts) previous position token string delim =
    elim (find_delimiter string delim) [
      | none ↦ record { tokens = []; last_token = token ++ string; str_ptr = none }
      | some (before, found) ↦
          let here = position + length before in
          let next = here + length delim in
          let repeated = previous + length delim == here + 1 in
          let later =
            split_tokens fuel (if repeated then suc cuts else cuts)
              (if repeated then next + 1 else here + 1) next
              (if repeated then token ++ (before ++ delim) else []) (drop (length delim) found)
              delim in
          if repeated then later else cons_token (token ++ before) later
    ]

-- The end of the string is cleared if it is a delimiter. An empty end counts as terminated: the bytes
-- cleared are then those of the delimiter before it, or stand before the string.
abbrev pub clear_end : Text → Option Text → Text → Text
clear_end last_token none delim = last_token
clear_end last_token (some string) delim =
    if is_terminated string delim
    then take (length last_token - length delim) last_token
    else last_token

-- The tokens written to the array, and the number returned: an empty last token is not counted.
unfoldable pub tokenize_string : Text → ℕ → Text → List Text × ℕ
tokenize_string string zero delim = ([], 0)
tokenize_string string (suc cuts) delim =
    let split = split_tokens (suc (length string)) cuts 0 0 [] string delim in
    let last_token = clear_end split.last_token split.str_ptr delim in
    (
      split.tokens ++ (last_token ∷ []),
      length split.tokens + (if length last_token == 0 then 0 else 1),
    )

-- The bytes up to the first `stop`, none for the end of the string.
unfoldable pub count_spaces : Option ℕ → Text → ℕ
count_spaces stop [] = 0
count_spaces none (c ∷ string) =
    (if (c == b' ') && not (length string == 0) then 1 else 0) + count_spaces none string
count_spaces (some stop) (c ∷ string) =
    let rest = count_spaces (some stop) string in
    if c == stop then 0 else (if (c == b' ') && not (length string == 0) then 1 else 0) + rest

abbrev pub first_byte : Text → Option ℕ
first_byte [] = none
first_byte (c ∷ string) = some c

-- A null `delim` is the empty one.
unfoldable pub count_tokens : Text → Text → ℕ
count_tokens string delim =
    (if length string == 0 then 0 else 1) + count_spaces (first_byte delim) string

abbrev pub strncat : Text → Text → ℕ → Text
strncat buffer string n = buffer ++ take n string

-- `strncat(buffer, string, size - strlen(buffer) - 1)`, for a buffer that holds less than its size.
abbrev pub append_within : ℕ → Text → Text → Text
append_within size buffer string = strncat buffer string (size - length buffer - 1)

abbrev pub is_blank : Option Text → Bool
is_blank none = true
is_blank (some token) = length token == 0

abbrev pub or_empty : Option Text → Text
or_empty none = []
or_empty (some token) = token

-- The loop: the number of tokens, and the buffer.
unfoldable pub append_tokens : ℕ → List (Option Text) → Text → ℕ → Text → ℕ × Text
append_tokens size [] delim count buffer = (count, buffer)
append_tokens size (token ∷ tokens) delim count buffer =
    let blank = is_blank token in
    append_tokens size tokens delim (if blank then count else count + 1) (
      if blank
      then buffer
      else append_within size (append_within size buffer (or_empty token)) delim)

-- `string[strlen(string) - 1] = '\0'` if that byte is `d`.
unfoldable pub drop_last : ℕ → Text → Text
drop_last d [] = []
drop_last d (c ∷ []) = if c == d then [] else c ∷ []
drop_last d (c ∷ e ∷ string) = c ∷ drop_last d (e ∷ string)

abbrev pub clear_trailing : Text → Text → Text
clear_trailing [] buffer = buffer
clear_trailing (d ∷ delim) buffer = drop_last d buffer

unfoldable pub concat_tokens : Text → ℕ → List (Option Text) → Text → ℕ × Text
unfolding append_tokens
concat_tokens buffer size tokens delim =
    let (count, joined) = append_tokens size tokens delim 0 buffer in
    (count, if count == 0 then joined else clear_trailing delim joined)

-- On an array of `room` bytes: the byte, the string and its NUL are one byte more than the test lets
-- fit into `size`. none: a write beyond the array.
unfoldable pub prepend_char : Text → ℕ → ℕ → Text → ℕ → Option Text
prepend_char buffer room size string ch =
    if leb (length string + 1) size
    then (if leb (length string + 2) room then some (ch ∷ string) else none)
    else some buffer

-- `iterate_string_list` with `add_string_length`.
unfoldable pub add_string_lengths : List Text → ℕ → ℕ
add_string_lengths [] len = len
add_string_lengths (string ∷ strings) len = add_string_lengths strings (len + length string)
