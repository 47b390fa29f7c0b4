-- ===== src/Text/Letters.antt =====
-- libs/src/string_utils.c: upper and lower case, in the C locale.
use irc_client_server.Base.{
  ℕ, ◌+◌, ◌-◌, ltb, leb, if◌then◌else◌, Bool, ◌&&◌, map, ◌++◌, length, take, drop,
}
use irc_client_server.Text.{Text}

abbrev pub isupper : ℕ → Bool
isupper c = leb b'A' c && leb c b'Z'

abbrev pub islower : ℕ → Bool
islower c = leb b'a' c && leb c b'z'

abbrev pub tolower : ℕ → ℕ
tolower c = if isupper c then c + 32 else c

abbrev pub toupper : ℕ → ℕ
toupper c = if islower c then c - 32 else c

unfoldable pub str_to_lower : Text → ℕ → Text → Text
str_to_lower buffer size string = if ltb (length string) size then map tolower string else buffer

unfoldable pub str_to_upper : Text → ℕ → Text → Text
str_to_upper buffer size string = if ltb (length string) size then map toupper string else buffer

-- The first `n` bytes are written over those of the buffer, with no terminator behind them.
abbrev pub overwrite : Text → Text → Text
overwrite buffer string = string ++ drop (length string) buffer

unfoldable pub strn_to_lower : Text → ℕ → Text → ℕ → Text
strn_to_lower buffer size string n =
    if ltb (length string) size then overwrite buffer (map tolower (take n string)) else buffer

unfoldable pub strn_to_upper : Text → ℕ → Text → ℕ → Text
strn_to_upper buffer size string n =
    if ltb (length string) size then overwrite buffer (map toupper (take n string)) else buffer
