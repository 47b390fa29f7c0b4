-- ===== src/Text.antt =====
-- Strings: a C string is the list of its bytes before the terminating NUL. Of
-- libs/src/string_utils.c this file models the copy into a buffer and the test of names; the sizes
-- are those of libs/src/common.h.
pub mod Messages
pub mod Endings
pub mod Scanning
pub mod Letters
pub mod Numbers
pub mod Tokens
use Prim.Native.Char.{code}
use Prim.Native.String.{String}
use irc_client_server.Base.{
  ℕ, ltb, leb, ◌==◌, if◌then◌else◌, Bool, true, false, ◌&&◌, ◌||◌, List, [], ◌∷◌, length,
}

abbrev pub Text : Type 0
Text = List ℕ

-- The bytes of a literal.
abbrev pub codes : String → Text
codes String.[] = []
codes (String.◌∷◌ c s) = code c ∷ codes s

abbrev pub max_chars : ℕ
max_chars = 512

abbrev pub max_nickname_len : ℕ
max_nickname_len = 9

abbrev pub max_channel_len : ℕ
max_channel_len = 50

-- What the buffer of `size` bytes holds afterwards: a string that does not fit leaves it alone. A null
-- string is the empty one.
unfoldable pub safe_copy : Text → ℕ → Text → Bool × Text
safe_copy buffer size string = if ltb (length string) size then (true, string) else (false, buffer)

-- `isalnum` of the C locale.
abbrev pub isalnum : ℕ → Bool
isalnum c = (leb b'0' c && leb c b'9') || (leb b'A' c && leb c b'Z') || (leb b'a' c && leb c b'z')

-- `strchr(string, c) != NULL`, for a byte other than NUL.
abbrev pub strchr : Text → ℕ → Bool
strchr [] c = false
strchr (d ∷ string) c = (d == c) || strchr string c

unfoldable pub is_valid_name : Text → Text → Bool
is_valid_name [] allowed_chars = true
is_valid_name (c ∷ name) allowed_chars =
    (isalnum c || strchr allowed_chars c) && is_valid_name name allowed_chars
