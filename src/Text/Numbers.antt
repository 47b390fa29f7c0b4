-- ===== src/Text/Numbers.antt =====
-- libs/src/string_utils.c: numbers as text. `strtol` with base 0 is written out; a `long` has 64 bits
-- and an `int` 32.
pub mod Digits
pub mod RoundTrip
use irc_client_server.Base.{
  ℕ, zero, suc, ◌+◌, ◌-◌, ◌*◌, ◌/◌, ◌%◌, ◌^◌, ltb, leb, ◌==◌, if◌then◌else◌, Bool, true, false, not,
  ◌&&◌, ◌||◌, Option, none, some, [], ◌∷◌, ◌++◌, length, drop,
}
use irc_client_server.Base.Int.{ℤ, pos, negsuc}
use irc_client_server.Text.{Text}

-- The loop that counts digits, with the number as fuel. `divisor` is an `int`, which does not overflow
-- for a number below 10 ^ 9.
unfoldable pub count_digits : ℕ → ℕ → ℕ → ℕ → ℕ
count_digits zero number divisor digits = digits
count_digits (suc fuel) number divisor digits =
    let more = count_digits fuel number (divisor * 10) (digits + 1) in
    if leb divisor number then more else digits

-- The loop that writes the digits, the last one first.
unfoldable pub write_digits : ℕ → ℕ → Text → Text
write_digits zero number written = written
write_digits (suc digits) number written =
    write_digits digits (number / 10) ((number % 10 + b'0') ∷ written)

-- The buffer's other bytes stay.
unfoldable pub uint_to_str : Text → ℕ → ℕ → Bool × Text
uint_to_str buffer size number =
    let digits = count_digits number number 10 1 in
    if ltb digits size
    then (true, write_digits digits number [] ++ drop digits buffer)
    else (false, buffer)

abbrev pub isspace : ℕ → Bool
isspace c = (c == 32) || (leb 9 c && leb c 13)

unfoldable pub skip_spaces : Text → Text
skip_spaces [] = []
skip_spaces (c ∷ string) = let rest = skip_spaces string in if isspace c then rest else c ∷ string

-- An optional sign: whether it is a minus, and the rest.
abbrev pub read_sign : Text → Bool × Text
read_sign [] = (false, [])
read_sign (c ∷ string) =
    if c == b'-' then (true, string) else if c == b'+' then (false, string) else (false, c ∷ string)

-- The base, and the digits behind its mark.
abbrev pub read_base : Text → ℕ × Text
read_base [] = (10, [])
read_base (c ∷ []) = (10, c ∷ [])
read_base (c ∷ d ∷ string) =
    if c == b'0'
    then (if (d == b'x') || (d == b'X') then (16, string) else (8, d ∷ string))
    else (10, c ∷ d ∷ string)

-- none: no digit of any base.
abbrev pub digit_value : ℕ → Option ℕ
digit_value c =
    if leb b'0' c && leb c b'9'
    then some (c - b'0')
    else if leb b'a' c && leb c b'f'
    then some (c - b'a' + 10)
    else if leb b'A' c && leb c b'F'
    then some (c - b'A' + 10)
    else none

-- none: a byte that is no digit of the base.
unfoldable pub read_digits : ℕ → Text → ℕ → Option ℕ
read_digits base [] number = some number
read_digits base (c ∷ string) number = elim (digit_value c) [
  | none ↦ none
  | some d ↦
      let rest = read_digits base string (number * base + d) in if ltb d base then rest else none
]

-- none: `strtol` read no number, did not read all of the string, or left the range of a `long`.
abbrev pub read_number : Text → Option (Bool × ℕ)
read_number string =
    let (negative, digits) = read_sign (skip_spaces string) in
    let (base, rest) = read_base digits in
    if length rest == 0 then none else elim (read_digits base rest 0) [
      | none ↦ none
      | some number ↦ if ltb number (2 ^ 63) then some (negative, number) else none
    ]

-- The conversion of a `long` that is not negative to an `int`.
abbrev pub to_int : ℕ → ℤ
to_int number =
    let low = number % 2 ^ 32 in if ltb low (2 ^ 31) then pos low else negsuc (2 ^ 32 - 1 - low)

abbrev pub nonnegative : Option (Bool × ℕ) → ℤ
nonnegative none = negsuc 0
nonnegative (some (negative, number)) =
    if negative && not (number == 0) then negsuc 0 else to_int number

unfoldable pub str_to_uint : Text → ℤ
str_to_uint string = nonnegative (read_number string)
