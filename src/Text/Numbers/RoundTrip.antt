-- ===== src/Text/Numbers/RoundTrip.antt =====
-- libs/src/string_utils.c: a number written by uint_to_str and read by str_to_uint.
use irc_client_server.Base.{
  ℕ, zero, suc, ◌+◌, ◌^◌, ◌<◌, ltb, ◌==◌, if◌then◌else◌, Bool, true, false, ◌≡◌, refl, ap, ◌∙◌,
  subst, lt→ltb, ◌⊎◌, inl, inr, Option, none, some, [], ◌∷◌, ◌++◌, length, drop, append-nil, arith,
}
use irc_client_server.Base.Int.{pos}
use irc_client_server.Text.{Text}
use irc_client_server.Text.Numbers.{
  count_digits, write_digits, uint_to_str, isspace, skip_spaces, read_sign, read_base, read_digits,
  read_number, to_int, nonnegative, str_to_uint,
}
use irc_client_server.Text.Numbers.Digits.{
  StartsWithDigit, single, read_digits-write_digits, below_power, count_digits-enough,
  count_digits-IsCount, written_starts,
}

skip_spaces-digit :
    (d : ℕ) (rest : Text) → d < 10 → skip_spaces ((d + b'0') ∷ rest) ≡ (d + b'0') ∷ rest
unfolding skip_spaces
skip_spaces-digit d rest h =
    ap (λ b. if b then skip_spaces rest else (d + b'0') ∷ rest) (not_space d h)
  where
    not_space : (d : ℕ) → d < 10 → isspace (d + b'0') ≡ false
    not_space d h = ground arith

read_sign-digit :
    (d : ℕ) (rest : Text) → d < 10 → read_sign ((d + b'0') ∷ rest) ≡ (false, (d + b'0') ∷ rest)
read_sign-digit d rest h = ground arith

read_base-digit :
    (d : ℕ) (rest : Text)
    → (rest ≡ []) ⊎ (0 < d)
    → read_base ((d + b'0') ∷ rest) ≡ (10, (d + b'0') ∷ rest)
read_base-digit d [] h = refl
read_base-digit d (e ∷ rest) (inl n) = cc
read_base-digit d (e ∷ rest) (inr n) = ground arith

abbrev behind_base : Bool → ℕ × Text → Option (Bool × ℕ)
behind_base negative (base, rest) =
    if length rest == 0 then none else elim (read_digits base rest 0) [
      | none ↦ none
      | some number ↦ if ltb number (2 ^ 63) then some (negative, number) else none
    ]

abbrev behind_sign : Bool × Text → Option (Bool × ℕ)
behind_sign (negative, digits) = behind_base negative (read_base digits)

behind_base-digits :
    (c : ℕ) (rest : Text) (n : ℕ)
    → read_digits 10 (c ∷ rest) 0 ≡ some n
    → n < 2 ^ 63
    → behind_base false (10, c ∷ rest) ≡ some (false, n)
behind_base-digits c rest n e h =
    ap
      (λ b. if b then none else elim (read_digits 10 (c ∷ rest) 0) [
        | none ↦ none
        | some number ↦ if ltb number (2 ^ 63) then some (false, number) else none
      ])
      (not_empty c rest)
    ∙ ap
        (λ o. elim o as (λ x. Option (Bool × ℕ)) [
          | none ↦ none
          | some number ↦ if ltb number (2 ^ 63) then some (false, number) else none
        ])
        e
    ∙ ap (λ b. if b then some (false, n) else none) (lt→ltb n (2 ^ 63) h)
  where
    not_empty : (c : ℕ) (rest : Text) → (length (c ∷ rest) == 0) ≡ false
    not_empty c rest = ground arith

-- A number that starts like this is read in base 10, without a sign.
read_number-digits :
    (d : ℕ) (rest : Text) (n : ℕ)
    → d < 10
    → (rest ≡ []) ⊎ (0 < d)
    → read_digits 10 ((d + b'0') ∷ rest) 0 ≡ some n
    → n < 2 ^ 63
    → read_number ((d + b'0') ∷ rest) ≡ some (false, n)
read_number-digits d rest n below z e h =
    ap (λ t. behind_sign (read_sign t)) (skip_spaces-digit d rest below)
    ∙ ap behind_sign (read_sign-digit d rest below)
    ∙ ap (behind_base false) (read_base-digit d rest z)
    ∙ behind_base-digits (d + b'0') rest n e h

read_number-written :
    (t : Text) (n : ℕ)
    → StartsWithDigit t
    → read_digits 10 t 0 ≡ some n
    → n < 2 ^ 63
    → read_number t ≡ some (false, n)
read_number-written t n s e h =
    ap read_number s.starts
    ∙ read_number-digits s.first s.rest n s.below s.no_zero
        (subst (λ t. read_digits 10 t 0 ≡ some n) s.starts e) h

to_int-small : (n : ℕ) → n < 10 ^ 9 → to_int n ≡ pos n
to_int-small n h = ground arith

read_number-write_digits :
    (n : ℕ) → n < 10 ^ 9 → read_number (write_digits (count_digits n n 10 1) n []) ≡ some (false, n)
unfolding read_digits
read_number-write_digits n h =
    read_number-written (write_digits d n []) n
      (written_starts n d (count_digits-IsCount n n 1 single) enough)
      (read_digits-write_digits d n [] 0 enough ∙ ap some (omega arith)) (omega arith)
  where
    d : ℕ
    d = count_digits n n 10 1

    enough : n < 10 ^ d
    enough = count_digits-enough n n 1 (below_power n)

pub str_to_uint-write_digits :
    (n : ℕ) → n < 10 ^ 9 → str_to_uint (write_digits (count_digits n n 10 1) n []) ≡ pos n
unfolding str_to_uint
str_to_uint-write_digits n h = ap nonnegative (read_number-write_digits n h) ∙ to_int-small n h

abbrev pub chosen : Bool → Text → Bool × Text
chosen b t = if b then (true, t) else (false, [])

pub chosen-true : (b : Bool) (t : Text) → (chosen b t).0 ≡ true → (chosen b t).1 ≡ t
chosen-true true t h = refl
chosen-true false t h = cc

pub nothing_behind : (d : ℕ) (t : Text) → t ++ drop d [] ≡ t
nothing_behind zero t = append-nil t
nothing_behind (suc d) t = append-nil t

-- A number below a thousand million that uint_to_str has room for, written into the empty buffer,
-- is read back by str_to_uint.
pub str_to_uint-uint_to_str :
    (size n : ℕ)
    → n < 10 ^ 9
    → (uint_to_str [] size n).0 ≡ true
    → str_to_uint (uint_to_str [] size n).1 ≡ pos n
unfolding str_to_uint uint_to_str
str_to_uint-uint_to_str size n h room =
    ap (λ t. nonnegative (read_number t))
      (chosen-true (ltb (count_digits n n 10 1) size)
          (write_digits (count_digits n n 10 1) n [] ++ drop (count_digits n n 10 1) []) room
        ∙ nothing_behind (count_digits n n 10 1) (write_digits (count_digits n n 10 1) n []))
    ∙ str_to_uint-write_digits n h
