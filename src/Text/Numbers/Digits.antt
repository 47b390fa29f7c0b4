-- ===== src/Text/Numbers/Digits.antt =====
-- libs/src/string_utils.c: the digits that uint_to_str writes, as str_to_uint reads them.
use irc_client_server.Base.{
  ℕ, zero, suc, ◌+◌, ◌*◌, ◌/◌, ◌%◌, ◌^◌, ◌<◌, ◌≤◌, ltb, leb, if◌then◌else◌, true, false, ◌≡◌, refl,
  sym, ap, ◌∙◌, subst, lt→ltb, ◌⊎◌, inl, inr, Bool-cases, Option, none, some, [], ◌∷◌, arith,
}
use irc_client_server.Text.{Text}
use irc_client_server.Text.Numbers.{count_digits, write_digits, digit_value, read_digits}

is_digit : (d : ℕ) → d < 10 → digit_value (d + b'0') ≡ some d
is_digit d h = ground arith

digit_step :
    (d : ℕ) (w : Text) (number : ℕ)
    → d < 10
    → read_digits 10 ((d + b'0') ∷ w) number ≡ read_digits 10 w (number * 10 + d)
unfolding read_digits
digit_step d w number h =
    ap
      (λ o. elim o as (λ x. Option ℕ) [
        | none ↦ none
        | some k ↦ if ltb k 10 then read_digits 10 w (number * 10 + k) else none
      ])
      (is_digit d h)
    ∙ ap (λ b. if b then read_digits 10 w (number * 10 + d) else none) (lt→ltb d 10 h)

shifted : (p number a b n : ℕ) → n ≡ a * 10 + b → (number * p + a) * 10 + b ≡ number * (p * 10) + n
shifted p number a b n h = grind arith

-- The digits written are read behind those read before them.
pub read_digits-write_digits :
    (d n : ℕ) (w : Text) (number : ℕ)
    → n < 10 ^ d
    → read_digits 10 (write_digits d n w) number ≡ read_digits 10 w (number * 10 ^ d + n)
unfolding write_digits
read_digits-write_digits zero n w number h = ap (read_digits 10 w) (omega arith)
read_digits-write_digits (suc d) n w number h =
    read_digits-write_digits d (n / 10) ((n % 10 + b'0') ∷ w) number (omega arith)
    ∙ digit_step (n % 10) w (number * 10 ^ d + n / 10) (omega arith)
    ∙ ap (read_digits 10 w) (
        shifted (10 ^ d) number (n / 10) (n % 10) n (omega arith)
        ∙ ap (λ p. number * p + n) (omega arith))

power_above : (n : ℕ) → n < 10 ^ n
power_above zero = omega arith
power_above (suc n) = let h = power_above n in omega arith

power_suc : (d : ℕ) → 10 ^ d * 10 ≡ 10 ^ (suc d)
power_suc d = omega arith

pub below_power : (n : ℕ) → n < 10 ^ (1 + n)
below_power n = subst (λ k. n < 10 ^ k) (omega arith) (let p = power_above n in power_next n p)
  where
    power_next : (n : ℕ) → n < 10 ^ n → n < 10 ^ (suc n)
    power_next n p = omega arith

counted_more :
    (fuel n digits : ℕ)
    → leb (10 ^ digits) n ≡ true
    → count_digits (suc fuel) n (10 ^ digits) digits
      ≡ count_digits fuel n (10 ^ (digits + 1)) (digits + 1)
unfolding count_digits
counted_more fuel n digits t =
    ap (λ b. if b then count_digits fuel n (10 ^ digits * 10) (digits + 1) else digits) t
    ∙ ap (λ p. count_digits fuel n p (digits + 1))
        (subst (λ k. 10 ^ digits * 10 ≡ 10 ^ k) (omega arith) (power_suc digits))

counted_all :
    (fuel n digits : ℕ)
    → leb (10 ^ digits) n ≡ false
    → count_digits (suc fuel) n (10 ^ digits) digits ≡ digits
unfolding count_digits
counted_all fuel n digits f =
    ap (λ b. if b then count_digits fuel n (10 ^ digits * 10) (digits + 1) else digits) f

at_most : (a b : ℕ) → leb a b ≡ true → a ≤ b
at_most a b h = ground arith

above : (a b : ℕ) → leb a b ≡ false → b < a
above a b h = ground arith

pub count_digits-enough :
    (fuel n digits : ℕ)
    → n < 10 ^ (digits + fuel)
    → n < 10 ^ (count_digits fuel n (10 ^ digits) digits)
unfolding count_digits
count_digits-enough zero n digits h = subst (λ k. n < 10 ^ k) (omega arith) h
count_digits-enough (suc fuel) n digits h = elim (Bool-cases (leb (10 ^ digits) n)) [
  | inl t ↦
      subst (λ k. n < 10 ^ k) (sym (counted_more fuel n digits t))
        (count_digits-enough fuel n (digits + 1) (subst (λ k. n < 10 ^ k) (omega arith) h))
  | inr f ↦ subst (λ k. n < 10 ^ k) (sym (counted_all fuel n digits f)) (above (10 ^ digits) n f)
]

-- The number of digits is not too large, either.
pub data IsCount (n : ℕ) : ℕ → Type 0 where
  single : IsCount n 1
  exact : (d : ℕ) → 10 ^ d ≤ n → IsCount n (suc d)

pub count_digits-IsCount :
    (fuel n digits : ℕ) → IsCount n digits → IsCount n (count_digits fuel n (10 ^ digits) digits)
unfolding count_digits
count_digits-IsCount zero n digits h = h
count_digits-IsCount (suc fuel) n digits h = elim (Bool-cases (leb (10 ^ digits) n)) [
  | inl t ↦ subst (IsCount n) (sym (counted_more fuel n digits t)) (
      count_digits-IsCount fuel n (digits + 1)
        (subst (IsCount n) (omega arith) (exact digits (at_most (10 ^ digits) n t))))
  | inr f ↦ subst (IsCount n) (sym (counted_all fuel n digits f)) h
]

-- What is written starts with a digit, which is not a zero if there are more.
pub record StartsWithDigit (t : Text) : Type 0 where
  pub first : ℕ
  pub rest : Text
  pub starts : t ≡ (first + b'0') ∷ rest
  pub below : first < 10
  pub no_zero : (rest ≡ []) ⊎ (0 < first)

write_digits-starts :
    (d n : ℕ) (w : Text)
    → 10 ^ d ≤ n
    → n < 10 ^ (suc d)
    → StartsWithDigit (write_digits (suc d) n w)
unfolding write_digits
write_digits-starts zero n w h k = record {
  first = n % 10;
  rest = w;
  starts = refl;
  below = omega arith;
  no_zero = inr (omega arith);
}
write_digits-starts (suc d) n w h k =
    write_digits-starts d (n / 10) ((n % 10 + b'0') ∷ w) (omega arith) (omega arith)

pub written_starts : (n d : ℕ) → IsCount n d → n < 10 ^ d → StartsWithDigit (write_digits d n [])
unfolding write_digits
written_starts n d single k = record {
  first = n % 10;
  rest = [];
  starts = refl;
  below = omega arith;
  no_zero = inl refl;
}
written_starts n d (exact d' h) k = write_digits-starts d' n [] h k
