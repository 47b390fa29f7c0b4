-- ===== src/Server/Descriptors.antt =====
-- A descriptor in front of a text, as tcp_server.c writes it.
use irc_client_server.Base.{
  ℕ, zero, suc, ◌+◌, ◌/◌, ◌%◌, ◌^◌, ◌<◌, ◌≤◌, ltb, lt→ltb, ◌==◌, if◌then◌else◌, false, ◌≡◌, ap, ◌∙◌,
  Option, some, List, [], ◌∷◌, ◌++◌, append_assoc, append-nil, length, length-append, drop, arith,
}
use irc_client_server.Text.{Text, codes, max_chars}
use irc_client_server.Text.Numbers.{count_digits, write_digits, uint_to_str}
use irc_client_server.Text.Numbers.Digits.{IsCount, single, exact, count_digits-IsCount}
use irc_client_server.Text.Numbers.RoundTrip.{chosen, chosen-true, nothing_behind}
use irc_client_server.Text.Tokens.{append_within, append_tokens, concat_tokens}
use irc_client_server.Text.Tokens.Concatenation.{IsWord, word_not_blank, append_within-fits}
use irc_client_server.Text.Tokens.Pairs.{HasNoBar}
use irc_client_server.Server.Delivery.{with_descriptor, max_digits}

power_monotone : (a d : ℕ) → a ≤ d → 10 ^ a ≤ 10 ^ d
power_monotone zero zero h = omega arith
power_monotone zero (suc d) h = let r = power_monotone zero d (omega arith) in omega arith
power_monotone (suc a) zero h = absurd (omega arith)
power_monotone (suc a) (suc d) h = let r = power_monotone a d (omega arith) in omega arith

abbrev pub digits_of : ℕ → ℕ
digits_of n = count_digits n n 10 1

IsCount-small : (n d : ℕ) → IsCount n d → n < 10 ^ 9 → (0 < d) × (d < 10)
IsCount-small n d single h = (omega arith, omega arith)
IsCount-small n d (exact k e) h = (omega arith, bounded k e h (power_monotone 9 k))
  where
    bounded : (k : ℕ) → 10 ^ k ≤ n → n < 10 ^ 9 → (9 ≤ k → 10 ^ 9 ≤ 10 ^ k) → suc k < 10
    bounded k e h m = grind arith

pub digits_small : (n : ℕ) → n < 10 ^ 9 → (0 < digits_of n) × (digits_of n < 10)
digits_small n h = IsCount-small n (digits_of n) (count_digits-IsCount n n 1 single) h

pub length-write_digits : (d n : ℕ) (w : Text) → length (write_digits d n w) ≡ d + length w
unfolding write_digits
length-write_digits zero n w = omega arith
length-write_digits (suc d) n w =
    omega (arith, length-write_digits d (n / 10) ((n % 10 + b'0') ∷ w))

pub write_digits-HasNoBar : (d n : ℕ) (w : Text) → HasNoBar w → HasNoBar (write_digits d n w)
unfolding write_digits
write_digits-HasNoBar zero n w h = h
write_digits-HasNoBar (suc d) n w h =
    write_digits-HasNoBar d (n / 10) ((n % 10 + b'0') ∷ w) (no_bar (n % 10) (omega arith), h)
  where
    no_bar : (k : ℕ) → k < 10 → (k + b'0' == b'|') ≡ false
    no_bar k h = ground arith

abbrev pub written : ℕ → Text
written n = write_digits (digits_of n) n []

uint_to_str-written : (n : ℕ) → n < 10 ^ 9 → (uint_to_str [] max_digits n).1 ≡ written n
unfolding uint_to_str
uint_to_str-written n h =
    chosen-true (ltb (digits_of n) 10) (written n ++ drop (digits_of n) []) (
      ap (λ b. (chosen b (written n ++ drop (digits_of n) [])).0)
        (lt→ltb (digits_of n) 10 (digits_small n h).1))
    ∙ nothing_behind (digits_of n) (written n)

-- A word is put behind the others without a delimiter.
append_token :
    (size : ℕ) (t : Text) (rest : List (Option Text)) (count : ℕ) (buffer : Text)
    → IsWord t
    → length buffer + length t < size
    → append_tokens size (some t ∷ rest) [] count buffer
      ≡ append_tokens size rest [] (count + 1) (buffer ++ t)
unfolding append_tokens
append_token size t rest count buffer w h =
    ap
      (λ blank.
        append_tokens size rest [] (if blank then count else count + 1)
          (if blank then buffer else append_within size (append_within size buffer t) []))
      (word_not_blank t w)
    ∙ ap (append_tokens size rest [] (count + 1)) (
        ap (λ b. append_within size b []) (append_within-fits size buffer t h)
        ∙ append_within-fits size (buffer ++ t) [] (omega (arith, h, length-append buffer t))
        ∙ append-nil (buffer ++ t))

concat_tokens-bar :
    (t u : Text)
    → IsWord t
    → IsWord u
    → length t + length u < 512
    → (concat_tokens [] (max_chars + 1) (some t ∷ some (codes "|") ∷ some u ∷ []) []).1
      ≡ t ++ (b'|' ∷ u)
unfolding concat_tokens append_tokens
concat_tokens-bar t u w v h =
    ap (λ r. if r.0 == 0 then r.1 else r.1)
      (append_token 513 t (some (codes "|") ∷ some u ∷ []) 0 [] w (omega arith)
        ∙ append_token 513 (codes "|") (some u ∷ []) 1 t (omega arith) (omega arith)
        ∙ append_token 513 u [] 2 (t ++ codes "|") v
            (omega (arith, h, length-append t (codes "|"))))
    ∙ append_assoc t (codes "|") u

pub with_descriptor-bar :
    (fd : ℕ) (content : Text)
    → fd < 10 ^ 9
    → 0 < length content
    → length content < 503
    → with_descriptor fd content ≡ written fd ++ (b'|' ∷ content)
unfolding with_descriptor
with_descriptor-bar fd content h n m =
    ap
      (λ t. (concat_tokens [] (max_chars + 1) (some t ∷ some (codes "|") ∷ some content ∷ []) []).1)
      (uint_to_str-written fd h)
    ∙ concat_tokens-bar (written fd) content
        (omega (arith, length-write_digits (digits_of fd) fd [], (digits_small fd h).0)) n
        (omega (arith, m, length-write_digits (digits_of fd) fd [], (digits_small fd h).1))
