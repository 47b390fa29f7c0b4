-- ===== src/Text/Tokens/Concatenation.antt =====
-- What `concat_tokens` of libs/src/string_utils.c writes when everything fits.
use irc_client_server.Base.{
  ℕ, zero, suc, ◌+◌, ◌-◌, ◌<◌, ◌≤◌, ◌==◌, ==_refl, if◌then◌else◌, false, ◌≡◌, refl, sym, ap, ◌∙◌,
  some, List, [], ◌∷◌, ◌++◌, append_assoc, append-nil, map, length, length-append, take, All, arith,
}
use irc_client_server.Text.{Text}
use irc_client_server.Text.Tokens.{append_within, append_tokens, concat_tokens, drop_last}

abbrev pub IsWord : Text → Type 0
IsWord t = 0 < length t

-- The tokens with a delimiter behind each of them, and between them.
abbrev pub ended : ℕ → List Text → Text
ended d [] = []
ended d (t ∷ ts) = t ++ (d ∷ ended d ts)

abbrev pub joined : ℕ → List Text → Text
joined d [] = []
joined d (t ∷ []) = t
joined d (t ∷ u ∷ ts) = t ++ (d ∷ joined d (u ∷ ts))

take-all : {A : Type 0} (n : ℕ) (t : List A) → length t ≤ n → take n t ≡ t
take-all zero [] h = refl
take-all zero (c ∷ t) h = absurd (omega arith)
take-all (suc n) [] h = refl
take-all (suc n) (c ∷ t) h = ap (◌∷◌ c) (take-all n t (omega arith))

pub append_within-fits :
    (size : ℕ) (buffer t : Text)
    → length buffer + length t < size
    → append_within size buffer t ≡ buffer ++ t
append_within-fits size buffer t h =
    ap (λ u. buffer ++ u) (take-all (size - length buffer - 1) t (omega arith))

pub word_not_blank : (t : Text) → IsWord t → (length t == 0) ≡ false
word_not_blank t h = ground arith

append_tokens-fits :
    (size d : ℕ) (ts : List Text) (count : ℕ) (buffer : Text)
    → All IsWord ts
    → length buffer + length (ended d ts) < size
    → append_tokens size (map some ts) (d ∷ []) count buffer
      ≡ (count + length ts, buffer ++ ended d ts)
unfolding append_tokens
append_tokens-fits size d [] count buffer w h = λ i. (omega_eq i, sym (append-nil buffer) i)
  where
    omega_eq : count ≡ count + 0
    omega_eq = omega arith
append_tokens-fits size d (t ∷ ts) count buffer (w, ws) h =
    ap
      (λ blank.
        append_tokens size (map some ts) (d ∷ []) (if blank then count else count + 1)
          (if blank then buffer else append_within size (append_within size buffer t) (d ∷ [])))
      (word_not_blank t w)
    ∙ ap (append_tokens size (map some ts) (d ∷ []) (count + 1)) written
    ∙ append_tokens-fits size d ts (count + 1) (buffer ++ (t ++ (d ∷ []))) ws
        (omega (arith, h, lengths, length-append t (d ∷ ended d ts)))
    ∙ (λ i. (count_is i, shape i))
  where
    lengths : length (buffer ++ (t ++ (d ∷ []))) ≡ length buffer + (length t + 1)
    lengths = omega (arith, length-append buffer (t ++ (d ∷ [])), length-append t (d ∷ []))

    written : append_within size (append_within size buffer t) (d ∷ []) ≡ buffer ++ (t ++ (d ∷ []))
    written =
        ap (λ b. append_within size b (d ∷ []))
          (append_within-fits size buffer t (omega (arith, h, length-append t (d ∷ ended d ts))))
        ∙ append_within-fits size (buffer ++ t) (d ∷ [])
            (omega (arith, h, length-append t (d ∷ ended d ts), length-append buffer t))
        ∙ append_assoc buffer t (d ∷ [])

    count_is : count + 1 + length ts ≡ count + suc (length ts)
    count_is = omega arith

    shape : (buffer ++ (t ++ (d ∷ []))) ++ ended d ts ≡ buffer ++ (t ++ (d ∷ ended d ts))
    shape =
        append_assoc buffer (t ++ (d ∷ [])) (ended d ts)
        ∙ ap (λ u. buffer ++ u) (append_assoc t (d ∷ []) (ended d ts))

-- A byte at the end is cleared.
drop_last-end : (d : ℕ) (t : Text) → drop_last d (t ++ (d ∷ [])) ≡ t
unfolding drop_last
drop_last-end d [] = rw (==_refl d) refl
drop_last-end d (c ∷ []) = ap (◌∷◌ c) (drop_last-end d [])
drop_last-end d (c ∷ e ∷ t) = ap (◌∷◌ c) (drop_last-end d (e ∷ t))

pub ended-joined :
    (d : ℕ) (t : Text) (ts : List Text) → ended d (t ∷ ts) ≡ joined d (t ∷ ts) ++ (d ∷ [])
ended-joined d t [] = refl
ended-joined d t (u ∷ ts) =
    ap (λ r. t ++ (d ∷ r)) (ended-joined d u ts)
    ∙ sym (append_assoc t (d ∷ joined d (u ∷ ts)) (d ∷ []))

-- Words that fit, with one more delimiter and a NUL, are joined by the delimiter.
pub concat_tokens-joined :
    (size d : ℕ) (t : Text) (ts : List Text)
    → All IsWord (t ∷ ts)
    → length (joined d (t ∷ ts)) + 1 < size
    → (concat_tokens [] size (map some (t ∷ ts)) (d ∷ [])).1 ≡ joined d (t ∷ ts)
unfolding concat_tokens
concat_tokens-joined size d t ts w h =
    ap (λ r. if r.0 == 0 then r.1 else drop_last d r.1)
      (append_tokens-fits size d (t ∷ ts) 0 [] w (
        omega
          (arith, h, ap length (ended-joined d t ts), length-append (joined d (t ∷ ts)) (d ∷ []))))
    ∙ ap (λ b. if b then ended d (t ∷ ts) else drop_last d (ended d (t ∷ ts))) some_words
    ∙ ap (drop_last d) (ended-joined d t ts)
    ∙ drop_last-end d (joined d (t ∷ ts))
  where
    some_words : (0 + suc (length ts) == 0) ≡ false
    some_words = ground arith
