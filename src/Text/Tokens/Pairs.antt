-- ===== src/Text/Tokens/Pairs.antt =====
-- Two words with one bar between them, as the functions of libs/src/string_utils.c take them apart.
use irc_client_server.Base.{
  ℕ, zero, suc, ◌+◌, ◌-◌, ◌<◌, ◌==◌, if◌then◌else◌, Bool, true, false, ◌≡◌, refl, sym, ap, ◌∙◌,
  subst, ◌&&◌, Option, none, some, [], ◌∷◌, ◌++◌, length, drop, take, reverse, reverse-cons,
  length-append, All, arith,
}
use irc_client_server.Text.{Text, codes}
use irc_client_server.Text.Messages.{starts_with, find_delimiter}
use irc_client_server.Text.Endings.{agrees, is_terminated}
use irc_client_server.Text.Scanning.{count_from, count_delimiters}
use irc_client_server.Text.Tokens.{Split, cons_token, split_tokens, clear_end, tokenize_string}
use irc_client_server.HashTable.Chain.{All-append}

abbrev pub HasNoBar : Text → Type 0
HasNoBar t = All (λ c. (c == b'|') ≡ false) t

abbrev longer : ℕ → Option (Text × Text) → Option (Text × Text)
longer c none = none
longer c (some (before, found)) = some (c ∷ before, found)

find_delimiter-next :
    (c : ℕ) (t : Text)
    → (c == b'|') ≡ false
    → find_delimiter (c ∷ t) (codes "|") ≡ longer c (find_delimiter t (codes "|"))
unfolding find_delimiter starts_with
find_delimiter-next c t h =
    ap (λ b. if b && true then some ([], c ∷ t) else longer c (find_delimiter t (codes "|"))) h

find_delimiter-none : (t : Text) → HasNoBar t → find_delimiter t (codes "|") ≡ none
unfolding find_delimiter starts_with
find_delimiter-none [] h = refl
find_delimiter-none (c ∷ t) (h, hs) =
    find_delimiter-next c t h ∙ ap (longer c) (find_delimiter-none t hs)

find_delimiter-bar :
    (t u : Text) → HasNoBar t → find_delimiter (t ++ (b'|' ∷ u)) (codes "|") ≡ some (t, b'|' ∷ u)
unfolding find_delimiter starts_with
find_delimiter-bar [] u h = refl
find_delimiter-bar (c ∷ t) u (h, hs) =
    find_delimiter-next c (t ++ (b'|' ∷ u)) h ∙ ap (longer c) (find_delimiter-bar t u hs)

count_from-none : (fuel : ℕ) (t : Text) → HasNoBar t → count_from fuel t (codes "|") ≡ 0
unfolding count_from
count_from-none zero t h = refl
count_from-none (suc fuel) t h =
    ap
      (λ o. elim o as (λ x. ℕ) [
        | none ↦ 0
        | some (before, found) ↦ suc (count_from fuel (drop 1 found) (codes "|"))
      ])
      (find_delimiter-none t h)

pub count_delimiters-pair :
    (t u : Text) → HasNoBar t → HasNoBar u → count_delimiters (t ++ (b'|' ∷ u)) (codes "|") ≡ 1
unfolding count_delimiters count_from
count_delimiters-pair t u h k =
    ap
      (λ o. elim o as (λ x. ℕ) [
        | none ↦ 0
        | some (before, found) ↦
            suc (count_from (length (t ++ (b'|' ∷ u))) (drop 1 found) (codes "|"))
      ])
      (find_delimiter-bar t u h)
    ∙ ap suc (count_from-none (length (t ++ (b'|' ∷ u))) u k)

-- The last byte of a word is no bar.
reverse-HasNoBar : (t : Text) → HasNoBar t → HasNoBar (reverse t)
reverse-HasNoBar [] h = tt
reverse-HasNoBar (c ∷ t) (h, hs) =
    subst HasNoBar (sym (reverse-cons c t))
      (All-append (λ c. (c == b'|') ≡ false) (reverse t) c (reverse-HasNoBar t hs) h)

agrees-none : (t : Text) → 0 < length t → HasNoBar t → agrees t (codes "|") ≡ false
unfolding agrees
agrees-none [] n h = absurd (omega arith)
agrees-none (c ∷ t) n (h, hs) = ap (λ b. b && agrees t []) h

not_terminated :
    (u : Text) → 0 < length (reverse u) → HasNoBar u → is_terminated u (codes "|") ≡ false
unfolding is_terminated
not_terminated u n h = agrees-none (reverse u) n (reverse-HasNoBar u h)

reverse_some : (u : Text) → 0 < length u → 0 < length (reverse u)
reverse_some [] n = absurd (omega arith)
reverse_some (c ∷ u) n =
    subst (λ t. 0 < length t) (sym (reverse-cons c u))
      (omega (arith, length-append (reverse u) (c ∷ [])))

split_tokens-last :
    (fuel previous position : ℕ) (u : Text)
    → split_tokens fuel 0 previous position [] u (codes "|")
      ≡ record { tokens = []; last_token = u; str_ptr = some u }
unfolding split_tokens
split_tokens-last zero previous position u = refl
split_tokens-last (suc fuel) previous position u = refl

split_tokens-pair :
    (fuel : ℕ) (t u : Text)
    → HasNoBar t
    → 0 < length t
    → split_tokens (suc fuel) 1 0 0 [] (t ++ (b'|' ∷ u)) (codes "|")
      ≡ record { tokens = t ∷ []; last_token = u; str_ptr = some u }
unfolding split_tokens
split_tokens-pair fuel t u h n =
    ap at (find_delimiter-bar t u h)
    ∙ ap (cut t (b'|' ∷ u)) not_repeated
    ∙ ap (cons_token t) (split_tokens-last fuel (0 + length t + 1) (0 + length t + 1) u)
  where
    cut : Text → Text → Bool → Split
    cut before found repeated =
        let here = 0 + length before in
        let next = here + 1 in
        let later =
          split_tokens fuel (if repeated then 1 else 0) (if repeated then next + 1 else here + 1)
            next (if repeated then [] ++ (before ++ codes "|") else []) (drop 1 found)
            (codes "|") in
        if repeated then later else cons_token ([] ++ before) later

    at : Option (Text × Text) → Split
    at none = record { tokens = []; last_token = t ++ (b'|' ∷ u); str_ptr = none }
    at (some (before, found)) = cut before found (0 + 1 == 0 + length before + 1)

    not_repeated : (0 + 1 == 0 + length t + 1) ≡ false
    not_repeated = ground arith

pub tokenize_string-pair :
    (t u : Text)
    → HasNoBar t
    → 0 < length t
    → HasNoBar u
    → 0 < length u
    → (tokenize_string (t ++ (b'|' ∷ u)) 2 (codes "|")).0 ≡ t ∷ u ∷ []
unfolding tokenize_string
tokenize_string-pair t u h n k m =
    ap (λ s. s.tokens ++ (clear_end s.last_token s.str_ptr (codes "|") ∷ []))
      (split_tokens-pair (length (t ++ (b'|' ∷ u))) t u h n)
    ∙ ap (λ b. t ∷ (if b then take (length u - 1) u else u) ∷ [])
        (not_terminated u (reverse_some u m) k)
