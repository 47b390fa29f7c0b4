-- ===== src/Text/Messages/Delimiters.antt =====
-- The first delimiter in a string, as `find_delimiter` of libs/src/string_utils.c finds it.
use irc_client_server.Base.{
  ℕ, zero, suc, ◌<◌, ◌≤◌, ◌==◌, ==_iff, Bool-cases, ◌≡◌, refl, ap, ◌∙◌, inl, inr, Bool, true, false,
  ◌&&◌, Option, none, some, [], ◌∷◌, ◌++◌, drop, length, length-append, arith,
}
use irc_client_server.Text.{Text}
use irc_client_server.Text.Messages.{starts_with, find_delimiter}

pub starts_with-length : (delim s : Text) → starts_with delim s ≡ true → length delim ≤ length s
unfolding starts_with
starts_with-length [] s h = omega arith
starts_with-length (d ∷ delim) [] h = absurd (cc)
starts_with-length (d ∷ delim) (c ∷ s) h = ground (arith, starts_with-length delim s)

-- A prefix is cut off by its length.
pub starts_with-drop :
    (delim s : Text) → starts_with delim s ≡ true → s ≡ delim ++ drop (length delim) s
unfolding starts_with
starts_with-drop [] s h = refl
starts_with-drop (d ∷ delim) [] h = absurd (cc)
starts_with-drop (d ∷ delim) (c ∷ s) h = λ i. heads i ∷ starts_with-drop delim s tails i
  where
    both_parts : (a b : Bool) → (a && b) ≡ true → (a ≡ true) × (b ≡ true)
    both_parts true b e = (refl, e)
    both_parts false b e = absurd (cc)

    heads : c ≡ d
    heads = (==_iff c d).0 (both_parts (c == d) (starts_with delim s) h).0

    tails : starts_with delim s ≡ true
    tails = (both_parts (c == d) (starts_with delim s) h).1

starts_with-append :
    (delim s t : Text) → length delim ≤ length s → starts_with delim (s ++ t) ≡ starts_with delim s
unfolding starts_with
starts_with-append [] s t h = refl
starts_with-append (d ∷ delim) [] t h = absurd (omega arith)
starts_with-append (d ∷ delim) (c ∷ s) t h =
    ap (λ b. (c == d) && b) (starts_with-append delim s t (omega arith))

pub drop-append : (n : ℕ) (s t : Text) → n ≤ length s → drop n (s ++ t) ≡ drop n s ++ t
drop-append zero s t h = refl
drop-append (suc n) [] t h = absurd (omega arith)
drop-append (suc n) (c ∷ s) t h = drop-append n s t (omega arith)

-- The first occurrence stands where the string says, and later text does not move it.
pub record Found (delim s before found : Text) : Type 0 where
  pub parts : s ≡ before ++ found
  pub starts : starts_with delim found ≡ true
  pub later : (t : Text) → find_delimiter (s ++ t) delim ≡ some (before, found ++ t)

abbrev pub FindsFirst : Text → Text → Option (Text × Text) → Type 0
FindsFirst delim s none = Unit
FindsFirst delim s (some (before, found)) = Found delim s before found

module _ (delim : Text) (has_delim : 0 < length delim) where
  pub find_delimiter-FindsFirst : (s : Text) → FindsFirst delim s (find_delimiter s delim)
  unfolding find_delimiter
  find_delimiter-FindsFirst [] = elim (Bool-cases (starts_with delim [])) [
    | inl e ↦ absurd (omega (arith, has_delim, starts_with-length delim [] e))
    | inr e ↦ rw e tt
  ]
  find_delimiter-FindsFirst (c ∷ s) = elim (Bool-cases (starts_with delim (c ∷ s))) [
    | inl e ↦ rw e (record { parts = refl; starts = e; later = λ t. rw (here t e) refl })
    | inr e ↦ rw e (further e (find_delimiter s delim) (find_delimiter-FindsFirst s))
  ]
    where
      here : (t : Text) → starts_with delim (c ∷ s) ≡ true → starts_with delim (c ∷ (s ++ t)) ≡ true
      here t e = starts_with-append delim (c ∷ s) t (starts_with-length delim (c ∷ s) e) ∙ e

      further :
          starts_with delim (c ∷ s) ≡ false
          → (o : Option (Text × Text)) → FindsFirst delim s o
          → FindsFirst delim
              (c ∷ s)
              (elim o [ none ↦ none | some (before, found) ↦ some (c ∷ before, found) ])
      further e none h = tt
      further e (some (before, found)) h =
          let room : length delim ≤ length (c ∷ s) = omega (
            arith,
            starts_with-length delim found h.starts,
            ap length h.parts,
            length-append before found,
          ) in
          let not_here : (t : Text) → starts_with delim (c ∷ (s ++ t)) ≡ false =
            λ t. starts_with-append delim (c ∷ s) t room ∙ e in
          record {
            parts = ap (◌∷◌ c) h.parts;
            starts = h.starts;
            later = λ t. rw (not_here t) (rw (h.later t) refl);
          }

  -- What is left behind a message is shorter.
  pub rest-shorter :
      (s before found : Text)
      → Found delim s before found
      → length (drop (length delim) found) < length s
  rest-shorter s before found h = omega (
    arith,
    has_delim,
    ap length h.parts,
    length-append before found,
    ap length (starts_with-drop delim found h.starts),
    length-append delim (drop (length delim) found),
  )
