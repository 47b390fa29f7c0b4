-- ===== src/Text/Messages/Framing.antt =====
-- The messages that the loop over `extract_message` of libs/src/string_utils.c cuts from a buffer.
use irc_client_server.Base.{
  ℕ, zero, suc, ◌<◌, ◌≤◌, lt→ltb, if◌then◌else◌, ◌≡◌, refl, sym, ap, ◌∙◌, Bool, true, false, Option,
  none, some, List, [], ◌∷◌, ◌++◌, drop, length, length-append, arith,
}
use irc_client_server.Text.{Text, safe_copy}
use irc_client_server.Text.Messages.{
  find_delimiter, extract_message, extract_messages, cons_message,
}
use irc_client_server.Text.Messages.Delimiters.{
  FindsFirst, starts_with-length, starts_with-drop, drop-append, find_delimiter-FindsFirst,
  rest-shorter,
}

-- The string that messages were cut from.
pub glue : Text → List Text → Text → Text
glue delim [] rest = rest
glue delim (message ∷ messages) rest = message ++ (delim ++ glue delim messages rest)

module _ (delim : Text) (has_delim : 0 < length delim) where
  abbrev pub next_piece : (Text → List Text × Text) → Text → Option (Text × Text) → List Text × Text
  next_piece k s none = ([], s)
  next_piece k s (some (before, found)) = cons_message before (k (drop (length delim) found))

  -- The messages that a string is cut into, and what is left of it.
  unfoldable pub pieces : ℕ → Text → List Text × Text
  pieces zero s = ([], s)
  pieces (suc fuel) s = next_piece (pieces fuel) s (find_delimiter s delim)

  pieces-fuel : (n m : ℕ) (s : Text) → length s < n → length s < m → pieces n s ≡ pieces m s
  unfolding pieces
  pieces-fuel zero m s p q = absurd (omega arith)
  pieces-fuel (suc n) zero s p q = absurd (omega arith)
  pieces-fuel (suc n) (suc m) s p q =
      go (λ r lt. pieces-fuel n m r (omega arith) (omega arith)) (find_delimiter s delim)
        (find_delimiter-FindsFirst delim has_delim s)
    where
      go :
          ((r : Text) → length r < length s → pieces n r ≡ pieces m r)
          → (o : Option (Text × Text)) → FindsFirst delim s o
          → next_piece (pieces n) s o ≡ next_piece (pieces m) s o
      go again none h = refl
      go again (some (before, found)) h =
          ap (cons_message before)
            (again (drop (length delim) found) (rest-shorter delim has_delim s before found h))

  -- With room for the whole string every message fits into the buffer.
  pub extract_messages-pieces :
      (n : ℕ) (buffer : Text) (size : ℕ) (s : Text)
      → length s < size
      → extract_messages n buffer size s delim ≡ pieces n s
  unfolding pieces extract_messages extract_message safe_copy
  extract_messages-pieces zero buffer size s fits = refl
  extract_messages-pieces (suc n) buffer size s fits =
      go (λ message r lt. extract_messages-pieces n message size r (omega arith))
        (find_delimiter s delim) (find_delimiter-FindsFirst delim has_delim s)
    where
      go :
          ((message r : Text)
            → length r < length s
            → extract_messages n message size r delim ≡ pieces n r)
          → (o : Option (Text × Text)) → FindsFirst delim s o
          → (let r = elim o as (λ x. Bool × Text × Text) [
            | none ↦ (false, buffer, s)
            | some (before, found) ↦
                (true, (safe_copy buffer size before).1, drop (length delim) found)
          ] in
              if r.0 then cons_message r.1 (extract_messages n r.1 size r.2 delim) else ([], r.2))
            ≡ next_piece (pieces n) s o
      go again none h = refl
      go again (some (before, found)) h =
          rw (copied before (omega (arith, ap length h.parts, length-append before found))) (
            ap (cons_message before) (
              again before (drop (length delim) found)
                (rest-shorter delim has_delim s before found h)))
        where
          copied :
              (before : Text) → length before ≤ length s → (safe_copy buffer size before).1 ≡ before
          copied before short = rw (lt→ltb (length before) size (omega arith)) refl

  abbrev followed_by : List Text → List Text × Text → List Text × Text
  followed_by earlier (messages, s) = (earlier ++ messages, s)

  -- Cutting a string and then what is left with more text behind it.
  pieces-append :
      (n : ℕ) (a b : Text)
      → length a < n
      → pieces (suc (length (a ++ b))) (a ++ b)
        ≡ followed_by
            (pieces n a).0
            (pieces (suc (length ((pieces n a).1 ++ b))) ((pieces n a).1 ++ b))
  unfolding pieces
  pieces-append zero a b h = absurd (omega arith)
  pieces-append (suc n) a b h =
      go (λ r lt. pieces-append n r b (omega arith)) (find_delimiter a delim)
        (find_delimiter-FindsFirst delim has_delim a) refl
    where
      go :
          ((r : Text)
            → length r < length a
            → pieces (suc (length (r ++ b))) (r ++ b)
              ≡ followed_by
                  (pieces n r).0
                  (pieces (suc (length ((pieces n r).1 ++ b))) ((pieces n r).1 ++ b)))
          → (o : Option (Text × Text)) → FindsFirst delim a o
          → find_delimiter a delim ≡ o
          → pieces (suc (length (a ++ b))) (a ++ b)
            ≡ followed_by (next_piece (pieces n) a o).0 (
                pieces
                  (suc (length ((next_piece (pieces n) a o).1 ++ b)))
                  ((next_piece (pieces n) a o).1 ++ b))
      go again none h e = refl
      go again (some (before, found)) h e =
          let r = drop (length delim) found in
          let shorter = rest-shorter delim has_delim a before found h in
          let rest : drop (length delim) (found ++ b) ≡ r ++ b =
            drop-append (length delim) found b (starts_with-length delim found h.starts) in
          ap (next_piece (pieces (length (a ++ b))) (a ++ b)) (h.later b)
          ∙ ap (λ t. cons_message before (pieces (length (a ++ b)) t)) rest
          ∙ ap (cons_message before) (
              pieces-fuel (length (a ++ b)) (suc (length (r ++ b))) (r ++ b)
                (omega (arith, shorter, length-append a b, length-append r b)) (omega arith)
              ∙ again r shorter)

  pieces-glue :
      (n : ℕ) (s : Text)
      → length s < n
      → (glue delim (pieces n s).0 (pieces n s).1 ≡ s)
        × (find_delimiter (pieces n s).1 delim ≡ none)
  unfolding pieces glue
  pieces-glue zero s lt = absurd (omega arith)
  pieces-glue (suc n) s lt =
      go (λ r short. pieces-glue n r (omega arith)) (find_delimiter s delim)
        (find_delimiter-FindsFirst delim has_delim s) refl
    where
      go :
          ((r : Text)
            → length r < length s
            → (glue delim (pieces n r).0 (pieces n r).1 ≡ r)
              × (find_delimiter (pieces n r).1 delim ≡ none))
          → (o : Option (Text × Text)) → FindsFirst delim s o
          → find_delimiter s delim ≡ o
          → (glue delim (next_piece (pieces n) s o).0 (next_piece (pieces n) s o).1 ≡ s)
            × (find_delimiter (next_piece (pieces n) s o).1 delim ≡ none)
      go again none h e = (refl, e)
      go again (some (before, found)) h e =
          let i =
            again (drop (length delim) found) (rest-shorter delim has_delim s before found h) in
          (
            ap (λ t. before ++ (delim ++ t)) i.0
                ∙ ap (λ t. before ++ t) (sym (starts_with-drop delim found h.starts))
                ∙ sym h.parts,
            i.1,
          )

  glue-length :
      (messages : List Text) (rest : Text) → length rest ≤ length (glue delim messages rest)
  unfolding glue
  glue-length [] rest = omega arith
  glue-length (message ∷ messages) rest = omega (
    arith,
    glue-length messages rest,
    length-append message (delim ++ glue delim messages rest),
    length-append delim (glue delim messages rest),
  )

  module _ (buffer : Text) (size : ℕ) where
    -- With a delimiter that is not empty, a string that the buffer has room for is cut into
    -- messages that, each followed by the delimiter, and then the string that is left make up the
    -- string again; no delimiter is left in it. As many rounds as the string has bytes, and one
    -- more, are enough.
    pub extract_messages-glue :
        (s : Text)
        → length s < size
        → let r = extract_messages (suc (length s)) buffer size s delim in
          (glue delim r.0 r.1 ≡ s) × (find_delimiter r.1 delim ≡ none)
    extract_messages-glue s fits =
        rw (extract_messages-pieces (suc (length s)) buffer size s fits)
          (pieces-glue (suc (length s)) s (omega arith))

    -- Messages do not depend on how the text arrives: with a delimiter that is not empty, cutting
    -- a first part, and then what is left of it with the second part behind it, yields the
    -- messages of the whole text in order, and leaves the same string, if the buffer has room for
    -- the whole text.
    pub extract_messages-append :
        (a b : Text)
        → length (a ++ b) < size
        → let first = extract_messages (suc (length a)) buffer size a delim in
          let second =
            extract_messages (suc (length (first.1 ++ b))) buffer size (first.1 ++ b) delim in
          let whole = extract_messages (suc (length (a ++ b))) buffer size (a ++ b) delim in
          (whole.0 ≡ first.0 ++ second.0) × (whole.1 ≡ second.1)
    extract_messages-append a b fits =
        let n = suc (length a) in
        let left = (pieces n a).1 ++ b in
        let cut = pieces-append n a b (omega arith) in
        let glued = pieces-glue n a (omega arith) in
        let left_fits : length left < size = omega (
          arith,
          length-append a b,
          length-append (pieces n a).1 b,
          glue-length (pieces n a).0 (pieces n a).1,
          ap length glued.0,
        ) in
        rw
          (
            extract_messages-pieces n buffer size a (omega (arith, length-append a b)),
            extract_messages-pieces (suc (length (a ++ b))) buffer size (a ++ b) fits,
          )
          (rw (extract_messages-pieces (suc (length left)) buffer size left left_fits)
            (ap (λ r. r.0) cut, ap (λ r. r.1) cut))
