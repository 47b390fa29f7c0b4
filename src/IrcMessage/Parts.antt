-- ===== src/IrcMessage/Parts.antt =====
-- The prefix and the suffix of a message of libs/src/irc_message.c, where they fit into their arrays.
use irc_client_server.Base.{
  ℕ, ◌+◌, ◌≤◌, ◌<◌, ltb, leb, ◌==◌, if◌then◌else◌, Bool, true, false, ◌≡◌, refl, sym, subst, ap,
  Bool-cases, inl, inr, ◌∙◌, Option, none, some, [], ◌∷◌, length, arith,
}
use irc_client_server.Text.{Text, max_chars}
use irc_client_server.Text.Tokens.{prepend_char, or_empty}
use irc_client_server.Text.Tokens.Concatenation.{IsWord, word_not_blank}
use irc_client_server.IrcMessage.{
  IrcMessage, create_prefix, join_tokens, create_suffix, create_irc_message, assembled, max_prefix,
}

leb-le : (a b : ℕ) → a ≤ b → leb a b ≡ true
leb-le a b h = ground arith

ltb-ge : (a b : ℕ) → b ≤ a → ltb a b ≡ false
ltb-ge a b h = ground arith

pub prepend_char-fits :
    (buffer : Text) (room size : ℕ) (string : Text) (ch : ℕ)
    → length string + 1 ≤ size
    → length string + 2 ≤ room
    → prepend_char buffer room size string ch ≡ some (ch ∷ string)
unfolding prepend_char
prepend_char-fits buffer room size string ch h k =
    rw (leb-le (length string + 1) size h) (rw (leb-le (length string + 2) room k) refl)

-- A callback that leaves at most 63 bytes does not overflow the prefix.
pub create_prefix-word :
    (write : Text → ℕ → Text) (prefix : Text)
    → write [] max_prefix ≡ prefix
    → IsWord prefix
    → length prefix < max_prefix
    → create_prefix (some write) ≡ some (b':' ∷ prefix)
unfolding create_prefix
create_prefix-word write prefix e w h =
    ap written e
    ∙ ap (λ b. if b then none else named prefix (length prefix == 0))
        (ltb-ge max_prefix (length prefix) (omega (arith, h)))
    ∙ ap (named prefix) (word_not_blank prefix w)
    ∙ prepend_char-fits prefix 65 max_chars prefix b':' (omega (arith, h)) (omega (arith, h))
  where
    named : Text → Bool → Option Text
    named p b = if b then some p else prepend_char p 65 max_chars p b':'

    written : Text → Option Text
    written p = if ltb max_prefix (length p) then none else named p (length p == 0)

pub create_prefix-empty :
    (write : Text → ℕ → Text) → write [] max_prefix ≡ [] → create_prefix (some write) ≡ some []
unfolding create_prefix
create_prefix-empty write e =
    ap
      (λ p.
        if ltb max_prefix (length p)
        then none
        else if length p == 0
        then some p
        else prepend_char p (max_prefix + 1) max_chars p b':')
      e

leb→≤ : (a b : ℕ) → leb a b ≡ true → a ≤ b
leb→≤ a b h = ground arith

-- A suffix never overflows its array.
prepended :
    (string : Text)
    → (s : Text) × (prepend_char string (max_chars + 1) max_chars string b':' ≡ some s)
unfolding prepend_char
prepended string = elim (Bool-cases (leb (length string + 1) max_chars)) [
  | inl t ↦ (
    b':' ∷ string,
    prepend_char-fits string (max_chars + 1) max_chars string b':'
        (leb→≤ (length string + 1) max_chars t)
        (omega (arith, leb→≤ (length string + 1) max_chars t)),
  )
  | inr f ↦ (string, rw f refl)
]

create_suffix-some : (m : IrcMessage) → (s : Text) × (create_suffix m ≡ some s)
unfolding create_suffix
create_suffix-some m = go m.multi_word_suffix
  where
    go :
        (b : Bool)
        → (s : Text) × ((if b
              then prepend_char
                  (join_tokens m.suffix)
                  (max_chars + 1)
                  max_chars
                  (join_tokens m.suffix)
                  b':'
              else some (join_tokens m.suffix))
            ≡ some s)
    go true = prepended (join_tokens m.suffix)
    go false = (join_tokens m.suffix, refl)

-- With a prefix that does not overflow, a message is made.
pub create_irc_message-some :
    (size : ℕ) (m : IrcMessage) (prefix : Text)
    → create_prefix m.message_prefix ≡ some prefix
    → create_irc_message [] size m ≡ some (or_empty (create_irc_message [] size m))
unfolding create_irc_message
create_irc_message-some size m prefix e = go (create_suffix-some m)
  where
    made : Option Text → Option Text → Option Text
    made o u = elim o [
      | none ↦ none
      | some prefix ↦ elim u [
        | none ↦ none
        | some suffix ↦ some (assembled [] size prefix (join_tokens m.body) suffix)
      ]
    ]

    made_some :
        (o u : Option Text) (p s : Text)
        → o ≡ some p
        → u ≡ some s
        → made o u ≡ some (or_empty (made o u))
    made_some o u p s e f =
        subst (λ o. made o u ≡ some (or_empty (made o u))) (sym e)
          (subst (λ u. made (some p) u ≡ some (or_empty (made (some p) u))) (sym f) refl)

    go :
        ((s : Text) × (create_suffix m ≡ some s))
        → made (create_prefix m.message_prefix) (create_suffix m)
          ≡ some (or_empty (made (create_prefix m.message_prefix) (create_suffix m)))
    go (s, f) = made_some (create_prefix m.message_prefix) (create_suffix m) prefix s e f
