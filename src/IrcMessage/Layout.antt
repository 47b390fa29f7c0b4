-- ===== src/IrcMessage/Layout.antt =====
-- The messages that `create_irc_message` of libs/src/irc_message.c lays out.
use irc_client_server.Base.{
  ℕ, ◌+◌, ◌-◌, ◌≤◌, ◌<◌, leb, if◌then◌else◌, true, ◌≡◌, refl, ap, ◌∙◌, Option, none, some, List, [],
  ◌∷◌, ◌++◌, map, length, length-append, All, arith,
}
use irc_client_server.Text.{Text, max_chars}
use irc_client_server.Text.Tokens.{append_tokens, concat_tokens, prepend_char}
use irc_client_server.Text.Tokens.Concatenation.{IsWord, joined, concat_tokens-joined}
use irc_client_server.IrcMessage.{
  join_tokens, create_suffix, create_irc_message, assembled, max_prefix,
}
use irc_client_server.IrcMessage.Parts.{prepend_char-fits, create_prefix-word}

leb-le : (a b : ℕ) → a ≤ b → leb a b ≡ true
leb-le a b h = ground arith

-- `:prefix`, the words, and `:text`.
abbrev pub laid_out : Text → List Text → Text → Text
laid_out prefix words text = (b':' ∷ prefix) ++ (b' ' ∷ (joined b' ' words ++ (b' ' ∷ b':' ∷ text)))

text_is : (text : Text) → length text + 1 ≤ max_chars - 1 → join_tokens (some text ∷ []) ≡ text
unfolding join_tokens concat_tokens append_tokens
text_is [] h = refl
text_is (c ∷ text) h =
    concat_tokens-joined (max_chars + 1) b' ' (c ∷ text) [] (omega arith, tt) (omega arith)

joined-IsWord : (t : Text) (ts : List Text) → All IsWord (t ∷ ts) → IsWord (joined b' ' (t ∷ ts))
joined-IsWord t [] (w, ws) = w
joined-IsWord t (u ∷ ts) (w, ws) = omega (arith, w, length-append t (b' ' ∷ joined b' ' (u ∷ ts)))

words_are :
    (t : Text) (ts : List Text)
    → All IsWord (t ∷ ts)
    → length (joined b' ' (t ∷ ts)) + 1 ≤ max_chars
    → join_tokens (map some (t ∷ ts)) ≡ joined b' ' (t ∷ ts)
unfolding join_tokens
words_are t ts w h = concat_tokens-joined (max_chars + 1) b' ' t ts w (omega arith)

-- A message whose prefix is written by a function that makes a word of fewer than 64 bytes of the
-- empty buffer, with words for its body and a suffix of several words, is made without a write
-- beyond an array, and laid out as a colon and the prefix, the words, and a colon and the suffix,
-- with a space between any two, if it fits into the size, which is at most 512, with two bytes to
-- spare.
pub create_irc_message-laid_out :
    (size : ℕ) (write : Text → ℕ → Text) (prefix t : Text) (ts : List Text) (text : Text)
    → write [] max_prefix ≡ prefix
    → IsWord prefix
    → length prefix < max_prefix
    → All IsWord (t ∷ ts)
    → size ≤ max_chars
    → length (laid_out prefix (t ∷ ts) text) + 2 ≤ size
    → create_irc_message [] size (record {
      body = map some (t ∷ ts);
      suffix = some text ∷ [];
      multi_word_suffix = true;
      message_prefix = some write;
    })
      ≡ some (laid_out prefix (t ∷ ts) text)
unfolding create_irc_message create_suffix
create_irc_message-laid_out size write prefix t ts text e w short ws bound h =
    ap (λ p. composed p (suffixed (join_tokens (some text ∷ []))))
      (create_prefix-word write prefix e w short)
    ∙ ap (λ s. composed (some (b':' ∷ prefix)) (suffixed s))
        (text_is text (omega (arith, h, lengths)))
    ∙ ap (composed (some (b':' ∷ prefix))) (
        prepend_char-fits text (max_chars + 1) max_chars text b':' (omega (arith, h, lengths))
          (omega (arith, h, lengths)))
    ∙ ap (λ b. some (assembled [] size (b':' ∷ prefix) b (b':' ∷ text)))
        (words_are t ts ws (omega (arith, h, lengths)))
    ∙ ap (λ b. some (if b then (concat_tokens [] size (map some parts) (b' ' ∷ [])).1 else []))
        (leb-le (length (b':' ∷ prefix) + length words + length (b':' ∷ text) + 2) size
          (omega (arith, h, lengths)))
    ∙ ap some (
        concat_tokens-joined size b' ' (b':' ∷ prefix) (words ∷ (b':' ∷ text) ∷ [])
          (omega (arith), (joined-IsWord t ts ws, (omega (arith), tt))) (omega (arith, h)))
  where
    words : Text
    words = joined b' ' (t ∷ ts)

    suffixed : Text → Option Text
    suffixed s = prepend_char s (max_chars + 1) max_chars s b':'

    composed : Option Text → Option Text → Option Text
    composed o u = elim o [
      | none ↦ none
      | some p ↦ elim u [
        | none ↦ none
        | some s ↦ some (assembled [] size p (join_tokens (map some (t ∷ ts))) s)
      ]
    ]

    parts : List Text
    parts = (b':' ∷ prefix) ∷ words ∷ (b':' ∷ text) ∷ []

    lengths :
        length (laid_out prefix (t ∷ ts) text) ≡ length prefix + length words + length text + 4
    lengths = omega (
      arith,
      length-append (b':' ∷ prefix) (b' ' ∷ (words ++ (b' ' ∷ b':' ∷ text))),
      length-append words (b' ' ∷ b':' ∷ text),
    )
