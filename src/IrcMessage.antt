-- ===== src/IrcMessage.antt =====
-- libs/src/irc_message.c: an IRC message is put together from a prefix, a body and a suffix. The
-- callback that writes the prefix and its argument are one function on the buffer, none where either
-- pointer is null. Tokens behind those that are listed are null.
pub mod Parts
pub mod Layout
use irc_client_server.Base.{
  ℕ, ◌+◌, ltb, leb, ◌==◌, if◌then◌else◌, Bool, true, false, Option, none, some, List, [], ◌∷◌,
  length,
}
use irc_client_server.Text.{Text, max_chars}
use irc_client_server.Text.Tokens.{concat_tokens, prepend_char}

pub record IrcMessage : Type 0 where
  pub body : List (Option Text)
  pub suffix : List (Option Text)
  pub multi_word_suffix : Bool
  pub message_prefix : Option (Text → ℕ → Text)

abbrev pub max_prefix : ℕ
max_prefix = 64

-- What the callback leaves in an empty array of 65 bytes, behind a colon if it is not empty. none: a
-- write beyond the array.
unfoldable pub create_prefix : Option (Text → ℕ → Text) → Option Text
create_prefix none = some []
create_prefix (some write) =
    let prefix = write [] max_prefix in
    if ltb max_prefix (length prefix)
    then none
    else if length prefix == 0
    then some prefix
    else prepend_char prefix (max_prefix + 1) max_chars prefix b':'

-- The tokens joined by a space, if the first one is not null.
unfoldable pub join_tokens : List (Option Text) → Text
join_tokens [] = []
join_tokens (none ∷ tokens) = []
join_tokens (some token ∷ tokens) =
    (concat_tokens [] (max_chars + 1) (some token ∷ tokens) (b' ' ∷ [])).1

unfoldable pub create_suffix : IrcMessage → Option Text
create_suffix m =
    let suffix = join_tokens m.suffix in
    if m.multi_word_suffix
    then prepend_char suffix (max_chars + 1) max_chars suffix b':'
    else some suffix

-- The three parts in the buffer, if they fit.
abbrev pub assembled : Text → ℕ → Text → Text → Text → Text
assembled buffer size prefix body suffix =
    let message_length = length prefix + length body + length suffix + 2 in
    if leb message_length size
    then (concat_tokens buffer size (some prefix ∷ some body ∷ some suffix ∷ []) (b' ' ∷ [])).1
    else buffer

-- The buffer afterwards. none: a write beyond an array.
unfoldable pub create_irc_message : Text → ℕ → IrcMessage → Option Text
create_irc_message buffer size m = elim (create_prefix m.message_prefix) [
  | none ↦ none
  | some prefix ↦ elim (create_suffix m) [
    | none ↦ none
    | some suffix ↦ some (assembled buffer size prefix (join_tokens m.body) suffix)
  ]
]
