-- ===== src/Channel.antt =====
-- server/src/channel.c: a channel with its queue of outgoing messages. Buffers and locks are treated
-- as in user.c. A topic that is a null pointer is the empty one.
use irc_client_server.Base.{
  ℕ, ◌+◌, ◌==◌, if◌then◌else◌, Bool, false, ◌&&◌, Option, none, some, [], ◌∷◌,
}
use irc_client_server.Text.{Text, max_chars, safe_copy, is_valid_name}
use irc_client_server.Queue.{Queue, create_queue, enqueue, dequeue}
use irc_client_server.HashTable.Hashes.{are_strings_equal}
use irc_client_server.User.{user_name_chars}

pub data ChannelType : Type 0 where
  permanent temporary unknown_channel_type : ChannelType

abbrev pub max_channel_name : ℕ
max_channel_name = 50

-- `out_queue` is none where `create_queue` returned a null pointer.
pub record Channel : Type 0 where
  pub name : Text
  pub topic : Text
  pub channel_type : ChannelType
  pub out_queue : Option (Queue Text)

unfoldable pub is_valid_channel_name : Text → Bool
unfolding is_valid_name
is_valid_channel_name [] = false
is_valid_channel_name (c ∷ string) =
    (c == b'#') && is_valid_name (c ∷ string) (b'#' ∷ user_name_chars)

unfoldable pub create_channel : Text → Text → Text → ChannelType → ℕ → Channel
create_channel garbage name topic channel_type capacity = record {
  name =
      if is_valid_channel_name name
      then (safe_copy garbage (max_channel_name + 1) name).1
      else garbage;
  topic = (safe_copy garbage (max_chars + 1) topic).1;
  channel_type = channel_type;
  out_queue = create_queue garbage capacity;
}

-- none: `enqueue` of a null queue, which ends the process.
unfoldable pub enqueue_to_channel_queue : Channel → Text → Option Channel
enqueue_to_channel_queue c content = elim c.out_queue [
  | none ↦ none
  | some q ↦ some (record c { out_queue = some (enqueue q content) })
]

unfoldable pub dequeue_from_channel_queue : Channel → Option (Option Text × Channel)
dequeue_from_channel_queue c = elim c.out_queue [
  | none ↦ none
  | some q ↦ let (message, rest) = dequeue q in some (message, record c { out_queue = some rest })
]

abbrev pub are_channels_equal : Channel → Channel → Bool
are_channels_equal c1 c2 = are_strings_equal c1.name c2.name
