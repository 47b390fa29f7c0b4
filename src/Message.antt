-- ===== src/Message.antt =====
-- libs/src/message.c: the messages of the client. The content is an array of bytes: a string ends at
-- its first NUL, and what stands behind it is kept.
use irc_client_server.Base.{
  ℕ, suc, ◌+◌, ltb, ◌==◌, if◌then◌else◌, List, [], ◌∷◌, ◌++◌, length, drop, set,
}
use irc_client_server.Text.{Text, max_chars}

pub data MessageType : Type 0 where
  msg_relay msg_signal msg_command msg_response msg_standard msg_ping msg_pong : MessageType
  unknown_message_type : MessageType

pub data MessagePriority : Type 0 where
  no_priority low_priority normal_priorty high_priority unknown_priority : MessagePriority

pub record Message : Type 0 where
  pub content : List ℕ
  pub separator : List ℕ
  pub message_type : MessageType
  pub message_priority : MessagePriority

-- The string that an array of bytes holds.
unfoldable pub string_of : List ℕ → Text
string_of [] = []
string_of (c ∷ bytes) = let rest = string_of bytes in if c == 0 then [] else c ∷ rest

-- `strcpy` into an array.
abbrev pub strcpy : List ℕ → Text → List ℕ
strcpy bytes string = string ++ (0 ∷ drop (suc (length string)) bytes)

-- `safe_copy` into an array of which `size` bytes may be written.
unfoldable pub copy_into : List ℕ → ℕ → Text → List ℕ
copy_into bytes size string = if ltb (length string) size then strcpy bytes string else bytes

abbrev pub separator_size : ℕ
separator_size = 2

-- `garbage` is the array that `malloc` returns.
unfoldable pub create_message : Message → Text → Text → MessageType → MessagePriority → Message
create_message garbage content separator t p = record {
  content = copy_into garbage.content (max_chars + 1) content;
  separator = copy_into garbage.separator separator_size separator;
  message_type = t;
  message_priority = p;
}

-- An index past the array changes nothing.
unfoldable pub set_message_char : Message → ℕ → ℕ → Message
set_message_char m ch index =
    if ltb index (max_chars + 1) then record m { content = set m.content index ch } else m

unfoldable pub get_message_content : Message → Text
unfolding string_of
get_message_content m = string_of m.content

unfoldable pub set_message_content : Message → Text → Message
set_message_content m content = record m { content = copy_into m.content (max_chars + 1) content }

abbrev pub set_message_type : Message → MessageType → Message
set_message_type m t = record m { message_type = t }

abbrev pub set_message_priority : Message → MessagePriority → Message
set_message_priority m p = record m { message_priority = p }
