-- ===== src/User.antt =====
-- server/src/user.c: a user with its queue of outgoing messages. `garbage` stands for what `malloc`
-- leaves in a buffer; a name that does not fit leaves it there. The locks of the threaded mode are
-- left out: one thread at a time runs an operation.
use irc_client_server.Base.{ℕ, ◌+◌, if◌then◌else◌, Bool, Option, [], ◌∷◌}
use irc_client_server.Text.{Text, max_chars, max_nickname_len, safe_copy, is_valid_name}
use irc_client_server.Queue.{Queue, empty_queue, enqueue, dequeue}
use irc_client_server.HashTable.Hashes.{are_strings_equal}

pub record User : Type 0 where
  pub fd : ℕ
  pub nickname : Text
  pub username : Text
  pub hostname : Text
  pub realname : Text
  pub out_queue : Queue Text

abbrev pub msg_queue_len : ℕ
msg_queue_len = 20

unfoldable pub create_user : Text → ℕ → Text → Text → Text → Text → User
create_user garbage fd nickname username hostname realname = record {
  fd = fd;
  nickname = (safe_copy garbage (max_nickname_len + 1) nickname).1;
  username = (safe_copy garbage (max_chars + 1) username).1;
  hostname = (safe_copy garbage (max_chars + 1) hostname).1;
  realname = (safe_copy garbage (max_chars + 1) realname).1;
  out_queue = empty_queue garbage msg_queue_len;
}

-- The copy starts with an empty queue.
unfoldable pub copy_user : Text → User → User
unfolding create_user
copy_user garbage u = create_user garbage u.fd u.nickname u.username u.hostname u.realname

abbrev pub enqueue_to_user_queue : User → Text → User
enqueue_to_user_queue u message = record u { out_queue = enqueue u.out_queue message }

abbrev pub dequeue_from_user_queue : User → Option Text × User
dequeue_from_user_queue u =
    let (message, rest) = dequeue u.out_queue in (message, record u { out_queue = rest })

abbrev pub are_users_equal : User → User → Bool
are_users_equal u1 u2 = are_strings_equal u1.nickname u2.nickname

-- "-_\[]{}|^~"
abbrev pub user_name_chars : Text
user_name_chars = b'-' ∷ b'_' ∷ 0x5c ∷ b'[' ∷ b']' ∷ b'{' ∷ b'}' ∷ b'|' ∷ b'^' ∷ b'~' ∷ []

unfoldable pub is_valid_user_name : Text → Bool
unfolding is_valid_name
is_valid_user_name string = is_valid_name string user_name_chars

unfoldable pub set_user_nickname : User → Text → User
set_user_nickname u nickname =
    if is_valid_user_name nickname
    then record u { nickname = (safe_copy u.nickname (max_nickname_len + 1) nickname).1 }
    else u
