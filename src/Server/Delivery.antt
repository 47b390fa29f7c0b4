-- ===== src/Server/Delivery.antt =====
-- server/src/tcp_server.c: the queues of outgoing messages and their delivery to the sockets.
use irc_client_server.Base.{
  ℕ, zero, suc, ◌+◌, ◌-◌, ltb, ◌==◌, if◌then◌else◌, Option, none, some, List, [], ◌∷◌, ◌++◌, length,
}
use irc_client_server.Text.{Text, codes, max_chars, safe_copy}
use irc_client_server.Text.Tokens.{concat_tokens, add_string_lengths}
use irc_client_server.Text.Endings.{is_terminated, terminate_string}
use irc_client_server.Text.Numbers.{uint_to_str}
use irc_client_server.Text.Scanning.{crlf}
use irc_client_server.Queue.{Queue, enqueue, dequeue}
use irc_client_server.User.{User, enqueue_to_user_queue, dequeue_from_user_queue}
use irc_client_server.Channel.{Channel, dequeue_from_channel_queue}
use irc_client_server.SessionState.{state_value}
use irc_client_server.Session.State.{Address, deref, update}
use irc_client_server.Session.Tables.{find_user_in_hash_table, add_user_to_ready_list}
use irc_client_server.Session.Membership.{find_channel_users}
use irc_client_server.IrcMessage.{IrcMessage, create_irc_message}
use irc_client_server.Server.State.{
  Environment, R, WriteResult, sent, broken_pipe, write_interrupted, write_error, nothing_sent,
  ◌>>=◌, ◌>>◌, pure, get, skip, if_then, put_server, in_session, session_of, non_null, in_bounds,
  client_at, for_each, send, crash, done, with_session,
}
use irc_client_server.Server.Connections.{trigger_event_client_disconnect}

-- A user or a channel is written back through its pointer.
abbrev pub write_user : Address → User → R (Unit {0})
write_user user u c =
    let s = session_of c in
    done tt (with_session c (record s { live_users = update s.live_users user (some u) }))

abbrev pub write_channel : Address → Channel → R (Unit {0})
write_channel channel ch c =
    let s = session_of c in
    done tt (with_session c (record s { live_channels = update s.live_channels channel (some ch) }))

abbrev pub user_at : Address → R User
user_at user = in_session (deref (λ s. s.live_users) user)

abbrev pub channel_at : Address → R Channel
channel_at channel = in_session (deref (λ s. s.live_channels) channel)

-- `enqueue_to_user_queue` through a pointer.
unfoldable pub send_to_user : Address → Text → R (Unit {0})
send_to_user user content = do u ← user_at user; write_user user (enqueue_to_user_queue u content)

unfoldable pub enqueue_to_server_queue : Text → R (Unit {0})
enqueue_to_server_queue message = do
  c ← get
  put_server (record c.tcp_server { out_queue = enqueue c.tcp_server.out_queue message })

unfoldable pub dequeue_from_server_queue : R (Option Text)
dequeue_from_server_queue = do
  c ← get
  let (message, rest) = dequeue c.tcp_server.out_queue
  put_server (record c.tcp_server { out_queue = rest })
  pure message

abbrev pub max_digits : ℕ
max_digits = 10

-- The descriptor of a connection in front of a text, with "|" between them.
unfoldable pub with_descriptor : ℕ → Text → Text
with_descriptor fd content =
    let fd_str = (uint_to_str [] max_digits fd).1 in
    (concat_tokens [] (max_chars + 1) (some fd_str ∷ some (codes "|") ∷ some content ∷ []) []).1

-- UNASSIGNED as an `unsigned` has more digits than an `int` divisor can count.
unfoldable pub add_message_to_queue : ℕ → Text → R (Unit {0})
add_message_to_queue i content = do
  client ← client_at i
  if_then (ltb (state_value client.state_type) 3)
      (in_bounds client.fd >>= (λ fd. enqueue_to_server_queue (with_descriptor fd content)))
      (get >>= (λ c. elim (find_user_in_hash_table (session_of c) client.nickname) [
        | none ↦ skip
        | some user ↦ send_to_user user content >> in_session (add_user_to_ready_list user)
      ]))

unfoldable pub add_irc_message_to_queue : ℕ → IrcMessage → R (Unit {0})
add_irc_message_to_queue i m =
    in_bounds (create_irc_message [] (max_chars - length crlf) m) >>= add_message_to_queue i

-- `create_server_info`
unfoldable pub create_server_info : Option Text → Text → ℕ → Text
create_server_info none buffer size = buffer
create_server_info (some servername) buffer size = (safe_copy buffer size servername).1

-- user.c: `create_user_info`
unfoldable pub create_user_info : User → Text → ℕ → Text
create_user_info u buffer size =
    let tokens : List Text = u.nickname ∷ codes "!" ∷ u.username ∷ codes "@" ∷ u.hostname ∷ [] in
    if ltb (add_string_lengths tokens 0) size
    then (concat_tokens buffer size (map_some tokens) []).1
    else buffer
  where
    map_some : List Text → List (Option Text)
    map_some [] = []
    map_some (t ∷ ts) = some t ∷ map_some ts

-- user.c: `add_nickname_to_list`, on the list's buffer.
unfoldable pub add_nickname_to_list : Text → Text → Text
add_nickname_to_list list nickname =
    if ltb (length list + length nickname + 1) (max_chars + 1)
    then (if length list == 0 then nickname else list ++ (b' ' ∷ nickname))
    else list

abbrev pub terminated_by_crlf : Text → Text
terminated_by_crlf message =
    if is_terminated message crlf then message else terminate_string [] (max_chars + 1) message crlf

module _ (env : Environment) where
  -- What is done about the result of `write_string`, outside the threaded mode.
  abbrev pub after_write : ℕ → Text → WriteResult → R ℕ
  after_write fd message sent = send fd message >> pure 1
  after_write fd message broken_pipe = trigger_event_client_disconnect fd >> pure 0
  after_write fd message write_interrupted = pure 0
  after_write fd message write_error = trigger_event_client_disconnect fd >> pure 0
  after_write fd message nothing_sent = pure 0

  unfoldable pub server_write : ℕ → Text → R ℕ
  server_write fd message =
      let out = terminated_by_crlf message in after_write fd out (env.write_string fd out)

  unfoldable pub send_message_to_user : Text → Address → R (Unit {0})
  send_message_to_user message user = do u ← user_at user; status ← server_write u.fd message; skip

  -- The loop, with a round per message that the queue holds and one more.
  unfoldable pub send_user_loop : ℕ → Address → R (Unit {0})
  send_user_loop zero user = crash
  send_user_loop (suc fuel) user = do
    u ← user_at user
    let (message, rest) = dequeue_from_user_queue u
    write_user user rest
    elim message [
      | none ↦ skip
      | some text ↦ server_write u.fd text >>= (λ status. send_user_loop fuel user)
    ]

  unfoldable pub send_user_queue_messages : Address → R (Unit {0})
  send_user_queue_messages user = do u ← user_at user; send_user_loop (suc u.out_queue.count) user

  -- The users of the channel; the source takes them from a pointer that may be null.
  unfoldable pub users_of_channel : Address → R (List Address)
  users_of_channel channel = do
    c ← get
    channel_users ← non_null (find_channel_users (session_of c) channel)
    m ← in_session (deref (λ s. s.live_channel_users) channel_users)
    pure m.list.nodes

  unfoldable pub send_channel_loop : ℕ → Address → R (Unit {0})
  send_channel_loop zero channel = crash
  send_channel_loop (suc fuel) channel = do
    ch ← channel_at channel
    (message, rest) ← non_null (dequeue_from_channel_queue ch)
    write_channel channel rest
    elim message [
      | none ↦ skip
      | some text ↦ do
        users ← users_of_channel channel
        for_each users (send_message_to_user text)
        send_channel_loop fuel channel
    ]

  abbrev pub queue_count : Option (Queue Text) → ℕ
  queue_count none = 0
  queue_count (some q) = q.count

  unfoldable pub send_channel_queue_messages : Address → R (Unit {0})
  send_channel_queue_messages channel = do
    ch ← channel_at channel
    send_channel_loop (suc (queue_count ch.out_queue)) channel
