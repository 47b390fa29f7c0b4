-- ===== src/Server/Reading.antt =====
-- server/src/tcp_server.c and dispatcher.c: what a client sends is gathered in its buffer and cut into
-- messages, and each message becomes an event.
use irc_client_server.Base.{
  ℕ, suc, ◌+◌, ◌-◌, leb, ◌==◌, if◌then◌else◌, Bool, false, not, ◌&&◌, some, is_none, [], ◌++◌,
  length,
}
use irc_client_server.Text.{Text, max_chars, safe_copy}
use irc_client_server.Text.Scanning.{crlf}
use irc_client_server.Text.Messages.{find_delimiter, extract_messages}
use irc_client_server.PollManager.{find_fd_idx_in_hash_table}
use irc_client_server.Event.{
  Event, create_event, network_event, network_value, ne_client_msg, ne_client_connect, item_char,
  no_item, push_event_to_queue,
}
use irc_client_server.Server.State.{
  R, ◌>>=◌, ◌>>◌, pure, get, when, put_events, in_bounds, client_at, put_client, for_each,
}
use irc_client_server.Server.Connections.{trigger_event_client_disconnect}
use irc_client_server.Server.Delivery.{with_descriptor}

-- What `read_string` did: it read a text, the peer has closed the connection (0, or -1 with
-- ECONNRESET), a signal came (EINTR), or there was another error. A text has no NUL and is shorter
-- than the buffer.
pub data ReadResult : Type 0 where
  received : Text → ReadResult
  peer_closed interrupted read_error : ReadResult

-- The number of bytes that are to be copied behind those of the buffer.
abbrev pub copy_bytes : Text → Text → ℕ
copy_bytes in_buffer text =
    if leb (max_chars + 1) (length in_buffer + length text)
    then max_chars - length in_buffer
    else length text

-- The copy into the buffer, behind what it holds: a text that does not fit is not copied.
unfoldable pub add_to_buffer : Text → Text → Text
add_to_buffer in_buffer text = in_buffer ++ (safe_copy [] (copy_bytes in_buffer text + 1) text).1

-- A full buffer without a message is cleared. `currentLen` counts the bytes as if they were copied.
unfoldable pub fill_buffer : Text → Text → Bool × Text
fill_buffer in_buffer text =
    let filled = add_to_buffer in_buffer text in
    let complete = not (is_none (find_delimiter filled crlf)) in
    let full = length in_buffer + copy_bytes in_buffer text == max_chars in
    (complete, if not complete && full then [] else filled)

-- Whether the buffer of the client holds a message, which is a result of 1.
unfoldable pub server_read : ℕ → ReadResult → R Bool
server_read fd peer_closed = trigger_event_client_disconnect fd >> pure false
server_read fd interrupted = pure false
server_read fd read_error = trigger_event_client_disconnect fd >> pure false
server_read fd (received text) = do
  c ← get
  i ← in_bounds (find_fd_idx_in_hash_table c.tcp_server.fds_idx_map fd)
  client ← client_at i
  let (complete, in_buffer) = fill_buffer client.in_buffer text
  put_client i (record client { in_buffer = in_buffer })
  pure complete

-- The event of one message: its text is copied into the event if it fits.
unfoldable pub message_event : ℕ → Text → Event
message_event fd message =
    create_event network_event (some (network_value ne_client_msg))
      (item_char (safe_copy [] (max_chars + 1) (with_descriptor fd message)).1)

unfoldable pub push_message : ℕ → Text → R (Unit {0})
push_message fd message = do
  c ← get
  put_events (push_event_to_queue c.event_manager (message_event fd message))

-- The loop by `extract_message` over the buffer of the client: its body works on the events alone.
unfoldable pub push_messages : ℕ → ℕ → R (Unit {0})
push_messages fd i = do
  client ← client_at i
  let (messages, rest) =
      extract_messages (suc (length client.in_buffer)) [] (max_chars + 1) client.in_buffer crlf
  put_client i (record client { in_buffer = rest })
  for_each messages (push_message fd)

unfoldable pub process_socket_data : ℕ → ReadResult → R (Unit {0})
process_socket_data fd result = do
  complete ← server_read fd result
  when complete (
      get >>= (λ c.
        in_bounds (find_fd_idx_in_hash_table c.tcp_server.fds_idx_map fd) >>= push_messages fd))

unfoldable pub process_connection_request : R (Unit {0})
process_connection_request = do
  c ← get
  put_events (
      push_event_to_queue c.event_manager
        (create_event network_event (some (network_value ne_client_connect)) no_item))
