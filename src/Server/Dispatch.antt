-- ===== src/Server/Dispatch.antt =====
-- server/src/dispatcher.c: the loop over the queue of events and the handlers of the events.
use irc_client_server.Base.{
  ℕ, zero, suc, ◌==◌, if◌then◌else◌, Option, none, some, [], ◌∷◌, ◌++◌, get_elem?,
}
use irc_client_server.Base.Int.{ℤ, pos, negsuc}
use irc_client_server.Text.{Text, codes}
use irc_client_server.Text.Tokens.{tokenize_string}
use irc_client_server.Text.Numbers.{str_to_uint}
use irc_client_server.Text.Scanning.{count_delimiters}
use irc_client_server.HashTable.Hashes.{are_strings_equal}
use irc_client_server.LinkedList.{reset_linked_list}
use irc_client_server.PollManager.{find_fd_idx_in_hash_table, set_poll_fd, unset_poll_fd}
use irc_client_server.Session.State.{Session, Address}
use irc_client_server.Session.Tables.{remove_user_from_ready_list}
use irc_client_server.Session.Registration.{leave_all_channels, unregister_user}
use irc_client_server.Event.{
  Event, EventManager, event_value, system_event, DataItem, item_int, item_char, no_item,
  system_value, se_exit, ne_client_connect, ne_client_disconnect, ne_client_msg, ne_add_poll_fd,
  ne_remove_poll_fd, create_event, register_network_event_handler, register_system_event_handler,
  dispatch_network_event, dispatch_system_event, pop_event_from_queue,
}
use irc_client_server.Server.State.{
  Environment, R, done, exited, Handler, handle_ne_client_connect_event,
  handle_ne_client_disconnect_event, handle_ne_remove_poll_fd_event, handle_ne_add_poll_fd_event,
  handle_ne_client_msg_event, handle_se_exit_event, ◌>>=◌, ◌>>◌, pure, get, skip, crash, when,
  if_then, put_events, in_session, session_of, non_null, in_bounds, client_at, for_each,
  with_session,
}
use irc_client_server.Server.Connections.{add_client, remove_client}
use irc_client_server.Server.Delivery.{
  add_message_to_queue, dequeue_from_server_queue, server_write, send_channel_queue_messages,
  send_user_queue_messages,
}
use irc_client_server.Server.Replies.{user_of, forwarded}
use irc_client_server.Server.Commands.{parse_message, put_tokens, execute_command}

-- The position of the client with the descriptor that an event carries.
abbrev pub client_of : ℕ → R ℕ
client_of fd = get >>= (λ c. in_bounds (find_fd_idx_in_hash_table c.tcp_server.fds_idx_map fd))

-- The user of a client that is gone leaves the session.
unfoldable pub drop_user : Option Address → R (Unit {0})
drop_user none = skip
drop_user (some user) = do
  message ← forwarded (some user) (some (codes "QUIT") ∷ []) none
  in_session (leave_all_channels user message)
  in_session (remove_user_from_ready_list user)
  in_session (unregister_user user)

unfoldable pub disconnect_client : ℕ → R (Unit {0})
disconnect_client fd = do
  i ← client_of fd
  client ← client_at i
  user ← user_of client
  drop_user user
  client' ← client_at i
  fd' ← in_bounds client'.fd
  remove_client fd'

unfoldable pub remove_poll_fd : ℕ → R (Unit {0})
remove_poll_fd fd c =
    done tt
      (record c { poll_manager = unset_poll_fd c.poll_manager fd; closed = c.closed ++ (fd ∷ []) })

unfoldable pub add_poll_fd : ℕ → R (Unit {0})
add_poll_fd fd c = done tt (record c { poll_manager = set_poll_fd c.poll_manager fd })

-- A number from the text of a message as an index of the table of descriptors: the table has no
-- negative ones.
abbrev pub descriptor : ℤ → Option ℕ
descriptor (pos n) = some n
descriptor (negsuc n) = none

-- The two tokens of a message with one "|"; an entry that is not written is a null pointer, which
-- ends the process.
abbrev pub split_message : Text → R (Text × Text)
split_message text = do
  let tokens = (tokenize_string text 2 (codes "|")).0
  fd ← non_null (get_elem? tokens 0)
  message ← non_null (get_elem? tokens 1)
  pure (fd, message)

module _ (env : Environment) where
  unfoldable pub handle_client_msg : Text → R (Unit {0})
  handle_client_msg text = when (count_delimiters text (codes "|") == 1) (do
    (fd, message) ← split_message text
    n ← in_bounds (descriptor (str_to_uint fd))
    i ← client_of n
    if_then env.echo (add_message_to_queue i message) (
        get >>= (λ c.
          non_null (parse_message message c.cmd_tokens)
          >>= (λ tokens. put_tokens tokens >> execute_command env i tokens))))

  -- An event whose item is not the one its kind carries is not made by the program.
  unfoldable pub call_handler : Handler → DataItem → R (Unit {0})
  call_handler handle_ne_client_connect_event item = add_client env
  call_handler handle_ne_client_disconnect_event (item_int fd) = disconnect_client fd
  call_handler handle_ne_remove_poll_fd_event (item_int fd) = remove_poll_fd fd
  call_handler handle_ne_add_poll_fd_event (item_int fd) = add_poll_fd fd
  call_handler handle_ne_client_msg_event (item_char text) = handle_client_msg text
  call_handler handle_se_exit_event item = λ c. exited
  call_handler handle_ne_client_disconnect_event (item_char text) = crash
  call_handler handle_ne_client_disconnect_event no_item = crash
  call_handler handle_ne_remove_poll_fd_event (item_char text) = crash
  call_handler handle_ne_remove_poll_fd_event no_item = crash
  call_handler handle_ne_add_poll_fd_event (item_char text) = crash
  call_handler handle_ne_add_poll_fd_event no_item = crash
  call_handler handle_ne_client_msg_event (item_int fd) = crash
  call_handler handle_ne_client_msg_event no_item = crash

  abbrev pub call : Option Handler → DataItem → R (Unit {0})
  call none item = skip
  call (some h) item = call_handler h item

  unfoldable pub dispatch_event : Event → R (Unit {0})
  dispatch_event e = do
    c ← get
    when (event_value e.event_type == 1)
        (call (dispatch_network_event c.event_manager e) e.data_item)
    c' ← get
    when (event_value e.event_type == 2)
        (call (dispatch_system_event c'.event_manager e) e.data_item)

  -- The loop, on fuel.
  unfoldable pub dispatch_loop : ℕ → R (Unit {0})
  dispatch_loop zero = crash
  dispatch_loop (suc fuel) = do
    c ← get
    let (event, rest) = pop_event_from_queue c.event_manager
    put_events rest
    elim event [ none ↦ skip | some e ↦ dispatch_event e >> dispatch_loop fuel ]

  -- A message of the server's queue; one without exactly one "|" is dropped.
  unfoldable pub send_server_message : Text → R (Unit {0})
  send_server_message text = when (count_delimiters text (codes "|") == 1) (do
    (fd, message) ← split_message text
    n ← in_bounds (descriptor (str_to_uint fd))
    status ← server_write env n message
    skip)

  -- The loop, with a round per message of the queue.
  unfoldable pub send_server_queue : ℕ → R (Unit {0})
  send_server_queue zero = skip
  send_server_queue (suc fuel) = do
    text ← dequeue_from_server_queue
    elim text [ none ↦ skip | some message ↦ send_server_message message >> send_server_queue fuel ]

  abbrev pub reset_ready_lists : Session → Session
  reset_ready_lists s = record s {
    ready_users = (reset_linked_list s.ready_users).1;
    ready_channels = (reset_linked_list s.ready_channels).1;
  }

  unfoldable pub send_socket_messages : R (Unit {0})
  send_socket_messages = do
    c ← get
    send_server_queue c.tcp_server.out_queue.count
    c₁ ← get
    for_each (session_of c₁).ready_channels.nodes (send_channel_queue_messages env)
    c₂ ← get
    for_each (session_of c₂).ready_users.nodes (send_user_queue_messages env)
    λ c₃. done tt (with_session c₃ (reset_ready_lists (session_of c₃)))

abbrev pub set_event_handlers : EventManager Handler → EventManager Handler
set_event_handlers m =
    register_system_event_handler
      (register_network_event_handler
        (register_network_event_handler
          (register_network_event_handler
            (register_network_event_handler
              (register_network_event_handler m ne_client_connect handle_ne_client_connect_event)
              ne_client_disconnect handle_ne_client_disconnect_event)
            ne_client_msg handle_ne_client_msg_event)
          ne_add_poll_fd handle_ne_add_poll_fd_event)
        ne_remove_poll_fd handle_ne_remove_poll_fd_event)
      se_exit handle_se_exit_event

unfoldable pub register_event_handlers : R (Unit {0})
register_event_handlers = do c ← get; put_events (set_event_handlers c.event_manager)

-- The event that a message in the pipe of signals stands for.
unfoldable pub detect_pipe_event_type : Text → Option Event
detect_pipe_event_type message =
    if are_strings_equal message (codes "sigint")
    then some (create_event system_event (some (system_value se_exit)) no_item)
    else none
