-- ===== src/Server/Connections.antt =====
-- server/src/tcp_server.c: the table of clients. The event manager is not a null pointer.
use irc_client_server.Base.{
  ℕ, ◌+◌, ◌-◌, ◌==◌, if◌then◌else◌, Bool, true, false, not, ◌&&◌, Option, none, some, is_none, List,
  [], ◌∷◌, replicate,
}
use irc_client_server.Text.{Text}
use irc_client_server.Queue.{empty_queue}
use irc_client_server.HashTable.{create_hash_table}
use irc_client_server.HashTable.Hashes.{are_strings_equal}
use irc_client_server.PollManager.{
  valid_capacity, add_fd_idx_to_hash_table, remove_fd_idx_from_hash_table,
  find_fd_idx_in_hash_table, is_unassigned,
}
use irc_client_server.SessionState.{
  SessionStateType, connected, disconnected, server_states, is_allowed_state_transition,
}
use irc_client_server.Session.State.{create_session}
use irc_client_server.Event.{
  create_event, network_event, NetworkEventType, network_value, ne_add_poll_fd, ne_remove_poll_fd,
  ne_client_disconnect, item_int, push_event_to_queue,
}
use irc_client_server.Client.{
  Client, create_client, HostIdentifierType, hostname, ip_address, unknown_host_identifier,
  set_client_fd, set_client_identifier, set_client_identifier_type, set_client_port,
  set_client_state_type,
}
use irc_client_server.Server.State.{
  TcpServer, Environment, R, ◌>>=◌, ◌>>◌, get, abort, when, put_server, put_events, in_bounds,
  client_at, change_client, done,
}

abbrev pub msg_queue_len : ℕ
msg_queue_len = 50

-- none: a table or a queue could not be created.
unfoldable pub create_server : Text → ℕ → Option TcpServer
create_server garbage asked =
    let capacity = valid_capacity asked in
    elim (create_hash_table capacity 0) [
      | none ↦ none
      | some fds_idx_map ↦ some (record {
        listen_fd = none;
        clients = replicate capacity create_client;
        session = create_session;
        out_queue = empty_queue garbage msg_queue_len;
        fds_idx_map = fds_idx_map;
        count = 0;
        capacity = capacity;
      })
    ]

abbrev pub is_server_empty : TcpServer → Bool
is_server_empty t = t.count == 0

abbrev pub is_server_full : TcpServer → Bool
is_server_full t = t.count == t.capacity

abbrev pub is_fd : Option ℕ → Option ℕ → Bool
is_fd none none = true
is_fd none (some b) = false
is_fd (some a) none = false
is_fd (some a) (some b) = a == b

-- The loop over the clients: the first that has the descriptor, none for UNASSIGNED.
unfoldable pub find_fd_idx : List Client → Option ℕ → Option ℕ
find_fd_idx [] fd = none
find_fd_idx (client ∷ clients) fd =
    let rest = find_fd_idx clients fd in
    if is_fd client.fd fd then some 0 else elim rest [ none ↦ none | some i ↦ some (i + 1) ]

abbrev pub find_client_fd_idx : TcpServer → Option ℕ → Option ℕ
find_client_fd_idx t fd = find_fd_idx t.clients fd

-- An event that carries a descriptor.
unfoldable pub push_event : NetworkEventType → ℕ → R (Unit {0})
push_event t fd = do
  c ← get
  put_events (
      push_event_to_queue c.event_manager
        (create_event network_event (some (network_value t)) (item_int fd)))

unfoldable pub trigger_event_client_disconnect : ℕ → R (Unit {0})
unfolding push_event
trigger_event_client_disconnect fd = push_event ne_client_disconnect fd

unfoldable pub set_client_data : ℕ → Option ℕ → Text → HostIdentifierType → Option ℕ → R (Unit {0})
set_client_data i fd identifier t port = do
  change_client i (λ client. set_client_fd client fd)
  change_client i (λ client. set_client_identifier client identifier)
  change_client i (λ client. set_client_identifier_type client t)
  change_client i (λ client. set_client_port client port)

unfoldable pub unset_client_data : ℕ → R (Unit {0})
unset_client_data i = set_client_data i none [] unknown_host_identifier none

-- A transition of the client to the state, if the server's table allows it. A row that the table does
-- not have is read through a null pointer.
unfoldable pub move_client : ℕ → SessionStateType → R (Unit {0})
move_client i state = do
  client ← client_at i
  allowed ← in_bounds (is_allowed_state_transition server_states client.state_type state)
  when allowed (change_client i (λ client. set_client_state_type client state))

-- The name and the kind of the name that a connection is given.
abbrev pub identify : Text → Option Text → Text × HostIdentifierType
identify address none = (address, ip_address)
identify address (some servername) = (servername, hostname)

abbrev pub change_count : (ℕ → ℕ) → R (Unit {0})
change_count f c = put_server (record c.tcp_server { count = f c.tcp_server.count }) c

module _ (env : Environment) where
  unfoldable pub register_connection : ℕ → R (Unit {0})
  register_connection fd = do
    c ← get
    i ← in_bounds (find_client_fd_idx c.tcp_server none)
    put_server (record c.tcp_server {
      fds_idx_map = add_fd_idx_to_hash_table c.tcp_server.fds_idx_map fd i;
    })
    let address = env.peer_address fd
    let (identifier, t) = identify address.0 (env.ip_to_hostname address.0)
    set_client_data i (some fd) identifier t (some address.1)
    push_event ne_add_poll_fd fd
    move_client i connected
    change_count (λ n. n + 1)

  -- `accept_connection`: without a connection that waits, `accept` does not return.
  unfoldable pub accept_connection : R ℕ
  accept_connection c = elim c.backlog [
    | [] ↦ abort c
    | fd ∷ later ↦ done fd (record c { backlog = later })
  ]

  unfoldable pub add_client : R (Unit {0})
  add_client = do
    c ← get
    when (not (is_server_full c.tcp_server) && not (is_none c.tcp_server.listen_fd))
        (accept_connection >>= (λ fd. register_connection fd))

-- The body of `remove_client`, for a server that is not empty.
unfoldable pub drop_client : ℕ → R (Unit {0})
drop_client fd = do
  c ← get
  let t = c.tcp_server
  i ← in_bounds (find_fd_idx_in_hash_table t.fds_idx_map fd)
  put_server (record t { fds_idx_map = remove_fd_idx_from_hash_table t.fds_idx_map fd })
  unset_client_data i
  push_event ne_remove_poll_fd fd
  move_client i disconnected
  change_count (λ n. n - 1)

unfoldable pub remove_client : ℕ → R (Unit {0})
remove_client fd = do c ← get; when (not (is_server_empty c.tcp_server)) (drop_client fd)

-- The loop of `find_client`: the first client in use with the nickname.
unfoldable pub find_nickname : List Client → Text → Option ℕ
find_nickname [] nickname = none
find_nickname (client ∷ clients) nickname =
    let rest = find_nickname clients nickname in
    if not (is_unassigned client.fd) && are_strings_equal client.nickname nickname
    then some 0
    else elim rest [ none ↦ none | some i ↦ some (i + 1) ]

abbrev pub find_client : TcpServer → Text → Option ℕ
find_client t nickname = find_nickname t.clients nickname

unfoldable pub set_server_listen_fd : Option ℕ → R (Unit {0})
set_server_listen_fd fd = do c ← get; put_server (record c.tcp_server { listen_fd = fd })
