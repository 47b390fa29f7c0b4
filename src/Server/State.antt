-- ===== src/Server/State.antt =====
-- The state that the functions of tcp_server.c, command_handler.c and dispatcher.c of server/src work
-- on, and the monad of their operations. A `Client *` is the position of the client in the table;
-- position -1 is none, and a read of the table out of bounds faults. What the functions of libs/src
-- that call the operating system answer is in an `Environment`.
use irc_client_server.Base.{
  ℕ, if◌then◌else◌, Bool, Option, none, some, List, [], ◌∷◌, ◌++◌, set, get_elem?,
}
use irc_client_server.Text.{Text}
use irc_client_server.Queue.{Queue}
use irc_client_server.HashTable.{HashTable}
use irc_client_server.PollManager.{FdIdxPair, PollManager}
use irc_client_server.Session.State.{Session, Run, ok, failed, fault, M}
use irc_client_server.Event.{EventManager}
use irc_client_server.Client.{Client}
use irc_client_server.Command.{CommandTokens}

-- `struct TCPServer`
pub record TcpServer : Type 0 where
  pub listen_fd : Option ℕ
  pub clients : List Client
  pub session : Session
  pub out_queue : Queue Text
  pub fds_idx_map : HashTable ℕ FdIdxPair
  pub count : ℕ
  pub capacity : ℕ

-- The functions that dispatcher.c registers with the event manager.
pub data Handler : Type 0 where
  handle_ne_client_connect_event handle_ne_client_disconnect_event : Handler
  handle_ne_remove_poll_fd_event handle_ne_add_poll_fd_event handle_ne_client_msg_event : Handler
  handle_se_exit_event : Handler

-- What `write_string` did with a message: it returned -1 with `errno` EPIPE, EINTR or another one, or
-- 0 for the empty message.
pub data WriteResult : Type 0 where
  sent broken_pipe write_interrupted write_error nothing_sent : WriteResult

-- `ip_to_hostname` returns none where it fails and leaves its buffer empty; `peer_address` is what
-- `get_peer_address` leaves in its two variables; `garbage` is what `malloc` leaves in a buffer.
pub record Environment : Type 0 where
  pub server_name : Option Text
  pub echo : Bool
  pub ip_to_hostname : Text → Option Text
  pub peer_address : ℕ → Text × ℕ
  pub write_string : ℕ → Text → WriteResult
  pub garbage : Text

-- `EventContext`, the descriptors that `accept` will return, the messages that were written to each
-- descriptor, and the descriptors that were closed.
pub record Context : Type 0 where
  pub event_manager : EventManager Handler
  pub poll_manager : PollManager
  pub tcp_server : TcpServer
  pub cmd_tokens : CommandTokens
  pub backlog : List ℕ
  pub outbox : List (ℕ × Text)
  pub closed : List ℕ

-- `done`, or the process ended by FAILED, by an exit event, or behind a read out of bounds.
pub data Outcome (A : Type 0) : Type 0 where
  done : A → Context → Outcome A
  aborted : Outcome A
  exited : Outcome A
  crashed : Outcome A

abbrev pub R : Type 0 → Type 0
R A = Context → Outcome A

infixl 5 ◌>>=◌ ◌>>◌
abbrev pub bind_outcome : {A B : Type 0} → Outcome A → (A → R B) → Outcome B
bind_outcome (done a c) f = f a c
bind_outcome aborted f = aborted
bind_outcome exited f = exited
bind_outcome crashed f = crashed

abbrev pub ◌>>=◌ : {A B : Type 0} → R A → (A → R B) → R B
◌>>=◌ m f c = bind_outcome (m c) f

abbrev pub ◌>>◌ : {A B : Type 0} → R A → R B → R B
◌>>◌ m k c = bind_outcome (m c) (λ _. k)

abbrev pub pure : {A : Type 0} → A → R A
pure a c = done a c

abbrev pub get : R Context
get c = done c c

abbrev pub skip : R (Unit {0})
skip c = done tt c

abbrev pub abort : {A : Type 0} → R A
abort c = aborted

abbrev pub crash : {A : Type 0} → R A
crash c = crashed

abbrev pub when : Bool → R (Unit {0}) → R (Unit {0})
when b m c = if b then m c else done tt c

abbrev pub if_then : {A : Type 0} → Bool → R A → R A → R A
if_then b m k c = if b then m c else k c

abbrev pub put_server : TcpServer → R (Unit {0})
put_server t c = done tt (record c { tcp_server = t })

abbrev pub put_events : EventManager Handler → R (Unit {0})
put_events m c = done tt (record c { event_manager = m })

abbrev pub with_session : Context → Session → Context
with_session c s = record c { tcp_server = record c.tcp_server { session = s } }

abbrev pub lift_run : {A : Type 0} → Context → Run A → Outcome A
lift_run c (ok a s) = done a (with_session c s)
lift_run c failed = aborted
lift_run c fault = crashed

-- An operation of the session.
abbrev pub in_session : {A : Type 0} → M A → R A
in_session m c = lift_run c (m c.tcp_server.session)

abbrev pub session_of : Context → Session
session_of c = c.tcp_server.session

-- The guards of functions that do not take a null pointer.
abbrev pub non_null : {A : Type 0} → Option A → R A
non_null none c = aborted
non_null (some a) c = done a c

-- An index into the table of clients.
abbrev pub in_bounds : {A : Type 0} → Option A → R A
in_bounds none c = crashed
in_bounds (some a) c = done a c

-- `get_client(tcpServer, i)` with a read of the client.
abbrev pub client_at : ℕ → R Client
client_at i c = in_bounds (get_elem? c.tcp_server.clients i) c

abbrev pub put_client : ℕ → Client → R (Unit {0})
put_client i client c =
    put_server (record c.tcp_server { clients = set c.tcp_server.clients i client }) c

-- A setter of client.c on the client at a position.
unfoldable pub change_client : ℕ → (Client → Client) → R (Unit {0})
change_client i f = do client ← client_at i; put_client i (f client)

-- `iterate_list` with an operation.
unfoldable pub for_each : {A : Type 0} → List A → (A → R (Unit {0})) → R (Unit {0})
for_each [] f = skip
for_each (x ∷ xs) f = f x >> for_each xs f

abbrev pub send : ℕ → Text → R (Unit {0})
send fd message c = done tt (record c { outbox = c.outbox ++ ((fd, message) ∷ []) })
