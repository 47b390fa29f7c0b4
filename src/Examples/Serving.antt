-- ===== src/Examples/Serving.antt =====
-- A server with one connected client, the commands NICK and USER, and a message for the client.
use irc_client_server.Base.{false, ◌≡◌, refl, none, some, [], ◌∷◌, ◌++◌, replicate, arith}
use irc_client_server.Base.Int.{pos}
use irc_client_server.Text.{codes}
use irc_client_server.Queue.{empty_queue}
use irc_client_server.HashTable.{new_table}
use irc_client_server.LinkedList.{create_linked_list}
use irc_client_server.Session.State.{Session}
use irc_client_server.SessionState.{connected, nick, user, is_allowed_state_command}
use irc_client_server.Event.{no_item, create_event, unknown_event_type}
use irc_client_server.Client.{Client, create_client}
use irc_client_server.Command.{CommandTokens, reset_command_tokens}
use irc_client_server.Server.State.{
  Environment, Context, Outcome, done, aborted, exited, crashed, sent,
}
use irc_client_server.Server.Commands.{get_command_function}
use irc_client_server.Server.Refusals.{get_command_function-refused, queued, not_registered_text}
use irc_client_server.Server.Routing.{send_server_message-with_descriptor}
use irc_client_server.Server.Dispatch.{send_server_message}
use irc_client_server.Server.Delivery.{with_descriptor}
use irc_client_server.Text.Scanning.{crlf}
use irc_client_server.Text.Endings.{is_terminated, agrees}

abbrev quiet_world : Environment
quiet_world = record {
  server_name = some (codes "irc");
  echo = false;
  ip_to_hostname = λ t. none;
  peer_address = λ fd. (codes "127.0.0.1", 6667);
  write_string = λ fd t. sent;
  garbage = [];
}

abbrev empty_session : Session
empty_session = record {
  next_address = 1;
  live_users = λ p. none;
  live_channels = λ p. none;
  live_user_channels = λ p. none;
  live_channel_users = λ p. none;
  ready_users = create_linked_list;
  ready_channels = create_linked_list;
  users = new_table 2 0;
  channels = new_table 2 0;
  user_channels_ll = create_linked_list;
  channel_users_ll = create_linked_list;
}

abbrev bob : Client
bob = record create_client { fd = some 7; state_type = connected }

abbrev serving : Context
serving = record {
  event_manager = record {
    base_handlers = [];
    ui_handlers = [];
    network_handlers = [];
    system_handlers = [];
    event_queue = empty_queue (create_event unknown_event_type none no_item) 2;
    dropped_events = 0;
    stop_processing = false;
  };
  poll_manager = record {
    pfds = [];
    fds_idx_map = new_table 2 0;
    events = 1;
    count = 0;
    capacity = 2;
  };
  tcp_server = record {
    listen_fd = some 3;
    clients = bob ∷ create_client ∷ [];
    session = empty_session;
    out_queue = empty_queue [] 4;
    fds_idx_map = new_table 2 0;
    count = 1;
    capacity = 2;
  };
  cmd_tokens = reset_command_tokens;
  backlog = [];
  outbox = [];
  closed = [];
}

abbrev nick_bob : CommandTokens
nick_bob = record {
  input = codes "NICK bob";
  command = some (codes "NICK");
  args = some (codes "bob") ∷ replicate 9 none;
  arg_count = pos 1;
}

-- Where an operation ends, or `serving`.
abbrev context_of : Outcome (Unit {0}) → Context
context_of (done a c) = c
context_of aborted = serving
context_of exited = serving
context_of crashed = serving

abbrev named : Context
named = context_of (get_command_function quiet_world nick 0 nick_bob serving)

get_command_function-refused_example :
    get_command_function quiet_world user 0 nick_bob serving
    ≡ done tt (queued serving 7 (not_registered_text quiet_world))
unfolding is_allowed_state_command
get_command_function-refused_example =
    get_command_function-refused quiet_world 0 serving bob 7 refl refl (omega arith) user nick_bob
      tt refl

send_server_message-with_descriptor_example :
    send_server_message quiet_world (with_descriptor 7 (codes "PONG")) serving
    ≡ done tt (record serving { outbox = (7, codes "PONG" ++ crlf) ∷ [] })
unfolding is_terminated agrees
send_server_message-with_descriptor_example =
    send_server_message-with_descriptor quiet_world 7 (codes "PONG") serving (omega arith)
      (omega arith) (omega arith) (refl, (refl, (refl, (refl, tt))))
