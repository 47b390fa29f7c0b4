-- ===== src/Client.antt =====
-- server/src/client.c: what the server knows of a connection. UNASSIGNED is none.
use irc_client_server.Base.{ℕ, ◌+◌, ◌==◌, Bool, not, Option, none, []}
use irc_client_server.Text.{Text, max_chars, max_nickname_len, safe_copy}
use irc_client_server.SessionState.{SessionStateType, state_value, disconnected}

-- The enumeration of libs/src/network_utils.h.
pub data HostIdentifierType : Type 0 where
  hostname ip_address unknown_host_identifier : HostIdentifierType

abbrev pub host_identifier_value : HostIdentifierType → ℕ
host_identifier_value hostname = 0
host_identifier_value ip_address = 1
host_identifier_value unknown_host_identifier = 2

pub record Client : Type 0 where
  pub fd : Option ℕ
  pub nickname : Text
  pub client_identifier : Text
  pub identifier_type : HostIdentifierType
  pub port : Option ℕ
  pub in_buffer : Text
  pub state_type : SessionStateType

abbrev pub create_client : Client
create_client = record {
  fd = none;
  nickname = [];
  client_identifier = [];
  identifier_type = unknown_host_identifier;
  port = none;
  in_buffer = [];
  state_type = disconnected;
}

abbrev pub set_client_fd : Client → Option ℕ → Client
set_client_fd c fd = record c { fd = fd }

abbrev pub set_client_nickname : Client → Text → Client
set_client_nickname c nickname = record c {
  nickname = (safe_copy c.nickname (max_nickname_len + 1) nickname).1;
}

abbrev pub set_client_identifier : Client → Text → Client
set_client_identifier c client_identifier = record c {
  client_identifier = (safe_copy c.client_identifier (max_chars + 1) client_identifier).1;
}

abbrev pub set_client_identifier_type : Client → HostIdentifierType → Client
set_client_identifier_type c identifier_type = record c { identifier_type = identifier_type }

abbrev pub set_client_port : Client → Option ℕ → Client
set_client_port c port = record c { port = port }

abbrev pub set_client_inbuffer : Client → Text → Client
set_client_inbuffer c content = record c {
  in_buffer = (safe_copy c.in_buffer (max_chars + 1) content).1;
}

abbrev pub set_client_state_type : Client → SessionStateType → Client
set_client_state_type c state_type = record c { state_type = state_type }

abbrev pub is_client_connected : Client → Bool
is_client_connected c = not (state_value c.state_type == 0)
