-- ===== src/SessionState.antt =====
-- libs/src/session_state.c, and the enumerations of session_state.h and command.h: the states of a
-- connection, and per state the states that may follow and the commands that are allowed. The rows
-- of the tables end at their UNASSIGNED entry. The values COMMAND_TYPE_COUNT and
-- SESSION_STATE_TYPE_COUNT, which name no state or command, are left out.
pub mod Protocol
use irc_client_server.Base.{
  ℕ, zero, suc, ◌+◌, ◌-◌, ◌*◌, ◌/◌, ◌%◌, ◌^◌, ◌≤◌, ◌<◌, min, bit_xor, ltb, leb, ◌==◌, if◌then◌else◌,
  ltb→lt, lt→ltb, ==_iff, ==_refl, some_eq, Bool-cases, Option-cases, ◌≡◌, refl, sym, ap, ◌∙◌, ◌≢◌,
  ◌↔◌, ◌⊎◌, inl, inr, Bool, true, false, not, ◌&&◌, ◌||◌, Option, none, some, List, [], ◌∷◌, ◌++◌,
  map, arith, length, get_elem?, set, get_or, replicate, take, drop, length-append, length-set,
  length-replicate, get_or-replicate, get_or-set_self, get_or-set_ne, get_elem?-set_self,
  get_elem?-set_ne, get_elem?-append_left, get_elem?-append_last, get_elem?-drop_one, All,
}

pub data CommandType : Type 0 where
  help connect disconnect nick user join part privmsg address port whois quit : CommandType
  unknown_command_type : CommandType

pub data SessionStateType : Type 0 where
  disconnected connected start_registration registered in_channel : SessionStateType
  unknown_session_state_type : SessionStateType

-- The value of an enumeration constant.
abbrev pub state_value : SessionStateType → ℕ
state_value disconnected = 0
state_value connected = 1
state_value start_registration = 2
state_value registered = 3
state_value in_channel = 4
state_value unknown_session_state_type = 5

abbrev pub command_value : CommandType → ℕ
command_value help = 0
command_value connect = 1
command_value disconnect = 2
command_value nick = 3
command_value user = 4
command_value join = 5
command_value part = 6
command_value privmsg = 7
command_value address = 8
command_value port = 9
command_value whois = 10
command_value quit = 11
command_value unknown_command_type = 12

pub record SessionState : Type 0 where
  pub transitional_states : List SessionStateType
  pub cmd_types : List CommandType

-- A table of states: none where the array holds NULL.
abbrev pub SessionStates : Type 0
SessionStates = SessionStateType → Option SessionState

abbrev pub server_states : SessionStates
server_states disconnected =
    some (record { transitional_states = connected ∷ []; cmd_types = connect ∷ [] })
server_states connected = some (record {
  transitional_states = start_registration ∷ disconnected ∷ [];
  cmd_types = nick ∷ quit ∷ [];
})
server_states start_registration =
    some (record {
      transitional_states = registered ∷ disconnected ∷ [];
      cmd_types = user ∷ quit ∷ [];
    })
server_states registered = some (record {
  transitional_states = in_channel ∷ disconnected ∷ [];
  cmd_types = nick ∷ join ∷ privmsg ∷ whois ∷ quit ∷ [];
})
server_states in_channel = some (record {
  transitional_states = registered ∷ disconnected ∷ [];
  cmd_types = nick ∷ join ∷ privmsg ∷ part ∷ whois ∷ quit ∷ [];
})
server_states unknown_session_state_type = none

abbrev pub client_states : SessionStates
client_states disconnected = some (record {
  transitional_states = connected ∷ [];
  cmd_types = help ∷ nick ∷ user ∷ connect ∷ address ∷ port ∷ quit ∷ [];
})
client_states connected = some (record {
  transitional_states = start_registration ∷ disconnected ∷ [];
  cmd_types = help ∷ nick ∷ disconnect ∷ address ∷ port ∷ quit ∷ [];
})
client_states start_registration = some (record {
  transitional_states = registered ∷ disconnected ∷ [];
  cmd_types = help ∷ user ∷ disconnect ∷ address ∷ port ∷ quit ∷ [];
})
client_states registered = some (record {
  transitional_states = in_channel ∷ disconnected ∷ [];
  cmd_types = help ∷ nick ∷ join ∷ privmsg ∷ disconnect ∷ address ∷ port ∷ whois ∷ quit ∷ [];
})
client_states in_channel = some (record {
  transitional_states = registered ∷ disconnected ∷ [];
  cmd_types = help ∷ nick ∷ join ∷ privmsg ∷ part ∷ disconnect ∷ address ∷ port ∷ whois ∷ quit ∷ [];
})
client_states unknown_session_state_type = none

-- The loops over a row.
abbrev pub holds_state : SessionStateType → List SessionStateType → Bool
holds_state s [] = false
holds_state s (t ∷ ts) = state_value t == state_value s || holds_state s ts

abbrev pub holds_command : CommandType → List CommandType → Bool
holds_command c [] = false
holds_command c (d ∷ ds) = command_value d == command_value c || holds_command c ds

-- none: the source reads a row through a null pointer.
unfoldable pub is_allowed_state_transition :
    SessionStates → SessionStateType → SessionStateType → Option Bool
is_allowed_state_transition session_states initial_state next_state =
    elim (session_states initial_state) [
      | none ↦ none
      | some row ↦ some (holds_state next_state row.transitional_states)
    ]

unfoldable pub is_allowed_state_command : SessionStates → SessionStateType → CommandType → Bool
is_allowed_state_command session_states initial_state cmd_type =
    elim (session_states initial_state) [
      | none ↦ false
      | some row ↦ holds_command cmd_type row.cmd_types
    ]

abbrev pub get_session_state : SessionStates → SessionStateType → Option SessionState
get_session_state session_states initial_state = session_states initial_state

abbrev pub get_client_session_states : SessionStates
get_client_session_states = client_states

abbrev pub get_server_session_states : SessionStates
get_server_session_states = server_states
