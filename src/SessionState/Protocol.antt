-- ===== src/SessionState/Protocol.antt =====
-- What the tables of libs/src/session_state.c let a connection do.
use irc_client_server.Base.{◌+◌, ◌≤◌, ◌≡◌, ◌≢◌, true, some, List, [], ◌∷◌, arith}
use irc_client_server.SessionState.{
  SessionStateType, CommandType, SessionStates, disconnected, connected, start_registration,
  registered, in_channel, unknown_session_state_type, server_states, client_states,
  is_allowed_state_transition, is_allowed_state_command, state_value,
}

-- The states that moves allowed by a table lead to.
pub data Leads (table : SessionStates) (start : SessionStateType) : SessionStateType → Type 0 where
  here : Leads table start start
  move :
      {s : SessionStateType} (t : SessionStateType)
      → Leads table start s
      → is_allowed_state_transition table s t ≡ some true
      → Leads table start t

-- The states passed on the way, the last one first.
pub trail :
    {table : SessionStates} {start t : SessionStateType}
    → Leads table start t
    → List SessionStateType
trail {start} here = start ∷ []
trail (move t w e) = t ∷ trail w

-- The state stands among those passed.
pub data Passed (s : SessionStateType) : List SessionStateType → Type 0 where
  now : {ts : List SessionStateType} → Passed s (s ∷ ts)
  before : {t : SessionStateType} {ts : List SessionStateType} → Passed s ts → Passed s (t ∷ ts)

-- The states that a connection has passed, for the one that it is in.
pub record IsOrdered (t : SessionStateType) (states : List SessionStateType) : Type 0 where
  pub known : t ≢ unknown_session_state_type
  pub through_connected : 1 ≤ state_value t → Passed connected states
  pub through_start : 2 ≤ state_value t → Passed start_registration states
  pub through_registered : 3 ≤ state_value t → Passed registered states

-- A move climbs by one state at most, and leads to no unknown state.
climb :
    (s t : SessionStateType)
    → is_allowed_state_transition server_states s t ≡ some true
    → (state_value t ≤ state_value s + 1) × (state_value t ≤ 4)
unfolding is_allowed_state_transition
climb s t e = ground arith

step-IsOrdered :
    (s t : SessionStateType) (states : List SessionStateType)
    → is_allowed_state_transition server_states s t ≡ some true
    → IsOrdered s states
    → IsOrdered t (t ∷ states)
unfolding is_allowed_state_transition
step-IsOrdered s t states e h = ordered t (climb s t e)
  where
    ordered :
        (t : SessionStateType)
        → (state_value t ≤ state_value s + 1) × (state_value t ≤ 4)
        → IsOrdered t (t ∷ states)
    ordered disconnected c = record {
      known = λ e. cc;
      through_connected = λ p. absurd (omega arith);
      through_start = λ p. absurd (omega arith);
      through_registered = λ p. absurd (omega arith);
    }
    ordered connected c = record {
      known = λ e. cc;
      through_connected = λ p. now;
      through_start = λ p. absurd (omega arith);
      through_registered = λ p. absurd (omega arith);
    }
    ordered start_registration c = record {
      known = λ e. cc;
      through_connected = λ p. before (h.through_connected (omega arith));
      through_start = λ p. now;
      through_registered = λ p. absurd (omega arith);
    }
    ordered registered c = record {
      known = λ e. cc;
      through_connected = λ p. before (h.through_connected (omega arith));
      through_start = λ p. before (h.through_start (omega arith));
      through_registered = λ p. now;
    }
    ordered in_channel c = record {
      known = λ e. cc;
      through_connected = λ p. before (h.through_connected (omega arith));
      through_start = λ p. before (h.through_start (omega arith));
      through_registered = λ p. before (h.through_registered (omega arith));
    }
    ordered unknown_session_state_type c = absurd (omega arith)

-- A connection that starts disconnected and moves only as the server's table allows never leaves the
-- table's states, and by the time it is in a state it has been connected, has started its registration
-- and has been registered, as far as these states come before its own or are its own.
pub Leads-IsOrdered :
    {t : SessionStateType} (w : Leads server_states disconnected t) → IsOrdered t (trail w)
unfolding trail
Leads-IsOrdered here = record {
  known = λ e. cc;
  through_connected = λ p. absurd (omega arith);
  through_start = λ p. absurd (omega arith);
  through_registered = λ p. absurd (omega arith);
}
Leads-IsOrdered (move {s} t w e) = step-IsOrdered s t (trail w) e (Leads-IsOrdered w)

-- Whatever command the server's table allows in a state other than disconnected, the client's
-- table allows there too.
pub server-client_commands :
    (s : SessionStateType) (c : CommandType)
    → s ≢ disconnected
    → is_allowed_state_command server_states s c ≡ true
    → is_allowed_state_command client_states s c ≡ true
unfolding is_allowed_state_command
server-client_commands s c h e = ground arith
