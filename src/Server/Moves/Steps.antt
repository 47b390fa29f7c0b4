-- ===== src/Server/Moves/Steps.antt =====
-- Operations that may move one client to one state, where the table of states allows it from the state
-- that the client is in.
use irc_client_server.Base.{
  ℕ, ◌==◌, ==_iff, ◌≡◌, refl, sym, ap, ◌∙◌, subst, Bool, true, false, Bool-cases, ◌⊎◌, inl, inr,
  some_eq, some, arith,
}
use irc_client_server.SessionState.{
  SessionStateType, disconnected, connected, start_registration, registered, in_channel,
  unknown_session_state_type, state_value, server_states, is_allowed_state_transition,
}
use irc_client_server.Client.{Client, set_client_state_type}
use irc_client_server.Server.State.{
  Context, R, ◌>>=◌, ◌>>◌, when, if_then, skip, client_at, change_client,
}
use irc_client_server.Server.Moves.{
  Keeps, MayMove, Ends, Same, Moves, state_in, state_at, bind_at, weaken, Same-Moves, Moves-Same,
  Keeps-MayMove, skip-Keeps,
}
use irc_client_server.Server.Moves.Tables.{read_client, change_client-Moves}

-- The client at a position may take the step to a state.
abbrev pub CanMove : Context → ℕ → SessionStateType → Type 0
CanMove c i s =
    (x : SessionStateType)
    → state_at c.tcp_server.clients i ≡ some x
    → is_allowed_state_transition server_states x s ≡ some true

pub record MovesTo {A : Type 0} (i : ℕ) (s : SessionStateType) (m : R A) : Type 0 where
  pub run : (c : Context) → CanMove c i s → Ends (Moves c) (m c)

module _ (i : ℕ) (s : SessionStateType) where
  pub change-MovesTo : MovesTo i s (change_client i (λ client. set_client_state_type client s))
  change-MovesTo = record {
    run = λ c can. change_client-Moves i s c λ client e. can client.state_type (ap state_in e);
  }

  pub Keeps-MovesTo : {A : Type 0} (m : R A) → Keeps m → MovesTo i s m
  Keeps-MovesTo m h = record { run = λ c can. (Keeps-MayMove m h).run c }

  pub before-MovesTo :
      {A B : Type 0} (m : R A) (f : A → R B)
      → Keeps m
      → ((a : A) → MovesTo i s (f a))
      → MovesTo i s (m >>= f)
  before-MovesTo m f h k = record {
    run = λ c can. bind_at (Same c) (Moves c) (m c) f (h.run c) λ a c' same.
        weaken (Moves c') (Moves c) (f a c') (λ c''. Same-Moves c c' c'' same)
          ((k a).run c' (λ x e. can x (sym (same i) ∙ e)));
  }

  pub then-before-MovesTo :
      {A B : Type 0} (m : R A) (k : R B) → Keeps m → MovesTo i s k → MovesTo i s (m >> k)
  then-before-MovesTo m k h h' = before-MovesTo m (λ _. k) h (λ _. h')

  pub behind-MovesTo :
      {A B : Type 0} (m : R A) (f : A → R B)
      → MovesTo i s m
      → ((a : A) → Keeps (f a))
      → MovesTo i s (m >>= f)
  behind-MovesTo m f h k = record {
    run = λ c can. bind_at (Moves c) (Moves c) (m c) f (h.run c can) λ a c' moved.
        weaken (Same c') (Moves c) (f a c') (λ c''. Moves-Same c c' c'' moved) ((k a).run c');
  }

  pub when-MovesTo : (b : Bool) (m : R (Unit {0})) → MovesTo i s m → MovesTo i s (when b m)
  when-MovesTo true m h = h
  when-MovesTo false m h = Keeps-MovesTo skip skip-Keeps

  pub if-MovesTo :
      {A : Type 0} (b : Bool) (m k : R A)
      → MovesTo i s m
      → MovesTo i s k
      → MovesTo i s (if_then b m k)
  if-MovesTo true m k h h' = h
  if-MovesTo false m k h h' = h'

  -- The client is read, and what follows moves it only if the step is allowed.
  pub read-MayMove :
      {B : Type 0} (k : Client → R B)
      → ((client : Client)
          → MayMove (k client)
            ⊎ ((is_allowed_state_transition server_states client.state_type s ≡ some true)
                × MovesTo i s (k client)))
      → MayMove (client_at i >>= k)
  read-MayMove k h = record {
    run = λ c. read_client (Moves c) i c k λ client e. elim (h client) [
      | inl m ↦ m.run c
      | inr (allowed, m) ↦ m.run c λ x f.
          ap (λ t. is_allowed_state_transition server_states t s) (some_eq (sym f ∙ ap state_in e))
          ∙ allowed
    ];
  }

  -- A test of the state in front of a step from it.
  pub tested :
      {B : Type 0} (client : Client) (n : ℕ) (m : R (Unit {0})) (k : R B)
      → ((x : SessionStateType)
          → state_value x ≡ n
          → is_allowed_state_transition server_states x s ≡ some true)
      → MovesTo i s m
      → Keeps k
      → MayMove (when (state_value client.state_type == n) m >> k)
        ⊎ ((is_allowed_state_transition server_states client.state_type s ≡ some true)
            × MovesTo i s (when (state_value client.state_type == n) m >> k))
  tested client n m k from h rest = elim (Bool-cases (state_value client.state_type == n)) [
    | inl t ↦ inr (
      from client.state_type ((==_iff (state_value client.state_type) n).0 t),
      behind-MovesTo _ (λ _. k) (when-MovesTo (state_value client.state_type == n) m h) (λ _. rest),
    )
    | inr f ↦ inl (subst (λ b. MayMove (when b m >> k)) (sym f) (Keeps-MayMove k rest))
  ]

  -- The same with nothing behind it.
  pub tested_last :
      (client : Client) (n : ℕ) (m : R (Unit {0}))
      → ((x : SessionStateType)
          → state_value x ≡ n
          → is_allowed_state_transition server_states x s ≡ some true)
      → MovesTo i s m
      → MayMove (when (state_value client.state_type == n) m)
        ⊎ ((is_allowed_state_transition server_states client.state_type s ≡ some true)
            × MovesTo i s (when (state_value client.state_type == n) m))
  tested_last client n m from h = elim (Bool-cases (state_value client.state_type == n)) [
    | inl t ↦ inr (
      from client.state_type ((==_iff (state_value client.state_type) n).0 t),
      when-MovesTo (state_value client.state_type == n) m h,
    )
    | inr f ↦ inl (subst (λ b. MayMove (when b m)) (sym f) (Keeps-MayMove skip skip-Keeps))
  ]

-- The states by their values.
pub from_connected :
    (x : SessionStateType)
    → state_value x ≡ 1
    → is_allowed_state_transition server_states x start_registration ≡ some true
unfolding is_allowed_state_transition
from_connected disconnected e = absurd (omega arith)
from_connected connected e = refl
from_connected start_registration e = absurd (omega arith)
from_connected registered e = absurd (omega arith)
from_connected in_channel e = absurd (omega arith)
from_connected unknown_session_state_type e = absurd (omega arith)

pub from_registered :
    (x : SessionStateType)
    → state_value x ≡ 3
    → is_allowed_state_transition server_states x in_channel ≡ some true
unfolding is_allowed_state_transition
from_registered disconnected e = absurd (omega arith)
from_registered connected e = absurd (omega arith)
from_registered start_registration e = absurd (omega arith)
from_registered registered e = refl
from_registered in_channel e = absurd (omega arith)
from_registered unknown_session_state_type e = absurd (omega arith)

pub from_in_channel :
    (x : SessionStateType)
    → state_value x ≡ 4
    → is_allowed_state_transition server_states x registered ≡ some true
unfolding is_allowed_state_transition
from_in_channel disconnected e = absurd (omega arith)
from_in_channel connected e = absurd (omega arith)
from_in_channel start_registration e = absurd (omega arith)
from_in_channel registered e = absurd (omega arith)
from_in_channel in_channel e = refl
from_in_channel unknown_session_state_type e = absurd (omega arith)
