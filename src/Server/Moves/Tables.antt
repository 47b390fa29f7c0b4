-- ===== src/Server/Moves/Tables.antt =====
-- Writes to the table of clients of server/src/tcp_server.c, and the states of the clients.
use irc_client_server.Base.{
  ℕ, zero, suc, ◌-◌, Bool, true, false, not, ◌⊎◌, inl, inr, ◌≡◌, refl, sym, ap, ◌∙◌, some_eq,
  Option, none, some, List, [], ◌∷◌, get_elem?, set,
}
use irc_client_server.Text.{Text}
use irc_client_server.SessionState.{
  SessionStateType, server_states, is_allowed_state_transition, disconnected,
}
use irc_client_server.PollManager.{find_fd_idx_in_hash_table, remove_fd_idx_from_hash_table}
use irc_client_server.Event.{NetworkEventType, ne_remove_poll_fd}
use irc_client_server.Client.{
  Client, HostIdentifierType, unknown_host_identifier, set_client_state_type, set_client_fd,
  set_client_identifier, set_client_identifier_type, set_client_port,
}
use irc_client_server.Server.State.{
  Context, R, bind_outcome, ◌>>=◌, ◌>>◌, when, get, in_bounds, client_at, put_client, put_server,
  change_client,
}
use irc_client_server.Server.Connections.{
  set_client_data, unset_client_data, push_event, move_client, change_count, drop_client,
  remove_client, is_server_empty,
}
use irc_client_server.Server.Moves.{
  Keeps, MayMove, Ends, Same, Moves, IsMove, state_in, state_at, then-Keeps, bind-before,
  bind-behind, when-MayMove, get-Keeps,
}

-- A write that keeps the state of the client, and one that moves it.
state_at-set_same :
    (xs : List Client) (i : ℕ) (a v : Client) (j : ℕ)
    → get_elem? xs i ≡ some a
    → v.state_type ≡ a.state_type
    → state_at (set xs i v) j ≡ state_at xs j
state_at-set_same [] i a v j e s = refl
state_at-set_same (x ∷ xs) zero a v zero e s = ap some s ∙ sym (ap state_in e)
state_at-set_same (x ∷ xs) zero a v (suc j) e s = refl
state_at-set_same (x ∷ xs) (suc i) a v zero e s = refl
state_at-set_same (x ∷ xs) (suc i) a v (suc j) e s = state_at-set_same xs i a v j e s

state_at-set_move :
    (xs : List Client) (i : ℕ) (a v : Client) (j : ℕ)
    → get_elem? xs i ≡ some a
    → is_allowed_state_transition server_states a.state_type v.state_type ≡ some true
    → (state_at (set xs i v) j ≡ state_at xs j) ⊎ IsMove (state_at xs j) (state_at (set xs i v) j)
state_at-set_move [] i a v j e s = inl refl
state_at-set_move (x ∷ xs) zero a v zero e s =
    inr (record {
      from = a.state_type;
      to = v.state_type;
      was = ap state_in e;
      is = refl;
      allowed = s;
    })
state_at-set_move (x ∷ xs) zero a v (suc j) e s = inl refl
state_at-set_move (x ∷ xs) (suc i) a v zero e s = inl refl
state_at-set_move (x ∷ xs) (suc i) a v (suc j) e s = state_at-set_move xs i a v j e s

-- An operation that starts with a read of a client.
pub read_client :
    {B : Type 0} (P : Context → Type 0) (i : ℕ) (c : Context) (k : Client → R B)
    → ((client : Client) → get_elem? c.tcp_server.clients i ≡ some client → Ends P (k client c))
    → Ends P ((client_at i >>= k) c)
read_client P i c k h = go (get_elem? c.tcp_server.clients i) h
  where
    go :
        (o : Option Client)
        → ((client : Client) → o ≡ some client → Ends P (k client c))
        → Ends P (bind_outcome (in_bounds o c) k)
    go none h = tt
    go (some client) h = h client refl

pub change_client-Keeps :
    (i : ℕ) (f : Client → Client)
    → ((client : Client) → (f client).state_type ≡ client.state_type)
    → Keeps (change_client i f)
unfolding change_client
change_client-Keeps i f h = record {
  run = λ c.
      read_client (Same c) i c (λ client. put_client i (f client))
        λ client e j. state_at-set_same c.tcp_server.clients i client (f client) j e (h client);
}

-- A setter of the state, where the table allows the step.
pub change_client-Moves :
    (i : ℕ) (s : SessionStateType) (c : Context)
    → ((client : Client)
        → get_elem? c.tcp_server.clients i ≡ some client
        → is_allowed_state_transition server_states client.state_type s ≡ some true)
    → Ends (Moves c) (change_client i (λ client. set_client_state_type client s) c)
unfolding change_client
change_client-Moves i s c h =
    read_client (Moves c) i c (λ client. put_client i (set_client_state_type client s))
      λ client e j.
        state_at-set_move c.tcp_server.clients i client (set_client_state_type client s) j e
          (h client e)

set_client_data-Keeps :
    (i : ℕ) (fd : Option ℕ) (identifier : Text) (t : HostIdentifierType) (port : Option ℕ)
    → Keeps (set_client_data i fd identifier t port)
unfolding set_client_data
set_client_data-Keeps i fd identifier t port =
    then-Keeps (change_client i (λ client. set_client_fd client fd)) _
      (change_client-Keeps i _ (λ client. refl))
      (then-Keeps (change_client i (λ client. set_client_identifier client identifier)) _
        (change_client-Keeps i _ (λ client. refl))
        (then-Keeps (change_client i (λ client. set_client_identifier_type client t)) _
          (change_client-Keeps i _ (λ client. refl))
          (change_client-Keeps i (λ client. set_client_port client port) (λ client. refl))))

push_event-Keeps : (t : NetworkEventType) (fd : ℕ) → Keeps (push_event t fd)
unfolding push_event
push_event-Keeps t fd = record { run = λ c j. refl }

change_count-Keeps : (f : ℕ → ℕ) → Keeps (change_count f)
change_count-Keeps f = record { run = λ c j. refl }

pub move_client-MayMove : (i : ℕ) (s : SessionStateType) → MayMove (move_client i s)
unfolding move_client
move_client-MayMove i s = record {
  run = λ c. read_client (Moves c) i c _ λ client e.
      decided c client e (is_allowed_state_transition server_states client.state_type s) refl;
}
  where
    decided :
        (c : Context) (client : Client)
        → get_elem? c.tcp_server.clients i ≡ some client
        → (o : Option Bool) → is_allowed_state_transition server_states client.state_type s ≡ o
        → Ends (Moves c) (
            (in_bounds o >>= (λ allowed.
                when allowed (change_client i (λ client. set_client_state_type client s))))
              c)
    decided c client e none a = tt
    decided c client e (some false) a = λ j. inl refl
    decided c client e (some true) a = change_client-Moves i s c λ client' e'.
        ap (λ t. is_allowed_state_transition server_states t s)
          (ap (λ x. x.state_type) (some_eq (sym e' ∙ e)))
        ∙ a

drop_client-MayMove : (fd : ℕ) → MayMove (drop_client fd)
unfolding drop_client unset_client_data
drop_client-MayMove fd = record {
  run = λ c. go c (find_fd_idx_in_hash_table c.tcp_server.fds_idx_map fd);
}
  where
    rest : (i : ℕ) → R (Unit {0})
    rest i = do
      set_client_data i none [] unknown_host_identifier none
      push_event ne_remove_poll_fd fd
      move_client i disconnected
      change_count (λ n. n - 1)

    rest-MayMove : (i : ℕ) → MayMove (rest i)
    rest-MayMove i =
        bind-before (set_client_data i none [] unknown_host_identifier none) _
          (set_client_data-Keeps i none [] unknown_host_identifier none)
          λ _.
            bind-before (push_event ne_remove_poll_fd fd) _ (push_event-Keeps ne_remove_poll_fd fd)
              λ _.
                bind-behind (move_client i disconnected) _ (move_client-MayMove i disconnected)
                  λ _. change_count-Keeps (λ n. n - 1)

    go :
        (c : Context) (o : Option ℕ)
        → Ends (Moves c) (
            (in_bounds o >>= (λ i.
                put_server (record c.tcp_server {
                  fds_idx_map = remove_fd_idx_from_hash_table c.tcp_server.fds_idx_map fd;
                })
                >> rest i))
              c)
    go c none = tt
    go c (some i) = (rest-MayMove i).run (record c {
      tcp_server = record c.tcp_server {
        fds_idx_map = remove_fd_idx_from_hash_table c.tcp_server.fds_idx_map fd;
      };
    })

pub remove_client-MayMove : (fd : ℕ) → MayMove (remove_client fd)
unfolding remove_client
remove_client-MayMove fd =
    bind-before get _ get-Keeps λ c.
      when-MayMove (not (is_server_empty c.tcp_server)) (drop_client fd) (drop_client-MayMove fd)
