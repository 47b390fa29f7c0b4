-- ===== src/Server/Moves.antt =====
-- What the functions of server/src do to the states of the clients: the relation between the tables
-- before and after, and its rules for the monad.
pub mod Tables
pub mod Quiet
pub mod Handlers
pub mod Steps
pub mod Registration
pub mod Commands
use irc_client_server.Base.{
  ℕ, Bool, true, false, ◌⊎◌, inl, inr, ◌≡◌, refl, sym, ap, ◌∙◌, subst, Option, none, some, List, [],
  ◌∷◌, get_elem?,
}
use irc_client_server.SessionState.{SessionStateType, server_states, is_allowed_state_transition}
use irc_client_server.Session.State.{Run, ok, failed, fault, M}
use irc_client_server.Client.{Client}
use irc_client_server.Server.State.{
  Context, R, Outcome, done, aborted, exited, crashed, bind_outcome, ◌>>=◌, ◌>>◌, if_then, when,
  skip, pure, get, non_null, in_bounds, client_at, in_session, lift_run, for_each,
}

abbrev pub state_in : Option Client → Option SessionStateType
state_in none = none
state_in (some client) = some client.state_type

-- The state of the client at a position.
abbrev pub state_at : List Client → ℕ → Option SessionStateType
state_at clients j = state_in (get_elem? clients j)

-- The table of the server allows the step.
pub record IsMove (before after : Option SessionStateType) : Type 0 where
  pub from : SessionStateType
  pub to : SessionStateType
  pub was : before ≡ some from
  pub is : after ≡ some to
  pub allowed : is_allowed_state_transition server_states from to ≡ some true

abbrev pub Same : Context → Context → Type 0
Same c c' = (j : ℕ) → state_at c'.tcp_server.clients j ≡ state_at c.tcp_server.clients j

-- Every client keeps its state or makes one step.
abbrev pub Moves : Context → Context → Type 0
Moves c c' =
    (j : ℕ)
    → (state_at c'.tcp_server.clients j ≡ state_at c.tcp_server.clients j)
      ⊎ IsMove (state_at c.tcp_server.clients j) (state_at c'.tcp_server.clients j)

-- A predicate on the context that an operation ends with.
abbrev pub Ends : {A : Type 0} → (Context → Type 0) → Outcome A → Type 0
Ends P (done a c) = P c
Ends P aborted = Unit
Ends P exited = Unit
Ends P crashed = Unit

pub record Keeps {A : Type 0} (m : R A) : Type 0 where
  pub run : (c : Context) → Ends (Same c) (m c)

pub record MayMove {A : Type 0} (m : R A) : Type 0 where
  pub run : (c : Context) → Ends (Moves c) (m c)

pub bind_at :
    {A B : Type 0} (P Q : Context → Type 0) (r : Outcome A) (f : A → R B)
    → Ends P r
    → ((a : A) (c : Context) → P c → Ends Q (f a c))
    → Ends Q (bind_outcome r f)
bind_at P Q (done a c) f h k = k a c h
bind_at P Q aborted f h k = tt
bind_at P Q exited f h k = tt
bind_at P Q crashed f h k = tt

pub weaken :
    {A : Type 0} (P Q : Context → Type 0) (r : Outcome A)
    → ((c : Context) → P c → Q c)
    → Ends P r
    → Ends Q r
weaken P Q (done a c) f h = f c h
weaken P Q aborted f h = tt
weaken P Q exited f h = tt
weaken P Q crashed f h = tt

pub Same-trans : (c c' c'' : Context) → Same c c' → Same c' c'' → Same c c''
Same-trans c c' c'' h k j = k j ∙ h j

pub Same-Moves : (c c' c'' : Context) → Same c c' → Moves c' c'' → Moves c c''
Same-Moves c c' c'' h k j = elim (k j) [
  | inl e ↦ inl (e ∙ h j)
  | inr m ↦
      inr (record {
        from = m.from;
        to = m.to;
        was = sym (h j) ∙ m.was;
        is = m.is;
        allowed = m.allowed;
      })
]

pub Moves-Same : (c c' c'' : Context) → Moves c c' → Same c' c'' → Moves c c''
Moves-Same c c' c'' h k j = elim (h j) [
  | inl e ↦ inl (k j ∙ e)
  | inr m ↦
      inr (record { from = m.from; to = m.to; was = m.was; is = k j ∙ m.is; allowed = m.allowed })
]

pub bind-Keeps :
    {A B : Type 0} (m : R A) (f : A → R B) → Keeps m → ((a : A) → Keeps (f a)) → Keeps (m >>= f)
bind-Keeps m f h k = record {
  run = λ c.
      bind_at (Same c) (Same c) (m c) f (h.run c)
        λ a c' s. weaken (Same c') (Same c) (f a c') (λ c''. Same-trans c c' c'' s) ((k a).run c');
}

pub then-Keeps : {A B : Type 0} (m : R A) (k : R B) → Keeps m → Keeps k → Keeps (m >> k)
then-Keeps m k h h' = bind-Keeps m (λ _. k) h (λ a. h')

-- Quiet operations before a step, and behind it.
pub bind-before :
    {A B : Type 0} (m : R A) (f : A → R B) → Keeps m → ((a : A) → MayMove (f a)) → MayMove (m >>= f)
bind-before m f h k = record {
  run = λ c.
      bind_at (Same c) (Moves c) (m c) f (h.run c) λ a c' s.
        weaken (Moves c') (Moves c) (f a c') (λ c''. Same-Moves c c' c'' s) ((k a).run c');
}

pub then-before : {A B : Type 0} (m : R A) (k : R B) → Keeps m → MayMove k → MayMove (m >> k)
then-before m k h h' = bind-before m (λ _. k) h (λ _. h')

pub bind-behind :
    {A B : Type 0} (m : R A) (f : A → R B) → MayMove m → ((a : A) → Keeps (f a)) → MayMove (m >>= f)
bind-behind m f h k = record {
  run = λ c.
      bind_at (Moves c) (Moves c) (m c) f (h.run c)
        λ a c' s. weaken (Same c') (Moves c) (f a c') (λ c''. Moves-Same c c' c'' s) ((k a).run c');
}

pub Keeps-MayMove : {A : Type 0} (m : R A) → Keeps m → MayMove m
Keeps-MayMove m h = record {
  run = λ c. weaken (Same c) (Moves c) (m c) (λ c' s j. inl (s j)) (h.run c);
}

pub if-Keeps : {A : Type 0} (b : Bool) (m k : R A) → Keeps m → Keeps k → Keeps (if_then b m k)
if-Keeps true m k h h' = h
if-Keeps false m k h h' = h'

pub if-MayMove :
    {A : Type 0} (b : Bool) (m k : R A) → MayMove m → MayMove k → MayMove (if_then b m k)
if-MayMove true m k h h' = h
if-MayMove false m k h h' = h'

pub when-Keeps : (b : Bool) (m : R (Unit {0})) → Keeps m → Keeps (when b m)
when-Keeps true m h = h
when-Keeps false m h = record { run = λ c j. refl }

pub when-MayMove : (b : Bool) (m : R (Unit {0})) → MayMove m → MayMove (when b m)
when-MayMove true m h = h
when-MayMove false m h = record { run = λ c j. inl refl }

pub option-Keeps :
    {A B : Type 0} (o : Option A) (m : R B) (f : A → R B)
    → Keeps m
    → ((a : A) → Keeps (f a))
    → Keeps (elim o [ none ↦ m | some a ↦ f a ])
option-Keeps none m f h k = h
option-Keeps (some a) m f h k = k a

pub skip-Keeps : Keeps skip
skip-Keeps = record { run = λ c j. refl }

pub pure-Keeps : {A : Type 0} (a : A) → Keeps (pure a)
pure-Keeps a = record { run = λ c j. refl }

pub get-Keeps : Keeps get
get-Keeps = record { run = λ c j. refl }

pub non_null-Keeps : {A : Type 0} (o : Option A) → Keeps (non_null o)
non_null-Keeps none = record { run = λ c. tt }
non_null-Keeps (some a) = record { run = λ c j. refl }

pub in_bounds-Keeps : {A : Type 0} (o : Option A) → Keeps (in_bounds o)
in_bounds-Keeps none = record { run = λ c. tt }
in_bounds-Keeps (some a) = record { run = λ c j. refl }

pub client_at-Keeps : (i : ℕ) → Keeps (client_at i)
client_at-Keeps i = record { run = λ c. (in_bounds-Keeps (get_elem? c.tcp_server.clients i)).run c }

-- The session is apart from the table of clients.
pub in_session-Keeps : {A : Type 0} (m : M A) → Keeps (in_session m)
in_session-Keeps {A} m = record { run = λ c. go c (m c.tcp_server.session) }
  where
    go : (c : Context) (r : Run A) → Ends (Same c) (lift_run c r)
    go c (ok a s) = λ j. refl
    go c failed = tt
    go c fault = tt

pub for_each-Keeps :
    {A : Type 0} (xs : List A) (f : A → R (Unit {0}))
    → ((a : A) → Keeps (f a))
    → Keeps (for_each xs f)
unfolding for_each
for_each-Keeps [] f h = skip-Keeps
for_each-Keeps (x ∷ xs) f h = then-Keeps (f x) (for_each xs f) (h x) (for_each-Keeps xs f h)

pub ruleset keeps_rules = (
  bind-Keeps, then-Keeps, if-Keeps, when-Keeps, option-Keeps, skip-Keeps, pure-Keeps, get-Keeps,
  non_null-Keeps, in_bounds-Keeps, client_at-Keeps, in_session-Keeps, for_each-Keeps,
)
