-- ===== src/Server/Refusals.antt =====
-- The answers of server/src/command_handler.c to commands that the state of the client does not allow.
use irc_client_server.Base.{
  ℕ, ◌-◌, ◌<◌, ltb, if◌then◌else◌, lt→ltb, ltb→lt, not, Bool, true, false, ◌≡◌, refl, ap, ◌∙◌,
  Option, none, some, [], ◌∷◌, get_elem?, length, arith,
}
use irc_client_server.Text.{Text, codes, max_chars, safe_copy}
use irc_client_server.Text.Scanning.{crlf}
use irc_client_server.Queue.{enqueue}
use irc_client_server.SessionState.{
  CommandType, help, connect, disconnect, nick, user, join, part, privmsg, address, port, whois,
  quit, unknown_command_type, state_value,
}
use irc_client_server.ResponseCode.{get_response_code, err_notregistered}
use irc_client_server.IrcMessage.{create_irc_message, create_prefix, max_prefix}
use irc_client_server.IrcMessage.Parts.{
  create_prefix-word, create_prefix-empty, create_irc_message-some,
}
use irc_client_server.Text.Tokens.{or_empty}
use irc_client_server.Client.{Client}
use irc_client_server.Command.{CommandTokens}
use irc_client_server.Server.State.{
  Environment, Context, R, Outcome, done, bind_outcome, ◌>>=◌, client_at, in_bounds,
}
use irc_client_server.Server.Delivery.{
  create_server_info, with_descriptor, add_message_to_queue, add_irc_message_to_queue,
  enqueue_to_server_queue,
}
use irc_client_server.Server.Replies.{
  response, respond, respond_with, not_registered, is_allowed, message_of,
}
use irc_client_server.Server.Commands.{get_command_function}
use irc_client_server.Server.Nick.{cmd_nick, cmd_user}
use irc_client_server.Server.Channels.{cmd_join, cmd_part}
use irc_client_server.Server.Talk.{cmd_privmsg, cmd_whois, cmd_quit}

-- A read of a client of the table.
pub client_at-bind :
    {B : Type 0} (i : ℕ) (c : Context) (client : Client) (k : Client → R B)
    → get_elem? c.tcp_server.clients i ≡ some client
    → (client_at i >>= k) c ≡ k client c
client_at-bind i c client k e = ap (λ o. bind_outcome (in_bounds o c) k) e

pub if_true : {A : Type 0} (b : Bool) (x y : Outcome A) → b ≡ true → (if b then x else y) ≡ x
if_true b x y e = ap (λ b. if b then x else y) e

-- The context with a message for a connection in the server's queue.
abbrev pub queued : Context → ℕ → Text → Context
queued c fd content = record c {
  tcp_server = record c.tcp_server {
    out_queue = enqueue c.tcp_server.out_queue (with_descriptor fd content);
  };
}

-- A message for a connection without a user goes to the server's queue.
pub add_message_to_queue-queued :
    (i : ℕ) (content : Text) (c : Context) (client : Client) (fd : ℕ)
    → get_elem? c.tcp_server.clients i ≡ some client
    → client.fd ≡ some fd
    → state_value client.state_type < 3
    → add_message_to_queue i content c ≡ done tt (queued c fd content)
unfolding add_message_to_queue enqueue_to_server_queue
add_message_to_queue-queued i content c client fd e f low =
    client_at-bind i c client _ e
    ∙ if_true (ltb (state_value client.state_type) 3) _ _
        (lt→ltb (state_value client.state_type) 3 low)
    ∙ ap
        (λ o.
          bind_outcome (in_bounds o c) (λ fd. enqueue_to_server_queue (with_descriptor fd content)))
        f

-- The text of ":server 451 * :You have not registered".
abbrev pub not_registered_text : Environment → Text
not_registered_text env = or_empty (
    create_irc_message [] (max_chars - length crlf) (
      response env err_notregistered (some (codes "*") ∷ [])
        (message_of (get_response_code err_notregistered))))

-- The name of a server fits into the prefix.
create_server_info-short :
    (name : Option Text) → length (create_server_info name [] max_prefix) < max_prefix
unfolding create_server_info safe_copy
create_server_info-short none = omega arith
create_server_info-short (some name) =
    go (ltb (length name) max_prefix) (ltb→lt (length name) max_prefix)
  where
    go :
        (b : Bool)
        → (b ≡ true → length name < max_prefix)
        → let r : Bool × Text = if b then (true, name) else (false, []) in length r.1 < max_prefix
    go true h = h refl
    go false h = omega arith

server_prefix :
    (name : Option Text) → (p : Text) × (create_prefix (some (create_server_info name)) ≡ some p)
server_prefix name = go (create_server_info name [] max_prefix) refl (create_server_info-short name)
  where
    go :
        (p : Text)
        → create_server_info name [] max_prefix ≡ p
        → length p < max_prefix
        → (p : Text) × (create_prefix (some (create_server_info name)) ≡ some p)
    go [] e h = ([], create_prefix-empty (create_server_info name) e)
    go (c ∷ p) e h =
        (b':' ∷ c ∷ p, create_prefix-word (create_server_info name) (c ∷ p) e (omega arith) h)

not_registered-some :
    (env : Environment)
    → create_irc_message [] (max_chars - length crlf) (
        response env err_notregistered
          (some (codes "*") ∷ [])
          (message_of (get_response_code err_notregistered)))
      ≡ some (not_registered_text env)
unfolding response
not_registered-some env =
    create_irc_message-some (max_chars - length crlf)
      (response env err_notregistered (some (codes "*") ∷ [])
        (message_of (get_response_code err_notregistered)))
      prefix.0 prefix.1
  where
    prefix : (p : Text) × (create_prefix (some (create_server_info env.server_name)) ≡ some p)
    prefix = server_prefix env.server_name

not_registered-queued :
    (env : Environment) (i : ℕ) (c : Context) (client : Client) (fd : ℕ)
    → get_elem? c.tcp_server.clients i ≡ some client
    → client.fd ≡ some fd
    → state_value client.state_type < 2
    → not_registered env i c ≡ done tt (queued c fd (not_registered_text env))
unfolding not_registered respond respond_with add_irc_message_to_queue
not_registered-queued env i c client fd e f low =
    ap (λ o. bind_outcome (in_bounds o c) (add_message_to_queue i)) (not_registered-some env)
    ∙ add_message_to_queue-queued i (not_registered_text env) c client fd e f (omega (arith, low))

-- The commands that have a handler.
abbrev pub IsServed : CommandType → Type 0
IsServed help = ⊥
IsServed connect = ⊥
IsServed disconnect = ⊥
IsServed nick = Unit
IsServed user = Unit
IsServed join = Unit
IsServed part = Unit
IsServed privmsg = Unit
IsServed address = ⊥
IsServed port = ⊥
IsServed whois = Unit
IsServed quit = Unit
IsServed unknown_command_type = ⊥

module _ (env : Environment) (i : ℕ) (c : Context) (client : Client) (fd : ℕ)
    (e : get_elem? c.tcp_server.clients i ≡ some client) (f : client.fd ≡ some fd)
    (low : state_value client.state_type < 2) where
  -- A handler that tests the state first.
  refused :
      (t : CommandType) (k : Outcome (Unit {0}))
      → is_allowed client t ≡ false
      → (if not (is_allowed client t) then not_registered env i c else k)
        ≡ done tt (queued c fd (not_registered_text env))
  refused t k n =
      if_true (not (is_allowed client t)) _ _ (ap not n)
      ∙ not_registered-queued env i c client fd e f low

  -- One that tells those who have not chosen a nickname from the others.
  refused_early :
      (t : CommandType) (m k : Outcome (Unit {0}))
      → is_allowed client t ≡ false
      → (if not (is_allowed client t)
          then (if ltb (state_value client.state_type) 2 then not_registered env i c else m)
          else k)
        ≡ done tt (queued c fd (not_registered_text env))
  refused_early t m k n =
      if_true (not (is_allowed client t)) _ _ (ap not n)
      ∙ if_true (ltb (state_value client.state_type) 2) _ _
          (lt→ltb (state_value client.state_type) 2 low)
      ∙ not_registered-queued env i c client fd e f low

  -- A command that the server serves, from a connected client that has not chosen a nickname yet
  -- and whose state does not allow the command, is answered with ERR_NOTREGISTERED, queued for
  -- that connection in the queue of the server, and changes nothing else.
  pub get_command_function-refused :
      (t : CommandType) (tokens : CommandTokens)
      → IsServed t
      → is_allowed client t ≡ false
      → get_command_function env t i tokens c ≡ done tt (queued c fd (not_registered_text env))
  unfolding get_command_function cmd_nick cmd_user cmd_join cmd_part cmd_privmsg cmd_whois cmd_quit
  get_command_function-refused help tokens served n = elim served [ ]
  get_command_function-refused connect tokens served n = elim served [ ]
  get_command_function-refused disconnect tokens served n = elim served [ ]
  get_command_function-refused nick tokens served n =
      client_at-bind i c client _ e ∙ refused nick _ n
  get_command_function-refused user tokens served n =
      client_at-bind i c client _ e ∙ refused_early user _ _ n
  get_command_function-refused join tokens served n =
      client_at-bind i c client _ e ∙ refused join _ n
  get_command_function-refused part tokens served n =
      client_at-bind i c client _ e ∙ refused_early part _ _ n
  get_command_function-refused privmsg tokens served n =
      client_at-bind i c client _ e ∙ refused privmsg _ n
  get_command_function-refused address tokens served n = elim served [ ]
  get_command_function-refused port tokens served n = elim served [ ]
  get_command_function-refused whois tokens served n =
      client_at-bind i c client _ e ∙ refused whois _ n
  get_command_function-refused quit tokens served n =
      client_at-bind i c client _ e ∙ refused quit _ n
  get_command_function-refused unknown_command_type tokens served n = elim served [ ]
