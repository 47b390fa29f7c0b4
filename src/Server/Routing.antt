-- ===== src/Server/Routing.antt =====
-- A message for a connection, with its descriptor in front, through the queue of the server: what
-- tcp_server.c puts there and dispatcher.c takes from there.
use irc_client_server.Base.{
  ℕ, ◌+◌, ◌^◌, ◌<◌, lt→ltb, ◌==◌, if◌then◌else◌, ◌≡◌, refl, ap, ◌∙◌, some, List, [], ◌∷◌, ◌++◌,
  length, get_elem?, arith,
}
use irc_client_server.Text.{Text, codes, max_chars}
use irc_client_server.Text.Numbers.{str_to_uint}
use irc_client_server.Text.Numbers.RoundTrip.{str_to_uint-write_digits}
use irc_client_server.Text.Tokens.{tokenize_string}
use irc_client_server.Text.Tokens.Pairs.{HasNoBar, count_delimiters-pair, tokenize_string-pair}
use irc_client_server.Text.Scanning.{crlf}
use irc_client_server.Server.State.{
  Environment, Context, WriteResult, sent, broken_pipe, write_interrupted, write_error,
  nothing_sent, done, R, ◌>>=◌, when, skip, pure, in_bounds, non_null,
}
use irc_client_server.Server.Delivery.{
  with_descriptor, server_write, after_write, terminated_by_crlf,
}
use irc_client_server.Text.Endings.{is_terminated, terminate_string}
use irc_client_server.Event.{
  create_event, network_event, network_value, ne_client_disconnect, item_int, push_event_to_queue,
}
use irc_client_server.Server.Connections.{push_event, trigger_event_client_disconnect}
use irc_client_server.Server.Dispatch.{descriptor, send_server_message}
use irc_client_server.Server.Descriptors.{
  digits_of, digits_small, length-write_digits, write_digits-HasNoBar, written, with_descriptor-bar,
}

-- The context with an event for the end of a connection.
abbrev pub closing : Context → ℕ → Context
closing c fd = record c {
  event_manager =
      push_event_to_queue c.event_manager
        (create_event network_event (some (network_value ne_client_disconnect)) (item_int fd));
}

-- The bytes that a text is written as: with CRLF behind it, unless it counts as terminated.
abbrev pub on_the_wire : Text → Text
on_the_wire content = if is_terminated content crlf then content else content ++ crlf

-- What a write to a connection comes to: the bytes are there, or the connection is to be closed, or
-- nothing has happened.
abbrev pub written_to : Context → ℕ → Text → WriteResult → Context
written_to c fd bytes sent = record c { outbox = c.outbox ++ ((fd, bytes) ∷ []) }
written_to c fd bytes broken_pipe = closing c fd
written_to c fd bytes write_error = closing c fd
written_to c fd bytes write_interrupted = c
written_to c fd bytes nothing_sent = c

terminated_by_crlf-on_the_wire :
    (content : Text) → length content < 503 → terminated_by_crlf content ≡ on_the_wire content
unfolding terminate_string
terminated_by_crlf-on_the_wire content h =
    ap (λ b. if is_terminated content crlf then content else if b then content ++ crlf else [])
      (lt→ltb (length content + 2) (max_chars + 1) (omega (arith, h)))

server_write-written_to :
    (env : Environment) (fd : ℕ) (content : Text) (c : Context)
    → length content < 503
    → (server_write env fd content >>= (λ status. skip)) c
      ≡ done tt (written_to c fd (on_the_wire content) (env.write_string fd (on_the_wire content)))
unfolding server_write trigger_event_client_disconnect push_event
server_write-written_to env fd content c h =
    ap (λ out. (after_write env fd out (env.write_string fd out) >>= (λ status. skip)) c)
      (terminated_by_crlf-on_the_wire content h)
    ∙ by_result (on_the_wire content) (env.write_string fd (on_the_wire content))
  where
    by_result :
        (out : Text) (r : WriteResult)
        → (after_write env fd out r >>= (λ status. skip)) c ≡ done tt (written_to c fd out r)
    by_result out sent = refl
    by_result out broken_pipe = refl
    by_result out write_error = refl
    by_result out write_interrupted = refl
    by_result out nothing_sent = refl

abbrev paired : Text → Text → R (Text × Text)
paired fd message = pure (fd, message)

-- A text that is not empty, has fewer than 503 bytes and holds no bar, put behind a descriptor
-- below a thousand million as the messages of the server's queue are, is written when the message
-- is sent: to that descriptor, with CRLF behind it unless it counts as terminated. If the write
-- succeeds, these bytes are the next in the outbox; if the pipe is broken or there is an error,
-- an event for the end of that connection is pushed; if the write was interrupted or wrote
-- nothing, the context is as it was.
pub send_server_message-with_descriptor :
    (env : Environment) (fd : ℕ) (content : Text) (c : Context)
    → fd < 10 ^ 9
    → 0 < length content
    → length content < 503
    → HasNoBar content
    → send_server_message env (with_descriptor fd content) c
      ≡ done tt (written_to c fd (on_the_wire content) (env.write_string fd (on_the_wire content)))
unfolding send_server_message
send_server_message-with_descriptor env fd content c h n m k =
    ap (λ t. send_server_message env t c) (with_descriptor-bar fd content h n m)
    ∙ ap
        (λ count.
          when (count == 1)
            (routed (tokenize_string (written fd ++ (b'|' ∷ content)) 2 (codes "|")).0) c)
        (count_delimiters-pair (written fd) content no_bar k)
    ∙ ap (λ tokens. routed tokens c)
        (tokenize_string-pair (written fd) content no_bar
          (omega (arith, length-write_digits (digits_of fd) fd [], (digits_small fd h).0)) k n)
    ∙ ap
        (λ z.
          (in_bounds (descriptor z) >>= (λ n. server_write env n content >>= (λ status. skip))) c)
        (str_to_uint-write_digits fd h)
    ∙ server_write-written_to env fd content c m
  where
    no_bar : HasNoBar (written fd)
    no_bar = write_digits-HasNoBar (digits_of fd) fd [] tt

    routed : List Text → R (Unit {0})
    routed tokens =
        (non_null (get_elem? tokens 0)
          >>= (λ fd. non_null (get_elem? tokens 1) >>= (λ message. paired fd message)))
        >>= (λ p.
            in_bounds (descriptor (str_to_uint p.0))
            >>= (λ n. server_write env n p.1 >>= (λ status. skip)))
