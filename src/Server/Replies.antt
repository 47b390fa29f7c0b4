-- ===== src/Server/Replies.antt =====
-- server/src/command_handler.c: the replies that all handlers share. A handler builds an `IRCMessage`
-- of the response's code, some parameters and the response's message behind the server's name, and
-- queues it for the client.
use irc_client_server.Base.{ℕ, Bool, true, false, Option, none, some, List, [], ◌∷◌}
use irc_client_server.Base.Int.{is_equal}
use irc_client_server.Text.{Text, codes, max_chars}
use irc_client_server.Session.State.{Address}
use irc_client_server.Session.Tables.{find_user_in_hash_table}
use irc_client_server.SessionState.{CommandType, server_states, is_allowed_state_command}
use irc_client_server.ResponseCode.{
  ResponseType, get_response_code, get_response_message, err_notregistered, err_needmoreparams,
}
use irc_client_server.IrcMessage.{IrcMessage, create_irc_message}
use irc_client_server.Client.{Client}
use irc_client_server.Command.{CommandTokens, get_command_argument}
use irc_client_server.Server.State.{
  Environment, R, ◌>>=◌, pure, get, session_of, non_null, in_bounds,
}
use irc_client_server.Server.Delivery.{
  add_irc_message_to_queue, create_server_info, create_user_info, user_at,
}

-- The message that stands for a code.
abbrev pub message_of : Option Text → Option Text
message_of none = none
message_of (some code) = get_response_message code

module _ (env : Environment) where
  unfoldable pub response : ResponseType → List (Option Text) → Option Text → IrcMessage
  response t params text = record {
    body = get_response_code t ∷ params;
    suffix = text ∷ [];
    multi_word_suffix = true;
    message_prefix = some (create_server_info env.server_name);
  }

  -- A response with a text of its own.
  unfoldable pub respond_with : ℕ → ResponseType → List (Option Text) → Option Text → R (Unit {0})
  unfolding response
  respond_with i t params text = add_irc_message_to_queue i (response t params text)

  unfoldable pub respond : ℕ → ResponseType → List (Option Text) → R (Unit {0})
  unfolding respond_with
  respond i t params = respond_with i t params (message_of (get_response_code t))

  -- ":server 451 * :You have not registered"
  unfoldable pub not_registered : ℕ → R (Unit {0})
  unfolding respond
  not_registered i = respond i err_notregistered (some (codes "*") ∷ [])

  -- ":server 461 <nickname> <cmd> :Not enough parameters"
  unfoldable pub need_more_params : ℕ → Client → CommandTokens → R (Unit {0})
  unfolding respond
  need_more_params i client tokens =
      respond i err_needmoreparams (some client.nickname ∷ tokens.command ∷ [])

abbrev pub is_allowed : Client → CommandType → Bool
is_allowed client t = is_allowed_state_command server_states client.state_type t

abbrev pub has_no_arguments : CommandTokens → Bool
has_no_arguments tokens = is_equal tokens.arg_count 0

-- An argument that is read as a string: a null pointer ends the process.
abbrev pub argument : CommandTokens → ℕ → R Text
argument tokens i = non_null (get_command_argument tokens i)

-- `find_user_in_hash_table` for the client's nickname.
abbrev pub user_of : Client → R (Option Address)
user_of client = get >>= (λ c. pure (find_user_in_hash_table (session_of c) client.nickname))

-- The prefix of a message that is passed on: none for a null user.
unfoldable pub user_prefix : Option Address → R (Option (Text → ℕ → Text))
user_prefix none = pure none
user_prefix (some user) = user_at user >>= (λ u. pure (some (create_user_info u)))

-- `<:nickname!username@hostname> body suffix`
unfoldable pub forwarded : Option Address → List (Option Text) → Option Text → R Text
unfolding user_prefix
forwarded user body suffix = do
  prefix ← user_prefix user
  in_bounds (
      create_irc_message [] max_chars (record {
        body = body;
        suffix = suffix ∷ [];
        multi_word_suffix = false;
        message_prefix = prefix;
      }))
