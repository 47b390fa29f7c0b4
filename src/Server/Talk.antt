-- ===== src/Server/Talk.antt =====
-- server/src/command_handler.c: PRIVMSG, WHOIS, QUIT and unknown commands.
use irc_client_server.Base.{ℕ, not, Option, none, some, is_none, [], ◌∷◌}
use irc_client_server.Base.Int.{is_below}
use irc_client_server.Text.{Text}
use irc_client_server.Channel.{is_valid_channel_name}
use irc_client_server.Session.State.{Address}
use irc_client_server.Session.Tables.{
  find_user_in_hash_table, add_channel_to_ready_list, add_user_to_ready_list,
  remove_user_from_ready_list,
}
use irc_client_server.Session.Membership.{find_user_in_channel_users}
use irc_client_server.Session.Registration.{send_to_channel, leave_all_channels, unregister_user}
use irc_client_server.SessionState.{privmsg, whois, quit}
use irc_client_server.ResponseCode.{
  rpl_whoisuser, err_nosuchnick, err_nosuchchannel, err_notonchannel, err_unknowncommand,
}
use irc_client_server.Command.{CommandTokens, get_command_argument}
use irc_client_server.Server.State.{
  Environment, R, ◌>>=◌, ◌>>◌, pure, get, if_then, in_session, session_of, non_null, in_bounds,
  client_at,
}
use irc_client_server.Server.Connections.{remove_client}
use irc_client_server.Server.Delivery.{user_at, send_to_user}
use irc_client_server.Server.Replies.{
  respond, respond_with, not_registered, need_more_params, is_allowed, has_no_arguments, argument,
  user_of, forwarded,
}
use irc_client_server.Server.Channels.{channel_named, users_record}

abbrev pub user_named : Text → R (Option Address)
user_named nickname = get >>= (λ c. pure (find_user_in_hash_table (session_of c) nickname))

-- `<:nickname!username@hostname> PRIVMSG <target> <message>`
abbrev pub private_message : Option Address → CommandTokens → Text → R Text
private_message sender tokens target =
    forwarded sender (tokens.command ∷ some target ∷ []) (get_command_argument tokens 1)

module _ (env : Environment) where
  -- The part of `send_privmsg_to_channel` for a channel that exists.
  unfoldable pub talk_in_channel :
      ℕ → CommandTokens → Text → Address → Option Address → R (Unit {0})
  talk_in_channel i tokens name channel found = do
    client ← client_at i
    channel_users ← users_record channel
    sender ← non_null found
    member ← in_session (find_user_in_channel_users channel_users sender)
    if_then (is_none member)
        (respond env i err_notonchannel (some client.nickname ∷ some name ∷ []))
        (private_message (some sender) tokens name >>= (λ message.
          in_session (send_to_channel channel message)
          >> in_session (add_channel_to_ready_list channel)))

  unfoldable pub send_privmsg_to_channel : ℕ → CommandTokens → R (Unit {0})
  send_privmsg_to_channel i tokens = do
    client ← client_at i
    found ← user_of client
    name ← argument tokens 0
    found' ← channel_named name
    elim found' [
      | none ↦ respond env i err_nosuchchannel (some client.nickname ∷ some name ∷ [])
      | some channel ↦ talk_in_channel i tokens name channel found
    ]

  -- The ready list gets the sender, not the recipient.
  unfoldable pub talk_to_user : CommandTokens → Text → Option Address → Address → R (Unit {0})
  talk_to_user tokens name sender recipient = do
    message ← private_message sender tokens name
    send_to_user recipient message
    user ← non_null sender
    in_session (add_user_to_ready_list user)

  unfoldable pub send_privmsg_to_user : ℕ → CommandTokens → R (Unit {0})
  send_privmsg_to_user i tokens = do
    client ← client_at i
    sender ← user_of client
    name ← argument tokens 0
    recipient ← user_named name
    elim recipient [
      | none ↦ respond env i err_nosuchnick (some client.nickname ∷ some name ∷ [])
      | some user ↦ talk_to_user tokens name sender user
    ]

  unfoldable pub cmd_privmsg : ℕ → CommandTokens → R (Unit {0})
  cmd_privmsg i tokens = do
    client ← client_at i
    if_then (not (is_allowed client privmsg)) (not_registered env i) (
        if_then (is_below tokens.arg_count 2) (need_more_params env i client tokens) (
          argument tokens 0 >>= (λ name.
            if_then (is_valid_channel_name name) (send_privmsg_to_channel i tokens)
              (send_privmsg_to_user i tokens))))

  unfoldable pub describe_user : ℕ → Text → Option Address → R (Unit {0})
  describe_user i name none = do
    client ← client_at i
    respond env i err_nosuchnick (some client.nickname ∷ some name ∷ [])
  describe_user i name (some user) = do
    client ← client_at i
    u ← user_at user
    respond_with env i rpl_whoisuser
        (some client.nickname ∷ some name ∷ some u.username ∷ some u.hostname ∷ [])
        (some u.realname)

  unfoldable pub cmd_whois : ℕ → CommandTokens → R (Unit {0})
  cmd_whois i tokens = do
    client ← client_at i
    if_then (not (is_allowed client whois)) (not_registered env i) (
        if_then (has_no_arguments tokens) (need_more_params env i client tokens)
          (argument tokens 0 >>= (λ name. user_named name >>= describe_user i name)))

  -- The part of `cmd_quit` behind its guard. A client that is not registered has no user: a null
  -- pointer ends the process.
  unfoldable pub quit_server : ℕ → CommandTokens → R (Unit {0})
  quit_server i tokens = do
    client ← client_at i
    found ← user_of client
    message ← forwarded found (tokens.command ∷ []) (get_command_argument tokens 0)
    user ← non_null found
    in_session (leave_all_channels user message)
    in_session (remove_user_from_ready_list user)
    in_session (unregister_user user)
    client' ← client_at i
    fd ← in_bounds client'.fd
    remove_client fd

  unfoldable pub cmd_quit : ℕ → CommandTokens → R (Unit {0})
  cmd_quit i tokens = do
    client ← client_at i
    if_then (not (is_allowed client quit)) (not_registered env i) (quit_server i tokens)

  -- ":server 421 <command> :Unknown command"
  unfoldable pub cmd_unknown : ℕ → CommandTokens → R (Unit {0})
  cmd_unknown i tokens = respond env i err_unknowncommand (tokens.command ∷ [])
