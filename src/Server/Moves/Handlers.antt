-- ===== src/Server/Moves/Handlers.antt =====
-- The handlers of server/src/command_handler.c, and parts of handlers, that leave the states of all
-- clients alone.
use irc_client_server.Base.{ℕ, Option, none, some, [], ◌∷◌}
use irc_client_server.Text.{Text}
use irc_client_server.Session.State.{Address}
use irc_client_server.Session.Membership.{find_user_channels}
use irc_client_server.Command.{CommandTokens}
use irc_client_server.Server.State.{Environment, Context, R, skip, session_of}
use irc_client_server.ResponseCode.{err_nosuchchannel, err_nosuchnick}
use irc_client_server.Server.Replies.{respond}
use irc_client_server.Server.Nick.{announce_nickname, handle_nickname_change}
use irc_client_server.Server.Channels.{add_topic_message_to_queue, send_channel_join_messages}
use irc_client_server.Server.Talk.{
  talk_in_channel, send_privmsg_to_channel, talk_to_user, send_privmsg_to_user, cmd_privmsg,
  describe_user, cmd_whois, cmd_unknown,
}
use irc_client_server.Server.Moves.{Keeps}
use irc_client_server.Server.Moves.Quiet.{quiet_rules}

announce_nickname-Keeps :
    (user_channels old copy : Address) (tokens : CommandTokens)
    → Keeps (announce_nickname user_channels old copy tokens)
unfolding announce_nickname
announce_nickname-Keeps user_channels old copy tokens = search quiet_rules depth 12 fits 3000

module _ (env : Environment) where
  add_topic_message_to_queue-Keeps :
      (i : ℕ) (channel : Address) (tokens : CommandTokens)
      → Keeps (add_topic_message_to_queue env i channel tokens)
  unfolding add_topic_message_to_queue
  add_topic_message_to_queue-Keeps i channel tokens = search quiet_rules depth 12 fits 3000

  pub send_channel_join_messages-Keeps :
      (i : ℕ) (tokens : CommandTokens) → Keeps (send_channel_join_messages env i tokens)
  unfolding send_channel_join_messages
  send_channel_join_messages-Keeps i tokens =
      search (quiet_rules, add_topic_message_to_queue-Keeps) depth 30 fits 6000

  pub cmd_unknown-Keeps : (i : ℕ) (tokens : CommandTokens) → Keeps (cmd_unknown env i tokens)
  unfolding cmd_unknown
  cmd_unknown-Keeps i tokens = search quiet_rules

  describe_user-Keeps :
      (i : ℕ) (name : Text) (o : Option Address) → Keeps (describe_user env i name o)
  unfolding describe_user
  describe_user-Keeps i name none = search quiet_rules depth 12 fits 3000
  describe_user-Keeps i name (some found) = search quiet_rules depth 12 fits 3000

  pub cmd_whois-Keeps : (i : ℕ) (tokens : CommandTokens) → Keeps (cmd_whois env i tokens)
  unfolding cmd_whois
  cmd_whois-Keeps i tokens = search (quiet_rules, describe_user-Keeps) depth 20 fits 5000

  talk_to_user-Keeps :
      (tokens : CommandTokens) (name : Text) (sender : Option Address) (recipient : Address)
      → Keeps (talk_to_user env tokens name sender recipient)
  unfolding talk_to_user
  talk_to_user-Keeps tokens name sender recipient = search quiet_rules depth 20 fits 5000

  talk_in_channel-Keeps :
      (i : ℕ) (tokens : CommandTokens) (name : Text) (channel : Address) (found : Option Address)
      → Keeps (talk_in_channel env i tokens name channel found)
  unfolding talk_in_channel
  talk_in_channel-Keeps i tokens name channel found = search quiet_rules depth 20 fits 5000

  named_channel-Keeps :
      (i : ℕ) (tokens : CommandTokens) (name : Text) (nickname : Text) (found o : Option Address)
      → Keeps (elim o as (λ x. R (Unit {0})) [
        | none ↦ respond env i err_nosuchchannel (some nickname ∷ some name ∷ [])
        | some channel ↦ talk_in_channel env i tokens name channel found
      ])
  named_channel-Keeps i tokens name nickname found none = search quiet_rules
  named_channel-Keeps i tokens name nickname found (some channel) = search talk_in_channel-Keeps

  send_privmsg_to_channel-Keeps :
      (i : ℕ) (tokens : CommandTokens) → Keeps (send_privmsg_to_channel env i tokens)
  unfolding send_privmsg_to_channel
  send_privmsg_to_channel-Keeps i tokens =
      search (quiet_rules, named_channel-Keeps) depth 20 fits 5000

  named_user-Keeps :
      (i : ℕ) (tokens : CommandTokens) (name : Text) (nickname : Text) (sender o : Option Address)
      → Keeps (elim o as (λ x. R (Unit {0})) [
        | none ↦ respond env i err_nosuchnick (some nickname ∷ some name ∷ [])
        | some found ↦ talk_to_user env tokens name sender found
      ])
  named_user-Keeps i tokens name nickname sender none = search quiet_rules
  named_user-Keeps i tokens name nickname sender (some found) = search talk_to_user-Keeps

  send_privmsg_to_user-Keeps :
      (i : ℕ) (tokens : CommandTokens) → Keeps (send_privmsg_to_user env i tokens)
  unfolding send_privmsg_to_user
  send_privmsg_to_user-Keeps i tokens = search (quiet_rules, named_user-Keeps) depth 20 fits 5000

  pub cmd_privmsg-Keeps : (i : ℕ) (tokens : CommandTokens) → Keeps (cmd_privmsg env i tokens)
  unfolding cmd_privmsg
  cmd_privmsg-Keeps i tokens =
      search (quiet_rules, send_privmsg_to_channel-Keeps, send_privmsg_to_user-Keeps) depth 20 fits
        5000

  announce_if-Keeps :
      (c : Context) (old copy : Address) (tokens : CommandTokens)
      → Keeps (elim (find_user_channels (session_of c) old) as (λ x. R (Unit {0})) [
        | none ↦ skip
        | some user_channels ↦ announce_nickname user_channels old copy tokens
      ])
  announce_if-Keeps c old copy tokens = go (find_user_channels (session_of c) old)
    where
      go :
          (o : Option Address)
          → Keeps (elim o as (λ x. R (Unit {0})) [
            | none ↦ skip
            | some user_channels ↦ announce_nickname user_channels old copy tokens
          ])
      go none = search quiet_rules
      go (some user_channels) = announce_nickname-Keeps user_channels old copy tokens

  pub handle_nickname_change-Keeps :
      (i : ℕ) (tokens : CommandTokens) → Keeps (handle_nickname_change env i tokens)
  unfolding handle_nickname_change
  handle_nickname_change-Keeps i tokens = search (quiet_rules, announce_if-Keeps) depth 20 fits 5000
