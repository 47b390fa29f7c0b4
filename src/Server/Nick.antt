-- ===== src/Server/Nick.antt =====
-- server/src/command_handler.c: NICK and USER.
use irc_client_server.Base.{
  ℕ, ◌+◌, ltb, ◌==◌, if◌then◌else◌, not, ◌||◌, none, some, is_none, List, [], ◌∷◌, length, drop,
}
use irc_client_server.Base.Int.{is_below}
use irc_client_server.Text.{Text, codes, max_nickname_len}
use irc_client_server.Text.Messages.{find_delimiter}
use irc_client_server.Text.Tokens.{or_empty}
use irc_client_server.User.{User, create_user, copy_user, set_user_nickname, is_valid_user_name}
use irc_client_server.Session.State.{Address, deref, update}
use irc_client_server.Session.Tables.{
  find_user_in_hash_table, change_user_in_hash_table, add_channel_to_ready_list,
}
use irc_client_server.Session.Membership.{
  find_user_channels, change_user_in_user_channels, change_user_in_channel_users,
}
use irc_client_server.Session.Registration.{register_user, send_to_channel}
use irc_client_server.SessionState.{state_value, start_registration, registered, nick, user}
use irc_client_server.ResponseCode.{
  rpl_welcome, err_nonicknamegiven, err_erroneusnickname, err_nicknameinuse, err_alreadyregistred,
}
use irc_client_server.Client.{
  Client, set_client_nickname, set_client_state_type, host_identifier_value,
}
use irc_client_server.Command.{CommandTokens, get_command_argument}
use irc_client_server.Server.State.{
  Environment, R, ◌>>=◌, ◌>>◌, pure, get, skip, when, if_then, in_session, session_of, non_null,
  in_bounds, client_at, change_client, for_each, done, with_session,
}
use irc_client_server.Server.Delivery.{user_at}
use irc_client_server.Server.Replies.{
  respond, not_registered, need_more_params, is_allowed, has_no_arguments, argument, user_of,
  forwarded,
}

-- A new object on the heap of the session.
unfoldable pub allocate_user : User → R Address
allocate_user u c =
    let s = session_of c in
    done s.next_address (
      with_session c (record s {
        next_address = s.next_address + 1;
        live_users = update s.live_users s.next_address (some u);
      }))

abbrev pub with_live_list : Address → R (List Address)
with_live_list user_channels =
    in_session (deref (λ s. s.live_user_channels) user_channels) >>= (λ m. pure m.list.nodes)

-- The part of `handle_nickname_change` for a user with a record of channels.
unfoldable pub announce_nickname : Address → Address → Address → CommandTokens → R (Unit {0})
announce_nickname user_channels old_user user_copy tokens = do
  message ← forwarded (some old_user) (tokens.command ∷ []) (get_command_argument tokens 0)
  channels ← with_live_list user_channels
  for_each channels (λ channel. in_session (send_to_channel channel message))
  for_each channels (λ channel. in_session (add_channel_to_ready_list channel))
  in_session (change_user_in_user_channels user_channels user_copy)
  c ← get
  for_each (session_of c).channel_users_ll.nodes
      (λ channel_users. in_session (change_user_in_channel_users channel_users user_copy))
  in_session (change_user_in_hash_table old_user user_copy)

module _ (env : Environment) where
  unfoldable pub handle_nickname_change : ℕ → CommandTokens → R (Unit {0})
  handle_nickname_change i tokens = do
    client ← client_at i
    found ← user_of client
    old_user ← non_null found
    u ← user_at old_user
    nickname ← argument tokens 0
    user_copy ← allocate_user (set_user_nickname (copy_user env.garbage u) nickname)
    c ← get
    elim (find_user_channels (session_of c) old_user) [
      | none ↦ skip
      | some user_channels ↦ announce_nickname user_channels old_user user_copy tokens
    ]

  -- The part of `cmd_nick` for a nickname that is valid and not in use.
  unfoldable pub accept_nickname : ℕ → CommandTokens → Text → R (Unit {0})
  accept_nickname i tokens nickname = do
    client ← client_at i
    when (state_value client.state_type == 1)
        (change_client i (λ client. set_client_state_type client start_registration))
    client' ← client_at i
    when (not (ltb (state_value client'.state_type) 3)) (handle_nickname_change i tokens)
    change_client i (λ client. set_client_nickname client nickname)

  unfoldable pub choose_nickname : ℕ → CommandTokens → R (Unit {0})
  choose_nickname i tokens = do
    nickname ← argument tokens 0
    c ← get
    if_then (ltb max_nickname_len (length nickname) || not (is_valid_user_name nickname))
        (respond env i err_erroneusnickname (some nickname ∷ []))
        (if_then (not (is_none (find_user_in_hash_table (session_of c) nickname)))
          (respond env i err_nicknameinuse (some nickname ∷ []))
          (accept_nickname i tokens nickname))

  unfoldable pub cmd_nick : ℕ → CommandTokens → R (Unit {0})
  cmd_nick i tokens = do
    client ← client_at i
    if_then (not (is_allowed client nick)) (not_registered env i) (
        if_then (has_no_arguments tokens)
          (respond env i err_nonicknamegiven (some (codes "*") ∷ [])) (choose_nickname i tokens))

  -- The text behind the colon; the first byte is skipped wherever the colon stands.
  abbrev pub real_name : Text → Text
  real_name arg = if is_none (find_delimiter arg (codes ":")) then arg else drop 1 arg

  -- The name that the user is registered with: for an address, what it resolves to now.
  abbrev pub host_of : Client → Text
  host_of client =
      if host_identifier_value client.identifier_type == 1
      then (elim (env.ip_to_hostname client.client_identifier) [ none ↦ [] | some h ↦ h ])
      else client.client_identifier

  -- The client is connected: it has a descriptor.
  unfoldable pub handle_user_registration : ℕ → CommandTokens → R (Unit {0})
  handle_user_registration i tokens = do
    client ← client_at i
    let username = or_empty (get_command_argument tokens 0)
    realname ← argument tokens 3
    fd ← in_bounds client.fd
    address ←
        allocate_user (
          create_user env.garbage fd client.nickname username (host_of client) (real_name realname))
    in_session (register_user address)
    change_client i (λ client. set_client_state_type client registered)
    respond env i rpl_welcome (some client.nickname ∷ [])

  abbrev pub user_cmd_params : ℕ
  user_cmd_params = 4

  unfoldable pub cmd_user : ℕ → CommandTokens → R (Unit {0})
  cmd_user i tokens = do
    client ← client_at i
    if_then (not (is_allowed client user))
        (if_then (ltb (state_value client.state_type) 2) (not_registered env i)
          (respond env i err_alreadyregistred (some client.nickname ∷ [])))
        (if_then (is_below tokens.arg_count user_cmd_params) (need_more_params env i client tokens)
          (handle_user_registration i tokens))
