-- ===== src/Server/Channels.antt =====
-- server/src/command_handler.c: JOIN and PART.
use irc_client_server.Base.{
  ℕ, ◌+◌, ltb, ◌==◌, Bool, true, false, not, ◌||◌, ◌&&◌, Option, none, some, is_none, List, [], ◌∷◌,
  length,
}
use irc_client_server.Base.Int.{is_equal}
use irc_client_server.Text.{Text, max_channel_len}
use irc_client_server.Channel.{
  Channel, ChannelType, temporary, create_channel, is_valid_channel_name,
}
use irc_client_server.Session.State.{Address, deref, update}
use irc_client_server.Session.Tables.{find_channel_in_hash_table, add_channel_to_ready_list}
use irc_client_server.Session.Membership.{
  find_channel_users, find_user_in_channel_users, is_channel_full, get_channel_users_count,
  max_users_per_channel,
}
use irc_client_server.Session.Registration.{
  register_new_channel_join, register_existing_channel_join, register_channel_leave,
  remove_channel_data, send_to_channel,
}
use irc_client_server.SessionState.{state_value, registered, in_channel, join, part}
use irc_client_server.ResponseCode.{
  rpl_notopic, rpl_topic, rpl_namreply, rpl_endofnames, err_channelisfull, err_badchanname,
  err_notonchannel, err_nosuchchannel,
}
use irc_client_server.Client.{set_client_state_type}
use irc_client_server.Command.{CommandTokens, get_command_argument}
use irc_client_server.Server.State.{
  Environment, R, ◌>>=◌, ◌>>◌, pure, get, when, if_then, in_session, session_of, non_null,
  client_at, change_client, done, with_session,
}
use irc_client_server.Server.Delivery.{
  user_at, channel_at, add_nickname_to_list, add_message_to_queue,
}
use irc_client_server.Server.Replies.{
  respond, respond_with, not_registered, need_more_params, is_allowed, has_no_arguments, argument,
  user_of, forwarded,
}

-- A new object on the heap of the session.
unfoldable pub allocate_channel : Channel → R Address
allocate_channel ch c =
    let s = session_of c in
    done s.next_address (
      with_session c (record s {
        next_address = s.next_address + 1;
        live_channels = update s.live_channels s.next_address (some ch);
      }))

-- `find_channel_in_hash_table` for the name that the first argument gives.
abbrev pub channel_named : Text → R (Option Address)
channel_named name = get >>= (λ c. pure (find_channel_in_hash_table (session_of c) name))

-- `find_channel_users` with the guard of the functions that it is given to.
abbrev pub users_record : Address → R Address
users_record channel = get >>= (λ c. non_null (find_channel_users (session_of c) channel))

-- The iteration of `add_nickname_to_list`.
unfoldable pub list_nicknames : List Address → Text → R Text
list_nicknames [] list = pure list
list_nicknames (user ∷ users) list =
    user_at user >>= (λ u. list_nicknames users (add_nickname_to_list list u.nickname))

-- A registered client that has joined a channel.
unfoldable pub enter_channel : ℕ → R (Unit {0})
enter_channel i = do
  client ← client_at i
  when (state_value client.state_type == 3)
      (change_client i (λ client. set_client_state_type client in_channel))

module _ (env : Environment) where
  unfoldable pub add_topic_message_to_queue : ℕ → Address → CommandTokens → R (Unit {0})
  add_topic_message_to_queue i channel tokens = do
    client ← client_at i
    ch ← channel_at channel
    if_then (length ch.topic == 0)
        (respond env i rpl_notopic (some client.nickname ∷ get_command_argument tokens 0 ∷ []))
        (respond_with env i rpl_topic (some client.nickname ∷ get_command_argument tokens 0 ∷ [])
          (some ch.topic))

  unfoldable pub send_channel_join_messages : ℕ → CommandTokens → R (Unit {0})
  send_channel_join_messages i tokens = do
    client ← client_at i
    user ← user_of client
    name ← argument tokens 0
    found ← channel_named name
    channel ← non_null found
    channel_users ← users_record channel
    message ← forwarded user (tokens.command ∷ []) (some name)
    in_session (send_to_channel channel message)
    in_session (add_channel_to_ready_list channel)
    add_topic_message_to_queue i channel tokens
    m ← in_session (deref (λ s. s.live_channel_users) channel_users)
    nicknames ← list_nicknames m.list.nodes []
    respond_with env i rpl_namreply (some client.nickname ∷ some name ∷ []) (some nicknames)
    respond env i rpl_endofnames (some client.nickname ∷ some name ∷ [])

  unfoldable pub handle_join_existing_channel : ℕ → CommandTokens → R (Unit {0})
  handle_join_existing_channel i tokens = do
    client ← client_at i
    found ← user_of client
    name ← argument tokens 0
    found' ← channel_named name
    channel ← non_null found'
    channel_users ← users_record channel
    user ← non_null found
    member ← in_session (find_user_in_channel_users channel_users user)
    full ← in_session (is_channel_full channel_users)
    when (is_none member) (
        if_then full (respond env i err_channelisfull (some client.nickname ∷ some name ∷ [])) (
          in_session (register_existing_channel_join channel user)
          >> send_channel_join_messages i tokens
          >> enter_channel i))

  unfoldable pub handle_join_new_channel : ℕ → CommandTokens → R (Unit {0})
  handle_join_new_channel i tokens = do
    client ← client_at i
    found ← user_of client
    name ← argument tokens 0
    if_then (ltb max_channel_len (length name) || not (is_valid_channel_name name))
        (respond env i err_badchanname (some client.nickname ∷ some name ∷ []))
        (allocate_channel (create_channel env.garbage name [] temporary max_users_per_channel)
          >>= (λ channel. non_null found >>= (λ user.
              in_session (register_new_channel_join channel user)
              >> send_channel_join_messages i tokens
              >> enter_channel i)))

  unfoldable pub cmd_join : ℕ → CommandTokens → R (Unit {0})
  cmd_join i tokens = do
    client ← client_at i
    if_then (not (is_allowed client join)) (not_registered env i) (
        if_then (has_no_arguments tokens) (need_more_params env i client tokens) (do
          name ← argument tokens 0
          channel ← channel_named name
          if_then (is_none channel) (handle_join_new_channel i tokens)
              (handle_join_existing_channel i tokens)))

  abbrev pub is_temporary : ChannelType → Bool
  is_temporary ChannelType.permanent = false
  is_temporary ChannelType.temporary = true
  is_temporary ChannelType.unknown_channel_type = false

  -- What follows on the leave: the record of the channel's users is read again behind
  -- `remove_channel_data`, which has deleted it.
  unfoldable pub finish_leave : ℕ → Address → Address → Text → R (Unit {0})
  finish_leave i channel channel_users message = do
    ch ← channel_at channel
    count ← in_session (get_channel_users_count channel_users)
    if_then (is_temporary ch.channel_type && is_equal count 0)
        (in_session (remove_channel_data channel) >> add_message_to_queue i message)
        (in_session (send_to_channel channel message)
          >> in_session (add_channel_to_ready_list channel))
    client ← client_at i
    when (state_value client.state_type == 4) (
        in_session (get_channel_users_count channel_users) >>= (λ left.
          when (is_equal left 0)
            (change_client i (λ client. set_client_state_type client registered))))

  -- The part of `handle_leave_channel` for a channel that exists.
  unfoldable pub leave_channel : ℕ → CommandTokens → Text → Address → Option Address → R (Unit {0})
  leave_channel i tokens name channel found = do
    client ← client_at i
    channel_users ← users_record channel
    user ← non_null found
    member ← in_session (find_user_in_channel_users channel_users user)
    if_then (is_none member)
        (respond env i err_notonchannel (some client.nickname ∷ some name ∷ []))
        (forwarded (some user) (tokens.command ∷ some name ∷ []) (get_command_argument tokens 1)
          >>= (λ message.
              in_session (register_channel_leave channel user)
              >> finish_leave i channel channel_users message))

  unfoldable pub handle_leave_channel : ℕ → CommandTokens → R (Unit {0})
  handle_leave_channel i tokens = do
    client ← client_at i
    found ← user_of client
    name ← argument tokens 0
    found' ← channel_named name
    elim found' [
      | none ↦ respond env i err_nosuchchannel (some client.nickname ∷ some name ∷ [])
      | some channel ↦ leave_channel i tokens name channel found
    ]

  unfoldable pub cmd_part : ℕ → CommandTokens → R (Unit {0})
  cmd_part i tokens = do
    client ← client_at i
    if_then (not (is_allowed client part))
        (if_then (ltb (state_value client.state_type) 2) (not_registered env i) (
          respond env i err_notonchannel
            (some client.nickname ∷ get_command_argument tokens 0 ∷ [])))
        (if_then (has_no_arguments tokens) (need_more_params env i client tokens)
          (handle_leave_channel i tokens))
