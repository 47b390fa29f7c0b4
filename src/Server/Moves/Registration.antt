-- ===== src/Server/Moves/Registration.antt =====
-- cmd_nick and cmd_user of server/src/command_handler.c: the clients that they move.
use irc_client_server.Base.{
  ℕ, ltb, ◌≡◌, refl, sym, subst, true, not, Bool-cases, inl, inr, some, [], ◌∷◌,
}
use irc_client_server.Base.Int.{is_below}
use irc_client_server.Text.{Text}
use irc_client_server.SessionState.{
  user, SessionStateType, disconnected, connected, start_registration, registered, in_channel,
  unknown_session_state_type, state_value, server_states, is_allowed_state_transition,
  is_allowed_state_command,
}
use irc_client_server.ResponseCode.{err_alreadyregistred, rpl_welcome}
use irc_client_server.Client.{Client, set_client_state_type, set_client_nickname}
use irc_client_server.Command.{CommandTokens}
use irc_client_server.Server.State.{Environment, R, ◌>>◌, when, if_then, client_at, change_client}
use irc_client_server.Server.Replies.{respond, not_registered, need_more_params, is_allowed}
use irc_client_server.Server.Nick.{
  handle_nickname_change, accept_nickname, choose_nickname, cmd_nick, handle_user_registration,
  cmd_user,
}
use irc_client_server.Server.Moves.{
  Keeps, MayMove, keeps_rules, bind-before, then-before, bind-behind, Keeps-MayMove, if-MayMove,
  when-Keeps, client_at-Keeps, bind-Keeps, in_session-Keeps, when-MayMove, Moves, IsMove, Ends,
  state_at,
}
use irc_client_server.Server.Moves.Tables.{change_client-Keeps}
use irc_client_server.Server.Moves.Quiet.{quiet_rules, respond-Keeps}
use irc_client_server.Server.Moves.Handlers.{handle_nickname_change-Keeps}
use irc_client_server.Server.Moves.Steps.{
  MovesTo, change-MovesTo, Keeps-MovesTo, before-MovesTo, then-before-MovesTo, behind-MovesTo,
  if-MovesTo, read-MayMove, tested, from_connected,
}

pub ruleset move_rules = (quiet_rules, bind-before, then-before, if-MayMove)

module _ (env : Environment) where
  accept_nickname-MayMove :
      (i : ℕ) (tokens : CommandTokens) (nickname : Text)
      → MayMove (accept_nickname env i tokens nickname)
  unfolding accept_nickname
  accept_nickname-MayMove i tokens nickname = read-MayMove i start_registration _ λ client.
      tested i start_registration client 1 _ _ from_connected (change-MovesTo i start_registration)
        (bind-Keeps (client_at i) _ (client_at-Keeps i) λ client'.
          bind-Keeps
            (when (not (ltb (state_value client'.state_type) 3))
              (handle_nickname_change env i tokens))
            _ (when-Keeps _ _ (handle_nickname_change-Keeps env i tokens))
            (λ _.
              change_client-Keeps i (λ client. set_client_nickname client nickname)
                (λ client. refl)))

  choose_nickname-MayMove :
      (i : ℕ) (tokens : CommandTokens) → MayMove (choose_nickname env i tokens)
  unfolding choose_nickname
  choose_nickname-MayMove i tokens =
      search (move_rules, Keeps-MayMove, accept_nickname-MayMove) depth 20 fits 5000

  pub cmd_nick-MayMove : (i : ℕ) (tokens : CommandTokens) → MayMove (cmd_nick env i tokens)
  unfolding cmd_nick
  cmd_nick-MayMove i tokens =
      search (move_rules, Keeps-MayMove, choose_nickname-MayMove) depth 20 fits 5000

  welcome-MovesTo :
      (i : ℕ) (nickname : Text)
      → MovesTo i registered (
          change_client i (λ client. set_client_state_type client registered)
          >> respond env i rpl_welcome (some nickname ∷ []))
  welcome-MovesTo i nickname =
      behind-MovesTo i registered
        (change_client i (λ client. set_client_state_type client registered))
        (λ _. respond env i rpl_welcome (some nickname ∷ [])) (change-MovesTo i registered)
        λ _. respond-Keeps env i rpl_welcome (some nickname ∷ [])

  handle_user_registration-MovesTo :
      (i : ℕ) (tokens : CommandTokens)
      → MovesTo i registered (handle_user_registration env i tokens)
  unfolding handle_user_registration
  handle_user_registration-MovesTo i tokens =
      search (quiet_rules, before-MovesTo, then-before-MovesTo, welcome-MovesTo) depth 30 fits 5000

  -- USER is allowed in one state.
  user_allowed :
      (x : SessionStateType)
      → is_allowed_state_command server_states x user ≡ true
      → is_allowed_state_transition server_states x registered ≡ some true
  unfolding is_allowed_state_command is_allowed_state_transition
  user_allowed disconnected e = cc
  user_allowed connected e = cc
  user_allowed start_registration e = refl
  user_allowed registered e = cc
  user_allowed in_channel e = cc
  user_allowed unknown_session_state_type e = cc

  pub cmd_user-MayMove : (i : ℕ) (tokens : CommandTokens) → MayMove (cmd_user env i tokens)
  unfolding cmd_user
  cmd_user-MayMove i tokens = read-MayMove i registered _ λ client.
      elim (Bool-cases (is_allowed client user)) [
        | inl t ↦ inr (
          user_allowed client.state_type t,
          search (quiet_rules, if-MovesTo, Keeps-MovesTo, handle_user_registration-MovesTo) depth
              20,
        )
        | inr f ↦ inl (
            subst (λ b. MayMove (if_then (not b) (refusal client) (served client))) (sym f)
              (Keeps-MayMove (refusal client) (search quiet_rules)))
      ]
    where
      refusal : Client → R (Unit {0})
      refusal client =
          if_then (ltb (state_value client.state_type) 2) (not_registered env i)
            (respond env i err_alreadyregistred (some client.nickname ∷ []))

      served : Client → R (Unit {0})
      served client =
          if_then (is_below tokens.arg_count 4) (need_more_params env i client tokens)
            (handle_user_registration env i tokens)
