-- ===== src/Server/Moves/Quiet.antt =====
-- The functions of server/src that leave the states of all clients alone: replies, and whatever works
-- on the session.
use irc_client_server.Base.{ltb, ℕ, refl, Option, none, some, List, [], ◌∷◌}
use irc_client_server.Text.{Text}
use irc_client_server.User.{User}
use irc_client_server.Channel.{Channel}
use irc_client_server.Session.State.{Address}
use irc_client_server.SessionState.{state_value}
use irc_client_server.Client.{Client}
use irc_client_server.IrcMessage.{IrcMessage}
use irc_client_server.ResponseCode.{ResponseType}
use irc_client_server.Command.{CommandTokens}
use irc_client_server.Server.State.{Environment, R}
use irc_client_server.Server.Delivery.{
  add_message_to_queue, add_irc_message_to_queue, enqueue_to_server_queue, send_to_user, write_user,
  user_at,
}
use irc_client_server.Server.Replies.{
  respond, respond_with, not_registered, need_more_params, user_prefix, forwarded,
}
use irc_client_server.Session.State.{deref}
use irc_client_server.Session.Tables.{find_user_in_hash_table, add_user_to_ready_list}
use irc_client_server.Server.Delivery.{with_descriptor, add_nickname_to_list}
use irc_client_server.Server.Nick.{allocate_user}
use irc_client_server.Server.Channels.{allocate_channel, list_nicknames}
use irc_client_server.Server.State.{
  ◌>>◌, ◌>>=◌, skip, in_session, client_at, in_bounds, get, session_of,
}
use irc_client_server.Server.Moves.{
  Keeps, MayMove, keeps_rules, client_at-Keeps, if-Keeps, in_bounds-Keeps, get-Keeps, bind-Keeps,
  then-Keeps, in_session-Keeps,
}

enqueue_to_server_queue-Keeps : (message : Text) → Keeps (enqueue_to_server_queue message)
unfolding enqueue_to_server_queue
enqueue_to_server_queue-Keeps message = record { run = λ c j. refl }

write_user-Keeps : (user : Address) (u : User) → Keeps (write_user user u)
write_user-Keeps user u = record { run = λ c j. refl }

ruleset write_rules = (keeps_rules, enqueue_to_server_queue-Keeps, write_user-Keeps)

pub send_to_user-Keeps : (user : Address) (content : Text) → Keeps (send_to_user user content)
unfolding send_to_user
send_to_user-Keeps user content = search write_rules

deliver-Keeps :
    (content : Text) (o : Option Address)
    → Keeps (elim o as (λ x. R (Unit {0})) [
      | none ↦ skip
      | some user ↦ send_to_user user content >> in_session (add_user_to_ready_list user)
    ])
deliver-Keeps content none = search keeps_rules
deliver-Keeps content (some user) = search (write_rules, send_to_user-Keeps)

pub add_message_to_queue-Keeps : (i : ℕ) (content : Text) → Keeps (add_message_to_queue i content)
unfolding add_message_to_queue
add_message_to_queue-Keeps i content = bind-Keeps (client_at i) _ (client_at-Keeps i) λ client.
    if-Keeps (ltb (state_value client.state_type) 3)
      (in_bounds client.fd >>= (λ fd. enqueue_to_server_queue (with_descriptor fd content))) _
      (bind-Keeps (in_bounds client.fd) _ (in_bounds-Keeps client.fd)
        (λ fd. enqueue_to_server_queue-Keeps (with_descriptor fd content)))
      (bind-Keeps get _ get-Keeps
        λ c. deliver-Keeps content (find_user_in_hash_table (session_of c) client.nickname))

add_irc_message_to_queue-Keeps : (i : ℕ) (m : IrcMessage) → Keeps (add_irc_message_to_queue i m)
unfolding add_irc_message_to_queue
add_irc_message_to_queue-Keeps i m = search (keeps_rules, add_message_to_queue-Keeps)

module _ (env : Environment) where
  pub respond_with-Keeps :
      (i : ℕ) (t : ResponseType) (params : List (Option Text)) (text : Option Text)
      → Keeps (respond_with env i t params text)
  unfolding respond_with
  respond_with-Keeps i t params text = search add_irc_message_to_queue-Keeps

  pub respond-Keeps :
      (i : ℕ) (t : ResponseType) (params : List (Option Text)) → Keeps (respond env i t params)
  unfolding respond
  respond-Keeps i t params = search respond_with-Keeps

  pub not_registered-Keeps : (i : ℕ) → Keeps (not_registered env i)
  unfolding not_registered
  not_registered-Keeps i = search respond-Keeps

  pub need_more_params-Keeps :
      (i : ℕ) (client : Client) (tokens : CommandTokens)
      → Keeps (need_more_params env i client tokens)
  unfolding need_more_params
  need_more_params-Keeps i client tokens = search respond-Keeps

user_prefix-Keeps : (user : Option Address) → Keeps (user_prefix user)
unfolding user_prefix
user_prefix-Keeps none = search keeps_rules
user_prefix-Keeps (some user) = search keeps_rules

pub forwarded-Keeps :
    (user : Option Address) (body : List (Option Text)) (suffix : Option Text)
    → Keeps (forwarded user body suffix)
unfolding forwarded
forwarded-Keeps user body suffix = search (keeps_rules, user_prefix-Keeps)

pub list_nicknames-Keeps : (users : List Address) (list : Text) → Keeps (list_nicknames users list)
unfolding list_nicknames
list_nicknames-Keeps [] list = search keeps_rules
list_nicknames-Keeps (user ∷ users) list =
    bind-Keeps (user_at user) _ (in_session-Keeps (deref (λ s. s.live_users) user))
      λ u. list_nicknames-Keeps users (add_nickname_to_list list u.nickname)

pub allocate_user-Keeps : (u : User) → Keeps (allocate_user u)
unfolding allocate_user
allocate_user-Keeps u = record { run = λ c j. refl }

pub allocate_channel-Keeps : (ch : Channel) → Keeps (allocate_channel ch)
unfolding allocate_channel
allocate_channel-Keeps ch = record { run = λ c j. refl }

pub ruleset quiet_rules = (
  keeps_rules, add_message_to_queue-Keeps, respond_with-Keeps, respond-Keeps, not_registered-Keeps,
  need_more_params-Keeps, forwarded-Keeps, list_nicknames-Keeps, allocate_user-Keeps,
  allocate_channel-Keeps, send_to_user-Keeps,
)
