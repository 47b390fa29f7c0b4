-- ===== src/Session/Joins.antt =====
-- A user joins a channel that exists: `register_existing_channel_join` of server/src/session.c.
use irc_client_server.Base.{ltb, if◌then◌else◌, ◌≡◌, ap, ◌∙◌, some, List, [], ◌∷◌, ◌++◌, length}
use irc_client_server.Session.State.{
  Session, Members, Address, M, Run, ok, bind_run, ◌>>=◌, pure, non_null, update,
}
use irc_client_server.Session.Membership.{
  add_member, add_user_to_channel_users, add_channel_to_user_channels, find_user_channels,
  find_channel_users,
}
use irc_client_server.Session.Registration.{join_channel, register_existing_channel_join}
use irc_client_server.Session.Counts.{IsCounted, add_member-IsCounted}
use irc_client_server.Session.Effects.{deref-bind, update_self}

-- The members with `p` behind them if there is room.
abbrev pub with_member : Members → Address → List Address
with_member m p =
    if ltb (length m.list.nodes) m.capacity then m.list.nodes ++ p ∷ [] else m.list.nodes

-- What a join that returned `r` did to the record `cu` of the channel's users and to the record `uc`
-- of the user's channels.
pub record Joins (r : Run (Unit {0})) (cu uc : Address) (m k : Members) (channel user : Address)
    : Type 0 where
  pub after : Session
  pub ends : r ≡ ok tt after
  pub users : Members
  pub channels : Members
  pub users_live : after.live_channel_users cu ≡ some users
  pub channels_live : after.live_user_channels uc ≡ some channels
  pub users_counted : IsCounted users
  pub channels_counted : IsCounted channels
  pub users_are : users.list.nodes ≡ with_member m user
  pub channels_are : channels.list.nodes ≡ with_member k channel

add_user_to_channel_users-ok :
    (s : Session) (cu user : Address) (m : Members)
    → s.live_channel_users cu ≡ some m
    → add_user_to_channel_users cu user s
      ≡ ok (add_member m user).0 (record s {
        live_channel_users = update s.live_channel_users cu (some (add_member m user).1);
      })
unfolding add_user_to_channel_users
add_user_to_channel_users-ok s cu user m live = deref-bind (λ s. s.live_channel_users) cu s m _ live

add_channel_to_user_channels-ok :
    (s : Session) (uc channel : Address) (k : Members)
    → s.live_user_channels uc ≡ some k
    → add_channel_to_user_channels uc channel s
      ≡ ok (add_member k channel).0 (record s {
        live_user_channels = update s.live_user_channels uc (some (add_member k channel).1);
      })
unfolding add_channel_to_user_channels
add_channel_to_user_channels-ok s uc channel k live =
    deref-bind (λ s. s.live_user_channels) uc s k _ live

-- The part of a join behind the channel's users.
abbrev add_channel : Address → Address → M (Unit {0})
add_channel channel uc = add_channel_to_user_channels uc channel >>= (λ added. pure tt)

-- Joining a channel with live and counted records of the channel's users and of the user's
-- channels runs to the end. The user is added to the channel's users exactly if these have room,
-- and the channel to the user's channels exactly if those have room, neither depending on the
-- other; the counts stay right.
pub register_existing_channel_join-Joins :
    (s : Session) (channel user cu uc : Address) (m k : Members)
    → find_channel_users s channel ≡ some cu
    → s.live_channel_users cu ≡ some m
    → find_user_channels s user ≡ some uc
    → s.live_user_channels uc ≡ some k
    → IsCounted m
    → IsCounted k
    → Joins (register_existing_channel_join channel user s) cu uc m k channel user
unfolding register_existing_channel_join join_channel find_user_channels
register_existing_channel_join-Joins s channel user cu uc m k found live found' live' hm hk =
    record {
      after = s';
      ends =
          ap (λ o. bind_run (non_null o s) (λ cu. join_channel cu channel user)) found
          ∙ ap
              (λ r. bind_run r (λ added s.
                bind_run (non_null (find_user_channels s user) s) (add_channel channel)))
              (add_user_to_channel_users-ok s cu user m live)
          ∙ ap (λ o. bind_run (non_null o s₁) (add_channel channel)) found'
          ∙ ap (λ r. bind_run r (λ added. pure tt))
              (add_channel_to_user_channels-ok s₁ uc channel k live');
      users = (add_member m user).1;
      channels = (add_member k channel).1;
      users_live = update_self s.live_channel_users cu (some (add_member m user).1);
      channels_live = update_self s.live_user_channels uc (some (add_member k channel).1);
      users_counted = (add_member-IsCounted m user hm).0;
      channels_counted = (add_member-IsCounted k channel hk).0;
      users_are = (add_member-IsCounted m user hm).2;
      channels_are = (add_member-IsCounted k channel hk).2;
    }
  where
    s₁ : Session
    s₁ = record s {
      live_channel_users = update s.live_channel_users cu (some (add_member m user).1);
    }

    s' : Session
    s' = record s₁ {
      live_user_channels = update s.live_user_channels uc (some (add_member k channel).1);
    }
