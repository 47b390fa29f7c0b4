-- ===== src/Session/Leaves.antt =====
-- A user leaves a channel: `register_channel_leave` of server/src/session.c.
use irc_client_server.Base.{
  Bool, ◌≡◌, ◌≢◌, refl, ap, ◌∙◌, ◌⊎◌, inl, inr, Option, none, some, List, ◌++◌, suc, ◌-◌, length,
}
use irc_client_server.LinkedList.{LinkedList, cursor_unlink, remove_node}
use irc_client_server.LinkedList.Search.{NoMatch, Splits, locate-Splits, NoMatch-middle}
use irc_client_server.Session.State.{
  Session, Members, Address, M, Run, ok, bind_run, non_null, update, users_equal, channels_equal,
}
use irc_client_server.Session.Membership.{
  remove_member, remove_user_in_channel_users, remove_channel_in_user_channels, find_user_channels,
  find_channel_users,
}
use irc_client_server.Session.Registration.{register_channel_leave}
use irc_client_server.Session.Counts.{IsCounted, remove_member-IsCounted}
use irc_client_server.Session.Effects.{deref-bind, update_self, update_ne}

remove_user_in_channel_users-ok :
    (s : Session) (cu user : Address) (m : Members)
    → s.live_channel_users cu ≡ some m
    → remove_user_in_channel_users cu user s
      ≡ ok tt (record s {
        live_channel_users =
            update s.live_channel_users cu (some (remove_member (users_equal s) m user));
      })
unfolding remove_user_in_channel_users
remove_user_in_channel_users-ok s cu user m live =
    deref-bind (λ s. s.live_channel_users) cu s m _ live

remove_channel_in_user_channels-ok :
    (s : Session) (uc channel : Address) (k : Members)
    → s.live_user_channels uc ≡ some k
    → remove_channel_in_user_channels uc channel s
      ≡ ok tt (record s {
        live_user_channels =
            update s.live_user_channels uc (some (remove_member (channels_equal s) k channel));
      })
unfolding remove_channel_in_user_channels
remove_channel_in_user_channels-ok s uc channel k live =
    deref-bind (λ s. s.live_user_channels) uc s k _ live

-- A record that has lost one member, and what is left of its list.
pub record Without (m m' : Members) (nodes : List Address) : Type 0 where
  pub owner : m'.owner ≡ m.owner
  pub capacity : m'.capacity ≡ m.capacity
  pub nodes_left : m'.list.nodes ≡ nodes
  pub still_counted : IsCounted m'

-- What a leave that returned `r` did to the record `cu` of the channel's users, `m`, and to the record
-- `uc` of the user's channels, `k`: lists are left in these, and all other records are as before.
pub record Leaves (s : Session) (r : Run (Unit {0})) (cu uc : Address) (m k : Members)
    (users_left channels_left : List Address) : Type 0 where
  pub after : Session
  pub ends : r ≡ ok tt after
  pub users : Members
  pub users_live : after.live_channel_users cu ≡ some users
  pub users_without : Without m users users_left
  pub users_elsewhere : (p : Address) → cu ≢ p → after.live_channel_users p ≡ s.live_channel_users p
  pub channels : Members
  pub channels_live : after.live_user_channels uc ≡ some channels
  pub channels_without : Without k channels channels_left
  pub channels_elsewhere :
      (p : Address) → uc ≢ p → after.live_user_channels p ≡ s.live_user_channels p

-- The first member that compares equal is lost.
remove_member-Without :
    (same : Address → Address → Bool) (p : Address) (m : Members) (before : List Address)
    (x : Address) (after : List Address)
    → IsCounted m
    → Splits same p m.list.nodes before x after
    → Without m (remove_member same m p) (before ++ after)
unfolding remove_member remove_node
remove_member-Without same p m before x after h split = record {
  owner = refl;
  capacity = refl;
  nodes_left =
      ap
        (λ o.
          let r : Option Address × LinkedList Address = elim o [
            | none ↦ (none, m.list)
            | some (before, x, after) ↦ (
              some x,
              record {
                nodes = before ++ after;
                iterator = cursor_unlink (suc (length after)) m.list.iterator;
                count = m.list.count - 1;
              },
            )
          ] in
          r.1.nodes)
        (locate-Splits same p before x after split);
  still_counted = counted (remove_member-IsCounted same p m h);
}
  where
    counted :
        (IsCounted (remove_member same m p) × ¬ NoMatch same p m.list.nodes)
          ⊎ ((¬ IsCounted (remove_member same m p))
              × NoMatch same p m.list.nodes
              × ((remove_member same m p).list ≡ m.list))
        → IsCounted (remove_member same m p)
    counted (inl a) = a.0
    counted (inr b) = absurd (NoMatch-middle same p before x after split.hit split.parts b.1)

-- Leaving a channel, with live and counted records of the channel's users and of the user's
-- channels, where the user compares equal to one of the first and the channel to one of the
-- second, runs to the end: the first user that compares equal is gone from the channel's users,
-- and the first such channel from the user's channels, while the others stay in their order, the
-- counts are right, owner and capacity are the same, and all other records are as before.
pub register_channel_leave-Leaves :
    (s : Session) (channel user cu uc : Address) (m k : Members) (us us' cs cs' : List Address)
    (x y : Address)
    → find_channel_users s channel ≡ some cu
    → s.live_channel_users cu ≡ some m
    → find_user_channels s user ≡ some uc
    → s.live_user_channels uc ≡ some k
    → IsCounted m
    → IsCounted k
    → Splits (users_equal s) user m.list.nodes us x us'
    → Splits (channels_equal s) channel k.list.nodes cs y cs'
    → Leaves s (register_channel_leave channel user s) cu uc m k (us ++ us') (cs ++ cs')
unfolding register_channel_leave find_user_channels
register_channel_leave-Leaves s channel user cu uc m k us us' cs cs' x y found live found' live' hm
      hk there there' =
    record {
      after = s';
      ends =
          ap (λ o. bind_run (non_null o s) first) found
          ∙ ap (λ r. bind_run r (λ _ s. bind_run (non_null (find_user_channels s user) s) second))
              (remove_user_in_channel_users-ok s cu user m live)
          ∙ ap (λ o. bind_run (non_null o s₁) second) found'
          ∙ remove_channel_in_user_channels-ok s₁ uc channel k live';
      users = remove_member (users_equal s) m user;
      users_live =
          update_self s.live_channel_users cu (some (remove_member (users_equal s) m user));
      users_without = remove_member-Without (users_equal s) user m us x us' hm there;
      users_elsewhere = λ p ne.
          update_ne s.live_channel_users cu p (some (remove_member (users_equal s) m user)) ne;
      channels = remove_member (channels_equal s) k channel;
      channels_live =
          update_self s.live_user_channels uc (some (remove_member (channels_equal s) k channel));
      channels_without = remove_member-Without (channels_equal s) channel k cs y cs' hk there';
      channels_elsewhere = λ p ne.
          update_ne s.live_user_channels uc p (some (remove_member (channels_equal s) k channel))
            ne;
    }
  where
    second : Address → M (Unit {0})
    second uc = remove_channel_in_user_channels uc channel

    first : Address → M (Unit {0})
    first cu s =
        bind_run (remove_user_in_channel_users cu user s)
          (λ _ s. bind_run (non_null (find_user_channels s user) s) second)

    s₁ : Session
    s₁ = record s {
      live_channel_users =
          update s.live_channel_users cu (some (remove_member (users_equal s) m user));
    }

    s' : Session
    s' = record s₁ {
      live_user_channels =
          update s.live_user_channels uc (some (remove_member (channels_equal s) k channel));
    }
