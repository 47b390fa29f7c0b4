-- ===== src/Session/Effects.antt =====
-- What the operations of server/src/session.c on one live object make of the state.
use irc_client_server.Base.{
  ◌==◌, ==_iff, Bool-cases, ◌≢◌, inl, inr, ◌≡◌, refl, ap, Option, none, some, ◌+◌,
}
use irc_client_server.LinkedList.{find_node, append_node}
use irc_client_server.HashTable.{remove_item_from_hash_table}
use irc_client_server.HashTable.Hashes.{string_keys}
use irc_client_server.User.{User}
use irc_client_server.Session.State.{
  Session, Members, Address, M, Run, ok, fault, bind_run, ◌>>=◌, deref, update, users_equal,
}
use irc_client_server.Session.Tables.{
  add_entry, delete_removed, add_user_to_hash_table, remove_user_from_hash_table,
}
use irc_client_server.Session.Membership.{
  retarget, new_members, change_user_in_channel_users, create_user_channels, add_user_channels,
  max_channels_per_user,
}
use irc_client_server.Session.Registration.{register_user}

pub update_self :
    {A : Type 0} (f : Address → Option A) (p : Address) (v : Option A) → update f p v p ≡ v
update_self f p v = rw ((==_iff p p).1 refl) refl

pub update_ne :
    {A : Type 0} (f : Address → Option A) (p q : Address) (v : Option A)
    → p ≢ q
    → update f p v q ≡ f q
update_ne f p q v ne = elim (Bool-cases (p == q)) [
  | inl e ↦ absurd (ne ((==_iff p q).0 e))
  | inr e ↦ rw e refl
]

-- A read of a live object.
pub deref-bind :
    {A B : Type 0} (heap : Session → Address → Option A) (p : Address) (s : Session) (a : A)
    (f : A → M B)
    → heap s p ≡ some a
    → (deref heap p >>= f) s ≡ f a s
deref-bind heap p s a f live =
    ap (λ o. bind_run (elim o as (λ x. Run _) [ none ↦ fault | some a ↦ ok a s ]) f) live

pub change_user_in_channel_users-ok :
    (s : Session) (cu user : Address) (m : Members)
    → s.live_channel_users cu ≡ some m
    → change_user_in_channel_users cu user s
      ≡ ok tt (record s {
        live_channel_users =
            update s.live_channel_users cu
              (some (retarget m (find_node (users_equal s) m.list user) user));
      })
unfolding change_user_in_channel_users
change_user_in_channel_users-ok s cu user m live =
    deref-bind (λ s. s.live_channel_users) cu s m _ live

pub remove_user_from_hash_table-ok :
    (s : Session) (user : Address) (u : User)
    → s.live_users user ≡ some u
    → let r = remove_item_from_hash_table string_keys s.users u.nickname in
      remove_user_from_hash_table user s
      ≡ ok tt (record s { users = r.1; live_users = delete_removed s.live_users r.0 })
unfolding remove_user_from_hash_table
remove_user_from_hash_table-ok s user u live = deref-bind (λ s. s.live_users) user s u _ live

pub add_user_to_hash_table-ok :
    (s : Session) (user : Address) (u : User)
    → s.live_users user ≡ some u
    → add_user_to_hash_table user s ≡ ok tt (record s { users = add_entry s.users u.nickname user })
unfolding add_user_to_hash_table
add_user_to_hash_table-ok s user u live = deref-bind (λ s. s.live_users) user s u _ live

pub register_user-ok :
    (s : Session) (user : Address) (u : User)
    → s.live_users user ≡ some u
    → register_user user s
      ≡ ok tt (record s {
        users = add_entry s.users u.nickname user;
        next_address = s.next_address + 1;
        live_user_channels =
            update s.live_user_channels s.next_address
              (some (new_members user max_channels_per_user));
        user_channels_ll = append_node s.user_channels_ll s.next_address;
      })
unfolding register_user create_user_channels add_user_channels
register_user-ok s user u live =
    ap (λ r. bind_run r (λ _. create_user_channels user >>= (λ uc. add_user_channels uc)))
      (add_user_to_hash_table-ok s user u live)
