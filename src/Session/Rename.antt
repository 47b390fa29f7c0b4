-- ===== src/Session/Rename.antt =====
-- The change of a nickname on the state of server/src/session.c: `change_user_in_channel_users` and
-- then `change_user_in_hash_table`, as `handle_nickname_change` of server/src/command_handler.c calls
-- them, for one channel's users.
use irc_client_server.Base.{some_eq, ◌≡◌, ap, ◌∙◌, ◌≢◌, Option, none, some, length}
use irc_client_server.LinkedList.Search.{NoMatch, find_node-none}
use irc_client_server.HashTable.{
  HashTable, get_value, find_item_in_hash_table, remove_item_from_hash_table,
}
use irc_client_server.HashTable.Hashes.{string_keys}
use irc_client_server.HashTable.Validity.{IsValid}
use irc_client_server.HashTable.Map.{remove-Removes}
use irc_client_server.Text.{Text}
use irc_client_server.User.{User}
use irc_client_server.Session.State.{
  Session, Members, Address, M, Run, ok, bind_run, ◌>>◌, update, users_equal,
}
use irc_client_server.Session.Tables.{
  find_user_in_hash_table, change_user_in_hash_table, add_user_to_hash_table, delete_removed,
  add_entry,
}
use irc_client_server.Session.Membership.{change_user_in_channel_users, retarget}
use irc_client_server.Session.Effects.{
  update_self, update_ne, change_user_in_channel_users-ok, remove_user_from_hash_table-ok,
  add_user_to_hash_table-ok,
}

-- The run ends; the channel's users are as before, and the old user is freed.
pub record Dangles (r : Run (Unit {0})) (cu old_user : Address) (m : Members) : Type 0 where
  pub after : Session
  pub ends : r ≡ ok tt after
  pub kept : after.live_channel_users cu ≡ some m
  pub freed : after.live_users old_user ≡ none

abbrev pub change_nickname : Address → Address → Address → M (Unit {0})
change_nickname cu old_user new_user =
    change_user_in_channel_users cu new_user >> change_user_in_hash_table old_user new_user

-- The item behind a value that a look-up finds.
value_item :
    (o : Option (Text × Address)) (p : Address)
    → get_value o ≡ some p
    → (name : Text) × (o ≡ some (name, p))
value_item none p e = absurd (cc)
value_item (some (name, q)) p e = (name, ap (λ a. some (name, a)) (some_eq e))

change_user_in_hash_table-ok :
    (s : Session) (old_user new_user : Address) (u u' : User)
    → s.live_users old_user ≡ some u
    → let r = remove_item_from_hash_table string_keys s.users u.nickname in
      let live = delete_removed s.live_users r.0 in
      live new_user ≡ some u'
      → change_user_in_hash_table old_user new_user s
        ≡ ok tt (record s { users = add_entry r.1 u'.nickname new_user; live_users = live })
unfolding change_user_in_hash_table
change_user_in_hash_table-ok s old_user new_user u u' live live' =
    ap (λ r. bind_run r (λ _. add_user_to_hash_table new_user))
      (remove_user_from_hash_table-ok s old_user u live)
    ∙ add_user_to_hash_table-ok _ new_user u' live'

-- With a well-formed table of users and a live, counted record of a channel's users, a nickname
-- is changed by a new live user object, with a nickname that no user of the channel has: the run
-- ends, the channel's users still hold the same pointers, and the old user, whom the table of
-- users found by the old nickname, is freed.
pub change_nickname-Dangles :
    (s : Session) (cu old_user new_user : Address) (m : Members) (u u' : User)
    → IsValid string_keys s.users
    → s.live_channel_users cu ≡ some m
    → m.list.count ≡ length m.list.nodes
    → NoMatch (users_equal s) new_user m.list.nodes
    → s.live_users old_user ≡ some u
    → s.live_users new_user ≡ some u'
    → old_user ≢ new_user
    → find_user_in_hash_table s u.nickname ≡ some old_user
    → Dangles (change_nickname cu old_user new_user s) cu old_user m
change_nickname-Dangles s cu old_user new_user m u u' v members counted fresh live live' ne found =
    record {
      after = s';
      ends =
          ap (λ r. bind_run r (λ _. change_user_in_hash_table old_user new_user)) unchanged
          ∙ change_user_in_hash_table-ok s₁ old_user new_user u u' live still_live;
      kept = update_self s.live_channel_users cu (some m);
      freed =
          ap (λ o. delete_removed s.live_users o old_user) removed
          ∙ update_self s.live_users old_user none;
    }
  where
    s₁ : Session
    s₁ = record s { live_channel_users = update s.live_channel_users cu (some m) }

    r : Option (Text × Address) × HashTable Text Address
    r = remove_item_from_hash_table string_keys s.users u.nickname

    s' : Session
    s' = record s₁ {
      users = add_entry r.1 u'.nickname new_user;
      live_users = delete_removed s.live_users r.0;
    }

    unchanged : change_user_in_channel_users cu new_user s ≡ ok tt s₁
    unchanged =
        change_user_in_channel_users-ok s cu new_user m members
        ∙ ap
            (λ o. ok tt (record s {
              live_channel_users = update s.live_channel_users cu (some (retarget m o new_user));
            }))
            (find_node-none (users_equal s) new_user m.list counted fresh)

    item :
        (name : Text) × (find_item_in_hash_table string_keys s.users u.nickname
          ≡ some (name, old_user))
    item = value_item (find_item_in_hash_table string_keys s.users u.nickname) old_user found

    removed : r.0 ≡ some (item.0, old_user)
    removed = (remove-Removes string_keys s.users v u.nickname).returns ∙ item.1

    still_live : delete_removed s.live_users r.0 new_user ≡ some u'
    still_live =
        ap (λ o. delete_removed s.live_users o new_user) removed
        ∙ update_ne s.live_users old_user new_user none ne
        ∙ live'
