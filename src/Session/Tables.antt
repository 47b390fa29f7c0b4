-- ===== src/Session/Tables.antt =====
-- server/src/session.c: the hash tables of users and of channels, and the ready lists.
use irc_client_server.Base.{is_none, if◌then◌else◌, not, ◌&&◌, Option, none, some}
use irc_client_server.LinkedList.{append_node, remove_node, find_node}
use irc_client_server.HashTable.{
  HashTable, get_value, is_hash_table_full, find_item_in_hash_table, insert_item_to_hash_table,
  remove_item_from_hash_table,
}
use irc_client_server.HashTable.Hashes.{string_keys}
use irc_client_server.Text.{Text}
use irc_client_server.Session.State.{
  Session, Address, M, ◌>>=◌, ◌>>◌, get, put, update, deref, users_equal, channels_equal,
}

-- The test and the insertion that the tables of users and of channels share.
unfoldable pub add_entry : HashTable Text Address → Text → Address → HashTable Text Address
add_entry t name p =
    if not (is_hash_table_full t) && is_none (find_item_in_hash_table string_keys t name)
    then (insert_item_to_hash_table string_keys t (name, p)).1
    else t

unfoldable pub add_user_to_hash_table : Address → M (Unit {0})
add_user_to_hash_table user = do
  u ← deref (λ s. s.live_users) user
  s ← get
  put (record s { users = add_entry s.users u.nickname user })

unfoldable pub add_channel_to_hash_table : Address → M (Unit {0})
add_channel_to_hash_table channel = do
  c ← deref (λ s. s.live_channels) channel
  s ← get
  put (record s { channels = add_entry s.channels c.name channel })

-- The removed item's value is deleted: `delete_user` and `delete_channel`.
abbrev pub delete_removed :
    {A : Type 0} → (Address → Option A) → Option (Text × Address) → Address → Option A
delete_removed heap none = heap
delete_removed heap (some (name, p)) = update heap p none

unfoldable pub remove_user_from_hash_table : Address → M (Unit {0})
remove_user_from_hash_table user = do
  u ← deref (λ s. s.live_users) user
  s ← get
  let (removed, users) = remove_item_from_hash_table string_keys s.users u.nickname
  put (record s { users = users; live_users = delete_removed s.live_users removed })

unfoldable pub remove_channel_from_hash_table : Address → M (Unit {0})
remove_channel_from_hash_table channel = do
  c ← deref (λ s. s.live_channels) channel
  s ← get
  let (removed, channels) = remove_item_from_hash_table string_keys s.channels c.name
  put (record s { channels = channels; live_channels = delete_removed s.live_channels removed })

abbrev pub find_user_in_hash_table : Session → Text → Option Address
find_user_in_hash_table s nickname =
    get_value (find_item_in_hash_table string_keys s.users nickname)

abbrev pub find_channel_in_hash_table : Session → Text → Option Address
find_channel_in_hash_table s name = get_value (find_item_in_hash_table string_keys s.channels name)

unfoldable pub change_user_in_hash_table : Address → Address → M (Unit {0})
change_user_in_hash_table old_user new_user = do
  remove_user_from_hash_table old_user
  add_user_to_hash_table new_user

unfoldable pub add_user_to_ready_list : Address → M (Unit {0})
add_user_to_ready_list user = do
  s ← get
  put (
      if is_none (find_node (users_equal s) s.ready_users user)
      then record s { ready_users = append_node s.ready_users user }
      else s)

unfoldable pub add_channel_to_ready_list : Address → M (Unit {0})
add_channel_to_ready_list channel = do
  s ← get
  put (
      if is_none (find_node (channels_equal s) s.ready_channels channel)
      then record s { ready_channels = append_node s.ready_channels channel }
      else s)

unfoldable pub remove_user_from_ready_list : Address → M (Unit {0})
remove_user_from_ready_list user = do
  s ← get
  put (record s { ready_users = (remove_node (users_equal s) s.ready_users user).1 })

unfoldable pub remove_channel_from_ready_list : Address → M (Unit {0})
remove_channel_from_ready_list channel = do
  s ← get
  put (record s { ready_channels = (remove_node (channels_equal s) s.ready_channels channel).1 })
