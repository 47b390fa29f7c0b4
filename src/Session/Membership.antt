-- ===== src/Session/Membership.antt =====
-- server/src/session.c: the records of a user's channels and of a channel's users, and the lists of
-- them.
use irc_client_server.Base.{
  is_none, ℕ, ◌+◌, if◌then◌else◌, Bool, true, false, not, Option, none, some,
}
use irc_client_server.Base.Int.{ℤ, pos, increment, decrement, is_below, is_equal}
use irc_client_server.LinkedList.{
  create_linked_list, append_node, remove_node, find_node, find_data, set_data,
}
use irc_client_server.Session.State.{
  Session, Members, Address, M, ◌>>=◌, ◌>>◌, pure, get, put, update, deref, users_equal,
  channels_equal, belongs_to_user, belongs_to_channel, are_user_channels_equal,
  are_channel_users_equal,
}

abbrev pub max_channels_per_user : ℕ
max_channels_per_user = 5

abbrev pub max_users_per_channel : ℕ
max_users_per_channel = 100

abbrev pub new_members : Address → ℕ → Members
new_members owner capacity = record {
  owner = owner;
  list = create_linked_list;
  capacity = capacity;
  count = pos 0;
}

unfoldable pub create_user_channels : Address → M Address
create_user_channels user = do
  s ← get
  put (record s {
    next_address = s.next_address + 1;
    live_user_channels =
        update s.live_user_channels s.next_address (some (new_members user max_channels_per_user));
  })
  pure s.next_address

unfoldable pub create_channel_users : Address → M Address
create_channel_users channel = do
  s ← get
  put (record s {
    next_address = s.next_address + 1;
    live_channel_users =
        update s.live_channel_users s.next_address
          (some (new_members channel max_users_per_channel));
  })
  pure s.next_address

unfoldable pub add_user_channels : Address → M (Unit {0})
add_user_channels user_channels = do
  s ← get
  put (record s { user_channels_ll = append_node s.user_channels_ll user_channels })

unfoldable pub add_channel_users : Address → M (Unit {0})
add_channel_users channel_users = do
  s ← get
  put (record s { channel_users_ll = append_node s.channel_users_ll channel_users })

-- The removed node's record is deleted.
abbrev delete_node : (Address → Option Members) → Option Address → Address → Option Members
delete_node heap none = heap
delete_node heap (some p) = update heap p none

unfoldable pub remove_user_channels : Address → M Bool
remove_user_channels user_channels = do
  s ← get
  let (removed, rest) = remove_node (are_user_channels_equal s) s.user_channels_ll user_channels
  put (record s {
    user_channels_ll = rest;
    live_user_channels = delete_node s.live_user_channels removed;
  })
  pure (not (is_none removed))

unfoldable pub remove_channel_users : Address → M Bool
remove_channel_users channel_users = do
  s ← get
  let (removed, rest) = remove_node (are_channel_users_equal s) s.channel_users_ll channel_users
  put (record s {
    channel_users_ll = rest;
    live_channel_users = delete_node s.live_channel_users removed;
  })
  pure (not (is_none removed))

unfoldable pub find_user_channels : Session → Address → Option Address
find_user_channels s user = find_data (belongs_to_user s) s.user_channels_ll user

unfoldable pub find_channel_users : Session → Address → Option Address
find_channel_users s channel = find_data (belongs_to_channel s) s.channel_users_ll channel

-- `add_channel_to_user_channels` and `add_user_to_channel_users` on the record that they change.
unfoldable pub add_member : Members → Address → Bool × Members
add_member m p =
    if is_below m.count m.capacity
    then (true, record m { list = append_node m.list p; count = increment m.count })
    else (false, m)

-- `remove_channel_in_user_channels` and `remove_user_in_channel_users` likewise: the count falls
-- whether or not a node was removed.
unfoldable pub remove_member : (Address → Address → Bool) → Members → Address → Members
remove_member same m p = record m {
  list = (remove_node same m.list p).1;
  count = decrement m.count;
}

unfoldable pub add_channel_to_user_channels : Address → Address → M Bool
add_channel_to_user_channels user_channels channel = do
  m ← deref (λ s. s.live_user_channels) user_channels
  s ← get
  let (added, m') = add_member m channel
  put (record s { live_user_channels = update s.live_user_channels user_channels (some m') })
  pure added

unfoldable pub add_user_to_channel_users : Address → Address → M Bool
add_user_to_channel_users channel_users user = do
  m ← deref (λ s. s.live_channel_users) channel_users
  s ← get
  let (added, m') = add_member m user
  put (record s { live_channel_users = update s.live_channel_users channel_users (some m') })
  pure added

unfoldable pub remove_channel_in_user_channels : Address → Address → M (Unit {0})
remove_channel_in_user_channels user_channels channel = do
  m ← deref (λ s. s.live_user_channels) user_channels
  s ← get
  put (record s {
    live_user_channels =
        update s.live_user_channels user_channels
          (some (remove_member (channels_equal s) m channel));
  })

unfoldable pub remove_user_in_channel_users : Address → Address → M (Unit {0})
remove_user_in_channel_users channel_users user = do
  m ← deref (λ s. s.live_channel_users) channel_users
  s ← get
  put (record s {
    live_channel_users =
        update s.live_channel_users channel_users (some (remove_member (users_equal s) m user));
  })

unfoldable pub find_channel_in_user_channels : Address → Address → M (Option Address)
find_channel_in_user_channels user_channels channel = do
  m ← deref (λ s. s.live_user_channels) user_channels
  s ← get
  pure (find_data (channels_equal s) m.list channel)

unfoldable pub find_user_in_channel_users : Address → Address → M (Option Address)
find_user_in_channel_users channel_users user = do
  m ← deref (λ s. s.live_channel_users) channel_users
  s ← get
  pure (find_data (users_equal s) m.list user)

unfoldable pub change_user_in_user_channels : Address → Address → M (Unit {0})
change_user_in_user_channels user_channels user = do
  m ← deref (λ s. s.live_user_channels) user_channels
  s ← get
  put (record s {
    live_user_channels =
        update s.live_user_channels user_channels (some (record m { owner = user }));
  })

-- A found node is made to point to the user.
abbrev pub retarget : Members → Option ℕ → Address → Members
retarget m none user = m
retarget m (some i) user = record m { list = set_data m.list i user }

unfoldable pub change_user_in_channel_users : Address → Address → M (Unit {0})
change_user_in_channel_users channel_users user = do
  m ← deref (λ s. s.live_channel_users) channel_users
  s ← get
  put (record s {
    live_channel_users =
        update s.live_channel_users channel_users
          (some (retarget m (find_node (users_equal s) m.list user) user));
  })

unfoldable pub is_channel_full : Address → M Bool
is_channel_full channel_users = do
  m ← deref (λ s. s.live_channel_users) channel_users
  pure (is_equal m.count m.capacity)

unfoldable pub get_channel_users_count : Address → M ℤ
get_channel_users_count channel_users = do
  m ← deref (λ s. s.live_channel_users) channel_users
  pure m.count
