-- ===== src/Session/Registration.antt =====
-- server/src/session.c: registration of users, joining and leaving of channels.
use irc_client_server.Base.{ℕ, zero, suc, Bool, true, false, Option, none, some, length}
use irc_client_server.Base.Int.{ℤ, is_equal}
use irc_client_server.LinkedList.{LinkedList, reset_iterator, iterator_next}
use irc_client_server.Text.{Text}
use irc_client_server.Channel.{Channel, enqueue_to_channel_queue}
use irc_client_server.Session.State.{
  Members, Address, M, ok, failed, fault, ◌>>=◌, ◌>>◌, pure, get, update, deref, non_null,
}
use irc_client_server.Session.Tables.{
  add_user_to_hash_table, add_channel_to_hash_table, remove_user_from_hash_table,
  remove_channel_from_hash_table, add_channel_to_ready_list, remove_channel_from_ready_list,
}
use irc_client_server.Session.Membership.{
  create_user_channels, create_channel_users, add_user_channels, add_channel_users,
  remove_user_channels, remove_channel_users, find_user_channels, find_channel_users,
  add_channel_to_user_channels, add_user_to_channel_users, remove_channel_in_user_channels,
  remove_user_in_channel_users, get_channel_users_count,
}

unfoldable pub register_user : Address → M (Unit {0})
register_user user = do
  add_user_to_hash_table user
  user_channels ← create_user_channels user
  add_user_channels user_channels

unfoldable pub unregister_user : Address → M (Unit {0})
unregister_user user = do
  s ← get
  user_channels ← non_null (find_user_channels s user)
  removed ← remove_user_channels user_channels
  remove_user_from_hash_table user

-- The part of both joins behind the look-up of the channel's users.
unfoldable pub join_channel : Address → Address → Address → M (Unit {0})
join_channel channel_users channel user = do
  added ← add_user_to_channel_users channel_users user
  s ← get
  user_channels ← non_null (find_user_channels s user)
  added' ← add_channel_to_user_channels user_channels channel
  pure tt

unfoldable pub register_new_channel_join : Address → Address → M (Unit {0})
register_new_channel_join channel user = do
  add_channel_to_hash_table channel
  channel_users ← create_channel_users channel
  add_channel_users channel_users
  join_channel channel_users channel user

unfoldable pub register_existing_channel_join : Address → Address → M (Unit {0})
register_existing_channel_join channel user = do
  s ← get
  channel_users ← non_null (find_channel_users s channel)
  join_channel channel_users channel user

unfoldable pub register_channel_leave : Address → Address → M (Unit {0})
register_channel_leave channel user = do
  s ← get
  channel_users ← non_null (find_channel_users s channel)
  remove_user_in_channel_users channel_users user
  s' ← get
  user_channels ← non_null (find_user_channels s' user)
  remove_channel_in_user_channels user_channels channel

unfoldable pub remove_channel_data : Address → M (Unit {0})
remove_channel_data channel = do
  remove_channel_from_ready_list channel
  s ← get
  channel_users ← non_null (find_channel_users s channel)
  removed ← remove_channel_users channel_users
  remove_channel_from_hash_table channel

-- A queue that is a null pointer ends the process.
abbrev put_channel : Address → Option Channel → M (Unit {0})
put_channel channel none s = failed
put_channel channel (some c) s =
    ok tt (record s { live_channels = update s.live_channels channel (some c) })

-- `enqueue_to_channel_queue` through a pointer.
unfoldable pub send_to_channel : Address → Text → M (Unit {0})
send_to_channel channel message = do
  c ← deref (λ s. s.live_channels) channel
  put_channel channel (enqueue_to_channel_queue c message)

abbrev pub has_no_users : ℤ → Bool
has_no_users count = is_equal count 0

-- A channel left by its last user is removed; the users of another one are told.
abbrev pub after_leave : Text → Address → Bool → M (Unit {0})
after_leave message channel true = remove_channel_data channel
after_leave message channel false =
    send_to_channel channel message >> add_channel_to_ready_list channel

-- What the loop of `leave_all_channels` does with one channel. `register_channel_leave` has failed
-- if the channel has no record of its users, so the test `channelUsers != NULL` holds behind it.
unfoldable pub leave_one_channel : Address → Text → Address → M (Unit {0})
leave_one_channel user message channel = do
  s ← get
  let channel_users = find_channel_users s channel
  register_channel_leave channel user
  cu ← non_null channel_users
  count ← get_channel_users_count cu
  after_leave message channel (has_no_users count)

abbrev pub write_list : Address → Members → LinkedList Address → M (Unit {0})
write_list user_channels m list s = ok tt (record s {
  live_user_channels = update s.live_user_channels user_channels (some (record m { list = list }));
})

-- The loop, with fuel for its rounds: the iterator moves on in each of them.
pub leave_loop : ℕ → Address → Address → Text → M (Unit {0})
leave_loop zero user_channels user message s = fault
leave_loop (suc fuel) user_channels user message s = elim (s.live_user_channels user_channels) [
  | none ↦ fault
  | some m ↦ elim (iterator_next m.list) [
    | none ↦ fault
    | some (none, list) ↦ write_list user_channels m list s
    | some (some channel, list) ↦
        (write_list user_channels m list
            >> leave_one_channel user message channel
            >> leave_loop fuel user_channels user message)
          s
  ]
]

abbrev leave_from : Option Address → Address → Text → M (Unit {0})
leave_from none user message s = ok tt s
leave_from (some user_channels) user message s = elim (s.live_user_channels user_channels) [
  | none ↦ fault
  | some m ↦
      (write_list user_channels m (reset_iterator m.list)
          >> leave_loop (suc (length m.list.nodes)) user_channels user message)
        s
]

unfoldable pub leave_all_channels : Address → Text → M (Unit {0})
unfolding leave_loop
leave_all_channels user message s = leave_from (find_user_channels s user) user message s
