-- ===== src/Examples/Joins.antt =====
-- Runs of server/src/session.c: "ivo", who has used up the room for channels, joins "#a", and "ivo" as
-- a user of "#a" leaves it.
use irc_client_server.Base.{◌==◌, if◌then◌else◌, ◌≡◌, refl, none, some, [], ◌∷◌, arith, replicate}
use irc_client_server.Base.Int.{pos}
use irc_client_server.LinkedList.{at, create_linked_list, append_node}
use irc_client_server.LinkedList.Search.{Splits, find_data-append_node}
use irc_client_server.HashTable.{new_table}
use irc_client_server.HashTable.Hashes.{are_strings_equal}
use irc_client_server.Queue.{empty_queue}
use irc_client_server.User.{User}
use irc_client_server.Channel.{Channel, temporary}
use irc_client_server.Session.State.{
  Session, Members, users_equal, channels_equal, belongs_to_user, belongs_to_channel,
}
use irc_client_server.Session.Membership.{find_user_channels, find_channel_users}
use irc_client_server.Session.Registration.{register_channel_leave, register_existing_channel_join}
use irc_client_server.Session.Leaves.{Leaves, register_channel_leave-Leaves}
use irc_client_server.Session.Joins.{Joins, register_existing_channel_join-Joins}

abbrev guest : User
guest = record {
  fd = 4;
  nickname = b'i' ∷ b'v' ∷ b'o' ∷ [];
  username = [];
  hostname = [];
  realname = [];
  out_queue = empty_queue [] 2;
}

abbrev lounge : Channel
lounge = record {
  name = b'#' ∷ b'a' ∷ [];
  topic = [];
  channel_type = temporary;
  out_queue = some (empty_queue [] 2);
}

abbrev loungers : Members
loungers = record {
  owner = 7;
  list = record { nodes = 1 ∷ []; iterator = at 0; count = 1 };
  capacity = 100;
  count = pos 1;
}

abbrev visited : Members
visited = record {
  owner = 2;
  list = record { nodes = replicate 5 6; iterator = at 0; count = 5 };
  capacity = 5;
  count = pos 5;
}

abbrev busy : Session
busy = record {
  next_address = 10;
  live_users = λ p. if p == 2 then some guest else none;
  live_channels = λ p. if p == 7 then some lounge else none;
  live_user_channels = λ p. if p == 9 then some visited else none;
  live_channel_users = λ p. if p == 8 then some loungers else none;
  ready_users = create_linked_list;
  ready_channels = create_linked_list;
  users = new_table 2 0;
  channels = new_table 2 0;
  user_channels_ll = append_node create_linked_list 9;
  channel_users_ll = append_node create_linked_list 8;
}

lounge_listed : find_channel_users busy 7 ≡ some 8
unfolding find_channel_users are_strings_equal
lounge_listed = find_data-append_node (belongs_to_channel busy) 7 create_linked_list 8 refl tt

guest_listed : find_user_channels busy 2 ≡ some 9
unfolding find_user_channels are_strings_equal
guest_listed = find_data-append_node (belongs_to_user busy) 2 create_linked_list 9 refl tt

register_existing_channel_join-Joins_example :
    Joins (register_existing_channel_join 7 2 busy) 8 9 loungers visited 7 2
register_existing_channel_join-Joins_example =
    register_existing_channel_join-Joins busy 7 2 8 9 loungers visited lounge_listed refl
      guest_listed refl (record { counted = refl; list_counted = refl; within = omega arith })
      (record { counted = refl; list_counted = refl; within = omega arith })

abbrev own_guests : Members
own_guests = record loungers {
  list = record { nodes = 1 ∷ 2 ∷ []; iterator = at 0; count = 2 };
  count = pos 2;
}

abbrev own_visits : Members
own_visits = record visited {
  list = record { nodes = 7 ∷ []; iterator = at 0; count = 1 };
  count = pos 1;
}

abbrev joined : Session
joined = record busy {
  live_user_channels = λ p. if p == 9 then some own_visits else none;
  live_channel_users = λ p. if p == 8 then some own_guests else none;
}

joined_lounge_listed : find_channel_users joined 7 ≡ some 8
unfolding find_channel_users are_strings_equal
joined_lounge_listed =
    find_data-append_node (belongs_to_channel joined) 7 create_linked_list 8 refl tt

joined_guest_listed : find_user_channels joined 2 ≡ some 9
unfolding find_user_channels are_strings_equal
joined_guest_listed = find_data-append_node (belongs_to_user joined) 2 create_linked_list 9 refl tt

guest_there : Splits (users_equal joined) 2 (1 ∷ 2 ∷ []) (1 ∷ []) 2 []
unfolding are_strings_equal
guest_there = record { parts = refl; first = (refl, tt); hit = refl }

lounge_there : Splits (channels_equal joined) 7 (7 ∷ []) [] 7 []
unfolding are_strings_equal
lounge_there = record { parts = refl; first = tt; hit = refl }

register_channel_leave-Leaves_example :
    Leaves joined (register_channel_leave 7 2 joined) 8 9 own_guests own_visits (1 ∷ []) []
register_channel_leave-Leaves_example =
    register_channel_leave-Leaves joined 7 2 8 9 own_guests own_visits (1 ∷ []) [] [] [] 2 7
      joined_lounge_listed refl joined_guest_listed refl
      (record { counted = refl; list_counted = refl; within = omega arith })
      (record { counted = refl; list_counted = refl; within = omega arith }) guest_there
      lounge_there
