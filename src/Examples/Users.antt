-- ===== src/Examples/Users.antt =====
-- Runs of server/src/session.c with two users: "ana" at address 1, in one channel, and her copy with
-- the nickname "ivo" at address 2.
use irc_client_server.Base.{
  ◌==◌, if◌then◌else◌, ◌≡◌, refl, Option, none, some, [], ◌∷◌, arith, false,
}
use irc_client_server.Base.Int.{pos}
use irc_client_server.Queue.{empty_queue}
use irc_client_server.LinkedList.{create_linked_list, at}
use irc_client_server.LinkedList.Search.{NoMatch}
use irc_client_server.HashTable.{
  HashTable, new_table, is_hash_table_full, create_hash_table, calculate_table_capacity,
  insert_item_to_hash_table, find_item_in_hash_table, add_item, find_in_chain,
}
use irc_client_server.HashTable.Hashes.{string_keys, are_strings_equal, djb2_hash}
use irc_client_server.HashTable.Validity.{IsValid, new, insert, Reached-IsValid}
use irc_client_server.Text.{Text}
use irc_client_server.User.{User}
use irc_client_server.Session.State.{Session, Members, Address, users_equal}
use irc_client_server.Session.Tables.{find_user_in_hash_table}
use irc_client_server.Session.Registration.{register_user}
use irc_client_server.Session.Rename.{Dangles, change_nickname, change_nickname-Dangles}
use irc_client_server.Session.Registered.{Registers, register_user-Registers}

abbrev named : Text → User
named nickname = record {
  fd = 4;
  nickname = nickname;
  username = [];
  hostname = [];
  realname = [];
  out_queue = empty_queue [] 2;
}

abbrev ana : Text
ana = b'a' ∷ b'n' ∷ b'a' ∷ []

abbrev ivo : Text
ivo = b'i' ∷ b'v' ∷ b'o' ∷ []

abbrev with_ana : HashTable Text Address
with_ana = (insert_item_to_hash_table string_keys (new_table 2 0) (ana, 1)).1

with_ana-IsValid : IsValid string_keys with_ana
unfolding create_hash_table calculate_table_capacity
with_ana-IsValid = Reached-IsValid string_keys (insert (ana, 1) (new 2 0 refl))

abbrev talkers : Members
talkers = record {
  owner = 7;
  list = record { nodes = 1 ∷ []; iterator = at 0; count = 1 };
  capacity = 100;
  count = pos 1;
}

abbrev users_at : Address → Option User
users_at p = if p == 1 then some (named ana) else if p == 2 then some (named ivo) else none

abbrev one_user : Session
one_user = record {
  next_address = 9;
  live_users = users_at;
  live_channels = λ p. none;
  live_user_channels = λ p. none;
  live_channel_users = λ p. if p == 8 then some talkers else none;
  ready_users = create_linked_list;
  ready_channels = create_linked_list;
  users = with_ana;
  channels = new_table 2 0;
  user_channels_ll = create_linked_list;
  channel_users_ll = create_linked_list;
}

nobody_else : NoMatch (users_equal one_user) 2 (1 ∷ [])
unfolding are_strings_equal
nobody_else = (refl, tt)

ana_found : find_user_in_hash_table one_user ana ≡ some 1
unfolding insert_item_to_hash_table find_item_in_hash_table add_item djb2_hash find_in_chain
    are_strings_equal
ana_found = refl

ivo_not_found : find_user_in_hash_table one_user ivo ≡ none
unfolding insert_item_to_hash_table find_item_in_hash_table add_item djb2_hash find_in_chain
    are_strings_equal
ivo_not_found = refl

room_left : is_hash_table_full with_ana ≡ false
unfolding insert_item_to_hash_table find_item_in_hash_table add_item djb2_hash find_in_chain
    are_strings_equal
room_left = refl

change_nickname-Dangles_example : Dangles (change_nickname 8 1 2 one_user) 8 1 talkers
change_nickname-Dangles_example =
    change_nickname-Dangles one_user 8 1 2 talkers (named ana) (named ivo) with_ana-IsValid refl
      refl nobody_else refl refl (λ e. absurd (omega arith)) ana_found

register_user-Registers_example : Registers one_user 2 (named ivo) (register_user 2 one_user)
register_user-Registers_example =
    register_user-Registers one_user 2 (named ivo) refl with_ana-IsValid room_left ivo_not_found tt
      tt
