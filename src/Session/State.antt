-- ===== src/Session/State.antt =====
-- The state of server/src/session.c on an explicit heap, and the monad of its operations. A pointer is
-- an address; the four maps give the live object at an address, so that a pointer whose object was
-- freed is seen. `UserChannels` and `ChannelUsers` have the same fields and are one record, `Members`.
-- Locks are left out (see user.c). A run fails where the source calls FAILED, which ends the process,
-- and faults where it reads through a dangling pointer; a comparison through one, inside a search of
-- a list, is taken to find no match.
use irc_client_server.Base.{ℕ, ◌==◌, if◌then◌else◌, Bool, false, Option, none, some}
use irc_client_server.Base.Int.{ℤ}
use irc_client_server.LinkedList.{LinkedList, create_linked_list}
use irc_client_server.HashTable.{HashTable, new_table}
use irc_client_server.Text.{Text}
use irc_client_server.User.{User, are_users_equal}
use irc_client_server.Channel.{Channel, are_channels_equal}

abbrev pub Address : Type 0
Address = ℕ

-- `struct UserChannels` and `struct ChannelUsers`: the owner, the list of its channels or users, and
-- their number as the code counts it.
pub record Members : Type 0 where
  pub owner : Address
  pub list : LinkedList Address
  pub capacity : ℕ
  pub count : ℤ

pub record Session : Type 0 where
  pub next_address : Address
  pub live_users : Address → Option User
  pub live_channels : Address → Option Channel
  pub live_user_channels : Address → Option Members
  pub live_channel_users : Address → Option Members
  pub ready_users : LinkedList Address
  pub ready_channels : LinkedList Address
  pub users : HashTable Text Address
  pub channels : HashTable Text Address
  pub user_channels_ll : LinkedList Address
  pub channel_users_ll : LinkedList Address

pub data Run (A : Type 0) : Type 0 where
  ok : A → Session → Run A
  failed : Run A
  fault : Run A

abbrev pub M : Type 0 → Type 0
M A = Session → Run A

infixl 5 ◌>>=◌ ◌>>◌
abbrev pub bind_run : {A B : Type 0} → Run A → (A → M B) → Run B
bind_run (ok a s) f = f a s
bind_run failed f = failed
bind_run fault f = fault

abbrev pub ◌>>=◌ : {A B : Type 0} → M A → (A → M B) → M B
◌>>=◌ m f s = bind_run (m s) f

abbrev pub ◌>>◌ : {A B : Type 0} → M A → M B → M B
◌>>◌ m k s = bind_run (m s) (λ _. k)

abbrev pub pure : {A : Type 0} → A → M A
pure a s = ok a s

abbrev pub get : M Session
get s = ok s s

abbrev pub put : Session → M (Unit {0})
put s' s = ok tt s'

abbrev pub update : {A : Type 0} → (Address → Option A) → Address → Option A → Address → Option A
update f p v q = if p == q then v else f q

-- A read through a pointer.
abbrev pub deref : {A : Type 0} → (Session → Address → Option A) → Address → M A
deref heap p s = elim (heap s p) [ none ↦ fault | some a ↦ ok a s ]

-- The guard of a function that does not take a null pointer.
abbrev pub non_null : Option Address → M Address
non_null none s = failed
non_null (some p) s = ok p s

-- `are_users_equal` and its kin on the objects that two pointers lead to.
abbrev pub both : {A : Type 0} → (A → A → Bool) → Option A → Option A → Bool
both same none b = false
both same (some a) none = false
both same (some a) (some b) = same a b

abbrev pub users_equal : Session → Address → Address → Bool
users_equal s p q = both are_users_equal (s.live_users p) (s.live_users q)

abbrev pub channels_equal : Session → Address → Address → Bool
channels_equal s p q = both are_channels_equal (s.live_channels p) (s.live_channels q)

abbrev pub owner_of : Option Members → Option Address
owner_of none = none
owner_of (some m) = some m.owner

abbrev pub owned_by : (Address → Address → Bool) → Option Address → Address → Bool
owned_by same none q = false
owned_by same (some p) q = same p q

-- The comparison of a record with the temporary `&(UserChannels){user, NULL, 0, 0}`.
abbrev pub belongs_to_user : Session → Address → Address → Bool
belongs_to_user s uc user = owned_by (users_equal s) (owner_of (s.live_user_channels uc)) user

abbrev pub belongs_to_channel : Session → Address → Address → Bool
belongs_to_channel s cu channel =
    owned_by (channels_equal s) (owner_of (s.live_channel_users cu)) channel

abbrev pub owners_equal : (Address → Address → Bool) → Option Address → Option Address → Bool
owners_equal same none b = false
owners_equal same (some a) none = false
owners_equal same (some a) (some b) = same a b

abbrev pub are_user_channels_equal : Session → Address → Address → Bool
are_user_channels_equal s p q =
    owners_equal (users_equal s) (owner_of (s.live_user_channels p))
      (owner_of (s.live_user_channels q))

abbrev pub are_channel_users_equal : Session → Address → Address → Bool
are_channel_users_equal s p q =
    owners_equal (channels_equal s) (owner_of (s.live_channel_users p))
      (owner_of (s.live_channel_users q))

abbrev pub max_users : ℕ
max_users = 1024

abbrev pub max_channels : ℕ
max_channels = 100

-- Tables of `max_users` and `max_channels` at the default load factor, and empty lists.
unfoldable pub create_session : Session
create_session = record {
  next_address = 1;
  live_users = λ p. none;
  live_channels = λ p. none;
  live_user_channels = λ p. none;
  live_channel_users = λ p. none;
  ready_users = create_linked_list;
  ready_channels = create_linked_list;
  users = new_table max_users 0;
  channels = new_table max_channels 0;
  user_channels_ll = create_linked_list;
  channel_users_ll = create_linked_list;
}
