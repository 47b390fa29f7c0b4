-- ===== src/PollManager.antt =====
-- libs/src/poll_manager.c: the array of descriptors that `poll` watches, and a hash table that leads
-- from a descriptor to its place in the array. A descriptor is a natural number, a free place holds
-- none (UNASSIGNED), and a result of -1 is none. `garbage` is what `malloc` leaves in `revents`; what
-- `poll` writes there is the bit pattern of a short. The masks of <poll.h> are arguments.
pub mod Places
pub mod Consistency
pub mod Addition
pub mod Removal
pub mod Events
pub mod Creation
use Prim.Native.Nat.{bit_and}
use irc_client_server.Base.{
  ℕ, ◌+◌, ◌-◌, ltb, ◌==◌, if◌then◌else◌, Bool, true, false, not, ◌||◌, Option, none, some, List, [],
  ◌∷◌, replicate, set, get_or,
}
use irc_client_server.HashTable.{
  HashTable, create_hash_table, get_value, find_item_in_hash_table, insert_item_to_hash_table,
  remove_item_from_hash_table,
}
use irc_client_server.HashTable.Hashes.{int_keys}

-- `struct pollfd`
pub record PollFd : Type 0 where
  pub fd : Option ℕ
  pub events : ℕ
  pub revents : ℕ

pub record FdIdxPair : Type 0 where
  pub fd : ℕ
  pub fd_idx : ℕ

pub record PollManager : Type 0 where
  pub pfds : List PollFd
  pub fds_idx_map : HashTable ℕ FdIdxPair
  pub events : ℕ
  pub count : ℕ
  pub capacity : ℕ

abbrev pub def_fds : ℕ
def_fds = 512 + 128

abbrev pub max_fds : ℕ
max_fds = 1024 + 128

-- A capacity of zero or less is 0.
abbrev pub valid_capacity : ℕ → ℕ
valid_capacity capacity =
    if capacity == 0 then def_fds else if ltb max_fds capacity then max_fds else capacity

abbrev pub free_pfd : ℕ → ℕ → PollFd
free_pfd events garbage = record { fd = none; events = events; revents = garbage }

-- `create_poll_manager` behind its check of the capacity.
unfoldable pub new_poll_manager : ℕ → ℕ → ℕ → Option PollManager
new_poll_manager garbage capacity events = elim (create_hash_table capacity 0) [
  | none ↦ none
  | some fds_idx_map ↦ some (record {
    pfds = replicate capacity (free_pfd events garbage);
    fds_idx_map = fds_idx_map;
    events = events;
    count = 0;
    capacity = capacity;
  })
]

unfoldable pub create_poll_manager : ℕ → ℕ → ℕ → Option PollManager
create_poll_manager garbage capacity events =
    new_poll_manager garbage (valid_capacity capacity) events

abbrev pub is_unassigned : Option ℕ → Bool
is_unassigned none = true
is_unassigned (some fd) = false

-- The loop of `find_poll_fd_idx(pollManager, UNASSIGNED)`, the only call of that function.
pub find_free : List PollFd → Option ℕ
find_free [] = none
find_free (pfd ∷ pfds) =
    let rest = find_free pfds in
    if is_unassigned pfd.fd then some 0 else elim rest [ none ↦ none | some i ↦ some (i + 1) ]

abbrev pub are_pfd_idx_equal : FdIdxPair → FdIdxPair → Bool
are_pfd_idx_equal p1 p2 = p1.fd == p2.fd

abbrev pub create_pfd_idx_pair : ℕ → ℕ → FdIdxPair
create_pfd_idx_pair fd fd_idx = record { fd = fd; fd_idx = fd_idx }

unfoldable pub add_fd_idx_to_hash_table : HashTable ℕ FdIdxPair → ℕ → ℕ → HashTable ℕ FdIdxPair
add_fd_idx_to_hash_table t fd fd_idx =
    (insert_item_to_hash_table int_keys t (fd, create_pfd_idx_pair fd fd_idx)).1

unfoldable pub remove_fd_idx_from_hash_table : HashTable ℕ FdIdxPair → ℕ → HashTable ℕ FdIdxPair
remove_fd_idx_from_hash_table t fd = (remove_item_from_hash_table int_keys t fd).1

abbrev pub idx_of : Option FdIdxPair → Option ℕ
idx_of none = none
idx_of (some pair) = some pair.fd_idx

unfoldable pub find_fd_idx_in_hash_table : HashTable ℕ FdIdxPair → ℕ → Option ℕ
find_fd_idx_in_hash_table t fd = idx_of (get_value (find_item_in_hash_table int_keys t fd))

-- `pfds[i]`
abbrev pub pfd_at : List PollFd → ℕ → PollFd
pfd_at pfds i = get_or pfds i (free_pfd 0 0)

-- `pfds[i].fd = fd`
abbrev pub assign : List PollFd → ℕ → Option ℕ → List PollFd
assign pfds i fd = set pfds i (record (pfd_at pfds i) { fd = fd })

unfoldable pub set_poll_fd : PollManager → ℕ → PollManager
set_poll_fd p fd = elim (find_free p.pfds) [
  | none ↦ p
  | some i ↦ record p {
    fds_idx_map = add_fd_idx_to_hash_table p.fds_idx_map fd i;
    pfds = assign p.pfds i (some fd);
    count = p.count + 1;
  }
]

unfoldable pub unset_poll_fd : PollManager → ℕ → PollManager
unset_poll_fd p fd = elim (find_fd_idx_in_hash_table p.fds_idx_map fd) [
  | none ↦ p
  | some i ↦ record p {
    fds_idx_map = remove_fd_idx_from_hash_table p.fds_idx_map fd;
    pfds = assign p.pfds i none;
    count = p.count - 1;
  }
]

abbrev pub get_poll_fd_count : PollManager → ℕ
get_poll_fd_count p = p.count

abbrev pub get_poll_capacity : PollManager → ℕ
get_poll_capacity p = p.capacity

unfoldable pub get_poll_fd : PollManager → ℕ → Option ℕ
get_poll_fd p fd = elim (find_fd_idx_in_hash_table p.fds_idx_map fd) [
  | none ↦ none
  | some i ↦ (pfd_at p.pfds i).fd
]

unfoldable pub get_poll_revents : PollManager → ℕ → Option ℕ
get_poll_revents p fd = elim (find_fd_idx_in_hash_table p.fds_idx_map fd) [
  | none ↦ none
  | some i ↦ some (pfd_at p.pfds i).revents
]

-- `revents & mask`: every bit of -1 is set.
abbrev pub masked : Option ℕ → ℕ → ℕ
masked none mask = mask
masked (some revents) mask = bit_and revents mask

unfoldable pub is_fd_input_event : ℕ → PollManager → ℕ → Bool
is_fd_input_event pollin p fd = not (masked (get_poll_revents p fd) pollin == 0)

unfoldable pub is_fd_error_event : ℕ → ℕ → PollManager → ℕ → Bool
is_fd_error_event pollerr pollhup p fd =
    not (masked (get_poll_revents p fd) pollerr == 0)
    || not (masked (get_poll_revents p fd) pollhup == 0)
