-- ===== src/PollManager/Creation.antt =====
-- `create_poll_manager` of libs/src/poll_manager.c.
use irc_client_server.Base.{
  ℕ, zero, suc, ◌≤◌, ◌<◌, ◌==◌, ◌≡◌, refl, sym, ◌∙◌, Option, none, some, false, arith, replicate,
  length-replicate,
}
use irc_client_server.HashTable.{
  create_hash_table, calculate_table_capacity, new_table, find_item_in_hash_table,
}
use irc_client_server.HashTable.Hashes.{int_keys}
use irc_client_server.HashTable.Bounds.{calculate_table_capacity_least}
use irc_client_server.HashTable.Validity.{new, Reached-IsValid}
use irc_client_server.PollManager.{
  PollManager, FdIdxPair, free_pfd, new_poll_manager, create_poll_manager, valid_capacity, max_fds,
  find_fd_idx_in_hash_table, pfd_at,
}
use irc_client_server.PollManager.Places.{assigned}
use irc_client_server.PollManager.Consistency.{IsConsistent}

-- A new manager: nothing is registered in any of at most `max_fds` places.
pub record Creates (r : Option PollManager) : Type 0 where
  pub manager : PollManager
  pub created : r ≡ some manager
  pub consistent : IsConsistent manager
  pub unused : manager.count ≡ 0
  pub room : 0 < manager.capacity
  pub bounded : manager.capacity ≤ max_fds

valid_capacity-room :
    (capacity : ℕ) → (0 < valid_capacity capacity) × (valid_capacity capacity ≤ max_fds)
valid_capacity-room capacity = ground arith

table_created :
    (capacity : ℕ)
    → 0 < capacity
    → create_hash_table {K = ℕ} {V = FdIdxPair} capacity 0 ≡ some (new_table capacity 0)
unfolding create_hash_table
table_created capacity room =
    let positive : capacity == 0 ≡ false = ground arith in
    rw (one_each capacity, create_hash_table) (rw positive refl)
  where
    one_each : (capacity : ℕ) → calculate_table_capacity capacity 0 ≡ capacity
    one_each capacity = omega (arith, calculate_table_capacity_least capacity 0)

free_places : (n e g i : ℕ) → (pfd_at (replicate n (free_pfd e g)) i).fd ≡ none
free_places zero e g i = refl
free_places (suc n) e g zero = refl
free_places (suc n) e g (suc i) = free_places n e g i

none_assigned : (n e g : ℕ) → assigned (replicate n (free_pfd e g)) ≡ 0
none_assigned zero e g = refl
none_assigned (suc n) e g = omega (arith, none_assigned n e g)

pub new_poll_manager-IsConsistent :
    (garbage capacity events : ℕ)
    → 0 < capacity
    → IsConsistent (record {
      pfds = replicate capacity (free_pfd events garbage);
      fds_idx_map = new_table capacity 0;
      events = events;
      count = 0;
      capacity = capacity;
    })
unfolding find_fd_idx_in_hash_table find_item_in_hash_table
new_poll_manager-IsConsistent garbage capacity events room = record {
  map_valid = Reached-IsValid int_keys (new capacity 0 (table_created capacity room));
  map_factor = refl;
  map_capacity = refl;
  map_total = omega arith;
  width = length-replicate capacity (free_pfd events garbage);
  counted = sym (none_assigned capacity events garbage);
  leads = λ fd i e. absurd (cc);
  led = λ fd i e.
      let bad : ◌≡◌ {A = Option ℕ} none (some fd) =
        sym (free_places capacity events garbage i) ∙ e in
      absurd (cc);
}

-- Creation succeeds whatever capacity is asked for: there is room for one descriptor at least and for
-- `max_fds` at most, nothing is registered, and the manager is consistent.
pub create_poll_manager-Creates :
    (garbage capacity events : ℕ) → Creates (create_poll_manager garbage capacity events)
unfolding create_poll_manager new_poll_manager
create_poll_manager-Creates garbage capacity events =
    let c = valid_capacity capacity in
    let bounds = valid_capacity-room capacity in
    rw (table_created c bounds.0, create_poll_manager, new_poll_manager)
      record {
        manager = record {
          pfds = replicate c (free_pfd events garbage);
          fds_idx_map = new_table c 0;
          events = events;
          count = 0;
          capacity = c;
        };
        created = refl;
        consistent = new_poll_manager-IsConsistent garbage c events bounds.0;
        unused = refl;
        room = bounds.0;
        bounded = bounds.1;
      }
