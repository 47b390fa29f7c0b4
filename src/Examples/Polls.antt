-- ===== src/Examples/Polls.antt =====
-- Runs of the poll manager of libs/src/poll_manager.c.
use irc_client_server.Base.{[], ◌∷◌, ◌≡◌, refl, true, none, arith}
use irc_client_server.HashTable.{new_table, find_item_in_hash_table}
use irc_client_server.PollManager.{
  PollManager, free_pfd, create_poll_manager, set_poll_fd, unset_poll_fd, get_poll_fd,
  is_fd_input_event, is_fd_error_event, find_fd_idx_in_hash_table,
}
use irc_client_server.PollManager.Consistency.{IsConsistent}
use irc_client_server.PollManager.Creation.{
  Creates, create_poll_manager-Creates, new_poll_manager-IsConsistent,
}
use irc_client_server.PollManager.Addition.{Sets, set_poll_fd-Sets}
use irc_client_server.PollManager.Removal.{Unsets, unset_poll_fd-Unsets}
use irc_client_server.PollManager.Events.{unregistered_events}

abbrev two_places : PollManager
two_places = record {
  pfds = free_pfd 1 0 ∷ free_pfd 1 0 ∷ [];
  fds_idx_map = new_table 2 0;
  events = 1;
  count = 0;
  capacity = 2;
}

two_places-IsConsistent : IsConsistent two_places
two_places-IsConsistent = new_poll_manager-IsConsistent 0 2 1 (omega arith)

two_places_unknown : get_poll_fd two_places 7 ≡ none
unfolding get_poll_fd find_fd_idx_in_hash_table find_item_in_hash_table
two_places_unknown = refl

abbrev watching : PollManager
watching = set_poll_fd two_places 7

create_poll_manager-Creates_example : Creates (create_poll_manager 0 3 1)
create_poll_manager-Creates_example = create_poll_manager-Creates 0 3 1

set_poll_fd-Sets_example : IsConsistent watching × Sets two_places 7 watching
set_poll_fd-Sets_example = set_poll_fd-Sets two_places two_places-IsConsistent 7 two_places_unknown

unset_poll_fd-Unsets_example :
    IsConsistent (unset_poll_fd watching 7) × Unsets watching 7 (unset_poll_fd watching 7)
unset_poll_fd-Unsets_example =
    unset_poll_fd-Unsets watching
      (set_poll_fd-Sets two_places two_places-IsConsistent 7 two_places_unknown).0 7

unregistered_events_example :
    (is_fd_input_event 1 two_places 7 ≡ true) × (is_fd_error_event 8 16 two_places 7 ≡ true)
unregistered_events_example =
    unregistered_events two_places two_places-IsConsistent 7 two_places_unknown 1 8 16
      (ground arith) (ground arith)
