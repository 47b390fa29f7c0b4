-- ===== src/PollManager/Events.antt =====
-- The tests of the events of a descriptor in libs/src/poll_manager.c.
use irc_client_server.Base.{ℕ, ◌==◌, ◌≡◌, refl, sym, ◌∙◌, ◌≢◌, true, false, none, arith}
use irc_client_server.PollManager.{
  PollManager, find_fd_idx_in_hash_table, get_poll_fd, get_poll_revents, is_fd_input_event,
  is_fd_error_event,
}
use irc_client_server.PollManager.Consistency.{IsConsistent, get_poll_fd-registered, no_fd-none}

-- For a descriptor that is not registered in a consistent manager both tests of its events succeed, with
-- masks that are not empty: they take every bit of the result -1.
pub unregistered_events :
    (p : PollManager)
    → IsConsistent p
    → (fd : ℕ) → get_poll_fd p fd ≡ none
    → (pollin pollerr pollhup : ℕ) → pollin ≢ 0
    → pollerr ≢ 0
    → (is_fd_input_event pollin p fd ≡ true) × (is_fd_error_event pollerr pollhup p fd ≡ true)
unfolding is_fd_input_event is_fd_error_event get_poll_revents
unregistered_events p h fd unknown pollin pollerr pollhup i e =
    let absent : find_fd_idx_in_hash_table p.fds_idx_map fd ≡ none =
      no_fd-none (find_fd_idx_in_hash_table p.fds_idx_map fd) fd
        (sym (get_poll_fd-registered p h fd) ∙ unknown) in
    let input : pollin == 0 ≡ false = ground arith in
    let error : pollerr == 0 ≡ false = ground arith in
    rw (absent, is_fd_input_event, is_fd_error_event, get_poll_revents)
      (rw (input, error) (refl, refl))
