-- ===== src/PollManager/Addition.antt =====
-- `set_poll_fd` of libs/src/poll_manager.c on consistent managers.
use native.Mathlib.Decide.{ℕ_discrete}
use irc_client_server.Base.{
  ℕ, ◌+◌, ◌<◌, ◌==◌, if◌then◌else◌, ==_iff, some_eq, Bool-cases, ◌≡◌, refl, sym, ap, ◌∙◌, ◌⊎◌, inl,
  inr, false, Option, none, some, arith, length, length-set,
}
use irc_client_server.HashTable.{insert_item_to_hash_table}
use irc_client_server.HashTable.Hashes.{int_keys}
use irc_client_server.HashTable.Validity.{insert-IsValid}
use irc_client_server.HashTable.Bounds.{SameShape, insert-shape}
use irc_client_server.PollManager.{
  PollManager, find_free, add_fd_idx_to_hash_table, find_fd_idx_in_hash_table, pfd_at, assign,
  set_poll_fd, get_poll_fd, create_pfd_idx_pair,
}
use irc_client_server.PollManager.Places.{
  used, assigned, Frees, find_free-Frees, assigned-assign, assign_self, assign_ne,
}
use irc_client_server.PollManager.Consistency.{
  IsConsistent, inserted, find-add, free_ne, registered, get_poll_fd-registered, no_fd-none,
}

-- What `set_poll_fd` does: with every place in use nothing, else it adds the descriptor.
abbrev pub Sets : PollManager → ℕ → PollManager → Type 0
Sets p fd p' =
    ((p.count ≡ p.capacity) × (p' ≡ p))
    ⊎ ((p.count < p.capacity)
        × (p'.count ≡ p.count + 1)
        × ((q : ℕ) → get_poll_fd p' q ≡ (if fd == q then some fd else get_poll_fd p q)))

module _ (p : PollManager) (h : IsConsistent p) (fd : ℕ) where
  -- A descriptor put into a free place.
  set_at-IsConsistent :
      (i : ℕ)
      → find_fd_idx_in_hash_table p.fds_idx_map fd ≡ none
      → i < length p.pfds
      → (pfd_at p.pfds i).fd ≡ none
      → assigned p.pfds < length p.pfds
      → IsConsistent (record p {
        fds_idx_map = add_fd_idx_to_hash_table p.fds_idx_map fd i;
        pfds = assign p.pfds i (some fd);
        count = p.count + 1;
      })
  set_at-IsConsistent i absent lt free room = record {
    map_valid =
        unfold add_fd_idx_to_hash_table in
        insert-IsValid int_keys p.fds_idx_map h.map_valid (fd, create_pfd_idx_pair fd i);
    map_factor = unfold add_fd_idx_to_hash_table in shape.1 ∙ h.map_factor;
    map_capacity = unfold add_fd_idx_to_hash_table in shape.0 ∙ h.map_capacity;
    map_total = unfold add_fd_idx_to_hash_table in (inserted p h fd i absent room).0;
    width = length-set p.pfds i (record (pfd_at p.pfds i) { fd = some fd }) ∙ h.width;
    counted = omega (arith, h.counted, assigned-assign p.pfds i (some fd) lt, ap used free);
    leads = leads';
    led = led';
  }
    where
      shape :
          SameShape int_keys p.fds_idx_map
            (insert_item_to_hash_table int_keys p.fds_idx_map (fd, create_pfd_idx_pair fd i)).1
      shape = insert-shape int_keys p.fds_idx_map (fd, create_pfd_idx_pair fd i)

      absent_ne : (q j : ℕ) → find_fd_idx_in_hash_table p.fds_idx_map q ≡ some j → fd == q ≡ false
      absent_ne q j there = elim (Bool-cases (fd == q)) [
        | inl same ↦
            let bad : ◌≡◌ {A = Option ℕ} none (some j) =
              sym absent
              ∙ ap (find_fd_idx_in_hash_table p.fds_idx_map) ((==_iff fd q).0 same)
              ∙ there in
            absurd (cc)
        | inr other ↦ other
      ]

      leads' :
          (q j : ℕ)
          → find_fd_idx_in_hash_table (add_fd_idx_to_hash_table p.fds_idx_map fd i) q ≡ some j
          → (pfd_at (assign p.pfds i (some fd)) j).fd ≡ some q
      leads' q j e = elim (Bool-cases (fd == q)) [
        | inl same ↦
            let here : some i ≡ some j = rw same at (sym (find-add p h fd i absent room q) ∙ e) in
            ap (λ k. (pfd_at (assign p.pfds i (some fd)) k).fd) (sym (some_eq here))
            ∙ assign_self p.pfds i (some fd) lt
            ∙ ap some ((==_iff fd q).0 same)
        | inr other ↦
            let there : find_fd_idx_in_hash_table p.fds_idx_map q ≡ some j =
              rw other at (sym (find-add p h fd i absent room q) ∙ e) in
            assign_ne p.pfds i j (some fd) (free_ne p h fd i j q free (h.leads q j there))
            ∙ h.leads q j there
      ]

      led' :
          (q j : ℕ)
          → (pfd_at (assign p.pfds i (some fd)) j).fd ≡ some q
          → find_fd_idx_in_hash_table (add_fd_idx_to_hash_table p.fds_idx_map fd i) q ≡ some j
      led' q j e = find-add p h fd i absent room q ∙ elim (ℕ_discrete i j) [
        | yes same ↦
            let held = ap (λ k. (pfd_at (assign p.pfds i (some fd)) k).fd) same ∙ e in
            rw ((==_iff fd q).1 (some_eq (sym (assign_self p.pfds i (some fd) lt) ∙ held)))
              (ap some same)
        | no ne ↦
            let there = h.led q j (sym (assign_ne p.pfds i j (some fd) ne) ∙ e) in
            rw (absent_ne q j there) there
      ]

  -- A descriptor that is not registered is added to a consistent manager exactly if a place is free:
  -- then it is found, every other descriptor is found as before, and the count is one more; else
  -- nothing changes. The manager stays consistent.
  pub set_poll_fd-Sets :
      get_poll_fd p fd ≡ none → IsConsistent (set_poll_fd p fd) × Sets p fd (set_poll_fd p fd)
  unfolding set_poll_fd
  set_poll_fd-Sets unknown = go (find_free p.pfds) (find_free-Frees p.pfds)
    where
      absent : find_fd_idx_in_hash_table p.fds_idx_map fd ≡ none
      absent =
          no_fd-none (find_fd_idx_in_hash_table p.fds_idx_map fd) fd
            (sym (get_poll_fd-registered p h fd) ∙ unknown)

      read :
          (i q : ℕ)
          → let p' : PollManager = record p {
            fds_idx_map = add_fd_idx_to_hash_table p.fds_idx_map fd i;
            pfds = assign p.pfds i (some fd);
            count = p.count + 1;
          } in
            IsConsistent p'
            → assigned p.pfds < length p.pfds
            → get_poll_fd p' q ≡ (if fd == q then some fd else get_poll_fd p q)
      read i q h' room =
          get_poll_fd-registered _ h' q
          ∙ ap (λ o. registered o q) (find-add p h fd i absent room q)
          ∙ elim (Bool-cases (fd == q)) [
            | inl same ↦ rw same (ap some (sym ((==_iff fd q).0 same)))
            | inr other ↦ rw other (sym (get_poll_fd-registered p h q))
          ]

      go :
          (o : Option ℕ)
          → Frees p.pfds o
          → let p' : PollManager = elim o [
            | none ↦ p
            | some i ↦ record p {
              fds_idx_map = add_fd_idx_to_hash_table p.fds_idx_map fd i;
              pfds = assign p.pfds i (some fd);
              count = p.count + 1;
            }
          ] in
            IsConsistent p' × Sets p fd p'
      go none full = (h, inl (omega (arith, h.counted, h.width), refl))
      go (some i) (lt, free, room) =
          let h' = set_at-IsConsistent i absent lt free room in
          (h', inr (omega (arith, h.counted, h.width), refl, λ q. read i q h' room))
