-- ===== src/PollManager/Removal.antt =====
-- `unset_poll_fd` of libs/src/poll_manager.c on consistent managers.
use native.Mathlib.Decide.{ℕ_discrete}
use irc_client_server.Base.{
  ℕ, ◌-◌, ◌<◌, ◌==◌, if◌then◌else◌, ==_iff, some_eq, is_none, Bool-cases, ◌≡◌, refl, sym, ap, ◌∙◌,
  ◌≢◌, inl, inr, true, false, Option, none, some, arith, length, length-set,
}
use irc_client_server.HashTable.{remove_item_from_hash_table}
use irc_client_server.HashTable.Hashes.{int_keys}
use irc_client_server.HashTable.Validity.{remove-IsValid}
use irc_client_server.HashTable.Bounds.{SameShape, remove-shape}
use irc_client_server.PollManager.{
  PollManager, remove_fd_idx_from_hash_table, find_fd_idx_in_hash_table, pfd_at, assign,
  unset_poll_fd, get_poll_fd,
}
use irc_client_server.PollManager.Places.{used, assigned-assign, held_lt, assign_self, assign_ne}
use irc_client_server.PollManager.Consistency.{
  IsConsistent, removed, find-remove, registered, get_poll_fd-registered,
}

-- What `unset_poll_fd` does.
abbrev pub Unsets : PollManager → ℕ → PollManager → Type 0
Unsets p fd p' =
    (p'.count ≡ (if is_none (get_poll_fd p fd) then p.count else p.count - 1))
    × ((q : ℕ) → get_poll_fd p' q ≡ (if fd == q then none else get_poll_fd p q))

module _ (p : PollManager) (h : IsConsistent p) (fd : ℕ) where
  -- A descriptor taken out of its place.
  unset_at-IsConsistent :
      (i : ℕ)
      → find_fd_idx_in_hash_table p.fds_idx_map fd ≡ some i
      → IsConsistent (record p {
        fds_idx_map = remove_fd_idx_from_hash_table p.fds_idx_map fd;
        pfds = assign p.pfds i none;
        count = p.count - 1;
      })
  unset_at-IsConsistent i present = record {
    map_valid =
        unfold remove_fd_idx_from_hash_table in
        remove-IsValid int_keys p.fds_idx_map h.map_valid fd;
    map_factor = unfold remove_fd_idx_from_hash_table in shape.1 ∙ h.map_factor;
    map_capacity = unfold remove_fd_idx_from_hash_table in shape.0 ∙ h.map_capacity;
    map_total = unfold remove_fd_idx_from_hash_table in omega (arith, removed p h fd i present);
    width = length-set p.pfds i (record (pfd_at p.pfds i) { fd = none }) ∙ h.width;
    counted =
        omega (arith, h.counted, assigned-assign p.pfds i none lt, ap used (h.leads fd i present));
    leads = leads';
    led = led';
  }
    where
      lt : i < length p.pfds
      lt = held_lt p.pfds i fd (h.leads fd i present)

      shape :
          SameShape int_keys p.fds_idx_map (remove_item_from_hash_table int_keys p.fds_idx_map fd).1
      shape = remove-shape int_keys p.fds_idx_map fd

      apart :
          (q j : ℕ) → fd == q ≡ false → find_fd_idx_in_hash_table p.fds_idx_map q ≡ some j → i ≢ j
      apart q j other there ij =
          let same : fd == q ≡ true = (==_iff fd q).1 (
            some_eq (
              sym (h.leads fd i present)
              ∙ ap (λ k. (pfd_at p.pfds k).fd) ij
              ∙ h.leads q j there)) in
          absurd (cc)

      unlike :
          (q j : ℕ) → i ≢ j → find_fd_idx_in_hash_table p.fds_idx_map q ≡ some j → fd == q ≡ false
      unlike q j ne there = elim (Bool-cases (fd == q)) [
        | inl same ↦ absurd (
            ne (
              some_eq (
                sym present
                ∙ ap (find_fd_idx_in_hash_table p.fds_idx_map) ((==_iff fd q).0 same)
                ∙ there)))
        | inr other ↦ other
      ]

      leads' :
          (q j : ℕ)
          → find_fd_idx_in_hash_table (remove_fd_idx_from_hash_table p.fds_idx_map fd) q ≡ some j
          → (pfd_at (assign p.pfds i none) j).fd ≡ some q
      leads' q j e = elim (Bool-cases (fd == q)) [
        | inl same ↦
            let bad : ◌≡◌ {A = Option ℕ} none (some j) =
              rw same at (sym (find-remove p h fd q) ∙ e) in
            absurd (cc)
        | inr other ↦
            let there : find_fd_idx_in_hash_table p.fds_idx_map q ≡ some j =
              rw other at (sym (find-remove p h fd q) ∙ e) in
            assign_ne p.pfds i j none (apart q j other there) ∙ h.leads q j there
      ]

      led' :
          (q j : ℕ)
          → (pfd_at (assign p.pfds i none) j).fd ≡ some q
          → find_fd_idx_in_hash_table (remove_fd_idx_from_hash_table p.fds_idx_map fd) q ≡ some j
      led' q j e = find-remove p h fd q ∙ elim (ℕ_discrete i j) [
        | yes same ↦
            let bad : ◌≡◌ {A = Option ℕ} none (some q) =
              sym (assign_self p.pfds i none lt)
              ∙ ap (λ k. (pfd_at (assign p.pfds i none) k).fd) same
              ∙ e in
            absurd (cc)
        | no ne ↦
            let there = h.led q j (sym (assign_ne p.pfds i j none ne) ∙ e) in
            rw (unlike q j ne there) there
      ]

  -- A descriptor taken from a consistent manager is found no more, every other one is found as before,
  -- and the count is one less if it was registered. The manager stays consistent.
  pub unset_poll_fd-Unsets : IsConsistent (unset_poll_fd p fd) × Unsets p fd (unset_poll_fd p fd)
  unfolding unset_poll_fd
  unset_poll_fd-Unsets = go (find_fd_idx_in_hash_table p.fds_idx_map fd) refl
    where
      go :
          (o : Option ℕ)
          → find_fd_idx_in_hash_table p.fds_idx_map fd ≡ o
          → let p' : PollManager = elim o [
            | none ↦ p
            | some i ↦ record p {
              fds_idx_map = remove_fd_idx_from_hash_table p.fds_idx_map fd;
              pfds = assign p.pfds i none;
              count = p.count - 1;
            }
          ] in
            IsConsistent p' × Unsets p fd p'
      go none e =
          let unknown : get_poll_fd p fd ≡ none =
            get_poll_fd-registered p h fd ∙ ap (λ o. registered o fd) e in
          (
            h,
            (
              rw unknown refl,
              λ q. elim (Bool-cases (fd == q)) [
                | inl same ↦ rw same (ap (get_poll_fd p) (sym ((==_iff fd q).0 same)) ∙ unknown)
                | inr other ↦ rw other refl
              ],
            ),
          )
      go (some i) e =
          let h' = unset_at-IsConsistent i e in
          let known : get_poll_fd p fd ≡ some fd =
            get_poll_fd-registered p h fd ∙ ap (λ o. registered o fd) e in
          (
            h',
            (
              rw known refl,
              λ q.
                  get_poll_fd-registered _ h' q
                  ∙ ap (λ o. registered o q) (find-remove p h fd q)
                  ∙ elim (Bool-cases (fd == q)) [
                    | inl same ↦ rw same refl
                    | inr other ↦ rw other (sym (get_poll_fd-registered p h q))
                  ],
            ),
          )
