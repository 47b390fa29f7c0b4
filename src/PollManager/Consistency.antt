-- ===== src/PollManager/Consistency.antt =====
-- The array of libs/src/poll_manager.c and the table from descriptors to places.
use irc_client_server.Base.{
  ℕ, ◌+◌, ◌<◌, ◌==◌, if◌then◌else◌, Bool-cases, ◌≡◌, refl, sym, ap, ◌∙◌, ◌≢◌, inl, inr, true, false,
  Option, none, some, arith, length,
}
use irc_client_server.HashTable.{
  HashTable, get_value, find_item_in_hash_table, insert_item_to_hash_table,
  remove_item_from_hash_table, get_total_items, is_hash_table_full,
}
use irc_client_server.HashTable.Hashes.{int_keys}
use irc_client_server.HashTable.Validity.{IsValid}
use irc_client_server.HashTable.Map.{insert-Inserts, remove-Removes, found}
use irc_client_server.PollManager.{
  FdIdxPair, PollManager, add_fd_idx_to_hash_table, remove_fd_idx_from_hash_table, idx_of,
  find_fd_idx_in_hash_table, pfd_at, get_poll_fd, create_pfd_idx_pair,
}
use irc_client_server.PollManager.Places.{assigned}

-- The table leads to exactly the places that hold a descriptor, and the count is their number.
pub record IsConsistent (p : PollManager) : Type 0 where
  pub map_valid : IsValid int_keys p.fds_idx_map
  pub map_factor : p.fds_idx_map.load_factor ≡ 1
  pub map_capacity : p.fds_idx_map.capacity ≡ p.capacity
  pub map_total : get_total_items p.fds_idx_map ≡ p.count
  pub width : length p.pfds ≡ p.capacity
  pub counted : p.count ≡ assigned p.pfds
  pub leads :
      (fd i : ℕ)
      → find_fd_idx_in_hash_table p.fds_idx_map fd ≡ some i
      → (pfd_at p.pfds i).fd ≡ some fd
  pub led :
      (fd i : ℕ)
      → (pfd_at p.pfds i).fd ≡ some fd
      → find_fd_idx_in_hash_table p.fds_idx_map fd ≡ some i

not_full :
    (t : HashTable ℕ FdIdxPair)
    → t.load_factor ≡ 1
    → get_total_items t < t.capacity
    → is_hash_table_full t ≡ false
not_full t factor room = ground arith

no_idx-none : (o : Option (ℕ × FdIdxPair)) → idx_of (get_value o) ≡ none → o ≡ none
no_idx-none none e = refl
no_idx-none (some item) e = absurd (cc)

some_idx-found : (o : Option (ℕ × FdIdxPair)) (i : ℕ) → idx_of (get_value o) ≡ some i → found o ≡ 1
some_idx-found none i e = absurd (cc)
some_idx-found (some item) i e = refl

module _ (p : PollManager) (h : IsConsistent p) (fd : ℕ) where
  -- With the descriptor in no place, a free place means that the table takes it.
  pub inserted :
      (i : ℕ)
      → find_fd_idx_in_hash_table p.fds_idx_map fd ≡ none
      → assigned p.pfds < length p.pfds
      → let r = insert_item_to_hash_table int_keys p.fds_idx_map (fd, create_pfd_idx_pair fd i) in
        (get_total_items r.1 ≡ p.count + 1)
        × ((q : ℕ)
            → find_item_in_hash_table int_keys r.1 q ≡ (
                if fd == q
                then some (fd, create_pfd_idx_pair fd i)
                else find_item_in_hash_table int_keys p.fds_idx_map q))
  unfolding find_fd_idx_in_hash_table
  inserted i absent room =
      let ins = insert-Inserts int_keys p.fds_idx_map h.map_valid (fd, create_pfd_idx_pair fd i) in
      let full =
        not_full p.fds_idx_map h.map_factor
          (omega (arith, h.map_capacity, h.map_total, h.width, h.counted)) in
      let missing = no_idx-none (find_item_in_hash_table int_keys p.fds_idx_map fd) absent in
      let taken : (insert_item_to_hash_table int_keys p.fds_idx_map
            (fd, create_pfd_idx_pair fd i)).0
          ≡ true =
        ins.decides ∙ rw (full, missing) refl in
      (ins.counts ∙ rw taken (ap (λ n. n + 1) h.map_total), λ q. ins.reads q ∙ rw taken refl)

  pub removed :
      (i : ℕ)
      → find_fd_idx_in_hash_table p.fds_idx_map fd ≡ some i
      → get_total_items (remove_item_from_hash_table int_keys p.fds_idx_map fd).1 + 1 ≡ p.count
  unfolding find_fd_idx_in_hash_table
  removed i present =
      let rem = remove-Removes int_keys p.fds_idx_map h.map_valid fd in
      let one =
        ap found rem.returns
        ∙ some_idx-found (find_item_in_hash_table int_keys p.fds_idx_map fd) i present in
      omega (arith, rem.counts, h.map_total, one)

  -- What the new table finds.
  pub find-add :
      (i : ℕ)
      → find_fd_idx_in_hash_table p.fds_idx_map fd ≡ none
      → assigned p.pfds < length p.pfds
      → (q : ℕ)
      → find_fd_idx_in_hash_table (add_fd_idx_to_hash_table p.fds_idx_map fd i) q
        ≡ (if fd == q then some i else find_fd_idx_in_hash_table p.fds_idx_map q)
  unfolding find_fd_idx_in_hash_table add_fd_idx_to_hash_table
  find-add i absent room q =
      ap (λ o. idx_of (get_value o)) ((inserted i absent room).1 q)
      ∙ elim (Bool-cases (fd == q)) [ inl e ↦ rw e refl | inr e ↦ rw e refl ]

  pub find-remove :
      (q : ℕ)
      → find_fd_idx_in_hash_table (remove_fd_idx_from_hash_table p.fds_idx_map fd) q
        ≡ (if fd == q then none else find_fd_idx_in_hash_table p.fds_idx_map q)
  unfolding find_fd_idx_in_hash_table remove_fd_idx_from_hash_table
  find-remove q =
      ap (λ o. idx_of (get_value o))
        ((remove-Removes int_keys p.fds_idx_map h.map_valid fd).reads q)
      ∙ elim (Bool-cases (fd == q)) [ inl e ↦ rw e refl | inr e ↦ rw e refl ]

  pub free_ne : (i j q : ℕ) → (pfd_at p.pfds i).fd ≡ none → (pfd_at p.pfds j).fd ≡ some q → i ≢ j
  free_ne i j q free held ij =
      let bad : ◌≡◌ {A = Option ℕ} none (some q) =
        sym free ∙ ap (λ k. (pfd_at p.pfds k).fd) ij ∙ held in
      absurd (cc)

-- The descriptor itself where the table leads to a place.
abbrev pub registered : Option ℕ → ℕ → Option ℕ
registered none fd = none
registered (some i) fd = some fd

pub get_poll_fd-registered :
    (p : PollManager) (h : IsConsistent p) (fd : ℕ)
    → get_poll_fd p fd ≡ registered (find_fd_idx_in_hash_table p.fds_idx_map fd) fd
unfolding get_poll_fd
get_poll_fd-registered p h fd = go (find_fd_idx_in_hash_table p.fds_idx_map fd) refl
  where
    go :
        (o : Option ℕ)
        → find_fd_idx_in_hash_table p.fds_idx_map fd ≡ o
        → elim o [ none ↦ none | some i ↦ (pfd_at p.pfds i).fd ] ≡ registered o fd
    go none e = refl
    go (some i) e = h.leads fd i e

pub no_fd-none : (o : Option ℕ) (fd : ℕ) → registered o fd ≡ none → o ≡ none
no_fd-none none fd e = refl
no_fd-none (some i) fd e = absurd (cc)
