-- ===== src/PollManager/Places.antt =====
-- The array of libs/src/poll_manager.c: its places in use and its first free one.
use native.Mathlib.Numerals.{add-one}
use irc_client_server.Base.{
  ℕ, zero, suc, ◌+◌, ◌≤◌, ◌<◌, if◌then◌else◌, ◌≡◌, refl, ap, ◌≢◌, Option, none, some, List, [], ◌∷◌,
  arith, length, get_or-set_self, get_or-set_ne,
}
use irc_client_server.HashTable.Chain.{total, total-set}
use irc_client_server.PollManager.{PollFd, free_pfd, find_free, is_unassigned, pfd_at, assign}

-- 1 for a place in use.
abbrev pub used : Option ℕ → ℕ
used none = 0
used (some fd) = 1

abbrev pub assigned : List PollFd → ℕ
assigned pfds = total (λ pfd. used pfd.fd) pfds

-- A free place is the first one that holds no descriptor; with none, all are in use.
abbrev pub Frees : List PollFd → Option ℕ → Type 0
Frees pfds none = assigned pfds ≡ length pfds
Frees pfds (some i) =
    (i < length pfds) × ((pfd_at pfds i).fd ≡ none) × (assigned pfds < length pfds)

used_le : (fd : Option ℕ) → used fd ≤ 1
used_le none = omega arith
used_le (some fd) = omega arith

assigned_le : (pfds : List PollFd) → assigned pfds ≤ length pfds
assigned_le [] = omega arith
assigned_le (pfd ∷ pfds) = omega (arith, used_le pfd.fd, assigned_le pfds)

pub find_free-Frees : (pfds : List PollFd) → Frees pfds (find_free pfds)
unfolding find_free
find_free-Frees [] = refl
find_free-Frees (pfd ∷ pfds) = head (find_free-Frees pfds) pfd.fd refl
  where
    tail :
        (fd : ℕ)
        → pfd.fd ≡ some fd
        → (o : Option ℕ) → Frees pfds o
        → Frees (pfd ∷ pfds) (elim o [ none ↦ none | some i ↦ some (i + 1) ])
    tail fd e none h = omega (arith, h, ap used e)
    tail fd e (some i) (a, b, c) = rw (add-one i) (omega arith, b, omega (arith, used_le pfd.fd))

    head :
        Frees pfds (find_free pfds)
        → (o : Option ℕ) → pfd.fd ≡ o
        → Frees (pfd ∷ pfds) (
            if is_unassigned o
            then some 0
            else elim (find_free pfds) [ none ↦ none | some i ↦ some (i + 1) ])
    head h none e = (omega arith, e, omega (arith, ap used e, assigned_le pfds))
    head h (some fd) e = tail fd e (find_free pfds) h

pub assigned-assign :
    (pfds : List PollFd) (i : ℕ) (fd : Option ℕ)
    → i < length pfds
    → assigned (assign pfds i fd) + used (pfd_at pfds i).fd ≡ assigned pfds + used fd
assigned-assign pfds i fd h =
    total-set (λ pfd. used pfd.fd) pfds i (record (pfd_at pfds i) { fd = fd }) (free_pfd 0 0) h

-- A place that holds a descriptor is within the array.
pub held_lt : (pfds : List PollFd) (i fd : ℕ) → (pfd_at pfds i).fd ≡ some fd → i < length pfds
held_lt [] i fd h = absurd (cc)
held_lt (pfd ∷ pfds) zero fd h = omega arith
held_lt (pfd ∷ pfds) (suc i) fd h = omega (arith, held_lt pfds i fd h)

pub assign_self :
    (pfds : List PollFd) (i : ℕ) (o : Option ℕ)
    → i < length pfds
    → (pfd_at (assign pfds i o) i).fd ≡ o
assign_self pfds i o lt =
    ap (λ pfd. pfd.fd)
      (get_or-set_self pfds i (record (pfd_at pfds i) { fd = o }) (free_pfd 0 0) lt)

pub assign_ne :
    (pfds : List PollFd) (i j : ℕ) (o : Option ℕ)
    → i ≢ j
    → (pfd_at (assign pfds i o) j).fd ≡ (pfd_at pfds j).fd
assign_ne pfds i j o ne =
    ap (λ pfd. pfd.fd)
      (get_or-set_ne pfds i j (record (pfd_at pfds i) { fd = o }) (free_pfd 0 0) ne)
