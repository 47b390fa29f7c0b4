-- ===== src/HashTable/Chain.antt =====
-- The chains of libs/src/hash_table.c: the walk to a key, and the chain that insertion and removal
-- leave behind.
use irc_client_server.Base.{
  ℕ, zero, suc, ◌+◌, ◌≤◌, ◌<◌, if◌then◌else◌, Bool-cases, ◌≡◌, refl, inl, inr, true, none, some,
  List, [], ◌∷◌, ◌++◌, arith, length, set, get_or, All,
}
use irc_client_server.HashTable.{KeyOps, find_in_chain, unlink}

-- The sum of `f` over a list.
abbrev pub total {ℓ} : {A : Type ℓ} → (A → ℕ) → List A → ℕ
total f [] = 0
total f (x ∷ xs) = f x + total f xs

pub total-set {ℓ} :
    {A : Type ℓ} (f : A → ℕ) (xs : List A) (i : ℕ) (v d : A)
    → i < length xs
    → total f (set xs i v) + f (get_or xs i d) ≡ total f xs + f v
total-set f [] i v d h = elim h [ ]
total-set f (x ∷ xs) zero v d h = omega arith
total-set f (x ∷ xs) (suc i) v d h = omega (arith, total-set f xs i v d (omega arith))

pub total-ge {ℓ} :
    {A : Type ℓ} (f : A → ℕ) (xs : List A) (i : ℕ) (d : A)
    → i < length xs
    → f (get_or xs i d) ≤ total f xs
total-ge f [] i d h = elim h [ ]
total-ge f (x ∷ xs) zero d h = omega arith
total-ge f (x ∷ xs) (suc i) d h = omega (arith, total-ge f xs i d (omega arith))

pub equal_self : {K : Type 0} (ops : KeyOps K) (k : K) → ops.equal k k ≡ true
equal_self ops k = (ops.equal_iff k k).1 refl

module _ {K V : Type 0} (ops : KeyOps K) where
  -- No two items of the chain have the same key.
  abbrev pub IsDistinct : List (K × V) → Type 0
  IsDistinct [] = Unit
  IsDistinct (item ∷ items) = (find_in_chain ops item.0 items ≡ none) × IsDistinct items

  pub find_in_chain-append :
      (key : K) (c : List (K × V)) (item : K × V)
      → find_in_chain ops item.0 c ≡ none
      → find_in_chain ops key (c ++ item ∷ [])
        ≡ (if ops.equal item.0 key then some item else find_in_chain ops key c)
  unfolding find_in_chain
  find_in_chain-append key [] item h = refl
  find_in_chain-append key (x ∷ c) item h = ground (
    arith,
    find_in_chain-append key c item,
    ops.equal_iff x.0 key,
    ops.equal_iff item.0 key,
    ops.equal_iff x.0 item.0,
  )

  pub find_in_chain-unlink :
      (key q : K) (c : List (K × V))
      → IsDistinct c
      → find_in_chain ops q (unlink ops key c)
        ≡ (if ops.equal key q then none else find_in_chain ops q c)
  unfolding find_in_chain unlink
  find_in_chain-unlink key q [] h = ground arith
  find_in_chain-unlink key q (x ∷ c) h = ground (
    arith,
    find_in_chain-unlink key q c,
    ops.equal_iff x.0 key,
    ops.equal_iff key q,
    ops.equal_iff x.0 q,
  )

  pub IsDistinct-append :
      (c : List (K × V)) (item : K × V)
      → find_in_chain ops item.0 c ≡ none
      → IsDistinct c
      → IsDistinct (c ++ item ∷ [])
  unfolding find_in_chain
  IsDistinct-append [] item h d = (refl, tt)
  IsDistinct-append (x ∷ c) item h d = (
    ground (
      arith,
      find_in_chain-append x.0 c item,
      ops.equal_iff x.0 item.0,
      ops.equal_iff item.0 x.0,
    ),
    IsDistinct-append c item (ground arith) d.1,
  )

  pub IsDistinct-unlink :
      (key : K) (c : List (K × V)) → IsDistinct c → IsDistinct (unlink ops key c)
  unfolding unlink
  IsDistinct-unlink key [] d = tt
  IsDistinct-unlink key (x ∷ c) d = elim (Bool-cases (ops.equal x.0 key)) [
    | inl e ↦ rw e d.1
    | inr e ↦ rw e (ground (arith, find_in_chain-unlink key x.0 c d.1), IsDistinct-unlink key c d.1)
  ]

  pub length-unlink :
      (key : K) (c : List (K × V)) (item : K × V)
      → find_in_chain ops key c ≡ some item
      → length (unlink ops key c) + 1 ≡ length c
  unfolding unlink find_in_chain
  length-unlink key [] item h = cc
  length-unlink key (x ∷ c) item h = ground (arith, length-unlink key c item)

  pub find_in_chain-key :
      (key : K) (c : List (K × V)) (item : K × V)
      → find_in_chain ops key c ≡ some item
      → item.0 ≡ key
  unfolding find_in_chain
  find_in_chain-key key [] item h = cc
  find_in_chain-key key (x ∷ c) item h =
      ground (arith, find_in_chain-key key c item, ops.equal_iff x.0 key)

  pub All-unlink :
      (P : K × V → Type 0) (key : K) (c : List (K × V)) → All P c → All P (unlink ops key c)
  unfolding unlink
  All-unlink P key [] a = tt
  All-unlink P key (x ∷ c) a = elim (Bool-cases (ops.equal x.0 key)) [
    | inl e ↦ rw e a.1
    | inr e ↦ rw e (a.0, All-unlink P key c a.1)
  ]

pub All-append {ℓ κ} :
    {A : Type ℓ} (P : A → Type κ) (xs : List A) (x : A) → All P xs → P x → All P (xs ++ x ∷ [])
All-append P [] x a p = (p, tt)
All-append P (y ∷ xs) x a p = (a.0, All-append P xs x a.1 p)
