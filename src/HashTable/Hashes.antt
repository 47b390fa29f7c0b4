-- ===== src/HashTable/Hashes.antt =====
-- The hash and comparison functions of libs/src/hash_table.c. A string is the list of its bytes
-- before the terminating NUL; `char` is signed, so a byte from 128 up is added as a negative number.
-- `unsigned long` has 64 bits, `int` has 32 and is stored with its lowest byte first.
use irc_client_server.Base.{
  ℕ, ◌+◌, ◌-◌, ◌*◌, ◌/◌, ◌%◌, ◌^◌, bit_xor, ltb, ◌==◌, if◌then◌else◌, ==_iff, ◌≡◌, refl, ◌↔◌, Bool,
  true, false, ◌&&◌, List, [], ◌∷◌, arith,
}
use irc_client_server.HashTable.{KeyOps}

-- A byte read as a signed char, modulo 2^64.
abbrev char_value : ℕ → ℕ
char_value c = if ltb c 128 then c else c + 2 ^ 64 - 256

djb2_from : ℕ → List ℕ → ℕ
djb2_from hash [] = hash
djb2_from hash (c ∷ key) = djb2_from ((hash * 2 ^ 5 + hash + char_value c) % 2 ^ 64) key

unfoldable pub djb2_hash : List ℕ → ℕ
unfolding djb2_from
djb2_hash key = djb2_from 5381 key

abbrev fnv1a_round : ℕ → ℕ → ℕ
fnv1a_round hash byte = bit_xor hash byte * 16777619 % 2 ^ 64

-- The four bytes of an `int`, given as its 32-bit pattern.
unfoldable pub fnv1a_hash : ℕ → ℕ
fnv1a_hash key =
    fnv1a_round
      (fnv1a_round (fnv1a_round (fnv1a_round 2166136261 (key % 2 ^ 8)) (key / 2 ^ 8 % 2 ^ 8))
        (key / 2 ^ 16 % 2 ^ 8))
      (key / 2 ^ 24 % 2 ^ 8)

-- `strcmp(key1, key2) == 0`
unfoldable pub are_strings_equal : List ℕ → List ℕ → Bool
are_strings_equal [] [] = true
are_strings_equal [] (d ∷ ds) = false
are_strings_equal (c ∷ cs) [] = false
are_strings_equal (c ∷ cs) (d ∷ ds) = (c == d) && are_strings_equal cs ds

abbrev pub are_ints_equal : ℕ → ℕ → Bool
are_ints_equal a b = a == b

-- Two strings compare equal exactly if they have the same bytes.
pub are_strings_equal_iff : (a b : List ℕ) → (are_strings_equal a b ≡ true) ↔ (a ≡ b)
unfolding are_strings_equal
are_strings_equal_iff [] [] = (λ h. refl, λ h. refl)
are_strings_equal_iff [] (d ∷ ds) = (λ h. cc, λ h. cc)
are_strings_equal_iff (c ∷ cs) [] = (λ h. cc, λ h. cc)
are_strings_equal_iff (c ∷ cs) (d ∷ ds) = (
  λ h. ground (arith, are_strings_equal_iff cs ds),
  λ h. ground (arith, are_strings_equal_iff cs ds),
)

-- The tables of users and of channels: `djb2_hash` and `are_strings_equal`.
abbrev pub string_keys : KeyOps (List ℕ)
string_keys = record {
  hash = djb2_hash;
  equal = are_strings_equal;
  equal_iff = are_strings_equal_iff;
}

-- The tables of file descriptors: `fnv1a_hash` and `are_ints_equal`.
abbrev pub int_keys : KeyOps ℕ
int_keys = record { hash = fnv1a_hash; equal = are_ints_equal; equal_iff = ==_iff }
