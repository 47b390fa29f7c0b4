-- ===== src/Session/Registered.antt =====
-- The registration of a user by server/src/session.c.
use mathlib.Core.Path.{subst}
use irc_client_server.Base.{
  ◌+◌, ◌<◌, if◌then◌else◌, Bool-cases, ◌≡◌, refl, sym, ap, ◌∙◌, ◌≢◌, inl, inr, Bool, true, false,
  Option, none, some, List, [], ◌∷◌, arith, All,
}
use irc_client_server.LinkedList.{append_node}
use irc_client_server.LinkedList.Search.{NoMatch, find_data-append_node}
use irc_client_server.HashTable.{
  HashTable, get_value, find_item_in_hash_table, insert_item_to_hash_table, is_hash_table_full,
  get_total_items,
}
use irc_client_server.HashTable.Hashes.{string_keys, are_strings_equal, are_strings_equal_iff}
use irc_client_server.HashTable.Validity.{IsValid, insert-IsValid}
use irc_client_server.HashTable.Map.{insert-Inserts}
use irc_client_server.Text.{Text}
use irc_client_server.User.{User, are_users_equal}
use irc_client_server.Session.State.{
  Session, Members, Address, Run, ok, update, users_equal, both, belongs_to_user, owned_by,
  owner_of,
}
use irc_client_server.Session.Tables.{add_entry, find_user_in_hash_table}
use irc_client_server.Session.Membership.{new_members, max_channels_per_user, find_user_channels}
use irc_client_server.Session.Registration.{register_user}
use irc_client_server.Session.Effects.{update_self, update_ne, register_user-ok}

-- What the registration of a user that returned `r` did.
pub record Registers (s : Session) (user : Address) (u : User) (r : Run (Unit {0})) : Type 0 where
  pub after : Session
  pub ends : r ≡ ok tt after
  pub valid : IsValid string_keys after.users
  pub total : get_total_items after.users ≡ get_total_items s.users + 1
  pub named : find_user_in_hash_table after u.nickname ≡ some user
  pub others :
      (q : Text) → u.nickname ≢ q → find_user_in_hash_table after q ≡ find_user_in_hash_table s q
  pub own : find_user_channels after user ≡ some s.next_address
  pub new : after.live_user_channels s.next_address ≡ some (new_members user max_channels_per_user)

module _ (t : HashTable Text Address) (v : IsValid string_keys t) (name : Text) (p : Address) where
  -- A name that is absent is entered into a table that is not full.
  entered :
      is_hash_table_full t ≡ false
      → get_value (find_item_in_hash_table string_keys t name) ≡ none
      → ((insert_item_to_hash_table string_keys t (name, p)).0 ≡ true)
        × (add_entry t name p ≡ (insert_item_to_hash_table string_keys t (name, p)).1)
  unfolding add_entry
  entered room fresh =
      let absent = no_value-none (find_item_in_hash_table string_keys t name) fresh in
      (
        (insert-Inserts string_keys t v (name, p)).decides ∙ rw (room, absent) refl,
        rw (room, absent) refl,
      )
    where
      no_value-none : (o : Option (Text × Address)) → get_value o ≡ none → o ≡ none
      no_value-none none e = refl
      no_value-none (some item) e = absurd (cc)

  add_entry-reads :
      is_hash_table_full t ≡ false
      → get_value (find_item_in_hash_table string_keys t name) ≡ none
      → (q : Text)
      → get_value (find_item_in_hash_table string_keys (add_entry t name p) q) ≡ (
          if are_strings_equal name q
          then some p
          else get_value (find_item_in_hash_table string_keys t q))
  add_entry-reads room fresh q =
      let e = entered room fresh in
      ap (λ t'. get_value (find_item_in_hash_table string_keys t' q)) e.1
      ∙ ap get_value ((insert-Inserts string_keys t v (name, p)).reads q)
      ∙ rw e.0
          (elim (Bool-cases (are_strings_equal name q)) [ inl h ↦ rw h refl | inr h ↦ rw h refl ])

-- A comparison that agrees with another one on the addresses given out so far finds none either.
still_none :
    (f g : Address → Address → Bool) (user n : Address)
    → ((p : Address) → p < n → g p user ≡ f p user)
    → (xs : List Address) → All (λ p. p < n) xs
    → NoMatch f user xs
    → NoMatch g user xs
still_none f g user n agree [] below h = tt
still_none f g user n agree (x ∷ xs) below h =
    (agree x below.0 ∙ h.0, still_none f g user n agree xs below.1 h.1)

-- Registering a live user with a nickname that is not in use, while the table of users is well
-- formed and not full, no record of the user's channels is in the list of these records, and all
-- addresses in that list were given out before, runs to the end: the nickname finds the user,
-- every other nickname finds what it found before, the table is well formed and has one user
-- more, and the user has a new record of no channels with room for the largest number of them.
pub register_user-Registers :
    (s : Session) (user : Address) (u : User)
    → s.live_users user ≡ some u
    → IsValid string_keys s.users
    → is_hash_table_full s.users ≡ false
    → find_user_in_hash_table s u.nickname ≡ none
    → All (λ p. p < s.next_address) s.user_channels_ll.nodes
    → NoMatch (belongs_to_user s) user s.user_channels_ll.nodes
    → Registers s user u (register_user user s)
register_user-Registers s user u live v room fresh below unlisted = record {
  after = s';
  ends = register_user-ok s user u live;
  valid =
      subst (IsValid string_keys) (sym entry.1)
        (insert-IsValid string_keys s.users v (u.nickname, user));
  total =
      ap get_total_items entry.1
      ∙ (insert-Inserts string_keys s.users v (u.nickname, user)).counts
      ∙ rw entry.0 refl;
  named = add_entry-reads s.users v u.nickname user room fresh u.nickname ∙ rw same_name refl;
  others =
      λ q ne. add_entry-reads s.users v u.nickname user room fresh q ∙ rw (other_name q ne) refl;
  own =
      unfold find_user_channels in
      find_data-append_node (belongs_to_user s') user s.user_channels_ll s.next_address mine (
        still_none (belongs_to_user s) (belongs_to_user s') user s.next_address agree
          s.user_channels_ll.nodes below unlisted);
  new = update_self s.live_user_channels s.next_address (some own_channels);
}
  where
    own_channels : Members
    own_channels = new_members user max_channels_per_user

    s' : Session
    s' = record s {
      users = add_entry s.users u.nickname user;
      next_address = s.next_address + 1;
      live_user_channels = update s.live_user_channels s.next_address (some own_channels);
      user_channels_ll = append_node s.user_channels_ll s.next_address;
    }

    entry :
        ((insert_item_to_hash_table string_keys s.users (u.nickname, user)).0 ≡ true)
        × (add_entry s.users u.nickname user
            ≡ (insert_item_to_hash_table string_keys s.users (u.nickname, user)).1)
    entry = entered s.users v u.nickname user room fresh

    same_name : are_strings_equal u.nickname u.nickname ≡ true
    same_name = (are_strings_equal_iff u.nickname u.nickname).1 refl

    other_name : (q : Text) → u.nickname ≢ q → are_strings_equal u.nickname q ≡ false
    other_name q ne = elim (Bool-cases (are_strings_equal u.nickname q)) [
      | inl e ↦ absurd (ne ((are_strings_equal_iff u.nickname q).0 e))
      | inr e ↦ e
    ]

    mine : belongs_to_user s' s.next_address user ≡ true
    mine =
        ap (λ o. owned_by (users_equal s') (owner_of o) user)
          (update_self s.live_user_channels s.next_address (some own_channels))
        ∙ ap (λ o. both are_users_equal o o) live
        ∙ same_name

    agree :
        (p : Address) → p < s.next_address → belongs_to_user s' p user ≡ belongs_to_user s p user
    agree p lt =
        ap (λ o. owned_by (users_equal s) (owner_of o) user)
          (update_ne s.live_user_channels s.next_address p (some own_channels)
            (λ e. absurd (omega arith)))
