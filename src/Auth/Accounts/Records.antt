-- ===== src/Auth/Accounts/Records.antt =====
-- What every account on file satisfies, and that every call of the store keeps it.
use zk_voting.Prelude.{
  ◌≡◌, refl, inl, inr, Bool, true, false, none, some, [], ◌∷◌, ◌++◌, arith, any, find_sound, All,
  All-IsIn, All-append, ◌==◌, length, Option-cases, Bool-cases,
}
use zk_voting.Prelude.Keyed.{
  is_some, find_key, replace_key, remove_key, key-find, HasUniqueKeys, HasUniqueKeys-append,
  HasUniqueKeys-replace, HasUniqueKeys-remove,
}
use zk_voting.Prelude.KeyedAll.{any-find, All-replace, All-remove}
use zk_voting.Prelude.Outcome.{Outcome, ok, err-ne-ok, ◌>>◌, guard}
use zk_voting.Prelude.Text.{Text, text_eq}
use zk_voting.Store.{absent, unreadable, corrupt, stored, read}
use zk_voting.Auth.PasswordPolicy.{password_problem}
use zk_voting.Auth.Relay.Value.{string}
use zk_voting.Auth.AccountRecords.{
  GnAccountRecord, PublicGnAccount, AccountStoreError, corrupt_store, bad_username, bad_division,
  bad_address, bad_private_key, Accounts, AccountDisk, key, with_defaults, all_with_defaults,
  normalise_username, is_name, is_division, is_address_text, is_private_key, CreateAccountInput,
  Crypto, Draw,
}
use zk_voting.Auth.Accounts.{
  check_input, update_change, set_flag, remove_change, new_account, create_change, take_custody,
}

guards_sound :
    (a b c d : Bool)
    → ◌≡◌ {A = Outcome AccountStoreError (Unit {0})}
        (guard a bad_username
          >> guard b bad_division
          >> guard c bad_address
          >> guard d bad_private_key)
        (ok tt)
    → (a ≡ true) × (b ≡ true) × (c ≡ true) × (d ≡ true)
guards_sound a b c d h = ground arith

with_defaults_find :
    (k : Text) (xs : Accounts)
    → is_some (find_key key k (all_with_defaults xs)) ≡ is_some (find_key key k xs)
with_defaults_find k [] = refl
with_defaults_find k (x ∷ xs) = ground (arith, with_defaults_find k xs)

with_defaults-HasUniqueKeys :
    (xs : Accounts) → HasUniqueKeys key xs → HasUniqueKeys key (all_with_defaults xs)
with_defaults-HasUniqueKeys [] h = tt
with_defaults-HasUniqueKeys (x ∷ xs) (first, rest) =
    (ground (arith, with_defaults_find x.username xs), with_defaults-HasUniqueKeys xs rest)

module _ (crypto : Crypto) where
  -- The password in use is one that the policy accepts.
  abbrev pub IsChosen : Text → Type 0
  IsChosen password_hash =
      (salt : Text) × (password : Text) × (password_problem (string password) ≡ none)
      × (password_hash ≡ crypto.hash_password salt password)

  -- The envelope holds a private key sealed for the username.
  abbrev pub IsSealed : Text → Text → Type 0
  IsSealed envelope username =
      (nonce : Text) × (private_key : Text) × (is_private_key private_key ≡ true)
      × (envelope ≡ crypto.encrypt_secret nonce private_key username)

  pub record IsAccount (r : GnAccountRecord) : Type 0 where
    pub named : is_name r.username ≡ true
    pub in_division : is_division r.division_id ≡ true
    pub addressed : is_address_text r.address ≡ true
    pub chosen : r.must_change_password ≡ some false → IsChosen r.password_hash
    pub sealed : IsSealed r.encrypted_private_key r.username

  -- The accounts on file have distinct usernames and are all as they should be.
  abbrev pub IsSound : AccountDisk → Type 0
  IsSound (stored accounts) = HasUniqueKeys key accounts × All IsAccount accounts
  IsSound _ = Unit

  with_defaults-IsAccount : (r : GnAccountRecord) → IsAccount r → IsAccount (with_defaults r)
  with_defaults-IsAccount r h = record {
    named = h.named;
    in_division = h.in_division;
    addressed = h.addressed;
    chosen = λ open_gate. h.chosen (ground arith);
    sealed = h.sealed;
  }

  pub take_custody-IsAccount :
      (draw : Draw) (password : Text) (r : GnAccountRecord)
      → password_problem (string password) ≡ none
      → IsAccount r
      → IsAccount (take_custody crypto draw password r)
  take_custody-IsAccount draw password r fine h = record {
    named = h.named;
    in_division = h.in_division;
    addressed = h.addressed;
    chosen = λ _. (draw.salt, password, fine, refl);
    sealed = h.sealed;
  }

  pub set_flag-IsAccount :
      (flag : Bool) (r : GnAccountRecord) → IsAccount r → IsAccount (set_flag flag r)
  set_flag-IsAccount flag r h = record {
    named = h.named;
    in_division = h.in_division;
    addressed = h.addressed;
    chosen = h.chosen;
    sealed = h.sealed;
  }

  check_input_sound :
      (input : CreateAccountInput)
      → check_input input ≡ ok tt
      → (is_name (normalise_username input.username) ≡ true)
        × (is_division input.division_id ≡ true)
        × (is_address_text input.address ≡ true)
        × (is_private_key input.private_key ≡ true)
  check_input_sound input h =
      guards_sound (is_name (normalise_username input.username)) _ _
        (is_private_key input.private_key) h

  pub new_account-IsAccount :
      (draw : Draw) (input : CreateAccountInput)
      → check_input input ≡ ok tt
      → IsAccount (new_account crypto draw input)
  new_account-IsAccount draw input h =
      let (named, in_division, addressed, keyed) = check_input_sound input h in
      record {
        named = named;
        in_division = in_division;
        addressed = addressed;
        chosen = λ gate. absurd (cc);
        sealed = (draw.nonce, input.private_key, keyed, refl);
      }

  all_with_defaults-All : (xs : Accounts) → All IsAccount xs → All IsAccount (all_with_defaults xs)
  all_with_defaults-All [] h = tt
  all_with_defaults-All (x ∷ xs) (first, rest) =
      (with_defaults-IsAccount x first, all_with_defaults-All xs rest)

  -- What a mutation reads is as it should be.
  pub read-IsSound :
      (disk : AccountDisk) (xs : Accounts)
      → IsSound disk
      → read corrupt_store all_with_defaults disk ≡ ok xs
      → IsSound (stored xs)
  unfolding read
  read-IsSound (stored ys) xs (unique, good) e =
      let same : all_with_defaults ys ≡ xs = cc in
      rw (← same) (with_defaults-HasUniqueKeys ys unique, all_with_defaults-All ys good)
  read-IsSound absent xs h e = let same : ◌≡◌ {A = Accounts} [] xs = cc in rw (← same) (tt, tt)
  read-IsSound unreadable xs h e = absurd (cc)
  read-IsSound corrupt xs h e = absurd (err-ne-ok e)

  pub create_change-IsSound :
      (r : GnAccountRecord) (xs ys : Accounts) (t : PublicGnAccount)
      → IsAccount r
      → IsSound (stored xs)
      → create_change crypto r xs ≡ ok (some ys, t)
      → IsSound (stored ys)
  unfolding create_change
  create_change-IsSound r xs ys t good (unique, all_good) made =
      elim (Bool-cases (any (λ a. text_eq a.username r.username) xs)) [
        | inl taken ↦ absurd (err-ne-ok (rw taken at made))
        | inr new ↦
            let same : (xs ++ r ∷ []) ≡ ys = ground (arith, new) in
            let fresh : find_key key r.username xs ≡ none =
              ground (arith, any-find key r.username xs, new) in
            rw (← same) (
              HasUniqueKeys-append key r xs unique fresh,
              All-append IsAccount xs (r ∷ []) all_good (good, tt),
            )
      ]

  pub update_change-IsSound :
      (target : Text) (update : GnAccountRecord → GnAccountRecord) (xs ys : Accounts)
      (t : PublicGnAccount)
      → ((r : GnAccountRecord) → IsAccount r → IsAccount (update r))
      → ((r : GnAccountRecord) → key (update r) ≡ key r)
      → IsSound (stored xs)
      → update_change target update xs ≡ ok (some ys, t)
      → IsSound (stored ys)
  unfolding update_change
  update_change-IsSound target update xs ys t keeps same_key (unique, all_good) made =
      elim (Option-cases (find_key key target xs)) [
        | inl missing ↦ absurd (err-ne-ok (rw missing at made))
        | inr (r, found) ↦
            let same : replace_key key target (update r) xs ≡ ys = ground (arith, found) in
            let named : key (update r) ≡ target =
              rw (same_key r) (key-find key target xs r found) in
            let is_in = (find_sound (λ x. text_eq (key x) target) xs r found).0 in
            rw (← same) (
              HasUniqueKeys-replace key target (update r) xs named unique,
              All-replace key IsAccount target (update r) xs
                  (keeps r (All-IsIn IsAccount xs r all_good is_in)) all_good,
            )
      ]

  pub remove_change-IsSound :
      (target : Text) (xs ys : Accounts)
      → IsSound (stored xs)
      → remove_change target xs ≡ ok (some ys, tt)
      → IsSound (stored ys)
  unfolding remove_change
  remove_change-IsSound target xs ys (unique, all_good) made =
      elim (Bool-cases (length (remove_key key target xs) == length xs)) [
        | inl nothing ↦ absurd (err-ne-ok (rw nothing at made))
        | inr fewer ↦
            let same : remove_key key target xs ≡ ys = ground (arith, fewer) in
            rw (← same) (
              HasUniqueKeys-remove key target xs unique,
              All-remove key IsAccount target xs all_good,
            )
      ]
