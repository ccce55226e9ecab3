-- ===== src/Auth/Accounts/Custody.antt =====
-- Sequences of calls of the account store: what every account satisfies after them.
use zk_voting.Prelude.{
  ◌≡◌, refl, Bool, true, Option, none, some, List, [], ◌∷◌, arith, find_sound, All-IsIn,
}
use zk_voting.Prelude.Keyed.{find_key}
use zk_voting.Prelude.Outcome.{Outcome, ok, err, thrown, err-ne-ok, >>=-eq-ok}
use zk_voting.Prelude.Text.{Text, text_eq}
use zk_voting.Store.{absent, read}
use zk_voting.Store.Mutation.{mutate_keeps}
use zk_voting.Auth.PasswordPolicy.{PasswordProblem, password_problem}
use zk_voting.Auth.Relay.Value.{string}
use zk_voting.Auth.AccountRecords.{
  GnAccountRecord, PublicGnAccount, AccountStoreError, corrupt_store, Accounts, AccountDisk, key,
  all_with_defaults, normalise_username, is_private_key, CreateAccountInput, Crypto, Draw,
}
use zk_voting.Auth.Accounts.{
  check_input, checked, update_change, set_flag, set_disabled, remove_change, remove, clear_change,
  clear, new_account, create_change, create, check_policy, change_allowed, take_custody,
  change_password, find_by_username, decrypt_private_key,
}
use zk_voting.Auth.Accounts.Records.{
  IsAccount, IsSound, take_custody-IsAccount, set_flag-IsAccount, new_account-IsAccount,
  read-IsSound, create_change-IsSound, update_change-IsSound, remove_change-IsSound,
}

-- A call of the store, with whether its write succeeds. A change of password carries the file that
-- it read before its mutation.
pub data Op : Type 0 where
  creates : Bool → Draw → CreateAccountInput → Op
  changes : Bool → Draw → Text → Text → AccountDisk → Op
  sets_disabled : Bool → Text → Bool → Op
  removes : Bool → Text → Op
  clears : Bool → Op

module _ (crypto : Crypto) where
  unfoldable pub step : Op → AccountDisk → AccountDisk
  step (creates w draw input) disk = (create crypto w draw input disk).0
  step (changes w draw username password seen) disk =
      (change_password crypto w draw username password seen disk).0
  step (sets_disabled w username flag) disk = (set_disabled w username flag disk).0
  step (removes w username) disk = (remove w username disk).0
  step (clears w) disk = (clear w disk).0

  unfoldable pub run : List Op → AccountDisk → AccountDisk
  run [] disk = disk
  run (op ∷ ops) disk = run ops (step op disk)

  checked_keeps :
      {A : Type 0}
      → (P : AccountDisk → Type 0) → (m : Outcome AccountStoreError A) → (disk : AccountDisk)
      → (f : A → AccountDisk × Outcome AccountStoreError PublicGnAccount) → P disk
      → ((a : A) → m ≡ ok a → P (f a).0)
      → P (checked m disk f).0
  checked_keeps P (ok a) disk f h k = k a refl
  checked_keeps P (err e) disk f h k = h
  checked_keeps P thrown disk f h k = h

  check_policy_sound : (p : Option PasswordProblem) → check_policy crypto p ≡ ok tt → p ≡ none
  check_policy_sound none h = refl
  check_policy_sound (some problem) h = absurd (err-ne-ok h)

  change_allowed_policy :
      (target password : Text) (seen : AccountDisk)
      → change_allowed crypto target password seen ≡ ok tt
      → password_problem (string password) ≡ none
  unfolding change_allowed
  change_allowed_policy target password seen h =
      let (_, fine, _) =
        >>=-eq-ok (check_policy crypto (password_problem (string password))) _ tt h in
      check_policy_sound (password_problem (string password)) fine

  step-IsSound :
      (op : Op) (disk : AccountDisk) → IsSound crypto disk → IsSound crypto (step op disk)
  unfolding step create change_password set_disabled remove clear
  step-IsSound (creates w draw input) disk h =
      checked_keeps (IsSound crypto) (check_input input) disk _ h (λ _ passed.
        mutate_keeps corrupt_store all_with_defaults (IsSound crypto) w
          (create_change crypto (new_account crypto draw input)) disk h
          (λ xs ys t got made.
            create_change-IsSound crypto (new_account crypto draw input) xs ys t
              (new_account-IsAccount crypto draw input passed) (read-IsSound crypto disk xs h got)
              made))
  step-IsSound (changes w draw username password seen) disk h =
      let target = normalise_username username in
      checked_keeps (IsSound crypto) (change_allowed crypto target password seen) disk _ h
        (λ _ passed.
          mutate_keeps corrupt_store all_with_defaults (IsSound crypto) w
            (update_change target (take_custody crypto draw password)) disk h
            (λ xs ys t got made.
              update_change-IsSound crypto target (take_custody crypto draw password) xs ys t
                (λ r good.
                  take_custody-IsAccount crypto draw password r
                    (change_allowed_policy target password seen passed) good)
                (λ r. refl) (read-IsSound crypto disk xs h got) made))
  step-IsSound (sets_disabled w username flag) disk h =
      mutate_keeps corrupt_store all_with_defaults (IsSound crypto) w
        (update_change (normalise_username username) (set_flag flag)) disk h
        (λ xs ys t got made.
          update_change-IsSound crypto (normalise_username username) (set_flag flag) xs ys t
            (set_flag-IsAccount crypto flag) (λ r. refl) (read-IsSound crypto disk xs h got) made)
  step-IsSound (removes w username) disk h =
      mutate_keeps corrupt_store all_with_defaults (IsSound crypto) w
        (remove_change (normalise_username username)) disk h
        (λ xs ys t got made.
          remove_change-IsSound crypto (normalise_username username) xs ys
            (read-IsSound crypto disk xs h got) made)
  step-IsSound (clears w) disk h =
      mutate_keeps corrupt_store all_with_defaults (IsSound crypto) w clear_change disk h
        (λ xs ys t got made.
          let same : ◌≡◌ {A = Accounts} [] ys = ground arith in rw (← same) (tt, tt))

  -- Through every sequence of calls, whichever of their writes fail and whatever a change of password
  -- read before, the accounts on file keep distinct and valid usernames, valid divisions and
  -- addresses, a private key sealed for their username, and a password that the policy accepts
  -- where no change is owed.
  pub run-IsSound :
      (ops : List Op) (disk : AccountDisk) → IsSound crypto disk → IsSound crypto (run ops disk)
  unfolding run
  run-IsSound [] disk h = h
  run-IsSound (op ∷ ops) disk h = run-IsSound ops (step op disk) (step-IsSound op disk h)

  found-IsAccount :
      (username : Text) (disk : AccountDisk) (r : GnAccountRecord)
      → IsSound crypto disk
      → find_by_username username disk ≡ ok (some r)
      → IsAccount crypto r
  unfolding find_by_username
  found-IsAccount username disk r h found =
      let (xs, got, is) = >>=-eq-ok (read corrupt_store all_with_defaults disk) _ (some r) found in
      let (unique, good) = read-IsSound crypto disk xs h got in
      let is_found : find_key key (normalise_username username) xs ≡ some r = cc in
      All-IsIn (IsAccount crypto) xs r good
        (find_sound (λ x. text_eq (key x) (normalise_username username)) xs r is_found).0

  -- If decryption opens what encryption sealed, every account that the store has made has a signing
  -- key that decryptPrivateKey gives and that is well formed.
  pub decrypt_private_key_of_run :
      (opens : (nonce secret aad : Text)
        → crypto.decrypt_secret (crypto.encrypt_secret nonce secret aad) aad ≡ some secret)
      (ops : List Op) (username : Text) (r : GnAccountRecord)
      → find_by_username username (run ops absent) ≡ ok (some r)
      → (k : Text) × (decrypt_private_key crypto r ≡ some k) × (is_private_key k ≡ true)
  unfolding decrypt_private_key
  decrypt_private_key_of_run opens ops username r found =
      let good = found-IsAccount username (run ops absent) r (run-IsSound ops absent tt) found in
      let (nonce, k, keyed, is) = good.sealed in
      (k, rw (is, opens nonce k r.username, keyed) refl, keyed)
