-- ===== src/Auth/Accounts.antt =====
-- packages/nextjs/services/auth/accounts.ts, class GnAccountStore. An AccountStoreError is the
-- outcome `err`, with its text as a constructor; any other exception is `thrown`. The queue of the
-- store makes each mutation one step on the file (Store).
mod Tests
pub mod Records
pub mod Custody
pub mod Effects
use zk_voting.Prelude.{
  ℕ, ◌≡◌, Bool, true, false, not, ◌&&◌, ◌||◌, Option, none, some, List, [], ◌∷◌, ◌++◌, map, leb,
  ◌==◌, length, all, any, if◌then◌else◌,
}
use zk_voting.Prelude.Int.{pos}
use zk_voting.Prelude.Keyed.{find_key, replace_key, remove_key}
use zk_voting.Prelude.Outcome.{Outcome, ok, err, thrown, ◌>>=◌, ◌>>◌, guard}
use zk_voting.Prelude.Text.{
  Text, text_eq, codes, trim, to_lower_case, is_digit, in_range, is_hex_of,
}
use zk_voting.Store.{Disk, read, mutate}
use zk_voting.Auth.PasswordPolicy.{PasswordProblem, password_problem}
use zk_voting.Auth.Relay.Value.{Number, integer, not_a_number, fractional, string}
use zk_voting.Auth.AccountRecords.{
  AccountDisk, AccountStoreError, Accounts, CreateAccountInput, Crypto, Draw, GnAccountRecord,
  PublicGnAccount, all_with_defaults, bad_address, bad_division, bad_password, bad_private_key,
  bad_username, corrupt_store, is_address_text, is_division, is_name, is_private_key,
  is_valid_username, key, name_taken, no_account, normalise_username, or_true, same_password,
  to_public_account, with_defaults,
}

abbrev or_false : Option Bool → Bool
or_false none = false
or_false (some b) = b

abbrev read_accounts : AccountDisk → Outcome AccountStoreError Accounts
read_accounts disk = read corrupt_store all_with_defaults disk

abbrev public_all : Accounts → List PublicGnAccount
public_all [] = []
public_all (a ∷ accounts) = to_public_account a ∷ public_all accounts

-- `list()`
pub list : AccountDisk → Outcome AccountStoreError (List PublicGnAccount)
list disk = do accounts ← read_accounts disk; ok (public_all accounts)

-- `findByUsername(username)`
unfoldable pub find_by_username :
    Text → AccountDisk → Outcome AccountStoreError (Option GnAccountRecord)
find_by_username username disk = do
  accounts ← read_accounts disk
  ok (find_key key (normalise_username username) accounts)

abbrev pub AccountChange : Type 0
AccountChange = Outcome AccountStoreError (Option Accounts × PublicGnAccount)

-- a mutation after checks that come before it
abbrev pub checked :
    {A : Type 0}
    → Outcome AccountStoreError A
    → AccountDisk
    → (A → AccountDisk × Outcome AccountStoreError PublicGnAccount)
    → AccountDisk × Outcome AccountStoreError PublicGnAccount
checked (ok a) disk step = step a
checked (err e) disk step = (disk, err e)
checked thrown disk step = (disk, thrown)

-- the checks of `create`
abbrev pub check_input : CreateAccountInput → Outcome AccountStoreError (Unit {0})
check_input input =
    guard (is_valid_username input.username) bad_username
    >> guard (is_division input.division_id) bad_division
    >> guard (is_address_text input.address) bad_address
    >> guard (is_private_key input.private_key) bad_private_key

-- the accounts with the one named `target` replaced
abbrev pub update_found :
    Text → (GnAccountRecord → GnAccountRecord) → Accounts → Option GnAccountRecord → AccountChange
update_found target update accounts none = err (no_account target)
update_found target update accounts (some account) =
    ok (some (replace_key key target (update account) accounts), to_public_account (update account))

unfoldable pub update_change : Text → (GnAccountRecord → GnAccountRecord) → Accounts → AccountChange
update_change target update accounts =
    update_found target update accounts (find_key key target accounts)

abbrev pub set_flag : Bool → GnAccountRecord → GnAccountRecord
set_flag disabled account = record account { disabled = disabled }

-- `setDisabled(username, disabled)`
unfoldable pub set_disabled :
    Bool → Text → Bool → AccountDisk → AccountDisk × Outcome AccountStoreError PublicGnAccount
set_disabled writable username disabled disk =
    mutate corrupt_store all_with_defaults writable
      (update_change (normalise_username username) (set_flag disabled)) disk

unfoldable pub remove_change :
    Text → Accounts → Outcome AccountStoreError (Option Accounts × Unit {0})
remove_change target accounts =
    let remaining = remove_key key target accounts in
    if length remaining == length accounts then err (no_account target) else ok (some remaining, tt)

-- `remove(username)`
unfoldable pub remove :
    Bool → Text → AccountDisk → AccountDisk × Outcome AccountStoreError (Unit {0})
remove writable username disk =
    mutate corrupt_store all_with_defaults writable (remove_change (normalise_username username))
      disk

abbrev pub clear_change : Accounts → Outcome AccountStoreError (Option Accounts × ℕ)
clear_change accounts =
    let removed = length accounts in ok (if removed == 0 then none else some [], removed)

-- `clear()`
unfoldable pub clear : Bool → AccountDisk → AccountDisk × Outcome AccountStoreError ℕ
clear writable disk = mutate corrupt_store all_with_defaults writable clear_change disk

module _ (crypto : Crypto) where
  -- verifyPassword of crypto.ts
  abbrev pub verify_password : Text → Text → Bool
  verify_password password password_hash = or_false (crypto.compare password password_hash)

  abbrev pub new_account : Draw → CreateAccountInput → GnAccountRecord
  new_account draw input =
      let username = normalise_username input.username in
      record {
        id = draw.id;
        username = username;
        password_hash = crypto.hash_password draw.salt input.password;
        must_change_password = some true;
        password_changed_at = none;
        division_id = input.division_id;
        address = input.address;
        encrypted_private_key = crypto.encrypt_secret draw.nonce input.private_key username;
        created_at = draw.now;
        disabled = false;
      }

  unfoldable pub create_change : GnAccountRecord → Accounts → AccountChange
  create_change account accounts =
      if any (λ a. text_eq a.username account.username) accounts
      then err (name_taken account.username)
      else ok (some (accounts ++ account ∷ []), to_public_account account)

  -- `create(input)`
  unfoldable pub create :
      Bool
      → Draw
      → CreateAccountInput
      → AccountDisk
      → AccountDisk × Outcome AccountStoreError PublicGnAccount
  create writable draw input disk = checked (check_input input) disk (λ _.
      mutate corrupt_store all_with_defaults writable (create_change (new_account draw input)) disk)

  abbrev pub check_different :
      Text → Text → Option GnAccountRecord → Outcome AccountStoreError (Unit {0})
  check_different target password none = err (no_account target)
  check_different target password (some account) =
      guard (not (verify_password password account.password_hash)) same_password

  abbrev pub check_policy : Option PasswordProblem → Outcome AccountStoreError (Unit {0})
  check_policy none = ok tt
  check_policy (some problem) = err (bad_password problem)

  -- `changePassword` as far as its mutation, on the file that it reads there
  unfoldable pub change_allowed : Text → Text → AccountDisk → Outcome AccountStoreError (Unit {0})
  change_allowed target password seen =
      check_policy (password_problem (string password))
      >> (find_by_username target seen >>= λ account. check_different target password account)

  abbrev pub take_custody : Draw → Text → GnAccountRecord → GnAccountRecord
  take_custody draw password account = record account {
    password_hash = crypto.hash_password draw.salt password;
    must_change_password = some false;
    password_changed_at = some draw.now;
  }

  -- `changePassword(username, newPassword)`. Other calls may come between its first read of the
  -- file and its mutation: `seen` is the file at the first, `disk` at the second.
  unfoldable pub change_password :
      Bool
      → Draw
      → Text
      → Text
      → AccountDisk
      → AccountDisk
      → AccountDisk × Outcome AccountStoreError PublicGnAccount
  change_password writable draw username password seen disk =
      let target = normalise_username username in
      checked (change_allowed target password seen) disk (λ _.
        mutate corrupt_store all_with_defaults writable
          (update_change target (take_custody draw password)) disk)

  -- the check of `decryptPrivateKey` on what the envelope holds
  abbrev pub private_key_of : Option Text → Option Text
  private_key_of none = none
  private_key_of (some k) = if is_private_key k then some k else none

  -- `decryptPrivateKey(account)`; none where it throws
  unfoldable pub decrypt_private_key : GnAccountRecord → Option Text
  decrypt_private_key account =
      private_key_of (crypto.decrypt_secret account.encrypted_private_key account.username)
