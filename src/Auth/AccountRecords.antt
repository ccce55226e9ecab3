-- ===== src/Auth/AccountRecords.antt =====
-- packages/nextjs/services/auth/accounts.ts: the records of the account store, their usernames and
-- patterns, and what the store takes from crypto.ts. An AccountStoreError has its text as a constructor.
use zk_voting.Prelude.{
  ℕ, Bool, true, false, ◌&&◌, ◌||◌, Option, none, some, List, [], ◌∷◌, leb, ◌==◌, length, all,
}
use zk_voting.Prelude.Int.{pos}
use zk_voting.Prelude.Text.{Text, trim, to_lower_case, is_digit, in_range, is_hex_of}
use zk_voting.Store.{Disk}
use zk_voting.Auth.PasswordPolicy.{PasswordProblem}
use zk_voting.Auth.Relay.Value.{Number, integer}

-- A record of the file; an old one has no `mustChangePassword`.
pub record GnAccountRecord : Type 0 where
  pub id : Text
  pub username : Text
  pub password_hash : Text
  pub must_change_password : Option Bool
  pub password_changed_at : Option Text
  pub division_id : Number
  pub address : Text
  pub encrypted_private_key : Text
  pub created_at : Text
  pub disabled : Bool

pub record PublicGnAccount : Type 0 where
  pub id : Text
  pub username : Text
  pub division_id : Number
  pub address : Text
  pub created_at : Text
  pub disabled : Bool
  pub must_change_password : Option Bool
  pub password_changed_at : Option Text

pub data AccountStoreError : Type 0 where
  corrupt_store bad_username bad_division bad_address bad_private_key : AccountStoreError
  name_taken no_account : Text → AccountStoreError
  bad_password : PasswordProblem → AccountStoreError
  same_password : AccountStoreError

abbrev pub Accounts : Type 0
Accounts = List GnAccountRecord

abbrev pub AccountDisk : Type 0
AccountDisk = Disk GnAccountRecord

abbrev pub key : GnAccountRecord → Text
key account = account.username

-- `toPublicAccount(account)`
abbrev pub to_public_account : GnAccountRecord → PublicGnAccount
to_public_account account = record {
  id = account.id;
  username = account.username;
  division_id = account.division_id;
  address = account.address;
  created_at = account.created_at;
  disabled = account.disabled;
  must_change_password = account.must_change_password;
  password_changed_at = account.password_changed_at;
}

abbrev pub or_true : Option Bool → Option Bool
or_true none = some true
or_true (some b) = some b

-- `withDefaults(account)`
abbrev pub with_defaults : GnAccountRecord → GnAccountRecord
with_defaults account = record account {
  must_change_password = or_true account.must_change_password;
}

-- `file.accounts.map(withDefaults)`
abbrev pub all_with_defaults : Accounts → Accounts
all_with_defaults [] = []
all_with_defaults (a ∷ accounts) = with_defaults a ∷ all_with_defaults accounts

-- `normaliseUsername(raw)`
unfoldable pub normalise_username : Text → Text
unfolding trim to_lower_case
normalise_username raw = to_lower_case (trim raw)

abbrev is_name_start : ℕ → Bool
is_name_start c = in_range b'a' b'z' c || is_digit c

abbrev is_name_unit : ℕ → Bool
is_name_unit c = is_name_start c || c == b'.' || c == b'_' || c == b'-'

-- `^[a-z0-9][a-z0-9._-]{2,31}$`
unfoldable pub is_name : Text → Bool
is_name [] = false
is_name (c ∷ s) = is_name_start c && all is_name_unit s && leb 2 (length s) && leb (length s) 31

-- `isValidUsername(raw)`
abbrev pub is_valid_username : Text → Bool
is_valid_username raw = is_name (normalise_username raw)

-- `Number.isInteger(n) && n >= 0`
abbrev pub is_division : Number → Bool
is_division (integer (pos n)) = true
is_division _ = false

-- ADDRESS_PATTERN
abbrev pub is_address_text : Text → Bool
is_address_text s = is_hex_of 40 s

-- PRIVATE_KEY_PATTERN
abbrev pub is_private_key : Text → Bool
is_private_key s = is_hex_of 64 s

pub record CreateAccountInput : Type 0 where
  pub username : Text
  pub password : Text
  pub division_id : Number
  pub address : Text
  pub private_key : Text

-- What crypto.ts does with the store's key: bcrypt with a salt, and the envelope with a nonce and
-- the username as additional data. `compare` and `decrypt_secret` give none where they throw.
pub record Crypto : Type 0 where
  pub hash_password : Text → Text → Text
  pub compare : Text → Text → Option Bool
  pub encrypt_secret : Text → Text → Text → Text
  pub decrypt_secret : Text → Text → Option Text

-- What a call draws at random, and the date that it writes.
pub record Draw : Type 0 where
  pub salt : Text
  pub nonce : Text
  pub id : Text
  pub now : Text
