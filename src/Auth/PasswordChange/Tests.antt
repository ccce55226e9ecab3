-- ===== src/Auth/PasswordChange/Tests.antt =====
-- An officer replaces the password that the admin gave.
use zk_voting.Prelude.{◌≡◌, refl, ◌⊎◌, true, false, Option, none, some, [], ◌∷◌, ◌++◌}
use zk_voting.Prelude.Int.{pos}
use zk_voting.Prelude.Json.{string, object, no_members, member}
use zk_voting.Prelude.Keyed.{replace_key}
use zk_voting.Prelude.Map
use zk_voting.Prelude.Text.{
  Text, codes, text_eq, trim, to_lower_case, drop_spaces, is_space, lower_unit,
}
use zk_voting.Store.{stored, read, finish, mutate}
use zk_voting.Auth.AccountRecords.{AccountDisk, Crypto, GnAccountRecord, normalise_username}
use zk_voting.Auth.Accounts.{change_allowed, change_password, find_by_username, update_change}
use zk_voting.Auth.PasswordPolicy.{password_problem}
use zk_voting.Auth.RateLimit.{admit, consume}
use zk_voting.Auth.Relay.Value.{integer}
use zk_voting.Auth.Session.{gn, is_custom_mode, resolve_chain_mode}
use zk_voting.Auth.Session.Gate.{require_session}
use zk_voting.Auth.PasswordChange.{PasswordRequest, changed, limited_change, post_password}
use zk_voting.Auth.PasswordChange.Own.{IsUnchanged, IsOwnChange, post_password-IsOwnChange}

abbrev plain : Crypto
plain = record {
  hash_password = λ salt password. salt ++ password;
  compare = λ password password_hash. some (text_eq password_hash (codes "s" ++ password));
  encrypt_secret = λ nonce secret aad. secret;
  decrypt_secret = λ envelope aad. some envelope;
}

abbrev ann : GnAccountRecord
ann = record {
  id = codes "1";
  username = codes "ann";
  password_hash = codes "sgiven";
  must_change_password = some true;
  password_changed_at = none;
  division_id = integer (pos 2);
  address = codes "0x1";
  encrypted_private_key = codes "k";
  created_at = codes "mon";
  disabled = false;
}

abbrev file : AccountDisk
file = stored (ann ∷ [])

abbrev backend : Option Text
backend = some (codes "custom")

abbrev request : Text → PasswordRequest
request current = record {
  session = some (record {
    username = some (codes "ann");
    role = some gn;
    division_id = some 2;
    must_change_password = some true;
    logged_in_at = some 1;
  });
  ip = codes "10.0.0.1";
  body = some (
      object (
        member (codes "currentPassword") (string current)
          (member (codes "newPassword") (string (codes "chosen by ann")) no_members)));
  now = 5;
  draw = record { salt = codes "s"; nonce = codes "n"; id = codes "2"; now = codes "tue" };
  writable = true;
  read_first = file;
  seen = file;
}

ann_changes :
    (post_password backend plain (request (codes "given")) [] file).answer ≡ changed (codes "ann")
unfolding post_password limited_change is_custom_mode resolve_chain_mode require_session consume
    admit find_by_username change_password change_allowed update_change password_problem read finish
    mutate replace_key normalise_username text_eq trim drop_spaces is_space to_lower_case lower_unit
    Map.get Map.set
ann_changes = refl

post_password-IsOwnChange_example :
    IsUnchanged file (post_password backend plain (request (codes "given")) [] file)
    ⊎ IsOwnChange plain
        (request (codes "given"))
        file
        (post_password backend plain (request (codes "given")) [] file)
post_password-IsOwnChange_example =
    post_password-IsOwnChange plain (request (codes "given")) file backend []
