-- ===== src/Auth/Accounts/Tests.antt =====
-- The account store at concrete inputs, with a cipher that seals nothing and a hash that hides nothing.
use zk_voting.Prelude.{◌≡◌, refl, Bool, true, false, Option, none, some, List, [], ◌∷◌, ◌++◌}
use zk_voting.Prelude.Int.{pos}
use zk_voting.Prelude.Keyed.{replace_key}
use zk_voting.Prelude.Outcome.{ok}
use zk_voting.Prelude.Text.{
  Text, codes, text_eq, trim, to_lower_case, drop_spaces, is_space, lower_unit, is_hex_of,
}
use zk_voting.Store.{absent, stored, read, finish, mutate}
use zk_voting.Auth.PasswordPolicy.{password_problem}
use zk_voting.Auth.Relay.Value.{integer}
use zk_voting.Auth.AccountRecords.{
  GnAccountRecord, AccountDisk, to_public_account, normalise_username, is_name, is_private_key,
  CreateAccountInput, Crypto, Draw,
}
use zk_voting.Auth.Accounts.{
  find_by_username, update_change, set_disabled, remove, new_account, create_change, create,
  change_allowed, take_custody, change_password, decrypt_private_key,
}
use zk_voting.Auth.Accounts.Records.{IsSound}
use zk_voting.Auth.Accounts.Custody.{
  Op, creates, changes, removes, step, run, run-IsSound, decrypt_private_key_of_run,
}
use zk_voting.Auth.Accounts.Effects.{account_of}
use zk_voting.Auth.Accounts.Effects.Creation.{create_refines}
use zk_voting.Auth.Accounts.Effects.Passwords.{change_password_refines}
use zk_voting.Auth.Accounts.Effects.Gate.{owes_change, gate_opens}

abbrev plain : Crypto
plain = record {
  hash_password = λ salt password. salt ++ password;
  compare = λ password password_hash. some (text_eq password_hash (codes "s" ++ password));
  encrypt_secret = λ nonce secret aad. secret;
  decrypt_secret = λ envelope aad. some envelope;
}

abbrev draw : Draw
draw = record { salt = codes "s"; nonce = codes "n"; id = codes "1"; now = codes "mon" }

abbrev private_key : Text
private_key = codes "0x00112233445566778899aabbccddeeff00112233445566778899aabbccddeeff"

abbrev input : CreateAccountInput
input = record {
  username = codes " Ann ";
  password = codes "from the admin";
  division_id = integer (pos 2);
  address = codes "0x00112233445566778899aabbccddeeff00112233";
  private_key = private_key;
}

abbrev ann : Text
ann = codes "ann"

abbrev own_password : Text
own_password = codes "chosen by ann"

abbrev account : GnAccountRecord
account = record {
  id = codes "1";
  username = ann;
  password_hash = codes "sfrom the admin";
  must_change_password = some true;
  password_changed_at = none;
  division_id = integer (pos 2);
  address = codes "0x00112233445566778899aabbccddeeff00112233";
  encrypted_private_key = private_key;
  created_at = codes "mon";
  disabled = false;
}

abbrev owned : GnAccountRecord
owned = record account {
  password_hash = codes "schosen by ann";
  must_change_password = some false;
  password_changed_at = some (codes "mon");
}

abbrev disk : AccountDisk
disk = stored (account ∷ [])

abbrev ops : List Op
ops =
    creates true draw input
    ∷ creates true draw input
    ∷ removes true (codes "bob")
    ∷ changes true draw ann own_password disk
    ∷ []

run-IsSound_example : IsSound plain (run plain ops absent)
run-IsSound_example = run-IsSound plain ops absent tt

ann_is_found : find_by_username ann (run plain ops absent) ≡ ok (some owned)
unfolding run step create mutate read finish create_change text_eq normalise_username is_name trim
    drop_spaces is_space to_lower_case lower_unit is_hex_of change_password change_allowed
    password_problem find_by_username remove update_change replace_key
    zk_voting.Auth.Accounts.remove_change zk_voting.Prelude.Keyed.remove_key
ann_is_found = refl

decrypt_private_key_of_run_example :
    (k : Text) × (decrypt_private_key plain owned ≡ some k) × (is_private_key k ≡ true)
decrypt_private_key_of_run_example =
    decrypt_private_key_of_run plain (λ nonce secret aad. refl) ops ann owned ann_is_found

create_refines_example :
    ((create plain true draw input absent).1 ≡ ok (to_public_account account))
    × (account_of ann (create plain true draw input absent).0 ≡ some account)
unfolding normalise_username text_eq is_name trim drop_spaces is_space to_lower_case lower_unit
    is_hex_of
create_refines_example = create_refines plain true draw input ann absent tt

change_password_refines_example :
    ((change_password plain true draw ann own_password disk disk).1 ≡ ok (to_public_account owned))
    × (account_of ann (change_password plain true draw ann own_password disk disk).0 ≡ some owned)
unfolding normalise_username text_eq trim drop_spaces is_space to_lower_case lower_unit
    password_problem
change_password_refines_example =
    change_password_refines plain true draw ann own_password ann disk disk tt tt

opened :
    owes_change (account_of ann (step plain (changes true draw ann own_password disk) disk)) ≡ false
unfolding step mutate read finish text_eq normalise_username trim drop_spaces is_space to_lower_case
    lower_unit change_password change_allowed password_problem find_by_username update_change
    replace_key
opened = refl

gate_opens_example :
    (normalise_username ann ≡ ann) × (change_allowed plain ann own_password disk ≡ ok tt)
unfolding text_eq
gate_opens_example =
    gate_opens plain (changes true draw ann own_password disk) ann (account ∷ []) refl opened
