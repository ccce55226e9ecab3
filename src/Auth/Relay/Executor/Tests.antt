-- ===== src/Auth/Relay/Executor/Tests.antt =====
-- A GN officer's call through the relay.
use zk_voting.Prelude.{◌≡◌, refl, true, false, none, some, List, [], ◌∷◌}
use zk_voting.Prelude.Int.{pos}
use zk_voting.Prelude.Outcome.{ok}
use zk_voting.Prelude.Text.{
  Text, codes, text_eq, to_lower_case, trim, drop_spaces, is_space, lower_unit, is_hex_of,
}
use zk_voting.Store.{stored, read}
use zk_voting.Auth.AccountRecords.{GnAccountRecord, Crypto, normalise_username}
use zk_voting.Auth.Accounts.{find_by_username, decrypt_private_key}
use zk_voting.Auth.Relay.Value.{integer}
use zk_voting.Auth.Relay.Policy.{KnownContract}
use zk_voting.Auth.Relay.Policy.Tests.{
  division, registry, signed, with_voting, gn_reserves_with_voting,
}
use zk_voting.Auth.Session.{gn}
use zk_voting.Auth.Relay.Contracts.{DivisionSummary, build_known_contracts}
use zk_voting.Auth.Relay.Executor.{
  Server, Caller, is_officer, check_officer, Signed, prepare_role, prepare, Submission, success,
  mined_success, relayed, Executed, execute_relay_call,
}
use zk_voting.Auth.Relay.Executor.Signing.{IsEntitled, execute-IsEntitled}
use zk_voting.Auth.Relay.Executor.Audit.{IsTold, execute-Tells}

abbrev officer_address : Text
officer_address = codes "0x2222222222222222222222222222222222222222"

abbrev private_key : Text
private_key = codes "0x00112233445566778899aabbccddeeff00112233445566778899aabbccddeeff"

abbrev plain : Crypto
plain = record {
  hash_password = λ salt password. password;
  compare = λ password password_hash. some (text_eq password password_hash);
  encrypt_secret = λ nonce secret aad. secret;
  decrypt_secret = λ envelope aad. some envelope;
}

abbrev account : GnAccountRecord
account = record {
  id = codes "1";
  username = codes "ann";
  password_hash = codes "p";
  must_change_password = some false;
  password_changed_at = none;
  division_id = integer (pos 0);
  address = officer_address;
  encrypted_private_key = private_key;
  created_at = codes "mon";
  disabled = false;
}

abbrev village : DivisionSummary
village = record {
  id = 0;
  name = codes "village";
  voting_contract = division;
  gn_officers = officer_address ∷ [];
  active = true;
}

abbrev server : Server
server = record {
  divisions = some (village ∷ []);
  deployment = record {
    registry = none;
    nic_registry_entry = some (record { address = registry.address; abi = registry.abi });
    voting_entry = some (record { address = division; abi = [] });
  };
  accounts = stored (account ∷ []);
  crypto = plain;
  admin_relay_private_key = none;
  has_account = λ k. true;
}

abbrev ann : Caller
ann = record { username = codes "ann"; role = gn; division_id = some 0 }

abbrev signature : Signed
signature = record { private_key = private_key; authorised = signed }

abbrev submit : Signed → Submission
submit s = success (codes "0xabc") 7

abbrev executed : Executed
executed = record {
  outcome = relayed (codes "0xabc") 7;
  audit = mined_success (codes "0xabc") 7 ∷ [];
  signed = some signature;
}

ann_signs : execute_relay_call submit server ann with_voting.request ≡ ok executed
unfolding execute_relay_call prepare prepare_role build_known_contracts check_officer is_officer
    find_by_username decrypt_private_key normalise_username text_eq to_lower_case trim drop_spaces
    is_space lower_unit is_hex_of read
ann_signs = rw gn_reserves_with_voting refl

execute-IsEntitled_example :
    (divisions : List DivisionSummary) × (known : List KnownContract) × (server.divisions
      ≡ some divisions)
    × (build_known_contracts server.deployment divisions ≡ some known)
    × IsEntitled gn server ann with_voting.request divisions known signature
execute-IsEntitled_example =
    execute-IsEntitled submit server ann with_voting.request executed signature ann_signs refl

execute-Tells_example :
    IsTold server ann with_voting.request submit
      (execute_relay_call submit server ann with_voting.request)
execute-Tells_example = execute-Tells server ann with_voting.request submit
