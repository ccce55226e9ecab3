-- ===== src/Auth/Officers/Tests.antt =====
-- An officer is created while the relay cannot reach the chain.
use zk_voting.Prelude.{ℕ, ◌≡◌, refl, true, false, none, some, List, [], ◌∷◌, ◌++◌}
use zk_voting.Prelude.Int.{pos}
use zk_voting.Prelude.Outcome.{ok}
use zk_voting.Prelude.Text.{
  Text, codes, text_eq, trim, to_lower_case, drop_spaces, is_space, lower_unit, is_hex_of,
}
use zk_voting.Store.{absent, read, finish, mutate}
use zk_voting.Auth.AccountRecords.{normalise_username, is_name}
use zk_voting.Auth.Accounts.{create, create_change}
use zk_voting.Auth.Relay.Value.{integer}
use zk_voting.Auth.Relay.Contracts.{DivisionSummary}
use zk_voting.Auth.Relay.Executor.{
  Caller, Signed, Submission, failed, execute_relay_call, prepare, prepare_role,
}
use zk_voting.Auth.Session.{admin}
use zk_voting.Auth.Officers.{
  CreateOfficerInput, CreateOfficerResult, OfficerDraw, OfficerServer, generate_password,
  checked_division, assign_officer, create_gn_officer_account,
}
use zk_voting.Auth.Officers.Created.{IsCreated, create_gn_officer_account-IsCreated}

abbrev twenty_bytes : List ℕ
twenty_bytes =
    0 ∷ 56 ∷ 57 ∷ 255 ∷ 4 ∷ 5 ∷ 6 ∷ 7 ∷ 8 ∷ 9 ∷ 10 ∷ 11 ∷ 12 ∷ 13 ∷ 14 ∷ 15 ∷ 16 ∷ 17 ∷ 18 ∷ 19 ∷ []

generated : generate_password (0 ∷ 56 ∷ 57 ∷ 255 ∷ []) ≡ codes "A9Ad"
unfolding generate_password
generated = refl

abbrev signing_key : Text
signing_key = codes "0x00112233445566778899aabbccddeeff00112233445566778899aabbccddeeff"

abbrev officer_address : Text
officer_address = codes "0x00112233445566778899aabbccddeeff00112233"

abbrev kaduwela : DivisionSummary
kaduwela = record {
  id = 3;
  name = codes "Kaduwela";
  voting_contract = codes "0x5fc8";
  gn_officers = [];
  active = true;
}

abbrev no_chain : Signed → Submission
no_chain s = failed none (codes "down")

abbrev server : OfficerServer
server = record {
  crypto = record {
    hash_password = λ salt password. salt ++ password;
    compare = λ password password_hash. some (text_eq password_hash (codes "s" ++ password));
    encrypt_secret = λ nonce secret aad. secret;
    decrypt_secret = λ envelope aad. some envelope;
  };
  address_of = λ k. officer_address;
  writable = true;
  relay_server = record {
    divisions = none;
    deployment = record { registry = none; nic_registry_entry = none; voting_entry = none };
    accounts = absent;
    crypto = record {
      hash_password = λ salt password. salt ++ password;
      compare = λ password password_hash. none;
      encrypt_secret = λ nonce secret aad. secret;
      decrypt_secret = λ envelope aad. none;
    };
    admin_relay_private_key = none;
    has_account = λ k. true;
  };
  submit = no_chain;
}

abbrev caller : Caller
caller = record { username = codes "root"; role = admin; division_id = none }

abbrev drawn : OfficerDraw
drawn = record {
  private_key = signing_key;
  bytes = 0 ∷ [];
  draw = record { salt = codes "s"; nonce = codes "n"; id = codes "1"; now = codes "mon" };
}

abbrev input : CreateOfficerInput
input = record { username = codes " Ann"; division_id = integer (pos 3); assign = none }

abbrev made : CreateOfficerResult
made = record {
  username = codes "ann";
  password = codes "A";
  address = officer_address;
  division_id = integer (pos 3);
  division_name = codes "Kaduwela";
  assigned = false;
  assign_error = some 503;
}

returned :
    (create_gn_officer_account server caller drawn input (kaduwela ∷ []) absent).outcome ≡ ok made
unfolding create_gn_officer_account checked_division assign_officer create create_change mutate read
    finish generate_password execute_relay_call prepare prepare_role is_name is_hex_of
    normalise_username text_eq trim drop_spaces is_space to_lower_case lower_unit
returned = refl

create_gn_officer_account-IsCreated_example :
    IsCreated server caller drawn input (kaduwela ∷ []) absent made
create_gn_officer_account-IsCreated_example =
    create_gn_officer_account-IsCreated server caller drawn input (kaduwela ∷ []) absent made tt
      returned
