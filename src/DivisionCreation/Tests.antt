-- ===== src/DivisionCreation/Tests.antt =====
-- A division is created and authorised, and an import repeats its name.
use zk_voting.Prelude.{◌≡◌, refl, true, some, none, List, [], ◌∷◌, map}
use zk_voting.Prelude.Map.{get}
use zk_voting.Prelude.Outcome.{ok}
use zk_voting.Prelude.Text.{
  Text, codes, text_eq, to_lower_case, lower_unit, trim, drop_spaces, is_space, is_hex_of,
}
use zk_voting.Store.{absent}
use zk_voting.Auth.Relay.CoerceArg.{array_match, scalar_of, coerce_scalar, coerce_arg}
use zk_voting.Auth.Relay.Policy.{
  nonpayable, function, relay_whitelist, same_address, known_contract, find_function, check_scope,
  check_mutability, coerce_args, authorize_relay_call,
}
use zk_voting.Auth.Relay.Contracts.{DivisionSummary, Deployment, build_known_contracts}
use zk_voting.Auth.Relay.Executor.{
  Caller, Signed, Submission, success, prepare, prepare_role, resolve_admin_key, execute_relay_call,
}
use zk_voting.Auth.Session.{admin}
use zk_voting.DivisionCreation.{
  CreateDivisionResult, DivisionServer, RelayMoment, normalise_division_name, check_division_name,
  create_division_on_chain,
}
use zk_voting.DivisionCreation.Settled.{IsSettled}
use zk_voting.DivisionCreation.Created.{create_division_on_chain-IsSettled}
use zk_voting.DivisionCreation.Import.{
  Row, ImportedRow, row_name, import_rows, names_of, import_divisions,
}
use zk_voting.DivisionCreation.Import.Distinct.{IsDistinct, created_of, import_divisions-IsDistinct}

abbrev registry_address : Text
registry_address = codes "0x1111111111111111111111111111111111111111"

abbrev nic_address : Text
nic_address = codes "0x2222222222222222222222222222222222222222"

abbrev contract_address : Text
contract_address = codes "0x3333333333333333333333333333333333333333"

abbrev admin_private_key : Text
admin_private_key = codes "0x00112233445566778899aabbccddeeff00112233445566778899aabbccddeeff"

abbrev deployment : Deployment
deployment = record {
  registry = some (record {
    address = registry_address;
    abi =
        function (record {
          name = codes "createDivision";
          state_mutability = nonpayable;
          inputs = codes "string" ∷ [];
        })
        ∷ [];
  });
  nic_registry_entry = some (record {
    address = nic_address;
    abi =
        function (record {
          name = codes "setVotingContract";
          state_mutability = nonpayable;
          inputs = codes "address" ∷ codes "bool" ∷ [];
        })
        ∷ [];
  });
  voting_entry = none;
}

abbrev mined : Signed → Submission
mined s = success (codes "0xabc") 7

abbrev moment : RelayMoment
moment = record {
  server = record {
    divisions = some [];
    deployment = deployment;
    accounts = absent;
    crypto = record {
      hash_password = λ salt password. password;
      compare = λ password password_hash. none;
      encrypt_secret = λ nonce secret aad. secret;
      decrypt_secret = λ envelope aad. none;
    };
    admin_relay_private_key = some admin_private_key;
    has_account = λ k. true;
  };
  submit = mined;
}

abbrev server : DivisionServer
server = record {
  deployment = deployment;
  at_creation = moment;
  at_authorising = moment;
  addresses_in = λ hash. ok (contract_address ∷ []);
}

abbrev caller : Caller
caller = record { username = codes "root"; role = admin; division_id = none }

abbrev gampaha : CreateDivisionResult
gampaha = record {
  name = codes "Gampaha";
  voting_contract = some contract_address;
  authorised = true;
  assign_error = none;
}

created :
    (create_division_on_chain server caller (codes " Gampaha") (codes "kaduwela" ∷ [])).outcome
    ≡ ok gampaha
unfolding create_division_on_chain check_division_name normalise_division_name execute_relay_call
    prepare prepare_role resolve_admin_key build_known_contracts authorize_relay_call known_contract
    find_function check_scope relay_whitelist same_address check_mutability coerce_args coerce_arg
    coerce_scalar scalar_of array_match text_eq to_lower_case lower_unit trim drop_spaces is_space
    is_hex_of
created = refl

create_division_on_chain-IsSettled_example :
    let o = create_division_on_chain server caller (codes " Gampaha") (codes "kaduwela" ∷ []) in
    IsSettled server caller (trim (codes " Gampaha")) (codes "kaduwela" ∷ []) o.outcome o.calls
create_division_on_chain-IsSettled_example =
    create_division_on_chain-IsSettled server caller (codes " Gampaha") (codes "kaduwela" ∷ [])

abbrev kaduwela : DivisionSummary
kaduwela = record {
  id = 0;
  name = codes "Kaduwela ";
  voting_contract = codes "0x5fc8";
  gn_officers = [];
  active = true;
}

abbrev row_of : Text → Text → Row
row_of header name = record { columns = (header, name) ∷ []; server = server }

abbrev rows : List Row
rows =
    row_of (codes "name") (codes " Gampaha")
    ∷ row_of (codes "division") (codes "GAMPAHA")
    ∷ row_of (codes "division name") (codes "kaduwela")
    ∷ []

only_gampaha : created_of (import_divisions caller (kaduwela ∷ []) rows) ≡ gampaha ∷ []
unfolding import_divisions import_rows row_name get create_division_on_chain check_division_name
    normalise_division_name execute_relay_call prepare prepare_role resolve_admin_key
    build_known_contracts authorize_relay_call known_contract find_function check_scope
    relay_whitelist same_address check_mutability coerce_args coerce_arg coerce_scalar scalar_of
    array_match text_eq to_lower_case lower_unit trim drop_spaces is_space is_hex_of
only_gampaha = refl

import_divisions-IsDistinct_example :
    IsDistinct
      (names_of (kaduwela ∷ []))
      (created_of (import_divisions caller (kaduwela ∷ []) rows))
    × (map (λ (r : ImportedRow). r.result.row) (import_divisions caller (kaduwela ∷ []) rows)
        ≡ 2 ∷ 3 ∷ 4 ∷ [])
import_divisions-IsDistinct_example = import_divisions-IsDistinct caller (kaduwela ∷ []) rows
