-- ===== src/DivisionCreation.antt =====
-- packages/nextjs/services/divisions/divisionCreation.ts, createDivisionOnChain, and the rows of
-- app/api/divisions/bulk/route.ts. The relay is the one of Auth/Relay/Executor, and is asked twice:
-- what it finds may have changed in between. The receipt and its events (viem) are an argument. A
-- failed relay call is told by its status.
pub mod Settled
pub mod Created
pub mod Import
mod Tests
use zk_voting.Prelude.{
  ℕ, ◌≡◌, Bool, true, false, not, Option, none, some, List, [], ◌∷◌, ◌++◌, any, length, leb,
  if◌then◌else◌,
}
use zk_voting.Prelude.Outcome.{Outcome, ok, err, thrown, ◌>>◌, guard}
use zk_voting.Prelude.Text.{Text, codes, text_eq, trim, to_lower_case}
use zk_voting.Auth.Relay.Policy.{RelayRequest}
use zk_voting.Auth.Relay.Value.{string, bool, array, item, end, is_empty}
use zk_voting.Auth.Relay.Contracts.{DeployedEntry, Deployment}
use zk_voting.Auth.Relay.Executor.{
  Caller, Executed, RelayOutcome, relayed, failure, Server, Signed, Submission, execute_relay_call,
}

pub data AssignError : Type 0 where
  not_read_back no_nic_registry : AssignError
  authorising_failed : ℕ → AssignError

pub record CreateDivisionResult : Type 0 where
  pub name : Text
  pub voting_contract : Option Text
  pub authorised : Bool
  pub assign_error : Option AssignError

pub data CreateDivisionError : Type 0 where
  no_name name_too_long name_exists no_registry : CreateDivisionError
  not_created : ℕ → CreateDivisionError

abbrev max_name_length : ℕ
max_name_length = 128

unfoldable pub normalise_division_name : Text → Text
unfolding to_lower_case trim
normalise_division_name name = to_lower_case (trim name)

-- What the relay finds when it is asked, and what the chain makes of what it signs.
pub record RelayMoment : Type 0 where
  pub server : Server
  pub submit : Signed → Submission

-- The server during one creation. `addresses_in` are the voting contracts that the events of a
-- transaction's receipt name; it is an error where the receipt cannot be had.
pub record DivisionServer : Type 0 where
  pub deployment : Deployment
  pub at_creation : RelayMoment
  pub at_authorising : RelayMoment
  pub addresses_in : Text → Outcome (Unit {0}) (List Text)

pub record RelayCall : Type 0 where
  pub request : RelayRequest
  pub executed : Executed

-- What a creation comes to, with the calls of the relay that returned, in order.
pub record DivisionOutcome : Type 0 where
  pub outcome : Outcome CreateDivisionError CreateDivisionResult
  pub calls : List RelayCall

abbrev pub has_name : Text → List Text → Bool
has_name name names = any (λ n. text_eq n name) names

-- the checks of the trimmed name
unfoldable pub check_division_name : Text → List Text → Outcome CreateDivisionError (Unit {0})
unfolding normalise_division_name text_eq
check_division_name name existing =
    guard (not (is_empty name)) no_name
    >> (guard (leb (length name) max_name_length) name_too_long
        >> guard (not (has_name (normalise_division_name name) existing)) name_exists)

-- `deployedEntry(chainId, name)?.address`, where it is truthy
abbrev pub entry_address : Option DeployedEntry → Option Text
entry_address none = none
entry_address (some e) = if is_empty e.address then none else some e.address

abbrev pub create_division_request : Text → Text → RelayRequest
create_division_request registry name = record {
  target = string registry;
  fn = string (codes "createDivision");
  args = array (item (string name) end);
}

abbrev pub set_voting_contract_request : Text → Text → RelayRequest
set_voting_contract_request registry voting_contract = record {
  target = string registry;
  fn = string (codes "setVotingContract");
  args = array (item (string voting_contract) (item (bool true) end));
}

-- `created[0]?.args?.votingContract`, where it is truthy
abbrev pub read_back : Outcome (Unit {0}) (List Text) → Option Text
read_back (ok []) = none
read_back (ok (address ∷ addresses)) = if is_empty address then none else some address
read_back _ = none

abbrev pub unauthorised : Text → Option Text → AssignError → CreateDivisionResult
unauthorised name voting_contract e = record {
  name = name;
  voting_contract = voting_contract;
  authorised = false;
  assign_error = some e;
}

abbrev pub authorised_as : Text → Text → RelayOutcome → CreateDivisionResult
authorised_as name voting_contract (relayed hash block) = record {
  name = name;
  voting_contract = some voting_contract;
  authorised = true;
  assign_error = none;
}
authorised_as name voting_contract (failure status) =
    unauthorised name (some voting_contract) (authorising_failed status)

-- the end of the function, with the relay's second answer
abbrev pub after_authorising :
    Text → Text → RelayCall → RelayRequest → Outcome (Unit {0}) Executed → DivisionOutcome
after_authorising name voting_contract first request (ok e) = record {
  outcome = ok (authorised_as name voting_contract e.outcome);
  calls = first ∷ record { request = request; executed = e } ∷ [];
}
after_authorising name voting_contract first request _ = record {
  outcome = thrown;
  calls = first ∷ [];
}

abbrev pub authorise_contract :
    DivisionServer → Caller → Text → RelayCall → Text → Option Text → DivisionOutcome
authorise_contract server caller name first voting_contract none = record {
  outcome = ok (unauthorised name (some voting_contract) no_nic_registry);
  calls = first ∷ [];
}
authorise_contract server caller name first voting_contract (some registry) =
    let request = set_voting_contract_request registry voting_contract in
    after_authorising name voting_contract first request
      (execute_relay_call server.at_authorising.submit server.at_authorising.server caller request)

abbrev pub authorise_created :
    DivisionServer → Caller → Text → RelayCall → Option Text → DivisionOutcome
authorise_created server caller name first none = record {
  outcome = ok (unauthorised name none not_read_back);
  calls = first ∷ [];
}
authorise_created server caller name first (some voting_contract) =
    authorise_contract server caller name first voting_contract
      (entry_address server.deployment.nic_registry_entry)

abbrev pub after_relayed :
    DivisionServer → Caller → Text → RelayCall → RelayOutcome → DivisionOutcome
after_relayed server caller name first (relayed hash block) =
    authorise_created server caller name first (read_back (server.addresses_in hash))
after_relayed server caller name first (failure status) = record {
  outcome = err (not_created status);
  calls = first ∷ [];
}

abbrev pub after_creation :
    DivisionServer → Caller → Text → RelayRequest → Outcome (Unit {0}) Executed → DivisionOutcome
after_creation server caller name request (ok e) =
    after_relayed server caller name (record { request = request; executed = e }) e.outcome
after_creation server caller name request _ = record { outcome = thrown; calls = [] }

abbrev pub create_named : DivisionServer → Caller → Text → Option Text → DivisionOutcome
create_named server caller name none = record { outcome = err no_registry; calls = [] }
create_named server caller name (some registry) =
    let request = create_division_request registry name in
    after_creation server caller name request
      (execute_relay_call server.at_creation.submit server.at_creation.server caller request)

abbrev pub create_checked :
    DivisionServer → Caller → Text → Outcome CreateDivisionError (Unit {0}) → DivisionOutcome
create_checked server caller name (ok u) =
    create_named server caller name (entry_address server.deployment.registry)
create_checked server caller name (err e) = record { outcome = err e; calls = [] }
create_checked server caller name thrown = record { outcome = thrown; calls = [] }

-- `createDivisionOnChain(rawName, session, existingNames)`
unfoldable pub create_division_on_chain :
    DivisionServer → Caller → Text → List Text → DivisionOutcome
unfolding trim check_division_name execute_relay_call
create_division_on_chain server caller raw_name existing =
    create_checked server caller (trim raw_name) (check_division_name (trim raw_name) existing)
