-- ===== src/DivisionCreation/Settled.antt =====
-- What the creation of a division is to come to, whatever the relay answers.
use zk_voting.Prelude.{
  ℕ, ◌≤◌, ◌≡◌, ◌⊎◌, false, Option, none, some, List, [], ◌∷◌, length, true, leb,
}
use zk_voting.Prelude.Keyed.{is_some}
use zk_voting.Prelude.Outcome.{Outcome, ok, err, thrown}
use zk_voting.Prelude.Text.{Text, codes}
use zk_voting.Store.Mutation.{is_ok}
use zk_voting.Auth.Relay.Policy.{RelayRequest}
use zk_voting.Auth.Relay.Value.{string, bool, array, item, end, is_empty}
use zk_voting.Auth.Relay.Contracts.{DeployedEntry}
use zk_voting.Auth.Relay.Executor.{
  Caller, Executed, RelayOutcome, relayed, failure, execute_relay_call,
}
use zk_voting.DivisionCreation.{
  name_exists, name_too_long, no_name, CreateDivisionResult, CreateDivisionError,
  normalise_division_name, RelayMoment, DivisionServer, RelayCall, has_name,
  create_division_request, not_read_back, no_nic_registry, authorising_failed, no_registry,
  not_created,
}

-- The relay's answer at a moment.
abbrev pub asked : RelayMoment → Caller → RelayRequest → Outcome (Unit {0}) Executed
asked moment caller request = execute_relay_call moment.submit moment.server caller request

-- The two calls of the relay.
abbrev pub creation_request : Text → Text → RelayRequest
creation_request registry name = record {
  target = string registry;
  fn = string (codes "createDivision");
  args = array (item (string name) end);
}

abbrev pub authorising_request : Text → Text → RelayRequest
authorising_request registry address = record {
  target = string registry;
  fn = string (codes "setVotingContract");
  args = array (item (string address) (item (bool true) end));
}

-- A contract is deployed at an address, or it is not deployed.
abbrev pub IsDeployedAt : Option DeployedEntry → Text → Type 0
IsDeployedAt none address = ⊥
IsDeployedAt (some e) address = (e.address ≡ address) × (is_empty address ≡ false)

abbrev pub IsNotDeployed : Option DeployedEntry → Type 0
IsNotDeployed none = Unit
IsNotDeployed (some e) = is_empty e.address ≡ true

-- The address is the first that the receipt's events name; there is none where the receipt cannot be
-- had, or names none.
abbrev pub IsReadBack : Outcome (Unit {0}) (List Text) → Option Text → Type 0
IsReadBack (ok (first ∷ rest)) (some address) = (address ≡ first) × (is_empty first ≡ false)
IsReadBack (ok (first ∷ rest)) none = is_empty first ≡ true
IsReadBack (ok []) address = address ≡ none
IsReadBack _ address = address ≡ none

-- What a result tells of the relay's answer to the second call.
abbrev pub IsTold : RelayOutcome → CreateDivisionResult → Type 0
IsTold (relayed hash block) result = (result.authorised ≡ true) × (result.assign_error ≡ none)
IsTold (failure status) result =
    (result.authorised ≡ false) × (result.assign_error ≡ some (authorising_failed status))

module _ (server : DivisionServer) (caller : Caller) where
  -- The relay was asked to authorise the contract, and its answer is told; or it was not asked, for
  -- one of two reasons, which is told.
  abbrev pub IsAuthorisedAs : CreateDivisionResult → List RelayCall → Type 0
  IsAuthorisedAs result calls =
      ((calls ≡ [])
        × (result.authorised ≡ false)
        × (((result.voting_contract ≡ none) × (result.assign_error ≡ some not_read_back))
            ⊎ ((is_some result.voting_contract ≡ true)
                × IsNotDeployed server.deployment.nic_registry_entry
                × (result.assign_error ≡ some no_nic_registry))))
      ⊎ ((address : Text) × (registry : Text) × (e : Executed) × (result.voting_contract
            ≡ some address)
          × IsDeployedAt server.deployment.nic_registry_entry registry
          × (asked server.at_authorising caller (authorising_request registry address) ≡ ok e)
          × (calls ≡ record { request = authorising_request registry address; executed = e } ∷ [])
          × IsTold e.outcome result)

  -- A division that exists: its name was free, the registry's transaction was mined, and its
  -- contract is the one that the receipt names.
  pub record IsCreation (name : Text) (existing : List Text) (result : CreateDivisionResult)
      (calls : List RelayCall) : Type 0 where
    pub named : result.name ≡ name
    pub given : is_empty name ≡ false
    pub short : length name ≤ 128
    pub free : has_name (normalise_division_name name) existing ≡ false
    pub registry : Text
    pub registered : IsDeployedAt server.deployment.registry registry
    pub executed : Executed
    pub answer :
        asked server.at_creation caller (create_division_request registry name) ≡ ok executed
    pub hash : Text
    pub block : ℕ
    pub mined : executed.outcome ≡ relayed hash block
    pub receipt : IsReadBack (server.addresses_in hash) result.voting_contract
    pub later : List RelayCall
    pub called :
        calls ≡ record { request = creation_request registry name; executed = executed } ∷ later
    pub authorisation : IsAuthorisedAs result later

  -- Why a creation refuses, and which call of the relay there was: none but one that failed.
  abbrev pub IsRefused : Text → List Text → CreateDivisionError → List RelayCall → Type 0
  IsRefused name existing no_name calls = (is_empty name ≡ true) × (calls ≡ [])
  IsRefused name existing name_too_long calls = (leb (length name) 128 ≡ false) × (calls ≡ [])
  IsRefused name existing name_exists calls =
      (has_name (normalise_division_name name) existing ≡ true) × (calls ≡ [])
  IsRefused name existing no_registry calls =
      IsNotDeployed server.deployment.registry × (calls ≡ [])
  IsRefused name existing (not_created status) calls =
      (registry : Text) × (e : Executed) × IsDeployedAt server.deployment.registry registry
      × (asked server.at_creation caller (creation_request registry name) ≡ ok e)
      × (e.outcome ≡ failure status)
      × (calls ≡ record { request = creation_request registry name; executed = e } ∷ [])

  -- Where the relay throws, at its first call or at its second.
  abbrev pub RelayThrows : Text → List RelayCall → Type 0
  RelayThrows name calls =
      ((registry : Text) × (is_ok (asked server.at_creation caller (creation_request registry name))
          ≡ false)
        × (calls ≡ []))
      ⊎ ((registry : Text) × (address : Text) × (is_ok
              (asked server.at_authorising caller (authorising_request registry address))
            ≡ false))

  -- A result, a refusal and an exception, each with the calls of the relay.
  abbrev pub IsSettled :
      Text → List Text → Outcome CreateDivisionError CreateDivisionResult → List RelayCall → Type 0
  IsSettled name existing (ok result) calls = IsCreation name existing result calls
  IsSettled name existing (err e) calls = IsRefused name existing e calls
  IsSettled name existing thrown calls = RelayThrows name calls
