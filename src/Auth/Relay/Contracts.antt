-- ===== src/Auth/Relay/Contracts.antt =====
-- packages/nextjs/services/auth/relayContracts.ts, buildKnownContracts: the contracts that the relay
-- knows.
use zk_voting.Prelude.{ℕ, Bool, Option, none, some, List, [], ◌∷◌, ◌++◌, if◌then◌else◌}
use zk_voting.Prelude.Text.{Text}
use zk_voting.Auth.Relay.Value.{is_empty}
use zk_voting.Auth.Relay.Policy.{voting, election_registry, nic_registry, AbiEntry, KnownContract}

pub record DivisionSummary : Type 0 where
  pub id : ℕ
  pub name : Text
  pub voting_contract : Text
  pub gn_officers : List Text
  pub active : Bool

-- The entries of deployedContracts.ts for the server's chain.
pub record DeployedEntry : Type 0 where
  pub address : Text
  pub abi : List AbiEntry

pub record Deployment : Type 0 where
  pub registry : Option DeployedEntry
  pub nic_registry_entry : Option DeployedEntry
  pub voting_entry : Option DeployedEntry

abbrev known_entry : (DeployedEntry → KnownContract) → Option DeployedEntry → List KnownContract
known_entry as_known none = []
known_entry as_known (some e) = if is_empty e.address then [] else as_known e ∷ []

abbrev as_registry : DeployedEntry → KnownContract
as_registry e = record { kind = election_registry; address = e.address; abi = e.abi }

abbrev as_nic_registry : DeployedEntry → KnownContract
as_nic_registry e = record { kind = nic_registry; address = e.address; abi = e.abi }

abbrev voting_contracts : List AbiEntry → List DivisionSummary → List KnownContract
voting_contracts abi [] = []
voting_contracts abi (d ∷ divisions) =
    record { kind = voting; address = d.voting_contract; abi = abi }
    ∷ voting_contracts abi divisions

abbrev pub known_divisions :
    Option DeployedEntry → List DivisionSummary → Option (List KnownContract)
known_divisions none [] = some []
known_divisions none (d ∷ divisions) = none
known_divisions (some e) divisions = some (voting_contracts e.abi divisions)

abbrev add_registries : Deployment → Option (List KnownContract) → Option (List KnownContract)
add_registries deployment none = none
add_registries deployment (some divisions) = some (
    known_entry as_registry deployment.registry
    ++ known_entry as_nic_registry deployment.nic_registry_entry
    ++ divisions)

-- `buildKnownContracts(divisions)`; none where it throws
unfoldable pub build_known_contracts :
    Deployment → List DivisionSummary → Option (List KnownContract)
build_known_contracts deployment divisions =
    add_registries deployment (known_divisions deployment.voting_entry divisions)
