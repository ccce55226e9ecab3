-- ===== src/DivisionCreation/Created.antt =====
-- The creation of a division comes to what it is to come to.
use zk_voting.Prelude.{
  ◌≤◌, ◌≡◌, refl, inl, inr, false, Option, none, some, Option-cases, List, [], ◌∷◌, arith, length,
  Bool, true, not, Bool-cases, leb,
}
use zk_voting.Prelude.Outcome.{Outcome, ok, err, thrown, ◌>>◌, guard}
use zk_voting.Prelude.Text.{Text, trim}
use zk_voting.Auth.Relay.Value.{is_empty}
use zk_voting.Auth.Relay.Contracts.{DeployedEntry}
use zk_voting.Auth.Relay.Executor.{Caller, Executed, RelayOutcome, relayed, failure}
use zk_voting.DivisionCreation.{
  name_exists, name_too_long, no_name, CreateDivisionResult, CreateDivisionError,
  normalise_division_name, DivisionServer, RelayCall, has_name, check_division_name, entry_address,
  create_division_request, set_voting_contract_request, read_back, authorised_as, after_authorising,
  authorise_created, after_relayed, after_creation, create_checked, create_division_on_chain,
  not_read_back, no_nic_registry, no_registry, not_created, unauthorised,
}
use zk_voting.DivisionCreation.Settled.{
  IsAuthorisedAs, IsCreation, IsDeployedAt, IsNotDeployed, IsReadBack, IsRefused, IsSettled, IsTold,
  asked,
}

-- What the relay answered is what `authorised_as` tells.
authorised_as_lem :
    (name address : Text) (o : RelayOutcome)
    → ((authorised_as name address o).name ≡ name)
      × ((authorised_as name address o).voting_contract ≡ some address)
      × IsTold o (authorised_as name address o)
authorised_as_lem name address (relayed hash block) = (refl, refl, (refl, refl))
authorised_as_lem name address (failure status) = (refl, refl, (refl, refl))

some-injective : {A : Type 0} (a b : A) → ◌≡◌ {A = Option A} (some a) (some b) → a ≡ b
some-injective a b h = cc

entry_address-eq-some :
    (entry : Option DeployedEntry) (address : Text)
    → entry_address entry ≡ some address
    → IsDeployedAt entry address
entry_address-eq-some none address h = absurd (cc)
entry_address-eq-some (some e) address h = elim (Bool-cases (is_empty e.address)) [
  | inl empty ↦ absurd (let bad : ◌≡◌ {A = Option Text} none (some address) = rw empty at h in cc)
  | inr full ↦
      let same : e.address ≡ address = some-injective _ _ (rw full at h) in (same, rw (← same) full)
]

entry_address-eq-none :
    (entry : Option DeployedEntry) → entry_address entry ≡ none → IsNotDeployed entry
entry_address-eq-none none h = tt
entry_address-eq-none (some e) h = ground arith

read_back-IsReadBack : (read : Outcome (Unit {0}) (List Text)) → IsReadBack read (read_back read)
read_back-IsReadBack (ok []) = refl
read_back-IsReadBack (ok (first ∷ rest)) = elim (Bool-cases (is_empty first)) [
  | inl empty ↦ rw empty empty
  | inr full ↦ rw full (refl, full)
]
read_back-IsReadBack (err u) = refl
read_back-IsReadBack thrown = refl

-- What a failed check of a name says of it.
abbrev IsNameError : (empty short taken : Bool) → CreateDivisionError → Type 0
IsNameError empty short taken no_name = empty ≡ true
IsNameError empty short taken name_too_long = short ≡ false
IsNameError empty short taken name_exists = taken ≡ true
IsNameError empty short taken no_registry = ⊥
IsNameError empty short taken (not_created status) = ⊥

guards-IsNameError :
    (empty short taken : Bool) (e : CreateDivisionError)
    → (guard (not empty) no_name >> (guard short name_too_long >> guard (not taken) name_exists))
      ≡ err e
    → IsNameError empty short taken e
guards-IsNameError true short taken no_name h = refl
guards-IsNameError true short taken _ h = absurd (cc)
guards-IsNameError false false taken name_too_long h = refl
guards-IsNameError false false taken _ h = absurd (cc)
guards-IsNameError false true true name_exists h = refl
guards-IsNameError false true true _ h = absurd (cc)
guards-IsNameError false true false e h = absurd (cc)

check_division_name-ne-thrown :
    (name : Text) (existing : List Text) → check_division_name name existing ≡ thrown → ⊥
unfolding check_division_name
check_division_name-ne-thrown name existing h = ground arith

check_division_name-eq-ok :
    (name : Text) (existing : List Text) (u : Unit {0})
    → check_division_name name existing ≡ ok u
    → (is_empty name ≡ false)
      × (length name ≤ 128)
      × (has_name (normalise_division_name name) existing ≡ false)
unfolding check_division_name
check_division_name-eq-ok name existing u h = ground arith

check_division_name-IsNameError :
    (name : Text) (existing : List Text) (e : CreateDivisionError)
    → check_division_name name existing ≡ err e
    → IsNameError
        (is_empty name)
        (leb (length name) 128)
        (has_name (normalise_division_name name) existing)
        e
unfolding check_division_name
check_division_name-IsNameError name existing e h = guards-IsNameError _ _ _ e h

module _ (server : DivisionServer) (caller : Caller) (name : Text) (existing : List Text) where
  -- What is known once the first transaction is mined: whatever the rest comes to, it is a creation.
  abbrev IsMade : RelayCall → Option Text → Type 0
  IsMade first address =
      (result : CreateDivisionResult) (later : List RelayCall)
      → result.name ≡ name
      → result.voting_contract ≡ address
      → IsAuthorisedAs server caller result later
      → IsCreation server caller name existing result (first ∷ later)

  after_authorising-IsSettled :
      (address registry : Text) (first : RelayCall) (answer : Outcome (Unit {0}) Executed)
      → entry_address server.deployment.nic_registry_entry ≡ some registry
      → asked server.at_authorising caller (set_voting_contract_request registry address) ≡ answer
      → IsMade first (some address)
      → let o =
          after_authorising name address first
            (set_voting_contract_request registry address)
            answer in
        IsSettled server caller name existing o.outcome o.calls
  after_authorising-IsSettled address registry first (ok e) deployed h made =
      let (named, read, told) = authorised_as_lem name address e.outcome in
      made (authorised_as name address e.outcome) _ named read (
        inr (
          address,
          registry,
          e,
          read,
          entry_address-eq-some server.deployment.nic_registry_entry registry deployed,
          h,
          refl,
          told,
        ))
  after_authorising-IsSettled address registry first (err u) deployed h made =
      inr (registry, address, rw h refl)
  after_authorising-IsSettled address registry first thrown deployed h made =
      inr (registry, address, rw h refl)

  authorise_created-IsSettled :
      (first : RelayCall) (address : Option Text)
      → IsMade first address
      → let o = authorise_created server caller name first address in
        IsSettled server caller name existing o.outcome o.calls
  authorise_created-IsSettled first none made =
      made (unauthorised name none not_read_back) [] refl refl (inl (refl, refl, inl (refl, refl)))
  authorise_created-IsSettled first (some address) made =
      elim (Option-cases (entry_address server.deployment.nic_registry_entry)) [
        | inl e ↦ rw e (
            made (unauthorised name (some address) no_nic_registry) [] refl refl (
              inl (
                refl,
                refl,
                inr (refl, entry_address-eq-none server.deployment.nic_registry_entry e, refl),
              )))
        | inr (registry, e) ↦
            rw e (after_authorising-IsSettled address registry first _ e refl made)
      ]

  after_relayed-IsSettled :
      (registry : Text) (e : Executed) (outcome : RelayOutcome)
      → is_empty name ≡ false
      → length name ≤ 128
      → has_name (normalise_division_name name) existing ≡ false
      → entry_address server.deployment.registry ≡ some registry
      → asked server.at_creation caller (create_division_request registry name) ≡ ok e
      → e.outcome ≡ outcome
      → let first : RelayCall = record {
        request = create_division_request registry name;
        executed = e;
      } in
        let o = after_relayed server caller name first outcome in
        IsSettled server caller name existing o.outcome o.calls
  after_relayed-IsSettled registry e (relayed hash block) given short free deployed h mined =
      authorise_created-IsSettled
        (record { request = create_division_request registry name; executed = e })
        (read_back (server.addresses_in hash))
        (λ result later named read told. record {
          named = named;
          given = given;
          short = short;
          free = free;
          registry = registry;
          registered = entry_address-eq-some server.deployment.registry registry deployed;
          executed = e;
          answer = h;
          hash = hash;
          block = block;
          mined = mined;
          receipt = rw read (read_back-IsReadBack (server.addresses_in hash));
          later = later;
          called = refl;
          authorisation = told;
        })
  after_relayed-IsSettled registry e (failure status) given short free deployed h refused = (
    registry,
    e,
    entry_address-eq-some server.deployment.registry registry deployed,
    h,
    refused,
    refl,
  )

  after_creation-IsSettled :
      (registry : Text) (answer : Outcome (Unit {0}) Executed)
      → is_empty name ≡ false
      → length name ≤ 128
      → has_name (normalise_division_name name) existing ≡ false
      → entry_address server.deployment.registry ≡ some registry
      → asked server.at_creation caller (create_division_request registry name) ≡ answer
      → let o = after_creation server caller name (create_division_request registry name) answer in
        IsSettled server caller name existing o.outcome o.calls
  after_creation-IsSettled registry (ok e) given short free deployed h =
      after_relayed-IsSettled registry e e.outcome given short free deployed h refl
  after_creation-IsSettled registry (err u) given short free deployed h =
      inl (registry, rw h refl, refl)
  after_creation-IsSettled registry thrown given short free deployed h =
      inl (registry, rw h refl, refl)

  IsRefused-name :
      (e : CreateDivisionError)
      → IsNameError
          (is_empty name)
          (leb (length name) 128)
          (has_name (normalise_division_name name) existing)
          e
      → IsRefused server caller name existing e []
  IsRefused-name no_name h = (h, refl)
  IsRefused-name name_too_long h = (h, refl)
  IsRefused-name name_exists h = (h, refl)
  IsRefused-name no_registry h = absurd h
  IsRefused-name (not_created status) h = absurd h

  create_checked-IsSettled :
      (verdict : Outcome CreateDivisionError (Unit {0}))
      → check_division_name name existing ≡ verdict
      → let o = create_checked server caller name verdict in
        IsSettled server caller name existing o.outcome o.calls
  create_checked-IsSettled (ok u) h =
      let (given, short, free) = check_division_name-eq-ok name existing u h in
      elim (Option-cases (entry_address server.deployment.registry)) [
        | inl e ↦ rw e (entry_address-eq-none server.deployment.registry e, refl)
        | inr (registry, e) ↦ rw e (after_creation-IsSettled registry _ given short free e refl)
      ]
  create_checked-IsSettled (err e) h =
      IsRefused-name e (check_division_name-IsNameError name existing e h)
  create_checked-IsSettled thrown h = absurd (check_division_name-ne-thrown name existing h)

-- Where the creation of a division returns, the trimmed name was given, short enough and free, the
-- relay's createDivision of it on the registry was mined, and the contract that is told is the first
-- that the receipt names, if it names one. The relay was then asked for setVotingContract with that
-- contract and `true` on the NIC registry, and its answer is told; or there was no contract or no
-- NIC registry, which is told. Where the creation refuses, it is for what is wrong with the name,
-- for want of the registry, or since the one call failed; and it throws anything else only where
-- the relay does.
pub create_division_on_chain-IsSettled :
    (server : DivisionServer) (caller : Caller) (raw_name : Text) (existing : List Text)
    → let o = create_division_on_chain server caller raw_name existing in
      IsSettled server caller (trim raw_name) existing o.outcome o.calls
unfolding create_division_on_chain
create_division_on_chain-IsSettled server caller raw_name existing =
    create_checked-IsSettled server caller (trim raw_name) existing _ refl
