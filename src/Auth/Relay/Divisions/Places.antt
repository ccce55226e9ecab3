-- ===== src/Auth/Relay/Divisions/Places.antt =====
-- The id of a division is its place in the registry.
use zk_voting.Prelude.{
  ℕ, zero, suc, ◌+◌, ◌≡◌, refl, sym, Bool, true, false, Option, none, some, List, [], ◌∷◌, arith,
  ◌==◌, ◌⊎◌, ◌≢◌, find, get_elem?, Bool-cases, inl, inr,
}
use mathlib.Core.Path.{subst}
use zk_voting.Prelude.Outcome.{ok, err}
use zk_voting.Prelude.Text.{Text, text_eq, text_eq_sound, text_eq_refl}
use zk_voting.Auth.Relay.Contracts.{DivisionSummary, DeployedEntry}
use zk_voting.Auth.Relay.Executor.{is_id}
use zk_voting.Auth.Relay.Value.{is_empty}
use zk_voting.Auth.Relay.Divisions.{
  ChainClient, ChainDivision, zero_address, or_registry_copy, registry_not_deployed, summary,
  summaries, read_divisions_from_chain,
}

abbrev pub has_id : ℕ → DivisionSummary → Bool
has_id id d = d.id == id

abbrev pub summary? : ChainClient → ℕ → Option ChainDivision → Option DivisionSummary
summary? client id none = none
summary? client id (some division) = some (summary client division id)

find_from :
    (client : ChainClient) (divisions : List ChainDivision) (base i : ℕ)
    → find (has_id (base + i)) (summaries client base divisions)
      ≡ summary? client (base + i) (get_elem? divisions i)
unfolding summaries
find_from client [] base i = refl
find_from client (d ∷ divisions) base zero =
    let same : base + 0 ≡ base = omega arith in
    let found : (base == base) ≡ true = ground arith in rw (same, found) refl
find_from client (d ∷ divisions) base (suc i) =
    let later : (base == base + suc i) ≡ false = ground arith in
    let same : base + suc i ≡ suc base + i = omega arith in
    rw later (
      subst
        (λ n.
          find (has_id n) (summaries client (suc base) divisions)
          ≡ summary? client n (get_elem? divisions i))
        (sym same) (find_from client divisions (suc base) i))

-- The officers of a division: those that its voting contract names, and where that cannot be read the
-- one that the registry has, unless it has the zero address.
abbrev pub HasOfficers : ChainDivision → Option (List Text) → List Text → Type 0
HasOfficers division (some named) officers = officers ≡ named
HasOfficers division none officers =
    ((division.gn_officer ≡ zero_address) × (officers ≡ []))
    ⊎ ((division.gn_officer ≢ zero_address) × (officers ≡ division.gn_officer ∷ []))

-- A summary of a division of the registry, which stands at a place.
pub record IsSummary (client : ChainClient) (id : ℕ) (division : ChainDivision)
    (d : DivisionSummary) : Type 0 where
  pub placed : d.id ≡ id
  pub named : d.name ≡ division.name
  pub contract : d.voting_contract ≡ division.voting_contract
  pub active : d.active ≡ division.active
  pub officers :
      HasOfficers division (client.get_gn_officers division.voting_contract) d.gn_officers

-- What is found for a place: a summary of the division there, or nothing where there is none.
abbrev pub IsPlaced : ChainClient → ℕ → Option ChainDivision → Option DivisionSummary → Type 0
IsPlaced client id none found = found ≡ none
IsPlaced client id (some division) found =
    (d : DivisionSummary) × (found ≡ some d) × IsSummary client id division d

or_registry_copy-HasOfficers :
    (division : ChainDivision) (read : Option (List Text))
    → HasOfficers division read (or_registry_copy division read)
or_registry_copy-HasOfficers division (some named) = refl
or_registry_copy-HasOfficers division none =
    elim (Bool-cases (text_eq division.gn_officer zero_address)) [
      | inl same ↦ rw same (inl (text_eq_sound division.gn_officer zero_address same, refl))
      | inr other ↦ rw other (
          inr (
            (λ same.
                let bad : text_eq zero_address zero_address ≡ false = rw same at other in
                absurd (let good = text_eq_refl zero_address in cc)),
            refl,
          ))
    ]

summary?-IsPlaced :
    (client : ChainClient) (id : ℕ) (entry : Option ChainDivision)
    → IsPlaced client id entry (summary? client id entry)
summary?-IsPlaced client id none = refl
summary?-IsPlaced client id (some division) = (
  summary client division id,
  refl,
  record {
    placed = refl;
    named = refl;
    contract = refl;
    active = refl;
    officers =
        or_registry_copy-HasOfficers division (client.get_gn_officers division.voting_contract);
  },
)

found_at_place :
    (registry : DeployedEntry) (client : ChainClient) (chain : List ChainDivision)
    (divisions : List DivisionSummary) (id : ℕ)
    → client.get_all_divisions registry.address ≡ some chain
    → read_divisions_from_chain (some registry) client ≡ ok divisions
    → find (λ (d : DivisionSummary). is_id (some id) d.id) divisions
      ≡ summary? client id (get_elem? chain id)
unfolding read_divisions_from_chain
found_at_place registry client chain divisions id reads h =
    elim (Bool-cases (is_empty registry.address)) [
      | inl e ↦ absurd (let bad : err registry_not_deployed ≡ ok divisions = rw e at h in cc)
      | inr e ↦
          let got : ok (summaries client 0 chain) ≡ ok divisions = rw (e, reads) at h in
          let same : summaries client 0 chain ≡ divisions = cc in
          let shift : 0 + id ≡ id = omega arith in
          rw (← same) (
            subst
              (λ n.
                find (has_id n) (summaries client 0 chain) ≡ summary? client n (get_elem? chain id))
              shift (find_from client chain 0 id))
    ]

-- After a read of the chain that succeeds, the division that the relay finds for a session's
-- divisionId is the one at that place of the registry, with its name, contract and state, and the
-- officers that its voting contract names, or the registry's copy where that contract cannot be
-- read; and there is none past the end.
pub find-read_divisions_from_chain :
    (registry : DeployedEntry) (client : ChainClient) (chain : List ChainDivision)
    (divisions : List DivisionSummary) (id : ℕ)
    → client.get_all_divisions registry.address ≡ some chain
    → read_divisions_from_chain (some registry) client ≡ ok divisions
    → IsPlaced client id
        (get_elem? chain id)
        (find (λ (d : DivisionSummary). is_id (some id) d.id) divisions)
find-read_divisions_from_chain registry client chain divisions id reads h =
    subst (IsPlaced client id (get_elem? chain id))
      (sym (found_at_place registry client chain divisions id reads h))
      (summary?-IsPlaced client id (get_elem? chain id))
