-- ===== src/Browser/Tests.antt =====
-- What the browser keeps, and where the login page goes on to.
use zk_voting.Prelude.{ℕ, ◌≡◌, refl, ◌⊎◌, true, none, some, Option, List, [], ◌∷◌, arith}
use zk_voting.Prelude.Json.{Json, null}
use zk_voting.Prelude.Text.{codes, trim, is_space, drop_spaces, starts_with}
use zk_voting.Browser.Navigation.{
  IsLocalPath, safe_next_path, safe_next_path-IsLocalPath, checked_path, looks_absolute,
  ends_scheme, has_control_character,
}
use zk_voting.Browser.ProofStorage.{Storage, Owner, ProofData, save_proof, load_proof}
use zk_voting.Browser.ProofStorage.Apart.{in_election, load_proof-save_proof}

abbrev empty_storage : Storage
empty_storage = record { usable = true; has_room = true; items = [] }

abbrev voter : Owner
voter = record {
  contract_address = some (codes "0xAb");
  user_address = some (codes "0xcD");
  election_id = none;
}

abbrev some_proof : ProofData
some_proof = record { proof = 7 ∷ 255 ∷ []; public_inputs = some null }

abbrev no_conversion : Json → Option (List ℕ)
no_conversion v = none

load_proof-save_proof_example :
    let saved = save_proof 1 some_proof none (in_election (some (codes "1")) voter) empty_storage in
    (load_proof no_conversion (in_election (some (codes "1")) voter) saved ≡ some some_proof)
    × (load_proof no_conversion (in_election (some (codes "2")) voter) saved
        ≡ load_proof no_conversion (in_election (some (codes "2")) voter) empty_storage)
load_proof-save_proof_example =
    load_proof-save_proof no_conversion 1 some_proof none voter (some (codes "1"))
      (some (codes "2")) empty_storage refl refl (omega arith, (omega arith, tt))
      (λ same. ground (arith, same))

same_origin :
    safe_next_path (some (codes " /voting/admin?x=1 ")) (codes "/gn") ≡ codes "/voting/admin?x=1"
unfolding safe_next_path checked_path looks_absolute ends_scheme has_control_character starts_with
    trim drop_spaces is_space
same_origin = refl

other_host : safe_next_path (some (codes "//evil.example")) (codes "/gn") ≡ codes "/gn"
unfolding safe_next_path checked_path looks_absolute ends_scheme has_control_character starts_with
    trim drop_spaces is_space
other_host = refl

safe_next_path-IsLocalPath_example :
    (IsLocalPath (trim (codes "/\\evil.example"))
      × (safe_next_path (some (codes "/\\evil.example")) (codes "/gn")
          ≡ trim (codes "/\\evil.example")))
    ⊎ ((IsLocalPath (trim (codes "/\\evil.example")) → ⊥)
        × (safe_next_path (some (codes "/\\evil.example")) (codes "/gn") ≡ codes "/gn"))
safe_next_path-IsLocalPath_example =
    safe_next_path-IsLocalPath (codes "/\\evil.example") (codes "/gn")
