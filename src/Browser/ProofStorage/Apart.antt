-- ===== src/Browser/ProofStorage/Apart.antt =====
-- What is kept for one election, or of one kind, is not touched by what is kept for another.
use zk_voting.Prelude.{
  ℕ, ◌%◌, ◌<◌, ◌≡◌, ◌≢◌, refl, sym, inl, inr, Bool, true, false, Option, none, some, List, [], ◌∷◌,
  ◌++◌, arith, All, Bool-cases, if◌then◌else◌,
}
use zk_voting.Prelude.Json.{
  Json, number, json_numbers, json_number, json_text, no_members, member, member?, find_member,
}
use zk_voting.Prelude.Int.{pos}
use zk_voting.Prelude.Map
use zk_voting.Prelude.Map.{get-set}
use zk_voting.Prelude.Text.{Text, codes, text_eq, text_eq_refl, text_eq_sound}
use zk_voting.Browser.ProofStorage.{
  Storage, Owner, ProofData, with_election, get_storage_key, save_item, load_item, save_proof,
  load_proof, bytes_of, Item, json, from_item, serialize_proof_data, deserialize_proof_data,
}

append-injective : (s t u : Text) → s ++ t ≡ s ++ u → t ≡ u
append-injective [] t u h = h
append-injective (c ∷ s) t u h = append-injective s t u (cc)

append-ne_self : (s : Text) (c : ℕ) (t : Text) → s ++ c ∷ t ≡ s → ⊥
append-ne_self [] c t h = cc
append-ne_self (d ∷ s) c t h = append-ne_self s c t (cc)

with_election-injective :
    (key : Text) (e f : Option Text) → with_election key e ≡ with_election key f → e ≡ f
with_election-injective key none none h = refl
with_election-injective key (some e) none h = absurd (append-ne_self key b'-' (b'e' ∷ e) h)
with_election-injective key none (some f) h = absurd (append-ne_self key b'-' (b'e' ∷ f) (sym h))
with_election-injective key (some e) (some f) h =
    let same : b'-' ∷ b'e' ∷ e ≡ b'-' ∷ b'e' ∷ f = append-injective key _ _ h in cc

-- The owner with another election.
abbrev pub in_election : Option Text → Owner → Owner
in_election e o = record o { election_id = e }

text_eq-of_ne : (s t : Text) → s ≢ t → text_eq s t ≡ false
text_eq-of_ne s t h = elim (Bool-cases (text_eq s t)) [
  | inl e ↦ absurd (h (text_eq_sound s t e))
  | inr e ↦ e
]

storage_keys_differ :
    (o : Owner) (e f : Option Text)
    → e ≢ f
    → text_eq (get_storage_key (in_election e o)) (get_storage_key (in_election f o)) ≡ false
unfolding get_storage_key
storage_keys_differ o e f h = text_eq-of_ne _ _ (λ same. h (with_election-injective _ e f same))

if_from_item :
    {A : Type 0} (convert : Json → Option A) (b : Bool) (v : Json) (i : Option Item)
    → from_item convert (if b then some (json v) else i)
      ≡ (if b then convert v else from_item convert i)
if_from_item convert true v i = refl
if_from_item convert false v i = refl

-- Reading an item after one was written under a key.
load-save_item :
    {A : Type 0} (convert : Json → Option A) (k j : Text) (v : Json) (s : Storage)
    → s.usable ≡ true
    → s.has_room ≡ true
    → load_item convert j (save_item k v s)
      ≡ (if text_eq k j then convert v else load_item convert j s)
unfolding load_item save_item
load-save_item convert k j v s usable room =
    rw (usable, room, get-set k j _ s.items)
      (if_from_item convert (text_eq k j) v (Map.get j s.items))

abbrev pub IsByte : ℕ → Type 0
IsByte n = n < 256

byte_of-pos : (b : ℕ) → IsByte b → b % 256 ≡ b
byte_of-pos b h = omega arith

bytes-json_numbers : (bs : List ℕ) → All IsByte bs → bytes_of (json_numbers bs) ≡ some bs
bytes-json_numbers [] h = refl
bytes-json_numbers (b ∷ bs) (hb, hbs) = rw (bytes-json_numbers bs hbs) (rw (byte_of-pos b hb) refl)

no_vote_choice :
    (vote_choice : Option ℕ)
    → find_member
        (codes "publicInputs")
        (member? (codes "voteChoice") (json_number vote_choice) no_members)
      ≡ none
unfolding text_eq
no_vote_choice none = refl
no_vote_choice (some n) = refl

inputs_of_serialized :
    (now : ℕ) (inputs : Option Json) (contract : Option Text) (vote_choice : Option ℕ)
    → find_member (codes "publicInputs") (
        member? (codes "publicInputs") inputs (
          member (codes "timestamp") (number (pos now)) (
            member?
              (codes "contractAddress")
              (json_text contract)
              (member? (codes "voteChoice") (json_number vote_choice) no_members))))
      ≡ inputs
unfolding text_eq
inputs_of_serialized now (some v) contract vote_choice = refl
inputs_of_serialized now none none vote_choice = no_vote_choice vote_choice
inputs_of_serialized now none (some c) vote_choice = no_vote_choice vote_choice

deserialize-serialize :
    (convert : Json → Option (List ℕ)) (now : ℕ) (p : ProofData) (contract : Option Text)
    (vote_choice : Option ℕ)
    → All IsByte p.proof
    → deserialize_proof_data convert (serialize_proof_data now p contract vote_choice) ≡ some p
unfolding text_eq
deserialize-serialize convert now p contract vote_choice bytes =
    rw
      (
        bytes-json_numbers p.proof bytes,
        inputs_of_serialized now p.public_inputs contract vote_choice,
      )
      refl

-- In a usable storage with room, a proof saved for a contract, a user and an election is the one
-- loaded for them, and what is loaded for another election of the same contract and user stays.
pub load_proof-save_proof :
    (convert : Json → Option (List ℕ)) (now : ℕ) (p : ProofData) (vote_choice : Option ℕ)
    (o : Owner) (e f : Option Text) (s : Storage)
    → s.usable ≡ true
    → s.has_room ≡ true
    → All IsByte p.proof
    → e ≢ f
    → let saved = save_proof now p vote_choice (in_election e o) s in
      (load_proof convert (in_election e o) saved ≡ some p)
      × (load_proof convert (in_election f o) saved ≡ load_proof convert (in_election f o) s)
unfolding save_proof load_proof
load_proof-save_proof convert now p vote_choice o e f s usable room bytes differ =
    let here = get_storage_key (in_election e o) in
    let there = get_storage_key (in_election f o) in
    let written = serialize_proof_data now p o.contract_address vote_choice in
    let load = deserialize_proof_data convert in
    (
      rw (load-save_item load here here written s usable room, text_eq_refl here)
          (deserialize-serialize convert now p o.contract_address vote_choice bytes),
      rw (load-save_item load here there written s usable room, storage_keys_differ o e f differ)
          refl,
    )
