-- ===== src/Browser/ProofStorage.antt =====
-- packages/nextjs/utils/proofStorage.ts: what the browser keeps of a voter in localStorage. An item
-- is kept as what JSON.parse makes of its text; a value on which JSON.stringify throws, as on a
-- bigint among the public inputs, is not covered, and the console is left out.
pub mod Commitments
pub mod Transactions
pub mod Apart
pub mod Kinds
use zk_voting.Prelude.{
  ℕ, ◌%◌, ◌-◌, Bool, true, false, not, ◌&&◌, Option, none, some, List, [], ◌∷◌, ◌++◌, if◌then◌else◌,
}
use zk_voting.Prelude.Int.{ℤ, pos, negsuc}
use zk_voting.Prelude.Json.{
  members_of, Json, null, fraction, bool, number, string, array, object, JsonItems, no_items, item,
  JsonMembers, no_members, member, find_member, member?, json_text, json_number, json_numbers,
}
use zk_voting.Prelude.Map
use zk_voting.Prelude.Map.{Entries}
use zk_voting.Prelude.Text.{Text, codes, to_lower_case}

-- The text of an item: empty, no JSON, or JSON.
pub data Item : Type 0 where
  blank broken : Item
  json : Json → Item

-- localStorage: reading and removing throw where it cannot be used, and writing throws too where
-- there is no room.
pub record Storage : Type 0 where
  pub usable : Bool
  pub has_room : Bool
  pub items : Entries Item

-- Whose data it is: the contract, the user and the election, each of which may be left out. The
-- election is the text that its `toString()` gives.
pub record Owner : Type 0 where
  pub contract_address : Option Text
  pub user_address : Option Text
  pub election_id : Option Text

-- `address.toLowerCase()` of an address that is truthy
abbrev pub present : Option Text → Option Text
present none = none
present (some []) = none
present (some (c ∷ s)) = some (to_lower_case (c ∷ s))

abbrev pub dash : Text → Text
dash s = b'-' ∷ s

-- the key of a contract and a user; `|| "default"` has no case left, as the user is truthy there
abbrev pub key_parts : Option Text → Option Text → Text
key_parts none none = dash (codes "default")
key_parts none (some user) = dash user
key_parts (some contract) none = dash contract
key_parts (some contract) (some user) = dash contract ++ dash user

-- `withElection(key, electionId)`
abbrev pub with_election : Text → Option Text → Text
with_election key none = key
with_election key (some e) = key ++ b'-' ∷ b'e' ∷ e

abbrev pub proof_storage_key_prefix : Text
proof_storage_key_prefix = codes "zk-voting-proof-data"

abbrev pub commitment_storage_key_prefix : Text
commitment_storage_key_prefix = codes "zk-voting-commitment-data"

abbrev pub burner_wallet_storage_key_prefix : Text
burner_wallet_storage_key_prefix = codes "zk-voting-burner-wallet"

abbrev pub transaction_result_storage_key_prefix : Text
transaction_result_storage_key_prefix = codes "zk-voting-transaction-result"

-- `getStorageKey(contractAddress, userAddress, electionId)`
unfoldable pub get_storage_key : Owner → Text
get_storage_key o =
    with_election
      (proof_storage_key_prefix ++ key_parts (present o.contract_address) (present o.user_address))
      o.election_id

-- `getCommitmentStorageKey(contractAddress, userAddress, electionId)`
unfoldable pub get_commitment_storage_key : Owner → Text
get_commitment_storage_key o =
    with_election
      (commitment_storage_key_prefix
        ++ key_parts (present o.contract_address) (present o.user_address))
      o.election_id

-- `getBurnerWalletStorageKey(contractAddress, userAddress)`
unfoldable pub get_burner_wallet_storage_key : Option Text → Option Text → Text
get_burner_wallet_storage_key contract user =
    burner_wallet_storage_key_prefix ++ key_parts (present contract) (present user)

-- `getTransactionResultStorageKey(contractAddress, userAddress)`
unfoldable pub get_transaction_result_storage_key : Option Text → Option Text → Text
get_transaction_result_storage_key contract user =
    transaction_result_storage_key_prefix ++ key_parts (present contract) (present user)

-- `localStorage.setItem(key, JSON.stringify(value))` in its `try`
unfoldable pub save_item : Text → Json → Storage → Storage
save_item key value s =
    if s.usable && s.has_room then record s { items = Map.set key (json value) s.items } else s

-- what is made of an item: nothing of one that is missing or empty, or where an exception is
-- caught, which is one of JSON.parse or of `convert`
abbrev pub from_item : {A : Type 0} → (Json → Option A) → Option Item → Option A
from_item convert none = none
from_item convert (some blank) = none
from_item convert (some broken) = none
from_item convert (some (json value)) = convert value

unfoldable pub load_item : {A : Type 0} → (Json → Option A) → Text → Storage → Option A
load_item convert key s = if s.usable then from_item convert (Map.get key s.items) else none

-- `localStorage.removeItem(key)` in its `try`
unfoldable pub clear_item : Text → Storage → Storage
clear_item key s = if s.usable then record s { items = Map.delete key s.items } else s

abbrev pub is_there : Option Item → Bool
is_there none = false
is_there (some i) = true

-- `localStorage.getItem(key) !== null`, or false where it throws
unfoldable pub has_item : Text → Storage → Bool
has_item key s = s.usable && is_there (Map.get key s.items)

-- a parsed value that is returned as it is; `null` is the result of finding nothing too
abbrev pub as_metadata : Json → Option Json
as_metadata null = none
as_metadata v = some v

pub record ProofData : Type 0 where
  pub proof : List ℕ
  pub public_inputs : Option Json

pub record CommitmentData : Type 0 where
  pub commitment : Text
  pub nullifier : Text
  pub secret : Text
  pub index : ℕ

pub record BurnerWallet : Type 0 where
  pub private_key : Option Json
  pub address : Option Json

-- The proof
-- `serializeProofData(proofData, contractAddress, voteChoice)`
abbrev pub serialize_proof_data : ℕ → ProofData → Option Text → Option ℕ → Json
serialize_proof_data now p contract vote_choice = object (
    member (codes "proof") (array (json_numbers p.proof)) (
      member? (codes "publicInputs") p.public_inputs (
        member (codes "timestamp") (number (pos now)) (
          member? (codes "contractAddress") (json_text contract)
            (member? (codes "voteChoice") (json_number vote_choice) no_members)))))

-- An item of a Uint8Array is taken modulo 256.
abbrev pub byte_of : ℤ → ℕ
byte_of (pos n) = n % 256
byte_of (negsuc n) = 255 - n % 256

abbrev pub bytes_of : JsonItems → Option (List ℕ)
bytes_of no_items = some []
bytes_of (item (number z) is) = elim (bytes_of is) [ none ↦ none | some bs ↦ some (byte_of z ∷ bs) ]
bytes_of _ = none

-- `new Uint8Array(v)`: of an array of integers, and of no value; `convert` is what the runtime
-- makes of any other, where it may throw
abbrev pub or_convert : (Json → Option (List ℕ)) → Json → Option (List ℕ) → Option (List ℕ)
or_convert convert v none = convert v
or_convert convert v (some bs) = some bs

abbrev pub uint8_array : (Json → Option (List ℕ)) → Option Json → Option (List ℕ)
uint8_array convert none = some []
uint8_array convert (some (array is)) = or_convert convert (array is) (bytes_of is)
uint8_array convert (some v) = convert v

abbrev pub proof_of : Option (List ℕ) → Option Json → Option ProofData
proof_of none inputs = none
proof_of (some bytes) inputs = some (record { proof = bytes; public_inputs = inputs })

abbrev pub proof_from : (Json → Option (List ℕ)) → JsonMembers → Option ProofData
proof_from convert ms =
    proof_of (uint8_array convert (find_member (codes "proof") ms))
      (find_member (codes "publicInputs") ms)

-- `deserializeProofData(serializedData)`; none where it throws
abbrev pub deserialize_proof_data : (Json → Option (List ℕ)) → Json → Option ProofData
deserialize_proof_data convert v = elim (members_of v) [
  | none ↦ none
  | some ms ↦ proof_from convert ms
]

-- `saveProofToLocalStorage`
unfoldable pub save_proof : ℕ → ProofData → Option ℕ → Owner → Storage → Storage
unfolding save_item get_storage_key
save_proof now p vote_choice o s =
    save_item (get_storage_key o) (serialize_proof_data now p o.contract_address vote_choice) s

-- `loadProofFromLocalStorage`
unfoldable pub load_proof : (Json → Option (List ℕ)) → Owner → Storage → Option ProofData
unfolding load_item get_storage_key
load_proof convert o s = load_item (deserialize_proof_data convert) (get_storage_key o) s

-- `getStoredProofMetadata`
unfoldable pub get_stored_proof_metadata : Owner → Storage → Option Json
unfolding load_item get_storage_key
get_stored_proof_metadata o s = load_item as_metadata (get_storage_key o) s

-- `clearProofFromLocalStorage`
unfoldable pub clear_proof : Owner → Storage → Storage
unfolding clear_item get_storage_key
clear_proof o s = clear_item (get_storage_key o) s

-- `hasStoredProof`
unfoldable pub has_stored_proof : Owner → Storage → Bool
unfolding has_item get_storage_key
has_stored_proof o s = has_item (get_storage_key o) s
