-- ===== src/Browser/ProofStorage/Commitments.antt =====
-- packages/nextjs/utils/proofStorage.ts: the commitments, and the burner wallets.
use zk_voting.Prelude.{ℕ, Bool, ◌||◌, Option, none, some, if◌then◌else◌}
use zk_voting.Prelude.Int.{pos}
use zk_voting.Prelude.Json.{
  members_of, Json, number, string, object, JsonMembers, no_members, member, find_member, member?,
  json_text,
}
use zk_voting.Prelude.Text.{Text, codes, text_eq}
use zk_voting.Browser.ProofStorage.{
  Storage, Owner, CommitmentData, BurnerWallet, get_commitment_storage_key,
  get_burner_wallet_storage_key, save_item, load_item, clear_item, has_item, as_metadata,
}

-- the value that `saveCommitmentToLocalStorage` writes
abbrev pub serializable_commitment : ℕ → CommitmentData → Owner → Json
serializable_commitment now d o = object (
    member (codes "commitment") (string d.commitment) (
      member (codes "nullifier") (string d.nullifier) (
        member (codes "secret") (string d.secret) (
          member (codes "index") (number (pos d.index)) (
            member (codes "timestamp") (number (pos now)) (
              member? (codes "contractAddress") (json_text o.contract_address)
                (member? (codes "userAddress") (json_text o.user_address) no_members)))))))

abbrev pub is_metadata : Text → Bool
is_metadata k =
    text_eq k (codes "timestamp")
    || text_eq k (codes "contractAddress")
    || text_eq k (codes "userAddress")

-- `{ timestamp, contractAddress: _, userAddress: __, ...commitmentData }`
unfoldable pub without_metadata : JsonMembers → JsonMembers
unfolding text_eq
without_metadata no_members = no_members
without_metadata (member k v ms) =
    let rest = without_metadata ms in if is_metadata k then rest else member k v rest

-- `saveCommitmentToLocalStorage`
unfoldable pub save_commitment : ℕ → CommitmentData → Owner → Storage → Storage
unfolding save_item get_commitment_storage_key
save_commitment now d o s =
    save_item (get_commitment_storage_key o) (serializable_commitment now d o) s

abbrev pub commitment_from : Json → Option JsonMembers
commitment_from v = elim (members_of v) [ none ↦ none | some ms ↦ some (without_metadata ms) ]

-- `loadCommitmentFromLocalStorage`, the members of the object that it gives
unfoldable pub load_commitment : Owner → Storage → Option JsonMembers
unfolding load_item get_commitment_storage_key without_metadata
load_commitment o s = load_item commitment_from (get_commitment_storage_key o) s

-- `getStoredCommitmentMetadata`
unfoldable pub get_stored_commitment_metadata : Owner → Storage → Option Json
unfolding load_item get_commitment_storage_key
get_stored_commitment_metadata o s = load_item as_metadata (get_commitment_storage_key o) s

-- `clearCommitmentFromLocalStorage`
unfoldable pub clear_commitment : Owner → Storage → Storage
unfolding clear_item get_commitment_storage_key
clear_commitment o s = clear_item (get_commitment_storage_key o) s

-- `hasStoredCommitment`
unfoldable pub has_stored_commitment : Owner → Storage → Bool
unfolding has_item get_commitment_storage_key
has_stored_commitment o s = has_item (get_commitment_storage_key o) s

-- `saveBurnerWalletToLocalStorage(privateKey, address, contractAddress, userAddress)`
unfoldable pub save_burner_wallet : ℕ → Text → Text → Option Text → Option Text → Storage → Storage
unfolding save_item get_burner_wallet_storage_key
save_burner_wallet now private_key address contract user s =
    save_item (get_burner_wallet_storage_key contract user)
      (object (
        member (codes "privateKey") (string private_key) (
          member (codes "address") (string address) (
            member (codes "timestamp") (number (pos now)) (
              member? (codes "contractAddress") (json_text contract)
                (member? (codes "userAddress") (json_text user) no_members))))))
      s

abbrev pub wallet_from : Json → Option BurnerWallet
wallet_from v = elim (members_of v) [
  | none ↦ none
  | some ms ↦ some (record {
    private_key = find_member (codes "privateKey") ms;
    address = find_member (codes "address") ms;
  })
]

-- `loadBurnerWalletFromLocalStorage`
unfoldable pub load_burner_wallet : Option Text → Option Text → Storage → Option BurnerWallet
unfolding load_item get_burner_wallet_storage_key text_eq
load_burner_wallet contract user s =
    load_item wallet_from (get_burner_wallet_storage_key contract user) s

-- `getStoredBurnerWalletMetadata`
unfoldable pub get_stored_burner_wallet_metadata : Option Text → Option Text → Storage → Option Json
unfolding load_item get_burner_wallet_storage_key
get_stored_burner_wallet_metadata contract user s =
    load_item as_metadata (get_burner_wallet_storage_key contract user) s

-- `clearBurnerWalletFromLocalStorage`
unfoldable pub clear_burner_wallet : Option Text → Option Text → Storage → Storage
unfolding clear_item get_burner_wallet_storage_key
clear_burner_wallet contract user s = clear_item (get_burner_wallet_storage_key contract user) s

-- `hasStoredBurnerWallet`
unfoldable pub has_stored_burner_wallet : Option Text → Option Text → Storage → Bool
unfolding has_item get_burner_wallet_storage_key
has_stored_burner_wallet contract user s = has_item (get_burner_wallet_storage_key contract user) s
