-- ===== src/Browser/ProofStorage/Kinds.antt =====
-- The four kinds of data have different keys, whoever owns them.
use zk_voting.Prelude.{ℕ, ◌≡◌, refl, inl, inr, false, ◌&&◌, Option, none, some, ◌++◌, Bool-cases}
use zk_voting.Prelude.Json.{Json}
use zk_voting.Prelude.Map.{get-set}
use zk_voting.Prelude.Text.{Text, text_eq}
use zk_voting.Browser.ProofStorage.{
  Storage, Owner, ProofData, get_storage_key, get_commitment_storage_key,
  get_burner_wallet_storage_key, get_transaction_result_storage_key, save_item, load_item,
  save_proof, with_election, proof_storage_key_prefix, commitment_storage_key_prefix,
  burner_wallet_storage_key_prefix, transaction_result_storage_key_prefix,
}
use zk_voting.Browser.ProofStorage.Commitments.{load_commitment, load_burner_wallet}
use zk_voting.Browser.ProofStorage.Transactions.{load_transaction_result}

load_elsewhere :
    {A : Type 0} (convert : Json → Option A) (k j : Text) (v : Json) (s : Storage)
    → text_eq k j ≡ false
    → load_item convert j (save_item k v s) ≡ load_item convert j s
unfolding load_item save_item
load_elsewhere convert k j v s differ = elim (Bool-cases (s.usable && s.has_room)) [
  | inr e ↦ rw e refl
  | inl e ↦ rw (e, get-set k j _ s.items, differ) refl
]

elections_differ :
    (e f : Option Text) (k l : Text)
    → text_eq
        (with_election (proof_storage_key_prefix ++ k) e)
        (with_election (commitment_storage_key_prefix ++ l) f)
      ≡ false
unfolding text_eq
elections_differ none none k l = refl
elections_differ none (some f) k l = refl
elections_differ (some e) none k l = refl
elections_differ (some e) (some f) k l = refl

wallet_differs :
    (e : Option Text) (k l : Text)
    → text_eq
        (with_election (proof_storage_key_prefix ++ k) e)
        (burner_wallet_storage_key_prefix ++ l)
      ≡ false
unfolding text_eq
wallet_differs none k l = refl
wallet_differs (some e) k l = refl

transaction_differs :
    (e : Option Text) (k l : Text)
    → text_eq
        (with_election (proof_storage_key_prefix ++ k) e)
        (transaction_result_storage_key_prefix ++ l)
      ≡ false
unfolding text_eq
transaction_differs none k l = refl
transaction_differs (some e) k l = refl

-- Saving a proof, for whatever owner and in whatever storage, changes no commitment, burner wallet
-- or transaction result that is loaded for any owner.
pub save_proof_elsewhere :
    (now : ℕ) (p : ProofData) (vote_choice : Option ℕ) (o other : Owner) (s : Storage)
    → let saved = save_proof now p vote_choice o s in
      (load_commitment other saved ≡ load_commitment other s)
      × (load_burner_wallet other.contract_address other.user_address saved
          ≡ load_burner_wallet other.contract_address other.user_address s)
      × (load_transaction_result other.contract_address other.user_address saved
          ≡ load_transaction_result other.contract_address other.user_address s)
unfolding save_proof load_commitment load_burner_wallet load_transaction_result get_storage_key
    get_commitment_storage_key get_burner_wallet_storage_key get_transaction_result_storage_key
save_proof_elsewhere now p vote_choice o other s = (
  load_elsewhere _ _ _ _ s (elections_differ o.election_id other.election_id _ _),
  load_elsewhere _ _ _ _ s (wallet_differs o.election_id _ _),
  load_elsewhere _ _ _ _ s (transaction_differs o.election_id _ _),
)
