-- ===== src/Browser/ProofStorage/Transactions.antt =====
-- packages/nextjs/utils/proofStorage.ts: the results of transactions.
use zk_voting.Prelude.{ℕ, Bool, Option, none, some}
use zk_voting.Prelude.Int.{pos}
use zk_voting.Prelude.Json.{
  Json, bool, number, string, object, no_members, member, member?, json_text,
}
use zk_voting.Prelude.Text.{Text, codes}
use zk_voting.Browser.ProofStorage.{
  Storage, get_transaction_result_storage_key, save_item, load_item, clear_item, has_item,
  as_metadata,
}

-- What JSON.stringify makes of a receipt: it throws where there is a bigint in it.
pub data Receipt : Type 0 where
  no_receipt has_bigint : Receipt
  written_as : Json → Receipt

pub record TransactionResult : Type 0 where
  pub user_op_hash : Text
  pub success : Bool
  pub receipt : Receipt
  pub error_message : Option Text

-- `JSON.stringify(transactionResult)`; none where it throws
abbrev pub receipt_json : Receipt → Option (Option Json)
receipt_json no_receipt = some none
receipt_json has_bigint = none
receipt_json (written_as v) = some (some v)

abbrev pub stringify_result : ℕ → TransactionResult → Option Text → Option Json
stringify_result now r contract = elim (receipt_json r.receipt) [
  | none ↦ none
  | some receipt ↦ some (
      object (
        member (codes "userOpHash") (string r.user_op_hash) (
          member (codes "success") (bool r.success) (
            member (codes "timestamp") (number (pos now)) (
              member? (codes "contractAddress") (json_text contract) (
                member? (codes "receipt") receipt
                  (member? (codes "errorMessage") (json_text r.error_message) no_members)))))))
]

-- `saveTransactionResultToLocalStorage`
unfoldable pub save_transaction_result :
    ℕ → TransactionResult → Option Text → Option Text → Storage → Storage
unfolding save_item get_transaction_result_storage_key
save_transaction_result now r contract user s = elim (stringify_result now r contract) [
  | none ↦ s
  | some v ↦ save_item (get_transaction_result_storage_key contract user) v s
]

-- `loadTransactionResultFromLocalStorage`
unfoldable pub load_transaction_result : Option Text → Option Text → Storage → Option Json
unfolding load_item get_transaction_result_storage_key
load_transaction_result contract user s =
    load_item as_metadata (get_transaction_result_storage_key contract user) s

-- `clearTransactionResultFromLocalStorage`
unfoldable pub clear_transaction_result : Option Text → Option Text → Storage → Storage
unfolding clear_item get_transaction_result_storage_key
clear_transaction_result contract user s =
    clear_item (get_transaction_result_storage_key contract user) s

-- `hasStoredTransactionResult`
unfoldable pub has_stored_transaction_result : Option Text → Option Text → Storage → Bool
unfolding has_item get_transaction_result_storage_key
has_stored_transaction_result contract user s =
    has_item (get_transaction_result_storage_key contract user) s
