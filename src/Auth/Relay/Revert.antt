-- ===== src/Auth/Relay/Revert.antt =====
-- packages/nextjs/services/auth/relayExecutor.ts, describeRevert. The thrown values are objects of a
-- heap, so that a chain of causes can be a cycle; `walk`, `isHex` and `decodeErrorResult` of viem are
-- arguments.
pub mod Ends
mod Tests
use zk_voting.Prelude.{
  ℕ, zero, suc, ◌≡◌, Bool, true, false, ◌&&◌, Option, none, some, List, [], ◌∷◌, ltb, ◌==◌, any,
  length, get_elem?, if◌then◌else◌,
}
use zk_voting.Prelude.Text.{Text}
use zk_voting.Auth.Relay.Value.{is_empty}

-- The `data` of an object: a text, an object with or without a text as its own `data`, or another
-- value.
pub data DataField : Type 0 where
  text : Text → DataField
  nested : Option Text → DataField
  no_text : DataField

-- An object of the heap; `cause` is none where it is no object.
pub record ErrorObject : Type 0 where
  pub error_data : DataField
  pub cause : Option ℕ

abbrev pub Heap : Type 0
Heap = List ErrorObject

-- What `walk` finds; its name and reason are empty where they are undefined.
pub data WalkResult : Type 0 where
  no_revert : WalkResult
  revert_error : Text → Text → WalkResult

-- The thrown error: `walked` is none where `walk` throws.
pub record ThrownError : Type 0 where
  pub is_base_error : Bool
  pub reference : ℕ
  pub error_message : Text
  pub short_message : Text
  pub walked : Option WalkResult

pub record Decoder : Type 0 where
  pub is_hex : Text → Bool
  pub error_name : Text → Option Text

pub record Description : Type 0 where
  pub name : Option Text
  pub message : Text

abbrev pub payload_text : DataField → Option Text
payload_text (text s) = some s
payload_text (nested s) = s
payload_text no_text = none

module _ (decoder : Decoder) where
  abbrev pub full_name : Option Text → Option Text
  full_name none = none
  full_name (some s) = if is_empty s then none else some s

  abbrev pub decoded_payload : Option Text → Option Text
  decoded_payload none = none
  decoded_payload (some s) =
      if decoder.is_hex s && ltb 2 (length s) then full_name (decoder.error_name s) else none

  -- The name that the payload of an object decodes to, if it does.
  abbrev pub decoded_name : ErrorObject → Option Text
  decoded_name o = decoded_payload (payload_text o.error_data)

-- How a scan of the causes comes out.
pub data Scan : Type 0 where
  found : Text → Scan
  ended out_of_fuel : Scan

abbrev pub has_seen : ℕ → List ℕ → Bool
has_seen i seen = any (λ j. j == i) seen

abbrev pub or_continue : Option Text → Scan → Scan
or_continue none rest = rest
or_continue (some name) rest = found name

-- the object at the cursor, where there is one that was not seen
abbrev pub unseen_object : Heap → List ℕ → ℕ → Option ErrorObject
unseen_object heap seen i = if has_seen i seen then none else get_elem? heap i

abbrev pub scan_object : Decoder → (Option ℕ → Scan) → Option ErrorObject → Scan
scan_object decoder go none = ended
scan_object decoder go (some o) = or_continue (decoded_name decoder o) (go o.cause)

-- The loop, with fuel for its rounds.
unfoldable pub scan_causes : Decoder → Heap → ℕ → Option ℕ → List ℕ → Scan
scan_causes decoder heap zero cursor seen = out_of_fuel
scan_causes decoder heap (suc fuel) none seen = ended
scan_causes decoder heap (suc fuel) (some i) seen =
    scan_object decoder (λ next. scan_causes decoder heap fuel next (i ∷ seen))
      (unseen_object heap seen i)

-- Each object is seen at most once, so that one round more than there are objects is enough.
abbrev pub enough_fuel : Heap → ℕ
enough_fuel heap = suc (length heap)

abbrev pub or_fallback : Text → Text → Text
or_fallback short fallback = if is_empty short then fallback else short

abbrev pub described : Text → Description
described name = record { name = some name; message = name }

abbrev pub after_scan : ThrownError → Scan → Description
after_scan e (found name) = described name
after_scan e _ = record { name = none; message = or_fallback e.short_message e.error_message }

abbrev pub after_walk : Option WalkResult → Description → Description
after_walk (some (revert_error name reason)) rest =
    if is_empty name
    then (if is_empty reason then rest else record { name = none; message = reason })
    else described name
after_walk _ rest = rest

-- `describeRevert(error, abi)`
unfoldable pub describe_revert : Decoder → Heap → ThrownError → Description
unfolding scan_causes
describe_revert decoder heap e =
    if e.is_base_error
    then after_walk e.walked
        (after_scan e (scan_causes decoder heap (enough_fuel heap) (some e.reference) []))
    else record { name = none; message = e.error_message }
