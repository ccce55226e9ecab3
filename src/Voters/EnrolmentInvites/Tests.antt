-- ===== src/Voters/EnrolmentInvites/Tests.antt =====
-- The invites at concrete inputs.
use zk_voting.Prelude.{◌≤◌, ◌≡◌, refl, true, false, some, List, [], ◌∷◌}
use zk_voting.Prelude.Keyed.{replace_key}
use zk_voting.Prelude.Text.{Text, codes, text_eq}
use zk_voting.Store.{stored, mutate}
use zk_voting.Voters.EnrolmentInvites.{
  claimed, EnrolmentInviteRecord, UpsertInput, pending_record, upsert_pending, claim,
}
use zk_voting.Voters.EnrolmentInvites.Claims.{upserts, claims, Op, step, claim_count, claim_once}

abbrev nic : Text
nic = codes "5f"

abbrev monday : Text
monday = codes "mon"

abbrev input : UpsertInput
input = record { nic_hash = nic; phone = codes "077"; division_id = 3 }

abbrev invite : EnrolmentInviteRecord
invite = pending_record input monday

abbrev claimed_invite : EnrolmentInviteRecord
claimed_invite = record invite { status = claimed; claimed_at = some monday }

abbrev ops : List Op
ops =
    claims true nic monday
    ∷ upserts true input monday
    ∷ claims false nic monday
    ∷ claims true nic monday
    ∷ claims true nic monday
    ∷ []

one_claim : claim_count nic ops (stored []) ≡ 1
unfolding claim_count step upsert_pending claim mutate text_eq replace_key
one_claim = refl

claim_once_example : claim_count nic ops (stored []) ≤ 1
claim_once_example = claim_once nic ops (stored [])
