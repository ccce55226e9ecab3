-- ===== src/Voters/EnrolmentInvites.antt =====
-- packages/nextjs/services/voters/enrolmentInvites.ts, class EnrolmentInviteStore. The texts of
-- the errors are constructors; a date is the text that the call writes for it.
pub mod Claims
pub mod Effects
mod Tests
use zk_voting.Prelude.{
  ℕ, suc, Bool, true, false, Option, none, some, List, [], ◌∷◌, ◌++◌, ◌==◌, length, if◌then◌else◌,
}
use zk_voting.Prelude.Keyed.{find_key, replace_key}
use zk_voting.Prelude.Outcome.{Outcome, ok, err, thrown, ◌>>=◌}
use zk_voting.Prelude.Text.{Text, text_eq}
use zk_voting.Store.{Disk, read, mutate}

pub data InviteStatus : Type 0 where
  pending claimed : InviteStatus

pub record EnrolmentInviteRecord : Type 0 where
  pub nic_hash : Text
  pub phone : Text
  pub division_id : ℕ
  pub status : InviteStatus
  pub created_at : Text
  pub claimed_at : Option Text

pub data InviteError : Type 0 where
  corrupt_store no_invite already_claimed : InviteError

abbrev pub Invites : Type 0
Invites = List EnrolmentInviteRecord

abbrev pub InviteDisk : Type 0
InviteDisk = Disk EnrolmentInviteRecord

abbrev pub key : EnrolmentInviteRecord → Text
key r = r.nic_hash

abbrev pub is_claimed : Option EnrolmentInviteRecord → Bool
is_claimed none = false
is_claimed (some r) = elim r.status [ pending ↦ false | claimed ↦ true ]

abbrev as_stored : Invites → Invites
as_stored invites = invites

abbrev read_invites : InviteDisk → Outcome InviteError Invites
read_invites disk = read corrupt_store as_stored disk

-- `list()`
pub list : InviteDisk → Outcome InviteError Invites
list disk = read_invites disk

-- `findByNicHash(nicHash)`
unfoldable pub find_by_nic_hash :
    Text → InviteDisk → Outcome InviteError (Option EnrolmentInviteRecord)
find_by_nic_hash nic_hash disk = do invites ← read_invites disk; ok (find_key key nic_hash invites)

pub record UpsertInput : Type 0 where
  pub nic_hash : Text
  pub phone : Text
  pub division_id : ℕ

abbrev pub pending_record : UpsertInput → Text → EnrolmentInviteRecord
pending_record input now = record {
  nic_hash = input.nic_hash;
  phone = input.phone;
  division_id = input.division_id;
  status = pending;
  created_at = now;
  claimed_at = none;
}

-- the list with the record in the place of `existing`, or at the end
abbrev pub put_record : Option EnrolmentInviteRecord → EnrolmentInviteRecord → Invites → Invites
put_record none r invites = invites ++ r ∷ []
put_record (some old) r invites = replace_key key r.nic_hash r invites

pub upsert_change :
    UpsertInput → Text → Invites → Outcome InviteError (Option Invites × EnrolmentInviteRecord)
upsert_change input now invites =
    let existing = find_key key input.nic_hash invites in
    let r = pending_record input now in
    if is_claimed existing
    then err already_claimed
    else ok (some (put_record existing r invites), r)

-- `upsertPending(input)`
unfoldable pub upsert_pending :
    Bool → UpsertInput → Text → InviteDisk → InviteDisk × Outcome InviteError EnrolmentInviteRecord
unfolding upsert_change
upsert_pending writable input now disk =
    mutate corrupt_store as_stored writable (upsert_change input now) disk

abbrev pub claimed_record : EnrolmentInviteRecord → Text → EnrolmentInviteRecord
claimed_record invite now = record invite { status = claimed; claimed_at = some now }

abbrev claim_found :
    Text
    → Text
    → Invites
    → Option EnrolmentInviteRecord
    → Outcome InviteError (Option Invites × EnrolmentInviteRecord)
claim_found nic_hash now invites none = err no_invite
claim_found nic_hash now invites (some invite) =
    let updated = claimed_record invite now in
    if is_claimed (some invite)
    then err already_claimed
    else ok (some (replace_key key nic_hash updated invites), updated)

pub claim_change :
    Text → Text → Invites → Outcome InviteError (Option Invites × EnrolmentInviteRecord)
claim_change nic_hash now invites = claim_found nic_hash now invites (find_key key nic_hash invites)

-- `claim(nicHash)`
unfoldable pub claim :
    Bool → Text → Text → InviteDisk → InviteDisk × Outcome InviteError EnrolmentInviteRecord
unfolding claim_change
claim writable nic_hash now disk =
    mutate corrupt_store as_stored writable (claim_change nic_hash now) disk

abbrev clear_change : Invites → Outcome InviteError (Option Invites × ℕ)
clear_change invites =
    let removed = length invites in ok (if removed == 0 then none else some [], removed)

-- `clear()`
pub clear : Bool → InviteDisk → InviteDisk × Outcome InviteError ℕ
clear writable disk = mutate corrupt_store as_stored writable clear_change disk
