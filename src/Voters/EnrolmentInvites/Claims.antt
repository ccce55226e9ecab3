-- ===== src/Voters/EnrolmentInvites/Claims.antt =====
-- An invite is claimed once, and what is done for one NIC leaves the invites of others alone.
use zk_voting.Prelude.{
  ℕ, ◌+◌, ◌≤◌, ◌≡◌, refl, inl, inr, Bool, true, false, ◌&&◌, ◌∙◌, Option, none, some, List, [], ◌∷◌,
  arith, Bool-cases, Option-cases, if◌then◌else◌,
}
use zk_voting.Prelude.Keyed.{is_some, find_key, key-find, find-replace, find-append}
use zk_voting.Prelude.Text.{Text, text_eq, text_eq_iff}
use zk_voting.Store.{absent, unreadable, corrupt, stored, mutate}
use zk_voting.Store.Mutation.{is_ok}
use zk_voting.Voters.EnrolmentInvites.{
  EnrolmentInviteRecord, InviteDisk, key, is_claimed, UpsertInput, pending_record, upsert_pending,
  claimed_record, claim,
}

-- The invite on file for a NIC.
abbrev pub invite_of : Text → InviteDisk → Option EnrolmentInviteRecord
invite_of nic (stored invites) = find_key key nic invites
invite_of nic _ = none

module _ (nic : Text) where
  -- `upsertPending` succeeds only for a NIC whose invite is not claimed, and then stands for it.
  upsert_effect :
      (w : Bool) (input : UpsertInput) (now : Text) (disk : InviteDisk)
      → invite_of nic (upsert_pending w input now disk).0 ≡ (
          if is_ok (upsert_pending w input now disk).1
          then (if text_eq input.nic_hash nic
              then some (pending_record input now)
              else invite_of nic disk)
          else invite_of nic disk)
  unfolding upsert_pending mutate
  upsert_effect true input now (stored xs) = ground (
    arith,
    find-append key nic (pending_record input now) xs,
    find-replace key input.nic_hash nic (pending_record input now) xs,
    text_eq_iff input.nic_hash nic,
  )
  upsert_effect false input now (stored xs) = ground arith
  upsert_effect true input now absent = ground arith
  upsert_effect false input now absent = ground arith
  upsert_effect w input now unreadable = ground arith
  upsert_effect w input now corrupt = ground arith

  upsert_of_claimed :
      (w : Bool) (input : UpsertInput) (now : Text) (disk : InviteDisk)
      → text_eq input.nic_hash nic ≡ true
      → is_claimed (invite_of nic disk) ≡ true
      → is_ok (upsert_pending w input now disk).1 ≡ false
  unfolding upsert_pending mutate
  upsert_of_claimed w input now (stored xs) same is = ground (arith, text_eq_iff input.nic_hash nic)
  upsert_of_claimed w input now _ same is = ground arith

  -- What `claim` leaves on file for the NIC.
  abbrev claimed_now : Text → Option EnrolmentInviteRecord → Option EnrolmentInviteRecord
  claimed_now now none = none
  claimed_now now (some r) = some (claimed_record r now)

  claim_effect :
      (w : Bool) (nic_hash now : Text) (disk : InviteDisk)
      → invite_of nic (claim w nic_hash now disk).0 ≡ (
          if is_ok (claim w nic_hash now disk).1
          then (if text_eq nic_hash nic
              then claimed_now now (invite_of nic disk)
              else invite_of nic disk)
          else invite_of nic disk)
  unfolding claim mutate
  claim_effect true nic_hash now (stored xs) = elim (Option-cases (find_key key nic_hash xs)) [
    | inl missing ↦ ground (arith, missing)
    | inr (r, found) ↦ ground (
      arith,
      found,
      find-replace key nic_hash nic (claimed_record r now) xs (key-find key nic_hash xs r found),
      text_eq_iff nic_hash nic,
    )
  ]
  claim_effect false nic_hash now (stored xs) = ground arith
  claim_effect w nic_hash now absent = ground arith
  claim_effect w nic_hash now unreadable = ground arith
  claim_effect w nic_hash now corrupt = ground arith

  claim_found_some :
      (w : Bool) (nic_hash now : Text) (disk : InviteDisk)
      → text_eq nic_hash nic ≡ true
      → is_ok (claim w nic_hash now disk).1 ≡ true
      → is_some (invite_of nic disk) ≡ true
  unfolding claim mutate
  claim_found_some w nic_hash now (stored xs) same done = ground (arith, text_eq_iff nic_hash nic)
  claim_found_some w nic_hash now _ same done = ground arith

  claim_of_claimed :
      (w : Bool) (nic_hash now : Text) (disk : InviteDisk)
      → text_eq nic_hash nic ≡ true
      → is_claimed (invite_of nic disk) ≡ true
      → is_ok (claim w nic_hash now disk).1 ≡ false
  unfolding claim mutate
  claim_of_claimed w nic_hash now (stored xs) same is = ground (arith, text_eq_iff nic_hash nic)
  claim_of_claimed w nic_hash now _ same is = ground arith

-- A call of the store, with whether its write succeeds and the date that it writes.
pub data Op : Type 0 where
  upserts : Bool → UpsertInput → Text → Op
  claims : Bool → Text → Text → Op

unfoldable pub step : Op → InviteDisk → InviteDisk
step (upserts w input now) disk = (upsert_pending w input now disk).0
step (claims w nic_hash now) disk = (claim w nic_hash now disk).0

unfoldable pub run : List Op → InviteDisk → InviteDisk
run [] disk = disk
run (op ∷ ops) disk = run ops (step op disk)

abbrev one_if : Bool → ℕ
one_if true = 1
one_if false = 0

-- Whether the call is a claim for the NIC that succeeds.
abbrev claims_it : Text → Op → InviteDisk → Bool
claims_it nic (upserts w input now) disk = false
claims_it nic (claims w nic_hash now) disk =
    text_eq nic_hash nic && is_ok (claim w nic_hash now disk).1

-- How many claims for the NIC succeed.
unfoldable pub claim_count : Text → List Op → InviteDisk → ℕ
claim_count nic [] disk = 0
claim_count nic (op ∷ ops) disk =
    one_if (claims_it nic op disk) + claim_count nic ops (step op disk)

module _ (nic : Text) where
  step_of_claimed :
      (op : Op) (disk : InviteDisk)
      → is_claimed (invite_of nic disk) ≡ true
      → (invite_of nic (step op disk) ≡ invite_of nic disk) × (claims_it nic op disk ≡ false)
  unfolding step
  step_of_claimed (upserts w input now) disk is =
      ground (arith, upsert_effect nic w input now disk, upsert_of_claimed nic w input now disk)
  step_of_claimed (claims w nic_hash now) disk is =
      ground (arith, claim_effect nic w nic_hash now disk, claim_of_claimed nic w nic_hash now disk)

  -- No call but `clear` changes a claimed invite, and no later claim of it succeeds.
  pub claimed_is_final :
      (ops : List Op) (disk : InviteDisk)
      → is_claimed (invite_of nic disk) ≡ true
      → (invite_of nic (run ops disk) ≡ invite_of nic disk) × (claim_count nic ops disk ≡ 0)
  unfolding run claim_count
  claimed_is_final [] disk is = (refl, refl)
  claimed_is_final (op ∷ ops) disk is =
      let (kept, none_now) = step_of_claimed op disk is in
      let (kept_on, none_later) = claimed_is_final ops (step op disk) (rw kept is) in
      (kept_on ∙ kept, rw (none_now, none_later))

  claimed_after :
      (op : Op) (disk : InviteDisk)
      → claims_it nic op disk ≡ true
      → is_claimed (invite_of nic (step op disk)) ≡ true
  unfolding step
  claimed_after (upserts w input now) disk h = ground arith
  claimed_after (claims w nic_hash now) disk h =
      ground (arith, claim_effect nic w nic_hash now disk, claim_found_some nic w nic_hash now disk)

  -- However the calls of the store other than `clear` follow one another, and whichever writes fail,
  -- at most one claim for a NIC succeeds.
  pub claim_once : (ops : List Op) (disk : InviteDisk) → claim_count nic ops disk ≤ 1
  unfolding claim_count
  claim_once [] disk = omega arith
  claim_once (op ∷ ops) disk = elim (Bool-cases (claims_it nic op disk)) [
    | inl now ↦
        rw (now, (claimed_is_final ops (step op disk) (claimed_after op disk now)).1) (omega arith)
    | inr not_now ↦ rw not_now (omega (arith, claim_once ops (step op disk)))
  ]
