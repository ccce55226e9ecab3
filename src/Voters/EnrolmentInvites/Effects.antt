-- ===== src/Voters/EnrolmentInvites/Effects.antt =====
-- What each call answers and leaves on file, seen as a map from NIC hashes to invites.
use zk_voting.Prelude.{
  ◌≡◌, refl, inl, inr, Bool, true, false, not, ◌&&◌, ◌||◌, Option, none, some, [], arith,
  Option-cases, if◌then◌else◌,
}
use zk_voting.Prelude.Keyed.{
  find_key, replace_key, key-find, find-replace, find-append, HasUniqueKeys, HasUniqueKeys-append,
  HasUniqueKeys-replace,
}
use zk_voting.Prelude.Outcome.{Outcome, ok, err, thrown, err-ne-ok}
use zk_voting.Prelude.Text.{Text, text_eq, text_eq_iff}
use zk_voting.Store.{absent, unreadable, corrupt, stored, read, mutate}
use zk_voting.Store.Mutation.{IsReadable, mutate_keeps}
use zk_voting.Voters.EnrolmentInvites.{
  EnrolmentInviteRecord, InviteError, no_invite, already_claimed, corrupt_store, Invites,
  InviteDisk, key, is_claimed, UpsertInput, pending_record, put_record, upsert_change, claim_change,
  upsert_pending, claimed_record, claim,
}
use zk_voting.Voters.EnrolmentInvites.Claims.{invite_of, Op, upserts, claims, step}

-- `upsertPending` refuses a NIC whose invite is claimed, and otherwise makes the pending invite the
-- one of its NIC, in place of an older one; a failed write throws and changes nothing, and the
-- invites of other NICs are never touched.
pub upsert_pending_refines :
    (w : Bool) (input : UpsertInput) (now nic : Text) (disk : InviteDisk)
    → IsReadable disk
    → ((upsert_pending w input now disk).1 ≡ (
        if is_claimed (invite_of input.nic_hash disk)
        then err already_claimed
        else if w
        then ok (pending_record input now)
        else thrown))
      × (invite_of nic (upsert_pending w input now disk).0 ≡ (
          if not (is_claimed (invite_of input.nic_hash disk)) && w && text_eq input.nic_hash nic
          then some (pending_record input now)
          else invite_of nic disk))
unfolding upsert_pending mutate
upsert_pending_refines true input now nic (stored xs) h = ground (
  arith,
  find-append key nic (pending_record input now) xs,
  find-replace key input.nic_hash nic (pending_record input now) xs,
  text_eq_iff input.nic_hash nic,
)
upsert_pending_refines false input now nic (stored xs) h = ground arith
upsert_pending_refines true input now nic absent h = ground arith
upsert_pending_refines false input now nic absent h = ground arith
upsert_pending_refines w input now nic unreadable h = absurd h
upsert_pending_refines w input now nic corrupt h = absurd h

-- The answer of `claim` for the invite found.
abbrev pub claim_answer :
    Bool → Text → Option EnrolmentInviteRecord → Outcome InviteError EnrolmentInviteRecord
claim_answer w now none = err no_invite
claim_answer w now (some r) =
    if is_claimed (some r)
    then err already_claimed
    else if w
    then ok (claimed_record r now)
    else thrown

-- The invite that a claim leaves where it found one.
abbrev pub claim_leaves : Bool → Text → Option EnrolmentInviteRecord → Option EnrolmentInviteRecord
claim_leaves w now none = none
claim_leaves w now (some r) =
    if is_claimed (some r) || not w then some r else some (claimed_record r now)

-- `claim` refuses a NIC with no invite or a claimed one, and otherwise marks its invite claimed at
-- the time of the call with all else unchanged; a failed write throws and changes nothing, and the
-- invites of other NICs are never touched.
pub claim_refines :
    (w : Bool) (nic_hash now nic : Text) (disk : InviteDisk)
    → IsReadable disk
    → ((claim w nic_hash now disk).1 ≡ claim_answer w now (invite_of nic_hash disk))
      × (invite_of nic (claim w nic_hash now disk).0 ≡ (
          if text_eq nic_hash nic
          then claim_leaves w now (invite_of nic disk)
          else invite_of nic disk))
unfolding claim mutate
claim_refines w nic_hash now nic (stored xs) h = elim (Option-cases (find_key key nic_hash xs)) [
  | inl missing ↦ ground (arith, missing, text_eq_iff nic_hash nic)
  | inr (r, found) ↦ ground (
    arith,
    found,
    find-replace key nic_hash nic (claimed_record r now) xs (key-find key nic_hash xs r found),
    text_eq_iff nic_hash nic,
  )
]
claim_refines w nic_hash now nic absent h = ground arith
claim_refines w nic_hash now nic unreadable h = absurd h
claim_refines w nic_hash now nic corrupt h = absurd h

-- No two invites on file are for one NIC.
abbrev pub HasUniqueNics : InviteDisk → Type 0
HasUniqueNics (stored xs) = HasUniqueKeys key xs
HasUniqueNics _ = Unit

put_record-HasUniqueKeys :
    (r : EnrolmentInviteRecord) (xs : Invites)
    → HasUniqueKeys key xs
    → HasUniqueKeys key (put_record (find_key key r.nic_hash xs) r xs)
put_record-HasUniqueKeys r xs h = elim (Option-cases (find_key key r.nic_hash xs)) [
  | inl new ↦ rw new (HasUniqueKeys-append key r xs h new)
  | inr (old, found) ↦ rw found (HasUniqueKeys-replace key r.nic_hash r xs refl h)
]

upsert_change-HasUniqueKeys :
    (input : UpsertInput) (now : Text) (xs ys : Invites) (t : EnrolmentInviteRecord)
    → HasUniqueKeys key xs
    → upsert_change input now xs ≡ ok (some ys, t)
    → HasUniqueKeys key ys
unfolding upsert_change
upsert_change-HasUniqueKeys input now xs ys t h made =
    let r = pending_record input now in
    let same : put_record (find_key key r.nic_hash xs) r xs ≡ ys = ground arith in
    rw (← same) (put_record-HasUniqueKeys r xs h)

claim_change-HasUniqueKeys :
    (nic_hash now : Text) (xs ys : Invites) (t : EnrolmentInviteRecord)
    → HasUniqueKeys key xs
    → claim_change nic_hash now xs ≡ ok (some ys, t)
    → HasUniqueKeys key ys
unfolding claim_change
claim_change-HasUniqueKeys nic_hash now xs ys t h made =
    elim (Option-cases (find_key key nic_hash xs)) [
      | inl missing ↦ absurd (err-ne-ok (rw missing at made))
      | inr (r, found) ↦
          let same : replace_key key nic_hash (claimed_record r now) xs ≡ ys =
            ground (arith, found) in
          rw (← same) (
            HasUniqueKeys-replace key nic_hash (claimed_record r now) xs
              (key-find key nic_hash xs r found) h)
    ]

stored-HasUniqueKeys :
    (disk : InviteDisk) (xs : Invites)
    → HasUniqueNics disk
    → read corrupt_store (λ (ys : Invites). ys) disk ≡ ok xs
    → HasUniqueKeys key xs
unfolding read
stored-HasUniqueKeys (stored ys) xs h e = let same : ys ≡ xs = cc in rw (← same) h
stored-HasUniqueKeys absent xs h e = let same : ◌≡◌ {A = Invites} [] xs = cc in rw (← same) tt
stored-HasUniqueKeys unreadable xs h e = absurd (cc)
stored-HasUniqueKeys corrupt xs h e = absurd (err-ne-ok e)

-- Every call keeps the invites of distinct NICs, whether its write succeeds or not.
pub step-HasUniqueNics :
    (op : Op) (disk : InviteDisk) → HasUniqueNics disk → HasUniqueNics (step op disk)
unfolding step upsert_pending claim
step-HasUniqueNics (upserts w input now) disk h =
    mutate_keeps corrupt_store (λ ys. ys) HasUniqueNics w (upsert_change input now) disk h
      (λ xs ys t got made.
        upsert_change-HasUniqueKeys input now xs ys t (stored-HasUniqueKeys disk xs h got) made)
step-HasUniqueNics (claims w nic_hash now) disk h =
    mutate_keeps corrupt_store (λ ys. ys) HasUniqueNics w (claim_change nic_hash now) disk h
      (λ xs ys t got made.
        claim_change-HasUniqueKeys nic_hash now xs ys t (stored-HasUniqueKeys disk xs h got) made)
