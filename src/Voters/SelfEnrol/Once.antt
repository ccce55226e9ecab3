-- ===== src/Voters/SelfEnrol/Once.antt =====
-- A claimed invite has nothing more signed for it.
use zk_voting.Prelude.{◌≡◌, refl, sym, ap, ◌∙◌, inl, true, false, Option, some, List, [], ◌∷◌, IsIn}
use zk_voting.Prelude.Json.{text_or_empty, members_of, Json, JsonMembers, find_member}
use zk_voting.Prelude.Outcome.{ok, ok-injective}
use zk_voting.Prelude.Text.{Text, codes}
use zk_voting.Store.{absent, unreadable, corrupt, stored, read}
use zk_voting.Voters.EnrolmentInvites.{
  EnrolmentInviteRecord, InviteDisk, pending, is_claimed, find_by_nic_hash,
}
use zk_voting.Voters.EnrolmentInvites.Claims.{Op, run, invite_of, claimed_is_final}
use zk_voting.Voters.EnrolmentToken.{TokenClaim, verify_enrolment_token}
use zk_voting.Voters.EnrolRelay.{PreparedCall}
use zk_voting.Voters.SelfEnrol.{EnrolServer, EnrolRequest, post_self_enrol}
use zk_voting.Voters.SelfEnrol.Entitled.{IsInvited, submitted-IsInvited}

-- The token of the request verifies to the claim.
pub record Carries (server : EnrolServer) (req : EnrolRequest) (c : TokenClaim) : Type 0 where
  pub value : Json
  pub members : JsonMembers
  pub body : req.body ≡ some value
  pub read_as : members_of value ≡ some members
  pub verified :
      verify_enrolment_token server.runtime req.now
        (text_or_empty (find_member (codes "token") members))
      ≡ some c

some-injective : {A : Type 0} (a b : A) → ◌≡◌ {A = Option A} (some a) (some b) → a ≡ b
some-injective a b h = cc

invite_of_found :
    (nic : Text) (disk : InviteDisk) (invite : EnrolmentInviteRecord)
    → find_by_nic_hash nic disk ≡ ok (some invite)
    → invite_of nic disk ≡ some invite
unfolding find_by_nic_hash read
invite_of_found nic (stored xs) invite h = ok-injective _ _ h
invite_of_found nic absent invite h = absurd (cc)
invite_of_found nic unreadable invite h = absurd (cc)
invite_of_found nic corrupt invite h = absurd (cc)

pending_is_unclaimed :
    (invite : EnrolmentInviteRecord) → invite.status ≡ pending → is_claimed (some invite) ≡ false
pending_is_unclaimed invite h = rw h refl

module _ (server : EnrolServer) (req : EnrolRequest) (c : TokenClaim) where
  same_grant :
      (seen : InviteDisk) (call : PreparedCall)
      → Carries server req c
      → (invited : IsInvited server req seen call) → invited.grant ≡ c
  same_grant seen call carries invited =
      let (v, body, read_as) = invited.body in
      let values : v ≡ carries.value = some-injective _ _ (sym body ∙ carries.body) in
      let members : invited.members ≡ carries.members =
        some-injective _ _ (sym read_as ∙ ap members_of values ∙ carries.read_as) in
      some-injective _ _ (sym invited.verified ∙ rw members carries.verified)

  unclaimed_of_invited :
      (seen : InviteDisk) (call : PreparedCall)
      → Carries server req c
      → IsInvited server req seen call
      → is_claimed (invite_of c.nic_hash seen) ≡ false
  unclaimed_of_invited seen call carries invited =
      let same = same_grant seen call carries invited in
      let found = invite_of_found invited.grant.nic_hash seen invited.invite invited.invited_as in
      rw (← same) (rw found (pending_is_unclaimed invited.invite invited.unclaimed))

  nothing_of :
      (calls : List PreparedCall) (seen : InviteDisk)
      → ((call : PreparedCall) → IsIn call calls → is_claimed (invite_of c.nic_hash seen) ≡ false)
      → is_claimed (invite_of c.nic_hash seen) ≡ true
      → calls ≡ []
  nothing_of [] seen f h = refl
  nothing_of (call ∷ calls) seen f h =
      absurd (let bad : true ≡ false = sym h ∙ f call (inl refl) in cc)

  -- Once an invite is claimed, a request whose token is for its NIC has no transaction signed,
  -- whatever calls of upsertPending and claim come between, and whichever of their writes fail.
  pub claimed_submits_nothing :
      (ops : List Op) (start disk : InviteDisk)
      → Carries server req c
      → is_claimed (invite_of c.nic_hash start) ≡ true
      → (post_self_enrol server req (run ops start) disk).calls ≡ []
  claimed_submits_nothing ops start disk carries is =
      let seen = run ops start in
      nothing_of (post_self_enrol server req seen disk).calls seen
        (λ call m.
          unclaimed_of_invited seen call carries (submitted-IsInvited server req seen disk call m))
        (rw ((claimed_is_final c.nic_hash ops start is).0) is)
