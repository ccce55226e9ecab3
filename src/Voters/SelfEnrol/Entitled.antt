-- ===== src/Voters/SelfEnrol/Entitled.antt =====
-- Which transactions the route for self-enrolment has signed.
use zk_voting.Prelude.{
  ◌≡◌, refl, ◌⊎◌, inl, inr, true, Option, none, some, List, [], ◌==◌, arith, find_sound, IsIn,
  Bool-cases,
}
use zk_voting.Prelude.Json.{text_or_empty, members_of, Json, JsonMembers, find_member}
use zk_voting.Prelude.Int.{pos}
use zk_voting.Prelude.Outcome.{Outcome, ok, err, thrown}
use zk_voting.Prelude.Text.{Text, codes, is_hex_of}
use zk_voting.Auth.Relay.Value.{integer, is_empty}
use zk_voting.Auth.Officers.{same_id, same_id_sound}
use zk_voting.Auth.Relay.Contracts.{DivisionSummary, DeployedEntry, Deployment}
use zk_voting.Auth.Relay.Executor.{RelayOutcome, relayed, failure}
use zk_voting.Auth.Session.{is_custom_mode}
use zk_voting.Voters.EnrolmentInvites.{
  EnrolmentInviteRecord, InviteDisk, InviteError, InviteStatus, pending, claimed, find_by_nic_hash,
}
use zk_voting.Voters.EnrolmentToken.{TokenClaim, verify_enrolment_token}
use zk_voting.Voters.EnrolRelay.{SelfEnrolInput, PreparedCall, Written}
use zk_voting.Voters.SelfEnrol.{
  EnrolServer, EnrolRequest, conclude_enrolment, after_enrolling, enrol_in, enrol_division,
  division_for, enrol_invite, enrol_found, enrol_claim, enrol_texts, enrol_members, enrol_body,
  post_self_enrol,
}
use zk_voting.Voters.EnrolRelay.Order.{
  reservation, addition, IsNotSubmitted, IsReady, Writes, Enrols, execute_self_enrol_order,
}

-- The call is one of the two writes of an enrolment, with the ABI of the deployment.
abbrev pub IsWriteOf : Deployment → SelfEnrolInput → PreparedCall → Type 0
IsWriteOf deployment input call =
    (e : DeployedEntry) × (((deployment.nic_registry_entry ≡ some e) × (call ≡ reservation e input))
      ⊎ ((deployment.voting_entry ≡ some e) × (call ≡ addition e input)))

abbrev pub input_of : TokenClaim → Text → DivisionSummary → SelfEnrolInput
input_of c address division = record {
  nic_hash = c.nic_hash;
  device = address;
  division = division;
}

IsIn-same :
    (call : PreparedCall) (made calls : List PreparedCall)
    → made ≡ calls
    → IsIn call made
    → IsIn call calls
IsIn-same call made calls e m = rw (← e) m

module _ (server : EnrolServer) (input : SelfEnrolInput) (call : PreparedCall) where
  written-IsWriteOf :
      (w : Written)
      → IsNotSubmitted w server.deployment server.admin_relay_private_key
        ⊎ ((ready : IsReady server.has_account server.deployment server.admin_relay_private_key)
            × Writes server.chain server.has_account server.deployment
                server.admin_relay_private_key input w ready)
      → IsIn call w.calls
      → IsWriteOf server.deployment input call
  written-IsWriteOf w (inl nothing) m = elim (IsIn-same call _ _ nothing.calls m) [ ]
  written-IsWriteOf w (inr (ready, inl one)) m = elim (IsIn-same call _ _ one.calls m) [
    | inl e ↦ (ready.nic_registry, inl (ready.registered, e))
    | inr gone ↦ elim gone [ ]
  ]
  written-IsWriteOf w (inr (ready, inr two)) m = elim (IsIn-same call _ _ two.calls m) [
    | inl e ↦ (ready.nic_registry, inl (ready.registered, e))
    | inr rest ↦ elim rest [
      | inl e ↦ (ready.voting, inr (ready.compiled, e))
      | inr gone ↦ elim gone [ ]
    ]
  ]

concluded :
    (req : EnrolRequest) (c : TokenClaim) (division : DivisionSummary) (disk : InviteDisk)
    (w : Written) (outcome : RelayOutcome)
    → (conclude_enrolment req c division disk w outcome).calls ≡ w.calls
concluded req c division disk w (failure status) = refl
concluded req c division disk w (relayed hash block) = refl

module _ (server : EnrolServer) (req : EnrolRequest) (c : TokenClaim) (division : DivisionSummary)
    (disk : InviteDisk) (input : SelfEnrolInput) (call : PreparedCall) where
  enrolling-IsWriteOf :
      (result : Outcome (Unit {0}) Written)
      → Enrols server.chain server.has_account server.deployment server.admin_relay_private_key
          input result
      → IsIn call (after_enrolling req c division disk result).calls
      → IsWriteOf server.deployment input call
  enrolling-IsWriteOf (ok w) how m =
      written-IsWriteOf server input call w how
        (rw (concluded req c division disk w w.outcome) at m)
  enrolling-IsWriteOf (err u) how m = elim m [ ]
  enrolling-IsWriteOf thrown how m = elim m [ ]

-- The link of a request: its token verifies to a claim whose invite is on file, pending, in the
-- division of the claim, which is on the registry; and the address of the request is well formed.
pub record IsInvited (server : EnrolServer) (req : EnrolRequest) (seen : InviteDisk)
    (call : PreparedCall) : Type 0 where
  pub members : JsonMembers
  pub grant : TokenClaim
  pub invite : EnrolmentInviteRecord
  pub divisions : List DivisionSummary
  pub division : DivisionSummary
  pub custom : is_custom_mode server.chain_backend ≡ true
  pub body : (v : Json) × (req.body ≡ some v) × (members_of v ≡ some members)
  pub verified :
      verify_enrolment_token server.runtime req.now
        (text_or_empty (find_member (codes "token") members))
      ≡ some grant
  pub address : is_hex_of 40 (text_or_empty (find_member (codes "address") members)) ≡ true
  pub invited_as : find_by_nic_hash grant.nic_hash seen ≡ ok (some invite)
  pub unclaimed : invite.status ≡ pending
  pub own_division : grant.division_id ≡ integer (pos invite.division_id)
  pub registered : server.divisions ≡ some divisions
  pub found : IsIn division divisions × (division.id ≡ invite.division_id)
  pub write :
      IsWriteOf server.deployment
        (input_of grant (text_or_empty (find_member (codes "address") members)) division)
        call

module _ (server : EnrolServer) (req : EnrolRequest) (seen disk : InviteDisk)
    (call : PreparedCall) where
  module _ (c : TokenClaim) (address : Text) where
    -- What the route has found from the claim of the token on.
    record IsOnFile (invite : EnrolmentInviteRecord) : Type 0 where
      unclaimed : invite.status ≡ pending
      own_division : c.division_id ≡ integer (pos invite.division_id)
      divisions : List DivisionSummary
      division : DivisionSummary
      registered : server.divisions ≡ some divisions
      found : division_for invite divisions ≡ some division
      write : IsWriteOf server.deployment (input_of c address division) call

    in_division :
        (division : DivisionSummary)
        → IsIn call (enrol_in server req c address disk division).calls
        → IsWriteOf server.deployment (input_of c address division) call
    unfolding enrol_in
    in_division division m =
        enrolling-IsWriteOf server req c division disk (input_of c address division) call _
          (execute_self_enrol_order server.chain server.has_account server.deployment
            server.admin_relay_private_key (input_of c address division))
          m

    with_division :
        (found : Option DivisionSummary)
        → IsIn call (enrol_division server req c address disk found).calls
        → (division : DivisionSummary) × (found ≡ some division)
          × IsWriteOf server.deployment (input_of c address division) call
    with_division none m = elim m [ ]
    with_division (some division) m = (division, refl, in_division division m)

    with_invite :
        (invite : EnrolmentInviteRecord) (status : InviteStatus)
        (divisions : Option (List DivisionSummary))
        → c.division_id ≡ integer (pos invite.division_id)
        → invite.status ≡ status
        → server.divisions ≡ divisions
        → IsIn call (enrol_invite server req c address disk invite status divisions).calls
        → IsOnFile invite
    with_invite invite claimed divisions own s d m = elim m [ ]
    with_invite invite pending none own s d m = elim m [ ]
    with_invite invite pending (some ds) own s d m =
        let (division, found, write) = with_division (division_for invite ds) m in
        record {
          unclaimed = s;
          own_division = own;
          divisions = ds;
          division = division;
          registered = d;
          found = found;
          write = write;
        }

    with_found :
        (found : Outcome InviteError (Option EnrolmentInviteRecord))
        → IsIn call (enrol_found server req c address disk found).calls
        → (invite : EnrolmentInviteRecord) × (found ≡ ok (some invite)) × IsOnFile invite
    with_found (ok none) m = elim m [ ]
    with_found (err e) m = elim m [ ]
    with_found thrown m = elim m [ ]
    with_found (ok (some invite)) m = elim (Bool-cases (same_id c.division_id invite.division_id)) [
      | inr other ↦ elim (let bad : IsIn call [] = rw other at m in bad) [ ]
      | inl own ↦ (
        invite,
        refl,
        with_invite invite invite.status server.divisions
            (same_id_sound c.division_id invite.division_id own) refl refl (rw own at m),
      )
    ]

  with_claim :
      (address : Text) (verified : Option TokenClaim)
      → IsIn call (enrol_claim server req address seen disk verified).calls
      → (c : TokenClaim) × (verified ≡ some c)
        × (invite : EnrolmentInviteRecord) × (find_by_nic_hash c.nic_hash seen ≡ ok (some invite))
        × IsOnFile c address invite
  with_claim address none m = elim m [ ]
  with_claim address (some c) m =
      let (invite, found, rest) = with_found c address (find_by_nic_hash c.nic_hash seen) m in
      (c, refl, invite, found, rest)

  with_texts :
      (token address : Text)
      → IsIn call (enrol_texts server req seen disk token address).calls
      → (is_hex_of 40 address ≡ true)
        × IsIn call
            (enrol_claim server req address seen disk
              (verify_enrolment_token server.runtime req.now token)).calls
  with_texts token address m = elim (Bool-cases (is_empty token)) [
    | inl e ↦ elim (let bad : IsIn call [] = rw e at m in bad) [ ]
    | inr e ↦ elim (Bool-cases (is_hex_of 40 address)) [
      | inl hex ↦ (hex, rw (e, hex) at m)
      | inr bad_form ↦ elim (let bad : IsIn call [] = rw (e, bad_form) at m in bad) [ ]
    ]
  ]

  members_found :
      (parsed : Option JsonMembers)
      → IsIn call (enrol_members server req seen disk parsed).calls
      → (ms : JsonMembers) × (parsed ≡ some ms)
        × IsIn call
            (enrol_texts server req seen disk
              (text_or_empty (find_member (codes "token") ms))
              (text_or_empty (find_member (codes "address") ms))).calls
  members_found none m = elim m [ ]
  members_found (some ms) m = (ms, refl, m)

  body_found :
      (body : Option Json)
      → IsIn call (enrol_body server req seen disk body).calls
      → (v : Json) × (body ≡ some v)
        × IsIn call (enrol_members server req seen disk (members_of v)).calls
  body_found none m = elim m [ ]
  body_found (some v) m = (v, refl, m)

  IsIn-custom_mode :
      IsIn call (post_self_enrol server req seen disk).calls
      → (is_custom_mode server.chain_backend ≡ true)
        × IsIn call (enrol_body server req seen disk req.body).calls
  unfolding post_self_enrol
  IsIn-custom_mode m = elim (Bool-cases (is_custom_mode server.chain_backend)) [
    | inl e ↦ (e, rw e at m)
    | inr e ↦ elim (let bad : IsIn call [] = rw e at m in bad) [ ]
  ]

  -- Every transaction that a request for self-enrolment has signed reserves the NIC or adds the
  -- device: for the NIC of a valid token whose invite is on file and pending, in the registered
  -- division that the token and the invite name, and for the well-formed address of the request.
  pub submitted-IsInvited :
      IsIn call (post_self_enrol server req seen disk).calls → IsInvited server req seen call
  submitted-IsInvited m =
      let (custom, m1) = IsIn-custom_mode m in
      let (v, body, m2) = body_found req.body m1 in
      let (ms, parsed, m3) = members_found (members_of v) m2 in
      let address = text_or_empty (find_member (codes "address") ms) in
      let token = text_or_empty (find_member (codes "token") ms) in
      let (hex, m4) = with_texts token address m3 in
      let (c, verified, invite, invited_as, rest) = with_claim address _ m4 in
      let (inside, same) =
        find_sound (λ (d : DivisionSummary). d.id == invite.division_id) rest.divisions
          rest.division rest.found in
      record {
        members = ms;
        grant = c;
        invite = invite;
        divisions = rest.divisions;
        division = rest.division;
        custom = custom;
        body = (v, body, parsed);
        verified = verified;
        address = hex;
        invited_as = invited_as;
        unclaimed = rest.unclaimed;
        own_division = rest.own_division;
        registered = rest.registered;
        found = (inside, ground (arith, same));
        write = rest.write;
      }
