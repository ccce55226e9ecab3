-- ===== src/Voters/SelfEnrol.antt =====
-- packages/nextjs/app/api/self-enrol/route.ts, POST. The route waits for the chain between its reading
-- of the invites and its claim: `seen` is the file at the first, `disk` at the second.
pub mod Entitled
pub mod Once
mod Tests
use zk_voting.Prelude.{
  ℕ, ◌≡◌, Bool, true, false, not, ◌&&◌, ◌||◌, Option, none, some, List, [], ◌∷◌, ◌++◌, ◌==◌, find,
  if◌then◌else◌,
}
use zk_voting.Prelude.Json.{text_or_empty, members_of, Json, JsonMembers, find_member}
use zk_voting.Prelude.Outcome.{Outcome, ok, err, thrown}
use zk_voting.Prelude.Text.{Text, codes, text_eq, is_hex_of}
use zk_voting.Auth.Relay.Value.{Value, bool, string, array, Values, end, item, is_empty}
use zk_voting.Auth.Relay.Policy.{AbiEntry}
use zk_voting.Auth.Relay.Contracts.{DivisionSummary, DeployedEntry, Deployment}
use zk_voting.Auth.Relay.Executor.{
  Rejection, Submission, success, reverted, failed, AuditStatus, mined_success, mined_reverted,
  failed_with, RelayOutcome, relayed, failure, or_message, resolve_admin_key, status_of,
}
use zk_voting.Auth.Officers.{same_id}
use zk_voting.Auth.Session.{is_custom_mode}
use zk_voting.Voters.EnrolmentInvites.{
  EnrolmentInviteRecord, InviteDisk, InviteError, InviteStatus, pending, claimed, claim,
  find_by_nic_hash,
}
use zk_voting.Voters.EnrolmentToken.{TokenClaim, TokenRuntime, verify_enrolment_token}
use zk_voting.Voters.EnrolRelay.{
  Chain, PreparedCall, SelfEnrolInput, SystemLine, Written, execute_self_enrol,
}

-- What the route answers.
pub data EnrolAnswer : Type 0 where
  not_custom_mode invalid_body token_required bad_address invalid_link used_link : EnrolAnswer
  chain_unreachable division_gone uncaught : EnrolAnswer
  not_enrolled : ℕ → EnrolAnswer
  enrolled : Text → EnrolAnswer

abbrev pub enrol_status : EnrolAnswer → ℕ
enrol_status not_custom_mode = 404
enrol_status invalid_body = 400
enrol_status token_required = 400
enrol_status bad_address = 400
enrol_status invalid_link = 401
enrol_status used_link = 409
enrol_status chain_unreachable = 503
enrol_status division_gone = 410
enrol_status uncaught = 500
enrol_status (not_enrolled status) = status
enrol_status (enrolled name) = 200

-- The server and the request.
pub record EnrolServer : Type 0 where
  pub chain_backend : Option Text
  pub runtime : TokenRuntime
  pub chain : Chain
  pub deployment : Deployment
  pub admin_relay_private_key : Option Text
  pub has_account : Text → Bool
  pub divisions : Option (List DivisionSummary)

pub record EnrolRequest : Type 0 where
  pub body : Option Json
  pub now : ℕ
  pub claimed_at : Text
  pub writable : Bool

pub record Enrolment : Type 0 where
  pub disk : InviteDisk
  pub answer : EnrolAnswer
  pub calls : List PreparedCall
  pub audit : List SystemLine

abbrev pub refuse : InviteDisk → EnrolAnswer → Enrolment
refuse disk answer = record { disk = disk; answer = answer; calls = []; audit = [] }

-- after the writes: a failed claim is only reported to the console
abbrev pub conclude_enrolment :
    EnrolRequest → TokenClaim → DivisionSummary → InviteDisk → Written → RelayOutcome → Enrolment
conclude_enrolment req c division disk w (failure status) = record {
  disk = disk;
  answer = not_enrolled status;
  calls = w.calls;
  audit = w.audit;
}
conclude_enrolment req c division disk w (relayed hash block) = record {
  disk = (claim req.writable c.nic_hash req.claimed_at disk).0;
  answer = enrolled division.name;
  calls = w.calls;
  audit = w.audit;
}

-- the end of the route, on what comes of the two writes
abbrev pub after_enrolling :
    EnrolRequest
    → TokenClaim
    → DivisionSummary
    → InviteDisk
    → Outcome (Unit {0}) Written
    → Enrolment
after_enrolling req c division disk (ok w) = conclude_enrolment req c division disk w w.outcome
after_enrolling req c division disk _ = refuse disk uncaught

unfoldable pub enrol_in :
    EnrolServer → EnrolRequest → TokenClaim → Text → InviteDisk → DivisionSummary → Enrolment
unfolding execute_self_enrol
enrol_in server req c address disk division = after_enrolling req c division disk (
    execute_self_enrol server.chain server.has_account server.deployment
      server.admin_relay_private_key
      (record { nic_hash = c.nic_hash; device = address; division = division }))

abbrev pub enrol_division :
    EnrolServer → EnrolRequest → TokenClaim → Text → InviteDisk → Option DivisionSummary → Enrolment
enrol_division server req c address disk none = refuse disk division_gone
enrol_division server req c address disk (some division) =
    enrol_in server req c address disk division

abbrev pub division_for : EnrolmentInviteRecord → List DivisionSummary → Option DivisionSummary
division_for invite divisions = find (λ (d : DivisionSummary). d.id == invite.division_id) divisions

abbrev pub enrol_invite :
    EnrolServer
    → EnrolRequest
    → TokenClaim
    → Text
    → InviteDisk
    → EnrolmentInviteRecord
    → InviteStatus
    → Option (List DivisionSummary)
    → Enrolment
enrol_invite server req c address disk invite claimed divisions = refuse disk used_link
enrol_invite server req c address disk invite pending none = refuse disk chain_unreachable
enrol_invite server req c address disk invite pending (some divisions) =
    enrol_division server req c address disk (division_for invite divisions)

-- the route on the invite that is found for the token
abbrev pub enrol_found :
    EnrolServer
    → EnrolRequest
    → TokenClaim
    → Text
    → InviteDisk
    → Outcome InviteError (Option EnrolmentInviteRecord)
    → Enrolment
enrol_found server req c address disk (ok none) = refuse disk invalid_link
enrol_found server req c address disk (ok (some invite)) =
    if not (same_id c.division_id invite.division_id)
    then refuse disk invalid_link
    else enrol_invite server req c address disk invite invite.status server.divisions
enrol_found server req c address disk _ = refuse disk uncaught

abbrev pub enrol_claim :
    EnrolServer → EnrolRequest → Text → InviteDisk → InviteDisk → Option TokenClaim → Enrolment
enrol_claim server req address seen disk none = refuse disk invalid_link
enrol_claim server req address seen disk (some c) =
    enrol_found server req c address disk (find_by_nic_hash c.nic_hash seen)

abbrev pub enrol_texts :
    EnrolServer → EnrolRequest → InviteDisk → InviteDisk → Text → Text → Enrolment
enrol_texts server req seen disk token address =
    if is_empty token
    then refuse disk token_required
    else if not (is_hex_of 40 address)
    then refuse disk bad_address
    else enrol_claim server req address seen disk
        (verify_enrolment_token server.runtime req.now token)

abbrev pub enrol_members :
    EnrolServer → EnrolRequest → InviteDisk → InviteDisk → Option JsonMembers → Enrolment
enrol_members server req seen disk none = refuse disk uncaught
enrol_members server req seen disk (some ms) =
    enrol_texts server req seen disk (text_or_empty (find_member (codes "token") ms))
      (text_or_empty (find_member (codes "address") ms))

abbrev pub enrol_body :
    EnrolServer → EnrolRequest → InviteDisk → InviteDisk → Option Json → Enrolment
enrol_body server req seen disk none = refuse disk invalid_body
enrol_body server req seen disk (some body) = enrol_members server req seen disk (members_of body)

-- `POST(req)`
unfoldable pub post_self_enrol : EnrolServer → EnrolRequest → InviteDisk → InviteDisk → Enrolment
unfolding enrol_in verify_enrolment_token is_hex_of text_eq
post_self_enrol server req seen disk =
    if not (is_custom_mode server.chain_backend)
    then refuse disk not_custom_mode
    else enrol_body server req seen disk req.body
