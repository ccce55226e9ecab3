-- ===== src/Auth/NicHash.antt =====
-- packages/nextjs/services/auth/nicHashAuth.ts: who may ask the server to hash a NIC.
pub mod Office
mod Tests
use zk_voting.Prelude.{
  ℕ, ◌≡◌, Bool, true, false, not, ◌&&◌, ◌||◌, Option, none, some, List, [], ◌∷◌, ◌==◌, any, find,
  if◌then◌else◌,
}
use zk_voting.Prelude.Int.{pos}
use zk_voting.Prelude.Outcome.{Outcome, ok, err, ◌>>◌, guard}
use zk_voting.Prelude.Text.{Text, text_eq, to_lower_case}
use zk_voting.Auth.Relay.Value.{Number, integer, is_empty}
use zk_voting.Auth.Session.{AuthRole, admin, gn}

-- The parts that the check reads of the session, the stored account and the divisions.
pub record NicSession : Type 0 where
  pub role : AuthRole
  pub username : Text
  pub division_id : Option ℕ

pub record NicAccount : Type 0 where
  pub address : Text
  pub division_id : Number
  pub disabled : Bool

pub record NicDivision : Type 0 where
  pub id : ℕ
  pub gn_officers : List Text

pub record NicHashAuthInput : Type 0 where
  pub session : NicSession
  pub account : Option NicAccount
  pub divisions : List NicDivision

pub data NicRefusal : Type 0 where
  only_officers no_such_account suspended no_division not_assigned : NicRefusal

-- The status of a refusal.
abbrev pub nic_status : NicRefusal → ℕ
nic_status no_such_account = 401
nic_status _ = 403

pub record NicGrant : Type 0 where
  pub gn_address : Text
  pub division_id : Number

-- `candidate.id === divisionId`
abbrev pub is_division_id : ℕ → Number → Bool
is_division_id id (integer (pos n)) = id == n
is_division_id id _ = false

-- `sameAddress(a, b)`
unfoldable pub same_officer : Text → Text → Bool
unfolding text_eq to_lower_case
same_officer a b =
    not (is_empty a) && not (is_empty b) && text_eq (to_lower_case a) (to_lower_case b)

abbrev pub is_officer_of : NicDivision → NicAccount → Bool
is_officer_of division account =
    any (λ officer. same_officer officer account.address) division.gn_officers

abbrev pub grant_in : NicAccount → Option NicDivision → Outcome NicRefusal NicGrant
grant_in account none = err no_division
grant_in account (some division) =
    if not (is_officer_of division account)
    then err not_assigned
    else ok (record { gn_address = account.address; division_id = account.division_id })

abbrev pub grant_to : Option NicAccount → List NicDivision → Outcome NicRefusal NicGrant
grant_to none divisions = err no_such_account
grant_to (some account) divisions =
    if account.disabled
    then err suspended
    else grant_in account
        (find (λ (d : NicDivision). is_division_id d.id account.division_id) divisions)

-- `authoriseNicHashSession({ session, account, divisions })`
unfoldable pub authorise_nic_hash_session : NicHashAuthInput → Outcome NicRefusal NicGrant
unfolding same_officer
authorise_nic_hash_session input = elim input.session.role [
  | admin ↦ err only_officers
  | gn ↦ grant_to input.account input.divisions
]
