-- ===== src/Auth/Relay/Executor.antt =====
-- packages/nextjs/services/auth/relayExecutor.ts, executeRelayCall and resolveAdminKey. Reading the
-- divisions from the chain and submitting the signed transaction (viem) are arguments.
pub mod Audit
pub mod Signing
mod Tests
use zk_voting.Prelude.{
  ℕ, ◌≡◌, Bool, true, false, not, ◌&&◌, ◌||◌, Option, none, some, List, [], ◌∷◌, ◌++◌, ◌==◌, any,
  find, if◌then◌else◌,
}
use zk_voting.Prelude.Outcome.{Outcome, ok, err, thrown, ◌>>=◌, ◌>>◌, guard}
use zk_voting.Prelude.Text.{Text, text_eq, trim, to_lower_case}
use zk_voting.Auth.AccountRecords.{
  GnAccountRecord, AccountStoreError, AccountDisk, Crypto, is_private_key,
}
use zk_voting.Auth.Accounts.{find_by_username, decrypt_private_key}
use zk_voting.Auth.Relay.Value.{is_empty}
use zk_voting.Auth.Relay.Policy.{
  voting, election_registry, nic_registry, AbiEntry, KnownContract, RelayRequest, Authorised,
  Refusal, authorize_relay_call,
}
use zk_voting.Auth.Session.{AuthRole, admin, gn}
use zk_voting.Auth.Relay.Contracts.{DivisionSummary, Deployment, build_known_contracts}

-- The reasons of a rejection.
pub data Rejection : Type 0 where
  no_contracts division_gone store_unavailable account_gone not_officer : Rejection
  no_admin_key key_sealed : Rejection
  refused : Refusal → Rejection

abbrev pub status_of : Rejection → ℕ
status_of no_contracts = 503
status_of division_gone = 403
status_of store_unavailable = 503
status_of account_gone = 403
status_of not_officer = 403
status_of no_admin_key = 503
status_of key_sealed = 503
status_of (refused r) = r.status

-- What the server holds when a call comes in; the divisions are none where reading them throws.
-- `has_account` is whether viem's privateKeyToAccount makes an account of a key, and does not throw.
pub record Server : Type 0 where
  pub divisions : Option (List DivisionSummary)
  pub deployment : Deployment
  pub accounts : AccountDisk
  pub crypto : Crypto
  pub admin_relay_private_key : Option Text
  pub has_account : Text → Bool

-- The session of the caller.
pub record Caller : Type 0 where
  pub username : Text
  pub role : AuthRole
  pub division_id : Option ℕ

abbrev pub or_reject : {A : Type 0} → Option A → Rejection → Outcome Rejection A
or_reject none r = err r
or_reject (some a) r = ok a

abbrev pub known_of :
    Deployment
    → Option (List DivisionSummary)
    → Outcome Rejection (List DivisionSummary × List KnownContract)
known_of deployment none = err no_contracts
known_of deployment (some divisions) =
    or_reject (build_known_contracts deployment divisions) no_contracts >>= λ known.
    ok (divisions, known)

abbrev pub is_id : Option ℕ → ℕ → Bool
is_id none id = false
is_id (some n) id = id == n

-- a failure of the store, whatever it is
abbrev pub account_read :
    Outcome AccountStoreError (Option GnAccountRecord) → Outcome Rejection (Option GnAccountRecord)
account_read (ok found) = ok found
account_read _ = err store_unavailable

abbrev pub enabled_account : Option GnAccountRecord → Outcome Rejection GnAccountRecord
enabled_account none = err account_gone
enabled_account (some account) = if account.disabled then err account_gone else ok account

unfoldable pub is_officer : DivisionSummary → GnAccountRecord → Bool
unfolding text_eq to_lower_case
is_officer division account =
    any (λ officer. text_eq (to_lower_case officer) (to_lower_case account.address))
      division.gn_officers

-- the checks of a GN officer: the session's division, the account, and the office on the chain
unfoldable pub check_officer :
    Server → Caller → List DivisionSummary → Outcome Rejection (DivisionSummary × GnAccountRecord)
unfolding is_officer find_by_username
check_officer server caller divisions = do
  division ←
      or_reject (find (λ (d : DivisionSummary). is_id caller.division_id d.id) divisions)
        division_gone
  found ← account_read (find_by_username caller.username server.accounts)
  account ← enabled_account found
  guard (is_officer division account) not_officer
  ok (division, account)

abbrev pub refused_as : Outcome Refusal Authorised → Outcome Rejection Authorised
refused_as (ok a) = ok a
refused_as (err r) = err (refused r)
refused_as thrown = thrown

abbrev admin_key : Text → Outcome Rejection Text
admin_key key = if is_private_key key then ok key else err no_admin_key

-- `resolveAdminKey()`
unfoldable pub resolve_admin_key : Option Text → Outcome Rejection Text
unfolding trim
resolve_admin_key none = err no_admin_key
resolve_admin_key (some raw) = admin_key (trim raw)

pub record Signed : Type 0 where
  pub private_key : Text
  pub authorised : Authorised

unfoldable pub prepare_role :
    AuthRole
    → Server
    → Caller
    → RelayRequest
    → List DivisionSummary
    → List KnownContract
    → Outcome Rejection Signed
unfolding resolve_admin_key check_officer decrypt_private_key
prepare_role admin server caller request divisions known = do
  authorised ← refused_as (
      authorize_relay_call
        (record { role = admin; request = request; known = known; gn_division_contract = none }))
  key ← resolve_admin_key server.admin_relay_private_key
  ok (record { private_key = key; authorised = authorised })
prepare_role gn server caller request divisions known = do
  officer ← check_officer server caller divisions
  authorised ← refused_as (
      authorize_relay_call (record {
        role = gn;
        request = request;
        known = known;
        gn_division_contract = some officer.0.voting_contract;
      }))
  key ← or_reject (decrypt_private_key server.crypto officer.1) key_sealed
  ok (record { private_key = key; authorised = authorised })

-- `executeRelayCall` as far as the signature
unfoldable pub prepare : Server → Caller → RelayRequest → Outcome Rejection Signed
unfolding prepare_role build_known_contracts
prepare server caller request = do
  loaded ← known_of server.deployment server.divisions
  prepare_role caller.role server caller request loaded.0 loaded.1

-- What comes of a submitted transaction: mined with success or not, or an error with the name and
-- the message that describeRevert finds.
pub data Submission : Type 0 where
  success reverted : Text → ℕ → Submission
  failed : Option Text → Text → Submission

-- The status of an audit line.
pub data AuditStatus : Type 0 where
  rejected : Rejection → AuditStatus
  mined_success mined_reverted : Text → ℕ → AuditStatus
  failed_with : Text → AuditStatus

pub data RelayOutcome : Type 0 where
  relayed : Text → ℕ → RelayOutcome
  failure : ℕ → RelayOutcome

pub record Executed : Type 0 where
  pub outcome : RelayOutcome
  pub audit : List AuditStatus
  pub signed : Option Signed

abbrev pub or_message : Option Text → Text → Text
or_message none message = message
or_message (some name) message = name

abbrev pub submitted : Signed → Submission → Executed
submitted s (success hash block) = record {
  outcome = relayed hash block;
  audit = mined_success hash block ∷ [];
  signed = some s;
}
submitted s (reverted hash block) = record {
  outcome = failure 400;
  audit = mined_reverted hash block ∷ [];
  signed = some s;
}
submitted s (failed name message) = record {
  outcome = failure 400;
  audit = failed_with (or_message name message) ∷ [];
  signed = some s;
}

-- the end of the function; the account of the key is made before its `try`
abbrev pub conclude :
    (Text → Bool) → (Signed → Submission) → Outcome Rejection Signed → Outcome (Unit {0}) Executed
conclude has_account submit (ok s) =
    if has_account s.private_key then ok (submitted s (submit s)) else thrown
conclude has_account submit (err r) =
    ok (record { outcome = failure (status_of r); audit = rejected r ∷ []; signed = none })
conclude has_account submit thrown = thrown

-- `executeRelayCall({ session, request })`; `submit` is what the chain makes of the transaction
unfoldable pub execute_relay_call :
    (Signed → Submission) → Server → Caller → RelayRequest → Outcome (Unit {0}) Executed
unfolding prepare
execute_relay_call submit server caller request =
    conclude server.has_account submit (prepare server caller request)
