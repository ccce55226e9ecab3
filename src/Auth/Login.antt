-- ===== src/Auth/Login.antt =====
-- packages/nextjs/app/api/auth/login/route.ts, POST. The route waits for the body, the account store
-- and the password's comparison, and other requests run there: its parts between these are
-- definitions of their own, and `post` is the route with no other request in between. What the
-- credentials come to is in Credentials.
pub mod Sound
pub mod Refused
mod Tests
use Prim.Native.Nat.{◌/◌}
use zk_voting.Prelude.{
  ℕ, ◌+◌, ◌*◌, ◌≡◌, Bool, true, false, not, ◌&&◌, ◌||◌, Option, none, some, List, [], ◌∷◌, ◌==◌,
  if◌then◌else◌,
}
use zk_voting.Prelude.Int.{pos}
use zk_voting.Prelude.Json.{text_or_empty, members_of, Json, string, JsonMembers, find_member}
use zk_voting.Prelude.Map.{Entries}
use zk_voting.Prelude.Outcome.{Outcome, ok, err, thrown, ◌>>=◌}
use zk_voting.Prelude.Text.{Text, codes, text_eq, trim, to_lower_case}
use zk_voting.Auth.AccountRecords.{AccountDisk, AccountStoreError, Crypto, GnAccountRecord}
use zk_voting.Auth.Accounts.{find_by_username, verify_password}
use zk_voting.Auth.LoginGuard.{
  Failures, LockStatus, LoginGuardOptions, record_failure, record_success, status_for,
}
use zk_voting.Auth.RateLimit.{RateLimiterOptions, Window, consume, reset}
use zk_voting.Auth.Relay.Value.{Number, integer, is_empty}
use zk_voting.Auth.Session.{AuthRole, admin, gn, SessionData, is_custom_mode}
use zk_voting.Auth.ClientIp.{before_comma, client_ip_from, or_unknown, real_ip}
use zk_voting.Auth.Credentials.{
  Granted, LoginAnswer, LoginConfig, LoginRuntime, Verdict, account_locked, admin_not_configured,
  admin_verdict, both_given, credentials_of, gn_verdict, grant_if, invalid_body,
  invalid_credentials, is_admin_name, locked_now, login_status, missing_credentials,
  not_custom_mode, of_members, safe_equals, session_not_configured, signed_in_as, store_unavailable,
  too_many_attempts, trimmed, uncaught, verdict_on,
}

abbrev pub rate_limit : RateLimiterOptions
rate_limit = record { limit = 5; window_ms = 60000 }

abbrev pub lockout : LoginGuardOptions
lockout = record { max_failures = 5; lockout_ms = 15 * 60000 }

-- `loginRateLimiter().consume(ip)`: the table afterwards, and the refusal if there is one
unfoldable pub arrive : ℕ → Text → Entries Window → Entries Window × Outcome LoginAnswer (Unit {0})
arrive now ip attempts =
    let (table, decision) = consume rate_limit now ip attempts in
    (table, if decision.allowed then ok tt else err (too_many_attempts decision.retry_after_ms))

-- `guard.status(username)`: the table afterwards, and the refusal of a locked name
unfoldable pub check_lock :
    ℕ → Text → Entries Failures → Entries Failures × Outcome LoginAnswer (Unit {0})
check_lock now username failures =
    let (table, lock) = status_for now username failures in
    (table, if lock.locked then err (account_locked lock.retry_after_ms) else ok tt)

-- The three readings of the clock of `recordFailure`, and that of `loggedInAt`.
pub record SettleTimes : Type 0 where
  pub checked_at : ℕ
  pub failed_at : ℕ
  pub reported_at : ℕ
  pub logged_in_at : ℕ

-- The tables of the limiter and of the guard.
pub record Throttles : Type 0 where
  pub attempts : Entries Window
  pub failures : Entries Failures

abbrev pub failure_answer : LockStatus → LoginAnswer
failure_answer status =
    if status.locked then locked_now status.retry_after_ms else invalid_credentials

abbrev pub division_number : Option Number → Option ℕ
division_number (some (integer (pos n))) = some n
division_number _ = none

-- The session that is saved; the division of a stored account is a natural number.
abbrev pub session_of : ℕ → Granted → SessionData
session_of now g = record {
  username = some g.username;
  role = some g.role;
  division_id = division_number g.division_id;
  must_change_password = g.must_change_password;
  logged_in_at = some now;
}

-- A request's effects: the tables afterwards, the answer, and the session saved, if any.
pub record LoginEffects : Type 0 where
  pub throttles : Throttles
  pub answer : LoginAnswer
  pub saved : Option SessionData

abbrev pub refuse_login : Throttles → LoginAnswer → LoginEffects
refuse_login t answer = record { throttles = t; answer = answer; saved = none }

-- `fail()`
abbrev pub fail_login : SettleTimes → Text → Throttles → LoginEffects
fail_login times username t =
    let (table, status) =
      record_failure lockout times.checked_at times.failed_at times.reported_at username
        t.failures in
    refuse_login (record t { failures = table }) (failure_answer status)

-- a sign-in, which has a session to save where one can be had
abbrev pub succeed_login : Bool → SettleTimes → Text → Granted → Throttles → LoginEffects
succeed_login has_session times ip granted t =
    let settled : Throttles = record {
      attempts = reset ip t.attempts;
      failures = record_success granted.username t.failures;
    } in
    if has_session
    then record {
      throttles = settled;
      answer = signed_in_as granted;
      saved = some (session_of times.logged_in_at granted);
    }
    else refuse_login settled session_not_configured

-- what the route does once the credentials are looked at
unfoldable pub settle : Bool → SettleTimes → Text → Text → Verdict → Throttles → LoginEffects
settle has_session times ip username (ok (some granted)) t =
    succeed_login has_session times ip granted t
settle has_session times ip username (ok none) t = fail_login times username t
settle has_session times ip username (err answer) t = refuse_login t answer
settle has_session times ip username thrown t = refuse_login t uncaught

-- A request with what the route finds in the server while it is handled.
pub record LoginRequest : Type 0 where
  pub ip : Text
  pub body : Option Json
  pub arrived_at : ℕ
  pub status_at : ℕ
  pub times : SettleTimes
  pub has_session : Bool

-- going on where there is no refusal
abbrev pub go_on :
    {A : Type 0} → (A → LoginEffects) → Throttles → Outcome LoginAnswer A → LoginEffects
go_on go t (ok a) = go a
go_on go t (err answer) = refuse_login t answer
go_on go t thrown = refuse_login t uncaught

-- the route once the body has been read
unfoldable pub sign_in_with :
    LoginConfig → LoginRuntime → AccountDisk → LoginRequest → Throttles → Text × Text → LoginEffects
unfolding check_lock verdict_on settle
sign_in_with config runtime accounts req t (username, password) =
    let (table, lock) = check_lock req.status_at username t.failures in
    let checked = record t { failures = table } in
    go_on
      (λ _.
        settle req.has_session req.times req.ip username
          (verdict_on config runtime accounts username password) checked)
      checked lock

-- `POST(req)`
unfoldable pub post :
    LoginConfig → LoginRuntime → AccountDisk → LoginRequest → Throttles → LoginEffects
unfolding arrive credentials_of sign_in_with
post config runtime accounts req t =
    if not (is_custom_mode config.chain_backend)
    then refuse_login t not_custom_mode
    else let (table, admitted) = arrive req.arrived_at req.ip t.attempts in
      let arrived = record t { attempts = table } in
      go_on
        (λ _.
          go_on (sign_in_with config runtime accounts req arrived) arrived
            (credentials_of req.body))
        arrived admitted
