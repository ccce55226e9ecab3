-- ===== src/Auth/Credentials.antt =====
-- packages/nextjs/app/api/auth/login/route.ts, POST: what it reads of the body, and what the
-- credentials come to; with safeEquals of services/auth/crypto.ts.
use zk_voting.Prelude.{ℕ, Bool, false, not, ◌&&◌, ◌||◌, Option, none, some, List, [], if◌then◌else◌}
use zk_voting.Prelude.Json.{text_or_empty, members_of, Json, JsonMembers, find_member}
use zk_voting.Prelude.Outcome.{Outcome, ok, err, thrown}
use zk_voting.Prelude.Text.{Text, codes, text_eq, trim, to_lower_case}
use zk_voting.Auth.AccountRecords.{AccountDisk, AccountStoreError, Crypto, GnAccountRecord}
use zk_voting.Auth.Accounts.{find_by_username, verify_password}
use zk_voting.Auth.Relay.Value.{Number, is_empty}
use zk_voting.Auth.Session.{AuthRole, admin, gn}

-- `safeEquals(a, b)`, of the bytes of the texts
abbrev pub safe_equals : (Text → List ℕ) → Text → Text → Bool
safe_equals utf8 a b = text_eq (utf8 a) (utf8 b)

-- The environment of the server.
pub record LoginConfig : Type 0 where
  pub chain_backend : Option Text
  pub admin_username : Option Text
  pub admin_password_hash : Option Text

pub record LoginRuntime : Type 0 where
  pub crypto : Crypto
  pub utf8 : Text → List ℕ

-- Whose credentials they were.
pub record Granted : Type 0 where
  pub username : Text
  pub role : AuthRole
  pub division_id : Option Number
  pub must_change_password : Option Bool

-- What the route answers; the numbers are times to wait.
pub data LoginAnswer : Type 0 where
  not_custom_mode : LoginAnswer
  too_many_attempts account_locked locked_now : ℕ → LoginAnswer
  invalid_body missing_credentials invalid_credentials : LoginAnswer
  admin_not_configured store_unavailable session_not_configured : LoginAnswer
  uncaught : LoginAnswer
  signed_in_as : Granted → LoginAnswer

abbrev pub login_status : LoginAnswer → ℕ
login_status not_custom_mode = 404
login_status (too_many_attempts ms) = 429
login_status (account_locked ms) = 429
login_status (locked_now ms) = 429
login_status invalid_body = 400
login_status missing_credentials = 400
login_status invalid_credentials = 401
login_status admin_not_configured = 503
login_status store_unavailable = 503
login_status session_not_configured = 503
login_status uncaught = 500
login_status (signed_in_as g) = 200

abbrev pub both_given : Text → Text → Outcome LoginAnswer (Text × Text)
both_given username password =
    if is_empty username || is_empty password
    then err missing_credentials
    else ok (username, password)

-- The username and the password of a body, which is none where it is no JSON; `null` has no members.
abbrev pub of_members : Option JsonMembers → Outcome LoginAnswer (Text × Text)
of_members none = thrown
of_members (some ms) =
    both_given (to_lower_case (trim (text_or_empty (find_member (codes "username") ms))))
      (text_or_empty (find_member (codes "password") ms))

unfoldable pub credentials_of : Option Json → Outcome LoginAnswer (Text × Text)
unfolding trim to_lower_case text_eq
credentials_of none = err invalid_body
credentials_of (some body) = of_members (members_of body)

-- What the credentials come to: `ok none` is a failure of the login.
abbrev pub Verdict : Type 0
Verdict = Outcome LoginAnswer (Option Granted)

abbrev pub trimmed : Option Text → Text
trimmed none = []
trimmed (some s) = trim s

abbrev pub grant_if : Bool → Granted → Verdict
grant_if verified granted = if verified then ok (some granted) else ok none

abbrev pub admin_verdict : LoginRuntime → Text → Text → Text → Verdict
admin_verdict runtime admin_hash username password =
    if is_empty admin_hash
    then err admin_not_configured
    else grant_if (verify_password runtime.crypto password admin_hash) (record {
      username = username;
      role = admin;
      division_id = none;
      must_change_password = some false;
    })

abbrev pub gn_verdict :
    LoginRuntime → Text → Text → Outcome AccountStoreError (Option GnAccountRecord) → Verdict
gn_verdict runtime username password (ok none) = ok none
gn_verdict runtime username password (ok (some account)) =
    if account.disabled
    then ok none
    else grant_if (verify_password runtime.crypto password account.password_hash) (record {
      username = username;
      role = gn;
      division_id = some account.division_id;
      must_change_password = account.must_change_password;
    })
gn_verdict runtime username password _ = err store_unavailable

abbrev pub is_admin_name : LoginConfig → LoginRuntime → Text → Bool
is_admin_name config runtime username =
    let admin_username = to_lower_case (trimmed config.admin_username) in
    not (is_empty admin_username) && safe_equals runtime.utf8 username admin_username

-- the two branches of the route, on the accounts that it reads
unfoldable pub verdict_on : LoginConfig → LoginRuntime → AccountDisk → Text → Text → Verdict
unfolding trim to_lower_case text_eq find_by_username
verdict_on config runtime accounts username password =
    if is_admin_name config runtime username
    then admin_verdict runtime (trimmed config.admin_password_hash) username password
    else gn_verdict runtime username password (find_by_username username accounts)
