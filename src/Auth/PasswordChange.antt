-- ===== src/Auth/PasswordChange.antt =====
-- packages/nextjs/app/api/auth/password/route.ts, POST. The file of accounts is read three times,
-- with other requests in between: for the current password, by changePassword before its mutation,
-- and in its mutation.
pub mod Own
mod Tests
use zk_voting.Prelude.{
  ℕ, ◌*◌, ◌≡◌, Bool, true, false, not, Option, none, some, List, [], ◌∷◌, if◌then◌else◌,
}
use zk_voting.Prelude.Json.{text_or_empty, members_of, Json, JsonMembers, string, find_member}
use zk_voting.Prelude.Map.{Entries}
use zk_voting.Prelude.Outcome.{Outcome, ok, err, thrown}
use zk_voting.Prelude.Text.{Text, codes, text_eq}
use zk_voting.Auth.AccountRecords.{
  AccountDisk, AccountStoreError, Crypto, Draw, GnAccountRecord, PublicGnAccount,
}
use zk_voting.Auth.Accounts.{change_password, find_by_username, verify_password}
use zk_voting.Auth.PasswordPolicy.{PasswordProblem, password_problem}
use zk_voting.Auth.RateLimit.{RateLimiterOptions, Window, consume, reset}
use zk_voting.Auth.Relay.Value
use zk_voting.Auth.Relay.Value.{is_empty}
use zk_voting.Auth.Session.{AuthRole, admin, gn, SessionData, is_custom_mode}
use zk_voting.Auth.Session.Gate.{SessionRefusal, SignedIn, require_session}

abbrev pub password_rate_limit : RateLimiterOptions
password_rate_limit = record { limit = 10; window_ms = 15 * 60000 }

pub data PasswordAnswer : Type 0 where
  not_custom_mode admin_is_fixed invalid_body no_current_password : PasswordAnswer
  store_unavailable sign_in_first wrong_password not_saved uncaught : PasswordAnswer
  no_session : SessionRefusal → PasswordAnswer
  too_many_changes : ℕ → PasswordAnswer
  bad_new_password : PasswordProblem → PasswordAnswer
  store_refused : AccountStoreError → PasswordAnswer
  changed : Text → PasswordAnswer

-- The statuses of the lines of the audit log.
pub data ChangeLine : Type 0 where
  no_such_account wrong_current_password change_success : ChangeLine
  change_rejected : AccountStoreError → ChangeLine

-- A request, with what the route draws and finds while it handles it.
pub record PasswordRequest : Type 0 where
  pub session : Option SessionData
  pub ip : Text
  pub body : Option Json
  pub now : ℕ
  pub draw : Draw
  pub writable : Bool
  pub read_first : AccountDisk
  pub seen : AccountDisk

-- What a request leaves behind; `gate_lifted` is the saving of a session that owes no change.
pub record PasswordEffects : Type 0 where
  pub attempts : Entries Window
  pub disk : AccountDisk
  pub answer : PasswordAnswer
  pub audit : List ChangeLine
  pub gate_lifted : Bool

abbrev pub refuse_change :
    Entries Window → AccountDisk → List ChangeLine → PasswordAnswer → PasswordEffects
refuse_change attempts disk audit answer = record {
  attempts = attempts;
  disk = disk;
  answer = answer;
  audit = audit;
  gate_lifted = false;
}

-- the end of the route, on what changePassword comes to
abbrev pub after_change :
    PasswordRequest
    → Entries Window
    → GnAccountRecord
    → AccountDisk × Outcome AccountStoreError PublicGnAccount
    → PasswordEffects
after_change req attempts account (disk, ok p) = record {
  attempts = reset req.ip attempts;
  disk = disk;
  answer = changed account.username;
  audit = change_success ∷ [];
  gate_lifted = true;
}
after_change req attempts account (disk, err e) =
    refuse_change attempts disk (change_rejected e ∷ []) (store_refused e)
after_change req attempts account (disk, thrown) = refuse_change attempts disk [] not_saved

abbrev pub change_for :
    Crypto
    → PasswordRequest
    → Entries Window
    → AccountDisk
    → Text
    → Text
    → GnAccountRecord
    → PasswordEffects
change_for crypto req attempts disk current new account =
    if account.disabled
    then refuse_change attempts disk (no_such_account ∷ []) sign_in_first
    else if not (verify_password crypto current account.password_hash)
    then refuse_change attempts disk (wrong_current_password ∷ []) wrong_password
    else after_change req attempts account
        (change_password crypto req.writable req.draw account.username new req.seen disk)

abbrev pub change_found :
    Crypto
    → PasswordRequest
    → Entries Window
    → AccountDisk
    → Text
    → Text
    → Outcome AccountStoreError (Option GnAccountRecord)
    → PasswordEffects
change_found crypto req attempts disk current new (ok none) =
    refuse_change attempts disk (no_such_account ∷ []) sign_in_first
change_found crypto req attempts disk current new (ok (some account)) =
    change_for crypto req attempts disk current new account
change_found crypto req attempts disk current new _ =
    refuse_change attempts disk [] store_unavailable

abbrev pub change_if_good :
    (Unit {0} → PasswordEffects)
    → Entries Window
    → AccountDisk
    → Option PasswordProblem
    → PasswordEffects
change_if_good go attempts disk none = go tt
change_if_good go attempts disk (some problem) =
    refuse_change attempts disk [] (bad_new_password problem)

abbrev pub with_passwords :
    Crypto
    → PasswordRequest
    → SignedIn
    → Entries Window
    → AccountDisk
    → Text
    → Text
    → PasswordEffects
with_passwords crypto req s attempts disk current new =
    if is_empty current
    then refuse_change attempts disk [] no_current_password
    else change_if_good
        (λ _.
          change_found crypto req attempts disk current new
            (find_by_username s.username req.read_first))
        attempts disk (password_problem (Value.string new))

abbrev pub with_members :
    Crypto
    → PasswordRequest
    → SignedIn
    → Entries Window
    → AccountDisk
    → Option JsonMembers
    → PasswordEffects
with_members crypto req s attempts disk none = refuse_change attempts disk [] uncaught
with_members crypto req s attempts disk (some ms) =
    with_passwords crypto req s attempts disk
      (text_or_empty (find_member (codes "currentPassword") ms))
      (text_or_empty (find_member (codes "newPassword") ms))

abbrev pub with_body :
    Crypto
    → PasswordRequest
    → SignedIn
    → Entries Window
    → AccountDisk
    → Option Json
    → PasswordEffects
with_body crypto req s attempts disk none = refuse_change attempts disk [] invalid_body
with_body crypto req s attempts disk (some body) =
    with_members crypto req s attempts disk (members_of body)

-- the route from the limit on
unfoldable pub limited_change :
    Crypto → PasswordRequest → SignedIn → Entries Window → AccountDisk → PasswordEffects
unfolding find_by_username change_password password_problem text_eq
limited_change crypto req s attempts disk =
    let (table, decision) = consume password_rate_limit req.now req.ip attempts in
    if decision.allowed
    then with_body crypto req s table disk req.body
    else refuse_change table disk [] (too_many_changes decision.retry_after_ms)

abbrev pub for_role :
    Crypto → PasswordRequest → SignedIn → Entries Window → AccountDisk → AuthRole → PasswordEffects
for_role crypto req s attempts disk admin = refuse_change attempts disk [] admin_is_fixed
for_role crypto req s attempts disk gn = limited_change crypto req s attempts disk

abbrev pub for_session :
    Crypto
    → PasswordRequest
    → Entries Window
    → AccountDisk
    → Outcome SessionRefusal SignedIn
    → PasswordEffects
for_session crypto req attempts disk (ok s) = for_role crypto req s attempts disk s.role
for_session crypto req attempts disk (err refusal) =
    refuse_change attempts disk [] (no_session refusal)
for_session crypto req attempts disk thrown = refuse_change attempts disk [] uncaught

-- `POST(req)`
unfoldable pub post_password :
    Option Text → Crypto → PasswordRequest → Entries Window → AccountDisk → PasswordEffects
unfolding is_custom_mode require_session limited_change
post_password backend crypto req attempts disk =
    if not (is_custom_mode backend)
    then refuse_change attempts disk [] not_custom_mode
    else for_session crypto req attempts disk (require_session none true req.session)
