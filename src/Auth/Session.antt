-- ===== src/Auth/Session.antt =====
-- packages/nextjs/services/auth/session.ts: the session, the configuration of its cookie, and the
-- paths that a role may use; with utils/chainMode.ts.
pub mod Gate
use zk_voting.Prelude.{
  ℕ, ◌*◌, ◌≡◌, Bool, true, false, not, ◌&&◌, ◌||◌, Option, none, some, List, [], length, ltb, ◌==◌,
  if◌then◌else◌,
}
use zk_voting.Prelude.Outcome.{Outcome, ok, err}
use zk_voting.Prelude.Text.{Text, codes, text_eq, trim, to_lower_case, starts_with}

pub data AuthRole : Type 0 where
  admin gn : AuthRole

abbrev pub same_role : AuthRole → AuthRole → Bool
same_role admin admin = true
same_role gn gn = true
same_role _ _ = false

-- The cookie's session; iron-session gives one with no field set where there is no valid cookie.
pub record SessionData : Type 0 where
  pub username : Option Text
  pub role : Option AuthRole
  pub division_id : Option ℕ
  pub must_change_password : Option Bool
  pub logged_in_at : Option ℕ

abbrev pub change_password_path : Text
change_password_path = codes "/change-password"

abbrev pub session_ttl_seconds : ℕ
session_ttl_seconds = 8 * 60 * 60

abbrev pub session_cookie_name : Text
session_cookie_name = codes "sl_vote_session"

abbrev pub min_session_secret_length : ℕ
min_session_secret_length = 32

-- The options that vary; `httpOnly`, `sameSite` and `path` are constants of the source.
pub record SessionOptions : Type 0 where
  pub password : Text
  pub cookie_name : Text
  pub ttl : ℕ
  pub secure : Bool
  pub max_age : ℕ

-- The length that was got stands in the message.
pub data SessionConfigError : Type 0 where
  secret_too_short : ℕ → SessionConfigError

abbrev pub or_empty : Option Text → Text
or_empty none = []
or_empty (some s) = s

-- `buildSessionOptions(secret, isProduction)`; the exception is the outcome `err`
unfoldable pub build_session_options :
    Option Text → Bool → Outcome SessionConfigError SessionOptions
unfolding trim
build_session_options secret is_production =
    let password = trim (or_empty secret) in
    if ltb (length password) min_session_secret_length
    then err (secret_too_short (length password))
    else ok (record {
      password = password;
      cookie_name = session_cookie_name;
      ttl = session_ttl_seconds;
      secure = is_production;
      max_age = session_ttl_seconds;
    })

pub data ChainMode : Type 0 where
  hardhat custom : ChainMode

-- `resolveChainMode(raw)`
unfoldable pub resolve_chain_mode : Option Text → ChainMode
unfolding trim to_lower_case text_eq
resolve_chain_mode none = hardhat
resolve_chain_mode (some raw) =
    if text_eq (to_lower_case (trim raw)) (codes "custom") then custom else hardhat

-- `isCustomMode()`
unfoldable pub is_custom_mode : Option Text → Bool
unfolding resolve_chain_mode
is_custom_mode raw = elim (resolve_chain_mode raw) [ hardhat ↦ false | custom ↦ true ]

-- `homePathForRole(role)`
abbrev pub home_path_for_role : AuthRole → Text
home_path_for_role admin = codes "/voting/admin"
home_path_for_role gn = codes "/gn"

-- `isPathAllowedWhilePasswordPending(pathname)`
unfoldable pub is_path_allowed_while_password_pending : Text → Bool
unfolding text_eq
is_path_allowed_while_password_pending pathname =
    text_eq pathname change_password_path
    || text_eq pathname (codes "/api/auth/password")
    || text_eq pathname (codes "/api/auth/session")
    || text_eq pathname (codes "/api/auth/logout")

-- `isPathAllowedForRole(pathname, role)`
unfoldable pub is_path_allowed_for_role : Text → AuthRole → Bool
unfolding starts_with
is_path_allowed_for_role pathname role =
    if starts_with pathname (codes "/voting/admin")
      || starts_with pathname (codes "/api/gn-accounts")
      || starts_with pathname (codes "/api/voter-roll")
    then same_role role admin
    else if starts_with pathname (codes "/gn")
    then same_role role gn
    else true
