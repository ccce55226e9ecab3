-- ===== src/Auth/Session/Gate.antt =====
-- packages/nextjs/services/auth/serverSession.ts, requireSession, and packages/nextjs/middleware.ts.
-- The session of the cookie is an argument: reading it throws where the secret is unusable.
pub mod Coherence
mod Tests
use zk_voting.Prelude.{
  ℕ, Bool, true, false, not, ◌&&◌, ◌||◌, Option, none, some, [], ◌∷◌, if◌then◌else◌,
}
use zk_voting.Prelude.Outcome.{Outcome, ok, err, thrown, ◌>>◌, guard}
use zk_voting.Prelude.Text.{Text, codes, text_eq, starts_with}
use zk_voting.Auth.Session.{
  AuthRole, admin, gn, same_role, SessionData, change_password_path, is_custom_mode,
  home_path_for_role, is_path_allowed_while_password_pending, is_path_allowed_for_role,
}

-- The data of a session that is signed in: `session.username` and `session.role` are truthy.
pub record SignedIn : Type 0 where
  pub username : Text
  pub role : AuthRole
  pub division_id : Option ℕ
  pub must_change_password : Bool
  pub logged_in_at : Option ℕ

abbrev is_true : Option Bool → Bool
is_true none = false
is_true (some b) = b

abbrev pub sign_in : Option Text → Option AuthRole → SessionData → Option SignedIn
sign_in (some (c ∷ s)) (some role) session = some (record {
  username = c ∷ s;
  role = role;
  division_id = session.division_id;
  must_change_password = is_true session.must_change_password;
  logged_in_at = session.logged_in_at;
})
sign_in _ _ _ = none

-- `!session.username || !session.role` refuses where this is `none`
abbrev pub signed_in : SessionData → Option SignedIn
signed_in session = sign_in session.username session.role session

-- The refusals of requireSession: statuses 503, 401, 403 and 403.
pub data SessionRefusal : Type 0 where
  not_configured sign_in_first wrong_role password_change_required : SessionRefusal

abbrev pub role_fits : Option AuthRole → AuthRole → Bool
role_fits none role = true
role_fits (some required) role = same_role role required

abbrev pub admit_session :
    Option AuthRole → Bool → Option SignedIn → Outcome SessionRefusal SignedIn
admit_session role allow_pending none = err sign_in_first
admit_session role allow_pending (some s) =
    guard (role_fits role s.role) wrong_role
    >> guard (not s.must_change_password || allow_pending) password_change_required
    >> ok s

-- `requireSession(role, { allowPasswordChangePending })`; no session where reading it throws
unfoldable pub require_session :
    Option AuthRole → Bool → Option SessionData → Outcome SessionRefusal SignedIn
require_session role allow_pending none = err not_configured
require_session role allow_pending (some session) =
    admit_session role allow_pending (signed_in session)

-- What the middleware answers: the request goes on, a JSON refusal, or a redirect to a page. The
-- login page is given the path asked for, with its query.
pub data Answer : Type 0 where
  next : Answer
  refuse : SessionRefusal → Answer
  redirect_to : Text → Answer
  login_with_next : Text → Answer
  login_config_error : Answer

abbrev pub is_api_path : Text → Bool
is_api_path pathname = starts_with pathname (codes "/api/")

abbrev pub on_pages : Bool → SessionRefusal → Answer → Answer
on_pages api refusal page = if api then refuse refusal else page

abbrev pub pass_signed_in : Text → SignedIn → Answer
pass_signed_in pathname s =
    let api = is_api_path pathname in
    if s.must_change_password && not (is_path_allowed_while_password_pending pathname)
    then on_pages api password_change_required (redirect_to change_password_path)
    else if text_eq pathname change_password_path && same_role s.role admin
    then redirect_to (home_path_for_role s.role)
    else if not (is_path_allowed_for_role pathname s.role)
    then on_pages api wrong_role (redirect_to (home_path_for_role s.role))
    else next

abbrev pub pass : Text → Option SignedIn → Answer
pass pathname none = on_pages (is_api_path pathname) sign_in_first (login_with_next pathname)
pass pathname (some s) = pass_signed_in pathname s

-- `middleware(req)` for the value of NEXT_PUBLIC_CHAIN_BACKEND, a path and the cookie's session
unfoldable pub middleware : Option Text → Text → Option SessionData → Answer
unfolding is_custom_mode is_path_allowed_while_password_pending is_path_allowed_for_role text_eq
    starts_with
middleware backend pathname session =
    if is_custom_mode backend
    then elim session [
      | none ↦ on_pages (is_api_path pathname) not_configured login_config_error
      | some s ↦ pass pathname (signed_in s)
    ]
    else next
