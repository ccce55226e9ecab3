-- ===== src/Auth/Session/Gate/Coherence.antt =====
-- The middleware and requireSession decide alike, and the middleware's redirects end.
use zk_voting.Prelude.{
  ℕ, ◌≡◌, refl, inl, inr, ◌⊎◌, Bool-cases, Bool, true, false, not, ◌&&◌, ◌||◌, Option, none, some,
  arith, if◌then◌else◌,
}
use zk_voting.Prelude.Outcome.{Outcome, ok, err, thrown}
use zk_voting.Prelude.Text.{Text, codes, text_eq, text_eq_sound, starts_with}
use zk_voting.Auth.Session.{
  AuthRole, admin, gn, same_role, SessionData, change_password_path, is_custom_mode,
  home_path_for_role, is_path_allowed_while_password_pending, is_path_allowed_for_role,
}
use zk_voting.Auth.Session.Gate.{
  SignedIn, signed_in, SessionRefusal, not_configured, sign_in_first, wrong_role,
  password_change_required, require_session, role_fits, admit_session, Answer, next, refuse,
  redirect_to, is_api_path, pass_signed_in, pass, middleware,
}

-- The HTTP status of a refusal.
abbrev pub refusal_code : SessionRefusal → ℕ
refusal_code not_configured = 503
refusal_code sign_in_first = 401
refusal_code wrong_role = 403
refusal_code password_change_required = 403

abbrev pub session_code : Outcome SessionRefusal SignedIn → ℕ
session_code (ok s) = 200
session_code (err e) = refusal_code e
session_code thrown = 500

abbrev pub answer_code : Answer → ℕ
answer_code next = 200
answer_code (refuse e) = refusal_code e
answer_code _ = 307

-- The role that a path is for, if it is for one only.
abbrev pub required_role : Text → Option AuthRole
required_role pathname =
    if starts_with pathname (codes "/voting/admin")
      || starts_with pathname (codes "/api/gn-accounts")
      || starts_with pathname (codes "/api/voter-roll")
    then some admin
    else if starts_with pathname (codes "/gn")
    then some gn
    else none

role_fits_if :
    (for_admin for_gn : Bool) (role : AuthRole)
    → (if for_admin then same_role role admin else if for_gn then same_role role gn else true)
      ≡ role_fits (if for_admin then some admin else if for_gn then some gn else none) role
role_fits_if true for_gn role = refl
role_fits_if false true role = refl
role_fits_if false false role = refl

role_cases : (r : AuthRole) → (r ≡ admin) ⊎ (r ≡ gn)
role_cases admin = inl refl
role_cases gn = inr refl

allowed-role_fits :
    (pathname : Text) (role : AuthRole)
    → is_path_allowed_for_role pathname role ≡ role_fits (required_role pathname) role
unfolding is_path_allowed_for_role
allowed-role_fits pathname role = role_fits_if _ _ role

-- What the middleware answers a signed-in operator, by what it asks about the path.
abbrev decide : Bool → Bool → Bool → Bool → SignedIn → Answer
decide exempt change allowed api s =
    if s.must_change_password && not exempt
    then (if api then refuse password_change_required else redirect_to change_password_path)
    else if change && same_role s.role admin
    then redirect_to (home_path_for_role s.role)
    else if not allowed
    then (if api then refuse wrong_role else redirect_to (home_path_for_role s.role))
    else next

decide_agrees :
    (exempt change allowed api : Bool) (role : Option AuthRole) (s : SignedIn)
    → allowed ≡ role_fits role s.role
    → api ≡ true
    → exempt ≡ false
    → change ≡ false
    → answer_code (decide exempt change allowed api s)
      ≡ session_code (admit_session role false (some s))
decide_agrees exempt change allowed api role s fits is_api not_exempt not_change = ground arith

decide_redirect :
    (exempt change allowed api : Bool) (s : SignedIn) (target : Text)
    → decide exempt change allowed api s ≡ redirect_to target
    → ((target ≡ change_password_path) × (s.must_change_password ≡ true))
      ⊎ ((target ≡ home_path_for_role s.role)
          × ((s.must_change_password && not exempt) ≡ false)
          × ((allowed && not (change && same_role s.role admin)) ≡ false))
decide_redirect exempt change allowed api s target h = ground arith

signed_in_agree :
    (pathname : Text) (s : SignedIn)
    → is_api_path pathname ≡ true
    → is_path_allowed_while_password_pending pathname ≡ false
    → answer_code (pass_signed_in pathname s)
      ≡ session_code (admit_session (required_role pathname) false (some s))
unfolding is_path_allowed_while_password_pending
signed_in_agree pathname s api exempt =
    let change : text_eq pathname change_password_path ≡ false = ground arith in
    decide_agrees (is_path_allowed_while_password_pending pathname)
      (text_eq pathname change_password_path) (is_path_allowed_for_role pathname s.role)
      (is_api_path pathname) (required_role pathname) s (allowed-role_fits pathname s.role) api
      exempt change

pass_agree :
    (pathname : Text) (s : Option SignedIn)
    → is_api_path pathname ≡ true
    → is_path_allowed_while_password_pending pathname ≡ false
    → answer_code (pass pathname s) ≡ session_code (admit_session (required_role pathname) false s)
pass_agree pathname none api exempt = rw api refl
pass_agree pathname (some s) api exempt = signed_in_agree pathname s api exempt

-- On an API path that is not exempt from the change of password, the middleware and requireSession,
-- asked for the role that the path is for, give one status to every session.
pub middleware-require_session :
    (backend : Option Text) (pathname : Text) (session : Option SessionData)
    → is_custom_mode backend ≡ true
    → is_api_path pathname ≡ true
    → is_path_allowed_while_password_pending pathname ≡ false
    → answer_code (middleware backend pathname session)
      ≡ session_code (require_session (required_role pathname) false session)
unfolding middleware require_session
middleware-require_session backend pathname none custom api exempt = rw (custom, api) refl
middleware-require_session backend pathname (some session) custom api exempt =
    rw custom (pass_agree pathname (signed_in session) api exempt)

pass-next :
    (pathname : Text) (m : Option SignedIn)
    → pass pathname m ≡ next
    → (s : SignedIn) × (m ≡ some s)
      × (is_path_allowed_for_role pathname s.role ≡ true)
      × ((not s.must_change_password || is_path_allowed_while_password_pending pathname) ≡ true)
pass-next pathname none h = absurd (ground arith)
pass-next pathname (some s) h = (s, refl, ground arith, ground arith)

-- A request that the middleware lets through has a session with a name, whose role may use the path
-- and which owes no change of password unless the path is exempt.
pub middleware-next :
    (backend : Option Text) (pathname : Text) (session : Option SessionData)
    → is_custom_mode backend ≡ true
    → middleware backend pathname session ≡ next
    → (found : SessionData) × (s : SignedIn) × (session ≡ some found)
      × (signed_in found ≡ some s)
      × (is_path_allowed_for_role pathname s.role ≡ true)
      × ((not s.must_change_password || is_path_allowed_while_password_pending pathname) ≡ true)
unfolding middleware
middleware-next backend pathname none custom h = absurd (ground arith)
middleware-next backend pathname (some session) custom h =
    let (s, is, allowed, owes) = pass-next pathname (signed_in session) (rw custom at h) in
    (session, s, refl, is, allowed, owes)

exempt-allowed :
    (pathname : Text) (role : AuthRole)
    → is_path_allowed_while_password_pending pathname ≡ true
    → is_path_allowed_for_role pathname role ≡ true
unfolding is_path_allowed_while_password_pending is_path_allowed_for_role starts_with
exempt-allowed pathname role h = elim (Bool-cases (text_eq pathname change_password_path)) [
  | inl is ↦ rw (text_eq_sound pathname _ is) refl
  | inr not_change ↦ elim (Bool-cases (text_eq pathname (codes "/api/auth/password"))) [
    | inl is ↦ rw (text_eq_sound pathname _ is) refl
    | inr not_password ↦ elim (Bool-cases (text_eq pathname (codes "/api/auth/session"))) [
      | inl is ↦ rw (text_eq_sound pathname _ is) refl
      | inr not_session ↦
          rw (text_eq_sound pathname _ (rw (not_change, not_password, not_session) at h)) refl
    ]
  ]
]

change_settles :
    (s : SignedIn)
    → (same_role s.role admin && s.must_change_password) ≡ false
    → s.must_change_password ≡ true
    → pass_signed_in change_password_path s ≡ next
unfolding is_path_allowed_while_password_pending is_path_allowed_for_role text_eq starts_with
change_settles s admins owes = elim (role_cases s.role) [
  | inl is ↦ absurd (ground arith)
  | inr is ↦ rw (owes, is) refl
]

home_settles :
    (s : SignedIn)
    → s.must_change_password ≡ false
    → pass_signed_in (home_path_for_role s.role) s ≡ next
unfolding is_path_allowed_while_password_pending is_path_allowed_for_role text_eq starts_with
home_settles s owes = elim (role_cases s.role) [
  | inl is ↦ rw (owes, is) refl
  | inr is ↦ rw (owes, is) refl
]

nothing_owed :
    (owes exempt allowed change is_admin : Bool)
    → (is_admin && owes) ≡ false
    → (owes && not exempt) ≡ false
    → (allowed && not (change && is_admin)) ≡ false
    → (exempt ≡ true → allowed ≡ true)
    → owes ≡ false
nothing_owed owes exempt allowed change is_admin admins gate kept allows = ground arith

pass_settles :
    (pathname target : Text) (s : SignedIn)
    → (same_role s.role admin && s.must_change_password) ≡ false
    → pass_signed_in pathname s ≡ redirect_to target
    → pass_signed_in target s ≡ next
pass_settles pathname target s admins h =
    elim (decide_redirect (is_path_allowed_while_password_pending pathname)
      (text_eq pathname change_password_path) (is_path_allowed_for_role pathname s.role)
      (is_api_path pathname) s target h) [
        | inl (same, owes) ↦ rw same (change_settles s admins owes)
        | inr (same, gate, kept) ↦ rw same (
            home_settles s
              (nothing_owed _ _ _ _ _ admins gate kept (exempt-allowed pathname s.role)))
      ]

-- A page that the middleware sends a signed-in operator to lets the operator in, if no admin owes
-- a change of password.
pub redirect_settles :
    (backend : Option Text) (pathname target : Text) (session : SessionData) (s : SignedIn)
    → is_custom_mode backend ≡ true
    → signed_in session ≡ some s
    → (same_role s.role admin && s.must_change_password) ≡ false
    → middleware backend pathname (some session) ≡ redirect_to target
    → middleware backend target (some session) ≡ next
unfolding middleware
redirect_settles backend pathname target session s custom is admins h =
    rw (custom, is) (pass_settles pathname target s admins (rw (custom, is) at h))
