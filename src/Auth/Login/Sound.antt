-- ===== src/Auth/Login/Sound.antt =====
-- Who is signed in, and that a failure does not tell why.
use zk_voting.Prelude.{
  ◌≡◌, refl, ap, ◌∙◌, ◌⊎◌, inl, inr, Bool, true, false, Option, none, some, Bool-cases,
  if◌then◌else◌,
}
use zk_voting.Prelude.Outcome.{Outcome, ok, err, thrown}
use zk_voting.Prelude.Text.{Text}
use zk_voting.Auth.AccountRecords.{AccountDisk, AccountStoreError, GnAccountRecord}
use zk_voting.Auth.Accounts.{find_by_username, verify_password}
use zk_voting.Auth.LoginGuard.{status_for}
use zk_voting.Auth.RateLimit.{consume}
use zk_voting.Auth.Relay.Value.{is_empty}
use zk_voting.Auth.Session.{admin, gn, SessionData, is_custom_mode}
use zk_voting.Auth.Credentials.{
  LoginConfig, LoginRuntime, LoginAnswer, signed_in_as, admin_not_configured, Granted, Verdict,
  credentials_of, verdict_on, is_admin_name, admin_verdict, gn_verdict, grant_if, trimmed,
}
use zk_voting.Auth.Login.{
  LoginRequest, LoginEffects, Throttles, SettleTimes, rate_limit, arrive, check_lock, settle,
  sign_in_with, go_on, session_of, post,
}

-- The admin's grant: the name and the password of the environment.
pub record IsAdminGrant (config : LoginConfig) (runtime : LoginRuntime) (username password : Text)
    (g : Granted) : Type 0 where
  pub name : is_admin_name config runtime username ≡ true
  pub verified : verify_password runtime.crypto password (trimmed config.admin_password_hash) ≡ true
  pub grant : g ≡ record {
    username = username;
    role = admin;
    division_id = none;
    must_change_password = some false;
  }

-- An officer's grant: an enabled account of the name with that password.
pub record IsOfficerGrant (runtime : LoginRuntime) (accounts : AccountDisk)
    (username password : Text) (g : Granted) (account : GnAccountRecord) : Type 0 where
  pub found : find_by_username username accounts ≡ ok (some account)
  pub enabled : account.disabled ≡ false
  pub verified : verify_password runtime.crypto password account.password_hash ≡ true
  pub grant : g ≡ record {
    username = username;
    role = gn;
    division_id = some account.division_id;
    must_change_password = account.must_change_password;
  }

abbrev pub IsEntitled : LoginConfig → LoginRuntime → AccountDisk → Text → Text → Granted → Type 0
IsEntitled config runtime accounts username password g =
    IsAdminGrant config runtime username password g
    ⊎ ((account : GnAccountRecord) × IsOfficerGrant runtime accounts username password g account)

granted_if :
    (b : Bool) (g h : Granted)
    → ◌≡◌ {A = Verdict} (grant_if b g) (ok (some h))
    → (b ≡ true) × (h ≡ g)
granted_if true g h e = (refl, cc)
granted_if false g h e = absurd (cc)

module _ (config : LoginConfig) (runtime : LoginRuntime) (accounts : AccountDisk) where
  module _ (username password : Text) (g : Granted) where
    officer-IsEntitled :
        (found : Outcome AccountStoreError (Option GnAccountRecord))
        → find_by_username username accounts ≡ found
        → gn_verdict runtime username password found ≡ ok (some g)
        → IsEntitled config runtime accounts username password g
    officer-IsEntitled (ok none) e h = absurd (cc)
    officer-IsEntitled (err r) e h = absurd (cc)
    officer-IsEntitled thrown e h = absurd (cc)
    officer-IsEntitled (ok (some account)) e h = elim (Bool-cases account.disabled) [
      | inl off ↦ absurd (let bad : ◌≡◌ {A = Verdict} (ok none) (ok (some g)) = rw off at h in cc)
      | inr on ↦
          let (verified, grant) = granted_if _ _ g (rw on at h) in
          inr (account, record { found = e; enabled = on; verified = verified; grant = grant })
    ]

    admin-IsEntitled :
        is_admin_name config runtime username ≡ true
        → admin_verdict runtime (trimmed config.admin_password_hash) username password ≡ ok (some g)
        → IsEntitled config runtime accounts username password g
    admin-IsEntitled name h = elim (Bool-cases (is_empty (trimmed config.admin_password_hash))) [
      | inl e ↦
          absurd
            (let bad : ◌≡◌ {A = Verdict} (err admin_not_configured) (ok (some g)) = rw e at h in cc)
      | inr e ↦
          let (verified, grant) = granted_if _ _ g (rw e at h) in
          inl (record { name = name; verified = verified; grant = grant })
    ]

    verdict-IsEntitled :
        verdict_on config runtime accounts username password ≡ ok (some g)
        → IsEntitled config runtime accounts username password g
    unfolding verdict_on
    verdict-IsEntitled h = elim (Bool-cases (is_admin_name config runtime username)) [
      | inl e ↦ admin-IsEntitled e (rw e at h)
      | inr e ↦ officer-IsEntitled _ refl (rw e at h)
    ]

go_on-saved :
    {A : Type 0} (go : A → LoginEffects) (t : Throttles) (m : Outcome LoginAnswer A)
    (s : SessionData)
    → (go_on go t m).saved ≡ some s
    → (a : A) × (m ≡ ok a) × ((go a).saved ≡ some s)
go_on-saved go t (ok a) s h = (a, refl, h)
go_on-saved go t (err answer) s h = absurd (cc)
go_on-saved go t thrown s h = absurd (cc)

-- What a saved session is, and what is answered with it.
abbrev pub IsSessionOf : LoginEffects → SessionData → SettleTimes → Granted → Type 0
IsSessionOf effects s times g =
    (s ≡ session_of times.logged_in_at g) × (effects.answer ≡ signed_in_as g)

module _ (has_session : Bool) (times : SettleTimes) (ip username : Text) (t : Throttles) where
  settle-saved :
      (verdict : Verdict) (s : SessionData)
      → (settle has_session times ip username verdict t).saved ≡ some s
      → (g : Granted) × (verdict ≡ ok (some g))
        × IsSessionOf (settle has_session times ip username verdict t) s times g
  unfolding settle
  settle-saved (ok (some g)) s h = elim (Bool-cases has_session) [
    | inl e ↦
        let same : some (session_of times.logged_in_at g) ≡ some s = rw e at h in
        (g, refl, (cc, rw e refl))
    | inr e ↦ absurd (let bad : none ≡ some s = rw e at h in cc)
  ]
  settle-saved (ok none) s h = absurd (cc)
  settle-saved (err answer) s h = absurd (cc)
  settle-saved thrown s h = absurd (cc)

allowed_of :
    (b : Bool) (answer : LoginAnswer) (u : Unit {0})
    → ◌≡◌ {A = Outcome LoginAnswer (Unit {0})} (if b then ok tt else err answer) (ok u)
    → b ≡ true
allowed_of true answer u h = refl
allowed_of false answer u h = absurd (cc)

unlocked_of :
    (b : Bool) (answer : LoginAnswer) (u : Unit {0})
    → ◌≡◌ {A = Outcome LoginAnswer (Unit {0})} (if b then err answer else ok tt) (ok u)
    → b ≡ false
unlocked_of true answer u h = absurd (cc)
unlocked_of false answer u h = refl

module _ (config : LoginConfig) (runtime : LoginRuntime) (accounts : AccountDisk)
    (req : LoginRequest) (t : Throttles) where
  -- The tables when the address is counted, and when the lock has been looked at.
  abbrev pub after_arrival : Throttles
  after_arrival = record t { attempts = (consume rate_limit req.arrived_at req.ip t.attempts).0 }

  abbrev pub after_status : Text → Throttles
  after_status username = record after_arrival {
    failures = (status_for req.status_at username t.failures).0;
  }

  pub post-of-given :
      (username password : Text)
      → is_custom_mode config.chain_backend ≡ true
      → (consume rate_limit req.arrived_at req.ip t.attempts).1.allowed ≡ true
      → credentials_of req.body ≡ ok (username, password)
      → (status_for req.status_at username t.failures).1.locked ≡ false
      → post config runtime accounts req t
        ≡ settle req.has_session req.times req.ip username
            (verdict_on config runtime accounts username password)
            (after_status username)
  unfolding post arrive sign_in_with check_lock
  post-of-given username password custom admitted given unlocked =
      rw (custom, admitted, given, unlocked) refl

-- A sign-in: the address was admitted, the name of the body was not locked, and its password was
-- that of what is granted.
pub record IsSignIn (config : LoginConfig) (runtime : LoginRuntime) (accounts : AccountDisk)
    (req : LoginRequest) (t : Throttles) (s : SessionData) : Type 0 where
  pub username : Text
  pub password : Text
  pub granted : Granted
  pub custom : is_custom_mode config.chain_backend ≡ true
  pub admitted : (consume rate_limit req.arrived_at req.ip t.attempts).1.allowed ≡ true
  pub given : credentials_of req.body ≡ ok (username, password)
  pub unlocked : (status_for req.status_at username t.failures).1.locked ≡ false
  pub entitled : IsEntitled config runtime accounts username password granted
  pub session : s ≡ session_of req.times.logged_in_at granted
  pub answer : (post config runtime accounts req t).answer ≡ signed_in_as granted

module _ (config : LoginConfig) (runtime : LoginRuntime) (accounts : AccountDisk) where
  -- A session is saved only by a request whose address was admitted, for a name that was not
  -- locked, with the password of the admin or of an enabled account of that name; it has the role,
  -- the division and the pending change of password of that account, or the admin's.
  pub saved-IsSignIn :
      (req : LoginRequest) (t : Throttles) (s : SessionData)
      → (post config runtime accounts req t).saved ≡ some s
      → IsSignIn config runtime accounts req t s
  unfolding post arrive sign_in_with check_lock
  saved-IsSignIn req t s h = elim (Bool-cases (is_custom_mode config.chain_backend)) [
    | inr e ↦ absurd (let bad : none ≡ some s = rw e at h in cc)
    | inl custom ↦
        let arrived = after_arrival config runtime accounts req t in
        let go = sign_in_with config runtime accounts req arrived in
        let (u, admitted, h1) =
          go_on-saved (λ _. go_on go arrived (credentials_of req.body)) arrived
            (arrive req.arrived_at req.ip t.attempts).1 s (rw custom at h) in
        let ((username, password), given, h2) =
          go_on-saved go arrived (credentials_of req.body) s h1 in
        let checked = after_status config runtime accounts req t username in
        let verdict = verdict_on config runtime accounts username password in
        let (v, unlocked, h3) =
          go_on-saved (λ _. settle req.has_session req.times req.ip username verdict checked)
            checked (check_lock req.status_at username t.failures).1 s h2 in
        let (granted, verified, (session, answer)) =
          settle-saved req.has_session req.times req.ip username checked verdict s h3 in
        let allowed = allowed_of _ _ u admitted in
        let open_lock = unlocked_of _ _ v unlocked in
        record {
          username = username;
          password = password;
          granted = granted;
          custom = custom;
          admitted = allowed;
          given = given;
          unlocked = open_lock;
          entitled = verdict-IsEntitled config runtime accounts username password granted verified;
          session = session;
          answer =
              ap (λ (f : LoginEffects). f.answer)
                (post-of-given config runtime accounts req t username password custom allowed given
                  open_lock)
              ∙ answer;
        }
  ]
