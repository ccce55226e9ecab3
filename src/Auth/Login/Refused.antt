-- ===== src/Auth/Login/Refused.antt =====
-- What a failed login shows, and that a locked name stays refused.
use zk_voting.Prelude.{
  ◌-◌, ◌<◌, ◌≡◌, refl, ◌∙◌, ◌⊎◌, inl, inr, true, false, none, some, List, arith, ltb, All,
  Bool-cases,
}
use zk_voting.Prelude.Map
use zk_voting.Prelude.Map.{Entries}
use zk_voting.Prelude.Outcome.{ok}
use zk_voting.Prelude.Text.{Text}
use zk_voting.Auth.AccountRecords.{AccountDisk, GnAccountRecord}
use zk_voting.Auth.Accounts.{find_by_username, verify_password}
use zk_voting.Auth.LoginGuard.{Failures, status_for}
use zk_voting.Auth.LoginGuard.Calls.{Event, run}
use zk_voting.Auth.LoginGuard.Lockout.{IsBefore, lock_holds}
use zk_voting.Auth.RateLimit.{consume}
use zk_voting.Auth.Session.{is_custom_mode}
use zk_voting.Auth.Credentials.{
  LoginConfig, LoginRuntime, verdict_on, is_admin_name, credentials_of, account_locked,
}
use zk_voting.Auth.Login.{
  LoginRequest, Throttles, lockout, rate_limit, arrive, check_lock, sign_in_with, post,
}

-- The password opens no account of the name: there is none, it is disabled, or the password is
-- another.
abbrev pub OpensNothing : LoginRuntime → AccountDisk → Text → Text → Type 0
OpensNothing runtime accounts username password =
    (find_by_username username accounts ≡ ok none)
    ⊎ ((account : GnAccountRecord) × (find_by_username username accounts ≡ ok (some account))
        × ((account.disabled ≡ true)
            ⊎ (verify_password runtime.crypto password account.password_hash ≡ false)))

module _ (config : LoginConfig) (runtime : LoginRuntime) where
  verdict_of_OpensNothing :
      (accounts : AccountDisk) (username password : Text)
      → is_admin_name config runtime username ≡ false
      → OpensNothing runtime accounts username password
      → verdict_on config runtime accounts username password ≡ ok none
  unfolding verdict_on
  verdict_of_OpensNothing accounts username password officer (inl missing) =
      rw (officer, missing) refl
  verdict_of_OpensNothing accounts username password officer (inr (account, found, inl off)) =
      rw (officer, found, off) refl
  verdict_of_OpensNothing accounts username password officer (inr (account, found, inr wrong)) =
      elim (Bool-cases account.disabled) [
        | inl off ↦ rw (officer, found, off) refl
        | inr on ↦ rw (officer, found, on, wrong) refl
      ]

  -- A name that is not the admin's and whose account is missing, disabled, or has another password
  -- is answered in the same way, with the same effects, whichever of these it is.
  pub post_tells_nothing :
      (accounts others : AccountDisk) (username password : Text) (req : LoginRequest)
      (t : Throttles)
      → credentials_of req.body ≡ ok (username, password)
      → is_admin_name config runtime username ≡ false
      → OpensNothing runtime accounts username password
      → OpensNothing runtime others username password
      → post config runtime accounts req t ≡ post config runtime others req t
  unfolding post sign_in_with
  post_tells_nothing accounts others username password req t given officer here there =
      rw
        (
          given,
          verdict_of_OpensNothing accounts username password officer here,
          verdict_of_OpensNothing others username password officer there,
        )
        refl

  -- A locked name is refused until its lock ends, with the right password too: whatever was done
  -- with the guard meanwhile, but a success of the name that was under way, no session is saved,
  -- the answer is the lock with the time that is left, and the lock stays.
  pub locked_is_refused :
      (accounts : AccountDisk) (username password : Text) (req : LoginRequest) (t : Throttles)
      (r : Failures) (es : List Event) (m : Entries Failures)
      → is_custom_mode config.chain_backend ≡ true
      → (consume rate_limit req.arrived_at req.ip t.attempts).1.allowed ≡ true
      → credentials_of req.body ≡ ok (username, password)
      → t.failures ≡ run lockout es m
      → Map.get username m ≡ some r
      → 0 < r.locked_until
      → All (IsBefore lockout username r.locked_until) es
      → req.status_at < r.locked_until
      → let effects = post config runtime accounts req t in
        (effects.saved ≡ none)
        × (effects.answer ≡ account_locked (r.locked_until - req.status_at))
        × (Map.get username effects.throttles.failures ≡ some r)
  unfolding post arrive sign_in_with check_lock
  locked_is_refused accounts username password req t r es m custom admitted given history found lock
        before now =
      let early : ltb req.status_at r.locked_until ≡ true = ground (arith, now) in
      let (status, kept) = lock_holds lockout username es m r req.status_at found lock before in
      let here : (status_for req.status_at username t.failures).1
          ≡ record { locked = true; retry_after_ms = r.locked_until - req.status_at } =
        rw history (status ∙ rw early refl) in
      let stays : Map.get username (status_for req.status_at username t.failures).0 ≡ some r =
        rw history (kept ∙ rw early refl) in
      rw (custom, admitted, given, here) (refl, refl, stays)
