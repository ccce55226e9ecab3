-- ===== src/Auth/Accounts/Effects/Passwords.antt =====
-- `changePassword`, seen as a call on a map from usernames to accounts.
use zk_voting.Prelude.{
  ◌≡◌, refl, inl, inr, Bool, ◌&&◌, Option, none, some, Bool-cases, if◌then◌else◌,
}
use zk_voting.Prelude.Outcome.{Outcome, ok, err, thrown, ◌>>=◌, ◌>>◌}
use zk_voting.Prelude.Text.{Text, text_eq}
use zk_voting.Store.{absent, unreadable, corrupt, stored, read, mutate}
use zk_voting.Store.Mutation.{IsReadable, is_ok}
use zk_voting.Auth.PasswordPolicy.{PasswordProblem, password_problem}
use zk_voting.Auth.Relay.Value.{string}
use zk_voting.Auth.AccountRecords.{
  GnAccountRecord, AccountStoreError, corrupt_store, no_account, bad_password, same_password,
  AccountDisk, all_with_defaults, normalise_username, Crypto, Draw,
}
use zk_voting.Auth.Accounts.{
  verify_password, check_policy, check_different, find_by_username, checked, update_change,
  change_allowed, take_custody, change_password,
}
use zk_voting.Auth.Accounts.Effects.{
  account_of, update_answer, update_leaves, update_refines, on_verdict,
}

-- The verdict of `changePassword` on what it reads before its mutation.
abbrev pub change_verdict :
    Crypto
    → Text
    → Text
    → Option GnAccountRecord
    → Option PasswordProblem
    → Outcome AccountStoreError (Unit {0})
change_verdict crypto target password account (some problem) = err (bad_password problem)
change_verdict crypto target password none none = err (no_account target)
change_verdict crypto target password (some account) none =
    if verify_password crypto password account.password_hash then err same_password else ok tt

verdict-eq :
    (crypto : Crypto) (target password : Text) (account : Option GnAccountRecord)
    (p : Option PasswordProblem)
    → (check_policy crypto p
        >> (ok account >>= λ found. check_different crypto target password found))
      ≡ change_verdict crypto target password account p
verdict-eq crypto target password account (some problem) = refl
verdict-eq crypto target password none none = refl
verdict-eq crypto target password (some account) none =
    elim (Bool-cases (verify_password crypto password account.password_hash)) [
      | inl e ↦ rw e refl
      | inr e ↦ rw e refl
    ]

change_allowed-eq :
    (crypto : Crypto) (target password : Text) (seen : AccountDisk)
    → IsReadable seen
    → change_allowed crypto target password seen
      ≡ change_verdict crypto target password
          (account_of (normalise_username target) seen)
          (password_problem (string password))
unfolding change_allowed find_by_username read
change_allowed-eq crypto target password (stored xs) h = verdict-eq crypto target password _ _
change_allowed-eq crypto target password absent h = verdict-eq crypto target password none _
change_allowed-eq crypto target password unreadable h = absurd h
change_allowed-eq crypto target password corrupt h = absurd h

pub by_verdict :
    (crypto : Crypto) (w : Bool) (draw : Draw) (target password name : Text) (disk : AccountDisk)
    → IsReadable disk
    → (verdict : Outcome AccountStoreError (Unit {0}))
    → let update = take_custody crypto draw password in
      let result =
        checked verdict disk
          (λ _. mutate corrupt_store all_with_defaults w (update_change target update) disk) in
      (result.1 ≡ on_verdict verdict (update_answer w target update (account_of target disk)))
      × (account_of name result.0 ≡ (
          if is_ok verdict && text_eq target name
          then update_leaves w update (account_of name disk)
          else account_of name disk))
by_verdict crypto w draw target password name disk h (ok _) =
    update_refines target (take_custody crypto draw password) w name disk (λ r. refl)
      (λ r settled. refl) h
by_verdict crypto w draw target password name disk h (err e) = (refl, refl)
by_verdict crypto w draw target password name disk h thrown = (refl, refl)

-- `changePassword` refuses a password that the policy refuses or that is the one in use, and a
-- username with no account, before it writes or while it does; otherwise it stores the hash of the
-- new password and clears the account's gate with all else unchanged. A failed write throws and
-- changes nothing, and other accounts are never touched, whatever was done between its reads.
pub change_password_refines :
    (crypto : Crypto) (w : Bool) (draw : Draw) (username password name : Text)
    (seen disk : AccountDisk)
    → IsReadable seen
    → IsReadable disk
    → let target = normalise_username username in
      let verdict =
        change_verdict crypto target password
          (account_of (normalise_username target) seen)
          (password_problem (string password)) in
      ((change_password crypto w draw username password seen disk).1
        ≡ on_verdict verdict
            (update_answer w target (take_custody crypto draw password) (account_of target disk)))
      × (account_of name (change_password crypto w draw username password seen disk).0 ≡ (
          if is_ok verdict && text_eq target name
          then update_leaves w (take_custody crypto draw password) (account_of name disk)
          else account_of name disk))
unfolding change_password
change_password_refines crypto w draw username password name seen disk readable h =
    let target = normalise_username username in
    rw (change_allowed-eq crypto target password seen readable)
      (by_verdict crypto w draw target password name disk h _)
