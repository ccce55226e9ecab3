-- ===== src/Auth/Accounts/Effects/Gate.antt =====
-- The gate of an account, mustChangePassword, opens only by a change of password of its own.
use zk_voting.Prelude.{
  ℕ, suc, ◌≡◌, refl, Bool, true, false, not, ◌&&◌, Option, none, some, [], ◌∷◌, arith, ◌==◌, length,
  if◌then◌else◌,
}
use zk_voting.Prelude.Keyed.{is_some}
use zk_voting.Prelude.Outcome.{Outcome, ok, err, thrown}
use zk_voting.Prelude.Text.{Text, text_eq, text_eq_sound}
use zk_voting.Store.{stored, finish, mutate, read}
use zk_voting.Store.Mutation.{is_ok}
use zk_voting.Auth.AccountRecords.{
  GnAccountRecord, AccountStoreError, Accounts, all_with_defaults, normalise_username, Crypto,
}
use zk_voting.Auth.Accounts.{
  check_input, set_flag, clear, new_account, change_allowed, change_password,
}
use zk_voting.Auth.Accounts.Custody.{Op, creates, changes, sets_disabled, removes, clears, step}
use zk_voting.Auth.Accounts.Effects.{account_of, update_leaves, set_disabled_refines}
use zk_voting.Auth.Accounts.Effects.Creation.{create_refines_lem}
use zk_voting.Auth.Accounts.Effects.Passwords.{by_verdict}
use zk_voting.Auth.Accounts.Effects.Removal.{remove_refines}

abbrev pub owes_change : Option GnAccountRecord → Bool
owes_change none = true
owes_change (some r) = elim r.must_change_password [ none ↦ true | some b ↦ b ]

module _ (crypto : Crypto) where
  -- The call is a change of the password of the account, which the checks before it allow.
  abbrev pub IsChangeOf : Text → Op → Type 0
  IsChangeOf name (changes w draw username password seen) =
      (normalise_username username ≡ name) × (change_allowed crypto name password seen ≡ ok tt)
  IsChangeOf name _ = ⊥

  owes_if :
      (b : Bool) (m n : Option GnAccountRecord)
      → owes_change m ≡ true
      → owes_change n ≡ true
      → owes_change (if b then m else n) ≡ true
  owes_if true m n h k = h
  owes_if false m n h k = k

  owes_flag :
      (w flag : Bool) (m : Option GnAccountRecord)
      → owes_change m ≡ true
      → owes_change (update_leaves w (set_flag flag) m) ≡ true
  owes_flag w flag none h = refl
  owes_flag true flag (some r) h = h
  owes_flag false flag (some r) h = h

  nonempty : (n : ℕ) → (suc n == 0) ≡ false
  nonempty n = ground arith

  clear_leaves :
      (w : Bool) (name : Text) (xs : Accounts)
      → owes_change (account_of name (stored xs)) ≡ true
      → owes_change (account_of name (clear w (stored xs)).0) ≡ true
  unfolding clear mutate finish read
  clear_leaves w name [] h = refl
  clear_leaves true name (x ∷ xs) h = rw (nonempty (length (all_with_defaults xs))) refl
  clear_leaves false name (x ∷ xs) h = rw (nonempty (length (all_with_defaults xs))) h

  verdict_opens :
      (verdict : Outcome AccountStoreError (Unit {0})) (target name : Text)
      (m n : Option GnAccountRecord)
      → owes_change n ≡ true
      → owes_change (if is_ok verdict && text_eq target name then m else n) ≡ false
      → (target ≡ name) × (verdict ≡ ok tt)
  verdict_opens (ok _) target name m n h k = (text_eq_sound target name (ground arith), refl)
  verdict_opens (err e) target name m n h k = absurd (ground arith)
  verdict_opens thrown target name m n h k = absurd (ground arith)

  true-ne-false : {b : Bool} → b ≡ true → b ≡ false → ⊥
  true-ne-false h k = cc

  -- A call after which an account that owed a change of password owes none any more is a
  -- changePassword for it, whose new password the policy accepts and which differs from the one
  -- that the call read.
  pub gate_opens :
      (op : Op) (name : Text) (accounts : Accounts)
      → owes_change (account_of name (stored accounts)) ≡ true
      → owes_change (account_of name (step crypto op (stored accounts))) ≡ false
      → IsChangeOf name op
  unfolding step change_password
  gate_opens (creates w draw input) name xs before after =
      true-ne-false
        (owes_if
          (is_ok (check_input input)
            && not (is_some (account_of (normalise_username input.username) (stored xs)))
            && w
            && text_eq (normalise_username input.username) name)
          (some (new_account crypto draw input)) (account_of name (stored xs)) refl before)
        (rw (create_refines_lem crypto w draw input name (stored xs) tt).1 at after)
  gate_opens (changes w draw username password seen) name xs before after =
      let target = normalise_username username in
      let verdict = change_allowed crypto target password seen in
      let effect = (by_verdict crypto w draw target password name (stored xs) tt verdict).1 in
      let (same, allowed) = verdict_opens verdict target name _ _ before (rw effect at after) in
      (same, rw (← same) allowed)
  gate_opens (sets_disabled w username flag) name xs before after =
      true-ne-false
        (owes_if (text_eq (normalise_username username) name)
          (update_leaves w (set_flag flag) (account_of name (stored xs)))
          (account_of name (stored xs)) (owes_flag w flag (account_of name (stored xs)) before)
          before)
        (rw (set_disabled_refines w username flag name (stored xs) tt).1 at after)
  gate_opens (removes w username) name xs before after =
      true-ne-false
        (owes_if (w && text_eq (normalise_username username) name) none
          (account_of name (stored xs)) refl before)
        (rw (remove_refines w username name (stored xs) tt).1 at after)
  gate_opens (clears w) name xs before after = true-ne-false (clear_leaves w name xs before) after
