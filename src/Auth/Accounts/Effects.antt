-- ===== src/Auth/Accounts/Effects.antt =====
-- What each call of the account store answers and leaves on file, seen as a map from usernames:
-- updates and setDisabled, and in the modules below it the other calls.
pub mod Creation
pub mod Gate
pub mod Passwords
pub mod Removal
use zk_voting.Prelude.{
  ℕ, ◌≡◌, refl, ap, ◌∙◌, inl, inr, Bool, true, false, not, ◌&&◌, ◌||◌, Option, none, some, List, [],
  ◌∷◌, ◌++◌, arith, any, ◌==◌, length, Bool-cases, Option-cases, if◌then◌else◌,
}
use zk_voting.Prelude.Keyed.{
  is_some, find_key, replace_key, remove_key, key-find, find-replace, find-append, find-remove,
}
use zk_voting.Prelude.KeyedAll.{any-find, length-remove}
use zk_voting.Prelude.Outcome.{Outcome, ok, err, thrown, err-ne-ok, ◌>>=◌, ◌>>◌}
use zk_voting.Prelude.Text.{Text, text_eq, text_eq_iff}
use zk_voting.Store.{Disk, absent, unreadable, corrupt, stored, read, finish, mutate}
use zk_voting.Store.Mutation.{IsReadable, is_ok}
use zk_voting.Auth.PasswordPolicy.{PasswordProblem, password_problem}
use zk_voting.Auth.Relay.Value.{string}
use zk_voting.Auth.AccountRecords.{
  GnAccountRecord, PublicGnAccount, AccountStoreError, corrupt_store, no_account, name_taken,
  bad_password, same_password, Accounts, AccountDisk, key, or_true, to_public_account,
  with_defaults, all_with_defaults, normalise_username, CreateAccountInput, Crypto, Draw,
}
use zk_voting.Auth.Accounts.{
  verify_password, check_policy, check_different, AccountChange, find_by_username, check_input,
  checked, update_change, set_flag, set_disabled, remove_change, remove, new_account, create_change,
  create, change_allowed, take_custody, change_password,
}

-- The account of a username, as the store reads it.
abbrev pub account_of : Text → AccountDisk → Option GnAccountRecord
account_of name (stored accounts) = find_key key name (all_with_defaults accounts)
account_of name _ = none

abbrev pub defaulted : Option GnAccountRecord → Option GnAccountRecord
defaulted none = none
defaulted (some r) = some (with_defaults r)

pub find-defaults :
    (k : Text) (xs : Accounts)
    → find_key key k (all_with_defaults xs) ≡ defaulted (find_key key k xs)
find-defaults k [] = refl
find-defaults k (x ∷ xs) = elim (Bool-cases (text_eq x.username k)) [
  | inl e ↦ rw e refl
  | inr e ↦ rw e (find-defaults k xs)
]

or_true_twice : (b : Option Bool) → or_true (or_true b) ≡ or_true b
or_true_twice none = refl
or_true_twice (some b) = refl

with_defaults_twice : (r : GnAccountRecord) → with_defaults (with_defaults r) ≡ with_defaults r
with_defaults_twice r =
    ap (λ b. record r { must_change_password = b }) (or_true_twice r.must_change_password)

defaulted_twice : (m : Option GnAccountRecord) → defaulted (defaulted m) ≡ defaulted m
defaulted_twice none = refl
defaulted_twice (some r) = ap some (with_defaults_twice r)

-- What the store reads has its defaults already.
pub find_settled :
    (k : Text) (xs : Accounts)
    → defaulted (find_key key k (all_with_defaults xs)) ≡ find_key key k (all_with_defaults xs)
find_settled k xs = rw (find-defaults k xs) (defaulted_twice (find_key key k xs))

pub found_settled :
    (k : Text) (xs : Accounts) (r : GnAccountRecord)
    → find_key key k (all_with_defaults xs) ≡ some r
    → with_defaults r ≡ r
found_settled k xs r found =
    let twice : some (with_defaults r) ≡ some r = rw found at (find_settled k xs) in cc

read_replaced :
    (target name : Text) (u : GnAccountRecord) (xs : Accounts)
    → key u ≡ target
    → with_defaults u ≡ u
    → is_some (find_key key target (all_with_defaults xs)) ≡ true
    → account_of name (stored (replace_key key target u (all_with_defaults xs)))
      ≡ (if text_eq target name then some u else account_of name (stored xs))
read_replaced target name u xs named settled present =
    let zs = all_with_defaults xs in
    rw
      (
        find-defaults name (replace_key key target u zs),
        find-replace key target name u zs named,
        present,
      )
      (elim (Bool-cases (text_eq target name)) [
        | inl e ↦ rw e (ap some settled)
        | inr e ↦ rw e (find_settled name xs)
      ])

-- The answer of an update for the account found.
abbrev pub update_answer :
    Bool
    → Text
    → (GnAccountRecord → GnAccountRecord)
    → Option GnAccountRecord
    → Outcome AccountStoreError PublicGnAccount
update_answer w target update none = err (no_account target)
update_answer w target update (some r) = if w then ok (to_public_account (update r)) else thrown

-- What an update leaves where it found an account.
abbrev pub update_leaves :
    Bool → (GnAccountRecord → GnAccountRecord) → Option GnAccountRecord → Option GnAccountRecord
update_leaves w update none = none
update_leaves w update (some r) = if w then some (update r) else some r

-- A store that stands for its map of accounts after an update of `target`.
module _ (target : Text) (update : GnAccountRecord → GnAccountRecord) where
  target_leaves :
      (w : Bool) (name : Text) (xs : Accounts) (r : GnAccountRecord)
      → find_key key target (all_with_defaults xs) ≡ some r
      → (if text_eq target name
          then (if w then some (update r) else some r)
          else account_of name (stored xs))
        ≡ (if text_eq target name
            then update_leaves w update (account_of name (stored xs))
            else account_of name (stored xs))
  target_leaves w name xs r found = elim (Bool-cases (text_eq target name)) [
    | inl e ↦ rw (e, ← ((text_eq_iff target name).0 e), found) refl
    | inr e ↦ rw e refl
  ]

  unchanged :
      (name : Text) (xs : Accounts) (r : GnAccountRecord)
      → find_key key target (all_with_defaults xs) ≡ some r
      → account_of name (stored xs)
        ≡ (if text_eq target name then some r else account_of name (stored xs))
  unchanged name xs r found = elim (Bool-cases (text_eq target name)) [
    | inl e ↦ rw (e, ← ((text_eq_iff target name).0 e), found) refl
    | inr e ↦ rw e refl
  ]

  update_found_refines :
      (w : Bool) (name : Text) (xs : Accounts) (r : GnAccountRecord)
      → find_key key target (all_with_defaults xs) ≡ some r
      → account_of name (stored (replace_key key target (update r) (all_with_defaults xs)))
        ≡ (if text_eq target name then some (update r) else account_of name (stored xs))
      → ((mutate corrupt_store all_with_defaults w (update_change target update) (stored xs)).1
          ≡ update_answer w target update (account_of target (stored xs)))
        × (account_of name
              (mutate corrupt_store all_with_defaults w (update_change target update) (stored xs)).0
            ≡ (if text_eq target name
                then update_leaves w update (account_of name (stored xs))
                else account_of name (stored xs)))
  unfolding mutate update_change
  update_found_refines true name xs r found back =
      (rw found refl, rw (found, back) (target_leaves true name xs r found))
  update_found_refines false name xs r found back =
      (rw found refl, rw found (unchanged name xs r found ∙ target_leaves false name xs r found))

  pub update_refines :
      (w : Bool) (name : Text) (disk : AccountDisk)
      → ((r : GnAccountRecord) → key (update r) ≡ key r)
      → ((r : GnAccountRecord) → with_defaults r ≡ r → with_defaults (update r) ≡ update r)
      → IsReadable disk
      → ((mutate corrupt_store all_with_defaults w (update_change target update) disk).1
          ≡ update_answer w target update (account_of target disk))
        × (account_of name
              (mutate corrupt_store all_with_defaults w (update_change target update) disk).0
            ≡ (if text_eq target name
                then update_leaves w update (account_of name disk)
                else account_of name disk))
  unfolding mutate update_change
  update_refines w name (stored xs) same_key settled h =
      elim (Option-cases (find_key key target (all_with_defaults xs))) [
        | inl missing ↦ ground (arith, missing, text_eq_iff target name)
        | inr (r, found) ↦
            let u = update r in
            let named : key u ≡ target = rw (same_key r) (key-find key target _ r found) in
            let back =
              read_replaced target name u xs named (settled r (found_settled target xs r found))
                (rw found refl) in
            update_found_refines w name xs r found back
      ]
  update_refines w name absent same_key settled h = ground (arith)
  update_refines w name unreadable same_key settled h = absurd h
  update_refines w name corrupt same_key settled h = absurd h

-- `setDisabled` refuses a username with no account, and otherwise sets the flag of the one account
-- with all else unchanged; a failed write throws and changes nothing, and other accounts are never
-- touched.
pub set_disabled_refines :
    (w : Bool) (username : Text) (flag : Bool) (name : Text) (disk : AccountDisk)
    → IsReadable disk
    → ((set_disabled w username flag disk).1
        ≡ update_answer w
            (normalise_username username)
            (set_flag flag)
            (account_of (normalise_username username) disk))
      × (account_of name (set_disabled w username flag disk).0 ≡ (
          if text_eq (normalise_username username) name
          then update_leaves w (set_flag flag) (account_of name disk)
          else account_of name disk))
unfolding set_disabled
set_disabled_refines w username flag name disk h =
    update_refines (normalise_username username) (set_flag flag) w name disk (λ r. refl)
      (λ r settled. ap (set_flag flag) settled) h

abbrev pub on_verdict :
    {A : Type 0}
    → Outcome AccountStoreError (Unit {0})
    → Outcome AccountStoreError A
    → Outcome AccountStoreError A
on_verdict (ok _) answer = answer
on_verdict (err e) answer = err e
on_verdict thrown answer = thrown
