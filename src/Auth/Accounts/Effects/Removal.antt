-- ===== src/Auth/Accounts/Effects/Removal.antt =====
-- `remove`, seen as a call on a map from usernames to accounts.
use zk_voting.Prelude.{
  ◌≡◌, refl, inl, inr, Bool, true, false, not, ◌&&◌, Option, none, some, [], arith, Bool-cases,
  Option-cases, if◌then◌else◌,
}
use zk_voting.Prelude.Keyed.{is_some, find_key, remove_key, find-remove}
use zk_voting.Prelude.KeyedAll.{length-remove}
use zk_voting.Prelude.Outcome.{Outcome, ok, err, thrown}
use zk_voting.Prelude.Text.{Text, text_eq, text_eq_iff}
use zk_voting.Store.{absent, unreadable, corrupt, stored, read, finish, mutate}
use zk_voting.Store.Mutation.{IsReadable}
use zk_voting.Auth.AccountRecords.{
  GnAccountRecord, AccountStoreError, corrupt_store, no_account, Accounts, AccountDisk, key,
  all_with_defaults, normalise_username,
}
use zk_voting.Auth.Accounts.{remove_change, remove}
use zk_voting.Auth.Accounts.Effects.{account_of, find-defaults, find_settled}

remove_change-eq :
    (target : Text) (xs : Accounts)
    → remove_change target xs ≡ (
        if not (is_some (find_key key target xs))
        then err (no_account target)
        else ok (some (remove_key key target xs), tt))
unfolding remove_change
remove_change-eq target xs = rw (length-remove key target xs) refl

read_removed :
    (target name : Text) (xs : Accounts)
    → account_of name (stored (remove_key key target (all_with_defaults xs)))
      ≡ (if text_eq target name then none else account_of name (stored xs))
read_removed target name xs =
    rw
      (
        find-defaults name (remove_key key target (all_with_defaults xs)),
        find-remove key target name (all_with_defaults xs),
      )
      (elim (Bool-cases (text_eq target name)) [
        | inl e ↦ rw e refl
        | inr e ↦ rw e (find_settled name xs)
      ])

missing_stays :
    (target name : Text) (m : Bool) (xs : Accounts)
    → account_of target (stored xs) ≡ none
    → account_of name (stored xs)
      ≡ (if m && text_eq target name then none else account_of name (stored xs))
missing_stays target name m xs missing = ground (arith, missing, text_eq_iff target name)

remove_found_refines :
    (target : Text) (w : Bool) (name : Text) (xs : Accounts) (r : GnAccountRecord)
    → find_key key target (all_with_defaults xs) ≡ some r
    → let made : Outcome AccountStoreError (Option Accounts × Unit {0}) =
        ok (some (remove_key key target (all_with_defaults xs)), tt) in
      ((finish w (stored xs) made).1 ≡ (if w then ok tt else thrown))
      × (account_of name (finish w (stored xs) made).0
          ≡ (if w && text_eq target name then none else account_of name (stored xs)))
unfolding finish
remove_found_refines target true name xs r found = (refl, read_removed target name xs)
remove_found_refines target false name xs r found = (refl, refl)

remove_named_refines :
    (target : Text) (w : Bool) (name : Text) (disk : AccountDisk)
    → IsReadable disk
    → ((mutate corrupt_store all_with_defaults w (remove_change target) disk).1 ≡ (
        if not (is_some (account_of target disk))
        then err (no_account target)
        else if w
        then ok tt
        else thrown))
      × (account_of name (mutate corrupt_store all_with_defaults w (remove_change target) disk).0
          ≡ (if w && text_eq target name then none else account_of name disk))
unfolding mutate read
remove_named_refines target w name (stored xs) h =
    rw (remove_change-eq target (all_with_defaults xs))
      (elim (Option-cases (find_key key target (all_with_defaults xs))) [
        | inl missing ↦ rw missing (refl, missing_stays target name w xs missing)
        | inr (r, found) ↦ rw found (remove_found_refines target w name xs r found)
      ])
remove_named_refines target w name absent h =
    (rw (remove_change-eq target []) refl, rw (remove_change-eq target []) (ground arith))
remove_named_refines target w name unreadable h = absurd h
remove_named_refines target w name corrupt h = absurd h

-- `remove` refuses a username with no account, and otherwise takes that account off the file; a
-- failed write throws and changes nothing, and other accounts are never touched.
pub remove_refines :
    (w : Bool) (username name : Text) (disk : AccountDisk)
    → IsReadable disk
    → ((remove w username disk).1 ≡ (
        if not (is_some (account_of (normalise_username username) disk))
        then err (no_account (normalise_username username))
        else if w
        then ok tt
        else thrown))
      × (account_of name (remove w username disk).0 ≡ (
          if w && text_eq (normalise_username username) name then none else account_of name disk))
unfolding remove
remove_refines w username name disk h =
    remove_named_refines (normalise_username username) w name disk h
