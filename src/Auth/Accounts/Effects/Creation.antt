-- ===== src/Auth/Accounts/Effects/Creation.antt =====
-- `create`, seen as a call on a map from usernames to accounts.
use zk_voting.Prelude.{
  ◌≡◌, ◌∙◌, refl, ap, Option, inl, inr, Bool, true, false, not, ◌&&◌, none, some, [], ◌∷◌, ◌++◌,
  arith, Bool-cases, Option-cases, if◌then◌else◌,
}
use zk_voting.Prelude.Keyed.{is_some, find_key, find-append}
use zk_voting.Prelude.KeyedAll.{any-find}
use zk_voting.Prelude.Outcome.{Outcome, ok, err, thrown, guard, ◌>>◌}
use zk_voting.Prelude.Text.{Text, text_eq, text_eq_iff, is_hex_of}
use zk_voting.Store.{absent, unreadable, corrupt, stored, read, finish, mutate}
use zk_voting.Store.Mutation.{IsReadable, is_ok}
use zk_voting.Prelude.Int.{pos, negsuc}
use zk_voting.Auth.Relay.Value.{Number, integer, not_a_number, fractional}
use zk_voting.Auth.AccountRecords.{
  GnAccountRecord, AccountStoreError, PublicGnAccount, bad_username, bad_division, bad_address,
  bad_private_key, is_name, is_division, normalise_username, corrupt_store, name_taken, Accounts,
  AccountDisk, key, to_public_account, with_defaults, all_with_defaults, CreateAccountInput, Crypto,
  Draw,
}
use zk_voting.Auth.Accounts.{
  AccountChange, check_input, checked, new_account, create_change, create,
}
use zk_voting.Auth.Accounts.Effects.{
  account_of, defaulted, find-defaults, found_settled, on_verdict,
}

create_change-eq :
    (crypto : Crypto) (account : GnAccountRecord) (xs : Accounts)
    → create_change crypto account xs ≡ (
        if is_some (find_key key account.username xs)
        then err (name_taken account.username)
        else ok (some (xs ++ account ∷ []), to_public_account account))
unfolding create_change
create_change-eq crypto account xs = rw (any-find key account.username xs) refl

added_later :
    (name : Text) (account : GnAccountRecord) (xs : Accounts)
    → defaulted
        (if is_some (account_of name (stored xs)) then account_of name (stored xs) else none)
      ≡ account_of name (stored xs)
added_later name account xs = elim (Option-cases (account_of name (stored xs))) [
  | inl missing ↦ rw missing refl
  | inr (r, found) ↦ rw found (ap some (found_settled name xs r found))
]

read_added :
    (name : Text) (account : GnAccountRecord) (xs : Accounts)
    → with_defaults account ≡ account
    → account_of account.username (stored xs) ≡ none
    → account_of name (stored (all_with_defaults xs ++ account ∷ []))
      ≡ (if text_eq account.username name then some account else account_of name (stored xs))
read_added name account xs settled new =
    rw
      (
        find-defaults name (all_with_defaults xs ++ account ∷ []),
        find-append key name account (all_with_defaults xs),
      )
      (elim (Bool-cases (text_eq account.username name)) [
        | inl e ↦ rw (e, ← ((text_eq_iff account.username name).0 e), new) (ap some settled)
        | inr e ↦ rw e (added_later name account xs)
      ])

add_new_refines :
    (w : Bool) (name : Text) (account : GnAccountRecord) (disk : AccountDisk) (xs : Accounts)
    → account_of name (stored (all_with_defaults xs ++ account ∷ []))
      ≡ (if text_eq account.username name then some account else account_of name disk)
    → let made : AccountChange =
        ok (some (all_with_defaults xs ++ account ∷ []), to_public_account account) in
      ((finish w disk made).1 ≡ (if w then ok (to_public_account account) else thrown))
      × (account_of name (finish w disk made).0
          ≡ (if w && text_eq account.username name then some account else account_of name disk))
unfolding finish
add_new_refines true name account disk xs back = (refl, back)
add_new_refines false name account disk xs back = (refl, refl)

add_refines :
    (crypto : Crypto) (w : Bool) (name : Text) (account : GnAccountRecord) (disk : AccountDisk)
    → IsReadable disk
    → with_defaults account ≡ account
    → let result = mutate corrupt_store all_with_defaults w (create_change crypto account) disk in
      (result.1 ≡ (
        if is_some (account_of account.username disk)
        then err (name_taken account.username)
        else if w
        then ok (to_public_account account)
        else thrown))
      × (account_of name result.0 ≡ (
          if not (is_some (account_of account.username disk)) && w && text_eq account.username name
          then some account
          else account_of name disk))
unfolding mutate read
add_refines crypto w name account (stored xs) h settled =
    rw (create_change-eq crypto account (all_with_defaults xs))
      (elim (Option-cases (find_key key account.username (all_with_defaults xs))) [
        | inl new ↦
            rw new (
              add_new_refines w name account (stored xs) xs
                (read_added name account xs settled new))
        | inr (r, taken) ↦ rw taken (refl, ground arith)
      ])
add_refines crypto w name account absent h settled =
    rw (create_change-eq crypto account [])
      (add_new_refines w name account absent [] (read_added name account [] settled refl))
add_refines crypto w name account unreadable h settled = absurd h
add_refines crypto w name account corrupt h settled = absurd h

by_input :
    (crypto : Crypto) (w : Bool) (name : Text) (account : GnAccountRecord) (disk : AccountDisk)
    → IsReadable disk
    → with_defaults account ≡ account
    → (verdict : Outcome AccountStoreError (Unit {0}))
    → let result =
        checked verdict disk
          (λ _. mutate corrupt_store all_with_defaults w (create_change crypto account) disk) in
      (result.1
        ≡ on_verdict verdict (
            if is_some (account_of account.username disk)
            then err (name_taken account.username)
            else if w
            then ok (to_public_account account)
            else thrown))
      × (account_of name result.0 ≡ (
          if is_ok verdict
            && not (is_some (account_of account.username disk))
            && w
            && text_eq account.username name
          then some account
          else account_of name disk))
by_input crypto w name account disk h settled (ok _) =
    add_refines crypto w name account disk h settled
by_input crypto w name account disk h settled (err e) = (refl, refl)
by_input crypto w name account disk h settled thrown = (refl, refl)

pub create_refines_lem :
    (crypto : Crypto) (w : Bool) (draw : Draw) (input : CreateAccountInput) (name : Text)
    (disk : AccountDisk)
    → IsReadable disk
    → let account = new_account crypto draw input in
      ((create crypto w draw input disk).1
        ≡ on_verdict (check_input input) (
            if is_some (account_of account.username disk)
            then err (name_taken account.username)
            else if w
            then ok (to_public_account account)
            else thrown))
      × (account_of name (create crypto w draw input disk).0 ≡ (
          if is_ok (check_input input)
            && not (is_some (account_of account.username disk))
            && w
            && text_eq account.username name
          then some account
          else account_of name disk))
unfolding create
create_refines_lem crypto w draw input name disk h =
    by_input crypto w name (new_account crypto draw input) disk h refl (check_input input)

-- A division's index.
abbrev pub is_index : Number → Bool
is_index (integer (pos n)) = true
is_index _ = false

-- The first thing that is wrong with an input.
abbrev pub refusal : CreateAccountInput → Option AccountStoreError
refusal input =
    if not (is_name (normalise_username input.username))
    then some bad_username
    else if not (is_index input.division_id)
    then some bad_division
    else if not (is_hex_of 40 input.address)
    then some bad_address
    else if not (is_hex_of 64 input.private_key)
    then some bad_private_key
    else none

-- The account that an input asks for: enabled, and with the change of password owed.
abbrev pub gated_account : Crypto → Draw → CreateAccountInput → GnAccountRecord
gated_account crypto draw input = record {
  id = draw.id;
  username = normalise_username input.username;
  password_hash = crypto.hash_password draw.salt input.password;
  must_change_password = some true;
  password_changed_at = none;
  division_id = input.division_id;
  address = input.address;
  encrypted_private_key =
      crypto.encrypt_secret draw.nonce input.private_key (normalise_username input.username);
  created_at = draw.now;
  disabled = false;
}

-- What the call answers of it, without the secrets.
abbrev pub gated_answer : Draw → CreateAccountInput → PublicGnAccount
gated_answer draw input = record {
  id = draw.id;
  username = normalise_username input.username;
  division_id = input.division_id;
  address = input.address;
  created_at = draw.now;
  disabled = false;
  must_change_password = some true;
  password_changed_at = none;
}

abbrev pub or_refusal :
    {A : Type 0}
    → Option AccountStoreError
    → Outcome AccountStoreError A
    → Outcome AccountStoreError A
or_refusal none answer = answer
or_refusal (some e) answer = err e

is_division-is_index : (n : Number) → is_division n ≡ is_index n
is_division-is_index (integer (pos n)) = refl
is_division-is_index (integer (negsuc n)) = refl
is_division-is_index not_a_number = refl
is_division-is_index fractional = refl

module _ {A : Type 0} (answer : Outcome AccountStoreError A) where
  guards-eq :
      (name division address private_key : Bool)
      → let verdict =
          guard name bad_username
          >> guard division bad_division
          >> guard address bad_address
          >> guard private_key bad_private_key in
        let refused : Option AccountStoreError =
          if not name
          then some bad_username
          else if not division
          then some bad_division
          else if not address
          then some bad_address
          else if not private_key
          then some bad_private_key
          else none in
        (on_verdict verdict answer ≡ or_refusal refused answer)
        × (is_ok verdict ≡ not (is_some refused))
  guards-eq false b c d = (refl, refl)
  guards-eq true false c d = (refl, refl)
  guards-eq true true false d = (refl, refl)
  guards-eq true true true false = (refl, refl)
  guards-eq true true true true = (refl, refl)

check_input-eq :
    {A : Type 0} (input : CreateAccountInput) (answer : Outcome AccountStoreError A)
    → (on_verdict (check_input input) answer ≡ or_refusal (refusal input) answer)
      × (is_ok (check_input input) ≡ not (is_some (refusal input)))
check_input-eq input answer = rw (← is_division-is_index input.division_id) (
    guards-eq answer (is_name (normalise_username input.username)) (is_division input.division_id)
      (is_hex_of 40 input.address) (is_hex_of 64 input.private_key))

-- `create` refuses the first thing that is malformed in its input, and a username that is taken;
-- otherwise it adds an enabled account that owes a change of password, with the hash of the password
-- and the sealed key, under the normalised username. A failed write throws and changes nothing, and
-- other accounts are never touched.
pub create_refines :
    (crypto : Crypto) (w : Bool) (draw : Draw) (input : CreateAccountInput) (name : Text)
    (disk : AccountDisk)
    → IsReadable disk
    → let username = normalise_username input.username in
      ((create crypto w draw input disk).1
        ≡ or_refusal (refusal input) (
            if is_some (account_of username disk)
            then err (name_taken username)
            else if w
            then ok (gated_answer draw input)
            else thrown))
      × (account_of name (create crypto w draw input disk).0 ≡ (
          if not (is_some (refusal input))
            && not (is_some (account_of username disk))
            && w
            && text_eq username name
          then some (gated_account crypto draw input)
          else account_of name disk))
create_refines crypto w draw input name disk h =
    let (answer, leaves) = create_refines_lem crypto w draw input name disk h in
    let (told, valid) = check_input-eq input _ in (answer ∙ told, leaves ∙ rw valid refl)
