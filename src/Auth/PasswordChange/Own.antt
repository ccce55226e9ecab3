-- ===== src/Auth/PasswordChange/Own.antt =====
-- Whose password a request changes.
use zk_voting.Prelude.{
  ◌≡◌, refl, ◌⊎◌, inl, inr, true, false, Option, none, some, [], ◌∷◌, Bool-cases,
}
use zk_voting.Prelude.Json.{text_or_empty, members_of, Json, JsonMembers, find_member}
use zk_voting.Prelude.Map.{Entries}
use zk_voting.Prelude.Outcome.{Outcome, ok, err, thrown}
use zk_voting.Prelude.Text.{Text, codes}
use zk_voting.Store.{mutate}
use zk_voting.Store.Mutation.{is_ok, mutate_failed}
use zk_voting.Auth.AccountRecords.{
  AccountDisk, AccountStoreError, Crypto, GnAccountRecord, PublicGnAccount, corrupt_store,
  all_with_defaults, normalise_username,
}
use zk_voting.Auth.Accounts.{
  change_allowed, change_password, checked, find_by_username, take_custody, update_change,
  verify_password,
}
use zk_voting.Auth.PasswordPolicy.{PasswordProblem, password_problem}
use zk_voting.Auth.RateLimit.{Window, consume}
use zk_voting.Auth.Relay.Value
use zk_voting.Auth.Relay.Value.{is_empty}
use zk_voting.Auth.Session.{AuthRole, admin, gn, is_custom_mode}
use zk_voting.Auth.Session.Gate.{SessionRefusal, SignedIn, require_session}
use zk_voting.Auth.PasswordChange.{
  change_success, PasswordRequest, PasswordEffects, password_rate_limit, after_change, change_for,
  change_found, change_if_good, with_passwords, with_members, with_body, limited_change, for_role,
  for_session, post_password,
}

-- A changePassword that does not succeed leaves the file as it was.
change_password_failed :
    (crypto : Crypto) (req : PasswordRequest) (name new : Text) (disk : AccountDisk)
    → is_ok (change_password crypto req.writable req.draw name new req.seen disk).1 ≡ false
    → (change_password crypto req.writable req.draw name new req.seen disk).0 ≡ disk
unfolding change_password
change_password_failed crypto req name new disk h =
    by_check (change_allowed crypto (normalise_username name) new req.seen) h
  where
    step : AccountDisk × Outcome AccountStoreError PublicGnAccount
    step =
        mutate corrupt_store all_with_defaults req.writable
          (update_change (normalise_username name) (take_custody crypto req.draw new)) disk

    by_check :
        (verdict : Outcome AccountStoreError (Unit {0}))
        → is_ok (checked verdict disk (λ _. step)).1 ≡ false
        → (checked verdict disk (λ _. step)).0 ≡ disk
    by_check (ok u) k = mutate_failed corrupt_store all_with_defaults req.writable _ disk k
    by_check (err e) k = refl
    by_check thrown k = refl

abbrev pub IsUnchanged : AccountDisk → PasswordEffects → Type 0
IsUnchanged disk effects = (effects.disk ≡ disk) × (effects.gate_lifted ≡ false)

abbrev pub current_of : JsonMembers → Text
current_of ms = text_or_empty (find_member (codes "currentPassword") ms)

abbrev pub new_of : JsonMembers → Text
new_of ms = text_or_empty (find_member (codes "newPassword") ms)

-- An officer who is signed in has changed the password of the own enabled account, whose current
-- password the request has, to one that conforms, with a line of the log.
pub record IsOwnChange (crypto : Crypto) (req : PasswordRequest) (disk : AccountDisk)
    (effects : PasswordEffects) : Type 0 where
  pub officer : SignedIn
  pub members : JsonMembers
  pub account : GnAccountRecord
  pub shown : PublicGnAccount
  pub signed : require_session none true req.session ≡ ok officer
  pub role : officer.role ≡ gn
  pub body : (v : Json) × (req.body ≡ some v) × (members_of v ≡ some members)
  pub own : find_by_username officer.username req.read_first ≡ ok (some account)
  pub enabled : account.disabled ≡ false
  pub verified : verify_password crypto (current_of members) account.password_hash ≡ true
  pub conforms : password_problem (Value.string (new_of members)) ≡ none
  pub change :
      change_password crypto req.writable req.draw account.username (new_of members) req.seen disk
      ≡ (effects.disk, ok shown)
  pub audited : effects.audit ≡ change_success ∷ []

module _ (crypto : Crypto) (req : PasswordRequest) (disk : AccountDisk) where
  abbrev pub Explained : PasswordEffects → Type 0
  Explained effects = IsUnchanged disk effects ⊎ IsOwnChange crypto req disk effects

  module _ (s : SignedIn) (v : Json) (ms : JsonMembers) (attempts : Entries Window)
      (signed : require_session none true req.session ≡ ok s) (role : s.role ≡ gn)
      (body : req.body ≡ some v) (read_as : members_of v ≡ some ms) where
    after-Explained :
        (account : GnAccountRecord) (made : AccountDisk × Outcome AccountStoreError PublicGnAccount)
        → change_password crypto req.writable req.draw account.username (new_of ms) req.seen disk
          ≡ made
        → find_by_username s.username req.read_first ≡ ok (some account)
        → account.disabled ≡ false
        → verify_password crypto (current_of ms) account.password_hash ≡ true
        → password_problem (Value.string (new_of ms)) ≡ none
        → (is_ok made.1 ≡ false → made.0 ≡ disk)
        → Explained (after_change req attempts account made)
    after-Explained account (after, ok p) same own enabled verified conforms kept = inr (record {
      officer = s;
      members = ms;
      account = account;
      shown = p;
      signed = signed;
      role = role;
      body = (v, body, read_as);
      own = own;
      enabled = enabled;
      verified = verified;
      conforms = conforms;
      change = same;
      audited = refl;
    })
    after-Explained account (after, err e) same own enabled verified conforms kept =
        inl (kept refl, refl)
    after-Explained account (after, thrown) same own enabled verified conforms kept =
        inl (kept refl, refl)

    for-Explained :
        (account : GnAccountRecord)
        → find_by_username s.username req.read_first ≡ ok (some account)
        → password_problem (Value.string (new_of ms)) ≡ none
        → Explained (change_for crypto req attempts disk (current_of ms) (new_of ms) account)
    for-Explained account own conforms = elim (Bool-cases account.disabled) [
      | inl off ↦ rw off (inl (refl, refl))
      | inr on ↦ elim (Bool-cases (verify_password crypto (current_of ms) account.password_hash)) [
        | inr wrong ↦ rw (on, wrong) (inl (refl, refl))
        | inl right ↦
            rw (on, right)
              (after-Explained account _ refl own on right conforms
                (change_password_failed crypto req account.username (new_of ms) disk))
      ]
    ]

    found-Explained :
        (found : Outcome AccountStoreError (Option GnAccountRecord))
        → find_by_username s.username req.read_first ≡ found
        → password_problem (Value.string (new_of ms)) ≡ none
        → Explained (change_found crypto req attempts disk (current_of ms) (new_of ms) found)
    found-Explained (ok none) own conforms = inl (refl, refl)
    found-Explained (ok (some account)) own conforms = for-Explained account own conforms
    found-Explained (err e) own conforms = inl (refl, refl)
    found-Explained thrown own conforms = inl (refl, refl)

    problem-Explained :
        (problem : Option PasswordProblem)
        → password_problem (Value.string (new_of ms)) ≡ problem
        → Explained (
            change_if_good
              (λ _.
                change_found crypto req attempts disk
                  (current_of ms)
                  (new_of ms)
                  (find_by_username s.username req.read_first))
              attempts
              disk
              problem)
    problem-Explained none conforms = found-Explained _ refl conforms
    problem-Explained (some problem) conforms = inl (refl, refl)

    passwords-Explained :
        Explained (with_passwords crypto req s attempts disk (current_of ms) (new_of ms))
    passwords-Explained = elim (Bool-cases (is_empty (current_of ms))) [
      | inl e ↦ rw e (inl (refl, refl))
      | inr e ↦ rw e (problem-Explained _ refl)
    ]

  module _ (s : SignedIn) (attempts : Entries Window)
      (signed : require_session none true req.session ≡ ok s) (role : s.role ≡ gn) where
    members-Explained :
        (v : Json) (parsed : Option JsonMembers)
        → req.body ≡ some v
        → members_of v ≡ parsed
        → Explained (with_members crypto req s attempts disk parsed)
    members-Explained v none body read_as = inl (refl, refl)
    members-Explained v (some ms) body read_as =
        passwords-Explained s v ms attempts signed role body read_as

    body-Explained :
        (body : Option Json)
        → req.body ≡ body
        → Explained (with_body crypto req s attempts disk body)
    body-Explained none e = inl (refl, refl)
    body-Explained (some v) e = members-Explained v _ e refl

  session-Explained :
      (s : SignedIn) (role : AuthRole) (attempts : Entries Window)
      → require_session none true req.session ≡ ok s
      → s.role ≡ role
      → Explained (for_role crypto req s attempts disk role)
  unfolding limited_change
  session-Explained s admin attempts signed same = inl (refl, refl)
  session-Explained s gn attempts signed same =
      let (table, decision) = consume password_rate_limit req.now req.ip attempts in
      elim (Bool-cases decision.allowed) [
        | inl e ↦ rw e (body-Explained s table signed same req.body refl)
        | inr e ↦ rw e (inl (refl, refl))
      ]

  gate-Explained :
      (gate : Outcome SessionRefusal SignedIn) (attempts : Entries Window)
      → require_session none true req.session ≡ gate
      → Explained (for_session crypto req attempts disk gate)
  gate-Explained (ok s) attempts signed = session-Explained s s.role attempts signed refl
  gate-Explained (err refusal) attempts signed = inl (refl, refl)
  gate-Explained thrown attempts signed = inl (refl, refl)

  -- A request for a change of password leaves the file and the pending change as they were, or it
  -- is of an officer who is signed in, and changes the password of the own enabled account, whose
  -- current password the request has, to one that conforms to the policy, as changePassword does,
  -- with a line of the audit log.
  pub post_password-IsOwnChange :
      (backend : Option Text) (attempts : Entries Window)
      → IsUnchanged disk (post_password backend crypto req attempts disk)
        ⊎ IsOwnChange crypto req disk (post_password backend crypto req attempts disk)
  unfolding post_password
  post_password-IsOwnChange backend attempts = elim (Bool-cases (is_custom_mode backend)) [
    | inl e ↦ rw e (gate-Explained _ attempts refl)
    | inr e ↦ rw e (inl (refl, refl))
  ]
