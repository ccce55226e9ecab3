-- ===== src/Auth/Relay/Executor/Signing.antt =====
-- For whom the relay signs, and what it writes to the audit log.
use zk_voting.Prelude.{
  ◌≡◌, refl, ap, sym, Bool-cases, inl, inr, Bool, true, false, Option, none, some, List, [], ◌∷◌,
  arith, find, IsIn, find_sound,
}
use zk_voting.Prelude.Outcome.{
  Outcome, ok, err, thrown, guard, >>=-eq-ok, err-ne-ok, ok-injective, guard-eq-ok,
}
use zk_voting.Prelude.Text.{Text}
use zk_voting.Auth.AccountRecords.{GnAccountRecord, AccountStoreError}
use zk_voting.Auth.Accounts.{find_by_username, decrypt_private_key}
use zk_voting.Auth.Relay.Policy.{
  KnownContract, RelayRequest, AuthorizeInput, Authorised, Refusal, authorize_relay_call,
}
use zk_voting.Auth.Relay.Policy.Sound.{IsAuthorised, authorize_relay_call-IsAuthorised}
use zk_voting.Auth.Session.{AuthRole, admin, gn}
use zk_voting.Auth.Relay.Contracts.{DivisionSummary, Deployment, build_known_contracts}
use zk_voting.Auth.Relay.Executor.{
  Rejection, no_contracts, division_gone, not_officer, key_sealed, status_of, Server, Caller,
  or_reject, known_of, is_id, account_read, enabled_account, is_officer, check_officer, refused_as,
  resolve_admin_key, Signed, prepare_role, prepare, Submission, success, reverted, failed, rejected,
  failure, Executed, submitted, conclude, execute_relay_call,
}

or_reject-eq-ok :
    {A : Type 0} (m : Option A) (r : Rejection) (a : A) → or_reject m r ≡ ok a → m ≡ some a
or_reject-eq-ok none r a h = absurd (err-ne-ok h)
or_reject-eq-ok (some b) r a h = ap some (ok-injective b a h)

refused_as-eq-ok :
    (m : Outcome Refusal Authorised) (a : Authorised) → refused_as m ≡ ok a → m ≡ ok a
refused_as-eq-ok (ok b) a h = ap ok (ok-injective b a h)
refused_as-eq-ok (err r) a h = absurd (err-ne-ok h)
refused_as-eq-ok thrown a h = absurd (cc)

account_read-eq-ok :
    (m : Outcome AccountStoreError (Option GnAccountRecord)) (found : Option GnAccountRecord)
    → account_read m ≡ ok found
    → m ≡ ok found
account_read-eq-ok (ok b) found h = ap ok (ok-injective b found h)
account_read-eq-ok (err e) found h = absurd (err-ne-ok h)
account_read-eq-ok thrown found h = absurd (err-ne-ok h)

enabled_account-eq-ok :
    (found : Option GnAccountRecord) (a : GnAccountRecord)
    → enabled_account found ≡ ok a
    → (found ≡ some a) × (a.disabled ≡ false)
enabled_account-eq-ok none a h = absurd (err-ne-ok h)
enabled_account-eq-ok (some b) a h = ground arith

-- The officer of a division of the list: the session names the division, the account is there and
-- enabled, and the chain has its address among the division's officers.
pub record IsOfficer (server : Server) (caller : Caller) (divisions : List DivisionSummary)
    (division : DivisionSummary) (account : GnAccountRecord) : Type 0 where
  pub listed : IsIn division divisions
  pub own : is_id caller.division_id division.id ≡ true
  pub on_file : find_by_username caller.username server.accounts ≡ ok (some account)
  pub enabled : account.disabled ≡ false
  pub in_office : is_officer division account ≡ true

check_officer-IsOfficer :
    (server : Server) (caller : Caller) (divisions : List DivisionSummary)
    (r : DivisionSummary × GnAccountRecord)
    → check_officer server caller divisions ≡ ok r
    → IsOfficer server caller divisions r.0 r.1
unfolding check_officer
check_officer-IsOfficer server caller divisions r h =
    let (division, got_division, h₁) =
      >>=-eq-ok
        (or_reject (find (λ (d : DivisionSummary). is_id caller.division_id d.id) divisions)
          division_gone)
        _ r h in
    let (found, got_found, h₂) =
      >>=-eq-ok (account_read (find_by_username caller.username server.accounts)) _ r h₁ in
    let (account, got_account, h₃) = >>=-eq-ok (enabled_account found) _ r h₂ in
    let (u, office, made) = >>=-eq-ok (guard (is_officer division account) not_officer) _ r h₃ in
    let (listed, own) =
      find_sound (λ (d : DivisionSummary). is_id caller.division_id d.id) divisions division
        (or_reject-eq-ok _ division_gone division got_division) in
    let (is_found, enabled) = enabled_account-eq-ok found account got_account in
    rw (← ok-injective (division, account) r made) (record {
      listed = listed;
      own = own;
      on_file = rw (← is_found) (account_read-eq-ok _ found got_found);
      enabled = enabled;
      in_office = guard-eq-ok (is_officer division account) not_officer u office;
    })

-- What stands behind a signature, for an admin and for a GN officer.
abbrev pub IsEntitled :
    AuthRole
    → Server
    → Caller
    → RelayRequest
    → List DivisionSummary
    → List KnownContract
    → Signed
    → Type 0
IsEntitled admin server caller request divisions known s =
    IsAuthorised
      (record { role = admin; request = request; known = known; gn_division_contract = none })
      s.authorised
    × (resolve_admin_key server.admin_relay_private_key ≡ ok s.private_key)
IsEntitled gn server caller request divisions known s =
    (division : DivisionSummary) × (account : GnAccountRecord) × IsOfficer server caller divisions
      division account
    × IsAuthorised
        (record {
          role = gn;
          request = request;
          known = known;
          gn_division_contract = some division.voting_contract;
        })
        s.authorised
    × (decrypt_private_key server.crypto account ≡ some s.private_key)

prepare_role-IsEntitled :
    (role : AuthRole) (server : Server) (caller : Caller) (request : RelayRequest)
    (divisions : List DivisionSummary) (known : List KnownContract) (s : Signed)
    → prepare_role role server caller request divisions known ≡ ok s
    → IsEntitled role server caller request divisions known s
unfolding prepare_role
prepare_role-IsEntitled admin server caller request divisions known s h =
    let input : AuthorizeInput = record {
      role = admin;
      request = request;
      known = known;
      gn_division_contract = none;
    } in
    let (a, got_a, h₁) = >>=-eq-ok (refused_as (authorize_relay_call input)) _ s h in
    let (k, got_k, made) = >>=-eq-ok (resolve_admin_key server.admin_relay_private_key) _ s h₁ in
    rw (← ok-injective (record { private_key = k; authorised = a }) s made)
      (authorize_relay_call-IsAuthorised input a (refused_as-eq-ok _ a got_a), got_k)
prepare_role-IsEntitled gn server caller request divisions known s h =
    let (officer, got_officer, h₁) = >>=-eq-ok (check_officer server caller divisions) _ s h in
    let input : AuthorizeInput = record {
      role = gn;
      request = request;
      known = known;
      gn_division_contract = some officer.0.voting_contract;
    } in
    let (a, got_a, h₂) = >>=-eq-ok (refused_as (authorize_relay_call input)) _ s h₁ in
    let (k, got_k, made) =
      >>=-eq-ok (or_reject (decrypt_private_key server.crypto officer.1) key_sealed) _ s h₂ in
    rw (← ok-injective (record { private_key = k; authorised = a }) s made) (
      officer.0,
      officer.1,
      check_officer-IsOfficer server caller divisions officer got_officer,
      authorize_relay_call-IsAuthorised input a (refused_as-eq-ok _ a got_a),
      or_reject-eq-ok _ key_sealed k got_k,
    )

pub known_of-eq-ok :
    (deployment : Deployment) (divisions : Option (List DivisionSummary))
    (r : List DivisionSummary × List KnownContract)
    → known_of deployment divisions ≡ ok r
    → (divisions ≡ some r.0) × (build_known_contracts deployment r.0 ≡ some r.1)
known_of-eq-ok deployment none r h = absurd (err-ne-ok h)
known_of-eq-ok deployment (some divisions) r h =
    let (known, got, made) =
      >>=-eq-ok (or_reject (build_known_contracts deployment divisions) no_contracts) _ r h in
    rw (← ok-injective (divisions, known) r made) (refl, or_reject-eq-ok _ no_contracts known got)

submitted-signed : (s : Signed) (r : Submission) → (submitted s r).signed ≡ some s
submitted-signed s (success hash block) = refl
submitted-signed s (reverted hash block) = refl
submitted-signed s (failed name message) = refl

conclude-signed :
    (has_account : Text → Bool) (submit : Signed → Submission) (m : Outcome Rejection Signed)
    (e : Executed) (s : Signed)
    → conclude has_account submit m ≡ ok e
    → e.signed ≡ some s
    → m ≡ ok s
conclude-signed has_account submit (ok t) e s h signed =
    elim (Bool-cases (has_account t.private_key)) [
      | inl known ↦
          let same : submitted t (submit t) ≡ e = ok-injective _ e (rw known at h) in
          let mine : some t ≡ e.signed = rw (← same) (sym (submitted-signed t (submit t))) in
          let found : t ≡ s = cc in ap ok found
      | inr unknown ↦ let bad : thrown ≡ ok e = rw unknown at h in absurd (cc)
    ]
conclude-signed has_account submit (err r) e s h signed =
    let same : record { outcome = failure (status_of r); audit = rejected r ∷ []; signed = none }
        ≡ e =
      ok-injective _ e h in
    let nothing : ◌≡◌ {A = Option Signed} none e.signed = rw (← same) refl in absurd (cc)
conclude-signed has_account submit thrown e s h signed = absurd (cc)

-- The relay signs only for a caller who is entitled to it: the contracts are those of the deployment
-- and of the divisions on the chain, the policy authorises the call, and the key is the server's
-- admin key for an admin and for a GN the one of the caller's own enabled account, which the chain
-- has in office in the session's division.
pub execute-IsEntitled :
    (submit : Signed → Submission) (server : Server) (caller : Caller) (request : RelayRequest)
    (e : Executed) (s : Signed)
    → execute_relay_call submit server caller request ≡ ok e
    → e.signed ≡ some s
    → (divisions : List DivisionSummary) × (known : List KnownContract) × (server.divisions
        ≡ some divisions)
      × (build_known_contracts server.deployment divisions ≡ some known)
      × IsEntitled caller.role server caller request divisions known s
unfolding execute_relay_call prepare
execute-IsEntitled submit server caller request e s h signed =
    let prepared =
      conclude-signed server.has_account submit (prepare server caller request) e s h signed in
    let (loaded, got, ready) =
      >>=-eq-ok (known_of server.deployment server.divisions) _ s prepared in
    let (listed, built) = known_of-eq-ok server.deployment server.divisions loaded got in
    (
      loaded.0,
      loaded.1,
      listed,
      built,
      prepare_role-IsEntitled caller.role server caller request loaded.0 loaded.1 s ready,
    )
