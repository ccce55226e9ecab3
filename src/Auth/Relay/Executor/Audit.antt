-- ===== src/Auth/Relay/Executor/Audit.antt =====
-- What a call of the relay writes to the audit log, and when it throws.
use zk_voting.Prelude.{
  ◌≡◌, refl, sym, false, inl, inr, ◌⊎◌, Bool-cases, Option, none, some, List, [], ◌∷◌, arith, find,
}
use zk_voting.Prelude.Outcome.{Outcome, ok, err, thrown, ◌>>=◌}
use zk_voting.Prelude.Text.{Text}
use zk_voting.Auth.AccountRecords.{GnAccountRecord, AccountStoreError}
use zk_voting.Auth.Accounts.{find_by_username, decrypt_private_key}
use zk_voting.Auth.Relay.Policy.{
  KnownContract, RelayRequest, AuthorizeInput, Authorised, Refusal, authorize_relay_call,
}
use zk_voting.Auth.Session.{AuthRole, admin, gn}
use zk_voting.Auth.Relay.Contracts.{DivisionSummary, Deployment, build_known_contracts}
use zk_voting.Auth.Relay.Executor.Signing.{known_of-eq-ok}
use zk_voting.Auth.Relay.Executor.{
  Rejection, no_contracts, division_gone, key_sealed, status_of, Server, Caller, or_reject,
  known_of, is_id, account_read, enabled_account, is_officer, check_officer, refused_as,
  resolve_admin_key, Signed, prepare_role, prepare, Submission, success, reverted, failed,
  AuditStatus, rejected, mined_success, mined_reverted, failed_with, relayed, failure, Executed,
  submitted, conclude, execute_relay_call,
}

module _ {E A B : Type 0} where
  >>=-eq-thrown :
      (m : Outcome E A) (f : A → Outcome E B)
      → (m >>= f) ≡ thrown
      → (m ≡ thrown) ⊎ ((a : A) × (m ≡ ok a) × (f a ≡ thrown))
  >>=-eq-thrown (ok a) f h = inr (a, refl, h)
  >>=-eq-thrown (err e) f h = absurd (cc)
  >>=-eq-thrown thrown f h = inl refl

or_reject-ne-thrown : {A : Type 0} (m : Option A) (r : Rejection) → or_reject m r ≡ thrown → ⊥
or_reject-ne-thrown none r h = cc
or_reject-ne-thrown (some a) r h = cc

refused_as-eq-thrown : (m : Outcome Refusal Authorised) → refused_as m ≡ thrown → m ≡ thrown
refused_as-eq-thrown (ok a) h = absurd (cc)
refused_as-eq-thrown (err r) h = absurd (cc)
refused_as-eq-thrown thrown h = refl

resolve_admin_key-ne-thrown : (raw : Option Text) → resolve_admin_key raw ≡ thrown → ⊥
unfolding resolve_admin_key
resolve_admin_key-ne-thrown none h = cc
resolve_admin_key-ne-thrown (some raw) h = ground arith

account_read-ne-thrown :
    (m : Outcome AccountStoreError (Option GnAccountRecord)) → account_read m ≡ thrown → ⊥
account_read-ne-thrown (ok found) h = cc
account_read-ne-thrown (err e) h = cc
account_read-ne-thrown thrown h = cc

enabled_account-ne-thrown : (found : Option GnAccountRecord) → enabled_account found ≡ thrown → ⊥
enabled_account-ne-thrown none h = cc
enabled_account-ne-thrown (some account) h = ground arith

check_officer-ne-thrown :
    (server : Server) (caller : Caller) (divisions : List DivisionSummary)
    → check_officer server caller divisions ≡ thrown
    → ⊥
unfolding check_officer
check_officer-ne-thrown server caller divisions h =
    elim (>>=-eq-thrown
      (or_reject (find (λ (d : DivisionSummary). is_id caller.division_id d.id) divisions)
        division_gone)
      _ h) [
        | inl threw ↦ or_reject-ne-thrown _ division_gone threw
        | inr (division, _, h₁) ↦
            elim (>>=-eq-thrown (account_read (find_by_username caller.username server.accounts)) _
              h₁) [
                | inl threw ↦ account_read-ne-thrown _ threw
                | inr (found, _, h₂) ↦ elim (>>=-eq-thrown (enabled_account found) _ h₂) [
                  | inl threw ↦ enabled_account-ne-thrown found threw
                  | inr (account, _, h₃) ↦ elim (Bool-cases (is_officer division account)) [
                    | inl office ↦ let made = rw office at h₃ in cc
                    | inr none_here ↦ let made = rw none_here at h₃ in cc
                  ]
                ]
              ]
      ]

known_of-ne-thrown :
    (deployment : Deployment) (divisions : Option (List DivisionSummary))
    → known_of deployment divisions ≡ thrown
    → ⊥
known_of-ne-thrown deployment none h = cc
known_of-ne-thrown deployment (some divisions) h =
    elim (>>=-eq-thrown (or_reject (build_known_contracts deployment divisions) no_contracts) _ h) [
      | inl threw ↦ or_reject-ne-thrown _ no_contracts threw
      | inr (known, _, last) ↦ cc
    ]

module _ (server : Server) (caller : Caller) (request : RelayRequest) where
  -- What the policy is asked: the request of the caller, on the contracts of the server.
  abbrev pub IsPolicyInput : List DivisionSummary → List KnownContract → AuthorizeInput → Type 0
  IsPolicyInput divisions known input =
      (input.role ≡ caller.role)
      × (input.request ≡ request)
      × (input.known ≡ known)
      × (((caller.role ≡ admin) × (input.gn_division_contract ≡ none))
          ⊎ ((officer : DivisionSummary × GnAccountRecord) × (caller.role ≡ gn)
              × (check_officer server caller divisions ≡ ok officer)
              × (input.gn_division_contract ≡ some officer.0.voting_contract)))

  -- The contracts could be read, and the policy throws on what it is asked.
  abbrev pub PolicyThrows : Type 0
  PolicyThrows =
      (divisions : List DivisionSummary) × (known : List KnownContract) × (input : AuthorizeInput)
      × (server.divisions ≡ some divisions)
      × (build_known_contracts server.deployment divisions ≡ some known)
      × IsPolicyInput divisions known input
      × (authorize_relay_call input ≡ thrown)

  -- The call is authorised, and its key is one that no account can be made of.
  abbrev pub KeyThrows : Type 0
  KeyThrows =
      (s : Signed) × (prepare server caller request ≡ ok s)
      × (server.has_account s.private_key ≡ false)

  prepare_role-thrown :
      (divisions : List DivisionSummary) (known : List KnownContract) (role : AuthRole)
      → caller.role ≡ role
      → prepare_role role server caller request divisions known ≡ thrown
      → (input : AuthorizeInput) × IsPolicyInput divisions known input
        × (authorize_relay_call input ≡ thrown)
  unfolding prepare_role
  prepare_role-thrown divisions known admin is h =
      let input : AuthorizeInput = record {
        role = admin;
        request = request;
        known = known;
        gn_division_contract = none;
      } in
      elim (>>=-eq-thrown (refused_as (authorize_relay_call input)) _ h) [
        | inl threw ↦ (input, (sym is, refl, refl, inl (is, refl)), refused_as-eq-thrown _ threw)
        | inr (a, _, later) ↦
            elim (>>=-eq-thrown (resolve_admin_key server.admin_relay_private_key) _ later) [
              | inl threw ↦ absurd (resolve_admin_key-ne-thrown _ threw)
              | inr (k, _, last) ↦ absurd (cc)
            ]
      ]
  prepare_role-thrown divisions known gn is h =
      elim (>>=-eq-thrown (check_officer server caller divisions) _ h) [
        | inl threw ↦ absurd (check_officer-ne-thrown server caller divisions threw)
        | inr (officer, checked, then_on) ↦
            let input : AuthorizeInput = record {
              role = gn;
              request = request;
              known = known;
              gn_division_contract = some officer.0.voting_contract;
            } in
            elim (>>=-eq-thrown (refused_as (authorize_relay_call input)) _ then_on) [
              | inl threw ↦ (
                input,
                (sym is, refl, refl, inr (officer, is, checked, refl)),
                refused_as-eq-thrown _ threw,
              )
              | inr (a, _, later) ↦
                  elim (>>=-eq-thrown
                    (or_reject (decrypt_private_key server.crypto officer.1) key_sealed) _ later) [
                      | inl threw ↦ absurd (or_reject-ne-thrown _ key_sealed threw)
                      | inr (k, _, last) ↦ absurd (cc)
                    ]
            ]
      ]

  prepare-thrown : prepare server caller request ≡ thrown → PolicyThrows
  unfolding prepare
  prepare-thrown h = elim (>>=-eq-thrown (known_of server.deployment server.divisions) _ h) [
    | inl threw ↦ absurd (known_of-ne-thrown server.deployment server.divisions threw)
    | inr (loaded, got, later) ↦
        let (listed, built) = known_of-eq-ok server.deployment server.divisions loaded got in
        let (input, asked, threw) = prepare_role-thrown loaded.0 loaded.1 caller.role refl later in
        (loaded.0, loaded.1, input, listed, built, asked, threw)
  ]

  -- What an audit line tells of the call that it stands for: that it was rejected, with nothing
  -- signed, or what became of the one transaction that it had signed.
  abbrev pub Tells : (Signed → Submission) → AuditStatus → Executed → Type 0
  Tells submit (rejected r) e =
      (prepare server caller request ≡ err r)
      × (e.outcome ≡ failure (status_of r))
      × (e.signed ≡ none)
  Tells submit (mined_success hash block) e =
      (s : Signed) × (prepare server caller request ≡ ok s)
      × (e.signed ≡ some s)
      × (submit s ≡ success hash block)
      × (e.outcome ≡ relayed hash block)
  Tells submit (mined_reverted hash block) e =
      (s : Signed) × (prepare server caller request ≡ ok s)
      × (e.signed ≡ some s)
      × (submit s ≡ reverted hash block)
      × (e.outcome ≡ failure 400)
  Tells submit (failed_with told) e =
      (s : Signed) × (prepare server caller request ≡ ok s)
      × (e.signed ≡ some s)
      × (e.outcome ≡ failure 400)
      × (((name : Text) × (message : Text) × (submit s ≡ failed (some name) message)
            × (told ≡ name))
          ⊎ (submit s ≡ failed none told))

  submitted-Tells :
      (submit : Signed → Submission) (s : Signed) (r : Submission)
      → prepare server caller request ≡ ok s
      → submit s ≡ r
      → (line : AuditStatus) × ((submitted s r).audit ≡ line ∷ [])
        × Tells submit line (submitted s r)
  submitted-Tells submit s (success hash block) is made =
      (mined_success hash block, refl, (s, is, refl, made, refl))
  submitted-Tells submit s (reverted hash block) is made =
      (mined_reverted hash block, refl, (s, is, refl, made, refl))
  submitted-Tells submit s (failed none message) is made =
      (failed_with message, refl, (s, is, refl, refl, inr made))
  submitted-Tells submit s (failed (some name) message) is made =
      (failed_with name, refl, (s, is, refl, refl, inl (name, message, made, refl)))

  -- A call returned, with one line that tells what, or it threw, for one of two reasons.
  abbrev pub IsTold : (Signed → Submission) → Outcome (Unit {0}) Executed → Type 0
  IsTold submit result =
      ((e : Executed) × (result ≡ ok e)
        × (line : AuditStatus) × (e.audit ≡ line ∷ [])
        × Tells submit line e)
      ⊎ ((result ≡ thrown) × (PolicyThrows ⊎ KeyThrows))

  by_prepared :
      (submit : Signed → Submission) (m : Outcome Rejection Signed)
      → prepare server caller request ≡ m
      → IsTold submit (conclude server.has_account submit m)
  by_prepared submit (ok s) is = elim (Bool-cases (server.has_account s.private_key)) [
    | inl known ↦
        let (line, one, told) = submitted-Tells submit s (submit s) is refl in
        rw known (inl (submitted s (submit s), refl, line, one, told))
    | inr unknown ↦ rw unknown (inr (refl, inr (s, is, unknown)))
  ]
  by_prepared submit (err r) is = inl (
    record { outcome = failure (status_of r); audit = rejected r ∷ []; signed = none },
    refl,
    rejected r,
    refl,
    (is, refl, refl),
  )
  by_prepared submit thrown is = inr (refl, inl (prepare-thrown is))

  -- A call returns and writes exactly one audit line, which tells what was returned: a rejection,
  -- with nothing signed, or the result of the signed transaction. It throws, without a line, only
  -- where the policy throws on the request, for the role of the caller, the contracts of the server
  -- and, for a GN, the own division; or where the call is authorised and viem makes no account of
  -- its key.
  pub execute-Tells :
      (submit : Signed → Submission)
      → IsTold submit (execute_relay_call submit server caller request)
  unfolding execute_relay_call
  execute-Tells submit = by_prepared submit (prepare server caller request) refl
