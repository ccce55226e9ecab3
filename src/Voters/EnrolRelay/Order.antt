-- ===== src/Voters/EnrolRelay/Order.antt =====
-- The two writes of a self-enrolment, and their lines in the audit log.
use zk_voting.Prelude.{
  ℕ, ◌≡◌, refl, ◌⊎◌, inl, inr, Bool, true, false, Bool-cases, Option, none, some, [], ◌∷◌, ◌++◌,
  arith, if◌then◌else◌,
}
use zk_voting.Prelude.Outcome.{Outcome, ok, err, thrown}
use zk_voting.Prelude.Text.{Text, codes}
use zk_voting.Auth.Relay.Value.{bool, string, array, end, item, is_empty}
use zk_voting.Auth.Relay.Contracts.{DeployedEntry, Deployment}
use zk_voting.Auth.Relay.Executor.{
  Rejection, Submission, success, reverted, failed, AuditStatus, mined_success, mined_reverted,
  failed_with, RelayOutcome, relayed, failure, resolve_admin_key, or_message, status_of,
}
use zk_voting.Voters.EnrolRelay.{
  SelfEnrolInput, PreparedCall, Chain, Written, line, written, run_write, reserve_call,
  add_voters_call, then_write, write_both, deployed, enrol_with, execute_self_enrol,
}

-- The line of the audit log that a submission gets.
abbrev pub status_line : Submission → AuditStatus
status_line (success hash block) = mined_success hash block
status_line (reverted hash block) = mined_reverted hash block
status_line (failed name message) = failed_with (or_message name message)

abbrev pub outcome_of : Submission → RelayOutcome
outcome_of (success hash block) = relayed hash block
outcome_of (reverted hash block) = failure 400
outcome_of (failed name message) = failure 400

abbrev pub IsSuccess : Submission → Type 0
IsSuccess (success hash block) = Unit
IsSuccess (reverted hash block) = ⊥
IsSuccess (failed name message) = ⊥

-- The transaction that reserves a NIC for a device in a division.
abbrev pub reservation : DeployedEntry → SelfEnrolInput → PreparedCall
reservation nic_registry input = record {
  address = nic_registry.address;
  abi = nic_registry.abi;
  function_name = codes "reserveNicHash";
  args =
      item (string input.nic_hash)
        (item (string input.division.voting_contract) (item (string input.device) end));
}

-- The transaction that lets the device vote in the division.
abbrev pub addition : DeployedEntry → SelfEnrolInput → PreparedCall
addition voting input = record {
  address = input.division.voting_contract;
  abi = voting.abi;
  function_name = codes "addVoters";
  args = item (array (item (string input.device) end)) (item (array (item (bool true) end)) end);
}

-- There is no entry, or one without an address.
abbrev pub IsAbsent : Option DeployedEntry → Type 0
IsAbsent none = Unit
IsAbsent (some e) = is_empty e.address ≡ true

-- Nothing was submitted, since there is no key, or a contract is not deployed.
pub record IsNotSubmitted (w : Written) (deployment : Deployment) (admin_key : Option Text)
    : Type 0 where
  pub calls : w.calls ≡ []
  pub audit : w.audit ≡ []
  pub reason :
      ((r : Rejection) × (resolve_admin_key admin_key ≡ err r)
        × (w.outcome ≡ failure (status_of r)))
      ⊎ ((IsAbsent deployment.nic_registry_entry ⊎ (deployment.voting_entry ≡ none))
          × (w.outcome ≡ failure 503))

-- The reservation was submitted and failed.
pub record IsNotReserved (w : Written) (reserve : PreparedCall) (made : Submission) : Type 0 where
  pub unsuccessful : IsSuccess made → ⊥
  pub outcome : w.outcome ≡ failure 400
  pub calls : w.calls ≡ reserve ∷ []
  pub audit : w.audit ≡ line reserve (status_line made)

-- The reservation went well, and then the device was added, with this result.
pub record IsReserved (w : Written) (reserve add : PreparedCall) (first second : Submission)
    : Type 0 where
  pub reserved : IsSuccess first
  pub outcome : w.outcome ≡ outcome_of second
  pub calls : w.calls ≡ reserve ∷ add ∷ []
  pub audit : w.audit ≡ line reserve (status_line first) ++ line add (status_line second)

-- The key and the contracts that the transactions are of.
pub record IsReady (has_account : Text → Bool) (deployment : Deployment) (admin_key : Option Text)
    : Type 0 where
  pub private_key : Text
  pub nic_registry : DeployedEntry
  pub voting : DeployedEntry
  pub resolved : resolve_admin_key admin_key ≡ ok private_key
  pub is_key : has_account private_key ≡ true
  pub registered : deployment.nic_registry_entry ≡ some nic_registry
  pub addressed : is_empty nic_registry.address ≡ false
  pub compiled : deployment.voting_entry ≡ some voting

-- What becomes of an enrolment, by the results of its two writes.
module _ (chain : Chain) (has_account : Text → Bool) (deployment : Deployment)
    (admin_key : Option Text) (input : SelfEnrolInput) where
  abbrev pub Writes : Written → IsReady has_account deployment admin_key → Type 0
  Writes w ready =
      let reserve = reservation ready.nic_registry input in
      let add = addition ready.voting input in
      IsNotReserved w reserve (chain ready.private_key reserve)
      ⊎ IsReserved w reserve add (chain ready.private_key reserve) (chain ready.private_key add)

  abbrev pub Enrols : Outcome (Unit {0}) Written → Type 0
  Enrols (ok w) =
      IsNotSubmitted w deployment admin_key
      ⊎ ((ready : IsReady has_account deployment admin_key) × Writes w ready)
  Enrols _ =
      (private_key : Text) × (resolve_admin_key admin_key ≡ ok private_key)
      × (has_account private_key ≡ false)

second_write :
    (reserve add : PreparedCall) (hash : Text) (block : ℕ) (made : Submission)
    → IsReserved
        (then_write (written reserve (success hash block)) (relayed hash block) (written add made))
        reserve
        add
        (success hash block)
        made
second_write reserve add hash block (success h b) = record {
  reserved = tt;
  outcome = refl;
  calls = refl;
  audit = refl;
}
second_write reserve add hash block (reverted h b) = record {
  reserved = tt;
  outcome = refl;
  calls = refl;
  audit = refl;
}
second_write reserve add hash block (failed name message) = record {
  reserved = tt;
  outcome = refl;
  calls = refl;
  audit = refl;
}

both_writes :
    (reserve add : PreparedCall) (first second : Submission)
    → IsNotReserved
        (then_write (written reserve first) (written reserve first).outcome (written add second))
        reserve
        first
      ⊎ IsReserved
          (then_write (written reserve first) (written reserve first).outcome (written add second))
          reserve
          add
          first
          second
both_writes reserve add (success hash block) second =
    inr (second_write reserve add hash block second)
both_writes reserve add (reverted hash block) second =
    inl (record { unsuccessful = λ s. s; outcome = refl; calls = refl; audit = refl })
both_writes reserve add (failed name message) second =
    inl (record { unsuccessful = λ s. s; outcome = refl; calls = refl; audit = refl })

resolve_admin_key-ne-thrown : (raw : Option Text) → resolve_admin_key raw ≡ thrown → ⊥
unfolding resolve_admin_key
resolve_admin_key-ne-thrown none h = cc
resolve_admin_key-ne-thrown (some raw) h = ground arith

deployed_cases :
    (entry : Option DeployedEntry)
    → (IsAbsent entry × (deployed entry ≡ none))
      ⊎ ((e : DeployedEntry) × (entry ≡ some e)
          × (is_empty e.address ≡ false)
          × (deployed entry ≡ some e))
deployed_cases none = inl (tt, refl)
deployed_cases (some e) = elim (Bool-cases (is_empty e.address)) [
  | inl empty ↦ inl (empty, rw empty refl)
  | inr full ↦ inr (e, refl, full, rw full refl)
]

module _ (chain : Chain) (has_account : Text → Bool) (deployment : Deployment)
    (admin_key : Option Text) (input : SelfEnrolInput) where
  write_both-Enrols :
      (private_key : Text) (n v : DeployedEntry)
      → resolve_admin_key admin_key ≡ ok private_key
      → deployment.nic_registry_entry ≡ some n
      → is_empty n.address ≡ false
      → deployment.voting_entry ≡ some v
      → Enrols chain has_account deployment admin_key input
          (if has_account private_key then ok (write_both chain private_key n v input) else thrown)
  unfolding write_both run_write
  write_both-Enrols k n v key registered addressed compiled = elim (Bool-cases (has_account k)) [
    | inl known ↦ rw known (
        inr (
          record {
            private_key = k;
            nic_registry = n;
            voting = v;
            resolved = key;
            is_key = known;
            registered = registered;
            addressed = addressed;
            compiled = compiled;
          },
          both_writes (reserve_call n input) (add_voters_call v input) _ _,
        ))
    | inr unknown ↦ rw unknown (k, key, unknown)
  ]

  by_voting :
      (k : Text) (n : DeployedEntry) (voting : Option DeployedEntry)
      → resolve_admin_key admin_key ≡ ok k
      → deployment.nic_registry_entry ≡ some n
      → is_empty n.address ≡ false
      → deployment.voting_entry ≡ voting
      → Enrols chain has_account deployment admin_key input
          (enrol_with chain has_account input (ok k) (some n) voting)
  by_voting k n none key registered addressed compiled =
      inl (record { calls = refl; audit = refl; reason = inr (inr compiled, refl) })
  by_voting k n (some v) key registered addressed compiled =
      write_both-Enrols k n v key registered addressed compiled

  enrol_with_order :
      (key : Outcome Rejection Text) (voting : Option DeployedEntry)
      → resolve_admin_key admin_key ≡ key
      → deployment.voting_entry ≡ voting
      → Enrols chain has_account deployment admin_key input
          (enrol_with chain has_account input key (deployed deployment.nic_registry_entry) voting)
  enrol_with_order (err r) voting is compiled =
      inl (record { calls = refl; audit = refl; reason = inl (r, is, refl) })
  enrol_with_order thrown voting is compiled = absurd (resolve_admin_key-ne-thrown admin_key is)
  enrol_with_order (ok k) voting is compiled = elim (deployed_cases deployment.nic_registry_entry) [
    | inl (absent, e) ↦
        rw e (inl (record { calls = refl; audit = refl; reason = inr (inl absent, refl) }))
    | inr (n, registered, addressed, e) ↦
        rw e (by_voting k n voting is registered addressed compiled)
  ]

  -- A self-enrolment submits nothing and fails, since it has no key or the contracts are not
  -- deployed; or it submits, with the server's key, the reservation of the NIC for the device in
  -- the division, on the NIC registry, and fails with it; or, where the reservation went well, it
  -- submits then the addition of the device on the division's contract, and comes to what comes of
  -- that. Each write has its one line of the audit log. It throws where no account can be made of
  -- the key.
  pub execute_self_enrol_order :
      Enrols chain has_account deployment admin_key input
        (execute_self_enrol chain has_account deployment admin_key input)
  unfolding execute_self_enrol
  execute_self_enrol_order =
      enrol_with_order (resolve_admin_key admin_key) deployment.voting_entry refl refl
