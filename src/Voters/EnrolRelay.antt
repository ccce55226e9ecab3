-- ===== src/Voters/EnrolRelay.antt =====
-- packages/nextjs/services/voters/selfEnrolRelay.ts: the two writes of a self-enrolment. What the
-- chain makes of a transaction is an argument.
pub mod Order
use zk_voting.Prelude.{
  ℕ, ◌≡◌, Bool, true, false, not, ◌&&◌, ◌||◌, Option, none, some, List, [], ◌∷◌, ◌++◌, ◌==◌, find,
  if◌then◌else◌,
}
use zk_voting.Prelude.Json.{text_or_empty, members_of, Json, JsonMembers, find_member}
use zk_voting.Prelude.Outcome.{Outcome, ok, err, thrown}
use zk_voting.Prelude.Text.{Text, codes, text_eq, is_hex_of}
use zk_voting.Auth.Relay.Value.{Value, bool, string, array, Values, end, item, is_empty}
use zk_voting.Auth.Relay.Policy.{AbiEntry}
use zk_voting.Auth.Relay.Contracts.{DivisionSummary, DeployedEntry, Deployment}
use zk_voting.Auth.Relay.Executor.{
  Rejection, Submission, success, reverted, failed, AuditStatus, mined_success, mined_reverted,
  failed_with, RelayOutcome, relayed, failure, or_message, resolve_admin_key, status_of,
}
use zk_voting.Auth.Session.{is_custom_mode}
use zk_voting.Voters.EnrolmentInvites.{
  EnrolmentInviteRecord, InviteDisk, InviteError, InviteStatus, pending, claimed, claim,
  find_by_nic_hash,
}
use zk_voting.Voters.EnrolmentToken.{TokenClaim, TokenRuntime, verify_enrolment_token}

pub record SelfEnrolInput : Type 0 where
  pub nic_hash : Text
  pub device : Text
  pub division : DivisionSummary

pub record PreparedCall : Type 0 where
  pub address : Text
  pub abi : List AbiEntry
  pub function_name : Text
  pub args : Values

-- The chain, at the moments of the two writes.
abbrev pub Chain : Type 0
Chain = Text → PreparedCall → Submission

-- A line of the audit log: the function, its arguments and the status.
pub record SystemLine : Type 0 where
  pub fn : Text
  pub args : Values
  pub status : AuditStatus

-- What a write comes to, with the call that was submitted and its line of the log.
pub record Written : Type 0 where
  pub outcome : RelayOutcome
  pub calls : List PreparedCall
  pub audit : List SystemLine

abbrev pub line : PreparedCall → AuditStatus → List SystemLine
line call status = record { fn = call.function_name; args = call.args; status = status } ∷ []

abbrev pub written : PreparedCall → Submission → Written
written call (success hash block) = record {
  outcome = relayed hash block;
  calls = call ∷ [];
  audit = line call (mined_success hash block);
}
written call (reverted hash block) = record {
  outcome = failure 400;
  calls = call ∷ [];
  audit = line call (mined_reverted hash block);
}
written call (failed name message) = record {
  outcome = failure 400;
  calls = call ∷ [];
  audit = line call (failed_with (or_message name message));
}

-- `runWrite(walletClient, publicClient, call)`, the wallet being that of a private key
unfoldable pub run_write : Chain → Text → PreparedCall → Written
run_write chain private_key call = written call (chain private_key call)

abbrev pub reserve_call : DeployedEntry → SelfEnrolInput → PreparedCall
reserve_call nic_registry input = record {
  address = nic_registry.address;
  abi = nic_registry.abi;
  function_name = codes "reserveNicHash";
  args =
      item (string input.nic_hash)
        (item (string input.division.voting_contract) (item (string input.device) end));
}

abbrev pub add_voters_call : DeployedEntry → SelfEnrolInput → PreparedCall
add_voters_call voting input = record {
  address = input.division.voting_contract;
  abi = voting.abi;
  function_name = codes "addVoters";
  args = item (array (item (string input.device) end)) (item (array (item (bool true) end)) end);
}

-- the second write where the first went well
abbrev pub then_write : Written → RelayOutcome → Written → Written
then_write reserve (failure status) add = reserve
then_write reserve (relayed hash block) add = record {
  outcome = add.outcome;
  calls = reserve.calls ++ add.calls;
  audit = reserve.audit ++ add.audit;
}

abbrev pub not_written : ℕ → Written
not_written status = record { outcome = failure status; calls = []; audit = [] }

unfoldable pub write_both : Chain → Text → DeployedEntry → DeployedEntry → SelfEnrolInput → Written
unfolding run_write
write_both chain private_key nic_registry voting input =
    let reserve = run_write chain private_key (reserve_call nic_registry input) in
    then_write reserve reserve.outcome (run_write chain private_key (add_voters_call voting input))

-- an entry with an address
abbrev pub deployed : Option DeployedEntry → Option DeployedEntry
deployed none = none
deployed (some e) = if is_empty e.address then none else some e

-- `has_account` is whether viem's privateKeyToAccount makes an account of the key, and does not throw
abbrev pub enrol_with :
    Chain
    → (Text → Bool)
    → SelfEnrolInput
    → Outcome Rejection Text
    → Option DeployedEntry
    → Option DeployedEntry
    → Outcome (Unit {0}) Written
enrol_with chain has_account input (err r) _ _ = ok (not_written (status_of r))
enrol_with chain has_account input thrown _ _ = thrown
enrol_with chain has_account input (ok private_key) none _ = ok (not_written 503)
enrol_with chain has_account input (ok private_key) (some nic_registry) none = ok (not_written 503)
enrol_with chain has_account input (ok private_key) (some nic_registry) (some voting) =
    let w = write_both chain private_key nic_registry voting input in
    if has_account private_key then ok w else thrown

-- `executeSelfEnrol({ nicHash, device, division })`; resolveAdminKey never throws
unfoldable pub execute_self_enrol :
    Chain → (Text → Bool) → Deployment → Option Text → SelfEnrolInput → Outcome (Unit {0}) Written
unfolding resolve_admin_key write_both
execute_self_enrol chain has_account deployment admin_key input =
    enrol_with chain has_account input (resolve_admin_key admin_key)
      (deployed deployment.nic_registry_entry) deployment.voting_entry
