-- ===== src/Voters/SelfEnrol/Tests.antt =====
-- A claim link that is used, and used again.
use zk_voting.Prelude.{◌≡◌, refl, inl, inr, Bool, true, none, some, List, [], ◌∷◌}
use zk_voting.Prelude.Json.{string, object, JsonMembers, no_members, member}
use zk_voting.Prelude.Int.{pos}
use zk_voting.Auth.Relay.Value.{integer}
use zk_voting.Prelude.Text.{
  Text, codes, text_eq, is_hex_of, trim, drop_spaces, is_space, to_lower_case, lower_unit,
}
use zk_voting.Store.{stored, read}
use zk_voting.Auth.Relay.Contracts.{DivisionSummary, DeployedEntry, Deployment}
use zk_voting.Auth.Relay.Executor.{success, resolve_admin_key}
use zk_voting.Auth.Session.{is_custom_mode, resolve_chain_mode}
use zk_voting.Otp.Token.{base64url, before_dot, second_part, replace_unit, strip_padding}
use zk_voting.Voters.EnrolmentInvites.{
  EnrolmentInviteRecord, InviteDisk, InviteStatus, pending, claimed, find_by_nic_hash,
}
use zk_voting.Voters.EnrolmentInvites.Claims.{Op, upserts, run}
use zk_voting.Voters.EnrolmentToken.{TokenClaim, TokenRuntime, verify_enrolment_token}
use zk_voting.Voters.EnrolRelay.{
  SelfEnrolInput, Chain, execute_self_enrol, run_write, write_both, reserve_call, add_voters_call,
}
use zk_voting.Voters.SelfEnrol.{EnrolServer, EnrolRequest, enrol_in, post_self_enrol}
use zk_voting.Voters.EnrolRelay.Order.{Enrols, execute_self_enrol_order}
use zk_voting.Voters.SelfEnrol.Entitled.{IsInvited, submitted-IsInvited}
use zk_voting.Voters.SelfEnrol.Once.{Carries, claimed_submits_nothing}

abbrev division : DivisionSummary
division = record {
  id = 3;
  name = codes "Kaduwela";
  voting_contract = codes "0x5fc8";
  gn_officers = [];
  active = true;
}

abbrev entry : DeployedEntry
entry = record { address = codes "0xb7f8"; abi = [] }

abbrev deployment : Deployment
deployment = record { registry = none; nic_registry_entry = some entry; voting_entry = some entry }

abbrev relay_key : Text
relay_key = codes "0x00112233445566778899aabbccddeeff00112233445566778899aabbccddeeff"

abbrev device : Text
device = codes "0x00112233445566778899aabbccddeeff00112233"

abbrev all_mined : Chain
all_mined private_key call = success call.function_name 7

abbrev runtime : TokenRuntime
runtime = record {
  hmac = λ s. codes "m";
  utf8 = λ s. s;
  from_utf8 = λ s. s;
  to_base64 = λ s. s;
  from_base64 = λ s. s;
  stringify = λ nic_hash division_id exp. nic_hash;
  parse = λ s.
      some
        (record { nic_hash = some s; division_id = some (integer (pos 3)); exp = some (pos 100) });
}

abbrev server : EnrolServer
server = record {
  chain_backend = some (codes "custom");
  runtime = runtime;
  chain = all_mined;
  deployment = deployment;
  admin_relay_private_key = some relay_key;
  has_account = λ k. true;
  divisions = some (division ∷ []);
}

abbrev request_members : JsonMembers
request_members =
    member (codes "token") (string (codes "0xab.m"))
      (member (codes "address") (string device) no_members)

abbrev request : EnrolRequest
request = record {
  body = some (object request_members);
  now = 50;
  claimed_at = codes "tue";
  writable = true;
}

abbrev grant : TokenClaim
grant = record { nic_hash = codes "0xab"; division_id = integer (pos 3) }

abbrev invite : InviteStatus → EnrolmentInviteRecord
invite status = record {
  nic_hash = codes "0xab";
  phone = codes "077";
  division_id = 3;
  status = status;
  created_at = codes "mon";
  claimed_at = none;
}

abbrev on_disk : InviteStatus → InviteDisk
on_disk status = stored (invite status ∷ [])

abbrev input : SelfEnrolInput
input = record { nic_hash = codes "0xab"; device = device; division = division }

both_signed :
    (post_self_enrol server request (on_disk pending) (on_disk pending)).calls
    ≡ reserve_call entry input ∷ add_voters_call entry input ∷ []
unfolding post_self_enrol enrol_in execute_self_enrol write_both run_write resolve_admin_key
    verify_enrolment_token find_by_nic_hash read base64url before_dot second_part replace_unit
    strip_padding text_eq is_hex_of is_custom_mode resolve_chain_mode trim drop_spaces is_space
    to_lower_case lower_unit
both_signed = refl

submitted-IsInvited_example :
    IsInvited server request (on_disk pending) (add_voters_call entry input)
submitted-IsInvited_example =
    submitted-IsInvited server request (on_disk pending) (on_disk pending)
      (add_voters_call entry input) (rw both_signed (inr (inl refl)))

abbrev any_key : Text → Bool
any_key k = true

execute_self_enrol_order_example :
    Enrols all_mined any_key deployment
      (some relay_key)
      input
      (execute_self_enrol all_mined any_key deployment (some relay_key) input)
execute_self_enrol_order_example =
    execute_self_enrol_order all_mined any_key deployment (some relay_key) input

request-Carries : Carries server request grant
unfolding verify_enrolment_token base64url before_dot second_part replace_unit strip_padding text_eq
request-Carries = record {
  value = object request_members;
  members = request_members;
  body = refl;
  read_as = refl;
  verified = refl;
}

abbrev resend : List Op
resend =
    upserts true (record { nic_hash = codes "0xab"; phone = codes "077"; division_id = 3 })
      (codes "wed")
    ∷ []

claimed_submits_nothing_example :
    (post_self_enrol server request (run resend (on_disk claimed)) (on_disk claimed)).calls ≡ []
unfolding text_eq
claimed_submits_nothing_example =
    claimed_submits_nothing server request grant resend (on_disk claimed) (on_disk claimed)
      request-Carries refl
