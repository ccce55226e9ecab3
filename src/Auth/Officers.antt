-- ===== src/Auth/Officers.antt =====
-- packages/nextjs/services/auth/gnAccountCreation.ts, with generatePassword of crypto.ts. The account
-- store and the relay are those of Accounts and Relay/Executor; the keys (viem) and the random bytes
-- are arguments. A failed relay call is told by its status.
pub mod Generated
pub mod Created
mod Tests
use zk_voting.Prelude.{
  ℕ, ◌%◌, ◌≡◌, ap, sym, arith, ==_iff, Bool, true, false, not, Option, none, some, List, [], ◌∷◌,
  ◌==◌, find, length, get_elem?, if◌then◌else◌,
}
use zk_voting.Prelude.Int.{pos, negsuc}
use zk_voting.Prelude.Outcome.{Outcome, ok, err, thrown, ◌>>=◌, ◌>>◌, guard}
use zk_voting.Prelude.Text.{Text, codes}
use zk_voting.Auth.AccountRecords.{
  AccountDisk, AccountStoreError, CreateAccountInput, Crypto, Draw, PublicGnAccount, is_division,
  is_name, normalise_username,
}
use zk_voting.Auth.Accounts.{create}
use zk_voting.Auth.Relay.Policy.{RelayRequest}
use zk_voting.Auth.Relay.Value.{
  Number, integer, not_a_number, fractional, string, bool, array, item, end,
}
use zk_voting.Auth.Relay.Contracts.{DivisionSummary}
use zk_voting.Auth.Relay.Executor.{
  Caller, Executed, RelayOutcome, relayed, failure, Server, Signed, Submission, execute_relay_call,
}

-- 57 characters
abbrev pub password_alphabet : Text
password_alphabet = codes "ABCDEFGHJKLMNPQRSTUVWXYZabcdefghijkmnopqrstuvwxyz23456789"

abbrev pub or_nothing : Option ℕ → ℕ
or_nothing none = 0
or_nothing (some c) = c

-- `alphabet[byte % alphabet.length]`
abbrev pub alphabet_unit : ℕ → ℕ
alphabet_unit byte = or_nothing (get_elem? password_alphabet (byte % length password_alphabet))

-- `generatePassword(length)`, of as many random bytes
unfoldable pub generate_password : List ℕ → Text
generate_password [] = []
generate_password (byte ∷ bytes) = alphabet_unit byte ∷ generate_password bytes

pub record CreateOfficerInput : Type 0 where
  pub username : Text
  pub division_id : Number
  pub assign : Option Bool

pub record CreateOfficerResult : Type 0 where
  pub username : Text
  pub password : Text
  pub address : Text
  pub division_id : Number
  pub division_name : Text
  pub assigned : Bool
  pub assign_error : Option ℕ

pub data CreateOfficerError : Type 0 where
  invalid_username invalid_division no_such_division : CreateOfficerError
  store_refusal : AccountStoreError → CreateOfficerError

-- What is drawn: the signing key, the password's bytes, and what the store draws.
pub record OfficerDraw : Type 0 where
  pub private_key : Text
  pub bytes : List ℕ
  pub draw : Draw

-- The server during a creation: `relay_server` is what the relay finds when it is asked.
pub record OfficerServer : Type 0 where
  pub crypto : Crypto
  pub address_of : Text → Text
  pub writable : Bool
  pub relay_server : Server
  pub submit : Signed → Submission

-- What a creation leaves behind: the file, the result, and the relay's call if there was one.
pub record OfficerCreation : Type 0 where
  pub disk : AccountDisk
  pub outcome : Outcome CreateOfficerError CreateOfficerResult
  pub relay_call : Option Executed

abbrev pub stop : AccountDisk → Outcome CreateOfficerError CreateOfficerResult → OfficerCreation
stop disk outcome = record { disk = disk; outcome = outcome; relay_call = none }

abbrev pub same_id : Number → ℕ → Bool
same_id (integer (pos n)) id = id == n
same_id _ id = false

pub same_id_sound : (a : Number) (n : ℕ) → same_id a n ≡ true → a ≡ integer (pos n)
same_id_sound (integer (pos m)) n h = ap (λ k. integer (pos k)) (sym ((==_iff n m).0 h))
same_id_sound (integer (negsuc m)) n h = absurd (cc)
same_id_sound not_a_number n h = absurd (cc)
same_id_sound fractional n h = absurd (cc)

abbrev pub or_no_division : Option DivisionSummary → Outcome CreateOfficerError DivisionSummary
or_no_division none = err no_such_division
or_no_division (some division) = ok division

-- the checks before anything is drawn
unfoldable pub checked_division :
    CreateOfficerInput → List DivisionSummary → Outcome CreateOfficerError DivisionSummary
checked_division input divisions =
    guard (is_name (normalise_username (normalise_username input.username))) invalid_username
    >> (guard (is_division input.division_id) invalid_division
        >> or_no_division
            (find (λ (d : DivisionSummary). same_id input.division_id d.id) divisions))

abbrev pub account_input : OfficerServer → OfficerDraw → CreateOfficerInput → CreateAccountInput
account_input server d input = record {
  username = normalise_username input.username;
  password = generate_password d.bytes;
  division_id = input.division_id;
  address = server.address_of d.private_key;
  private_key = d.private_key;
}

abbrev pub set_gn_officer : DivisionSummary → Text → RelayRequest
set_gn_officer division address = record {
  target = string division.voting_contract;
  fn = string (codes "setGNOfficer");
  args = array (item (string address) (item (bool true) end));
}

abbrev pub is_relayed : RelayOutcome → Bool
is_relayed (relayed hash block) = true
is_relayed (failure status) = false

abbrev pub relay_error : RelayOutcome → Option ℕ
relay_error (relayed hash block) = none
relay_error (failure status) = some status

abbrev pub officer_result :
    OfficerServer
    → OfficerDraw
    → CreateOfficerInput
    → DivisionSummary
    → Bool
    → Option ℕ
    → CreateOfficerResult
officer_result server d input division assigned assign_error = record {
  username = normalise_username input.username;
  password = generate_password d.bytes;
  address = server.address_of d.private_key;
  division_id = input.division_id;
  division_name = division.name;
  assigned = assigned;
  assign_error = assign_error;
}

-- `input.assign !== false`
abbrev pub wants_assign : Option Bool → Bool
wants_assign none = true
wants_assign (some b) = b

-- the end of the function, with the relay's answer
abbrev pub with_relay :
    (Bool → Option ℕ → CreateOfficerResult)
    → AccountDisk
    → Outcome (Unit {0}) Executed
    → OfficerCreation
with_relay result disk (ok e) = record {
  disk = disk;
  outcome = ok (result (is_relayed e.outcome) (relay_error e.outcome));
  relay_call = some e;
}
with_relay result disk _ = stop disk thrown

unfoldable pub assign_officer :
    OfficerServer
    → Caller
    → OfficerDraw
    → CreateOfficerInput
    → DivisionSummary
    → AccountDisk
    → OfficerCreation
unfolding execute_relay_call
assign_officer server caller d input division disk =
    let result = officer_result server d input division in
    if wants_assign input.assign
    then with_relay result disk (
        execute_relay_call server.submit server.relay_server caller
          (set_gn_officer division (server.address_of d.private_key)))
    else stop disk (ok (result false none))

abbrev pub after_create :
    (AccountDisk → OfficerCreation)
    → AccountDisk × Outcome AccountStoreError PublicGnAccount
    → OfficerCreation
after_create go (disk, ok account) = go disk
after_create go (disk, err e) = stop disk (err (store_refusal e))
after_create go (disk, thrown) = stop disk thrown

abbrev pub create_in :
    OfficerServer
    → Caller
    → OfficerDraw
    → CreateOfficerInput
    → AccountDisk
    → Outcome CreateOfficerError DivisionSummary
    → OfficerCreation
create_in server caller d input disk (ok division) =
    after_create (assign_officer server caller d input division)
      (create server.crypto server.writable d.draw (account_input server d input) disk)
create_in server caller d input disk (err e) = stop disk (err e)
create_in server caller d input disk thrown = stop disk thrown

-- `createGnOfficerAccount(input, session, divisions)`
unfoldable pub create_gn_officer_account :
    OfficerServer
    → Caller
    → OfficerDraw
    → CreateOfficerInput
    → List DivisionSummary
    → AccountDisk
    → OfficerCreation
unfolding checked_division create assign_officer
create_gn_officer_account server caller d input divisions disk =
    create_in server caller d input disk (checked_division input divisions)
