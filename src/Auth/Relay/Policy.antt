-- ===== src/Auth/Relay/Policy.antt =====
-- packages/nextjs/services/auth/relayPolicy.ts, `authorizeRelayCall`. The text of a refusal is its
-- constructor. `thrown` is the TypeError of `toLowerCase` on an argument that is no text.
pub mod Scope
pub mod Sound
pub mod Complete
pub mod Refusals
pub mod Tests
use zk_voting.Prelude.{
  ℕ, zero, suc, ◌+◌, Bool, true, false, not, ◌&&◌, ◌||◌, Option, none, some, List, [], ◌∷◌, ◌==◌,
  length, find, any, if◌then◌else◌,
}
use zk_voting.Prelude.Outcome.{Outcome, ok, err, thrown, ◌>>=◌, ◌>>◌, guard}
use zk_voting.Prelude.Text.{Text, codes, text_eq, to_lower_case, is_hex_of}
use zk_voting.Auth.Session.{AuthRole, admin, gn}
use zk_voting.Auth.Relay.Value.{
  Value, string, array, Values, end, item, count, at, is_truthy, is_empty,
}
use zk_voting.Auth.Relay.CoerceArg.{CoerceError, coerce_arg}

pub data ContractKind : Type 0 where
  voting election_registry nic_registry : ContractKind

pub data StateMutability : Type 0 where
  view pure nonpayable payable : StateMutability

pub record AbiFunction : Type 0 where
  pub name : Text
  pub state_mutability : StateMutability
  -- the types of the parameters
  pub inputs : List Text

pub data AbiEntry : Type 0 where
  function : AbiFunction → AbiEntry
  other : AbiEntry

pub record KnownContract : Type 0 where
  pub kind : ContractKind
  pub address : Text
  pub abi : List AbiEntry

-- A request as it comes in: its fields are typed by the source, and checked all the same.
pub record RelayRequest : Type 0 where
  pub target : Value
  pub fn : Value
  pub args : Value

pub record AuthorizeInput : Type 0 where
  pub role : AuthRole
  pub request : RelayRequest
  pub known : List KnownContract
  pub gn_division_contract : Option Text

pub record Authorised : Type 0 where
  pub contract : KnownContract
  pub abi_function : AbiFunction
  pub args : Values

pub data Reason : Type 0 where
  bad_target fn_required args_not_array unknown_target fn_not_allowed no_division : Reason
  other_division missing_in_abi read_only payable_call wrong_arg_count : Reason
  bad_arg : CoerceError → Reason

pub record Refusal : Type 0 where
  pub status : ℕ
  pub reason : Reason

abbrev pub refuse : ℕ → Reason → Refusal
refuse status reason = record { status = status; reason = reason }

abbrev set_names : List Text
set_names =
    codes "setQuestion"
    ∷ codes "setCandidates"
    ∷ codes "startRegistration"
    ∷ codes "startVoting"
    ∷ codes "endElection"
    ∷ codes "resetElection"
    ∷ codes "setGNOfficer"
    ∷ []

-- `RELAY_WHITELIST`; a kind that a role has no entry for is `[]`
unfoldable pub relay_whitelist : AuthRole → ContractKind → List Text
relay_whitelist admin voting = set_names
relay_whitelist admin election_registry =
    codes "createDivision"
    ∷ codes "addDivision"
    ∷ codes "updateDivision"
    ∷ codes "clearDivisions"
    ∷ []
relay_whitelist admin nic_registry = codes "setVotingContract" ∷ codes "clearNicHashes" ∷ []
relay_whitelist gn voting = codes "addVoters" ∷ []
relay_whitelist gn election_registry = []
relay_whitelist gn nic_registry = codes "reserveNicHash" ∷ codes "reissueDevice" ∷ []

-- `GN_DIVISION_ARG_INDEX[fn]`
pub gn_division_arg_index : Text → Option ℕ
gn_division_arg_index fn =
    if text_eq fn (codes "reserveNicHash")
    then some 1
    else if text_eq fn (codes "reissueDevice")
    then some 1
    else none

unfoldable pub same_address : Text → Text → Bool
same_address a b =
    not (is_empty a) && not (is_empty b) && text_eq (to_lower_case a) (to_lower_case b)

-- `sameAddress(args[i] as string, division)`: what is neither a text nor falsy has no `toLowerCase`
pub names_division : Value → Text → Outcome Refusal Bool
unfolding same_address
names_division (string s) division = ok (same_address s division)
names_division v division = if is_truthy v && not (is_empty division) then thrown else ok false

abbrev pub is_address : Text → Bool
is_address s = is_hex_of 40 s

abbrev pub address_text : Value → Option Text
address_text (string s) = if is_address s then some s else none
address_text _ = none

abbrev pub fn_text : Value → Option Text
fn_text (string s) = if is_empty s then none else some s
fn_text _ = none

abbrev pub array_items : Value → Option Values
array_items (array vs) = some vs
array_items _ = none

abbrev pub or_refuse : {A : Type 0} → Option A → Refusal → Outcome Refusal A
or_refuse (some a) r = ok a
or_refuse none r = err r

-- `known.find(candidate => sameAddress(candidate.address, target))`
unfoldable pub known_contract : List KnownContract → Text → Option KnownContract
known_contract known target = find (λ c. same_address c.address target) known

abbrev pub is_function : Text → AbiEntry → Bool
is_function fn (function f) = text_eq f.name fn
is_function fn other = false

-- `abi.find(entry => entry.type === "function" && entry.name === fn)`
unfoldable pub find_function : List AbiEntry → Text → Option AbiFunction
find_function [] fn = none
find_function (other ∷ abi) fn = find_function abi fn
find_function (function f ∷ abi) fn =
    let rest = find_function abi fn in if text_eq f.name fn then some f else rest

-- where the arguments do not name the division, the target must be its contract
pub is_own : Option ℕ → KnownContract → Values → Text → Outcome Refusal Bool
unfolding names_division
is_own none contract args division = ok (same_address contract.address division)
is_own (some i) contract args division = names_division (at args i) division

-- the test of a GN's own division: by the target, or by an argument
pub check_division : Option Text → KnownContract → Text → Values → Outcome Refusal (Unit {0})
unfolding is_own
check_division none contract fn args = err (refuse 403 no_division)
check_division (some division) contract fn args = do
  guard (is_address division) (refuse 403 no_division)
  own ← is_own (gn_division_arg_index fn) contract args division
  guard own (refuse 403 other_division)

unfoldable pub check_scope :
    AuthRole → Option Text → KnownContract → Text → Values → Outcome Refusal (Unit {0})
check_scope admin division contract fn args = ok tt
check_scope gn division contract fn args = check_division division contract fn args

unfoldable pub check_mutability : StateMutability → Outcome Refusal (Unit {0})
check_mutability view = err (refuse 400 read_only)
check_mutability pure = err (refuse 400 read_only)
check_mutability payable = err (refuse 403 payable_call)
check_mutability nonpayable = ok tt

abbrev pub arg_refused : {A : Type 0} → Outcome CoerceError A → Outcome Refusal A
arg_refused (ok a) = ok a
arg_refused (err e) = err (refuse 400 (bad_arg e))
arg_refused thrown = thrown

-- the loop over the inputs, from the position `i`; a missing argument is `undefined`
unfoldable pub coerce_args : List Text → Values → ℕ → Outcome Refusal Values
coerce_args [] args i = ok end
coerce_args (type ∷ types) args i = do
  first ← arg_refused (coerce_arg (at args i) type (i ∷ []))
  rest ← coerce_args types args (i + 1)
  ok (item first rest)

unfoldable pub authorize_relay_call : AuthorizeInput → Outcome Refusal Authorised
authorize_relay_call input = do
  target ← or_refuse (address_text input.request.target) (refuse 400 bad_target)
  fn ← or_refuse (fn_text input.request.fn) (refuse 400 fn_required)
  args ← or_refuse (array_items input.request.args) (refuse 400 args_not_array)
  contract ← or_refuse (known_contract input.known target) (refuse 403 unknown_target)
  guard (any (λ allowed. text_eq allowed fn) (relay_whitelist input.role contract.kind))
      (refuse 403 fn_not_allowed)
  check_scope input.role input.gn_division_contract contract fn args
  abi_function ← or_refuse (find_function contract.abi fn) (refuse 400 missing_in_abi)
  check_mutability abi_function.state_mutability
  guard (count args == length abi_function.inputs) (refuse 400 wrong_arg_count)
  coerced ← coerce_args abi_function.inputs args 0
  ok (record { contract = contract; abi_function = abi_function; args = coerced })
