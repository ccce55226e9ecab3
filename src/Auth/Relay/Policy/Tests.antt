-- ===== src/Auth/Relay/Policy/Tests.antt =====
-- The policy at concrete requests.
use zk_voting.Prelude.{◌≡◌, refl, some, [], ◌∷◌, ◌++◌, arith, inl}
use zk_voting.Prelude.Int.{pos, negsuc}
use zk_voting.Prelude.Outcome.{ok, err}
use zk_voting.Prelude.Text.{Text, codes, text_eq, to_lower_case, is_hex_of, trim, is_space}
use zk_voting.Auth.Session.{gn}
use zk_voting.Auth.Relay.Value.{Value, number, integer, string, array, bigint, Values, end, item}
use zk_voting.Auth.Relay.CoerceArg.{array_match, scalar_of, check_length, coerce_scalar, coerce_arg}
use zk_voting.Auth.Relay.CoerceArg.Fits.{Fits, scalar, coerce_arg-Fits}
use zk_voting.Auth.Relay.Policy.{
  voting, nic_registry, nonpayable, AbiFunction, function, other, KnownContract, AuthorizeInput,
  Authorised, other_division, refuse, relay_whitelist, gn_division_arg_index, same_address,
  known_contract, find_function, check_division, check_scope, check_mutability, coerce_args,
  authorize_relay_call,
}
use zk_voting.Auth.Relay.Policy.Sound.{IsAuthorised, authorize_relay_call-IsAuthorised}
use zk_voting.Auth.Relay.Policy.Complete.{authorize_relay_call_complete}

abbrev twenty : Text
twenty = codes "1234567890abcdefABCD"

abbrev pub registry_address : Text
registry_address = codes "0x" ++ twenty ++ twenty

abbrev pub division : Text
division = codes "0xaaaaaaaaaaaaaaaaaaaaaaaaaaaaaaaaaaaaaaaa"

-- the same address in upper case
abbrev pub division_upper : Text
division_upper = codes "0xAAAAAAAAAAAAAAAAAAAAAAAAAAAAAAAAAAAAAAAA"

abbrev device : Text
device = codes "0x1111111111111111111111111111111111111111"

abbrev nic_hash : Text
nic_hash = codes "0x" ++ codes "0123456789abcdef0123456789abcdef0123456789abcdef0123456789abcdef"

abbrev pub reserve : AbiFunction
reserve = record {
  name = codes "reserveNicHash";
  state_mutability = nonpayable;
  inputs = codes "bytes32" ∷ codes "address" ∷ codes "address" ∷ [];
}

abbrev pub registry : KnownContract
registry = record {
  kind = nic_registry;
  address = registry_address;
  abi = other ∷ function reserve ∷ [];
}

abbrev pub args_naming : Value → Values
args_naming v = item (string nic_hash) (item v (item (string device) end))

abbrev request_naming : Value → AuthorizeInput
request_naming v = record {
  role = gn;
  request = record {
    target = string registry_address;
    fn = string (codes "reserveNicHash");
    args = array (args_naming v);
  };
  known = registry ∷ [];
  gn_division_contract = some division;
}

abbrev pub signed : Authorised
signed = record {
  contract = registry;
  abi_function = reserve;
  args = args_naming (string division_upper);
}

gn_reserves : authorize_relay_call (request_naming (string division_upper)) ≡ ok signed
unfolding authorize_relay_call known_contract find_function check_scope check_division
    gn_division_arg_index relay_whitelist same_address check_mutability coerce_args coerce_arg
    coerce_scalar scalar_of array_match text_eq to_lower_case is_hex_of
gn_reserves = refl

-- the same with the contract of the division known too
abbrev pub with_voting : AuthorizeInput
with_voting = record (request_naming (string division_upper)) {
  known = registry ∷ record { kind = voting; address = division; abi = [] } ∷ [];
}

pub gn_reserves_with_voting : authorize_relay_call with_voting ≡ ok signed
unfolding authorize_relay_call known_contract find_function check_scope check_division
    gn_division_arg_index relay_whitelist same_address check_mutability coerce_args coerce_arg
    coerce_scalar scalar_of array_match text_eq to_lower_case is_hex_of
gn_reserves_with_voting = refl

abbrev other_request : AuthorizeInput
other_request = request_naming (string device)

other_division_refused : authorize_relay_call other_request ≡ err (refuse 403 other_division)
unfolding authorize_relay_call known_contract check_scope check_division gn_division_arg_index
    relay_whitelist same_address text_eq to_lower_case is_hex_of
other_division_refused = refl

coerce_arg-Fits_example :
    Fits (codes "uint8[2]") (array (item (bigint (pos 255)) (item (bigint (pos 7)) end)))
unfolding coerce_arg coerce_scalar scalar_of array_match text_eq check_length trim is_space
coerce_arg-Fits_example =
    coerce_arg-Fits (array (item (number (integer (pos 255))) (item (string (codes " 7")) end)))
      (array (item (bigint (pos 255)) (item (bigint (pos 7)) end))) (codes "uint8[2]") (0 ∷ []) refl

-- A value of `int8`, which fits.
least_int8 : Fits (codes "int8") (bigint (negsuc 127))
unfolding scalar_of array_match text_eq
least_int8 = scalar refl (omega arith)

authorize_relay_call-IsAuthorised_example :
    IsAuthorised (request_naming (string division_upper)) signed
authorize_relay_call-IsAuthorised_example =
    authorize_relay_call-IsAuthorised (request_naming (string division_upper)) signed gn_reserves

authorize_relay_call_complete_example :
    authorize_relay_call (request_naming (string division_upper)) ≡ ok signed
unfolding known_contract find_function relay_whitelist same_address text_eq to_lower_case is_hex_of
    scalar_of array_match
authorize_relay_call_complete_example =
    authorize_relay_call_complete (request_naming (string division_upper)) registry_address
      (codes "reserveNicHash") (args_naming (string division_upper)) registry reserve refl refl refl
      refl refl (inl refl) (division, refl, refl, (division_upper, refl, refl)) refl refl
      (scalar refl refl, (scalar refl refl, (scalar refl refl, tt)))
