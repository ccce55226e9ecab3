-- ===== src/Auth/Relay/CoerceArg.antt =====
-- packages/nextjs/services/auth/relayPolicy.ts, `coerceArg`. The text of a refusal is its
-- constructor, and the path that it names is the list of positions that lead to the value.
pub mod Fits
use zk_voting.Prelude.{
  ℕ, zero, suc, ◌+◌, ◌-◌, ◌*◌, ◌^◌, Bool, true, false, not, ◌&&◌, ◌||◌, Option, none, some, List,
  [], ◌∷◌, ◌++◌, leb, ltb, ◌==◌, length, all, if◌then◌else◌,
}
use mathlib.Core.List.{reverse}
use mathlib.Core.Option
use zk_voting.Prelude.Int.{ℤ, pos, negsuc, sub_ℕ, ltb_ℤ}
use zk_voting.Prelude.Outcome.{Outcome, ok, err, thrown, ◌>>=◌, ◌>>◌, guard}
use zk_voting.Prelude.Text.{Text, codes, text_eq, trim, is_digit, is_hex_digit, is_hex_of}
use zk_voting.Auth.Relay.Value.{
  Number, integer, not_a_number, fractional, Value, undefined, null, bool, number, bigint, string,
  array, object, Values, end, item, count,
}

abbrev pub max_array_length : ℕ
max_array_length = 500

abbrev pub max_string_length : ℕ
max_string_length = 4096

pub data CoerceProblem : Type 0 where
  not_an_array too_many_items wrong_item_count not_an_address not_a_boolean not_a_string :
      CoerceProblem
  string_too_long not_sized_hex not_hex unsafe_integer not_an_integer : CoerceProblem
  negative out_of_range unsupported_type : CoerceProblem

pub record CoerceError : Type 0 where
  pub path : List ℕ
  pub problem : CoerceProblem

abbrev is_line_end : ℕ → Bool
is_line_end c = c == 10 || c == 13 || c == 0x2028 || c == 0x2029

-- the digits before `]`, read from the right, and what stands before their `[`
from_bracket : Text → Text → Option (Text × Text)
from_bracket digits [] = none
from_bracket digits (c ∷ s) =
    let longer = from_bracket (c ∷ digits) s in
    if is_digit c
    then longer
    else if c == b'[' && all (λ u. not (is_line_end u)) s
    then some (reverse s, digits)
    else none

-- `/^(.*)\[(\d*)\]$/`: the element type and the digits of the length
unfoldable pub array_match : Text → Option (Text × Text)
unfolding from_bracket
array_match type = elim (reverse type) [
  | [] ↦ none
  | c ∷ s ↦ if c == b']' then from_bracket [] s else none
]

-- `Number(digits)`
pub to_number : ℕ → Text → ℕ
to_number n [] = n
to_number n (c ∷ s) = to_number (n * 10 + (c - b'0')) s

pub strip_prefix : Text → Text → Option Text
strip_prefix [] s = some s
strip_prefix (p ∷ ps) [] = none
strip_prefix (p ∷ ps) (c ∷ s) = let rest = strip_prefix ps s in if p == c then rest else none

abbrev has_digits : Text → Bool
has_digits [] = false
has_digits (c ∷ s) = all is_digit (c ∷ s)

pub data Scalar : Type 0 where
  address boolean text bytes unsupported : Scalar
  sized_bytes : ℕ → Scalar
  whole : (unsigned : Bool) → (bits : ℕ) → Scalar

-- `integer[2] || "256"`
abbrev width_of : Text → ℕ
width_of [] = 256
width_of digits = to_number 0 digits

-- `/^(u?)int(\d*)$/`
abbrev integer_type : Text → Option (Bool × ℕ)
integer_type type = elim (strip_prefix (codes "uint") type) [
  | some digits ↦ if all is_digit digits then some (true, width_of digits) else none
  | none ↦ elim (strip_prefix (codes "int") type) [
    | some digits ↦ if all is_digit digits then some (false, width_of digits) else none
    | none ↦ none
  ]
]

-- `/^bytes(\d+)$/`
abbrev sized_bytes_type : Text → Option ℕ
sized_bytes_type type = elim (strip_prefix (codes "bytes") type) [
  | some digits ↦ if has_digits digits then some (to_number 0 digits) else none
  | none ↦ none
]

-- the tests on the type, in the order in which the source makes them
unfoldable pub scalar_of : Text → Scalar
unfolding to_number strip_prefix
scalar_of type =
    if text_eq type (codes "address")
    then address
    else if text_eq type (codes "bool")
    then boolean
    else if text_eq type (codes "string")
    then text
    else elim (sized_bytes_type type) [
      | some size ↦ sized_bytes size
      | none ↦ if text_eq type (codes "bytes") then bytes else elim (integer_type type) [
        | some (unsigned, bits) ↦ whole unsigned bits
        | none ↦ unsupported
      ]
    ]

-- `/^([0-9a-fA-F]{2})*$/`
is_hex_pairs : Text → Bool
is_hex_pairs [] = true
is_hex_pairs (c ∷ []) = false
is_hex_pairs (c ∷ d ∷ s) = is_hex_digit c && is_hex_digit d && is_hex_pairs s

-- `/^0x([0-9a-fA-F]{2})*$/`
unfoldable pub is_hex_bytes : Text → Bool
unfolding is_hex_pairs
is_hex_bytes (z ∷ x ∷ s) = z == b'0' && x == b'x' && is_hex_pairs s
is_hex_bytes _ = false

abbrev max_safe_integer : ℕ
max_safe_integer = 2 ^ 53 - 1

-- `Number.isSafeInteger`
abbrev pub is_safe : ℤ → Bool
is_safe (pos n) = leb n max_safe_integer
is_safe (negsuc n) = ltb n max_safe_integer

abbrev minus : ℕ → ℤ
minus n = sub_ℕ 0 n

-- `/^-?\d+$/` and `BigInt`
pub parse_integer : Text → Option ℤ
unfolding to_number
parse_integer [] = none
parse_integer (c ∷ s) =
    if c == b'-'
    then if has_digits s then some (minus (to_number 0 s)) else none
    else if all is_digit (c ∷ s)
    then some (pos (to_number 0 (c ∷ s)))
    else none

abbrev or_problem : Option ℤ → CoerceProblem → Outcome CoerceProblem ℤ
or_problem none e = err e
or_problem (some z) e = ok z

-- the value as a `bigint`
pub parsed : Value → Outcome CoerceProblem ℤ
unfolding parse_integer
parsed (bigint z) = ok z
parsed (number (integer z)) = if is_safe z then ok z else err unsafe_integer
parsed (number _) = err unsafe_integer
parsed (string s) = or_problem (parse_integer (trim s)) not_an_integer
parsed _ = err not_an_integer

abbrev pub limit_of : Bool → ℕ → ℕ
limit_of true bits = 2 ^ bits
limit_of false bits = 2 ^ (bits - 1)

-- `2n ** (bits - 1n)` throws for `int0`
pub checked : Bool → ℕ → ℤ → Outcome CoerceProblem Value
checked unsigned bits z =
    let limit = limit_of unsigned bits in
    if unsigned && ltb_ℤ z (pos 0)
    then err negative
    else if not unsigned && bits == 0
    then thrown
    else if not (ltb_ℤ z (pos limit)) || not unsigned && ltb_ℤ z (minus limit)
    then err out_of_range
    else ok (bigint z)

-- the part of `coerceArg` below its array branch
unfoldable pub coerce_scalar : Scalar → Value → Outcome CoerceProblem Value
unfolding parsed checked
coerce_scalar address (string s) = if is_hex_of 40 s then ok (string s) else err not_an_address
coerce_scalar address _ = err not_an_address
coerce_scalar boolean (bool b) = ok (bool b)
coerce_scalar boolean _ = err not_a_boolean
coerce_scalar text (string s) =
    if ltb max_string_length (length s) then err string_too_long else ok (string s)
coerce_scalar text _ = err not_a_string
coerce_scalar (sized_bytes size) (string s) =
    if is_hex_of (size * 2) s then ok (string s) else err not_sized_hex
coerce_scalar (sized_bytes size) _ = err not_sized_hex
coerce_scalar bytes (string s) = if is_hex_bytes s then ok (string s) else err not_hex
coerce_scalar bytes _ = err not_hex
coerce_scalar (whole unsigned bits) v = do z ← parsed v; checked unsigned bits z
coerce_scalar unsupported _ = err unsupported_type

abbrev pub at_path : {A : Type 0} → List ℕ → Outcome CoerceProblem A → Outcome CoerceError A
at_path path (ok a) = ok a
at_path path (err e) = err (record { path = path; problem = e })
at_path path thrown = thrown

-- `fixedLength && value.length !== Number(fixedLength)` is not so
abbrev pub has_fixed_length : Text → ℕ → Bool
has_fixed_length [] n = true
has_fixed_length digits n = n == to_number 0 digits

-- the two tests on the length of an array
unfoldable pub check_length : Text → ℕ → Outcome CoerceProblem (Unit {0})
unfolding to_number
check_length fixed n = do
  guard (leb n max_array_length) too_many_items
  guard (has_fixed_length fixed n) wrong_item_count

unfoldable mutual
  pub coerce_arg : Value → Text → List ℕ → Outcome CoerceError Value
  coerce_arg (array vs) type path =
      let items = λ (element : Text). coerce_items vs element path 0 in
      elim (array_match type) [
        | some (element, fixed) ↦ do
          at_path path (check_length fixed (count vs))
          coerced ← items element
          ok (array coerced)
        | none ↦ at_path path (coerce_scalar (scalar_of type) (array vs))
      ]
  coerce_arg v type path = elim (array_match type) [
    | some _ ↦ err (record { path = path; problem = not_an_array })
    | none ↦ at_path path (coerce_scalar (scalar_of type) v)
  ]

  -- the loop over the elements, from the position `i`
  pub coerce_items : Values → Text → List ℕ → ℕ → Outcome CoerceError Values
  coerce_items end element path i = ok end
  coerce_items (item v vs) element path i = do
    first ← coerce_arg v element (path ++ i ∷ [])
    rest ← coerce_items vs element path (i + 1)
    ok (item first rest)
