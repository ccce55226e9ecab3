-- ===== src/Auth/Relay/Policy/Sound.antt =====
-- What is true of every call that the policy lets the relay sign.
use zk_voting.Prelude.{
  ℕ, ◌+◌, ◌≡◌, refl, sym, ap, inl, inr, true, Option, none, some, List, [], ◌∷◌, arith, ◌==◌,
  length, any, IsIn, find_sound, any_sound, Bool-cases,
}
use zk_voting.Prelude.Outcome.{
  Outcome, ok, err, thrown, guard, >>=-eq-ok, err-ne-ok, ok-injective, guard-eq-ok,
}
use zk_voting.Prelude.Text.{Text, text_eq, text_eq_sound}
use zk_voting.Auth.Relay.Value.{Value, string, array, Values, end, item, count, at}
use zk_voting.Auth.Relay.CoerceArg.{CoerceError, coerce_arg}
use zk_voting.Auth.Relay.CoerceArg.Fits.{Fits, coerce_arg-Fits}
use zk_voting.Auth.Relay.Policy.{
  StateMutability, nonpayable, AbiFunction, AbiEntry, function, other, KnownContract,
  AuthorizeInput, Authorised, Refusal, relay_whitelist, same_address, address_text, fn_text,
  array_items, or_refuse, known_contract, find_function, check_scope, check_mutability, arg_refused,
  coerce_args, authorize_relay_call,
}
use zk_voting.Auth.Relay.Policy.Scope.{InDivision, check_scope-InDivision}

-- The values are of the types, one for one.
abbrev pub FitsEach : List Text → Values → Type 0
FitsEach [] end = Unit
FitsEach (type ∷ types) (item v vs) = Fits type v × FitsEach types vs
FitsEach _ _ = ⊥

pub record IsAuthorised (input : AuthorizeInput) (r : Authorised) : Type 0 where
  pub target : Text
  pub args : Values
  pub asked_target : input.request.target ≡ string target
  pub asked_fn : input.request.fn ≡ string r.abi_function.name
  pub asked_args : input.request.args ≡ array args
  pub is_known : IsIn r.contract input.known
  pub addressed : same_address r.contract.address target ≡ true
  pub whitelisted : IsIn r.abi_function.name (relay_whitelist input.role r.contract.kind)
  pub in_abi : IsIn (function r.abi_function) r.contract.abi
  pub writes : r.abi_function.state_mutability ≡ nonpayable
  pub in_division : InDivision input.role input.gn_division_contract r.contract args
  pub args_fit : FitsEach r.abi_function.inputs r.args

or_refuse-eq-ok :
    {A : Type 0} (o : Option A) (r : Refusal) (a : A) → or_refuse o r ≡ ok a → o ≡ some a
or_refuse-eq-ok none r a h = absurd (err-ne-ok h)
or_refuse-eq-ok (some b) r a h = ap some (ok-injective b a h)

arg_refused-eq-ok : (m : Outcome CoerceError Value) (v : Value) → arg_refused m ≡ ok v → m ≡ ok v
arg_refused-eq-ok (ok w) v h = cc
arg_refused-eq-ok (err e) v h = absurd (err-ne-ok h)
arg_refused-eq-ok thrown v h = absurd (cc)

address_text-eq-some : (v : Value) (s : Text) → address_text v ≡ some s → v ≡ string s
address_text-eq-some (string t) s h = ground arith
address_text-eq-some _ s h = absurd (cc)

fn_text-eq-some : (v : Value) (s : Text) → fn_text v ≡ some s → v ≡ string s
fn_text-eq-some (string t) s h = ground arith
fn_text-eq-some _ s h = absurd (cc)

array_items-eq-some : (v : Value) (vs : Values) → array_items v ≡ some vs → v ≡ array vs
array_items-eq-some (array us) vs h = ground arith
array_items-eq-some _ vs h = absurd (cc)

find_function_sound :
    (abi : List AbiEntry) (fn : Text) (f : AbiFunction)
    → find_function abi fn ≡ some f
    → IsIn (function f) abi × (f.name ≡ fn)
unfolding find_function
find_function_sound [] fn f h = absurd (cc)
find_function_sound (other ∷ abi) fn f h = let (m, e) = find_function_sound abi fn f h in (inr m, e)
find_function_sound (function g ∷ abi) fn f h = elim (Bool-cases (text_eq g.name fn)) [
  | inl same ↦
      let e : g ≡ f = ground arith in
      (inl (ap function (sym e)), rw (← e) (text_eq_sound g.name fn same))
  | inr differs ↦ let (m, e) = find_function_sound abi fn f (rw differs at h) in (inr m, e)
]

check_mutability-eq-ok :
    (m : StateMutability) (u : Unit {0}) → check_mutability m ≡ ok u → m ≡ nonpayable
unfolding check_mutability
check_mutability-eq-ok nonpayable u h = refl
check_mutability-eq-ok _ u h = absurd (err-ne-ok h)

coerce_args-FitsEach :
    (types : List Text) (args coerced : Values) (i : ℕ)
    → coerce_args types args i ≡ ok coerced
    → FitsEach types coerced
unfolding coerce_args
coerce_args-FitsEach [] args coerced i h = rw (← ok-injective end coerced h) tt
coerce_args-FitsEach (type ∷ types) args coerced i h =
    let (first, read, more) =
      >>=-eq-ok (arg_refused (coerce_arg (at args i) type (i ∷ []))) _ coerced h in
    let (rest, read_rest, made) = >>=-eq-ok (coerce_args types args (i + 1)) _ coerced more in
    rw (← ok-injective (item first rest) coerced made) (
      coerce_arg-Fits (at args i) first type (i ∷ []) (arg_refused-eq-ok _ first read),
      coerce_args-FitsEach types args rest (i + 1) read_rest,
    )

module _ (input : AuthorizeInput) (target fn : Text) (args coerced : Values)
    (contract : KnownContract) (f : AbiFunction) where
  -- What the steps of the policy have found, put together.
  assembled :
      input.request.target ≡ string target
      → input.request.fn ≡ string fn
      → input.request.args ≡ array args
      → IsIn contract input.known × (same_address contract.address target ≡ true)
      → IsIn fn (relay_whitelist input.role contract.kind)
      → InDivision input.role input.gn_division_contract contract args
      → IsIn (function f) contract.abi × (f.name ≡ fn)
      → f.state_mutability ≡ nonpayable
      → FitsEach f.inputs coerced
      → IsAuthorised input (record { contract = contract; abi_function = f; args = coerced })
  assembled asked_target asked_fn asked_args (is_known, addressed) whitelisted in_division
        (in_abi, named) writes args_fit =
      record {
        target = target;
        args = args;
        asked_target = asked_target;
        asked_fn = rw named asked_fn;
        asked_args = asked_args;
        is_known = is_known;
        addressed = addressed;
        whitelisted = rw named whitelisted;
        in_abi = in_abi;
        writes = writes;
        in_division = in_division;
        args_fit = args_fit;
      }

any_text-IsIn :
    (fn : Text) (names : List Text) → any (λ a. text_eq a fn) names ≡ true → IsIn fn names
any_text-IsIn fn names h =
    let (a, m, same) = any_sound (λ a. text_eq a fn) names h in rw (← text_eq_sound a fn same) m

-- A call that the relay may sign is the call that was asked for, on a contract that it knows, of a
-- function on the whitelist of the role and in the contract's ABI that is neither read-only nor
-- payable, with one argument of its type for each input; a GN's call acts on the GN's own division.
pub authorize_relay_call-IsAuthorised :
    (input : AuthorizeInput) (r : Authorised)
    → authorize_relay_call input ≡ ok r
    → IsAuthorised input r
unfolding authorize_relay_call known_contract
authorize_relay_call-IsAuthorised input r h =
    let (target, got_target, h₁) =
      >>=-eq-ok (or_refuse (address_text input.request.target) _) _ r h in
    let (fn, got_fn, h₂) = >>=-eq-ok (or_refuse (fn_text input.request.fn) _) _ r h₁ in
    let (args, got_args, h₃) = >>=-eq-ok (or_refuse (array_items input.request.args) _) _ r h₂ in
    let (contract, got_contract, h₄) =
      >>=-eq-ok (or_refuse (known_contract input.known target) _) _ r h₃ in
    let (_, allowed, h₅) =
      >>=-eq-ok (guard (any (λ a. text_eq a fn) (relay_whitelist input.role contract.kind)) _) _ r
        h₄ in
    let (u, scoped, h₆) =
      >>=-eq-ok (check_scope input.role input.gn_division_contract contract fn args) _ r h₅ in
    let (f, got_f, h₇) = >>=-eq-ok (or_refuse (find_function contract.abi fn) _) _ r h₆ in
    let (w, mutable, h₈) = >>=-eq-ok (check_mutability f.state_mutability) _ r h₇ in
    let (_, counted, h₉) = >>=-eq-ok (guard (count args == length f.inputs) _) _ r h₈ in
    let (coerced, got_coerced, made) = >>=-eq-ok (coerce_args f.inputs args 0) _ r h₉ in
    let whitelisted =
      any_text-IsIn fn (relay_whitelist input.role contract.kind) (guard-eq-ok _ _ _ allowed) in
    rw (← ok-injective _ r made) (
      assembled input target fn args coerced contract f
        (address_text-eq-some input.request.target target (or_refuse-eq-ok _ _ target got_target))
        (fn_text-eq-some input.request.fn fn (or_refuse-eq-ok _ _ fn got_fn))
        (array_items-eq-some input.request.args args (or_refuse-eq-ok _ _ args got_args))
        (find_sound (λ c. same_address c.address target) input.known contract
          (or_refuse-eq-ok _ _ contract got_contract))
        whitelisted
        (check_scope-InDivision input.role input.gn_division_contract contract fn args u whitelisted
          scoped)
        (find_function_sound contract.abi fn f (or_refuse-eq-ok _ _ f got_f))
        (check_mutability-eq-ok f.state_mutability w mutable)
        (coerce_args-FitsEach f.inputs args coerced 0 got_coerced))
