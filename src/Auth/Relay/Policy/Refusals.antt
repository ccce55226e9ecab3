-- ===== src/Auth/Relay/Policy/Refusals.antt =====
-- The status of each refusal, and the arguments on which the policy throws instead of refusing.
use zk_voting.Prelude.{
  ℕ, ◌+◌, ◌≡◌, refl, ◌∙◌, ap, Bool, true, false, not, ◌&&◌, Option, none, some, List, [], ◌∷◌, ◌==◌,
  length, IsIn, any_complete, if◌then◌else◌,
}
use mathlib.Core.Bool.{false≢true}
use zk_voting.Prelude.Outcome.{Outcome, ok, err, thrown, ◌>>=◌, guard, >>=-of-ok, >>=-of-thrown}
use zk_voting.Prelude.Text.{Text, text_eq, text_eq_refl, is_hex_of}
use zk_voting.Auth.Session.{AuthRole, admin, gn}
use zk_voting.Auth.Relay.Value.{Value, string, array, Values, end, at, count, is_truthy, is_empty}
use zk_voting.Auth.Relay.CoerceArg.{CoerceError, coerce_arg}
use zk_voting.Auth.Relay.Policy.{
  nic_registry, StateMutability, view, pure, nonpayable, payable, KnownContract, AuthorizeInput,
  Authorised, Reason, unknown_target, fn_not_allowed, no_division, other_division, payable_call,
  bad_target, fn_required, args_not_array, missing_in_abi, read_only, bad_arg, wrong_arg_count,
  Refusal, refuse, relay_whitelist, gn_division_arg_index, names_division, is_own, is_address,
  address_text, fn_text, array_items, or_refuse, known_contract, find_function, check_division,
  check_scope, check_mutability, arg_refused, coerce_args, authorize_relay_call,
}
use zk_voting.Auth.Relay.Policy.Scope.{gn_division_arg_index-eq}
use zk_voting.Auth.Relay.Policy.Complete.{or_refuse-of-some, guard-of-true, fn_text-whitelisted}

-- 403 for what the caller may not do, 400 for what is malformed.
abbrev pub status_of : Reason → ℕ
status_of unknown_target = 403
status_of fn_not_allowed = 403
status_of no_division = 403
status_of other_division = 403
status_of payable_call = 403
status_of _ = 400

-- A refusal, if it is one, states the status of its reason.
record StatesStatus {A : Type 0} (m : Outcome Refusal A) : Type 0 where
  states : (r : Refusal) → m ≡ err r → r.status ≡ status_of r.reason

module _ {A : Type 0} where
  StatesStatus-ok : (a : A) → StatesStatus {A = A} (ok a)
  StatesStatus-ok a = record { states = λ r h. absurd (cc h) }

  StatesStatus-thrown : StatesStatus {A = A} thrown
  StatesStatus-thrown = record { states = λ r h. absurd (cc h) }

  StatesStatus-refuse :
      (reason : Reason) → StatesStatus {A = A} (err (refuse (status_of reason) reason))
  StatesStatus-refuse reason = record {
    states = λ r h. let e : refuse (status_of reason) reason ≡ r = cc h in rw (← e);
  }

  StatesStatus-or_refuse :
      (o : Option A) (reason : Reason)
      → StatesStatus (or_refuse o (refuse (status_of reason) reason))
  StatesStatus-or_refuse none reason = StatesStatus-refuse reason
  StatesStatus-or_refuse (some a) reason = StatesStatus-ok a

  StatesStatus-arg_refused : (m : Outcome CoerceError A) → StatesStatus (arg_refused m)
  StatesStatus-arg_refused (ok a) = StatesStatus-ok a
  StatesStatus-arg_refused (err e) = StatesStatus-refuse (bad_arg e)
  StatesStatus-arg_refused thrown = StatesStatus-thrown

StatesStatus-bind :
    {A B : Type 0} (m : Outcome Refusal A) (f : A → Outcome Refusal B)
    → StatesStatus m
    → ((a : A) → StatesStatus (f a))
    → StatesStatus (m >>= f)
StatesStatus-bind (ok a) f h k = k a
StatesStatus-bind (err e) f h k = record {
  states = λ r same. h.states r (let p : e ≡ r = cc same in ap err p);
}
StatesStatus-bind thrown f h k = StatesStatus-thrown

StatesStatus-guard :
    (b : Bool) (reason : Reason) → StatesStatus (guard b (refuse (status_of reason) reason))
StatesStatus-guard true reason = StatesStatus-ok tt
StatesStatus-guard false reason = StatesStatus-refuse reason

StatesStatus-names_division :
    (v : Value) (division : Text) → StatesStatus (names_division v division)
unfolding names_division
StatesStatus-names_division (string s) division = StatesStatus-ok _
StatesStatus-names_division v division = throws_or_not (is_truthy v && not (is_empty division))
  where
    throws_or_not : (b : Bool) → StatesStatus {A = Bool} (if b then thrown else ok false)
    throws_or_not true = StatesStatus-thrown
    throws_or_not false = StatesStatus-ok false

StatesStatus-is_own :
    (place : Option ℕ) (contract : KnownContract) (args : Values) (division : Text)
    → StatesStatus (is_own place contract args division)
unfolding is_own
StatesStatus-is_own none contract args division = StatesStatus-ok _
StatesStatus-is_own (some i) contract args division =
    StatesStatus-names_division (at args i) division

StatesStatus-check_scope :
    (role : AuthRole) (assigned : Option Text) (contract : KnownContract) (fn : Text)
    (args : Values)
    → StatesStatus (check_scope role assigned contract fn args)
unfolding check_scope check_division
StatesStatus-check_scope admin assigned contract fn args = StatesStatus-ok tt
StatesStatus-check_scope gn none contract fn args = StatesStatus-refuse no_division
StatesStatus-check_scope gn (some division) contract fn args =
    StatesStatus-bind _ _ (StatesStatus-guard _ no_division) (λ _.
      StatesStatus-bind _ _ (StatesStatus-is_own (gn_division_arg_index fn) contract args division)
        (λ own. StatesStatus-guard own other_division))

StatesStatus-check_mutability : (m : StateMutability) → StatesStatus (check_mutability m)
unfolding check_mutability
StatesStatus-check_mutability view = StatesStatus-refuse read_only
StatesStatus-check_mutability pure = StatesStatus-refuse read_only
StatesStatus-check_mutability nonpayable = StatesStatus-ok tt
StatesStatus-check_mutability payable = StatesStatus-refuse payable_call

StatesStatus-coerce_args :
    (types : List Text) (args : Values) (i : ℕ) → StatesStatus (coerce_args types args i)
unfolding coerce_args
StatesStatus-coerce_args [] args i = StatesStatus-ok end
StatesStatus-coerce_args (type ∷ types) args i =
    StatesStatus-bind _ _ (StatesStatus-arg_refused (coerce_arg (at args i) type (i ∷ []))) (λ _.
      StatesStatus-bind _ _ (StatesStatus-coerce_args types args (i + 1)) (λ _. StatesStatus-ok _))

-- the steps from the search of the ABI on
found_function :
    (contract : KnownContract) (fn : Text) (args : Values)
    → StatesStatus (
        or_refuse (find_function contract.abi fn) (refuse 400 missing_in_abi) >>= λ f.
        check_mutability f.state_mutability >>= λ _.
        guard (count args == length f.inputs) (refuse 400 wrong_arg_count) >>= λ _.
        coerce_args f.inputs args 0 >>= λ coerced. ok (
          let r : Authorised = record { contract = contract; abi_function = f; args = coerced } in
          r))
found_function contract fn args =
    StatesStatus-bind _ _ (StatesStatus-or_refuse (find_function contract.abi fn) missing_in_abi)
      λ f. StatesStatus-bind _ _ (StatesStatus-check_mutability f.state_mutability) λ _.
        StatesStatus-bind _ _ (StatesStatus-guard _ wrong_arg_count) λ _.
          StatesStatus-bind _ _ (StatesStatus-coerce_args f.inputs args 0) λ _. StatesStatus-ok _

states_status : (input : AuthorizeInput) → StatesStatus (authorize_relay_call input)
unfolding authorize_relay_call
states_status input =
    StatesStatus-bind _ _ (StatesStatus-or_refuse (address_text input.request.target) bad_target)
      λ target.
        StatesStatus-bind _ _ (StatesStatus-or_refuse (fn_text input.request.fn) fn_required) λ fn.
          StatesStatus-bind _ _
            (StatesStatus-or_refuse (array_items input.request.args) args_not_array)
            λ args.
              StatesStatus-bind _ _
                (StatesStatus-or_refuse (known_contract input.known target) unknown_target)
                λ contract. StatesStatus-bind _ _ (StatesStatus-guard _ fn_not_allowed) λ _.
                  StatesStatus-bind _ _
                    (StatesStatus-check_scope input.role input.gn_division_contract contract fn
                      args)
                    λ _. found_function contract fn args

-- A refusal has status 403 exactly where its reason is about what the caller may do: an unknown
-- target, a function that is not on the whitelist, no division or another's, a payable function.
-- For every other reason its status is 400.
pub refusal_status :
    (input : AuthorizeInput) (r : Refusal)
    → authorize_relay_call input ≡ err r
    → r.status ≡ status_of r.reason
refusal_status input r h = (states_status input).states r h

abbrev pub IsNoText : Value → Type 0
IsNoText (string s) = ⊥
IsNoText _ = Unit

address-not-empty : (s : Text) → is_address s ≡ true → not (is_empty s) ≡ true
unfolding is_hex_of
address-not-empty [] h = absurd (false≢true h)
address-not-empty (c ∷ s) h = refl

if-thrown :
    (a b : Bool)
    → a ≡ true
    → b ≡ true
    → ◌≡◌ {A = Outcome Refusal Bool} (if a && b then thrown else ok false) thrown
if-thrown a b h k = rw (h, k)

names_division-thrown :
    (v : Value) (division : Text)
    → IsNoText v
    → is_truthy v ≡ true
    → is_address division ≡ true
    → names_division v division ≡ thrown
unfolding names_division
names_division-thrown (string s) division h truthy valid = absurd h
names_division-thrown v division h truthy valid =
    if-thrown (is_truthy v) (not (is_empty division)) truthy (address-not-empty division valid)

check_scope-thrown :
    (role : AuthRole) (assigned : Option Text) (contract : KnownContract) (fn : Text)
    (args : Values) {division : Text}
    → role ≡ gn
    → assigned ≡ some division
    → is_address division ≡ true
    → IsIn fn (relay_whitelist gn nic_registry)
    → IsNoText (at args 1)
    → is_truthy (at args 1) ≡ true
    → check_scope role assigned contract fn args ≡ thrown
unfolding check_scope check_division
check_scope-thrown role assigned contract fn args {division} as_gn same valid listed no_text
      truthy =
    rw (as_gn, same, check_scope)
      (rw (valid, gn_division_arg_index-eq nic_registry fn listed, is_own)
        (rw (names_division-thrown (at args 1) division no_text truthy valid)))

module _ (input : AuthorizeInput) (target fn division : Text) (args : Values)
    (contract : KnownContract) where
  -- A GN's well-formed call of `reserveNicHash` or `reissueDevice` on the NIC registry is not
  -- refused but throws, if the argument that should name the division is neither a text nor falsy.
  pub untyped_division_throws :
      input.role ≡ gn
      → input.request.target ≡ string target
      → is_address target ≡ true
      → input.request.fn ≡ string fn
      → input.request.args ≡ array args
      → known_contract input.known target ≡ some contract
      → contract.kind ≡ nic_registry
      → IsIn fn (relay_whitelist gn nic_registry)
      → input.gn_division_contract ≡ some division
      → is_address division ≡ true
      → IsNoText (at args 1)
      → is_truthy (at args 1) ≡ true
      → authorize_relay_call input ≡ thrown
  unfolding authorize_relay_call
  untyped_division_throws as_gn at_target valid at_fn at_args known kind listed assigned own no_text
        truthy =
      let is_target : address_text (string target) ≡ some target = rw valid in
      let whitelisted : IsIn fn (relay_whitelist input.role contract.kind) =
        rw (as_gn, kind) listed in
      >>=-of-ok _ _ _ target (or_refuse-of-some _ _ target (ap address_text at_target ∙ is_target))
        (>>=-of-ok _ _ _ fn
          (or_refuse-of-some _ _ fn
            (ap fn_text at_fn ∙ fn_text-whitelisted gn nic_registry fn listed))
          (>>=-of-ok _ _ _ args (or_refuse-of-some _ _ args (ap array_items at_args)) (
            >>=-of-ok _ _ _ contract (or_refuse-of-some _ _ contract known) (
              >>=-of-ok _ _ _ tt
                (guard-of-true _ _
                  (any_complete (λ a. text_eq a fn) _ fn whitelisted (text_eq_refl fn)))
                (>>=-of-thrown _ _ (
                  check_scope-thrown input.role input.gn_division_contract contract fn args as_gn
                    assigned own listed no_text truthy))))))
