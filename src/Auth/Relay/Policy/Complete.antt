-- ===== src/Auth/Relay/Policy/Complete.antt =====
-- That the policy refuses nothing that it is meant to allow, and the arguments on which it throws.
use zk_voting.Prelude.{
  ℕ, suc, ◌+◌, ◌≡◌, refl, ◌∙◌, ap, Bool, true, not, Option, some, List, [], ◌∷◌, arith, ◌==◌,
  ==_iff, length, all, IsIn, all_sound, any_complete,
}
use zk_voting.Prelude.Outcome.{ok, guard, >>=-of-ok}
use zk_voting.Prelude.Text.{Text, text_eq, text_eq_refl}
use zk_voting.Auth.Session.{AuthRole, admin, gn}
use zk_voting.Auth.Relay.Value.{string, array, Values, end, item, count, at, is_empty}
use zk_voting.Auth.Relay.CoerceArg.{coerce_arg}
use zk_voting.Auth.Relay.CoerceArg.Fits.{coerce_arg_of_Fits}
use zk_voting.Auth.Relay.Policy.{
  ContractKind, voting, election_registry, nic_registry, nonpayable, AbiFunction, KnownContract,
  AuthorizeInput, Refusal, relay_whitelist, gn_division_arg_index, is_own, is_address, address_text,
  fn_text, array_items, or_refuse, known_contract, find_function, check_division, check_scope,
  check_mutability, coerce_args, authorize_relay_call,
}
use zk_voting.Auth.Relay.Policy.Scope.{ActsOn, InDivision, gn_division_arg_index-eq}
use zk_voting.Auth.Relay.Policy.Sound.{FitsEach}

-- The whitelist holds no empty name.
no_empty_name :
    (role : AuthRole) (kind : ContractKind)
    → all (λ (n : Text). not (is_empty n)) (relay_whitelist role kind) ≡ true
unfolding relay_whitelist
no_empty_name admin voting = refl
no_empty_name admin election_registry = refl
no_empty_name admin nic_registry = refl
no_empty_name gn voting = refl
no_empty_name gn election_registry = refl
no_empty_name gn nic_registry = refl

pub fn_text-whitelisted :
    (role : AuthRole) (kind : ContractKind) (fn : Text)
    → IsIn fn (relay_whitelist role kind)
    → fn_text (string fn) ≡ some fn
fn_text-whitelisted role kind [] m = absurd (
    cc (
      all_sound (λ (n : Text). not (is_empty n)) (relay_whitelist role kind) []
        (no_empty_name role kind) m))
fn_text-whitelisted role kind (c ∷ fn) m = refl

-- Arguments that are of their types already come back unchanged; `args` are those from `i` on.
coerce_args_of_FitsEach :
    (types : List Text) (all_args args : Values) (i : ℕ)
    → ((j : ℕ) → at all_args (i + j) ≡ at args j)
    → FitsEach types args
    → coerce_args types all_args i ≡ ok args
unfolding coerce_args
coerce_args_of_FitsEach [] all_args end i same h = refl
coerce_args_of_FitsEach [] all_args (item v vs) i same h = elim h [ ]
coerce_args_of_FitsEach (type ∷ types) all_args end i same h = elim h [ ]
coerce_args_of_FitsEach (type ∷ types) all_args (item v vs) i same (fits, more) =
    let at_first : at all_args i ≡ v = ap (at all_args) (omega arith) ∙ same 0 in
    let first : coerce_arg (at all_args i) type (i ∷ []) ≡ ok v =
      rw at_first (coerce_arg_of_Fits v type (i ∷ []) fits) in
    let at_rest : (j : ℕ) → at all_args (i + 1 + j) ≡ at vs j =
      λ j. ap (at all_args) (omega arith) ∙ same (suc j) in
    rw (first, coerce_args_of_FitsEach types all_args vs (i + 1) at_rest more)

count-FitsEach :
    (types : List Text) (args : Values) → FitsEach types args → count args ≡ length types
count-FitsEach [] end h = refl
count-FitsEach [] (item v vs) h = elim h [ ]
count-FitsEach (type ∷ types) end h = elim h [ ]
count-FitsEach (type ∷ types) (item v vs) (fits, more) = ap suc (count-FitsEach types vs more)

is_own_of_ActsOn :
    (kind : ContractKind) (contract : KnownContract) (fn : Text) (args : Values) (division : Text)
    → IsIn fn (relay_whitelist gn kind)
    → ActsOn division kind contract args
    → is_own (gn_division_arg_index fn) contract args division ≡ ok true
unfolding is_own
is_own_of_ActsOn voting contract fn args division listed h =
    rw (gn_division_arg_index-eq voting fn listed, is_own) (ap ok h)
is_own_of_ActsOn election_registry contract fn args division listed h = elim h [ ]
is_own_of_ActsOn nic_registry contract fn args division listed (s, named, own) =
    rw (gn_division_arg_index-eq nic_registry fn listed, is_own) (rw named (rw own))

check_division_of_ActsOn :
    (contract : KnownContract) (fn : Text) (args : Values) (division : Text)
    → IsIn fn (relay_whitelist gn contract.kind)
    → is_address division ≡ true
    → ActsOn division contract.kind contract args
    → check_division (some division) contract fn args ≡ ok tt
unfolding check_division
check_division_of_ActsOn contract fn args division listed valid acts =
    rw (valid, is_own_of_ActsOn contract.kind contract fn args division listed acts)

check_scope_of_InDivision :
    (role : AuthRole) (assigned : Option Text) (contract : KnownContract) (fn : Text)
    (args : Values)
    → IsIn fn (relay_whitelist role contract.kind)
    → InDivision role assigned contract args
    → check_scope role assigned contract fn args ≡ ok tt
unfolding check_scope
check_scope_of_InDivision admin assigned contract fn args listed h = refl
check_scope_of_InDivision gn assigned contract fn args listed (division, same, valid, acts) =
    rw same (check_division_of_ActsOn contract fn args division listed valid acts)

check_mutability_of_nonpayable : check_mutability nonpayable ≡ ok tt
unfolding check_mutability
check_mutability_of_nonpayable = refl

pub or_refuse-of-some :
    {A : Type 0} (o : Option A) (r : Refusal) (a : A) → o ≡ some a → or_refuse o r ≡ ok a
or_refuse-of-some o r a h = rw h

pub guard-of-true : (b : Bool) (r : Refusal) → b ≡ true → guard b r ≡ ok tt
guard-of-true b r h = rw h

module _ (input : AuthorizeInput) (target fn : Text) (args : Values) (contract : KnownContract)
    (f : AbiFunction) where
  -- A well-formed request is signed with its arguments as they are, if the target is the address of
  -- a known contract, its ABI has the function and lets it write, the whitelist of the role has
  -- it, the arguments are of the function's types, and a GN's call acts on the GN's own division.
  pub authorize_relay_call_complete :
      input.request.target ≡ string target
      → is_address target ≡ true
      → input.request.fn ≡ string fn
      → input.request.args ≡ array args
      → known_contract input.known target ≡ some contract
      → IsIn fn (relay_whitelist input.role contract.kind)
      → InDivision input.role input.gn_division_contract contract args
      → find_function contract.abi fn ≡ some f
      → f.state_mutability ≡ nonpayable
      → FitsEach f.inputs args
      → authorize_relay_call input
        ≡ ok (record { contract = contract; abi_function = f; args = args })
  unfolding authorize_relay_call
  authorize_relay_call_complete at_target valid at_fn at_args known listed in_division in_abi writes
        fits =
      let is_target : address_text (string target) ≡ some target = rw valid in
      let counted : (count args == length f.inputs) ≡ true =
        (==_iff _ _).1 (count-FitsEach f.inputs args fits) in
      >>=-of-ok _ _ _ target (or_refuse-of-some _ _ target (ap address_text at_target ∙ is_target))
        (>>=-of-ok _ _ _ fn
          (or_refuse-of-some _ _ fn
            (ap fn_text at_fn ∙ fn_text-whitelisted input.role contract.kind fn listed))
          (>>=-of-ok _ _ _ args (or_refuse-of-some _ _ args (ap array_items at_args)) (
            >>=-of-ok _ _ _ contract (or_refuse-of-some _ _ contract known) (
              >>=-of-ok _ _ _ tt
                (guard-of-true _ _ (any_complete (λ a. text_eq a fn) _ fn listed (text_eq_refl fn)))
                (>>=-of-ok _ _ _ tt
                  (check_scope_of_InDivision input.role input.gn_division_contract contract fn args
                    listed in_division)
                  (>>=-of-ok _ _ _ f (or_refuse-of-some _ _ f in_abi) (
                    >>=-of-ok _ _ _ tt (ap check_mutability writes ∙ check_mutability_of_nonpayable)
                      (>>=-of-ok _ _ _ tt (guard-of-true _ _ counted) (
                        >>=-of-ok _ _ _ args
                          (coerce_args_of_FitsEach f.inputs args args 0
                            (λ j. ap (at args) (omega arith)) fits)
                          refl)))))))))
