-- ===== src/Auth/Relay/Policy/Scope.antt =====
-- The division that a GN officer's call acts on.
use zk_voting.Prelude.{
  ℕ, ◌≡◌, refl, ◌∙◌, ap, inl, inr, Bool, true, false, Option, none, some, IsIn, not, ◌&&◌,
  if◌then◌else◌,
}
use zk_voting.Prelude.Outcome.{
  Outcome, ok, thrown, guard, >>=-eq-ok, err-ne-ok, ok-injective, guard-eq-ok,
}
use zk_voting.Prelude.Text.{Text, text_eq}
use zk_voting.Auth.Session.{AuthRole, admin, gn}
use zk_voting.Auth.Relay.Value.{Value, string, Values, at, is_truthy, is_empty}
use zk_voting.Auth.Relay.Policy.{
  ContractKind, voting, election_registry, nic_registry, KnownContract, Refusal, relay_whitelist,
  gn_division_arg_index, same_address, names_division, is_own, is_address, check_division,
  check_scope,
}

-- The call acts on the division: it is made on the division's own contract, or it is made on the
-- NIC registry and names that contract in its second argument.
abbrev pub ActsOn : Text → ContractKind → KnownContract → Values → Type 0
ActsOn division voting contract args = same_address contract.address division ≡ true
ActsOn division election_registry contract args = ⊥
ActsOn division nic_registry contract args =
    (s : Text) × (at args 1 ≡ string s) × (same_address s division ≡ true)

-- A GN's call acts on the division of the session.
abbrev pub InDivision : AuthRole → Option Text → KnownContract → Values → Type 0
InDivision admin assigned contract args = Unit
InDivision gn assigned contract args =
    (division : Text) × (assigned ≡ some division)
    × (is_address division ≡ true)
    × ActsOn division contract.kind contract args

-- Where the whitelist puts a function of a GN decides where its division is named.
abbrev pub division_place : ContractKind → Option ℕ
division_place nic_registry = some 1
division_place _ = none

pub gn_division_arg_index-eq :
    (kind : ContractKind) (fn : Text)
    → IsIn fn (relay_whitelist gn kind)
    → gn_division_arg_index fn ≡ division_place kind
unfolding gn_division_arg_index relay_whitelist text_eq
gn_division_arg_index-eq voting fn (inl e) = rw e
gn_division_arg_index-eq voting fn (inr m) = elim m [ ]
gn_division_arg_index-eq election_registry fn m = elim m [ ]
gn_division_arg_index-eq nic_registry fn (inl e) = rw e
gn_division_arg_index-eq nic_registry fn (inr (inl e)) = rw e
gn_division_arg_index-eq nic_registry fn (inr (inr m)) = elim m [ ]

throw_or_false-ne-true :
    (b : Bool) → ◌≡◌ {A = Outcome Refusal Bool} (if b then thrown else ok false) (ok true) → ⊥
throw_or_false-ne-true true h = cc
throw_or_false-ne-true false h = cc

names_division-eq-true :
    (v : Value) (division : Text)
    → names_division v division ≡ ok true
    → (s : Text) × (v ≡ string s) × (same_address s division ≡ true)
unfolding names_division
names_division-eq-true (string s) division h = (s, refl, ok-injective _ true h)
names_division-eq-true v division h =
    absurd (throw_or_false-ne-true (is_truthy v && not (is_empty division)) h)

is_own-ActsOn :
    (kind : ContractKind) (contract : KnownContract) (fn : Text) (args : Values) (division : Text)
    → IsIn fn (relay_whitelist gn kind)
    → is_own (gn_division_arg_index fn) contract args division ≡ ok true
    → ActsOn division kind contract args
unfolding is_own
is_own-ActsOn voting contract fn args division listed h =
    ok-injective _ true (rw (gn_division_arg_index-eq voting fn listed, is_own) at h)
is_own-ActsOn election_registry contract fn args division listed h =
    unfold relay_whitelist in elim listed [ ]
is_own-ActsOn nic_registry contract fn args division listed h =
    names_division-eq-true (at args 1) division
      (rw (gn_division_arg_index-eq nic_registry fn listed, is_own) at h)

check_division-ActsOn :
    (kind : ContractKind) (assigned : Option Text) (contract : KnownContract) (fn : Text)
    (args : Values) (u : Unit {0})
    → IsIn fn (relay_whitelist gn kind)
    → check_division assigned contract fn args ≡ ok u
    → (division : Text) × (assigned ≡ some division)
      × (is_address division ≡ true)
      × ActsOn division kind contract args
unfolding check_division
check_division-ActsOn kind none contract fn args u listed h = absurd (err-ne-ok h)
check_division-ActsOn kind (some division) contract fn args u listed h =
    let (_, valid, more) = >>=-eq-ok (guard (is_address division) _) _ u h in
    let (own, tested, last) =
      >>=-eq-ok (is_own (gn_division_arg_index fn) contract args division) _ u more in
    let is_true : own ≡ true = guard-eq-ok own _ u last in
    (
      division,
      refl,
      guard-eq-ok _ _ _ valid,
      is_own-ActsOn kind contract fn args division listed (tested ∙ ap ok is_true),
    )

pub check_scope-InDivision :
    (role : AuthRole) (assigned : Option Text) (contract : KnownContract) (fn : Text)
    (args : Values) (u : Unit {0})
    → IsIn fn (relay_whitelist role contract.kind)
    → check_scope role assigned contract fn args ≡ ok u
    → InDivision role assigned contract args
unfolding check_scope
check_scope-InDivision admin assigned contract fn args u listed h = tt
check_scope-InDivision gn assigned contract fn args u listed h =
    check_division-ActsOn contract.kind assigned contract fn args u listed h
