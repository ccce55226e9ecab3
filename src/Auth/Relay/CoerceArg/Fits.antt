-- ===== src/Auth/Relay/CoerceArg/Fits.antt =====
-- Which values are of an ABI type, and that `coerceArg` gives such values, and gives them back.
use zk_voting.Prelude.{
  ℕ, suc, ◌+◌, ◌-◌, ◌*◌, ◌^◌, ◌≤◌, ◌<◌, ◌≡◌, refl, ◌∙◌, ap, inl, inr, Bool, true, false, none, some,
  List, [], ◌∷◌, ◌++◌, arith, ltb, length, Option-cases, Bool-cases, if◌then◌else◌,
}
use zk_voting.Prelude.Int.{ℤ, pos, negsuc}
use zk_voting.Prelude.Outcome.{Outcome, ok, err, thrown, ◌>>=◌, >>=-eq-ok, err-ne-ok, ok-injective}
use zk_voting.Prelude.Text.{Text, is_hex_of}
use zk_voting.Auth.Relay.Value.{Value, bool, bigint, string, array, Values, end, item, count}
use zk_voting.Auth.Relay.CoerceArg.{
  CoerceProblem, negative, Scalar, address, boolean, text, bytes, unsupported, sized_bytes, whole,
  array_match, scalar_of, is_hex_bytes, has_fixed_length, check_length, at_path, parsed, checked,
  coerce_scalar, coerce_arg, coerce_items, max_array_length, max_string_length,
}

-- An integer of so many bits: below 2 to the width, or to one less on either side of 0.
abbrev pub InRange : Bool → ℕ → ℤ → Type 0
InRange true bits (pos n) = n < 2 ^ bits
InRange true bits (negsuc n) = ⊥
InRange false bits (pos n) = (0 < bits) × (n < 2 ^ (bits - 1))
InRange false bits (negsuc n) = (0 < bits) × (n < 2 ^ (bits - 1))

abbrev pub FitsScalar : Scalar → Value → Type 0
FitsScalar address (string s) = is_hex_of 40 s ≡ true
FitsScalar boolean (bool b) = Unit
FitsScalar text (string s) = length s ≤ max_string_length
FitsScalar (sized_bytes size) (string s) = is_hex_of (size * 2) s ≡ true
FitsScalar bytes (string s) = is_hex_bytes s ≡ true
FitsScalar (whole unsigned bits) (bigint z) = InRange unsigned bits z
FitsScalar _ _ = ⊥

mutual
  -- A value that the contract's encoder takes at the type.
  pub data Fits : Text → Value → Type 0 where
    scalar :
        {type : Text} {v : Value}
        → array_match type ≡ none
        → FitsScalar (scalar_of type) v
        → Fits type v
    list :
        {type : Text} {vs : Values} (element fixed : Text)
        → array_match type ≡ some (element, fixed)
        → count vs ≤ max_array_length
        → has_fixed_length fixed (count vs) ≡ true
        → FitsAll element vs
        → Fits type (array vs)

  pub data FitsAll : Text → Values → Type 0 where
    fits_end : {element : Text} → FitsAll element end
    fits_item :
        {element : Text} {v : Value} {vs : Values}
        → Fits element v
        → FitsAll element vs
        → FitsAll element (item v vs)

checked-InRange :
    (unsigned : Bool) (bits : ℕ) (z : ℤ) (v : Value)
    → checked unsigned bits z ≡ ok v
    → (v ≡ bigint z) × InRange unsigned bits z
unfolding checked
checked-InRange true bits (pos n) v h = ground arith
checked-InRange true bits (negsuc n) v h = ground arith
checked-InRange false bits (pos n) v h = ground arith
checked-InRange false bits (negsuc n) v h = ground arith

-- From the outcome of `test ? ok(x) : err(e)`.
if-ok :
    (P : Value → Type 0) (test : Bool) (x v : Value) (e : CoerceProblem)
    → (if test then ok x else err e) ≡ ok v
    → (test ≡ true → P x)
    → P v
if-ok P true x v e h k = let same : x ≡ v = cc in rw (← same) (k refl)
if-ok P false x v e h k = absurd (cc)

coerce_scalar-Fits : (s : Scalar) (v v' : Value) → coerce_scalar s v ≡ ok v' → FitsScalar s v'
unfolding coerce_scalar
coerce_scalar-Fits address (string s) v' h = if-ok (FitsScalar address) _ _ v' _ h (λ e. e)
coerce_scalar-Fits address _ v' h = absurd (cc)
coerce_scalar-Fits boolean (bool b) v' h =
    if-ok (FitsScalar boolean) true (bool b) v' negative h (λ e. tt)
coerce_scalar-Fits boolean _ v' h = absurd (cc)
coerce_scalar-Fits text (string s) v' h = elim (Bool-cases (ltb max_string_length (length s))) [
  | inl long ↦ absurd (err-ne-ok (rw long at h))
  | inr short ↦ let same : string s ≡ v' = ground arith in rw (← same) (ground arith)
]
coerce_scalar-Fits text _ v' h = absurd (cc)
coerce_scalar-Fits (sized_bytes size) (string s) v' h =
    if-ok (FitsScalar (sized_bytes size)) _ _ v' _ h (λ e. e)
coerce_scalar-Fits (sized_bytes size) _ v' h = absurd (cc)
coerce_scalar-Fits bytes (string s) v' h = if-ok (FitsScalar bytes) _ _ v' _ h (λ e. e)
coerce_scalar-Fits bytes _ v' h = absurd (cc)
coerce_scalar-Fits (whole unsigned bits) v v' h =
    let (z, read, fits) = >>=-eq-ok (parsed v) (checked unsigned bits) v' h in
    let (same, range) = checked-InRange unsigned bits z v' fits in rw same range
coerce_scalar-Fits unsupported v v' h = absurd (cc)

at_path-eq-ok :
    {A : Type 0} (path : List ℕ) (m : Outcome CoerceProblem A) (a : A)
    → at_path path m ≡ ok a
    → m ≡ ok a
at_path-eq-ok path (ok b) a h = cc
at_path-eq-ok path (err e) a h = absurd (cc)
at_path-eq-ok path thrown a h = absurd (cc)

check_length_sound :
    (fixed : Text) (n : ℕ) (u : Unit {0})
    → check_length fixed n ≡ ok u
    → (n ≤ max_array_length) × (has_fixed_length fixed n ≡ true)
unfolding check_length
check_length_sound fixed n u h = ground arith

-- The value at a type that is no array type.
scalar-Fits :
    (v v' : Value) (type : Text) (path : List ℕ)
    → array_match type ≡ none
    → at_path path (coerce_scalar (scalar_of type) v) ≡ ok v'
    → Fits type v'
scalar-Fits v v' type path plain h =
    scalar plain (coerce_scalar-Fits (scalar_of type) v v' (at_path-eq-ok path _ v' h))

count-coerce_items :
    (vs vs' : Values) (element : Text) (path : List ℕ) (i : ℕ)
    → coerce_items vs element path i ≡ ok vs'
    → count vs' ≡ count vs
unfolding coerce_arg
count-coerce_items end vs' element path i h = rw (← ok-injective end vs' h)
count-coerce_items (item v vs) vs' element path i h =
    let (first, read, more) = >>=-eq-ok (coerce_arg v element (path ++ i ∷ [])) _ vs' h in
    let (rest, read_rest, made) = >>=-eq-ok (coerce_items vs element path (i + 1)) _ vs' more in
    rw (← ok-injective (item first rest) vs' made)
      (ap suc (count-coerce_items vs rest element path (i + 1) read_rest))

-- The value at an array type, from what holds of its items.
array-Fits :
    (vs : Values) (v' : Value) (type element fixed : Text) (path : List ℕ)
    → array_match type ≡ some (element, fixed)
    → ((vs' : Values) (inner : Text) (path : List ℕ) (i : ℕ)
        → coerce_items vs inner path i ≡ ok vs'
        → FitsAll inner vs')
    → (at_path path (check_length fixed (count vs)) >>= λ _.
        coerce_items vs element path 0 >>= λ coerced. ok (array coerced))
      ≡ ok v'
    → Fits type v'
array-Fits vs v' type element fixed path listed items h =
    let (u, checked_length, more) =
      >>=-eq-ok (at_path path (check_length fixed (count vs))) _ v' h in
    let (vs', read, made) = >>=-eq-ok (coerce_items vs element path 0) _ v' more in
    let (short, exact) =
      check_length_sound fixed (count vs) u (at_path-eq-ok path _ u checked_length) in
    let same_count = count-coerce_items vs vs' element path 0 read in
    rw (← ok-injective (array vs') v' made) (
      list element fixed listed (rw same_count short) (rw same_count exact)
        (items vs' element path 0 read))

mutual
  unfolding coerce_arg

  coerce_arg-Fits_lem :
      (v v' : Value) (type : Text) (path : List ℕ) → coerce_arg v type path ≡ ok v' → Fits type v'
  coerce_arg-Fits_lem (array vs) v' type path h = elim (Option-cases (array_match type)) [
    | inl plain ↦ scalar-Fits (array vs) v' type path plain (rw (plain, coerce_arg) at h)
    | inr ((element, fixed), listed) ↦
        array-Fits vs v' type element fixed path listed (coerce_items-Fits vs)
          (rw (listed, coerce_arg) at h)
  ]
  coerce_arg-Fits_lem v v' type path h = elim (Option-cases (array_match type)) [
    | inl plain ↦ scalar-Fits v v' type path plain (rw (plain, coerce_arg) at h)
    | inr (_, listed) ↦ absurd (err-ne-ok (rw (listed, coerce_arg) at h))
  ]

  coerce_items-Fits :
      (vs vs' : Values) (element : Text) (path : List ℕ) (i : ℕ)
      → coerce_items vs element path i ≡ ok vs'
      → FitsAll element vs'
  coerce_items-Fits end vs' element path i h = rw (← ok-injective end vs' h) fits_end
  coerce_items-Fits (item v vs) vs' element path i h =
      let (first, read, more) = >>=-eq-ok (coerce_arg v element (path ++ i ∷ [])) _ vs' h in
      let (rest, read_rest, made) = >>=-eq-ok (coerce_items vs element path (i + 1)) _ vs' more in
      rw (← ok-injective (item first rest) vs' made) (
        fits_item (coerce_arg-Fits_lem v first element (path ++ i ∷ []) read)
          (coerce_items-Fits vs rest element path (i + 1) read_rest))

checked_of_InRange :
    (unsigned : Bool) (bits : ℕ) (z : ℤ)
    → InRange unsigned bits z
    → checked unsigned bits z ≡ ok (bigint z)
unfolding checked
checked_of_InRange true bits (pos n) h = ground arith
checked_of_InRange true bits (negsuc n) h = absurd h
checked_of_InRange false bits (pos n) h = ground arith
checked_of_InRange false bits (negsuc n) h = ground arith

coerce_scalar_of_Fits : (s : Scalar) (v : Value) → FitsScalar s v → coerce_scalar s v ≡ ok v
unfolding coerce_scalar
coerce_scalar_of_Fits address (string s) h = rw h
coerce_scalar_of_Fits boolean (bool b) h = refl
coerce_scalar_of_Fits text (string s) h = ground arith
coerce_scalar_of_Fits (sized_bytes size) (string s) h = rw h
coerce_scalar_of_Fits bytes (string s) h = rw h
coerce_scalar_of_Fits (whole unsigned bits) (bigint z) h = checked_of_InRange unsigned bits z h
coerce_scalar_of_Fits _ v h = absurd h

check_length_complete :
    (fixed : Text) (n : ℕ)
    → n ≤ max_array_length
    → has_fixed_length fixed n ≡ true
    → check_length fixed n ≡ ok tt
unfolding check_length
check_length_complete fixed n h k = ground arith

-- At a type that is no array type the clauses of `coerce_arg` agree.
coerce_arg-scalar :
    (v : Value) (type : Text) (path : List ℕ)
    → array_match type ≡ none
    → coerce_arg v type path ≡ at_path path (coerce_scalar (scalar_of type) v)
unfolding coerce_arg
coerce_arg-scalar (array vs) type path plain = rw (plain, coerce_arg)
coerce_arg-scalar _ type path plain = rw (plain, coerce_arg)

mutual
  unfolding coerce_arg

  coerce_arg_of_Fits_lem :
      (type : Text) (v : Value) (path : List ℕ) → Fits type v → coerce_arg v type path ≡ ok v
  coerce_arg_of_Fits_lem type v path (scalar plain fits) =
      coerce_arg-scalar v type path plain ∙ rw (coerce_scalar_of_Fits (scalar_of type) v fits)
  coerce_arg_of_Fits_lem type _ path (list {vs} element fixed listed short exact all) =
      rw (listed, coerce_arg)
        (rw (
          check_length_complete fixed (count vs) short exact,
          coerce_items_of_Fits element vs path 0 all,
        ))

  coerce_items_of_Fits :
      (element : Text) (vs : Values) (path : List ℕ) (i : ℕ)
      → FitsAll element vs
      → coerce_items vs element path i ≡ ok vs
  coerce_items_of_Fits element _ path i fits_end = refl
  coerce_items_of_Fits element _ path i (fits_item {v} {vs} first rest) = rw (
    coerce_arg_of_Fits_lem element v (path ++ i ∷ []) first,
    coerce_items_of_Fits element vs path (i + 1) rest,
  )

-- Whatever value `coerceArg` returns is one that the ABI type takes: a text of the type's form, an
-- integer within its width, an array of at most 500 items and of the type's fixed length.
pub coerce_arg-Fits :
    (v v' : Value) (type : Text) (path : List ℕ) → coerce_arg v type path ≡ ok v' → Fits type v'
coerce_arg-Fits v v' type path h = coerce_arg-Fits_lem v v' type path h

-- Every value that the ABI type takes is accepted, and returned as it is.
pub coerce_arg_of_Fits :
    (v : Value) (type : Text) (path : List ℕ) → Fits type v → coerce_arg v type path ≡ ok v
coerce_arg_of_Fits v type path h = coerce_arg_of_Fits_lem type v path h
