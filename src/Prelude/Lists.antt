-- ===== src/Prelude/Lists.antt =====
-- Lists over the native numbers: lengths, searches, and predicates on every item.
use Prim.Native.Nat.{ℕ, zero, suc, ◌+◌}
use mathlib.Core.Path.{◌≡◌, refl, ap}
use mathlib.Core.Logic.{◌⊎◌, inl, inr}
use mathlib.Core.Bool.{Bool, true, false, ◌&&◌, ◌||◌}
use mathlib.Core.List.{List, [], ◌∷◌, ◌++◌, map}
use mathlib.Core.Option.{Option, none, some}
use native.Mathlib.Omega.{arith}
use zk_voting.Prelude.Tests.{if◌then◌else◌, Bool-cases}

module _ {ℓ} {A : Type ℓ} where
  abbrev pub length : List A → ℕ
  length [] = 0
  length (x ∷ xs) = suc (length xs)

  abbrev pub get_elem? : List A → ℕ → Option A
  get_elem? [] i = none
  get_elem? (x ∷ xs) zero = some x
  get_elem? (x ∷ xs) (suc i) = get_elem? xs i

  -- `xs.find(p)`
  abbrev pub find : (A → Bool) → List A → Option A
  find p [] = none
  find p (x ∷ xs) = if p x then some x else find p xs

  -- `xs.some(p)`
  abbrev pub any : (A → Bool) → List A → Bool
  any p [] = false
  any p (x ∷ xs) = p x || any p xs

  -- `xs.every(p)`
  abbrev pub all : (A → Bool) → List A → Bool
  all p [] = true
  all p (x ∷ xs) = p x && all p xs

  -- `xs.filter(p)`
  abbrev pub keep_if : (A → Bool) → List A → List A
  keep_if p [] = []
  keep_if p (x ∷ xs) = let rest = keep_if p xs in if p x then x ∷ rest else rest

module _ {A : Type 0} where
  -- `a` is an item of the list.
  abbrev pub IsIn : A → List A → Type 0
  IsIn a [] = ⊥
  IsIn a (x ∷ xs) = (a ≡ x) ⊎ IsIn a xs

  pub find_sound :
      (p : A → Bool) (xs : List A) (a : A) → find p xs ≡ some a → IsIn a xs × (p a ≡ true)
  find_sound p [] a h = ground arith
  find_sound p (x ∷ xs) a h = ground (arith, find_sound p xs a)

  pub find-ne-none :
      (p : A → Bool) (xs : List A) (a : A) → find p xs ≡ none → IsIn a xs → p a ≡ false
  find-ne-none p [] a h m = elim m [ ]
  find-ne-none p (x ∷ xs) a h (inl e) = rw e (ground arith)
  find-ne-none p (x ∷ xs) a h (inr m) = find-ne-none p xs a (ground arith) m

  pub all_sound : (p : A → Bool) (xs : List A) (a : A) → all p xs ≡ true → IsIn a xs → p a ≡ true
  all_sound p [] a h m = elim m [ ]
  all_sound p (x ∷ xs) a h (inl e) = rw e (ground arith)
  all_sound p (x ∷ xs) a h (inr m) = all_sound p xs a (ground arith) m

  pub any_sound :
      (p : A → Bool) (xs : List A) → any p xs ≡ true → (a : A) × IsIn a xs × (p a ≡ true)
  any_sound p (x ∷ xs) h = elim (Bool-cases (p x)) [
    | inl e ↦ (x, inl refl, e)
    | inr e ↦ let (a, m, q) = any_sound p xs (ground arith) in (a, inr m, q)
  ]
  any_sound p [] h = absurd (cc)

  pub any_complete : (p : A → Bool) (xs : List A) (a : A) → IsIn a xs → p a ≡ true → any p xs ≡ true
  any_complete p [] a m h = elim m [ ]
  any_complete p (x ∷ xs) a (inl e) h = let q : p x ≡ true = rw (← e) h in rw q
  any_complete p (x ∷ xs) a (inr m) h = ground (arith, any_complete p xs a m h)

  pub any-eq-false :
      (p : A → Bool) (xs : List A) (a : A) → any p xs ≡ false → IsIn a xs → p a ≡ false
  any-eq-false p [] a h m = elim m [ ]
  any-eq-false p (x ∷ xs) a h (inl e) = rw e (ground arith)
  any-eq-false p (x ∷ xs) a h (inr m) = any-eq-false p xs a (ground arith) m

module _ {A : Type 0} (P : A → Type 0) where
  -- `P` holds of every item.
  abbrev pub All : List A → Type 0
  All [] = Unit
  All (x ∷ xs) = P x × All xs

  pub All-IsIn : (xs : List A) (a : A) → All xs → IsIn a xs → P a
  All-IsIn [] a _ m = elim m [ ]
  All-IsIn (x ∷ xs) a (h, t) (inl e) = rw e h
  All-IsIn (x ∷ xs) a (h, t) (inr m) = All-IsIn xs a t m

  pub All-append : (xs ys : List A) → All xs → All ys → All (xs ++ ys)
  All-append [] ys h k = k
  All-append (x ∷ xs) ys (h, t) k = (h, All-append xs ys t k)

  pub All-left : (xs ys : List A) → All (xs ++ ys) → All xs
  All-left [] ys h = tt
  All-left (x ∷ xs) ys (h, t) = (h, All-left xs ys t)

module _ {A B : Type 0} where
  pub length-map : (f : A → B) (xs : List A) → length (map f xs) ≡ length xs
  length-map f [] = refl
  length-map f (x ∷ xs) = ap suc (length-map f xs)

module _ {A : Type 0} where
  pub length-append : (xs ys : List A) → length (xs ++ ys) ≡ length xs + length ys
  length-append [] ys = omega arith
  length-append (x ∷ xs) ys = omega (arith, length-append xs ys)
