-- ===== src/Prelude/Outcome.antt =====
-- What a function of the source comes to: a value, a refusal that it returns, or an exception that
-- it does not catch.
use mathlib.Core.Path.{◌≡◌, refl}
use mathlib.Core.Bool.{Bool, true, false}

pub data Outcome (E A : Type 0) : Type 0 where
  ok : A → Outcome E A
  err : E → Outcome E A
  thrown : Outcome E A

infixl 5 ◌>>=◌ ◌>>◌
abbrev pub ◌>>=◌ : {E A B : Type 0} → Outcome E A → (A → Outcome E B) → Outcome E B
ok a >>= f = f a
err e >>= f = err e
thrown >>= f = thrown

abbrev pub ◌>>◌ : {E B : Type 0} → Outcome E (Unit {0}) → Outcome E B → Outcome E B
m >> k = m >>= λ _. k

-- `if (!test) return e`
abbrev pub guard : {E : Type 0} → Bool → E → Outcome E (Unit {0})
guard true e = ok tt
guard false e = err e

module _ {E A B : Type 0} where
  pub >>=-eq-ok :
      (m : Outcome E A) (f : A → Outcome E B) (b : B)
      → (m >>= f) ≡ ok b
      → (a : A) × (m ≡ ok a) × (f a ≡ ok b)
  >>=-eq-ok (ok a) f b h = (a, refl, h)
  >>=-eq-ok (err e) f b h = absurd (cc)
  >>=-eq-ok thrown f b h = absurd (cc)

module _ {E A : Type 0} where
  pub err-ne-ok : {e : E} {a : A} → err e ≡ ok a → ⊥
  err-ne-ok h = cc

  pub ok-injective : (a b : A) → ◌≡◌ {A = Outcome E A} (ok a) (ok b) → a ≡ b
  ok-injective a b h = cc

module _ {E A B : Type 0} where
  pub >>=-of-ok :
      (m : Outcome E A) (f : A → Outcome E B) (r : Outcome E B) (a : A)
      → m ≡ ok a
      → f a ≡ r
      → (m >>= f) ≡ r
  >>=-of-ok m f r a h k = rw h k

  pub >>=-of-thrown : (m : Outcome E A) (f : A → Outcome E B) → m ≡ thrown → (m >>= f) ≡ thrown
  >>=-of-thrown m f h = rw h

pub guard-eq-ok : {E : Type 0} (b : Bool) (e : E) (u : Unit {0}) → guard b e ≡ ok u → b ≡ true
guard-eq-ok true e u h = refl
guard-eq-ok false e u h = absurd (err-ne-ok h)
