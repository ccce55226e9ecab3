-- ===== src/Auth/Officers/Generated.antt =====
-- The passwords that are generated for officers.
use zk_voting.Prelude.{
  ℕ, zero, suc, get_elem?, ◌%◌, ◌<◌, ◌≡◌, refl, ap, ◌∙◌, Bool, true, not, ◌&&◌, ◌||◌, none, List,
  [], ◌∷◌, ◌++◌, arith, ltb, ◌==◌, all, length,
}
use native.Mathlib.Nat.{mod-lt}
use mathlib.Core.List.{reverse, reverse-reverse, reverse-cons}
use zk_voting.Prelude.Text.{Text, is_space, drop_spaces, trim}
use zk_voting.Auth.PasswordPolicy.{password_problem}
use zk_voting.Auth.Relay.Value.{string}
use zk_voting.Auth.Officers.{password_alphabet, alphabet_unit, or_nothing, generate_password}

-- A letter or a digit that is not mistaken for another one.
abbrev pub is_unambiguous : ℕ → Bool
is_unambiguous c =
    ltb 32 c && ltb c 127 && not (c == b'0' || c == b'O' || c == b'1' || c == b'l' || c == b'I')

alphabet_unambiguous : all is_unambiguous password_alphabet ≡ true
alphabet_unambiguous = refl

nth_all :
    (p : ℕ → Bool) (xs : List ℕ) (i : ℕ)
    → all p xs ≡ true
    → i < length xs
    → p (or_nothing (get_elem? xs i)) ≡ true
nth_all p [] i h below = absurd (omega (arith, below))
nth_all p (x ∷ xs) zero h below = ground arith
nth_all p (x ∷ xs) (suc i) h below = nth_all p xs i (ground arith) (omega (arith, below))

mod_below : (n m : ℕ) → 0 < m → n % m < m
mod_below n m h = mod-lt n h

unit_unambiguous : (byte : ℕ) → is_unambiguous (alphabet_unit byte) ≡ true
unit_unambiguous byte =
    nth_all is_unambiguous password_alphabet (byte % length password_alphabet) alphabet_unambiguous
      (mod_below byte (length password_alphabet) (omega arith))

length-generate_password : (bytes : List ℕ) → length (generate_password bytes) ≡ length bytes
unfolding generate_password
length-generate_password [] = refl
length-generate_password (b ∷ bytes) = ap suc (length-generate_password bytes)

generated_unambiguous : (bytes : List ℕ) → all is_unambiguous (generate_password bytes) ≡ true
unfolding generate_password
generated_unambiguous [] = refl
generated_unambiguous (b ∷ bytes) = rw (unit_unambiguous b, generated_unambiguous bytes) refl

abbrev is_solid : Text → Bool
is_solid s = all (λ c. not (is_space c)) s

solid_of_unambiguous : (s : Text) → all is_unambiguous s ≡ true → is_solid s ≡ true
unfolding is_space
solid_of_unambiguous [] h = refl
solid_of_unambiguous (c ∷ s) h = ground (arith, solid_of_unambiguous s)

drop_solid : (s : Text) → is_solid s ≡ true → drop_spaces s ≡ s
unfolding drop_spaces
drop_solid [] h = refl
drop_solid (c ∷ s) h = ground arith

all_append :
    (p : ℕ → Bool) (s : Text) (c : ℕ) → all p s ≡ true → p c ≡ true → all p (s ++ c ∷ []) ≡ true
all_append p [] c h k = rw k refl
all_append p (d ∷ s) c h k = ground (arith, all_append p s c)

solid_reverse : (s : Text) → is_solid s ≡ true → is_solid (reverse s) ≡ true
solid_reverse [] h = refl
solid_reverse (c ∷ s) h =
    rw (reverse-cons c s)
      (all_append _ (reverse s) c (solid_reverse s (ground arith)) (ground arith))

trim_solid : (s : Text) → is_solid s ≡ true → trim s ≡ s
unfolding trim
trim_solid s h = rw (drop_solid s h, drop_solid (reverse s) (solid_reverse s h)) (reverse-reverse s)

-- The password that is generated from twenty random bytes conforms to the password policy, and
-- has only letters and digits that are not mistaken for one another.
pub generate_password_conforms :
    (bytes : List ℕ)
    → length bytes ≡ 20
    → (password_problem (string (generate_password bytes)) ≡ none)
      × (all is_unambiguous (generate_password bytes) ≡ true)
unfolding password_problem
generate_password_conforms bytes twenty =
    let s = generate_password bytes in
    let long : length s ≡ 20 = length-generate_password bytes ∙ twenty in
    let clear = generated_unambiguous bytes in
    (rw (trim_solid s (solid_of_unambiguous s clear), long) refl, clear)
