-- ===== src/Prelude/KeyedAll.antt =====
-- Predicates on every record of a keyed list, and what adding or removing one does to them.
use Prim.Native.Nat.{◌≤◌}
use mathlib.Core.Path.{◌≡◌, refl}
use mathlib.Core.Logic.{inl, inr}
use mathlib.Core.Bool.{not}
use mathlib.Core.List.{List, [], ◌∷◌}
use native.Mathlib.Omega.{arith}
use zk_voting.Prelude.Tests.{Bool-cases, ◌==◌}
use zk_voting.Prelude.Lists.{length, any, All}
use zk_voting.Prelude.Text.{Text, text_eq}
use zk_voting.Prelude.Keyed.{is_some, find_key, replace_key, remove_key}

module _ {A : Type 0} (key : A → Text) where
  pub any-find :
      (k : Text) (xs : List A) → any (λ x. text_eq (key x) k) xs ≡ is_some (find_key key k xs)
  any-find k [] = refl
  any-find k (x ∷ xs) = ground (arith, any-find k xs)

  remove-length-le : (k : Text) (xs : List A) → length (remove_key key k xs) ≤ length xs
  unfolding remove_key
  remove-length-le k [] = omega arith
  remove-length-le k (x ∷ xs) = ground (arith, remove-length-le k xs)

  -- A removal keeps the length exactly where there is nothing to remove.
  pub length-remove :
      (k : Text) (xs : List A)
      → (length (remove_key key k xs) == length xs) ≡ not (is_some (find_key key k xs))
  unfolding remove_key
  length-remove k [] = refl
  length-remove k (x ∷ xs) = ground (arith, length-remove k xs, remove-length-le k xs)

  module _ (P : A → Type 0) where
    pub All-replace :
        (k : Text) (r : A) (xs : List A) → P r → All P xs → All P (replace_key key k r xs)
    unfolding replace_key
    All-replace k r [] h all = tt
    All-replace k r (x ∷ xs) h (first, rest) = elim (Bool-cases (text_eq (key x) k)) [
      | inl e ↦ rw e (h, All-replace k r xs h rest)
      | inr e ↦ rw e (first, All-replace k r xs h rest)
    ]

    pub All-remove : (k : Text) (xs : List A) → All P xs → All P (remove_key key k xs)
    unfolding remove_key
    All-remove k [] all = tt
    All-remove k (x ∷ xs) (first, rest) = elim (Bool-cases (text_eq (key x) k)) [
      | inl e ↦ rw e (All-remove k xs rest)
      | inr e ↦ rw e (first, All-remove k xs rest)
    ]
