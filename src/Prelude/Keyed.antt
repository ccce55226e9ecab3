-- ===== src/Prelude/Keyed.antt =====
-- Lists of records that are found by a key of theirs: `find`, `map` to replace, `filter` to remove.
use mathlib.Core.Path.{◌≡◌, refl}
use mathlib.Core.Bool.{Bool, true, false}
use mathlib.Core.List.{List, [], ◌∷◌, ◌++◌}
use mathlib.Core.Option.{Option, none, some}
use native.Mathlib.Omega.{arith}
use zk_voting.Prelude.Tests.{if◌then◌else◌}
use zk_voting.Prelude.Lists.{find, find_sound}
use zk_voting.Prelude.Text.{Text, text_eq, text_eq_iff, text_eq_sound}

abbrev pub is_some : {A : Type 0} → Option A → Bool
is_some none = false
is_some (some a) = true

module _ {A : Type 0} (key : A → Text) where
  -- `xs.find(x => x.key === k)`
  abbrev pub find_key : Text → List A → Option A
  find_key k xs = find (λ x. text_eq (key x) k) xs

  -- `xs.map(x => (x.key === k ? r : x))`
  unfoldable pub replace_key : Text → A → List A → List A
  replace_key k r [] = []
  replace_key k r (x ∷ xs) = (if text_eq (key x) k then r else x) ∷ replace_key k r xs

  -- `xs.filter(x => x.key !== k)`
  unfoldable pub remove_key : Text → List A → List A
  remove_key k [] = []
  remove_key k (x ∷ xs) = let rest = remove_key k xs in if text_eq (key x) k then rest else x ∷ rest

  pub key-find : (k : Text) (xs : List A) (r : A) → find_key k xs ≡ some r → key r ≡ k
  key-find k xs r h = text_eq_sound (key r) k ((find_sound (λ x. text_eq (key x) k) xs r h).1)

  pub find-replace :
      (k j : Text) (r : A) (xs : List A)
      → key r ≡ k
      → find_key j (replace_key k r xs) ≡ (
          if text_eq k j then (if is_some (find_key k xs) then some r else none) else find_key j xs)
  unfolding replace_key
  find-replace k j r [] same = ground arith
  find-replace k j r (x ∷ xs) same = ground (
    arith,
    find-replace k j r xs same,
    text_eq_iff k j,
    text_eq_iff (key x) k,
    text_eq_iff (key x) j,
    text_eq_iff (key r) j,
  )

  pub find-append :
      (j : Text) (r : A) (xs : List A)
      → find_key j (xs ++ r ∷ []) ≡ (
          if is_some (find_key j xs)
          then find_key j xs
          else if text_eq (key r) j
          then some r
          else none)
  find-append j r [] = ground arith
  find-append j r (x ∷ xs) = ground (arith, find-append j r xs)

  pub find-remove :
      (k j : Text) (xs : List A)
      → find_key j (remove_key k xs) ≡ (if text_eq k j then none else find_key j xs)
  unfolding remove_key
  find-remove k j [] = ground arith
  find-remove k j (x ∷ xs) =
      ground
        (arith, find-remove k j xs, text_eq_iff k j, text_eq_iff (key x) k, text_eq_iff (key x) j)

  -- No two records have one key.
  abbrev pub HasUniqueKeys : List A → Type 0
  HasUniqueKeys [] = Unit
  HasUniqueKeys (x ∷ xs) = (find_key (key x) xs ≡ none) × HasUniqueKeys xs

  pub HasUniqueKeys-append :
      (r : A) (xs : List A)
      → HasUniqueKeys xs
      → find_key (key r) xs ≡ none
      → HasUniqueKeys (xs ++ r ∷ [])
  HasUniqueKeys-append r [] h new = (refl, tt)
  HasUniqueKeys-append r (x ∷ xs) (first, rest) new = (
    ground
        (arith, find-append (key x) r xs, text_eq_iff (key r) (key x), text_eq_iff (key x) (key r)),
    HasUniqueKeys-append r xs rest (ground arith),
  )

  pub HasUniqueKeys-replace :
      (k : Text) (r : A) (xs : List A)
      → key r ≡ k
      → HasUniqueKeys xs
      → HasUniqueKeys (replace_key k r xs)
  unfolding replace_key
  HasUniqueKeys-replace k r [] same h = tt
  HasUniqueKeys-replace k r (x ∷ xs) same (first, rest) = (
    ground (
      arith,
      find-replace k (key x) r xs same,
      find-replace k (key r) r xs same,
      text_eq_iff (key x) k,
      text_eq_iff k (key x),
      text_eq_iff k (key r),
    ),
    HasUniqueKeys-replace k r xs same rest,
  )

  pub HasUniqueKeys-remove :
      (k : Text) (xs : List A) → HasUniqueKeys xs → HasUniqueKeys (remove_key k xs)
  unfolding remove_key
  HasUniqueKeys-remove k [] h = tt
  HasUniqueKeys-remove k (x ∷ xs) (first, rest) =
      ground
        (arith, HasUniqueKeys-remove k xs rest, find-remove k (key x) xs, text_eq_iff (key x) k)
