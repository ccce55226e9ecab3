-- ===== src/Prelude/Map.antt =====
-- A JavaScript `Map` with string keys: its entries in the order of insertion.
use mathlib.Core.Path.{◌≡◌}
use mathlib.Core.List.{List, [], ◌∷◌}
use mathlib.Core.Option.{Option, none, some}
use native.Mathlib.Omega.{arith}
use zk_voting.Prelude.Tests.{if◌then◌else◌}
use zk_voting.Prelude.Text.{Text, text_eq, text_eq_iff, text_eq_refl}

abbrev pub Entries : Type 0 → Type 0
Entries V = List (Text × V)

module _ {V : Type 0} where
  -- `m.get(k)`
  unfoldable pub get : Text → Entries V → Option V
  get k [] = none
  get k ((j, v) ∷ m) = if text_eq j k then some v else get k m

  -- `m.set(k, v)`: a key that is there keeps its place.
  unfoldable pub set : Text → V → Entries V → Entries V
  set k v [] = (k, v) ∷ []
  set k v ((j, w) ∷ m) = let rest = set k v m in if text_eq j k then (j, v) ∷ m else (j, w) ∷ rest

  -- `m.delete(k)`
  unfoldable pub delete : Text → Entries V → Entries V
  delete k [] = []
  delete k ((j, w) ∷ m) = let rest = delete k m in if text_eq j k then rest else (j, w) ∷ rest

  pub get-set :
      (k j : Text) (v : V) (m : Entries V)
      → get j (set k v m) ≡ (if text_eq k j then some v else get j m)
  unfolding get set
  get-set k j v [] = ground arith
  get-set k j v ((i, w) ∷ m) =
      ground (arith, text_eq_iff k j, text_eq_iff i k, text_eq_iff i j, get-set k j v m)

  pub get-delete :
      (k j : Text) (m : Entries V) → get j (delete k m) ≡ (if text_eq k j then none else get j m)
  unfolding get delete
  get-delete k j [] = ground arith
  get-delete k j ((i, w) ∷ m) =
      ground (arith, text_eq_iff k j, text_eq_iff i k, text_eq_iff i j, get-delete k j m)

  pub get-set_self : (k : Text) (v : V) (m : Entries V) → get k (set k v m) ≡ some v
  get-set_self k v m = rw (get-set, text_eq_refl k)

  pub get-delete_self : (k : Text) (m : Entries V) → get k (delete k m) ≡ none
  get-delete_self k m = rw (get-delete, text_eq_refl k)
