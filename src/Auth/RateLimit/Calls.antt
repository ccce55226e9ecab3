-- ===== src/Auth/RateLimit/Calls.antt =====
-- What one call of `consume` does to the window of its key and to those of others.
use zk_voting.Prelude.{
  ℕ, ◌≡◌, false, Option, none, some, [], ◌∷◌, arith, ltb, length, Bool-cases, inl, inr,
  if◌then◌else◌,
}
use zk_voting.Prelude.Map
use zk_voting.Prelude.Map.{Entries, get-set, get-delete}
use zk_voting.Prelude.Text.{Text, text_eq, text_eq_iff, text_eq_refl}
use zk_voting.Auth.RateLimit.{RateLimiterOptions, Window, has_expired, sweep, swept, admit, consume}

module _ (o : RateLimiterOptions) (t : ℕ) where
  -- A window that has expired is as good as none.
  abbrev pub live : Option Window → Option Window
  live none = none
  live (some w) = if has_expired o t w then none else some w

  pub get-sweep :
      (key : Text) (m : Entries Window) → Map.get key (sweep o t m) ≡ live (Map.get key m)
  unfolding sweep Map.get
  get-sweep key [] = ground arith
  get-sweep key ((j, w) ∷ m) =
      ground (arith, get-sweep key m, get-delete j key (sweep o t m), text_eq_iff j key)

  pub admit-live : (found : Option Window) → admit o t (live found) ≡ admit o t found
  unfolding admit
  admit-live none = ground arith
  admit-live (some w) = ground arith

  pub live-live : (found : Option Window) → live (live found) ≡ live found
  live-live none = ground arith
  live-live (some w) = ground arith

  pub live-get-swept :
      (key : Text) (m : Entries Window) → live (Map.get key (swept o t m)) ≡ live (Map.get key m)
  live-get-swept key m = elim (Bool-cases (ltb 1000 (length m))) [
    | inl big ↦ rw big (rw get-sweep (live-live _))
    | inr small ↦ rw small
  ]

  pub admit-get-swept :
      (key : Text) (m : Entries Window)
      → admit o t (Map.get key (swept o t m)) ≡ admit o t (Map.get key m)
  admit-get-swept key m =
      rw (← admit-live (Map.get key (swept o t m)), live-get-swept key m) (admit-live _)

  -- The decision of `consume` depends on nothing but the window of its key: the sweep of a table
  -- with more than 1000 entries is never seen.
  pub decision-consume :
      (key : Text) (m : Entries Window) → (consume o t key m).1 ≡ (admit o t (Map.get key m)).1
  unfolding consume
  decision-consume key m = rw (admit-get-swept key m)

  pub get-consume_self :
      (key : Text) (m : Entries Window)
      → Map.get key (consume o t key m).0 ≡ some (admit o t (Map.get key m)).0
  unfolding consume
  get-consume_self key m = rw (get-set, text_eq_refl key, admit-get-swept key m)

  -- The window of another key is untouched, or was dropped after it had expired.
  pub live-get-consume_ne :
      (key j : Text) (m : Entries Window)
      → text_eq key j ≡ false
      → live (Map.get j (consume o t key m).0) ≡ live (Map.get j m)
  unfolding consume
  live-get-consume_ne key j m h = rw (get-set, h) (live-get-swept j m)
