-- ===== src/Auth/RateLimit/Burst.antt =====
-- How many calls the limiter admits for one key, whatever the calls for other keys between them.
use zk_voting.Prelude.{
  ℕ, ◌+◌, ◌-◌, ◌*◌, ◌≤◌, ◌<◌, ◌≡◌, refl, ◌⊎◌, inl, inr, Bool, true, false, ◌&&◌, Option, none, some,
  List, [], ◌∷◌, arith, ltb, leb, length, All, Bool-cases, Option-cases,
}
use Prim.Native.Nat.{min}
use zk_voting.Prelude.Map
use zk_voting.Prelude.Map.{Entries, get-set}
use zk_voting.Prelude.Text.{Text, text_eq, text_eq_iff}
use zk_voting.Auth.RateLimit.{RateLimiterOptions, Window, has_expired, swept, admit, consume}
use zk_voting.Auth.RateLimit.Calls.{live, get-sweep, decision-consume, get-consume_self, admit-live}

abbrev one_if : Bool → ℕ
one_if true = 1
one_if false = 0

-- A call: when it is made, and for which key.
abbrev pub Call : Type 0
Call = ℕ × Text

-- How many of the calls are for the key.
unfoldable pub requests : Text → List Call → ℕ
requests k [] = 0
requests k ((t, key) ∷ calls) = one_if (text_eq key k) + requests k calls

module _ (o : RateLimiterOptions) where
  -- How many of them are allowed, from a table of windows.
  unfoldable pub admitted : Text → List Call → Entries Window → ℕ
  admitted k [] m = 0
  admitted k ((t, key) ∷ calls) m =
      one_if (text_eq key k && (consume o t key m).1.allowed)
      + admitted k calls (consume o t key m).0

  get-swept :
      (t : ℕ) (j : Text) (m : Entries Window)
      → (Map.get j (swept o t m) ≡ Map.get j m) ⊎ (Map.get j (swept o t m) ≡ live o t (Map.get j m))
  get-swept t j m = elim (Bool-cases (ltb 1000 (length m))) [
    | inl big ↦ inr (rw big (get-sweep o t j m))
    | inr small ↦ inl (rw small)
  ]

  -- A window that has not expired survives the calls for other keys.
  get-consume_ne :
      (t : ℕ) (key j : Text) (m : Entries Window) (w : Window)
      → text_eq key j ≡ false
      → Map.get j m ≡ some w
      → has_expired o t w ≡ false
      → Map.get j (consume o t key m).0 ≡ some w
  unfolding consume
  get-consume_ne t key j m w ne found alive =
      rw (get-set, ne)
        (elim (get-swept t j m) [ inl e ↦ rw (e, found) | inr e ↦ rw (e, found, alive) ])

  get-consume_either :
      (t : ℕ) (key j : Text) (m : Entries Window) (w : Window)
      → text_eq key j ≡ false
      → Map.get j m ≡ some w
      → (Map.get j (consume o t key m).0 ≡ some w) ⊎ (Map.get j (consume o t key m).0 ≡ none)
  unfolding consume
  get-consume_either t key j m w ne found = elim (get-swept t j m) [
    | inl e ↦ inl (rw (get-set, ne, e, found))
    | inr e ↦ elim (Bool-cases (has_expired o t w)) [
      | inl gone ↦ inr (rw (get-set, ne, e, found, gone))
      | inr alive ↦ inl (rw (get-set, ne, e, found, alive))
    ]
  ]

  -- A window that had expired at a time has expired later too.
  live_later :
      (from t : ℕ) (found : Option Window)
      → from ≤ t
      → live o from found ≡ none
      → live o t found ≡ none
  live_later from t none le gone = refl
  live_later from t (some w) le gone = ground arith

  live_twice :
      (from t : ℕ) (found : Option Window)
      → live o from found ≡ none
      → live o from (live o t found) ≡ none
  live_twice from t none gone = refl
  live_twice from t (some w) gone = ground arith

  -- A key without a live window gets none from the calls for other keys.
  get-consume-none :
      (from t : ℕ) (key j : Text) (m : Entries Window)
      → text_eq key j ≡ false
      → live o from (Map.get j m) ≡ none
      → live o from (Map.get j (consume o t key m).0) ≡ none
  unfolding consume
  get-consume-none from t key j m ne gone =
      rw (get-set, ne)
        (elim (get-swept t j m) [
          | inl e ↦ rw e gone
          | inr e ↦ rw e (live_twice from t (Map.get j m) gone)
        ])

  -- A call for the key itself, in its window.
  count_self :
      (t : ℕ) (key k : Text) (m : Entries Window) (w : Window)
      → text_eq key k ≡ true
      → Map.get k m ≡ some w
      → has_expired o t w ≡ false
      → ((consume o t key m).1.allowed ≡ leb (w.count + 1) o.limit)
        × (Map.get k (consume o t key m).0 ≡ some (record w { count = w.count + 1 }))
  unfolding admit
  count_self t key k m w same found alive =
      rw ((text_eq_iff key k).0 same)
        (rw (decision-consume o t k m, get-consume_self o t k m, found, alive) (refl, refl))

  abbrev opened : ℕ → Window
  opened t = record { count = 1; started_at = t }

  -- A call for the key itself, where its window has expired or was never there.
  open_self :
      (t : ℕ) (key k : Text) (m : Entries Window)
      → text_eq key k ≡ true
      → live o t (Map.get k m) ≡ none
      → ((consume o t key m).1.allowed ≡ true) × (Map.get k (consume o t key m).0 ≡ some (opened t))
  unfolding admit
  open_self t key k m same gone = rw ((text_eq_iff key k).0 same) (
      rw (decision-consume o t k m, get-consume_self o t k m, ← admit-live o t (Map.get k m), gone)
        (refl, refl))

  -- The calls of an interval that is no longer than a window.
  abbrev pub During : ℕ → List Call → Type 0
  During from calls = All (λ c. (from ≤ c.0) × (c.0 < from + o.window_ms)) calls

  module _ (from : ℕ) (k : Text) where
    admitted_in_window :
        (calls : List Call) (m : Entries Window) (w : Window)
        → During from calls
        → Map.get k m ≡ some w
        → from ≤ w.started_at
        → admitted k calls m ≡ min (requests k calls) (o.limit - w.count)
    unfolding admitted requests
    admitted_in_window [] m w d found new = omega arith
    admitted_in_window ((t, key) ∷ calls) m w (now, d) found new =
        let alive : has_expired o t w ≡ false = ground arith in
        elim (Bool-cases (text_eq key k)) [
          | inl same ↦
              let (decided, kept) = count_self t key k m w same found alive in
              rw (same, decided)
                (ground (
                  arith,
                  admitted_in_window calls (consume o t key m).0 (record w { count = w.count + 1 })
                      d kept new,
                ))
          | inr other ↦ rw other (
              omega (
                arith,
                admitted_in_window calls (consume o t key m).0 w d
                    (get-consume_ne t key k m w other found alive) new,
              ))
        ]

    -- From a table in which the key has no window that reaches into the interval, exactly the
    -- first `limit` calls for the key are allowed.
    pub admitted_afresh :
        (calls : List Call) (m : Entries Window)
        → 0 < o.limit
        → During from calls
        → live o from (Map.get k m) ≡ none
        → admitted k calls m ≡ min (requests k calls) o.limit
    unfolding admitted requests
    admitted_afresh [] m some_limit d gone = omega arith
    admitted_afresh ((t, key) ∷ calls) m some_limit (now, d) gone =
        elim (Bool-cases (text_eq key k)) [
          | inl same ↦
              let (decided, kept) =
                open_self t key k m same (live_later from t (Map.get k m) now.0 gone) in
              rw (same, decided)
                (omega
                  (arith, admitted_in_window calls (consume o t key m).0 (opened t) d kept now.0))
          | inr other ↦ rw other (
              omega (
                arith,
                admitted_afresh calls (consume o t key m).0 some_limit d
                    (get-consume-none from t key k m other gone),
              ))
        ]

    -- A window that was open before the interval gives what was left in it, and one more window.
    admitted_across :
        (calls : List Call) (m : Entries Window) (w : Window)
        → 0 < o.limit
        → During from calls
        → Map.get k m ≡ some w
        → admitted k calls m ≤ o.limit - w.count + o.limit
    unfolding admitted requests
    admitted_across [] m w some_limit d found = omega arith
    admitted_across ((t, key) ∷ calls) m w some_limit (now, d) found =
        elim (Bool-cases (text_eq key k)) [
          | inl same ↦ elim (Bool-cases (has_expired o t w)) [
            | inl gone ↦
                let (decided, kept) = open_self t key k m same (rw (found, gone)) in
                rw (same, decided)
                  (omega
                    (arith, admitted_in_window calls (consume o t key m).0 (opened t) d kept now.0))
            | inr alive ↦
                let (decided, kept) = count_self t key k m w same found alive in
                rw (same, decided)
                  (ground (
                    arith,
                    admitted_across calls (consume o t key m).0 (record w { count = w.count + 1 })
                        some_limit d kept,
                  ))
          ]
          | inr other ↦ elim (get-consume_either t key k m w other found) [
            | inl kept ↦
                rw other
                  (omega (arith, admitted_across calls (consume o t key m).0 w some_limit d kept))
            | inr gone ↦
                rw other (
                  omega (arith, admitted_afresh calls (consume o t key m).0 some_limit d (rw gone)))
          ]
        ]

  -- Whatever the table, no interval of the length of a window admits more than twice the limit
  -- for a key.
  pub admitted-le :
      (from : ℕ) (k : Text) (calls : List Call) (m : Entries Window)
      → 0 < o.limit
      → During from calls
      → admitted k calls m ≤ 2 * o.limit
  admitted-le from k calls m some_limit d = elim (Option-cases (Map.get k m)) [
    | inl unseen ↦ omega (arith, admitted_afresh from k calls m some_limit d (rw unseen))
    | inr (w, found) ↦ omega (arith, admitted_across from k calls m w some_limit d found)
  ]
