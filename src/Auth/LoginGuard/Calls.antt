-- ===== src/Auth/LoginGuard/Calls.antt =====
-- The calls of the guard, from the record that they find of a key.
use zk_voting.Prelude.{
  ℕ, ◌-◌, ◌≡◌, refl, inl, inr, true, false, Option, none, some, List, [], ◌∷◌, arith, ltb, leb,
  Bool-cases, Option-cases, if◌then◌else◌,
}
use zk_voting.Prelude.Map
use zk_voting.Prelude.Map.{Entries, get-set, get-delete, get-set_self, get-delete_self}
use zk_voting.Prelude.Text.{Text, text_eq}
use zk_voting.Auth.LoginGuard.{
  LoginGuardOptions, LockStatus, Failures, unlocked, status_for, fail_once, or_fresh,
  record_failure, record_success,
}

-- The record that counts at a time: one whose lock has run out is forgotten.
abbrev pub current : ℕ → Option Failures → Option Failures
current now none = none
current now (some r) =
    if ltb 0 r.locked_until then (if leb r.locked_until now then none else some r) else some r

pub get-status_for_self :
    (now : ℕ) (key : Text) (m : Entries Failures)
    → Map.get key (status_for now key m).0 ≡ current now (Map.get key m)
unfolding status_for
get-status_for_self now key m = elim (Option-cases (Map.get key m)) [
  | inl e ↦ rw e e
  | inr (r, e) ↦ rw e (ground (arith, e, get-delete_self key m))
]

pub get-status_for_ne :
    (now : ℕ) (key j : Text) (m : Entries Failures)
    → text_eq key j ≡ false
    → Map.get j (status_for now key m).0 ≡ Map.get j m
unfolding status_for
get-status_for_ne now key j m ne = elim (Option-cases (Map.get key m)) [
  | inl e ↦ rw e
  | inr (r, e) ↦ rw e (ground (arith, get-delete key j m))
]

-- The status, from the record of the key.
abbrev pub status_from : ℕ → Option Failures → LockStatus
status_from now none = unlocked
status_from now (some r) =
    if leb r.locked_until now
    then unlocked
    else record { locked = true; retry_after_ms = r.locked_until - now }

pub status-status_for :
    (now : ℕ) (key : Text) (m : Entries Failures)
    → (status_for now key m).1 ≡ status_from now (Map.get key m)
unfolding status_for
status-status_for now key m = elim (Option-cases (Map.get key m)) [
  | inl e ↦ rw e
  | inr (r, e) ↦ rw e (ground arith)
]

current_of_locked :
    (now : ℕ) (found : Option Failures)
    → (status_from now found).locked ≡ true
    → current now found ≡ found
current_of_locked now none h = refl
current_of_locked now (some r) h = ground arith

-- A use of the guard.
pub data Event : Type 0 where
  failure : (checked_at failed_at reported_at : ℕ) → Text → Event
  success : Text → Event
  query : (now : ℕ) → Text → Event

module _ (o : LoginGuardOptions) where
  unfoldable pub step : Event → Entries Failures → Entries Failures
  step (failure a b c key) m = (record_failure o a b c key m).0
  step (success key) m = record_success key m
  step (query now key) m = (status_for now key m).0

  unfoldable pub run : List Event → Entries Failures → Entries Failures
  run [] m = m
  run (e ∷ es) m = run es (step e m)

  module _ (key : Text) where
    pub get-record_failure_ne :
        (a b c : ℕ) (j : Text) (m : Entries Failures)
        → text_eq j key ≡ false
        → Map.get key (record_failure o a b c j m).0 ≡ Map.get key m
    unfolding record_failure
    get-record_failure_ne a b c j m ne = elim (Bool-cases ((status_for a j m).1.locked)) [
      | inl locked ↦ rw locked (get-status_for_ne a j key m ne)
      | inr unlocked_now ↦
          rw unlocked_now
            (rw (get-status_for_ne c j key _ ne, get-set, ne) (get-status_for_ne a j key m ne))
    ]

    -- One failure, from the record of the key.
    abbrev pub failed : ℕ → ℕ → Option Failures → Failures
    failed checked_at failed_at found = fail_once o failed_at (or_fresh (current checked_at found))

    pub record_failure_self :
        (a b c : ℕ) (m : Entries Failures)
        → (status_from a (Map.get key m)).locked ≡ false
        → (Map.get key (record_failure o a b c key m).0
            ≡ current c (some (failed a b (Map.get key m))))
          × ((record_failure o a b c key m).1 ≡ status_from c (some (failed a b (Map.get key m))))
    unfolding record_failure
    record_failure_self a b c m unlocked_now =
        let open_now : (status_for a key m).1.locked ≡ false =
          rw (status-status_for a key m) unlocked_now in
        rw open_now (
          rw (get-status_for_self, status-status_for, get-set_self, get-status_for_self)
            (refl, refl))

    pub record_failure_locked :
        (a b c : ℕ) (m : Entries Failures)
        → (status_from a (Map.get key m)).locked ≡ true
        → (Map.get key (record_failure o a b c key m).0 ≡ Map.get key m)
          × ((record_failure o a b c key m).1 ≡ status_from a (Map.get key m))
    unfolding record_failure
    record_failure_locked a b c m locked_now =
        let shut_now : (status_for a key m).1.locked ≡ true =
          rw (status-status_for a key m) locked_now in
        rw shut_now
          (rw (get-status_for_self, status-status_for) (current_of_locked a _ locked_now, refl))

    pub get-record_success :
        (j : Text) (m : Entries Failures)
        → Map.get key (record_success j m) ≡ (if text_eq j key then none else Map.get key m)
    unfolding record_success
    get-record_success j m = get-delete j key m
