-- ===== src/Auth/LoginGuard/Lockout.antt =====
-- When a key is locked, for how long, and what does not lock it.
use zk_voting.Prelude.{
  ℕ, zero, suc, ◌+◌, ◌-◌, ◌<◌, ◌≡◌, refl, ◌∙◌, inl, inr, true, false, Option, none, some, List, [],
  ◌∷◌, arith, ltb, leb, All, Bool-cases, if◌then◌else◌,
}
use zk_voting.Prelude.Map
use zk_voting.Prelude.Map.{Entries, get-set, get-delete, get-set_self, get-delete_self}
use zk_voting.Prelude.Text.{Text, text_eq, text_eq_iff}
use zk_voting.Auth.LoginGuard.{LoginGuardOptions, Failures, unlocked, status_for, record_failure}
use zk_voting.Auth.LoginGuard.Calls.{
  current, get-status_for_self, get-status_for_ne, status_from, status-status_for, Event, failure,
  success, query, step, run, get-record_failure_ne, failed, record_failure_self,
  record_failure_locked, get-record_success,
}

module _ (o : LoginGuardOptions) (key : Text) where
  -- The failures of the key since its last success.
  abbrev pub next_streak : Event → ℕ → ℕ
  next_streak (failure a b c j) n = if text_eq j key then suc n else n
  next_streak (success j) n = if text_eq j key then 0 else n
  next_streak (query now j) n = n

  abbrev pub streak : List Event → ℕ → ℕ
  streak [] n = n
  streak (e ∷ es) n = streak es (next_streak e n)

  -- The streak stays below the maximum.
  abbrev pub IsBelowMax : List Event → ℕ → Type 0
  IsBelowMax [] n = n < o.max_failures
  IsBelowMax (e ∷ es) n = (n < o.max_failures) × IsBelowMax es (next_streak e n)

  abbrev unlocked_record : ℕ → Option Failures
  unlocked_record zero = none
  unlocked_record (suc n) = some (record { count = suc n; locked_until = 0 })

  IsBelowMax-lt : (es : List Event) (n : ℕ) → IsBelowMax es n → n < o.max_failures
  IsBelowMax-lt [] n h = h
  IsBelowMax-lt (e ∷ es) n h = h.0

  current-unlocked_record : (now n : ℕ) → current now (unlocked_record n) ≡ unlocked_record n
  current-unlocked_record now zero = refl
  current-unlocked_record now (suc n) = refl

  status-unlocked_record : (now n : ℕ) → status_from now (unlocked_record n) ≡ unlocked
  status-unlocked_record now zero = refl
  status-unlocked_record now (suc n) = ground arith

  current-failed :
      (a b c n : ℕ)
      → suc n < o.max_failures
      → current c (some (failed o key a b (unlocked_record n))) ≡ unlocked_record (suc n)
  current-failed a b c zero h = ground arith
  current-failed a b c (suc n) h = ground arith

  status-failed :
      (a b c n : ℕ)
      → c < b + o.lockout_ms
      → status_from c (some (failed o key a b (unlocked_record n))) ≡ (
          if leb o.max_failures (n + 1)
          then record { locked = true; retry_after_ms = b + o.lockout_ms - c }
          else unlocked)
  status-failed a b c zero h = ground arith
  status-failed a b c (suc n) h = ground arith

  failure_below :
      (a b c : ℕ) (m : Entries Failures) (n : ℕ)
      → Map.get key m ≡ unlocked_record n
      → suc n < o.max_failures
      → Map.get key (record_failure o a b c key m).0 ≡ unlocked_record (suc n)
  failure_below a b c m n found below =
      (record_failure_self o key a b c m (rw (found, status-unlocked_record))).0
      ∙ rw found (current-failed a b c n below)

  step_below :
      (e : Event) (m : Entries Failures) (n : ℕ)
      → Map.get key m ≡ unlocked_record n
      → next_streak e n < o.max_failures
      → Map.get key (step o e m) ≡ unlocked_record (next_streak e n)
  unfolding step
  step_below (failure a b c j) m n found below = elim (Bool-cases (text_eq j key)) [
    | inl same ↦
        rw same (rw ((text_eq_iff j key).0 same) (failure_below a b c m n found (rw same at below)))
    | inr other ↦ rw other (get-record_failure_ne o key a b c j m other ∙ found)
  ]
  step_below (success j) m n found below = get-record_success o key j m ∙ ground (arith, found)
  step_below (query now j) m n found below = elim (Bool-cases (text_eq j key)) [
    | inl same ↦
        rw ((text_eq_iff j key).0 same)
          (get-status_for_self now key m ∙ rw found (current-unlocked_record now n))
    | inr other ↦ get-status_for_ne now j key m other ∙ found
  ]

  run_below :
      (es : List Event) (m : Entries Failures) (n : ℕ)
      → Map.get key m ≡ unlocked_record n
      → IsBelowMax es n
      → Map.get key (run o es m) ≡ unlocked_record (streak es n)
  unfolding run
  run_below [] m n found below = found
  run_below (e ∷ es) m n found below =
      run_below es (step o e m) (next_streak e n)
        (step_below e m n found (IsBelowMax-lt es _ below.1)) below.1

  -- Only the last of `max_failures` failures with no success between them locks a key that
  -- starts without a record, whatever is done with other keys: while there are fewer, the key
  -- is unlocked, and one more failure answers with the lock exactly if it makes enough. The lock
  -- then lasts `lockout_ms` from that failure.
  pub lock_exact :
      (es : List Event) (m : Entries Failures) (now a b c : ℕ)
      → Map.get key m ≡ none
      → IsBelowMax es 0
      → c < b + o.lockout_ms
      → ((status_for now key (run o es m)).1 ≡ unlocked)
        × ((record_failure o a b c key (run o es m)).1 ≡ (
            if leb o.max_failures (streak es 0 + 1)
            then record { locked = true; retry_after_ms = b + o.lockout_ms - c }
            else unlocked))
  lock_exact es m now a b c fresh below early =
      let found = run_below es m 0 fresh below in
      (
        status-status_for now key (run o es m)
            ∙ rw found (status-unlocked_record now (streak es 0)),
        (record_failure_self o key a b c (run o es m) (rw (found, status-unlocked_record))).1
            ∙ rw found (status-failed a b c (streak es 0) early),
      )

  -- An event that is over before a time, and no success of the key.
  abbrev pub IsBefore : ℕ → Event → Type 0
  IsBefore until (failure a b c j) = (a < until) × (c < until)
  IsBefore until (success j) = text_eq j key ≡ false
  IsBefore until (query now j) = now < until

  step_locked :
      (e : Event) (m : Entries Failures) (r : Failures)
      → Map.get key m ≡ some r
      → IsBefore r.locked_until e
      → Map.get key (step o e m) ≡ some r
  unfolding step
  step_locked (failure a b c j) m r found before = elim (Bool-cases (text_eq j key)) [
    | inl same ↦
        rw ((text_eq_iff j key).0 same)
          ((record_failure_locked o key a b c m (rw found (ground arith))).0 ∙ found)
    | inr other ↦ get-record_failure_ne o key a b c j m other ∙ found
  ]
  step_locked (success j) m r found before = get-record_success o key j m ∙ rw before found
  step_locked (query now j) m r found before = elim (Bool-cases (text_eq j key)) [
    | inl same ↦
        rw ((text_eq_iff j key).0 same) (get-status_for_self now key m ∙ rw found (ground arith))
    | inr other ↦ get-status_for_ne now j key m other ∙ found
  ]

  run_locked :
      (es : List Event) (m : Entries Failures) (r : Failures)
      → Map.get key m ≡ some r
      → All (IsBefore r.locked_until) es
      → Map.get key (run o es m) ≡ some r
  unfolding run
  run_locked [] m r found before = found
  run_locked (e ∷ es) m r found (now, later) =
      run_locked es (step o e m) r (step_locked e m r found now) later

  -- A lock holds until its time, whatever happens before it but a success of the key: further
  -- failures do not extend it. From its time on the key is unlocked and its failures are
  -- forgotten.
  pub lock_holds :
      (es : List Event) (m : Entries Failures) (r : Failures) (now : ℕ)
      → Map.get key m ≡ some r
      → 0 < r.locked_until
      → All (IsBefore r.locked_until) es
      → ((status_for now key (run o es m)).1 ≡ (
          if ltb now r.locked_until
          then record { locked = true; retry_after_ms = r.locked_until - now }
          else unlocked))
        × (Map.get key (status_for now key (run o es m)).0
            ≡ (if ltb now r.locked_until then some r else none))
  lock_holds es m r now found some_lock before =
      let kept = run_locked es m r found before in
      (
        status-status_for now key (run o es m) ∙ rw kept (ground arith),
        get-status_for_self now key (run o es m) ∙ rw kept (ground arith),
      )
