-- ===== src/Auth/LoginGuard.antt =====
-- packages/nextjs/services/auth/rateLimit.ts, `createLoginGuard`. A call takes the times, in
-- milliseconds, at which it reads the clock.
pub mod Calls
pub mod Lockout
mod Tests
use zk_voting.Prelude.{ℕ, ◌+◌, ◌-◌, Bool, true, false, Option, none, some, leb, ltb, if◌then◌else◌}
use zk_voting.Prelude.Map
use zk_voting.Prelude.Map.{Entries}
use zk_voting.Prelude.Text.{Text}

pub record LoginGuardOptions : Type 0 where
  pub max_failures : ℕ
  pub lockout_ms : ℕ

pub record LockStatus : Type 0 where
  pub locked : Bool
  pub retry_after_ms : ℕ

-- `lockedUntil` is 0 until the key is locked
pub record Failures : Type 0 where
  pub count : ℕ
  pub locked_until : ℕ

abbrev pub unlocked : LockStatus
unlocked = record { locked = false; retry_after_ms = 0 }

-- what `statusFor` finds for the key: the table afterwards, and the status
abbrev pub status_of : ℕ → Text → Option Failures → Entries Failures → Entries Failures × LockStatus
status_of now key none failures = (failures, unlocked)
status_of now key (some r) failures =
    if leb r.locked_until now
    then (if ltb 0 r.locked_until then Map.delete key failures else failures, unlocked)
    else (failures, record { locked = true; retry_after_ms = r.locked_until - now })

unfoldable pub status_for : ℕ → Text → Entries Failures → Entries Failures × LockStatus
status_for now key failures = status_of now key (Map.get key failures) failures

-- `failures.get(key) ?? { count: 0, lockedUntil: 0 }`
abbrev pub or_fresh : Option Failures → Failures
or_fresh none = record { count = 0; locked_until = 0 }
or_fresh (some r) = r

-- the record with one more failure, locked if that makes enough
abbrev pub fail_once : LoginGuardOptions → ℕ → Failures → Failures
fail_once o now r =
    let count = r.count + 1 in
    record {
      count = count;
      locked_until = if leb o.max_failures count then now + o.lockout_ms else r.locked_until;
    }

-- the first reading of the clock is that of the check, the last that of the status returned
unfoldable pub record_failure :
    LoginGuardOptions
    → (checked_at failed_at reported_at : ℕ) → Text
    → Entries Failures
    → Entries Failures × LockStatus
record_failure o checked_at failed_at reported_at key failures =
    let (table, current) = status_for checked_at key failures in
    if current.locked
    then (table, current)
    else status_for reported_at key
        (Map.set key (fail_once o failed_at (or_fresh (Map.get key table))) table)

unfoldable pub record_success : Text → Entries Failures → Entries Failures
record_success key failures = Map.delete key failures
