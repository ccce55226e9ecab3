-- ===== src/Auth/RateLimit.antt =====
-- packages/nextjs/services/auth/rateLimit.ts, `createRateLimiter`. The clock is injected there, so
-- each call takes the time that it reads, in milliseconds.
pub mod Calls
pub mod Burst
mod Tests
use zk_voting.Prelude.{
  ℕ, suc, ◌+◌, ◌-◌, Bool, true, Option, none, some, [], ◌∷◌, leb, ltb, length, if◌then◌else◌,
}
use zk_voting.Prelude.Int.{ℤ, pos, sub_ℕ}
use zk_voting.Prelude.Map
use zk_voting.Prelude.Map.{Entries}
use zk_voting.Prelude.Text.{Text}

pub record RateLimitDecision : Type 0 where
  pub allowed : Bool
  pub remaining : ℤ
  pub retry_after_ms : ℕ

pub record RateLimiterOptions : Type 0 where
  pub limit : ℕ
  pub window_ms : ℕ

pub record Window : Type 0 where
  pub count : ℕ
  pub started_at : ℕ

module _ (options : RateLimiterOptions) (current_time : ℕ) where
  open options use {limit, window_ms}

  -- `currentTime - window.startedAt >= windowMs`, also where the clock has gone back
  abbrev pub has_expired : Window → Bool
  has_expired w = leb (w.started_at + window_ms) current_time

  unfoldable pub sweep : Entries Window → Entries Window
  sweep [] = []
  sweep ((key, window) ∷ windows) =
      let rest = sweep windows in
      if has_expired window then Map.delete key rest else (key, window) ∷ rest

  abbrev pub open_window : Window × RateLimitDecision
  open_window = (
    record { count = 1; started_at = current_time },
    record { allowed = true; remaining = sub_ℕ limit 1; retry_after_ms = window_ms },
  )

  -- `Math.max(0, …)` is the subtraction that stops at 0
  abbrev pub count_call : Window → Window × RateLimitDecision
  count_call w =
      let count = w.count + 1 in
      (
        record w { count = count },
        record {
          allowed = leb count limit;
          remaining = pos (limit - count);
          retry_after_ms = w.started_at + window_ms - current_time;
        },
      )

  -- what becomes of the window found for the key
  unfoldable pub admit : Option Window → Window × RateLimitDecision
  admit none = open_window
  admit (some w) = if has_expired w then open_window else count_call w

  abbrev pub swept : Entries Window → Entries Window
  swept windows = if ltb 1000 (length windows) then sweep windows else windows

  unfoldable pub consume : Text → Entries Window → Entries Window × RateLimitDecision
  unfolding admit
  consume key windows =
      let (w, decision) = admit (Map.get key (swept windows)) in
      (Map.set key w (swept windows), decision)

unfoldable pub reset : Text → Entries Window → Entries Window
reset key windows = Map.delete key windows
