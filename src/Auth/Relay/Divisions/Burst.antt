-- ===== src/Auth/Relay/Divisions/Burst.antt =====
-- How many reads of the chain a burst of calls costs.
use zk_voting.Prelude.{
  ℕ, suc, ◌+◌, ◌≤◌, ◌<◌, ◌≡◌, refl, Option, none, some, List, [], ◌∷◌, arith, All, if◌then◌else◌,
}
use zk_voting.Auth.Relay.Divisions.{
  CacheState, has_read, DivisionsCache, CacheEvent, call, ended, closed, cleared,
  divisions_cache_ttl_ms, load_divisions, step, run,
}

abbrev pub initial : CacheState
initial = record {
  divisions_cache = none;
  divisions_in_flight = none;
  reading = [];
  closing = [];
  started = 0;
}

-- The event is none of clearDivisionsCache, and its time is in the five seconds from `t` on.
abbrev pub IsInBurst : ℕ → CacheEvent → Type 0
IsInBurst t (call now) = (t ≤ now) × (now < t + divisions_cache_ttl_ms)
IsInBurst t (ended read result now) = (t ≤ now) × (now < t + divisions_cache_ttl_ms)
IsInBurst t (closed read) = Unit
IsInBurst t cleared = ⊥

-- The failures of reads among the events.
abbrev pub failure_of : CacheEvent → CacheState → ℕ
failure_of (ended read none now) s = if has_read read s.reading then 1 else 0
failure_of _ s = 0

abbrev pub failures : List CacheEvent → CacheState → ℕ
failures [] s = 0
failures (e ∷ es) s = failure_of e s + failures es (step e s)

-- Where a burst can be after `f` failed reads: no read is under way, one is, one has failed, or the
-- cache is filled for the rest of the burst.
abbrev Phase : ℕ → ℕ → Option DivisionsCache → Option ℕ → List ℕ → List ℕ → ℕ → Type 0
Phase t f none none [] [] n = n ≡ f
Phase t f none (some p) (q ∷ []) [] n = n ≡ suc f
Phase t f none (some p) [] (q ∷ []) n = n ≡ f
Phase t f (some c) flight [] closing n = (t + divisions_cache_ttl_ms ≤ c.expires_at) × (n ≡ suc f)
Phase _ _ _ _ _ _ _ = ⊥

abbrev IsInPhase : ℕ → ℕ → CacheState → Type 0
IsInPhase t f s = Phase t f s.divisions_cache s.divisions_in_flight s.reading s.closing s.started

abbrev state_of : Option DivisionsCache → Option ℕ → List ℕ → List ℕ → ℕ → CacheState
state_of cache flight reading closing started = record {
  divisions_cache = cache;
  divisions_in_flight = flight;
  reading = reading;
  closing = closing;
  started = started;
}

Phase-step :
    (t f : ℕ) (e : CacheEvent) (c : Option DivisionsCache) (flight : Option ℕ)
    (reading closing : List ℕ) (n : ℕ)
    → IsInBurst t e
    → Phase t f c flight reading closing n
    → IsInPhase t
        (failure_of e (state_of c flight reading closing n) + f)
        (step e (state_of c flight reading closing n))
unfolding step load_divisions
Phase-step t f (call now) none none [] [] n b h = omega (arith, h)
Phase-step t f (call now) none (some p) (q ∷ []) [] n b h = omega (arith, h)
Phase-step t f (call now) none (some p) [] (q ∷ []) n b h = omega (arith, h)
Phase-step t f (call now) (some c) flight [] closing n (_, later) (fresh, h) = ground arith
Phase-step t f (ended read result now) none none [] [] n b h = ground arith
Phase-step t f (ended read none now) none (some p) (q ∷ []) [] n b h = ground arith
Phase-step t f (ended read (some data_read) now) none (some p) (q ∷ []) [] n b h = ground arith
Phase-step t f (ended read result now) none (some p) [] (q ∷ []) n b h = ground arith
Phase-step t f (ended read result now) (some c) flight [] closing n b h = ground arith
Phase-step t f (closed read) none none [] [] n b h = omega (arith, h)
Phase-step t f (closed read) none (some p) (q ∷ []) [] n b h = omega (arith, h)
Phase-step t f (closed read) none (some p) [] (q ∷ []) n b h = ground arith
Phase-step t f (closed read) (some c) flight [] closing n b h = ground arith
Phase-step t f cleared c flight reading closing n b h = absurd b
Phase-step _ _ _ _ _ _ _ _ b h = absurd h

Phase-bound :
    (t f : ℕ) (c : Option DivisionsCache) (flight : Option ℕ) (reading closing : List ℕ) (n : ℕ)
    → Phase t f c flight reading closing n
    → n ≤ suc f
Phase-bound t f none none [] [] n h = omega (arith, h)
Phase-bound t f none (some p) (q ∷ []) [] n h = omega (arith, h)
Phase-bound t f none (some p) [] (q ∷ []) n h = omega (arith, h)
Phase-bound t f (some c) flight [] closing n (fresh, h) = omega (arith, h)
Phase-bound _ _ _ _ _ _ _ h = absurd h

run_bound :
    (t f : ℕ) (es : List CacheEvent) (s : CacheState)
    → All (IsInBurst t) es
    → IsInPhase t f s
    → (run es s).started ≤ suc (f + failures es s)
unfolding run
run_bound t f [] s _ h = let bound = Phase-bound t f _ _ _ _ _ h in omega (arith, bound)
run_bound t f (e ∷ es) s (here, later) h =
    let bound =
      run_bound t (failure_of e s + f) es (step e s) later (Phase-step t f e _ _ _ _ _ here h) in
    omega (arith, bound)

-- From a fresh start of the server, the calls of `loadDivisions` in five seconds, however many and
-- whenever their reads end, start at most one read of the chain more than there are failed reads,
-- where the cache is not cleared.
pub burst-reads-le :
    (t : ℕ) (es : List CacheEvent)
    → All (IsInBurst t) es
    → (run es initial).started ≤ suc (failures es initial)
burst-reads-le t es burst = let bound = run_bound t 0 es initial burst refl in omega (arith, bound)
