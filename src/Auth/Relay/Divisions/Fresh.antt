-- ===== src/Auth/Relay/Divisions/Fresh.antt =====
-- How old the list is that a call is answered from the cache.
use zk_voting.Prelude.{
  ℕ, ◌+◌, ◌<◌, ◌≡◌, refl, inl, inr, Option, none, some, List, [], ◌∷◌, arith, ltb, IsIn, Bool-cases,
}
use zk_voting.Auth.Relay.Contracts.{DivisionSummary}
use zk_voting.Auth.Relay.Divisions.{
  CacheState, DivisionsCache, CacheEvent, call, ended, closed, cleared, divisions_cache_ttl_ms,
  cached, has_read, is_fresh, load_divisions, load_with, share_read, step, run,
}
use zk_voting.Auth.Relay.Divisions.Burst.{initial}

-- The list is what a read of the events gave that ended at a time.
abbrev pub WasRead : List CacheEvent → List DivisionSummary → ℕ → Type 0
WasRead es divisions time = (read : ℕ) × IsIn (ended read (some divisions) time) es

-- What the cache holds is what a read of the events gave, five seconds before it expires.
abbrev Sourced : List CacheEvent → Option DivisionsCache → Type 0
Sourced es none = Unit
Sourced es (some c) =
    (time : ℕ) × WasRead es c.data_read time × (c.expires_at ≡ time + divisions_cache_ttl_ms)

share_cache :
    (flight : Option ℕ) (s : CacheState)
    → (share_read flight s).0.divisions_cache ≡ s.divisions_cache
share_cache none s = refl
share_cache (some p) s = refl

load_cache :
    (fresh : Option (List DivisionSummary)) (s : CacheState)
    → (load_with fresh s).0.divisions_cache ≡ s.divisions_cache
load_cache none s = share_cache s.divisions_in_flight s
load_cache (some divisions) s = refl

step-Sourced :
    (all : List CacheEvent) (e : CacheEvent) (s : CacheState)
    → IsIn e all
    → Sourced all s.divisions_cache
    → Sourced all (step e s).divisions_cache
unfolding step load_divisions
step-Sourced all (call now) s m h = rw (load_cache (is_fresh now s.divisions_cache) s) h
step-Sourced all (ended read none now) s m h = elim (Bool-cases (has_read read s.reading)) [
  | inl e ↦ rw e h
  | inr e ↦ rw e h
]
step-Sourced all (ended read (some divisions) now) s m h =
    elim (Bool-cases (has_read read s.reading)) [
      | inl e ↦ rw e (now, (read, m), refl)
      | inr e ↦ rw e h
    ]
step-Sourced all (closed read) s m h = elim (Bool-cases (has_read read s.closing)) [
  | inl e ↦ rw e h
  | inr e ↦ rw e h
]
step-Sourced all cleared s m h = tt

run-Sourced :
    (all es : List CacheEvent) (s : CacheState)
    → ((e : CacheEvent) → IsIn e es → IsIn e all)
    → Sourced all s.divisions_cache
    → Sourced all (run es s).divisions_cache
unfolding run
run-Sourced all [] s inside h = h
run-Sourced all (e ∷ es) s inside h =
    run-Sourced all es (step e s) (λ d m. inside d (inr m))
      (step-Sourced all e s (inside e (inl refl)) h)

fresh_source :
    (es : List CacheEvent) (now : ℕ) (c : Option DivisionsCache) (divisions : List DivisionSummary)
    → Sourced es c
    → is_fresh now c ≡ some divisions
    → (time : ℕ) × WasRead es divisions time × (now < time + divisions_cache_ttl_ms)
fresh_source es now none divisions _ h = absurd (cc)
fresh_source es now (some c) divisions (time, was_read, expiry) h =
    elim (Bool-cases (ltb now c.expires_at)) [
      | inr e ↦ absurd (let bad : none ≡ some divisions = rw e at h in cc)
      | inl e ↦
          let same : some c.data_read ≡ some divisions = rw e at h in
          let equal : c.data_read ≡ divisions = cc in
          (time, rw (← equal) was_read, ground (arith, e, expiry))
    ]

promise_is_not_cached :
    (flight : Option ℕ) (s : CacheState) (divisions : List DivisionSummary)
    → (share_read flight s).1 ≡ cached divisions
    → ⊥
promise_is_not_cached none s divisions h = cc
promise_is_not_cached (some p) s divisions h = cc

answer_fresh :
    (fresh : Option (List DivisionSummary)) (s : CacheState) (divisions : List DivisionSummary)
    → (load_with fresh s).1 ≡ cached divisions
    → fresh ≡ some divisions
answer_fresh none s divisions h = absurd (promise_is_not_cached s.divisions_in_flight s divisions h)
answer_fresh (some ds) s divisions h = cc

-- Whatever has happened to the cache, a list that `loadDivisions` answers from it is what a read of
-- the chain gave that ended less than five seconds before.
pub cached-WasRead :
    (es : List CacheEvent) (now : ℕ) (divisions : List DivisionSummary)
    → (load_divisions now (run es initial)).1 ≡ cached divisions
    → (time : ℕ) × WasRead es divisions time × (now < time + divisions_cache_ttl_ms)
unfolding load_divisions
cached-WasRead es now divisions h =
    let s = run es initial in
    fresh_source es now s.divisions_cache divisions (run-Sourced es es initial (λ e m. m) tt)
      (answer_fresh (is_fresh now s.divisions_cache) s divisions h)
