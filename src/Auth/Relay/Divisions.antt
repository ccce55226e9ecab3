-- ===== src/Auth/Relay/Divisions.antt =====
-- packages/nextjs/services/auth/relayContracts.ts, loadDivisions with its cache and
-- readDivisionsFromChain. The client of the chain (viem) is an argument; a promise is the number
-- of its read, and the callbacks that the runtime runs when a read ends are events.
pub mod Burst
pub mod Fresh
pub mod Places
mod Tests
use zk_voting.Prelude.{
  ℕ, suc, ◌+◌, ◌≡◌, Bool, true, false, not, Option, none, some, List, [], ◌∷◌, ltb, ◌==◌, any,
  keep_if, if◌then◌else◌,
}
use zk_voting.Prelude.Outcome.{Outcome, ok, err, thrown}
use zk_voting.Prelude.Text.{Text, codes, text_eq}
use zk_voting.Auth.Relay.Value.{is_empty}
use zk_voting.Auth.Relay.Contracts.{DivisionSummary, DeployedEntry}

abbrev pub zero_address : Text
zero_address = codes "0x0000000000000000000000000000000000000000"

-- What `getAllDivisions()` of the registry gives for a division.
pub record ChainDivision : Type 0 where
  pub name : Text
  pub voting_contract : Text
  pub gn_officer : Text
  pub active : Bool

pub data RelayContractsError : Type 0 where
  registry_not_deployed : RelayContractsError

-- The client's reads at an address; none where one throws.
pub record ChainClient : Type 0 where
  pub get_all_divisions : Text → Option (List ChainDivision)
  pub get_gn_officers : Text → Option (List Text)

abbrev pub or_registry_copy : ChainDivision → Option (List Text) → List Text
or_registry_copy division none =
    if not (text_eq division.gn_officer zero_address) then division.gn_officer ∷ [] else []
or_registry_copy division (some officers) = officers

abbrev pub summary : ChainClient → ChainDivision → ℕ → DivisionSummary
summary client division id = record {
  id = id;
  name = division.name;
  voting_contract = division.voting_contract;
  gn_officers = or_registry_copy division (client.get_gn_officers division.voting_contract);
  active = division.active;
}

-- `divisions.map(async (division, id) => …)` from the index on
unfoldable pub summaries : ChainClient → ℕ → List ChainDivision → List DivisionSummary
unfolding text_eq
summaries client id [] = []
summaries client id (division ∷ divisions) =
    summary client division id ∷ summaries client (suc id) divisions

abbrev pub all_summaries :
    ChainClient → Option (List ChainDivision) → Outcome RelayContractsError (List DivisionSummary)
all_summaries client none = thrown
all_summaries client (some divisions) = ok (summaries client 0 divisions)

-- `readDivisionsFromChain(client)`
unfoldable pub read_divisions_from_chain :
    Option DeployedEntry → ChainClient → Outcome RelayContractsError (List DivisionSummary)
unfolding summaries
read_divisions_from_chain none client = err registry_not_deployed
read_divisions_from_chain (some registry) client =
    if is_empty registry.address
    then err registry_not_deployed
    else all_summaries client (client.get_all_divisions registry.address)

abbrev pub divisions_cache_ttl_ms : ℕ
divisions_cache_ttl_ms = 5000

pub record DivisionsCache : Type 0 where
  pub data_read : List DivisionSummary
  pub expires_at : ℕ

-- The variables of the module, the reads under way, those whose `finally` is still to run, and the
-- number of reads that were started.
pub record CacheState : Type 0 where
  pub divisions_cache : Option DivisionsCache
  pub divisions_in_flight : Option ℕ
  pub reading : List ℕ
  pub closing : List ℕ
  pub started : ℕ

-- What `loadDivisions()` answers: the cached list, or the promise of a read.
pub data Loaded : Type 0 where
  cached : List DivisionSummary → Loaded
  promise : ℕ → Loaded

abbrev pub is_fresh : ℕ → Option DivisionsCache → Option (List DivisionSummary)
is_fresh now none = none
is_fresh now (some c) = if ltb now c.expires_at then some c.data_read else none

abbrev pub start_read : CacheState → CacheState × Loaded
start_read s = (
  record s {
    divisions_in_flight = some s.started;
    reading = s.started ∷ s.reading;
    started = suc s.started;
  },
  promise s.started,
)

abbrev pub share_read : Option ℕ → CacheState → CacheState × Loaded
share_read none s = start_read s
share_read (some read) s = (s, promise read)

abbrev pub load_with : Option (List DivisionSummary) → CacheState → CacheState × Loaded
load_with none s = share_read s.divisions_in_flight s
load_with (some divisions) s = (s, cached divisions)

-- `loadDivisions()`
unfoldable pub load_divisions : ℕ → CacheState → CacheState × Loaded
load_divisions now s = load_with (is_fresh now s.divisions_cache) s

-- The events of the module: a call, the end of a read (with its data, or none where it fails),
-- the `finally` of a read, and `clearDivisionsCache`.
pub data CacheEvent : Type 0 where
  call : ℕ → CacheEvent
  ended : ℕ → Option (List DivisionSummary) → ℕ → CacheEvent
  closed : ℕ → CacheEvent
  cleared : CacheEvent

abbrev pub has_read : ℕ → List ℕ → Bool
has_read n ns = any (λ m. m == n) ns

abbrev pub drop_read : ℕ → List ℕ → List ℕ
drop_read n ns = keep_if (λ m. not (m == n)) ns

-- the callback of `then`
abbrev pub cache_after :
    Option (List DivisionSummary) → ℕ → Option DivisionsCache → Option DivisionsCache
cache_after none now old = old
cache_after (some divisions) now old =
    some (record { data_read = divisions; expires_at = now + divisions_cache_ttl_ms })

abbrev pub end_read : ℕ → Option (List DivisionSummary) → ℕ → CacheState → CacheState
end_read read result now s = record s {
  divisions_cache = cache_after result now s.divisions_cache;
  reading = drop_read read s.reading;
  closing = read ∷ s.closing;
}

-- the callback of `finally`, which forgets whatever read is in flight
abbrev pub close_read : ℕ → CacheState → CacheState
close_read read s = record s { divisions_in_flight = none; closing = drop_read read s.closing }

-- `clearDivisionsCache()`
abbrev pub clear_divisions_cache : CacheState → CacheState
clear_divisions_cache s = record s { divisions_cache = none; divisions_in_flight = none }

-- One event; a read ends and closes once, so that of any other read nothing comes.
unfoldable pub step : CacheEvent → CacheState → CacheState
unfolding load_divisions
step (call now) s = (load_divisions now s).0
step (ended read result now) s = if has_read read s.reading then end_read read result now s else s
step (closed read) s = if has_read read s.closing then close_read read s else s
step cleared s = clear_divisions_cache s

unfoldable pub run : List CacheEvent → CacheState → CacheState
unfolding step
run [] s = s
run (e ∷ es) s = run es (step e s)
