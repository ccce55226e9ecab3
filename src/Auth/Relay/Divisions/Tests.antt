-- ===== src/Auth/Relay/Divisions/Tests.antt =====
-- The list of the divisions and its cache.
use Prim.Native.Nat.{◌≤◌}
use zk_voting.Prelude.{
  ◌+◌, ◌<◌, ◌≡◌, refl, true, false, none, some, List, [], ◌∷◌, arith, find, if◌then◌else◌,
}
use zk_voting.Prelude.Outcome.{ok}
use zk_voting.Prelude.Text.{codes, text_eq}
use zk_voting.Auth.Relay.Contracts.{DivisionSummary, DeployedEntry}
use zk_voting.Auth.Relay.Executor.{is_id}
use zk_voting.Auth.Relay.Divisions.{
  CacheEvent, call, ended, closed, cached, promise, ChainClient, ChainDivision, load_divisions,
  step, run, summaries, read_divisions_from_chain, divisions_cache_ttl_ms,
}
use zk_voting.Auth.Relay.Divisions.Burst.{initial, burst-reads-le}
use zk_voting.Auth.Relay.Divisions.Fresh.{WasRead, cached-WasRead}
use zk_voting.Auth.Relay.Divisions.Places.{IsPlaced, find-read_divisions_from_chain}

abbrev registry_entry : DeployedEntry
registry_entry = record { address = codes "0xdc64"; abi = [] }

abbrev kaduwela : ChainDivision
kaduwela = record {
  name = codes "Kaduwela";
  voting_contract = codes "0x5fc8";
  gn_officer = codes "0x7099";
  active = true;
}

abbrev gampaha : ChainDivision
gampaha = record {
  name = codes "Gampaha";
  voting_contract = codes "0xb7f8";
  gn_officer = codes "0x0000000000000000000000000000000000000000";
  active = false;
}

-- The second voting contract cannot be read.
abbrev client : ChainClient
client = record {
  get_all_divisions = λ address. some (kaduwela ∷ gampaha ∷ []);
  get_gn_officers =
      λ address. if text_eq address (codes "0x5fc8") then some (codes "0x1111" ∷ []) else none;
}

abbrev both : List DivisionSummary
both =
    record {
      id = 0;
      name = codes "Kaduwela";
      voting_contract = codes "0x5fc8";
      gn_officers = codes "0x1111" ∷ [];
      active = true;
    }
    ∷ record {
      id = 1;
      name = codes "Gampaha";
      voting_contract = codes "0xb7f8";
      gn_officers = [];
      active = false;
    }
    ∷ []

chain_read : read_divisions_from_chain (some registry_entry) client ≡ ok both
unfolding read_divisions_from_chain summaries text_eq
chain_read = refl

find-read_divisions_from_chain_example :
    IsPlaced client 0 (some kaduwela) (find (λ (d : DivisionSummary). is_id (some 0) d.id) both)
find-read_divisions_from_chain_example =
    find-read_divisions_from_chain registry_entry client (kaduwela ∷ gampaha ∷ []) both 0 refl
      chain_read

-- Two calls before the read ends, one after, and one before its `finally`.
abbrev burst : List CacheEvent
burst = call 100 ∷ call 101 ∷ ended 0 (some both) 150 ∷ call 160 ∷ closed 0 ∷ call 5000 ∷ []

burst-reads-le_example : (run burst initial).started ≤ 1
burst-reads-le_example = burst-reads-le 100 burst (
  (omega arith, omega arith),
  (
    (omega arith, omega arith),
    (
      (omega arith, omega arith),
      ((omega arith, omega arith), (tt, ((omega arith, omega arith), tt))),
    ),
  ),
)

answered : (load_divisions 5149 (run burst initial)).1 ≡ cached both
unfolding load_divisions run step
answered = refl

expired : (load_divisions 5150 (run burst initial)).1 ≡ promise 1
unfolding load_divisions run step
expired = refl

cached-WasRead_example :
    (time : Prim.Native.Nat.ℕ) × WasRead burst both time × (5149 < time + divisions_cache_ttl_ms)
cached-WasRead_example = cached-WasRead burst 5149 both answered
