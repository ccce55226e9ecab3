-- ===== src/Results/Credits.antt =====
-- Which candidate the votes are credited to.
use zk_voting.Prelude.{
  ℕ, suc, ◌≡◌, refl, sym, ◌∙◌, inl, inr, Bool, Option, none, some, List, [], ◌∷◌, arith, get_elem?,
  Bool-cases,
}
use zk_voting.Prelude.Keyed.{find_key}
use zk_voting.Prelude.Map
use zk_voting.Prelude.Map.{Entries, get-set}
use zk_voting.Prelude.Text.{Text, text_eq, text_eq_sound}
use zk_voting.Results.{
  DivisionBallot, NationalCandidate, candidate_key, Tally, or_zero, has, credited, credit,
  credit_all, State, add_division, add_divisions, values, no_state, aggregate_national_results,
}
use zk_voting.Results.Totals.{all_candidate_votes, fresh_tally, votes_at, votes-add_divisions}

-- Every row stands under the key of its name.
abbrev pub HasOwnKeys : Entries NationalCandidate → Type 0
HasOwnKeys [] = Unit
HasOwnKeys ((k, c) ∷ m) = (candidate_key c.name ≡ k) × HasOwnKeys m

get_own_key :
    (k : Text) (m : Entries NationalCandidate) (c : NationalCandidate)
    → HasOwnKeys m
    → Map.get k m ≡ some c
    → candidate_key c.name ≡ k
unfolding Map.get
get_own_key k [] c own h = absurd (cc)
get_own_key k ((j, d) ∷ m) c (first, rest) h = elim (Bool-cases (text_eq j k)) [
  | inl e ↦ let same : d ≡ c = ground (arith, e) in rw (← same, first) (text_eq_sound j k e)
  | inr e ↦ get_own_key k m c rest (rw e at h)
]

set-HasOwnKeys :
    (k : Text) (c : NationalCandidate) (m : Entries NationalCandidate)
    → candidate_key c.name ≡ k
    → HasOwnKeys m
    → HasOwnKeys (Map.set k c m)
unfolding Map.set
set-HasOwnKeys k c [] h own = (h, tt)
set-HasOwnKeys k c ((j, d) ∷ m) h (first, rest) = elim (Bool-cases (text_eq j k)) [
  | inl e ↦ rw e (h ∙ sym (text_eq_sound j k e), rest)
  | inr e ↦ rw e (first, set-HasOwnKeys k c m h rest)
]

pub find-values :
    (k : Text) (m : Entries NationalCandidate)
    → HasOwnKeys m
    → find_key (λ c. candidate_key c.name) k (values m) ≡ Map.get k m
unfolding Map.get
find-values k [] own = refl
find-values k ((j, c) ∷ m) (first, rest) = rw (first, find-values k m rest) refl

credited_key :
    (name : Text) (votes : ℕ) (is_seen : Bool) (found : Option NationalCandidate)
    → ((c : NationalCandidate) → found ≡ some c → candidate_key c.name ≡ candidate_key name)
    → candidate_key (credited name votes is_seen found).name ≡ candidate_key name
credited_key name votes is_seen none own = refl
credited_key name votes is_seen (some c) own = own c refl

credit_all-HasOwnKeys :
    (names : List Text) (counts : List ℕ) (i : ℕ) (t : Tally)
    → HasOwnKeys t.by_key
    → HasOwnKeys (credit_all names counts i t).by_key
unfolding credit_all credit
credit_all-HasOwnKeys [] counts i t own = own
credit_all-HasOwnKeys (name ∷ names) counts i t own =
    let v = or_zero (get_elem? counts i) in
    let key = candidate_key name in
    let found = Map.get key t.by_key in
    let c = credited name v (has key t.seen_here) found in
    credit_all-HasOwnKeys names counts (suc i) (credit name v t) (
      set-HasOwnKeys key c t.by_key
        (credited_key name v (has key t.seen_here) found
          (λ old at. get_own_key key t.by_key old own at))
        own)

pub add_divisions-HasOwnKeys :
    (divisions : List DivisionBallot) (state : State)
    → HasOwnKeys state.by_key
    → HasOwnKeys (add_divisions divisions state).by_key
unfolding add_divisions add_division
add_divisions-HasOwnKeys [] state own = own
add_divisions-HasOwnKeys (d ∷ divisions) state own =
    add_divisions-HasOwnKeys divisions (add_division d state)
      (credit_all-HasOwnKeys d.candidates d.counts 0 (fresh_tally state) own)

-- The row of a candidate has the votes that stand beside a spelling of the name, whichever place
-- the name has on a ballot.
pub aggregate_credits :
    (k : Text) (divisions : List DivisionBallot)
    → votes_at
        (find_key (λ c. candidate_key c.name) k (aggregate_national_results divisions).candidates)
      ≡ all_candidate_votes k divisions
unfolding aggregate_national_results Map.get
aggregate_credits k divisions =
    rw
      (find-values k (add_divisions divisions no_state).by_key
        (add_divisions-HasOwnKeys divisions no_state tt))
      (omega (arith, votes-add_divisions k divisions no_state))
