-- ===== src/Results/Totals.antt =====
-- The national totals against the ballots, pair by pair.
use zk_voting.Prelude.{
  ℕ, suc, ◌+◌, ◌≡◌, refl, inl, inr, Bool, true, false, Option, none, some, List, [], ◌∷◌, arith,
  any, get_elem?, Bool-cases, if◌then◌else◌,
}
use zk_voting.Prelude.Map
use zk_voting.Prelude.Map.{Entries, get-set}
use zk_voting.Prelude.Text.{Text, text_eq, text_eq_sound}
use zk_voting.Results.{
  DivisionBallot, NationalCandidate, candidate_key, Tally, or_zero, has, credited, credit,
  credit_all, State, add_division, add_divisions, values, no_state, aggregate_national_results,
}

-- The votes beside the candidates, from the position `i`.
abbrev pub ballot_votes : List Text → List ℕ → ℕ → ℕ
ballot_votes [] counts i = 0
ballot_votes (name ∷ names) counts i =
    or_zero (get_elem? counts i) + ballot_votes names counts (suc i)

-- The votes beside the spellings of one candidate.
abbrev pub candidate_votes : Text → List Text → List ℕ → ℕ → ℕ
candidate_votes k [] counts i = 0
candidate_votes k (name ∷ names) counts i =
    (if text_eq (candidate_key name) k then or_zero (get_elem? counts i) else 0)
    + candidate_votes k names counts (suc i)

abbrev pub lists : Text → List Text → Bool
lists k names = any (λ name. text_eq (candidate_key name) k) names

abbrev pub one_if : Bool → ℕ
one_if true = 1
one_if false = 0

abbrev pub all_votes : List DivisionBallot → ℕ
all_votes [] = 0
all_votes (d ∷ divisions) = ballot_votes d.candidates d.counts 0 + all_votes divisions

abbrev pub all_candidate_votes : Text → List DivisionBallot → ℕ
all_candidate_votes k [] = 0
all_candidate_votes k (d ∷ divisions) =
    candidate_votes k d.candidates d.counts 0 + all_candidate_votes k divisions

abbrev pub listing_divisions : Text → List DivisionBallot → ℕ
listing_divisions k [] = 0
listing_divisions k (d ∷ divisions) = one_if (lists k d.candidates) + listing_divisions k divisions

abbrev pub fresh_tally : State → Tally
fresh_tally state = record {
  by_key = state.by_key;
  total_votes = state.total_votes;
  seen_here = [];
}

abbrev pub votes_at : Option NationalCandidate → ℕ
votes_at none = 0
votes_at (some c) = c.votes

abbrev pub divisions_at : Option NationalCandidate → ℕ
divisions_at none = 0
divisions_at (some c) = c.divisions

abbrev pub sum_votes : List NationalCandidate → ℕ
sum_votes [] = 0
sum_votes (c ∷ candidates) = c.votes + sum_votes candidates

sum-set :
    (k : Text) (v : NationalCandidate) (m : Entries NationalCandidate)
    → sum_votes (values (Map.set k v m)) + votes_at (Map.get k m) ≡ sum_votes (values m) + v.votes
unfolding Map.get Map.set
sum-set k v [] = omega arith
sum-set k v ((j, w) ∷ m) = elim (Bool-cases (text_eq j k)) [
  | inl e ↦ rw e (omega arith)
  | inr e ↦ rw e (omega (arith, sum-set k v m))
]

credited_votes :
    (name : Text) (votes : ℕ) (is_seen : Bool) (found : Option NationalCandidate)
    → (credited name votes is_seen found).votes ≡ votes_at found + votes
credited_votes name votes is_seen none = omega arith
credited_votes name votes is_seen (some c) = refl

module _ (k : Text) where
  votes-credit :
      (name : Text) (votes : ℕ) (t : Tally)
      → votes_at (Map.get k (credit name votes t).by_key)
        ≡ (if text_eq (candidate_key name) k then votes else 0) + votes_at (Map.get k t.by_key)
  unfolding credit
  votes-credit name votes t =
      let key = candidate_key name in
      rw (get-set key k (credited name votes (has key t.seen_here) (Map.get key t.by_key)) t.by_key)
        (elim (Bool-cases (text_eq key k)) [
          | inl e ↦
              rw (e, ← text_eq_sound key k e)
                (omega
                  (arith, credited_votes name votes (has key t.seen_here) (Map.get key t.by_key)))
          | inr e ↦ rw e (omega arith)
        ])

  votes-credit_all :
      (names : List Text) (counts : List ℕ) (i : ℕ) (t : Tally)
      → votes_at (Map.get k (credit_all names counts i t).by_key)
        ≡ candidate_votes k names counts i + votes_at (Map.get k t.by_key)
  unfolding credit_all
  votes-credit_all [] counts i t = omega arith
  votes-credit_all (name ∷ names) counts i t =
      let v = or_zero (get_elem? counts i) in
      omega (arith, votes-credit name v t, votes-credit_all names counts (suc i) (credit name v t))

  pub votes-add_divisions :
      (divisions : List DivisionBallot) (state : State)
      → votes_at (Map.get k (add_divisions divisions state).by_key)
        ≡ all_candidate_votes k divisions + votes_at (Map.get k state.by_key)
  unfolding add_divisions add_division
  votes-add_divisions [] state = omega arith
  votes-add_divisions (d ∷ divisions) state = omega (
    arith,
    votes-credit_all d.candidates d.counts 0 (fresh_tally state),
    votes-add_divisions divisions (add_division d state),
  )

-- What a tally has counted and its rows do not show.
sum-credit :
    (name : Text) (votes : ℕ) (t : Tally)
    → sum_votes (values (credit name votes t).by_key) ≡ sum_votes (values t.by_key) + votes
unfolding credit
sum-credit name votes t =
    let key = candidate_key name in
    let found = Map.get key t.by_key in
    let c = credited name votes (has key t.seen_here) found in
    omega (arith, sum-set key c t.by_key, credited_votes name votes (has key t.seen_here) found)

sum-credit_all :
    (names : List Text) (counts : List ℕ) (i : ℕ) (t : Tally)
    → (sum_votes (values (credit_all names counts i t).by_key)
        ≡ sum_votes (values t.by_key) + ballot_votes names counts i)
      × ((credit_all names counts i t).total_votes ≡ t.total_votes + ballot_votes names counts i)
unfolding credit_all credit
sum-credit_all [] counts i t = (omega arith, omega arith)
sum-credit_all (name ∷ names) counts i t =
    let v = or_zero (get_elem? counts i) in
    let (rows, total) = sum-credit_all names counts (suc i) (credit name v t) in
    (omega (arith, sum-credit name v t, rows), omega (arith, total))

sum-add_divisions :
    (divisions : List DivisionBallot) (state : State)
    → (sum_votes (values (add_divisions divisions state).by_key)
        ≡ sum_votes (values state.by_key) + all_votes divisions)
      × ((add_divisions divisions state).total_votes ≡ state.total_votes + all_votes divisions)
unfolding add_divisions add_division
sum-add_divisions [] state = (omega arith, omega arith)
sum-add_divisions (d ∷ divisions) state =
    let (rows, total) = sum-add_divisions divisions (add_division d state) in
    let (rows_here, total_here) = sum-credit_all d.candidates d.counts 0 (fresh_tally state) in
    (omega (arith, rows, rows_here), omega (arith, total, total_here))

-- No vote is lost or counted twice: the rows of the result add up to its total, which is the sum
-- of the votes that stand beside a candidate on some division's ballot.
pub aggregate_conserves :
    (divisions : List DivisionBallot)
    → (sum_votes (aggregate_national_results divisions).candidates
        ≡ (aggregate_national_results divisions).total_votes)
      × ((aggregate_national_results divisions).total_votes ≡ all_votes divisions)
unfolding aggregate_national_results
aggregate_conserves divisions =
    let (rows, total) = sum-add_divisions divisions no_state in
    (omega (arith, rows, total), omega (arith, total))
