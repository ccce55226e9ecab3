-- ===== src/Results.antt =====
-- packages/nextjs/utils/nationalResults.ts: the national totals over the divisions' ballots.
pub mod Credits
pub mod Listings
pub mod Totals
mod Tests
use zk_voting.Prelude.{
  ℕ, zero, suc, ◌+◌, ◌≡◌, Bool, true, false, not, ◌&&◌, ◌||◌, Option, none, some, List, [], ◌∷◌,
  ◌++◌, ltb, ◌==◌, any, get_elem?, if◌then◌else◌,
}
use zk_voting.Prelude.Map
use zk_voting.Prelude.Map.{Entries}
use zk_voting.Prelude.Text.{Text, text_eq, trim, to_lower_case, is_space}

pub record DivisionBallot : Type 0 where
  pub candidates : List Text
  pub counts : List ℕ
  pub tree_size : ℕ

pub record NationalCandidate : Type 0 where
  pub name : Text
  pub votes : ℕ
  pub divisions : ℕ

pub record NationalTotals : Type 0 where
  pub candidates : List NationalCandidate
  pub total_votes : ℕ
  pub total_registered : ℕ
  pub ballots_diverge : Bool

-- `s.replace(/\s+/g, " ")`; the flag is whether a run of spaces has begun
unfoldable pub collapse : Bool → Text → Text
collapse in_run [] = []
collapse in_run (c ∷ s) =
    let after_space = collapse true s in
    let after_unit = collapse false s in
    if is_space c then (if in_run then after_space else b' ' ∷ after_space) else c ∷ after_unit

-- `candidateKey(name)`
unfoldable pub candidate_key : Text → Text
unfolding trim collapse to_lower_case is_space
candidate_key name = to_lower_case (collapse false (trim name))

-- What the loop over one division's candidates changes.
pub record Tally : Type 0 where
  pub by_key : Entries NationalCandidate
  pub total_votes : ℕ
  pub seen_here : List Text

abbrev pub or_zero : Option ℕ → ℕ
or_zero none = 0
or_zero (some n) = n

-- `set.has(key)`
abbrev pub has : Text → List Text → Bool
has key keys = any (λ k. text_eq k key) keys

-- `set.add(key)`
abbrev pub add : Text → List Text → List Text
add key keys = if has key keys then keys else keys ++ key ∷ []

abbrev pub credited : Text → ℕ → Bool → Option NationalCandidate → NationalCandidate
credited name votes is_seen none = record { name = name; votes = votes; divisions = 1 }
credited name votes is_seen (some existing) = record existing {
  votes = existing.votes + votes;
  divisions = if is_seen then existing.divisions else existing.divisions + 1;
}

-- the body of the loop over the candidates
unfoldable pub credit : Text → ℕ → Tally → Tally
unfolding candidate_key Map.get Map.set text_eq
credit name votes tally =
    let key = candidate_key name in
    let is_seen = has key tally.seen_here in
    record {
      by_key = Map.set key (credited name votes is_seen (Map.get key tally.by_key)) tally.by_key;
      total_votes = tally.total_votes + votes;
      seen_here = add key tally.seen_here;
    }

-- the loop over the candidates from the position `i`
unfoldable pub credit_all : List Text → List ℕ → ℕ → Tally → Tally
unfolding credit
credit_all [] counts i tally = tally
credit_all (name ∷ names) counts i tally =
    credit_all names counts (suc i) (credit name (or_zero (get_elem? counts i)) tally)

-- The order of JavaScript's `sort()` on strings.
unfoldable pub text_lt : Text → Text → Bool
text_lt [] [] = false
text_lt [] (b ∷ t) = true
text_lt (a ∷ s) [] = false
text_lt (a ∷ s) (b ∷ t) = let rest = text_lt s t in ltb a b || a == b && rest

unfoldable pub insert : Text → List Text → List Text
unfolding text_lt
insert k [] = k ∷ []
insert k (j ∷ keys) = let rest = insert k keys in if text_lt j k then j ∷ rest else k ∷ j ∷ keys

unfoldable pub sort : List Text → List Text
unfolding insert
sort [] = []
sort (k ∷ keys) = insert k (sort keys)

-- `keys.join(" ")`
unfoldable pub join : List Text → Text
join [] = []
join (k ∷ []) = k
join (k ∷ j ∷ keys) = k ++ b' ' ∷ join (j ∷ keys)

pub record State : Type 0 where
  pub by_key : Entries NationalCandidate
  pub total_votes : ℕ
  pub total_registered : ℕ
  pub ballot_signature : Option Text
  pub ballots_diverge : Bool

abbrev pub differs : Option Text → Text → Bool
differs none signature = false
differs (some first) signature = not (text_eq first signature)

abbrev pub first_signature : Option Text → Text → Option Text
first_signature none signature = some signature
first_signature (some first) signature = some first

-- the end of the loop over the divisions; no candidates, no comparison
abbrev pub compare_ballot : List Text → Option Text → Bool → Option Text × Bool
compare_ballot [] first diverge = (first, diverge)
compare_ballot (k ∷ keys) first diverge =
    let signature = join (sort (k ∷ keys)) in
    (first_signature first signature, diverge || differs first signature)

-- the body of the loop over the divisions
unfoldable pub add_division : DivisionBallot → State → State
unfolding credit_all join sort
add_division division state =
    let tally =
      credit_all division.candidates division.counts 0
        (record { by_key = state.by_key; total_votes = state.total_votes; seen_here = [] }) in
    let (first, diverge) =
      compare_ballot tally.seen_here state.ballot_signature state.ballots_diverge in
    record {
      by_key = tally.by_key;
      total_votes = tally.total_votes;
      total_registered = state.total_registered + division.tree_size;
      ballot_signature = first;
      ballots_diverge = diverge;
    }

unfoldable pub add_divisions : List DivisionBallot → State → State
unfolding add_division
add_divisions [] state = state
add_divisions (division ∷ divisions) state = add_divisions divisions (add_division division state)

-- `[...map.values()]`
abbrev pub values : Entries NationalCandidate → List NationalCandidate
values [] = []
values ((key, candidate) ∷ entries) = candidate ∷ values entries

abbrev pub no_state : State
no_state = record {
  by_key = [];
  total_votes = 0;
  total_registered = 0;
  ballot_signature = none;
  ballots_diverge = false;
}

-- `aggregateNationalResults(divisions)`
unfoldable pub aggregate_national_results : List DivisionBallot → NationalTotals
unfolding add_divisions
aggregate_national_results divisions =
    let state = add_divisions divisions no_state in
    record {
      candidates = values state.by_key;
      total_votes = state.total_votes;
      total_registered = state.total_registered;
      ballots_diverge = state.ballots_diverge;
    }
