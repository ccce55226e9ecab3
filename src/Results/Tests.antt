-- ===== src/Results/Tests.antt =====
-- The totals of concrete ballots.
use zk_voting.Prelude.{◌≡◌, refl, false, List, [], ◌∷◌}
use zk_voting.Prelude.Keyed.{find_key}
use zk_voting.Prelude.Map
use zk_voting.Prelude.Text.{
  Text, codes, text_eq, trim, drop_spaces, is_space, to_lower_case, lower_unit,
}
use zk_voting.Results.{
  DivisionBallot, candidate_key, collapse, credit, credit_all, add_division, add_divisions, text_lt,
  insert, sort, join, aggregate_national_results,
}
use zk_voting.Results.Credits.{aggregate_credits}
use zk_voting.Results.Totals.{votes_at, sum_votes, aggregate_conserves}

abbrev ballots : List DivisionBallot
ballots =
    record {
      candidates = codes "Alice Perera" ∷ codes "Bob" ∷ [];
      counts = 3 ∷ 4 ∷ [];
      tree_size = 9;
    }
    ∷ record {
      candidates = codes "BOB" ∷ codes " alice  perera" ∷ [];
      counts = 5 ∷ [];
      tree_size = 6;
    }
    ∷ []

abbrev bob : Text
bob = codes "bob"

totals : (aggregate_national_results ballots).total_votes ≡ 12
unfolding aggregate_national_results add_divisions add_division credit_all credit
totals = refl

aggregate_conserves_example :
    (sum_votes (aggregate_national_results ballots).candidates
      ≡ (aggregate_national_results ballots).total_votes)
    × ((aggregate_national_results ballots).total_votes ≡ 12)
aggregate_conserves_example = aggregate_conserves ballots

aggregate_credits_example :
    votes_at
      (find_key (λ c. candidate_key c.name) bob (aggregate_national_results ballots).candidates)
    ≡ 9
unfolding candidate_key collapse trim drop_spaces is_space to_lower_case lower_unit text_eq
aggregate_credits_example = aggregate_credits bob ballots

-- Two different ballots whose names joined by spaces are the same text are not told apart.
joined_alike :
    (aggregate_national_results (
      record { candidates = codes "a b" ∷ []; counts = []; tree_size = 0 }
      ∷ record { candidates = codes "a" ∷ codes "b" ∷ []; counts = []; tree_size = 0 }
      ∷ [])).ballots_diverge
    ≡ false
unfolding aggregate_national_results add_divisions add_division credit_all credit candidate_key
    collapse trim drop_spaces is_space to_lower_case lower_unit text_eq text_lt insert sort join
    Map.get Map.set
joined_alike = refl
