-- ===== src/Results/Listings.antt =====
-- In how many divisions a candidate stands.
use zk_voting.Prelude.{
  ℕ, suc, ◌+◌, ◌≡◌, refl, inl, inr, Bool, true, false, not, ◌&&◌, ◌||◌, Option, none, some, List,
  [], ◌∷◌, ◌++◌, arith, get_elem?, Bool-cases,
}
use zk_voting.Prelude.Keyed.{is_some, find_key}
use zk_voting.Prelude.Map
use zk_voting.Prelude.Map.{Entries, get-set}
use zk_voting.Prelude.Text.{Text, text_eq, text_eq_iff, text_eq_sound}
use zk_voting.Results.{
  DivisionBallot, NationalCandidate, candidate_key, Tally, or_zero, has, add, credited, credit,
  credit_all, State, add_division, add_divisions, no_state, aggregate_national_results,
}
use zk_voting.Results.Credits.{find-values, add_divisions-HasOwnKeys}
use zk_voting.Results.Totals.{lists, one_if, listing_divisions, divisions_at, fresh_tally}

has-append :
    (k key : Text) (keys : List Text) → has k (keys ++ key ∷ []) ≡ (text_eq key k || has k keys)
has-append k key [] = refl
has-append k key (j ∷ keys) = ground (arith, has-append k key keys)

has-add : (k key : Text) (keys : List Text) → has k (add key keys) ≡ (text_eq key k || has k keys)
has-add k key keys = elim (Bool-cases (has key keys)) [
  | inl e ↦ rw e (ground (arith, e, text_eq_iff key k))
  | inr e ↦ rw e (has-append k key keys)
]

credited_divisions :
    (name : Text) (votes : ℕ) (is_seen : Bool) (found : Option NationalCandidate)
    → (is_seen ≡ true → is_some found ≡ true)
    → (credited name votes is_seen found).divisions ≡ one_if (not is_seen) + divisions_at found
credited_divisions name votes is_seen none h = ground arith
credited_divisions name votes true (some c) h = omega arith
credited_divisions name votes false (some c) h = omega arith

module _ (k : Text) where
  -- A candidate seen in this division is in the table.
  abbrev IsConsistent : Tally → Type 0
  IsConsistent t = has k t.seen_here ≡ true → is_some (Map.get k t.by_key) ≡ true

  credit-IsConsistent :
      (name : Text) (votes : ℕ) (t : Tally) → IsConsistent t → IsConsistent (credit name votes t)
  unfolding credit
  credit-IsConsistent name votes t h seen =
      let key = candidate_key name in
      let c = credited name votes (has key t.seen_here) (Map.get key t.by_key) in
      rw (get-set key k c t.by_key) (elim (Bool-cases (text_eq key k)) [
        | inl e ↦ rw e refl
        | inr e ↦ rw e (h (rw (has-add k key t.seen_here, e) at seen))
      ])

  divisions-credit :
      (name : Text) (votes : ℕ) (t : Tally)
      → IsConsistent t
      → divisions_at (Map.get k (credit name votes t).by_key)
        ≡ one_if (text_eq (candidate_key name) k && not (has k t.seen_here))
          + divisions_at (Map.get k t.by_key)
  unfolding credit
  divisions-credit name votes t h =
      let key = candidate_key name in
      rw (get-set key k (credited name votes (has key t.seen_here) (Map.get key t.by_key)) t.by_key)
        (elim (Bool-cases (text_eq key k)) [
          | inl e ↦
              rw (e, text_eq_sound key k e)
                (credited_divisions name votes (has k t.seen_here) (Map.get k t.by_key) h)
          | inr e ↦ rw e (omega arith)
        ])

  seen-credit :
      (name : Text) (votes : ℕ) (t : Tally)
      → has k (credit name votes t).seen_here
        ≡ (text_eq (candidate_key name) k || has k t.seen_here)
  unfolding credit
  seen-credit name votes t = has-add k (candidate_key name) t.seen_here

  unseen : (here : Bool) → one_if (here && true) ≡ one_if here
  unseen here = ground arith

  first_listing :
      (here later seen : Bool)
      → one_if ((here || later) && not seen)
        ≡ one_if (here && not seen) + one_if (later && not (here || seen))
  first_listing here later seen = ground arith

  divisions-credit_all :
      (names : List Text) (counts : List ℕ) (i : ℕ) (t : Tally)
      → IsConsistent t
      → divisions_at (Map.get k (credit_all names counts i t).by_key)
        ≡ one_if (lists k names && not (has k t.seen_here)) + divisions_at (Map.get k t.by_key)
  unfolding credit_all
  divisions-credit_all [] counts i t h = omega arith
  divisions-credit_all (name ∷ names) counts i t h =
      let v = or_zero (get_elem? counts i) in
      let now = credit name v t in
      let later = divisions-credit_all names counts (suc i) now (credit-IsConsistent name v t h) in
      let seen = seen-credit name v t in
      let split =
        first_listing (text_eq (candidate_key name) k) (lists k names) (has k t.seen_here) in
      omega (arith, divisions-credit name v t h, rw seen at later, split)

  divisions-add_divisions :
      (divisions : List DivisionBallot) (state : State)
      → divisions_at (Map.get k (add_divisions divisions state).by_key)
        ≡ listing_divisions k divisions + divisions_at (Map.get k state.by_key)
  unfolding add_divisions add_division
  divisions-add_divisions [] state = omega arith
  divisions-add_divisions (d ∷ divisions) state = omega (
    arith,
    divisions-credit_all d.candidates d.counts 0 (fresh_tally state) (λ seen. absurd (cc)),
    unseen (lists k d.candidates),
    divisions-add_divisions divisions (add_division d state),
  )

  -- The row of a candidate counts the divisions whose ballot has a spelling of the name, each once.
  pub aggregate_lists :
      (divisions : List DivisionBallot)
      → divisions_at
          (find_key (λ c. candidate_key c.name) k (aggregate_national_results divisions).candidates)
        ≡ listing_divisions k divisions
  unfolding aggregate_national_results Map.get
  aggregate_lists divisions =
      rw
        (find-values k (add_divisions divisions no_state).by_key
          (add_divisions-HasOwnKeys divisions no_state tt))
        (omega (arith, divisions-add_divisions divisions no_state))
