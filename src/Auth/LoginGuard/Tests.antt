-- ===== src/Auth/LoginGuard/Tests.antt =====
-- The guard at concrete inputs.
use zk_voting.Prelude.{◌≡◌, refl, true, List, [], ◌∷◌, arith}
use zk_voting.Prelude.Map
use zk_voting.Prelude.Map.{Entries}
use zk_voting.Prelude.Text.{Text, codes, text_eq}
use zk_voting.Auth.LoginGuard.{
  record_success, LoginGuardOptions, Failures, unlocked, status_for, record_failure,
}
use zk_voting.Auth.LoginGuard.Calls.{Event, failure, success, query, step, run}
use zk_voting.Auth.LoginGuard.Lockout.{lock_exact}

abbrev options : LoginGuardOptions
options = record { max_failures = 2; lockout_ms = 100 }

abbrev ann : Text
ann = codes "ann"

abbrev bob : Text
bob = codes "bob"

abbrev events : List Event
events = failure 1 1 1 ann ∷ failure 2 2 2 bob ∷ success ann ∷ failure 3 3 3 ann ∷ query 4 ann ∷ []

abbrev locked_table : Entries Failures
locked_table = (ann, record { count = 2; locked_until = 105 }) ∷ []

second_failure_locks :
    (record_failure options 5 5 6 ann (run options events [])).1
    ≡ record { locked = true; retry_after_ms = 99 }
unfolding record_failure status_for run step Map.get Map.set Map.delete text_eq record_success
second_failure_locks = refl

lock_exact_example :
    ((status_for 4 ann (run options events [])).1 ≡ unlocked)
    × ((record_failure options 5 5 6 ann (run options events [])).1
        ≡ record { locked = true; retry_after_ms = 99 })
unfolding text_eq Map.get
lock_exact_example = lock_exact options ann events [] 4 5 5 6 refl (omega arith) (omega arith)
