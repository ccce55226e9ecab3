-- ===== src/Auth/RateLimit/Tests.antt =====
-- The limiter at concrete inputs.
use zk_voting.Prelude.{◌≡◌, refl, List, [], ◌∷◌, arith}
use zk_voting.Prelude.Map
use zk_voting.Prelude.Map.{Entries}
use zk_voting.Prelude.Text.{Text, codes, text_eq}
use zk_voting.Auth.RateLimit.{RateLimiterOptions, Window, consume, sweep}
use zk_voting.Auth.RateLimit.Burst.{Call, requests, admitted, admitted_afresh}

abbrev options : RateLimiterOptions
options = record { limit = 2; window_ms = 60 }

abbrev ann : Text
ann = codes "ann"

abbrev bob : Text
bob = codes "bob"

abbrev calls : List Call
calls = (100, ann) ∷ (101, bob) ∷ (102, ann) ∷ (103, ann) ∷ []

abbrev old_table : Entries Window
old_table = (ann, record { count = 2; started_at = 45 }) ∷ []

-- Both windows of a boundary are used up.
burst : admitted options ann ((104, ann) ∷ (105, ann) ∷ (106, ann) ∷ []) old_table ≡ 2
unfolding admitted consume sweep Map.get Map.set text_eq
burst = refl

admitted_afresh_example : admitted options ann calls [] ≡ 2
unfolding Map.get requests text_eq
admitted_afresh_example = admitted_afresh options 100 ann calls [] (omega arith) (omega arith) refl
