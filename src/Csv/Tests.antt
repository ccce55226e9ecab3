-- ===== src/Csv/Tests.antt =====
-- A line of a CSV file.
use zk_voting.Prelude.{◌≡◌, refl, true, false, [], ◌∷◌}
use zk_voting.Prelude.Text.{codes}
use zk_voting.Csv.{scan, split_csv_line}
use zk_voting.Csv.RoundTrip.{split_csv_line-write_line}

three_fields :
    split_csv_line (codes "a,\"b,\"\"c\"\"\",d") ≡ codes "a" ∷ codes "b,\"c\"" ∷ codes "d" ∷ []
unfolding split_csv_line scan
three_fields = refl

split_csv_line-write_line_example :
    split_csv_line (codes "\"a\",\"b,\"\"c\"\"\",d") ≡ codes "a" ∷ codes "b,\"c\"" ∷ codes "d" ∷ []
split_csv_line-write_line_example =
    split_csv_line-write_line (true, codes "a") ((false, codes "b,\"c\"") ∷ (false, codes "d") ∷ [])
