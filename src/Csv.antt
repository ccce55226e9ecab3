-- ===== src/Csv.antt =====
-- packages/nextjs/services/bulkImport/rowSource.ts, splitCsvLine.
pub mod RoundTrip
mod Tests
use zk_voting.Prelude.{ℕ, Bool, true, false, List, [], ◌∷◌, ◌++◌, ◌==◌}
use zk_voting.Prelude.Text.{Text}

-- The loop from a position of the line on, with `inQuotes` and `current`; it gives the fields that
-- are still to be pushed. A second quote after a quote is skipped with it.
unfoldable pub scan : Bool → Text → Text → List Text
scan in_quotes current [] = current ∷ []
scan true current (c ∷ []) = elim (c == b'"') [
  | true ↦ scan false current []
  | false ↦ scan true (current ++ c ∷ []) []
]
scan true current (c ∷ d ∷ s) = elim (c == b'"') [
  | true ↦ elim (d == b'"') [
    | true ↦ scan true (current ++ b'"' ∷ []) s
    | false ↦ scan false current (d ∷ s)
  ]
  | false ↦ scan true (current ++ c ∷ []) (d ∷ s)
]
scan false current (c ∷ s) = elim (c == b'"') [
  | true ↦ scan true current s
  | false ↦ elim (c == b',') [
    | true ↦ current ∷ scan false [] s
    | false ↦ scan false (current ++ c ∷ []) s
  ]
]

-- `splitCsvLine(line)`
unfoldable pub split_csv_line : Text → List Text
unfolding scan
split_csv_line line = scan false [] line
