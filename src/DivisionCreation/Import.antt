-- ===== src/DivisionCreation/Import.antt =====
-- packages/nextjs/app/api/divisions/bulk/route.ts: the rows of an import, one after the other. What
-- the stream of results does with a line is in Bulk/Rows.
pub mod Distinct
use zk_voting.Prelude.{ℕ, suc, Bool, Option, none, some, List, [], ◌∷◌, ◌++◌, map, if◌then◌else◌}
use zk_voting.Prelude.Map.{Entries, get}
use zk_voting.Prelude.Outcome.{Outcome, ok, err, thrown}
use zk_voting.Prelude.Text.{Text, codes}
use zk_voting.Auth.Relay.Value.{is_empty}
use zk_voting.Auth.Relay.Contracts.{DivisionSummary}
use zk_voting.Auth.Relay.Executor.{Caller}
use zk_voting.DivisionCreation.{
  AssignError, CreateDivisionResult, CreateDivisionError, normalise_division_name, DivisionServer,
  DivisionOutcome, has_name, create_division_on_chain,
}

pub data RowError : Type 0 where
  created_but : AssignError → RowError
  refused_because : CreateDivisionError → RowError
  could_not_create : RowError

pub record RowResult : Type 0 where
  pub row : ℕ
  pub name : Option Text
  pub voting_contract : Option Text
  pub authorised : Option Bool
  pub error : Option RowError

abbrev or_else : {A : Type 0} → Option A → Option A → Option A
or_else none other = other
or_else (some a) other = some a

abbrev or_blank : Option Text → Text
or_blank none = []
or_blank (some s) = s

-- `rowName(row)`
unfoldable pub row_name : Entries Text → Text
unfolding get
row_name row = or_blank (
    or_else (get (codes "name") row)
      (or_else (get (codes "division") row) (get (codes "division name") row)))

-- A row, and what the server is while the row is worked on.
pub record Row : Type 0 where
  pub columns : Entries Text
  pub server : DivisionServer

-- `existingNames.add(name)`
abbrev pub add_name : Text → List Text → List Text
add_name name names = if has_name name names then names else names ++ name ∷ []

-- the names after a row
abbrev pub names_after : List Text → Outcome CreateDivisionError CreateDivisionResult → List Text
names_after existing (ok created) = add_name (normalise_division_name created.name) existing
names_after existing _ = existing

abbrev as_row_error : Option AssignError → Option RowError
as_row_error none = none
as_row_error (some e) = some (created_but e)

-- `name || undefined`
abbrev or_undefined : Text → Option Text
or_undefined name = if is_empty name then none else some name

abbrev pub without_division : ℕ → Text → RowError → RowResult
without_division number name e = record {
  row = number;
  name = or_undefined name;
  voting_contract = none;
  authorised = none;
  error = some e;
}

abbrev pub row_result : ℕ → Text → Outcome CreateDivisionError CreateDivisionResult → RowResult
row_result number name (ok created) = record {
  row = number;
  name = some created.name;
  voting_contract = created.voting_contract;
  authorised = some created.authorised;
  error = as_row_error created.assign_error;
}
row_result number name (err e) = without_division number name (refused_because e)
row_result number name thrown = without_division number name could_not_create

-- A row's line of the stream, and what its creation did.
pub record ImportedRow : Type 0 where
  pub result : RowResult
  pub creation : DivisionOutcome

-- the loop, from the row of a number on
unfoldable pub import_rows : Caller → ℕ → List Text → List Row → List ImportedRow
unfolding create_division_on_chain normalise_division_name row_name
import_rows caller number existing [] = []
import_rows caller number existing (row ∷ rows) =
    let name = row_name row.columns in
    let made = create_division_on_chain row.server caller name existing in
    record { result = row_result number name made.outcome; creation = made }
    ∷ import_rows caller (suc number) (names_after existing made.outcome) rows

abbrev pub names_of : List DivisionSummary → List Text
names_of divisions = map (λ (d : DivisionSummary). normalise_division_name d.name) divisions

-- the import of the rows beside the divisions that are there; the header is row 1
unfoldable pub import_divisions : Caller → List DivisionSummary → List Row → List ImportedRow
unfolding import_rows
import_divisions caller divisions rows = import_rows caller 2 (names_of divisions) rows
