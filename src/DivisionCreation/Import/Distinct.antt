-- ===== src/DivisionCreation/Import/Distinct.antt =====
-- The divisions of an import have names of their own.
use zk_voting.Prelude.{
  ◌≡◌, refl, false, ◌||◌, none, List, [], ◌∷◌, ◌++◌, All, Bool-cases, inl, inr, arith, length, map,
  ℕ, zero, suc,
}
use zk_voting.Prelude.Keyed.{find_key, HasUniqueKeys}
use zk_voting.Prelude.Outcome.{Outcome, ok, err, thrown, ok-injective}
use zk_voting.Prelude.Text.{Text, text_eq, text_eq_iff, trim}
use zk_voting.Auth.Relay.Contracts.{DivisionSummary}
use zk_voting.Auth.Relay.Executor.{Caller}
use zk_voting.DivisionCreation.{
  CreateDivisionResult, CreateDivisionError, normalise_division_name, has_name,
  create_division_on_chain, DivisionServer, RelayCall,
}
use zk_voting.DivisionCreation.Settled.{IsSettled}
use zk_voting.DivisionCreation.Created.{create_division_on_chain-IsSettled}
use zk_voting.DivisionCreation.Import.{
  Row, ImportedRow, row_name, add_name, names_after, row_result, import_rows, names_of,
  import_divisions,
}

abbrev created_first :
    Outcome CreateDivisionError CreateDivisionResult
    → List CreateDivisionResult
    → List CreateDivisionResult
created_first (ok created) rest = created ∷ rest
created_first _ rest = rest

-- The divisions that an import created.
abbrev pub created_of : List ImportedRow → List CreateDivisionResult
created_of [] = []
created_of (row ∷ rows) = created_first row.creation.outcome (created_of rows)

abbrev pub name_key : CreateDivisionResult → Text
name_key created = normalise_division_name created.name

-- No created division has a name that is taken, and no two have one name.
abbrev pub IsDistinct : List Text → List CreateDivisionResult → Type 0
IsDistinct taken created =
    All (λ (c : CreateDivisionResult). has_name (name_key c) taken ≡ false) created
    × HasUniqueKeys name_key created

has_name-append :
    (name new : Text) (names : List Text)
    → has_name name (names ++ new ∷ []) ≡ (has_name name names || text_eq new name)
has_name-append name new [] = ground arith
has_name-append name new (n ∷ names) = ground (arith, has_name-append name new names)

has_name-add_name :
    (name new : Text) (names : List Text)
    → has_name name (add_name new names) ≡ false
    → (has_name name names ≡ false) × (text_eq new name ≡ false)
has_name-add_name name new names h = elim (Bool-cases (has_name new names)) [
  | inl e ↦
      let free : has_name name names ≡ false = rw e at h in
      (free, ground (arith, text_eq_iff new name))
  | inr e ↦
      let apart : (has_name name names || text_eq new name) ≡ false =
        rw (← has_name-append name new names) (rw e at h) in
      ground arith
]

find_key_absent :
    (taken : List Text) (new : Text) (created : List CreateDivisionResult)
    → All (λ (c : CreateDivisionResult). has_name (name_key c) (add_name new taken) ≡ false) created
    → All (λ (c : CreateDivisionResult). has_name (name_key c) taken ≡ false) created
      × (find_key name_key new created ≡ none)
find_key_absent taken new [] h = (tt, refl)
find_key_absent taken new (c ∷ created) (first, rest) =
    let (free, other) = has_name-add_name (name_key c) new taken first in
    let (frees, absent) = find_key_absent taken new created rest in
    ((free, frees), ground (arith, text_eq_iff new (name_key c), text_eq_iff (name_key c) new))

settled_free :
    (taken : List Text) (server : DivisionServer) (caller : Caller) (name : Text)
    (created : CreateDivisionResult) (outcome : Outcome CreateDivisionError CreateDivisionResult)
    (calls : List RelayCall)
    → IsSettled server caller (trim name) taken outcome calls
    → outcome ≡ ok created
    → has_name (name_key created) taken ≡ false
settled_free taken server caller name created (ok result) calls settled h =
    rw (← ok-injective result created h) (rw settled.named settled.free)
settled_free taken server caller name created (err e) calls settled h = absurd (cc)
settled_free taken server caller name created thrown calls settled h = absurd (cc)

names_free :
    (caller : Caller) (taken : List Text) (row : Row) (created : CreateDivisionResult)
    → (create_division_on_chain row.server caller (row_name row.columns) taken).outcome ≡ ok created
    → has_name (name_key created) taken ≡ false
names_free caller taken row created h =
    settled_free taken row.server caller (row_name row.columns) created _ _
      (create_division_on_chain-IsSettled row.server caller (row_name row.columns) taken) h

-- The name of a row that creates its division was free, and is taken from then on.
created_first-IsDistinct :
    (taken : List Text) (outcome : Outcome CreateDivisionError CreateDivisionResult)
    (rest : List CreateDivisionResult)
    → ((created : CreateDivisionResult)
        → outcome ≡ ok created
        → has_name (name_key created) taken ≡ false)
    → IsDistinct (names_after taken outcome) rest
    → IsDistinct taken (created_first outcome rest)
created_first-IsDistinct taken (ok created) rest new (frees, unique) =
    let (free, absent) = find_key_absent taken (name_key created) rest frees in
    ((new created refl, free), (absent, unique))
created_first-IsDistinct taken (err e) rest new h = h
created_first-IsDistinct taken thrown rest new h = h

import_rows-IsDistinct :
    (caller : Caller) (number : ℕ) (taken : List Text) (rows : List Row)
    → IsDistinct taken (created_of (import_rows caller number taken rows))
unfolding import_rows
import_rows-IsDistinct caller number taken [] = (tt, tt)
import_rows-IsDistinct caller number taken (row ∷ rows) =
    let made = create_division_on_chain row.server caller (row_name row.columns) taken in
    created_first-IsDistinct taken made.outcome _ (names_free caller taken row)
      (import_rows-IsDistinct caller (suc number) (names_after taken made.outcome) rows)

row_result-row :
    (number : ℕ) (name : Text) (outcome : Outcome CreateDivisionError CreateDivisionResult)
    → (row_result number name outcome).row ≡ number
row_result-row number name (ok created) = refl
row_result-row number name (err e) = refl
row_result-row number name thrown = refl

-- `n, n + 1, ...`
abbrev pub numbers_from : ℕ → ℕ → List ℕ
numbers_from n zero = []
numbers_from n (suc m) = n ∷ numbers_from (suc n) m

import_rows_numbered :
    (caller : Caller) (number : ℕ) (taken : List Text) (rows : List Row)
    → map (λ (r : ImportedRow). r.result.row) (import_rows caller number taken rows)
      ≡ numbers_from number (length rows)
unfolding import_rows
import_rows_numbered caller number taken [] = refl
import_rows_numbered caller number taken (row ∷ rows) =
    let made = create_division_on_chain row.server caller (row_name row.columns) taken in
    let first = row_result-row number (row_name row.columns) made.outcome in
    let rest = import_rows_numbered caller (suc number) (names_after taken made.outcome) rows in
    rw (first, rest) refl

-- An import of divisions has one line for each row, numbered from 2 on, and gives no division a name that another
-- division has, whether it was there before or is created by the same import, in whatever case and
-- with whatever space around.
pub import_divisions-IsDistinct :
    (caller : Caller) (divisions : List DivisionSummary) (rows : List Row)
    → IsDistinct (names_of divisions) (created_of (import_divisions caller divisions rows))
      × (map (λ (r : ImportedRow). r.result.row) (import_divisions caller divisions rows)
          ≡ numbers_from 2 (length rows))
unfolding import_divisions
import_divisions-IsDistinct caller divisions rows = (
  import_rows-IsDistinct caller 2 (names_of divisions) rows,
  import_rows_numbered caller 2 (names_of divisions) rows,
)
