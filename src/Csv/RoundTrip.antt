-- ===== src/Csv/RoundTrip.antt =====
-- A line that a CSV writer makes is split into the fields that were written.
use zk_voting.Prelude.{
  ℕ, ◌≡◌, refl, ap, sym, ◌∙◌, inl, inr, Bool, true, false, not, ◌&&◌, ◌||◌, List, [], ◌∷◌, ◌++◌,
  arith, ◌==◌, all, Bool-cases, if◌then◌else◌,
}
use zk_voting.Prelude.Text.{Text}
use zk_voting.Csv.{scan, split_csv_line}

-- A field with each quote doubled.
abbrev pub escape : Text → Text
escape [] = []
escape (c ∷ f) = (if c == b'"' then b'"' ∷ b'"' ∷ [] else c ∷ []) ++ escape f

abbrev pub is_bare : ℕ → Bool
is_bare c = not (c == b'"') && not (c == b',')

-- A field as a writer may write it: in quotes where it asks for them or must.
abbrev pub write_field : Bool × Text → Text
write_field (quoted, f) = if quoted || not (all is_bare f) then b'"' ∷ escape f ++ b'"' ∷ [] else f

abbrev pub write_line : Bool × Text → List (Bool × Text) → Text
write_line f [] = write_field f
write_line f (g ∷ fields) = write_field f ++ b',' ∷ write_line g fields

abbrev pub texts : List (Bool × Text) → List Text
texts [] = []
texts ((quoted, f) ∷ fields) = f ∷ texts fields

append-nil : (s : Text) → s ++ [] ≡ s
append-nil [] = refl
append-nil (c ∷ s) = ap (λ t. c ∷ t) (append-nil s)

append-one : (s : Text) (c : ℕ) (t : Text) → (s ++ c ∷ []) ++ t ≡ s ++ c ∷ t
append-one [] c t = refl
append-one (d ∷ s) c t = ap (λ u. d ∷ u) (append-one s c t)

-- The text is at an end of a field: it is empty or begins with a comma.
abbrev ends_field : Text → Bool
ends_field [] = true
ends_field (c ∷ s) = c == b','

scan_inside :
    (current : Text) (c : ℕ) (s : Text)
    → (c == b'"') ≡ false
    → scan true current (c ∷ s) ≡ scan true (current ++ c ∷ []) s
unfolding scan
scan_inside current c [] h = rw (scan, h) refl
scan_inside current c (d ∷ s) h = rw (scan, h) refl

scan_close :
    (current rest : Text)
    → ends_field rest ≡ true
    → scan true current (b'"' ∷ rest) ≡ scan false current rest
unfolding scan
scan_close current [] h = refl
scan_close current (d ∷ s) h = let comma : d ≡ b',' = ground (arith, h) in rw comma refl

scan_quoted :
    (f current rest : Text)
    → ends_field rest ≡ true
    → scan true current (escape f ++ b'"' ∷ rest) ≡ scan false (current ++ f) rest
unfolding scan
scan_quoted [] current rest h = rw (append-nil current) (scan_close current rest h)
scan_quoted (c ∷ f) current rest h = elim (Bool-cases (c == b'"')) [
  | inl e ↦
      let same : c ≡ b'"' = ground (arith, e) in
      rw same (
        scan_quoted f (current ++ b'"' ∷ []) rest h
        ∙ ap (λ t. scan false t rest) (append-one current b'"' f))
  | inr e ↦ rw e (
      scan_inside current c (escape f ++ b'"' ∷ rest) e
      ∙ scan_quoted f (current ++ c ∷ []) rest h
      ∙ ap (λ t. scan false t rest) (append-one current c f))
]

bare_unit :
    (current : Text) (c : ℕ) (s : Text)
    → (c == b'"') ≡ false
    → (c == b',') ≡ false
    → scan false current (c ∷ s) ≡ scan false (current ++ c ∷ []) s
unfolding scan
bare_unit current c s no_quote no_comma = rw (scan, no_quote, no_comma) refl

scan_bare :
    (f current rest : Text)
    → all is_bare f ≡ true
    → scan false current (f ++ rest) ≡ scan false (current ++ f) rest
unfolding scan
scan_bare [] current rest h = rw (append-nil current) refl
scan_bare (c ∷ f) current rest h =
    let no_quote : (c == b'"') ≡ false = ground arith in
    let no_comma : (c == b',') ≡ false = ground arith in
    let later : all is_bare f ≡ true = ground arith in
    bare_unit current c (f ++ rest) no_quote no_comma
    ∙ scan_bare f (current ++ c ∷ []) rest later
    ∙ ap (λ t. scan false t rest) (append-one current c f)

scan-write_field :
    (quoted : Bool) (f rest : Text)
    → ends_field rest ≡ true
    → scan false [] (write_field (quoted, f) ++ rest) ≡ scan false f rest
unfolding scan
scan-write_field quoted f rest h = elim (Bool-cases (quoted || not (all is_bare f))) [
  | inl e ↦ rw (e, append-one (escape f) b'"' rest) (scan_quoted f [] rest h)
  | inr e ↦ rw e (scan_bare f [] rest (ground (arith, e)))
]

-- However the fields of a line are quoted, as long as those with a quote or a comma are,
-- `splitCsvLine` gives the fields that were written.
pub split_csv_line-write_line :
    (f : Bool × Text) (fields : List (Bool × Text))
    → split_csv_line (write_line f fields) ≡ texts (f ∷ fields)
unfolding split_csv_line scan
split_csv_line-write_line (quoted, f) [] =
    ap (scan false []) (sym (append-nil (write_field (quoted, f))))
    ∙ scan-write_field quoted f [] refl
split_csv_line-write_line (quoted, f) (g ∷ fields) =
    scan-write_field quoted f (b',' ∷ write_line g fields) refl
    ∙ ap (λ later. f ∷ later) (split_csv_line-write_line g fields)
