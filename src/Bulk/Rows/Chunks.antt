-- ===== src/Bulk/Rows/Chunks.antt =====
-- The reader does not depend on where the stream is cut into chunks.
use zk_voting.Prelude.{
  ℕ, ◌≡◌, refl, sym, ap, ◌∙◌, inl, inr, Bool, true, false, not, List, [], ◌∷◌, ◌++◌, arith, ◌==◌,
  all, Bool-cases,
}
use zk_voting.Prelude.Text.{Text}
use zk_voting.Bulk.Rows.{
  JsonCodec, Progress, newline, cut, handle_lines, read_chunks, finish_reading, nothing_read,
  read_ndjson_rows,
}

abbrev pub concat : List Text → Text
concat [] = []
concat (s ∷ ss) = s ++ concat ss

-- The text is within a line.
abbrev pub is_one_line : Text → Bool
is_one_line s = all (λ c. not (c == newline)) s

pub append-nil : {A : Type 0} (s : List A) → s ++ [] ≡ s
append-nil [] = refl
append-nil (c ∷ s) = ap (λ t. c ∷ t) (append-nil s)

pub append_assoc : {A : Type 0} (s t u : List A) → (s ++ t) ++ u ≡ s ++ (t ++ u)
append_assoc [] t u = refl
append_assoc (c ∷ s) t u = ap (λ v. c ∷ v) (append_assoc s t u)

cut_in_line :
    (current : Text) (c : ℕ) (s : Text)
    → (c == newline) ≡ false
    → cut current (c ∷ s) ≡ cut (current ++ c ∷ []) s
unfolding cut
cut_in_line current c s h = rw (cut, h) refl

cut_at_end :
    (current : Text) (c : ℕ) (s : Text)
    → (c == newline) ≡ true
    → cut current (c ∷ s) ≡ (current ∷ (cut [] s).0, (cut [] s).1)
unfolding cut
cut_at_end current c s h = rw (cut, h) refl

pub cut_line :
    (p current s : Text) → is_one_line p ≡ true → cut current (p ++ s) ≡ cut (current ++ p) s
cut_line [] current s h = rw (append-nil current) refl
cut_line (c ∷ p) current s h =
    cut_in_line current c (p ++ s) (ground arith)
    ∙ cut_line p (current ++ c ∷ []) s (ground arith)
    ∙ ap (λ t. cut t s) (append_assoc current (c ∷ []) p)

cut_append :
    (current a b : Text)
    → cut current (a ++ b)
      ≡ ((cut current a).0 ++ (cut (cut current a).1 b).0, (cut (cut current a).1 b).1)
unfolding cut
cut_append current [] b = refl
cut_append current (c ∷ a) b = elim (Bool-cases (c == newline)) [
  | inl e ↦ rw (cut_at_end current c (a ++ b) e, cut_at_end current c a e, cut_append [] a b) refl
  | inr e ↦
      rw
        (
          cut_in_line current c (a ++ b) e,
          cut_in_line current c a e,
          cut_append (current ++ c ∷ []) a b,
        )
        refl
]

one_line_add :
    (s : Text) (c : ℕ)
    → is_one_line s ≡ true
    → (c == newline) ≡ false
    → is_one_line (s ++ c ∷ []) ≡ true
one_line_add [] c h e = rw e refl
one_line_add (d ∷ s) c h e = ground (arith, one_line_add s c)

cut_rest : (current s : Text) → is_one_line current ≡ true → is_one_line (cut current s).1 ≡ true
unfolding cut
cut_rest current [] h = h
cut_rest current (c ∷ s) h = elim (Bool-cases (c == newline)) [
  | inl e ↦ rw (cut_at_end current c s e) (cut_rest [] s refl)
  | inr e ↦
      rw (cut_in_line current c s e) (cut_rest (current ++ c ∷ []) s (one_line_add current c h e))
]

module _ (codec : JsonCodec) where
  handle_append :
      (xs ys : List Text) (p : Progress)
      → handle_lines codec (xs ++ ys) p ≡ handle_lines codec ys (handle_lines codec xs p)
  unfolding handle_lines
  handle_append [] ys p = refl
  handle_append (x ∷ xs) ys p = handle_append xs ys _

  -- What is read of a text that is cut in two parts or left whole.
  abbrev read_whole : Text → Progress → Progress × Text
  read_whole s p = (handle_lines codec (cut [] s).0 p, (cut [] s).1)

  joined :
      (a b : Text) (p : Progress)
      → read_whole (a ++ b) p ≡ read_whole ((cut [] a).1 ++ b) (handle_lines codec (cut [] a).0 p)
  joined a b p =
      let rest = (cut [] a).1 in
      rw
        (
          cut_append [] a b,
          cut_line rest [] b (cut_rest [] a refl),
          handle_append (cut [] a).0 (cut rest b).0 p,
        )
        refl

  read_chunks_whole :
      (chunks : List Text) (p : Progress) (buffer : Text)
      → is_one_line buffer ≡ true
      → read_chunks codec chunks p buffer ≡ read_whole (buffer ++ concat chunks) p
  unfolding read_chunks cut handle_lines
  read_chunks_whole [] p buffer h = rw (cut_line buffer [] [] h) refl
  read_chunks_whole (chunk ∷ chunks) p buffer h =
      let here = cut [] (buffer ++ chunk) in
      let within = cut_rest [] (buffer ++ chunk) refl in
      read_chunks_whole chunks (handle_lines codec here.0 p) here.1 within
      ∙ sym (joined (buffer ++ chunk) (concat chunks) p)
      ∙ ap (λ s. read_whole s p) (append_assoc buffer chunk (concat chunks))

  -- However a stream is cut into chunks, also within lines, the reader makes the same calls as on
  -- the stream in one chunk, and rejects where it does then.
  pub read_ndjson_rows-concat :
      (chunks : List Text)
      → read_ndjson_rows codec chunks ≡ read_ndjson_rows codec (concat chunks ∷ [])
  unfolding read_ndjson_rows
  read_ndjson_rows-concat chunks = ap (finish_reading codec) (
      read_chunks_whole chunks nothing_read [] refl
      ∙ ap (λ s. read_whole s nothing_read) (sym (append-nil (concat chunks)))
      ∙ sym (read_chunks_whole (concat chunks ∷ []) nothing_read [] refl))
