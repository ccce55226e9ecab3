-- ===== src/Bulk/Rows/RoundTrip.antt =====
-- What an import sends is what the reader is called with.
use zk_voting.Prelude.{ℕ, ◌≡◌, refl, sym, ap, ◌∙◌, true, false, some, List, [], ◌∷◌, ◌++◌, map, All}
use zk_voting.Prelude.Int.{pos}
use zk_voting.Prelude.Json.{Json, number}
use zk_voting.Prelude.Text.{Text, trim, text_eq}
use zk_voting.Auth.Relay.Value.{is_empty}
use zk_voting.Bulk.Rows.{
  JsonCodec, RowCall, on_total, on_row, newline, cut, handle_line, handle_lines, read_chunks,
  finish_reading, nothing_read, read_ndjson_rows, sent_line, sent_rows, stream_row_results,
  total_line, row_line,
}
use zk_voting.Bulk.Rows.Chunks.{
  concat, append-nil, is_one_line, cut_line, append_assoc, read_ndjson_rows-concat,
}

-- What the stream relies on for a value that it sends: JSON.parse reads what JSON.stringify wrote
-- of it, which has no line break and is not blank.
pub record IsSendable (codec : JsonCodec) (v : Json) : Type 0 where
  pub reads : codec.parse (codec.stringify v) ≡ some v
  pub one_line : is_one_line (codec.stringify v) ≡ true
  pub has_text : is_empty (trim (codec.stringify v)) ≡ false

abbrev pub row_calls : List Json → List RowCall
row_calls [] = []
row_calls (result ∷ results) = on_row (some result) ∷ row_calls results

module _ (codec : JsonCodec) where
  abbrev pub Sendable : List Json → Type 0
  Sendable vs = All (IsSendable codec) vs

  abbrev line_texts : List Json → List Text
  line_texts [] = []
  line_texts (v ∷ vs) = codec.stringify v ∷ line_texts vs

  abbrev line_stream : List Json → Text
  line_stream [] = []
  line_stream (v ∷ vs) = sent_line codec v ++ line_stream vs

  cut-line_stream : (vs : List Json) → Sendable vs → cut [] (line_stream vs) ≡ (line_texts vs, [])
  unfolding cut
  cut-line_stream [] _ = refl
  cut-line_stream (v ∷ vs) (sendable, rest) =
      ap (cut []) (append_assoc (codec.stringify v) (newline ∷ []) (line_stream vs))
      ∙ cut_line (codec.stringify v) [] (newline ∷ line_stream vs) sendable.one_line
      ∙ ap (λ x. (codec.stringify v ∷ x.0, x.1)) (cut-line_stream vs rest)

  abbrev pub row_lines : List Json → List Json
  row_lines results = map row_line results

  handle_row :
      (result : Json) (calls : List RowCall)
      → IsSendable codec (row_line result)
      → handle_line codec
          (codec.stringify (row_line result))
          (record { calls = calls; threw = false })
        ≡ record { calls = calls ++ on_row (some result) ∷ []; threw = false }
  unfolding handle_line text_eq
  handle_row result calls sendable = rw (sendable.has_text, sendable.reads) refl

  handle_rows :
      (results : List Json) (calls : List RowCall)
      → Sendable (row_lines results)
      → handle_lines codec
          (line_texts (row_lines results))
          (record { calls = calls; threw = false })
        ≡ record { calls = calls ++ row_calls results; threw = false }
  unfolding handle_lines
  handle_rows [] calls _ = ap (λ cs. record { calls = cs; threw = false }) (sym (append-nil calls))
  handle_rows (result ∷ results) calls (sendable, rest) =
      ap (handle_lines codec (line_texts (row_lines results))) (handle_row result calls sendable)
      ∙ handle_rows results (calls ++ on_row (some result) ∷ []) rest
      ∙ ap (λ cs. record { calls = cs; threw = false })
          (append_assoc calls (on_row (some result) ∷ []) (row_calls results))

  handle_total :
      (total : ℕ)
      → IsSendable codec (total_line total)
      → handle_line codec (codec.stringify (total_line total)) nothing_read
        ≡ record { calls = on_total (some (number (pos total))) ∷ []; threw = false }
  unfolding handle_line text_eq
  handle_total total sendable = rw (sendable.has_text, sendable.reads) refl

  stream_lines : (results : List Json) → sent_rows codec results ≡ line_stream (row_lines results)
  unfolding sent_rows
  stream_lines [] = refl
  stream_lines (result ∷ results) =
      ap (λ s. sent_line codec (row_line result) ++ s) (stream_lines results)

  read_lines :
      (vs : List Json)
      → Sendable vs
      → read_ndjson_rows codec (line_stream vs ∷ [])
        ≡ handle_lines codec (line_texts vs) nothing_read
  unfolding read_ndjson_rows read_chunks finish_reading trim
  read_lines vs sendable = rw (cut-line_stream vs sendable) refl

  -- If JSON.parse reads what JSON.stringify writes of the lines, on one line each, the reader of an import's stream,
  -- in whatever chunks it arrives, is called with the total and then with each result in order, and
  -- does not reject.
  pub read_ndjson_rows-stream_row_results :
      (total : ℕ) (results : List Json) (chunks : List Text)
      → Sendable (total_line total ∷ row_lines results)
      → concat chunks ≡ stream_row_results codec total results
      → read_ndjson_rows codec chunks
        ≡ record { calls = on_total (some (number (pos total))) ∷ row_calls results; threw = false }
  unfolding stream_row_results handle_lines
  read_ndjson_rows-stream_row_results total results chunks (sendable, rest) h =
      read_ndjson_rows-concat codec chunks
      ∙ ap (λ s. read_ndjson_rows codec (s ∷ []))
          (h ∙ ap (λ s. sent_line codec (total_line total) ++ s) (stream_lines results))
      ∙ read_lines (total_line total ∷ row_lines results) (sendable, rest)
      ∙ ap (handle_lines codec (line_texts (row_lines results))) (handle_total total sendable)
      ∙ handle_rows results (on_total (some (number (pos total))) ∷ []) rest
