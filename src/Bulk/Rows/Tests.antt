-- ===== src/Bulk/Rows/Tests.antt =====
-- A stream of two lines, cut within the first line.
use zk_voting.Prelude.{
  ◌+◌, ◌≡◌, refl, true, false, Option, none, some, List, [], ◌∷◌, ◌++◌, if◌then◌else◌,
}
use zk_voting.Prelude.Int.{pos}
use zk_voting.Prelude.Json.{Json, bool, number, string, object, JsonMembers, no_members, member}
use zk_voting.Prelude.Text.{Text, codes, text_eq, trim, drop_spaces, is_space}
use zk_voting.Bulk.Rows.{
  JsonCodec, on_total, on_row, read_ndjson_rows, stream_row_results, sent_rows, total_line,
  row_line, read_chunks, finish_reading, handle_lines, handle_line, cut,
}
use zk_voting.Bulk.Rows.Chunks.{concat}
use zk_voting.Bulk.Rows.RoundTrip.{read_ndjson_rows-stream_row_results}

mutual
  -- JSON.stringify of the values with one-digit numbers and plain texts
  print : Json → Text
  print (bool true) = codes "true"
  print (bool false) = codes "false"
  print (number (pos n)) = (b'0' + n) ∷ []
  print (string s) = b'"' ∷ s ++ b'"' ∷ []
  print (object ms) = b'{' ∷ print_members ms ++ b'}' ∷ []
  print _ = codes "null"

  print_members : JsonMembers → Text
  print_members no_members = []
  print_members (member k v no_members) = b'"' ∷ k ++ codes "\":" ++ print v
  print_members (member k v (member j w ms)) =
      b'"' ∷ k ++ codes "\":" ++ print v ++ b',' ∷ print_members (member j w ms)

-- JSON.parse of the two lines of the stream
read_line : Text → Option Json
unfolding text_eq print
read_line s =
    if text_eq s (print (total_line 1))
    then some (total_line 1)
    else if text_eq s (print (row_line (bool true)))
    then some (row_line (bool true))
    else none

abbrev codec : JsonCodec
codec = record { stringify = print; parse = read_line }

abbrev two_chunks : List Text
two_chunks =
    codes "{\"type\":\"tot"
    ∷ (codes "al\",\"total\":1}" ++ 10 ∷ codes "{\"type\":\"row\",\"result\":true}" ++ 10 ∷ [])
    ∷ []

two_chunks_stream : concat two_chunks ≡ stream_row_results codec 1 (bool true ∷ [])
unfolding stream_row_results sent_rows print
two_chunks_stream = refl

read_ndjson_rows-stream_row_results_example : read_ndjson_rows codec two_chunks ≡ record {
  calls = on_total (some (number (pos 1))) ∷ on_row (some (bool true)) ∷ [];
  threw = false;
}
unfolding read_line print text_eq trim drop_spaces is_space
read_ndjson_rows-stream_row_results_example =
    read_ndjson_rows-stream_row_results codec 1 (bool true ∷ []) two_chunks
      (
        record { reads = refl; one_line = refl; has_text = refl },
        (record { reads = refl; one_line = refl; has_text = refl }, tt),
      )
      two_chunks_stream

-- A line that is no JSON ends the reading, with the calls before it made.
broken_line :
    read_ndjson_rows codec ((print (total_line 1) ++ 10 ∷ codes "x" ++ 10 ∷ []) ∷ [])
    ≡ record { calls = on_total (some (number (pos 1))) ∷ []; threw = true }
unfolding read_ndjson_rows read_chunks finish_reading handle_lines handle_line cut read_line print
    text_eq trim drop_spaces is_space
broken_line = refl
