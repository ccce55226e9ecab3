-- ===== src/Bulk/Rows.antt =====
-- packages/nextjs/services/bulkImport/streamRows.ts and utils/readNdjsonRows.ts: the results of an
-- import as a stream of lines, and its reader. JSON.stringify and JSON.parse are those of the
-- runtime; a chunk of the stream is the text that the streaming TextDecoder makes of its bytes.
pub mod Chunks
pub mod RoundTrip
mod Tests
use zk_voting.Prelude.{
  ℕ, ◌≡◌, refl, Bool, true, false, Option, none, some, List, [], ◌∷◌, ◌++◌, ◌||◌, ◌==◌, all, not,
  if◌then◌else◌,
}
use zk_voting.Prelude.Int.{pos}
use zk_voting.Prelude.Json.{
  Json, null, number, string, object, JsonMembers, no_members, member, find_member,
}
use zk_voting.Prelude.Text.{Text, codes, text_eq, trim}
use zk_voting.Auth.Relay.Value.{is_empty}

abbrev pub newline : ℕ
newline = 10

pub record JsonCodec : Type 0 where
  pub stringify : Json → Text
  pub parse : Text → Option Json

-- What a line means to the reader: the call of `onTotal` or of `onRow`, with a member that may be
-- undefined.
pub data RowCall : Type 0 where
  on_total on_row : Option Json → RowCall

-- the line objects of the stream
abbrev pub total_line : ℕ → Json
total_line total = object (
    member (codes "type") (string (codes "total"))
      (member (codes "total") (number (pos total)) no_members))

abbrev pub row_line : Json → Json
row_line result =
    object
      (member (codes "type") (string (codes "row")) (member (codes "result") result no_members))

-- The calls so far, and whether a line has made the reader throw, after which it does nothing.
pub record Progress : Type 0 where
  pub calls : List RowCall
  pub threw : Bool

abbrev pub nothing_read : Progress
nothing_read = record { calls = []; threw = false }

-- `text.split("\n")` with its last part apart, `current` being what came before in the line
unfoldable pub cut : Text → Text → List Text × Text
cut current [] = ([], current)
cut current (c ∷ s) = elim (c == newline) [
  | true ↦ (current ∷ (cut [] s).0, (cut [] s).1)
  | false ↦ cut (current ++ c ∷ []) s
]

module _ (codec : JsonCodec) where
  -- `send(line)`
  abbrev pub sent_line : Json → Text
  sent_line line = codec.stringify line ++ newline ∷ []

  unfoldable pub sent_rows : List Json → Text
  sent_rows [] = []
  sent_rows (result ∷ results) = sent_line (row_line result) ++ sent_rows results

  -- `streamRowResults(total, process)`: the text of the stream where `process` sends these results
  -- and the client stays connected
  unfoldable pub stream_row_results : ℕ → List Json → Text
  unfolding sent_rows
  stream_row_results total results = sent_line (total_line total) ++ sent_rows results

  abbrev pub is_total : Option Json → Bool
  is_total (some (string s)) = text_eq s (codes "total")
  is_total _ = false

  abbrev pub call_of : JsonMembers → RowCall
  call_of ms =
      if is_total (find_member (codes "type") ms)
      then on_total (find_member (codes "total") ms)
      else on_row (find_member (codes "result") ms)

  -- what becomes of a parsed line; reading a member of `null` throws
  abbrev pub call_for : Option Json → Option RowCall
  call_for none = none
  call_for (some null) = none
  call_for (some (object ms)) = some (call_of ms)
  call_for (some _) = some (call_of no_members)

  abbrev pub take_call : Option RowCall → Progress → Progress
  take_call none p = record p { threw = true }
  take_call (some c) p = record p { calls = p.calls ++ c ∷ [] }

  -- `handleLine(line)`
  unfoldable pub handle_line : Text → Progress → Progress
  unfolding trim text_eq
  handle_line line p =
      if p.threw || is_empty (trim line) then p else take_call (call_for (codec.parse line)) p

  -- `for (const line of lines) handleLine(line)`
  unfoldable pub handle_lines : List Text → Progress → Progress
  unfolding handle_line
  handle_lines [] p = p
  handle_lines (line ∷ lines) p = handle_lines lines (handle_line line p)

  -- The body of the loop: `buffer += chunk`, the complete lines are handled and the rest is kept.
  unfoldable pub read_chunks : List Text → Progress → Text → Progress × Text
  unfolding cut handle_lines
  read_chunks [] p buffer = (p, buffer)
  read_chunks (chunk ∷ chunks) p buffer =
      let parts = cut [] (buffer ++ chunk) in read_chunks chunks (handle_lines parts.0 p) parts.1

  -- `if (buffer.trim()) handleLine(buffer)`
  unfoldable pub finish_reading : Progress × Text → Progress
  unfolding handle_line trim
  finish_reading (p, buffer) = if is_empty (trim buffer) then p else handle_line buffer p

  -- `readNdjsonRows(response, onTotal, onRow)` of a response with a body
  unfoldable pub read_ndjson_rows : List Text → Progress
  unfolding read_chunks finish_reading
  read_ndjson_rows chunks = finish_reading (read_chunks chunks nothing_read [])
