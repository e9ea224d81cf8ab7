-- ===== src/Client/Sse.antt =====
-- src/client/sse-reader.ts: readSse, over code units. What the reader has yielded is in `frames`, and
-- what it threw in `thrown`.
pub mod Lines
pub mod Chunks
pub mod Whole
pub mod Within
use pi_threads.Base.{
  ℕ, zero, suc, ◌+◌, Bool, true, false, not, ◌&&◌, ◌||◌, List, [], ◌∷◌, ◌++◌, Option, none, some,
  any, if◌then◌else◌, ◌==◌, ltb, length,
}
use pi_threads.Protocol.Errors.{DaemonError, stream_overflow}
use pi_threads.Protocol.Stream.{max_stream_bytes}
use pi_threads.Worker.Output.{split_line, without_return}
use pi_threads.Transport.Sse.{byte_length}

pub record SseFrame : Type 0 where
  pub event : List ℕ
  pub text : List ℕ
  pub id : Option (List ℕ)

pub record SseReader : Type 0 where
  pub buffer : List ℕ
  pub event : List ℕ
  pub id : Option (List ℕ)
  pub texts : List (List ℕ)
  pub bytes : ℕ
  pub frames : List SseFrame
  pub thrown : Option DaemonError

-- "message"
abbrev pub message : List ℕ
message = 109 ∷ 101 ∷ 115 ∷ 115 ∷ 97 ∷ 103 ∷ 101 ∷ []

abbrev pub new_reader : SseReader
new_reader = record {
  buffer = [];
  event = message;
  id = none;
  texts = [];
  bytes = 0;
  frames = [];
  thrown = none;
}

abbrev pub same_units : List ℕ → List ℕ → Bool
same_units [] [] = true
same_units (c ∷ cs) (d ∷ ds) = c == d && same_units cs ds
same_units _ _ = false

-- `join("\n")`
abbrev pub join_lines : List (List ℕ) → List ℕ
join_lines [] = []
join_lines (l ∷ []) = l
join_lines (l ∷ m ∷ ms) = l ++ 10 ∷ join_lines (m ∷ ms)

abbrev pub yielded : SseReader → List SseFrame
yielded r = elim r.texts [
  | [] ↦ r.frames
  | _ ∷ _ ↦ r.frames ++ record { event = r.event; text = join_lines r.texts; id = r.id } ∷ []
]

-- An empty line ends a frame.
abbrev pub end_frame : SseReader → SseReader
end_frame r = record r { event = message; id = none; texts = []; bytes = 0; frames = yielded r }

-- A field and its value, split at the first colon, with one space after it left out.
abbrev pub without_space : List ℕ → List ℕ
without_space [] = []
without_space (c ∷ cs) = if c == 32 then cs else c ∷ cs

abbrev pub first_unit : ℕ → List ℕ × List ℕ → List ℕ × List ℕ
first_unit c (field, value) = (c ∷ field, value)

abbrev pub split_field : List ℕ → List ℕ × List ℕ
split_field [] = ([], [])
split_field (c ∷ cs) = if c == 58 then ([], without_space cs) else first_unit c (split_field cs)

-- "event", "id" and "data"
abbrev pub set_field : SseReader → List ℕ × List ℕ → SseReader
set_field r (field, value) =
    if same_units field (101 ∷ 118 ∷ 101 ∷ 110 ∷ 116 ∷ [])
    then record r { event = value }
    else if same_units field (105 ∷ 100 ∷ []) && not (any (λ c. c == 0) value)
    then record r { id = some value }
    else if same_units field (100 ∷ 97 ∷ 116 ∷ 97 ∷ [])
    then record r { texts = r.texts ++ value ∷ [] }
    else r

abbrev pub take_line : SseReader → List ℕ → SseReader
take_line r [] = end_frame r
take_line r (c ∷ cs) = if c == 58 then r else set_field r (split_field (c ∷ cs))

abbrev pub overflow : SseReader → SseReader
overflow r = record r {
  thrown = some (record { code = stream_overflow; message = "SSE frame exceeds its byte limit" });
}

abbrev pub has_thrown : SseReader → Bool
has_thrown r = elim r.thrown [ none ↦ false | some _ ↦ true ]

-- One round of the loop: a line, its end left out.
abbrev pub take_raw : SseReader → List ℕ → SseReader
take_raw r raw =
    let counted = record r { bytes = r.bytes + (byte_length raw + 1) } in
    if ltb max_stream_bytes (r.bytes + (byte_length raw + 1))
    then overflow counted
    else take_line counted (without_return raw)

-- The loop over the buffer, which a round leaves without its line before it takes the line; it ends
-- where there is no line or a round throws.
unfoldable pub read_lines : ℕ → SseReader → SseReader
read_lines zero r = r
read_lines (suc fuel) r = elim (split_line r.buffer) [
  | none ↦ r
  | some (raw, after) ↦
      let next = take_raw (record r { buffer = after }) raw in
      elim (has_thrown next) [ true ↦ next | false ↦ read_lines fuel next ]
]

abbrev pub check_rest : SseReader → SseReader
check_rest r =
    if not (has_thrown r) && ltb max_stream_bytes (r.bytes + byte_length r.buffer)
    then overflow r
    else r

-- A chunk, decoded.
unfoldable pub read_chunk : SseReader → List ℕ → SseReader
read_chunk r chunk =
    if has_thrown r
    then r
    else let buffer = r.buffer ++ chunk in
      check_rest (read_lines (length buffer + 1) (record r { buffer = buffer }))

unfoldable pub read_sse : SseReader → List (List ℕ) → SseReader
read_sse r [] = r
read_sse r (chunk ∷ chunks) = read_sse (read_chunk r chunk) chunks
