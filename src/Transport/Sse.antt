-- ===== src/Transport/Sse.antt =====
-- src/transport/sse.ts: encodeSse, over code units.
use pi_threads.Base.{ℕ, ◌+◌, List, [], ◌∷◌, ◌++◌, Option, none, some, if◌then◌else◌, ltb, ◌&&◌}
use pi_threads.Protocol.Errors.{Result, ok, throw, stream_overflow}
use pi_threads.Protocol.Stream.{max_stream_bytes}

-- `Buffer.byteLength`: a surrogate takes half of the four bytes of its pair.
abbrev pub unit_bytes : ℕ → ℕ
unit_bytes c =
    if ltb c 128 then 1 else if ltb c 2048 then 2 else if ltb 55_295 c && ltb c 57_344 then 2 else 3

abbrev pub byte_length : List ℕ → ℕ
byte_length [] = 0
byte_length (c ∷ cs) = unit_bytes c + byte_length cs

-- "id: ", "event: " and "data: "
abbrev pub id_prefix : List ℕ → List ℕ
id_prefix rest = 105 ∷ 100 ∷ 58 ∷ 32 ∷ rest

abbrev pub event_prefix : List ℕ → List ℕ
event_prefix rest = 101 ∷ 118 ∷ 101 ∷ 110 ∷ 116 ∷ 58 ∷ 32 ∷ rest

abbrev pub data_prefix : List ℕ → List ℕ
data_prefix rest = 100 ∷ 97 ∷ 116 ∷ 97 ∷ 58 ∷ 32 ∷ rest

-- An id that is empty is falsy.
abbrev pub id_line : Option (List ℕ) → List ℕ → List ℕ
id_line none rest = rest
id_line (some []) rest = rest
id_line (some (c ∷ cs)) rest = id_prefix ((c ∷ cs) ++ 10 ∷ rest)

-- `text` is the JSON text of the data.
abbrev pub sse_text : List ℕ → List ℕ → Option (List ℕ) → List ℕ
sse_text event text id =
    id_line id (event_prefix (event ++ 10 ∷ data_prefix (text ++ 10 ∷ 10 ∷ [])))

unfoldable pub encode_sse : List ℕ → List ℕ → Option (List ℕ) → Result (List ℕ)
encode_sse event text id =
    if ltb max_stream_bytes (byte_length (sse_text event text id))
    then throw stream_overflow "SSE frame exceeds its byte limit"
    else ok (sse_text event text id)
