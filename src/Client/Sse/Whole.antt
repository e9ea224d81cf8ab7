-- ===== src/Client/Sse/Whole.antt =====
-- encodeSse of src/transport/sse.ts against readSse of src/client/sse-reader.ts.
use mathlib.Core.List.{append_assoc, append-nil}
use pi_threads.Base.{
  ℕ, ◌+◌, ◌≤◌, ◌≡◌, refl, sym, subst, ap, ◌∙◌, Bool, true, false, not, ◌&&◌, List, [], ◌∷◌, ◌++◌,
  Option, none, some, any, map, All, arith, if_cases, if◌then◌else◌, ◌==◌, ltb,
}
use pi_threads.Protocol.Errors.{Result, ok, err, throw, stream_overflow}
use pi_threads.Protocol.Stream.{max_stream_bytes}
use pi_threads.Worker.Output.{Lines, add_line, without_return}
use pi_threads.Worker.Output.Chunks.{
  framed, framed-quiet, framed-append, continued, has_newline, concat,
}
use pi_threads.Client.Sse.Lines.{take_lines, take_lines-append, applied, with_buffer}
use pi_threads.Client.Sse.Chunks.{byte_length-append, IsFit, read_sse-applied}
use pi_threads.Transport.Sse.{
  byte_length, id_prefix, event_prefix, data_prefix, sse_text, encode_sse,
}
use pi_threads.Client.Sse.{
  SseFrame, SseReader, message, new_reader, take_line, take_raw, has_thrown, read_sse,
}

abbrev has_return : List ℕ → Bool
has_return units = any (λ c. c == 13) units

-- Texts of one line: JSON and the names of events are.
abbrev pub is_plain : List ℕ → Bool
is_plain units = not (has_newline units) && not (has_return units)

abbrev pub is_plain_id : Option (List ℕ) → Bool
is_plain_id none = true
is_plain_id (some id) = is_plain id && not (any (λ c. c == 0) id)

without_return_lem : (xs : List ℕ) → has_return xs ≡ false → without_return xs ≡ xs
without_return_lem [] h = refl
without_return_lem (c ∷ []) h = ground arith
without_return_lem (c ∷ d ∷ ds) h = ap (λ t. c ∷ t) (without_return_lem (d ∷ ds) (ground arith))

-- One line of a text, and the lines after it.
line_lem :
    (l rest : List ℕ)
    → has_newline l ≡ false
    → framed [] (l ++ 10 ∷ rest) ≡ add_line l (framed [] rest)
line_lem l rest h = framed-quiet [] l (10 ∷ rest) h

-- A line that fits is taken.
fits_lem :
    (r : SseReader) (raw : List ℕ)
    → r.bytes + (byte_length raw + 1) ≤ max_stream_bytes
    → has_return raw ≡ false
    → take_raw r raw ≡ take_line (record r { bytes = r.bytes + (byte_length raw + 1) }) raw
fits_lem r raw h k =
    if_cases {A = SseReader}
      (λ x. x ≡ take_line (record r { bytes = r.bytes + (byte_length raw + 1) }) raw)
      (ltb max_stream_bytes (r.bytes + (byte_length raw + 1))) (λ e. absurd (ground arith))
      (λ _.
        ap (take_line (record r { bytes = r.bytes + (byte_length raw + 1) }))
          (without_return_lem raw k))

-- A reader between two frames.
abbrev pub between : List SseFrame → SseReader
between frames = record new_reader { frames = frames }

-- A reader that has read the event, and perhaps the id, of a frame.
abbrev inside : List SseFrame → Option (List ℕ) → List ℕ → ℕ → SseReader
inside frames id event bytes = record new_reader {
  frames = frames;
  id = id;
  event = event;
  bytes = bytes;
}

-- The lines of a frame from its event on.
rest_lem :
    (frames : List SseFrame) (id : Option (List ℕ)) (event text : List ℕ) (b : ℕ)
    → b + (byte_length (event_prefix event) + 1 + (byte_length (data_prefix text) + 1) + 1)
      ≤ max_stream_bytes
    → is_plain event ≡ true
    → is_plain text ≡ true
    → take_lines (inside frames id message b) (event_prefix event ∷ data_prefix text ∷ [] ∷ [])
      ≡ between (frames ++ record { event = event; text = text; id = id } ∷ [])
unfolding take_lines
rest_lem frames id event text b h p q =
    let r0 = inside frames id message b in
    let b1 = b + (byte_length (event_prefix event) + 1) in
    let r1 = inside frames id event b1 in
    let b2 = b1 + (byte_length (data_prefix text) + 1) in
    let r2 = record (inside frames id event b2) { texts = text ∷ [] } in
    ap (λ r. take_lines r (data_prefix text ∷ [] ∷ []))
      (fits_lem r0 (event_prefix event) (omega arith) (ground arith))
    ∙ ap (λ r. take_lines r ([] ∷ [])) (fits_lem r1 (data_prefix text) (omega arith) (ground arith))
    ∙ fits_lem r2 [] (omega arith) refl

id_lem :
    (r : SseReader) (id : List ℕ)
    → not (any (λ c. c == 0) id) ≡ true
    → take_line r (id_prefix id) ≡ record r { id = some id }
id_lem r id h =
    if_cases {A = SseReader} (λ x. x ≡ record r { id = some id }) (not (any (λ c. c == 0) id))
      (λ _. refl) (λ e. absurd (ground arith))

-- An empty id is not sent.
abbrev pub kept_id : Option (List ℕ) → Option (List ℕ)
kept_id none = none
kept_id (some []) = none
kept_id (some (c ∷ cs)) = some (c ∷ cs)

abbrev pub lines_of : Option (List ℕ) → List ℕ → List ℕ → List (List ℕ)
lines_of none event text = event_prefix event ∷ data_prefix text ∷ [] ∷ []
lines_of (some []) event text = event_prefix event ∷ data_prefix text ∷ [] ∷ []
lines_of (some (c ∷ cs)) event text =
    id_prefix (c ∷ cs) ∷ event_prefix event ∷ data_prefix text ∷ [] ∷ []

abbrev split_into : List (List ℕ) → Lines
split_into found = record { found = found; rest = [] }

module _ (event text : List ℕ) (p : is_plain event ≡ true) (q : is_plain text ≡ true) where
  event_split :
      framed [] (event_prefix (event ++ 10 ∷ data_prefix (text ++ 10 ∷ 10 ∷ [])))
      ≡ split_into (event_prefix event ∷ data_prefix text ∷ [] ∷ [])
  event_split =
      line_lem (event_prefix event) (data_prefix (text ++ 10 ∷ 10 ∷ [])) (ground arith)
      ∙ ap (add_line (event_prefix event)) (line_lem (data_prefix text) (10 ∷ []) (ground arith))

  text_split :
      (id : Option (List ℕ))
      → is_plain_id id ≡ true
      → framed [] (sse_text event text id) ≡ split_into (lines_of id event text)
  text_split none i = event_split
  text_split (some []) i = event_split
  text_split (some (c ∷ cs)) i =
      line_lem (id_prefix (c ∷ cs))
        (event_prefix (event ++ 10 ∷ data_prefix (text ++ 10 ∷ 10 ∷ []))) (ground arith)
      ∙ ap (add_line (id_prefix (c ∷ cs))) event_split

  event_size :
      byte_length (event_prefix (event ++ 10 ∷ data_prefix (text ++ 10 ∷ 10 ∷ [])))
      ≡ byte_length (event_prefix event) + 1 + (byte_length (data_prefix text) + 1) + 1
  event_size =
      let a = byte_length-append (event_prefix event) (10 ∷ data_prefix (text ++ 10 ∷ 10 ∷ [])) in
      let b = byte_length-append (data_prefix text) (10 ∷ 10 ∷ []) in omega arith

  taken_lem :
      (frames : List SseFrame) (id : Option (List ℕ))
      → is_plain_id id ≡ true
      → byte_length (sse_text event text id) ≤ max_stream_bytes
      → take_lines (between frames) (lines_of id event text)
        ≡ between (frames ++ record { event = event; text = text; id = kept_id id } ∷ [])
  unfolding take_lines
  taken_lem frames none i h =
      let s = event_size in rest_lem frames none event text 0 (omega arith) p q
  taken_lem frames (some []) i h =
      let s = event_size in rest_lem frames none event text 0 (omega arith) p q
  taken_lem frames (some (c ∷ cs)) i h =
      let s = event_size in
      let a =
        byte_length-append (id_prefix (c ∷ cs))
          (10 ∷ event_prefix (event ++ 10 ∷ data_prefix (text ++ 10 ∷ 10 ∷ []))) in
      let b = 0 + (byte_length (id_prefix (c ∷ cs)) + 1) in
      let rest = event_prefix event ∷ data_prefix text ∷ [] ∷ [] in
      ap (λ r. take_lines r rest)
        (fits_lem (between frames) (id_prefix (c ∷ cs)) (omega arith) (ground arith)
          ∙ id_lem (record (between frames) { bytes = b }) (c ∷ cs) (ground arith))
      ∙ rest_lem frames (some (c ∷ cs)) event text b (omega arith) p q

abbrev is_ok : Result (List ℕ) → Bool
is_ok (ok t) = true
is_ok (err e) = false

size_lem :
    (event text : List ℕ) (id : Option (List ℕ))
    → encode_sse event text id ≡ ok (sse_text event text id)
    → byte_length (sse_text event text id) ≤ max_stream_bytes
unfolding encode_sse
size_lem event text id h =
    let k : is_ok (
          if ltb max_stream_bytes (byte_length (sse_text event text id))
          then throw stream_overflow "SSE frame exceeds its byte limit"
          else ok (sse_text event text id))
        ≡ true =
      ap is_ok h in
    ground arith

abbrev pub frame_text : SseFrame → List ℕ
frame_text f = sse_text f.event f.text f.id

-- A frame of texts of one line, which the daemon encodes.
abbrev pub IsSent : SseFrame → Type 0
IsSent f =
    (is_plain f.event ≡ true)
    × (is_plain f.text ≡ true)
    × (is_plain_id f.id ≡ true)
    × (encode_sse f.event f.text f.id ≡ ok (frame_text f))

abbrev pub received : SseFrame → SseFrame
received f = record f { id = kept_id f.id }

-- The lines of a frame, and of frames one after the other.
abbrev frame_lines : SseFrame → List (List ℕ)
frame_lines f = lines_of f.id f.event f.text

abbrev all_lines : List SseFrame → List (List ℕ)
all_lines [] = []
all_lines (f ∷ fs) = frame_lines f ++ all_lines fs

abbrev before_lines : List (List ℕ) → Lines → Lines
before_lines found q = record { found = found ++ q.found; rest = q.rest }

text_lines :
    (frames : List SseFrame)
    → All IsSent frames
    → framed [] (concat (map frame_text frames)) ≡ split_into (all_lines frames)
text_lines [] h = refl
text_lines (f ∷ fs) ((p, q, i, e), h) =
    let text = concat (map frame_text fs) in
    framed-append [] (frame_text f) text
    ∙ ap (λ l. continued l text) (text_split f.event f.text p q f.id i)
    ∙ ap (λ l. before_lines (frame_lines f) l) (text_lines fs h)

frames_taken :
    (before frames : List SseFrame)
    → All IsSent frames
    → take_lines (between before) (all_lines frames) ≡ between (before ++ map received frames)
unfolding take_lines
frames_taken before [] h = ap between (sym (append-nil before))
frames_taken before (f ∷ fs) ((p, q, i, e), h) =
    take_lines-append (between before) (frame_lines f) (all_lines fs)
    ∙ ap (λ r. take_lines r (all_lines fs))
        (taken_lem f.event f.text p q before f.id i (size_lem f.event f.text f.id e))
    ∙ frames_taken (before ++ received f ∷ []) fs h
    ∙ ap between (append_assoc before (received f ∷ []) (map received fs))

-- Frames that the daemon encodes and writes are read back as they were, in order and without an
-- error, however their bytes are cut into chunks, where an empty id counts as none: if the name, the
-- id and the JSON of each is one line and the id has no NUL.
pub read_sse-encode_sse :
    (frames : List SseFrame) (chunks : List (List ℕ))
    → All IsSent frames
    → concat chunks ≡ concat (map frame_text frames)
    → read_sse new_reader chunks ≡ between (map received frames)
read_sse-encode_sse frames chunks h cut =
    let same = ap (framed []) cut ∙ text_lines frames h in
    let taken = frames_taken [] frames h in
    let fit : IsFit new_reader (split_into (all_lines frames)) =
      subst (λ r. (has_thrown r ≡ false) × (r.bytes + 0 ≤ max_stream_bytes)) (sym taken)
        (refl, ground arith) in
    read_sse-applied new_reader chunks refl (subst (IsFit new_reader) (sym same) fit)
    ∙ ap (applied new_reader) same
    ∙ ap (λ r. with_buffer r []) taken
