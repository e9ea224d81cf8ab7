-- ===== src/Client/Sse/Chunks.antt =====
-- What readSse of src/client/sse-reader.ts makes of a stream does not depend on its chunks.
use pi_threads.Base.{
  ℕ, ◌+◌, ◌≤◌, ◌≡◌, refl, sym, ap, ◌∙◌, subst, false, not, ◌&&◌, List, [], Bool-cases, inl, inr,
  ◌∷◌, ◌++◌, arith, if_cases, ◌==◌, ltb, length,
}
use pi_threads.Protocol.Stream.{max_stream_bytes}
use pi_threads.Worker.Output.{Lines, lines}
use pi_threads.Worker.Output.Chunks.{
  framed, framed-quiet, framed-rest, framed-append, lines-framed, has_newline, concat,
}
use pi_threads.Transport.Sse.{byte_length}
use pi_threads.Client.Sse.{SseReader, has_thrown, take_raw, check_rest, read_chunk, read_sse}
use pi_threads.Client.Sse.Lines.{
  take_lines, with_buffer, take_lines-buffer, take_lines-cons, take_lines-append, quiet_before,
  applied, read_lines-applied,
}

-- The lines of a text are taken without an error, and what is left of it is within the limit.
abbrev pub IsFit : SseReader → Lines → Type 0
IsFit r q =
    (has_thrown (take_lines r q.found) ≡ false)
    × ((take_lines r q.found).bytes + byte_length q.rest ≤ max_stream_bytes)

check_rest_lem :
    (r : SseReader) → r.bytes + byte_length r.buffer ≤ max_stream_bytes → check_rest r ≡ r
check_rest_lem r h =
    if_cases (λ x. x ≡ r)
      (not (has_thrown r) && ltb max_stream_bytes (r.bytes + byte_length r.buffer))
      (λ e. absurd (ground arith)) (λ _. refl)

read_chunk-applied :
    (r : SseReader) (chunk : List ℕ)
    → has_newline r.buffer ≡ false
    → IsFit r (framed r.buffer chunk)
    → read_chunk r chunk ≡ applied r (framed r.buffer chunk)
unfolding read_chunk
read_chunk-applied r chunk free fit =
    let buffer = r.buffer ++ chunk in
    let q = framed r.buffer chunk in
    let (quiet, bound) = fit in
    let same : lines (length buffer + 1) buffer ≡ q =
      lines-framed (length buffer + 1) buffer (omega arith) ∙ framed-quiet [] r.buffer chunk free in
    let moved = take_lines-buffer r buffer q.found in
    let taken : has_thrown
          (take_lines (with_buffer r buffer) (lines (length buffer + 1) buffer).found)
        ≡ false =
      ap (λ l. has_thrown (take_lines (with_buffer r buffer) l.found)) same
      ∙ ap has_thrown moved
      ∙ quiet in
    if_cases (λ x. x ≡ applied r q) (has_thrown r)
      (λ e. let calm = quiet_before r q.found quiet in cc)
      (λ _.
        ap check_rest (
          read_lines-applied (length buffer + 1) (with_buffer r buffer) taken
          ∙ ap (applied (with_buffer r buffer)) same
          ∙ ap (λ x. with_buffer x q.rest) moved)
        ∙ check_rest_lem (applied r q) bound)

pub byte_length-append : (xs ys : List ℕ) → byte_length (xs ++ ys) ≡ byte_length xs + byte_length ys
byte_length-append [] ys = omega arith
byte_length-append (x ∷ xs) ys = omega (arith, byte_length-append xs ys)

-- The first line, or else what there is of it.
abbrev first_of : Lines → List ℕ
first_of q = elim q.found [ [] ↦ q.rest | raw ∷ raws ↦ raw ]

first_size : (part s : List ℕ) → byte_length part ≤ byte_length (first_of (framed part s))
first_size part [] = omega arith
first_size part (c ∷ cs) =
    let longer = first_size (part ++ c ∷ []) cs in
    let size = byte_length-append part (c ∷ []) in
    if_cases {A = Lines} (λ q. byte_length part ≤ byte_length (first_of q)) (c == 10)
      (λ _. omega arith) (λ _. omega arith)

raw_fits :
    (r : SseReader) (raw : List ℕ)
    → has_thrown (take_raw r raw) ≡ false
    → r.bytes + (byte_length raw + 1) ≤ max_stream_bytes
raw_fits r raw h = elim (Bool-cases (ltb max_stream_bytes (r.bytes + (byte_length raw + 1)))) [
  | inl e ↦ absurd (ground arith)
  | inr e ↦ ground arith
]

-- What there is of a line is no longer than the line.
part_fits :
    (r : SseReader) (found : List (List ℕ)) (rest : List ℕ) (n : ℕ)
    → n ≤ byte_length (first_of (record { found = found; rest = rest }))
    → IsFit r (record { found = found; rest = rest })
    → r.bytes + n ≤ max_stream_bytes
unfolding take_lines
part_fits r [] rest n small (quiet, bound) = omega arith
part_fits r (raw ∷ raws) rest n small (quiet, bound) =
    let one = take_lines-cons r raw raws (quiet_before r (raw ∷ raws) quiet) in
    let taken = quiet_before (take_raw r raw) raws (sym (ap has_thrown one) ∙ quiet) in
    let fits = raw_fits r raw taken in omega arith

-- However a text is cut into chunks, the reader takes its lines, one after the other, if all of them
-- and what is left fit.
pub read_sse-applied :
    (r : SseReader) (chunks : List (List ℕ))
    → has_newline r.buffer ≡ false
    → IsFit r (framed r.buffer (concat chunks))
    → read_sse r chunks ≡ applied r (framed r.buffer (concat chunks))
unfolding read_sse take_lines
read_sse-applied r [] free fit = refl
read_sse-applied r (c ∷ cs) free fit =
    let q = framed r.buffer c in
    let p = framed q.rest (concat cs) in
    let s = take_lines r q.found in
    let whole = framed-append r.buffer c (concat cs) in
    let (quiet, bound) = subst (IsFit r) whole fit in
    let both = take_lines-append r q.found p.found in
    let later : IsFit s p = (
      sym (ap has_thrown both) ∙ quiet,
      subst (λ x. x.bytes + byte_length p.rest ≤ max_stream_bytes) both bound,
    ) in
    let moved = take_lines-buffer s q.rest p.found in
    let after : IsFit (applied r q) p =
      subst (λ x. (has_thrown x ≡ false) × (x.bytes + byte_length p.rest ≤ max_stream_bytes))
        (sym moved) later in
    let small =
      part_fits s p.found p.rest (byte_length q.rest) (first_size q.rest (concat cs)) later in
    ap (λ x. read_sse x cs) (read_chunk-applied r c free (quiet_before s p.found later.0, small))
    ∙ read_sse-applied (applied r q) cs (framed-rest r.buffer c free) after
    ∙ ap (λ x. with_buffer x p.rest) moved
    ∙ ap (λ x. with_buffer x p.rest) (sym both)
    ∙ ap (applied r) (sym whole)
