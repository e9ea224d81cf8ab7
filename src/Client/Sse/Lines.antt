-- ===== src/Client/Sse/Lines.antt =====
-- The loop of readSse of src/client/sse-reader.ts over its buffer, as a list of lines that are taken.
use pi_threads.Base.{
  ℕ, zero, suc, ◌+◌, ◌≡◌, refl, sym, ap, ◌∙◌, subst, Bool, true, false, List, [], Bool-cases, inl,
  inr, ◌∷◌, ◌++◌, Option, none, some, arith, if_cases, if◌then◌else◌, ◌==◌, ltb,
}
use pi_threads.Protocol.Stream.{max_stream_bytes}
use pi_threads.Worker.Output.{Lines, add_line, split_line, lines, without_return}
use pi_threads.Transport.Sse.{byte_length}
use pi_threads.Client.Sse.{
  SseReader, split_field, set_field, take_line, has_thrown, take_raw, read_lines,
}

-- The lines of a text, one after the other, with a buffer that stays.
unfoldable pub take_lines : SseReader → List (List ℕ) → SseReader
take_lines r [] = r
take_lines r (raw ∷ raws) = if has_thrown r then r else take_lines (take_raw r raw) raws

abbrev pub with_buffer : SseReader → List ℕ → SseReader
with_buffer r b = record r { buffer = b }

set_field-buffer :
    (r : SseReader) (b field value : List ℕ)
    → set_field (with_buffer r b) (field, value) ≡ with_buffer (set_field r (field, value)) b
set_field-buffer r b field value = ground arith

if-buffer :
    (t : Bool) (x y x' y' : SseReader) (b : List ℕ)
    → x' ≡ with_buffer x b
    → y' ≡ with_buffer y b
    → (if t then x' else y') ≡ with_buffer (if t then x else y) b
if-buffer true x y x' y' b e f = e
if-buffer false x y x' y' b e f = f

take_line-buffer :
    (r : SseReader) (b l : List ℕ) → take_line (with_buffer r b) l ≡ with_buffer (take_line r l) b
take_line-buffer r b [] = refl
take_line-buffer r b (c ∷ cs) =
    let (field, value) = split_field (c ∷ cs) in
    if-buffer (c == 58) _ _ _ _ b refl (set_field-buffer r b field value)

take_raw-buffer :
    (r : SseReader) (b raw : List ℕ)
    → take_raw (with_buffer r b) raw ≡ with_buffer (take_raw r raw) b
take_raw-buffer r b raw =
    if-buffer (ltb max_stream_bytes (r.bytes + (byte_length raw + 1))) _ _ _ _ b refl (
      take_line-buffer (record r { bytes = r.bytes + (byte_length raw + 1) }) b
        (without_return raw))

pub take_lines-buffer :
    (r : SseReader) (b : List ℕ) (raws : List (List ℕ))
    → take_lines (with_buffer r b) raws ≡ with_buffer (take_lines r raws) b
unfolding take_lines
take_lines-buffer r b [] = refl
take_lines-buffer r b (raw ∷ raws) = if-buffer (has_thrown r) _ _ _ _ b refl (
    ap (λ x. take_lines x raws) (take_raw-buffer r b raw)
    ∙ take_lines-buffer (take_raw r raw) b raws)

-- A reader that has thrown takes no line any more.
take_lines-thrown :
    (r : SseReader) (raws : List (List ℕ)) → has_thrown r ≡ true → take_lines r raws ≡ r
unfolding take_lines
take_lines-thrown r [] h = refl
take_lines-thrown r (raw ∷ raws) h = if_cases (λ x. x ≡ r) (has_thrown r) (λ _. refl) (λ e. cc)

pub take_lines-cons :
    (r : SseReader) (raw : List ℕ) (raws : List (List ℕ))
    → has_thrown r ≡ false
    → take_lines r (raw ∷ raws) ≡ take_lines (take_raw r raw) raws
unfolding take_lines
take_lines-cons r raw raws h =
    if_cases (λ x. x ≡ take_lines (take_raw r raw) raws) (has_thrown r) (λ e. cc) (λ _. refl)

pub take_lines-append :
    (r : SseReader) (xs ys : List (List ℕ))
    → take_lines r (xs ++ ys) ≡ take_lines (take_lines r xs) ys
unfolding take_lines
take_lines-append r [] ys = refl
take_lines-append r (x ∷ xs) ys = elim (Bool-cases (has_thrown r)) [
  | inl h ↦
      take_lines-thrown r (x ∷ xs ++ ys) h
      ∙ sym (take_lines-thrown r ys h)
      ∙ ap (λ t. take_lines t ys) (sym (take_lines-thrown r (x ∷ xs) h))
  | inr h ↦
      take_lines-cons r x (xs ++ ys) h
      ∙ take_lines-append (take_raw r x) xs ys
      ∙ ap (λ t. take_lines t ys) (sym (take_lines-cons r x xs h))
]

-- Lines that end without an error began without one.
pub quiet_before :
    (r : SseReader) (raws : List (List ℕ))
    → has_thrown (take_lines r raws) ≡ false
    → has_thrown r ≡ false
quiet_before r raws h = elim (Bool-cases (has_thrown r)) [
  | inl e ↦ let same = ap has_thrown (take_lines-thrown r raws e) in cc
  | inr e ↦ e
]

abbrev pub applied : SseReader → Lines → SseReader
applied r q = with_buffer (take_lines r q.found) q.rest

-- A round that does not throw is followed by the next.
next_round :
    (fuel : ℕ) (x y : SseReader)
    → x ≡ y
    → has_thrown y ≡ false
    → elim (has_thrown x) [ true ↦ x | false ↦ read_lines fuel x ] ≡ read_lines fuel y
next_round fuel x y e h =
    subst (λ z. elim (has_thrown z) [ true ↦ z | false ↦ read_lines fuel z ] ≡ read_lines fuel y)
      (sym e) (quiet (has_thrown y) h)
  where
    quiet :
        (b : Bool) → b ≡ false → elim b [ true ↦ y | false ↦ read_lines fuel y ] ≡ read_lines fuel y
    quiet true k = absurd (ground arith)
    quiet false k = refl

-- The loop over the buffer takes its lines, if none of them throws.
pub read_lines-applied :
    (fuel : ℕ) (r : SseReader)
    → has_thrown (take_lines r (lines fuel r.buffer).found) ≡ false
    → read_lines fuel r ≡ applied r (lines fuel r.buffer)
unfolding read_lines take_lines
read_lines-applied zero r h = refl
read_lines-applied (suc fuel) r h =
    loop (split_line r.buffer) h (λ n k. read_lines-applied fuel n k)
  where
    loop :
        (o : Option (List ℕ × List ℕ))
        → has_thrown (
            take_lines r
              (elim o as (λ x. Lines) [
                | none ↦ record { found = []; rest = r.buffer }
                | some (line, after) ↦ add_line line (lines fuel after)
              ]).found)
          ≡ false
        → ((n : SseReader)
            → has_thrown (take_lines n (lines fuel n.buffer).found) ≡ false
            → read_lines fuel n ≡ applied n (lines fuel n.buffer))
        → elim o [
          | none ↦ r
          | some (raw, after) ↦
              let next = take_raw (record r { buffer = after }) raw in
              elim (has_thrown next) [ true ↦ next | false ↦ read_lines fuel next ]
        ]
          ≡ applied r (elim o as (λ x. Lines) [
            | none ↦ record { found = []; rest = r.buffer }
            | some (line, after) ↦ add_line line (lines fuel after)
          ])
    loop none h rest = refl
    loop (some (raw, after)) h rest =
        let q = lines fuel after in
        let n = with_buffer (take_raw r raw) after in
        let one = take_lines-cons r raw q.found (quiet_before r (raw ∷ q.found) h) in
        let moved = take_lines-buffer (take_raw r raw) after q.found in
        let quiet : has_thrown (take_lines n q.found) ≡ false =
          ap has_thrown moved ∙ sym (ap has_thrown one) ∙ h in
        next_round fuel (take_raw (with_buffer r after) raw) n (take_raw-buffer r after raw)
          (quiet_before n q.found quiet)
        ∙ rest n quiet
        ∙ ap (λ x. with_buffer x q.rest) moved
        ∙ ap (λ x. with_buffer x q.rest) (sym one)
