-- ===== src/Worker/Output/Chunks.antt =====
-- How the output of a process is cut into chunks does not matter.
use mathlib.Core.List.{append_assoc, append-nil}
use pi_threads.Base.{
  ℕ, zero, suc, ◌+◌, ◌<◌, ◌≡◌, refl, sym, ap, ◌∙◌, Bool, true, false, List, [], ◌∷◌, ◌++◌, Option,
  none, some, if◌then◌else◌, ◌==◌, length, any, arith, if_cases,
}
use pi_threads.Value.{Value, undefined, null, bool, num, str, arr, obj, get, is_text}
use pi_threads.Worker.Output.{
  Lines, add_line, extend_line, split_line, lines, PiOutput, take_line, take_lines, handle_stdout,
  handle_chunks, without_return, dispatch, dispatch_id, safe_parse_worker_line, is_pending,
}

abbrev pub has_newline : List ℕ → Bool
has_newline units = any (λ c. c == 10) units

abbrev unfinished : List ℕ → Lines
unfinished r = record { found = []; rest = r }

-- The lines of a text, read one unit at a time, after the part of a line.
abbrev pub framed : List ℕ → List ℕ → Lines
framed part [] = record { found = []; rest = part }
framed part (c ∷ cs) = if c == 10 then add_line part (framed [] cs) else framed (part ++ c ∷ []) cs

abbrev split_framed : List ℕ → Option (List ℕ × List ℕ) → List ℕ → Lines
split_framed part none b = record { found = []; rest = part ++ b }
split_framed part (some (line, after)) b = add_line (part ++ line) (framed [] after)

extended :
    (part b : List ℕ) (c : ℕ) (o : Option (List ℕ × List ℕ))
    → split_framed (part ++ c ∷ []) o b ≡ split_framed part (extend_line c o) (c ∷ b)
extended part b c none = ap (λ r. unfinished r) (append_assoc part (c ∷ []) b)
extended part b c (some (line, after)) =
    ap (λ l. add_line l (framed [] after)) (append_assoc part (c ∷ []) line)

framed_split : (part b : List ℕ) → framed part b ≡ split_framed part (split_line b) b
framed_split part [] = ap (λ r. unfinished r) (sym (append-nil part))
framed_split part (c ∷ cs) = at_unit (c == 10) (framed_split (part ++ c ∷ []) cs)
  where
    at_unit :
        (newline : Bool)
        → framed (part ++ c ∷ []) cs ≡ split_framed (part ++ c ∷ []) (split_line cs) cs
        → (if newline then add_line part (framed [] cs) else framed (part ++ c ∷ []) cs)
          ≡ split_framed part
              (if newline then some ([], cs) else extend_line c (split_line cs))
              (c ∷ cs)
    at_unit true rest = ap (λ l. add_line l (framed [] cs)) (sym (append-nil part))
    at_unit false rest = rest ∙ extended part cs c (split_line cs)

abbrev IsShorter : Option (List ℕ × List ℕ) → ℕ → Type 0
IsShorter none n = Unit
IsShorter (some (line, after)) n = length after < n

extend_line-IsShorter :
    (c n : ℕ) (o : Option (List ℕ × List ℕ)) → IsShorter o n → IsShorter (extend_line c o) (suc n)
extend_line-IsShorter c n none h = tt
extend_line-IsShorter c n (some (line, after)) h = omega arith

split_line-IsShorter : (b : List ℕ) → IsShorter (split_line b) (length b)
split_line-IsShorter [] = tt
split_line-IsShorter (c ∷ cs) =
    if_cases (λ o. IsShorter o (suc (length cs))) (c == 10) (λ _. omega arith)
      (λ _. extend_line-IsShorter c (length cs) (split_line cs) (split_line-IsShorter cs))

-- Enough fuel for the loop.
pub lines-framed : (fuel : ℕ) (b : List ℕ) → length b < fuel → lines fuel b ≡ framed [] b
lines-framed zero b h = absurd (omega arith)
lines-framed (suc fuel) b h =
    loop (split_line b) (split_line-IsShorter b) (λ after l. lines-framed fuel after (omega arith))
    ∙ sym (framed_split [] b)
  where
    loop :
        (o : Option (List ℕ × List ℕ))
        → IsShorter o (length b)
        → ((after : List ℕ) → length after < length b → lines fuel after ≡ framed [] after)
        → elim o [
          | none ↦ record { found = []; rest = b }
          | some (line, after) ↦ add_line line (lines fuel after)
        ]
          ≡ split_framed [] o b
    loop none l rest = refl
    loop (some (line, after)) l rest = ap (add_line line) (rest after l)

pub framed-quiet :
    (part p ys : List ℕ) → has_newline p ≡ false → framed part (p ++ ys) ≡ framed (part ++ p) ys
framed-quiet part [] ys h = ap (λ q. framed q ys) (sym (append-nil part))
framed-quiet part (c ∷ cs) ys h =
    if_cases (λ q. q ≡ framed (part ++ c ∷ cs) ys) (c == 10) (λ e. absurd (ground arith))
      (λ e.
        framed-quiet (part ++ c ∷ []) cs ys (ground arith)
        ∙ ap (λ q. framed q ys) (append_assoc part (c ∷ []) cs))

has_newline-append :
    (xs ys : List ℕ)
    → has_newline xs ≡ false
    → has_newline ys ≡ false
    → has_newline (xs ++ ys) ≡ false
has_newline-append [] ys h k = k
has_newline-append (x ∷ xs) ys h k = let rest = has_newline-append xs ys in ground arith

pub framed-rest :
    (part b : List ℕ) → has_newline part ≡ false → has_newline (framed part b).rest ≡ false
framed-rest part [] h = h
framed-rest part (c ∷ cs) h =
    if_cases {A = Lines} (λ q. has_newline q.rest ≡ false) (c == 10) (λ _. framed-rest [] cs refl)
      (λ e. framed-rest (part ++ c ∷ []) cs (has_newline-append part (c ∷ []) h (ground arith)))

abbrev pub continued : Lines → List ℕ → Lines
continued q ys = record {
  found = q.found ++ (framed q.rest ys).found;
  rest = (framed q.rest ys).rest;
}

pub framed-append : (part xs ys : List ℕ) → framed part (xs ++ ys) ≡ continued (framed part xs) ys
framed-append part [] ys = refl
framed-append part (c ∷ cs) ys =
    at_unit (c == 10) (framed-append [] cs ys) (framed-append (part ++ c ∷ []) cs ys)
  where
    at_unit :
        (newline : Bool)
        → framed [] (cs ++ ys) ≡ continued (framed [] cs) ys
        → framed (part ++ c ∷ []) (cs ++ ys) ≡ continued (framed (part ++ c ∷ []) cs) ys
        → (if newline
            then add_line part (framed [] (cs ++ ys))
            else framed (part ++ c ∷ []) (cs ++ ys))
          ≡ continued
              (if newline then add_line part (framed [] cs) else framed (part ++ c ∷ []) cs)
              ys
    at_unit true fresh longer = ap (add_line part) fresh
    at_unit false fresh longer = longer

abbrev pub concat : List (List ℕ) → List ℕ
concat [] = []
concat (x ∷ xs) = x ++ concat xs

module _ (parse : List ℕ → Option Value) where
  -- What lines do besides the buffer.
  take_lines-append :
      (w : PiOutput) (xs ys : List (List ℕ))
      → take_lines parse w (xs ++ ys) ≡ take_lines parse (take_lines parse w xs) ys
  take_lines-append w [] ys = refl
  take_lines-append w (x ∷ xs) ys = take_lines-append (take_line parse w (without_return x)) xs ys

  abbrev with_buffer : PiOutput → List ℕ → PiOutput
  with_buffer w b = record w { buffer = b }

  if-buffer :
      (t : Bool) (x y x' y' : PiOutput) (b : List ℕ)
      → x' ≡ with_buffer x b
      → y' ≡ with_buffer y b
      → (if t then x' else y') ≡ with_buffer (if t then x else y) b
  if-buffer true x y x' y' b e f = e
  if-buffer false x y x' y' b e f = f

  dispatch_id-buffer :
      (w : PiOutput) (b : List ℕ) (parsed id : Value)
      → dispatch_id (with_buffer w b) parsed id ≡ with_buffer (dispatch_id w parsed id) b
  dispatch_id-buffer w b parsed (str id) = if-buffer (is_pending id w.pending) _ _ _ _ b refl refl
  dispatch_id-buffer w b parsed undefined = refl
  dispatch_id-buffer w b parsed null = refl
  dispatch_id-buffer w b parsed (bool _) = refl
  dispatch_id-buffer w b parsed (num _) = refl
  dispatch_id-buffer w b parsed (arr _) = refl
  dispatch_id-buffer w b parsed (obj _) = refl

  dispatch-buffer :
      (w : PiOutput) (b : List ℕ) (parsed : Option Value)
      → dispatch parse (with_buffer w b) parsed ≡ with_buffer (dispatch parse w parsed) b
  dispatch-buffer w b none = refl
  dispatch-buffer w b (some parsed) =
      if-buffer (is_text (get "type" parsed) "response") _ _ _ _ b
        (dispatch_id-buffer w b parsed (get "id" parsed)) refl

  take_line-buffer :
      (w : PiOutput) (b l : List ℕ)
      → take_line parse (with_buffer w b) l ≡ with_buffer (take_line parse w l) b
  take_line-buffer w b [] = refl
  take_line-buffer w b (c ∷ cs) =
      dispatch-buffer w b (safe_parse_worker_line parse (parse (c ∷ cs)))

  take_lines-buffer :
      (w : PiOutput) (b : List ℕ) (ls : List (List ℕ))
      → take_lines parse (with_buffer w b) ls ≡ with_buffer (take_lines parse w ls) b
  take_lines-buffer w b [] = refl
  take_lines-buffer w b (l ∷ ls) =
      ap (λ q. take_lines parse q ls) (take_line-buffer w b (without_return l))
      ∙ take_lines-buffer (take_line parse w (without_return l)) b ls

  abbrev applied : PiOutput → Lines → PiOutput
  applied w q = with_buffer (take_lines parse w q.found) q.rest

  handle_stdout-applied :
      (w : PiOutput) (chunk : List ℕ)
      → handle_stdout parse w chunk ≡ applied w (framed [] (w.buffer ++ chunk))
  unfolding handle_stdout
  handle_stdout-applied w chunk =
      let buffer = w.buffer ++ chunk in
      take_lines-buffer w (lines (length buffer + 1) buffer).rest
        (lines (length buffer + 1) buffer).found
      ∙ ap (applied w) (lines-framed (length buffer + 1) buffer (omega arith))

  two_chunks :
      (w : PiOutput) (a b : List ℕ)
      → handle_stdout parse (handle_stdout parse w a) b ≡ handle_stdout parse w (a ++ b)
  two_chunks w a b =
      let q = framed [] (w.buffer ++ a) in
      let w' = applied w q in
      ap (λ v. handle_stdout parse v b) (handle_stdout-applied w a)
      ∙ handle_stdout-applied w' b
      ∙ ap (applied w') (framed-quiet [] q.rest b (framed-rest [] (w.buffer ++ a) refl))
      ∙ ap (λ v. with_buffer v (framed q.rest b).rest)
          (take_lines-buffer (take_lines parse w q.found) q.rest (framed q.rest b).found)
      ∙ ap (λ v. with_buffer v (framed q.rest b).rest)
          (sym (take_lines-append w q.found (framed q.rest b).found))
      ∙ ap (applied w) (sym (framed-append [] (w.buffer ++ a) b))
      ∙ ap (λ t. applied w (framed [] t)) (append_assoc w.buffer a b)
      ∙ sym (handle_stdout-applied w (a ++ b))

  nothing_new : (w : PiOutput) → has_newline w.buffer ≡ false → w ≡ handle_stdout parse w []
  nothing_new w h =
      sym (handle_stdout-applied w [] ∙ ap (applied w) (framed-quiet [] w.buffer [] h))

  chunks_after :
      (w : PiOutput) (a : List ℕ) (chunks : List (List ℕ))
      → handle_chunks parse (handle_stdout parse w a) chunks
        ≡ handle_stdout parse w (a ++ concat chunks)
  unfolding handle_chunks
  chunks_after w a [] = ap (handle_stdout parse w) (sym (append-nil a))
  chunks_after w a (b ∷ chunks) =
      ap (λ v. handle_chunks parse v chunks) (two_chunks w a b)
      ∙ chunks_after w (a ++ b) chunks
      ∙ ap (handle_stdout parse w) (append_assoc a b (concat chunks))

  -- Output that comes in chunks has the effect of the same text at once: the same responses reach
  -- the same commands and the same events are emitted, in the same order, wherever the operating
  -- system cuts the text. The buffer is one that holds no complete line, as a new one does.
  pub handle_chunks-concat :
      (w : PiOutput) (chunks : List (List ℕ))
      → has_newline w.buffer ≡ false
      → handle_chunks parse w chunks ≡ handle_stdout parse w (concat chunks)
  unfolding handle_chunks
  handle_chunks-concat w [] h = nothing_new w h
  handle_chunks-concat w (a ∷ chunks) h = chunks_after w a chunks
