-- ===== src/Worker/Output.antt =====
-- src/worker/pi-rpc-worker.ts: handleStdout and safeParseWorkerLine. A text is the list of its code
-- units; the same loop splits the lines in src/transport/json-rpc-router.ts and
-- src/client/socket-client.ts.
pub mod Chunks
mod Tests
use mathlib.Core.List.{append_assoc, append-nil}
use pi_threads.Base.{
  ℕ, zero, suc, ◌+◌, ◌≤◌, ◌<◌, ◌≡◌, refl, sym, ap, ◌∙◌, String, Bool, true, false, not, ◌&&◌, List,
  [], ◌∷◌, ◌++◌, Option, none, some, if◌then◌else◌, ◌==◌, str_eq, length, filter, any, arith,
  if_cases, length-append, Option-cases, ◌⊎◌, inl, inr,
}
use pi_threads.Value.{Value, str, undefined, get, is_record, is_text}

-- The lines that are complete, and what is left in the buffer.
pub record Lines : Type 0 where
  pub found : List (List ℕ)
  pub rest : List ℕ

abbrev pub add_line : List ℕ → Lines → Lines
add_line line q = record { found = line ∷ q.found; rest = q.rest }

abbrev pub extend_line : ℕ → Option (List ℕ × List ℕ) → Option (List ℕ × List ℕ)
extend_line c none = none
extend_line c (some (line, after)) = some (c ∷ line, after)

-- `indexOf("\n")` with the two slices around it.
abbrev pub split_line : List ℕ → Option (List ℕ × List ℕ)
split_line [] = none
split_line (c ∷ cs) = if c == 10 then some ([], cs) else extend_line c (split_line cs)

-- The loop of `handleStdout` over its buffer.
abbrev pub lines : ℕ → List ℕ → Lines
lines zero buffer = record { found = []; rest = buffer }
lines (suc fuel) buffer = elim (split_line buffer) [
  | none ↦ record { found = []; rest = buffer }
  | some (line, after) ↦ add_line line (lines fuel after)
]

-- `replace(/\r$/, "")`
abbrev pub without_return : List ℕ → List ℕ
without_return [] = []
without_return (c ∷ []) = if c == 13 then [] else c ∷ []
without_return (c ∷ d ∷ ds) = c ∷ without_return (d ∷ ds)

-- The fields that the output of the process changes: `resolved` has the responses that pending
-- commands got, by their ids, and `events` what was emitted.
pub record PiOutput : Type 0 where
  pub buffer : List ℕ
  pub pending : List String
  pub resolved : List (String × Value)
  pub events : List Value

abbrev pub is_pending : String → List String → Bool
is_pending id pending = any (λ p. str_eq p id) pending

abbrev pub answer : PiOutput → String → Value → PiOutput
answer w id response =
    if is_pending id w.pending
    then record w {
      pending = filter (λ p. not (str_eq p id)) w.pending;
      resolved = w.resolved ++ (id, response) ∷ [];
    }
    else w

abbrev pub emit_event : PiOutput → Value → PiOutput
emit_event w event = record w { events = w.events ++ event ∷ [] }

abbrev pub dispatch_id : PiOutput → Value → Value → PiOutput
dispatch_id w parsed (str id) = answer w id parsed
dispatch_id w parsed _ = emit_event w parsed

-- `parse` is `JSON.parse`, with none for a throw.
module _ (parse : List ℕ → Option Value) where
  abbrev pub safe_parse_worker_line : Option Value → Option Value
  safe_parse_worker_line none = none
  safe_parse_worker_line (some v) = if is_record v then some v else none

  abbrev pub dispatch : PiOutput → Option Value → PiOutput
  dispatch w none = w
  dispatch w (some parsed) =
      if is_text (get "type" parsed) "response"
      then dispatch_id w parsed (get "id" parsed)
      else emit_event w parsed

  -- One round of the loop, for a line without its end.
  abbrev pub take_line : PiOutput → List ℕ → PiOutput
  take_line w [] = w
  take_line w (c ∷ cs) = dispatch w (safe_parse_worker_line (parse (c ∷ cs)))

  abbrev pub take_lines : PiOutput → List (List ℕ) → PiOutput
  take_lines w [] = w
  take_lines w (l ∷ ls) = take_lines (take_line w (without_return l)) ls

  unfoldable pub handle_stdout : PiOutput → List ℕ → PiOutput
  handle_stdout w chunk =
      let buffer = w.buffer ++ chunk in
      let split = lines (length buffer + 1) buffer in
      take_lines (record w { buffer = split.rest }) split.found

  unfoldable pub handle_chunks : PiOutput → List (List ℕ) → PiOutput
  handle_chunks w [] = w
  handle_chunks w (chunk ∷ chunks) = handle_chunks (handle_stdout w chunk) chunks
