-- ===== src/Client/Tests.antt =====
-- Two requests, of which one is answered before the client closes.
use pi_threads.Base.{
  times, map, ℕ, ◌+◌, ◌≡◌, ◌⊎◌, refl, inl, String, true, false, List, [], ◌∷◌, none, some,
  if◌then◌else◌, ◌==◌, arith,
}
use pi_threads.Value.{Value, num, str, obj, prop, end, is_record}
use pi_threads.Client.Socket.{
  new_client, resolved, rejected, calls_of, Input, requests, proceeds, opens, closes, receives, run,
  step, request, handle_line, handle_close,
}
use pi_threads.Client.Socket.Accounted.{answered, requested, is_empty, IsAccounted, run-accounted}
use pi_threads.Transport.Sse.{encode_sse}
use pi_threads.Worker.Output.Chunks.{concat}
use pi_threads.Client.Sse.{SseFrame, new_reader, read_sse}
use pi_threads.Client.Sse.Whole.{frame_text, received, between, read_sse-encode_sse}

abbrev show : ℕ → String
show n = if n == 1 then "1" else "2"

abbrev text_of : Value → String
text_of (str s) = s
text_of _ = "undefined"

inputs : List Input
inputs =
    requests 7
    ∷ requests 8
    ∷ opens
    ∷ proceeds 7 none
    ∷ proceeds 8 none
    ∷ receives (some (obj (prop "id" (str "2") (prop "result" (num 5) end))))
    ∷ closes
    ∷ []

replies :
    (run show text_of new_client inputs).replies
    ≡ (8, resolved (num 5)) ∷ (7, rejected "workerCrashed" "Daemon connection closed") ∷ []
unfolding inputs run step request handle_line handle_close is_record
replies = refl

new_client-IsAccounted : IsAccounted [] new_client
new_client-IsAccounted = record { counted = λ k. omega arith; emptied = inl refl }

run-accounted_example :
    let c = run show text_of new_client inputs in
    (times 7 (requested inputs)
      ≡ times 7 (answered c.replies) + times 7 c.waiting + times 7 (calls_of c.pending))
    × ((c.closed ≡ false) ⊎ (is_empty c.pending ≡ true))
run-accounted_example = run-accounted show text_of new_client inputs 7 new_client-IsAccounted

-- Two frames, one with an id.
abbrev first : SseFrame
first = record { event = 101 ∷ []; text = 123 ∷ 125 ∷ []; id = some (49 ∷ []) }

abbrev second : SseFrame
second = record { event = 102 ∷ []; text = 32 ∷ 58 ∷ []; id = none }

-- The same text, cut inside the first line.
abbrev cut : List (List ℕ)
cut = elim (concat (map frame_text (first ∷ second ∷ []))) [
  | [] ↦ []
  | c ∷ [] ↦ (c ∷ []) ∷ []
  | c ∷ d ∷ cs ↦ (c ∷ d ∷ []) ∷ cs ∷ []
]

read_sse-encode_sse_example : read_sse new_reader cut ≡ between (map received (first ∷ second ∷ []))
unfolding encode_sse
read_sse-encode_sse_example =
    read_sse-encode_sse (first ∷ second ∷ []) cut
      ((refl, refl, refl, refl), ((refl, refl, refl, refl), tt)) refl
