-- ===== src/Worker/Output/Tests.antt =====
-- Instances of the theorems about the output of a worker process.
use pi_threads.Base.{ℕ, ◌≡◌, refl, List, [], ◌∷◌, Option, none, some}
use pi_threads.Value.{Value, obj, prop, end, str, is_record}
use pi_threads.Worker.Output.{PiOutput, handle_stdout, handle_chunks}
use pi_threads.Worker.Output.Chunks.{handle_chunks-concat}

abbrev response : Value
response = obj (prop "type" (str "response") (prop "id" (str "c1") end))

-- Every text of one unit reads as the response.
abbrev parse : List ℕ → Option Value
parse (c ∷ []) = some response
parse _ = none

abbrev waiting : PiOutput
waiting = record { buffer = []; pending = "c1" ∷ []; resolved = []; events = [] }

-- A line, its end in the next chunk with the start of another.
handle_chunks-concat_example :
    handle_chunks parse waiting ((97 ∷ 13 ∷ []) ∷ (10 ∷ 98 ∷ []) ∷ [])
    ≡ record { buffer = 98 ∷ []; pending = []; resolved = ("c1", response) ∷ []; events = [] }
unfolding handle_stdout is_record
handle_chunks-concat_example =
    handle_chunks-concat parse waiting ((97 ∷ 13 ∷ []) ∷ (10 ∷ 98 ∷ []) ∷ []) refl
