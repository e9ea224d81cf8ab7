-- ===== src/Worker/Commands/Tests.antt =====
-- Runs of the commands of a worker, and the instance of their theorem.
use pi_threads.Base.{◌≡◌, refl, true, List, [], ◌∷◌, length, arith}
use pi_threads.Value.{Value, bool, str, obj, prop, end, is_record}
use pi_threads.Protocol.Errors.{ok}
use pi_threads.Worker.{idle}
use pi_threads.Worker.Commands.{
  PiRpcWorker, validate_command, execute_command, command, start_next, respond, Step, calls, starts,
  responds, step, run,
}
use pi_threads.Worker.Commands.Serial.{IsSerial, run-IsSerial}

abbrev new_worker : PiRpcWorker
new_worker = record {
  state = idle;
  has_child = true;
  command_count = 0;
  next_command_id = 1;
  queue = [];
  pending = [];
  written = [];
  answers = [];
}

abbrev get_state : Value
get_state = obj (prop "type" (str "get_state") end)

abbrev abort : Value
abort = obj (prop "type" (str "abort") end)

abbrev success : Value
success = obj (prop "success" (bool true) end)

-- Two commands, of which the second waits, and an abort, which does not.
abbrev steps : List Step
steps =
    calls 1 get_state
    ∷ starts
    ∷ calls 2 get_state
    ∷ starts
    ∷ calls 3 abort
    ∷ responds 1 success
    ∷ starts
    ∷ []

three_calls :
    (length (run new_worker steps).pending ≡ 2)
    × ((run new_worker steps).queue ≡ [])
    × ((run new_worker steps).answers ≡ (1, ok success) ∷ [])
unfolding run step command validate_command execute_command start_next respond is_record
three_calls = (refl, refl, refl)

new_worker-IsSerial : IsSerial [] new_worker
new_worker-IsSerial = record { settled = λ k. refl; counted = refl; serial = omega arith }

run-IsSerial_example : IsSerial (3 ∷ 2 ∷ 1 ∷ []) (run new_worker steps)
run-IsSerial_example = run-IsSerial [] new_worker steps new_worker-IsSerial
