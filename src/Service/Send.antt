-- ===== src/Service/Send.antt =====
-- threadSend, threadStart and threadAbort of src/service/pi-threads-service.ts, between their awaits.
use pi_threads.Base.{
  ℕ, ◌+◌, String, Bool, true, false, not, ◌&&◌, ◌||◌, [], ◌∷◌, ◌++◌, Option, none, some,
  if◌then◌else◌, str_eq, same_text, is_truthy,
}
use pi_threads.Value.{Value, str, num, obj, prop, end, get}
use pi_threads.Protocol.Errors.{DaemonError, Result, ok, err, busy, not_found}
use pi_threads.Protocol.Events.{EventBody, turn_accepted, turn_aborted}
use pi_threads.Worker.{running}
use pi_threads.Pool.State.{Pool, Env, acquire_session}
use pi_threads.Pool.Reserve.{find_by_thread, retain, release, read}
use pi_threads.Service.Threads.{is_running_state}
use pi_threads.Service.Turns.{ActiveTurn, Turns, is_some, set_turn, reserve_turn, is_turn}
use pi_threads.Service.Calls.{
  Session, Acquiring, retained, refused, queued, send_acquiring, abort_commanding, abort_settling,
  Service, wait_at, answer, emit, worker_of, assign, enqueue,
}

-- The catalog's part in the checks of a thread: what `assertUnchanged` throws, and `isPersisted`.
pub record Checks : Type 0 where
  pub changed : Option DaemonError
  pub is_persisted : Bool

abbrev busy_error : DaemonError
busy_error = record { code = busy; message = "Thread already has active daemon work" }

-- `assertResumable`
abbrev pub resumable : Service → Bool → String → Option DaemonError
resumable q is_persisted thread =
    if not (is_some (find_by_thread q.pool thread)) && not is_persisted
    then some (record {
      code = not_found;
      message = "Thread has no saved session and its worker is unavailable";
    })
    else none

abbrev pub retained_or : Service → ℕ → Result Pool → Service × Acquiring
retained_or q w (ok p) = (record q { pool = p }, retained w)
retained_or q w (err error) = (q, refused error)

abbrev pub acquire_found : Service → ℕ → Session → Option ℕ → Service × Acquiring
acquire_found q id s none = (enqueue q (acquire_session id s.id s.cwd s.path), queued)
acquire_found q id s (some w) =
    if not (str_eq (worker_of q w).cwd s.cwd)
    then (enqueue q (acquire_session id s.id s.cwd s.path), queued)
    else if is_truthy (worker_of q w).active_turn_id || is_running_state (worker_of q w).state
    then (q, refused busy_error)
    else retained_or q w (retain q.pool w)

-- `acquireSessionWorker` up to its first wait.
unfoldable pub acquire_session_worker : Service → ℕ → Session → Service × Acquiring
acquire_session_worker q id s = acquire_found q id s (find_by_thread q.pool s.id)

abbrev give_back : Env → Service → ℕ → Service
give_back env q w = record q { pool = release env q.pool w none }

abbrev accepted_event : String → String → ℕ → Value → EventBody
accepted_event thread turn w payload = record {
  type = turn_accepted;
  thread_id = some thread;
  turn_id = some turn;
  worker_id = some w;
  payload = payload;
}

abbrev pub accepted : String → String → ℕ → Value
accepted thread turn w = obj (
    prop "threadId" (str thread)
      (prop "turnId" (str turn) (prop "workerId" (num w) (prop "status" (str "accepted") end))))

abbrev pub running_turn : String → ℕ → ActiveTurn
running_turn turn w = record { turn_id = turn; worker_id = some w; has_agent_run = false }

abbrev pub set_active : Service → String → Option ActiveTurn → Service
set_active q thread a = record q { turns = set_turn q.turns thread a }

-- A turn is accepted: its entry, its event and the answer of its call.
abbrev pub accept_turn : Service → ℕ → String → String → ℕ → Value → Service
accept_turn q id thread turn w payload =
    answer
      (emit (set_active q thread (some (running_turn turn w)))
        (accepted_event thread turn w payload))
      id (ok (accepted thread turn w))

abbrev submit_prompt : Service → String → ℕ → Service
submit_prompt q turn w = record q { prompts = q.prompts ++ (turn, w) ∷ [] }

-- `turn_name` gives the random names of turns, `string_of` is `String`, and `preview` the payload of an
-- accepted event.
module _ (turn_name : ℕ → String) (string_of : Value → String) (preview : Value) where
  abbrev pub reserved_send : Service → ℕ → Session → String → Result Turns → Service
  reserved_send q id s turn (err error) = answer q id (err error)
  reserved_send q id s turn (ok t) =
      let next =
        acquire_session_worker (record q { turns = t; next_turn = q.next_turn + 1 }) id s in
      wait_at next.0 id (send_acquiring s turn next.1)

  abbrev pub checked_send :
      Service → ℕ → Session → Option DaemonError → Option DaemonError → Service
  checked_send q id s (some error) _ = answer q id (err error)
  checked_send q id s none (some error) = answer q id (err error)
  checked_send q id s none none =
      let turn = turn_name q.next_turn in reserved_send q id s turn (reserve_turn q.turns s.id turn)

  -- `threadSend` from the checks of its session to the call that gets a worker.
  unfoldable pub admit_send : Service → ℕ → Session → Checks → Service
  admit_send q id s checks =
      checked_send q id s checks.changed (resumable q checks.is_persisted s.id)

  -- The `catch` of `threadSend`, before and after it has a worker.
  unfoldable pub fail_send : Service → ℕ → Session → DaemonError → Service
  fail_send q id s error = answer (set_active q s.id none) id (err error)

  unfoldable pub fail_configured : Env → Service → ℕ → Session → ℕ → DaemonError → Service
  fail_configured env q id s w error =
      answer (give_back env (set_active q s.id none) w) id (err error)

  -- `threadSend` once the settings are applied.
  unfoldable pub accept_send : Service → ℕ → Session → String → ℕ → Service
  accept_send q id s turn w =
      accept_turn
        (submit_prompt
          (assign q w (record (worker_of q w) {
            active_turn_id = some turn;
            thread_id = some s.id;
            state = running;
          }))
          turn w)
        id s.id turn w preview

  abbrev begin_prompt : Service → Bool → String → ℕ → Service
  begin_prompt q true turn w =
      submit_prompt (assign q w (record (worker_of q w) { state = running })) turn w
  begin_prompt q false turn w = record q { promptless = q.promptless ++ (turn, w) ∷ [] }

  -- `threadStart` with the last state of the worker, in the order of its assignments.
  unfoldable pub accept_start : Service → ℕ → Bool → ℕ → Value → Service
  accept_start q id has_prompt w state =
      let thread = string_of (get "sessionId" state) in
      let turn = turn_name q.next_turn in
      begin_prompt
        (accept_turn
          (assign (record q { next_turn = q.next_turn + 1 }) w
            (record (worker_of q w) { thread_id = some thread; active_turn_id = some turn }))
          id thread turn w preview)
        has_prompt turn w

  unfoldable pub fail_start : Env → Service → ℕ → ℕ → DaemonError → Service
  fail_start env q id w error =
      answer (give_back env (assign q w (record (worker_of q w) { active_turn_id = none })) w) id
        (err error)

-- `requireActive`
abbrev pub require_active : Option ActiveTurn → Result (String × ℕ)
require_active none =
    err (record { code = busy; message = "Thread does not have a running daemon turn" })
require_active (some a) = elim a.worker_id [
  | none ↦ err (record { code = busy; message = "Thread does not have a running daemon turn" })
  | some w ↦ ok (a.turn_id, w)
]

abbrev pub abort_read : Service → ℕ → String → String → ℕ → Result ℕ → Service
abort_read q id thread turn w (err error) = answer q id (err error)
abort_read q id thread turn w (ok _) =
    wait_at (assign q w (record (worker_of q w) { aborting_turn_id = some turn })) id
      (abort_commanding thread turn w)

abbrev pub abort_active : Service → ℕ → String → Result (String × ℕ) → Service
abort_active q id thread (err error) = answer q id (err error)
abort_active q id thread (ok (turn, w)) = abort_read q id thread turn w (read q.pool w)

-- `threadAbort` up to its command.
unfoldable pub begin_abort : Service → ℕ → String → Service
begin_abort q id thread =
    abort_active q id thread (require_active (let t = q.turns in t.active_turns thread))

abbrev aborted_event : String → String → ℕ → EventBody
aborted_event thread turn w = record {
  type = turn_aborted;
  thread_id = some thread;
  turn_id = some turn;
  worker_id = some w;
  payload = obj (prop "reason" (str "client") (prop "finalState" (str "aborted") end));
}

-- The command was answered: the turn is reported as aborted if it is still the active one.
unfoldable pub report_abort : Service → ℕ → String → String → ℕ → Service
report_abort q id thread turn w =
    wait_at
      (if is_turn (let t = q.turns in t.active_turns thread) turn
        then emit q (aborted_event thread turn w)
        else q)
      id (abort_settling thread turn w)

-- The `finally` of `threadAbort`.
unfoldable pub end_abort : Service → ℕ → String → ℕ → Result Value → Service
end_abort q id turn w r =
    answer
      (if same_text (worker_of q w).aborting_turn_id (some turn)
        then assign q w (record (worker_of q w) { aborting_turn_id = none })
        else q)
      id r
