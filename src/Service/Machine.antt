-- ===== src/Service/Machine.antt =====
-- The service as a machine: its callers, its promises, the events of the bus and what happens in its
-- pool come in any order. Waits for the cleanup of an earlier turn may end at any time.
use pi_threads.Base.{ℕ, String, Bool, true, false, List, [], ◌∷◌, Option, none, some}
use pi_threads.Value.{Value, str, obj, prop, end}
use pi_threads.Protocol.Errors.{DaemonError, Result, ok, err}
use pi_threads.Protocol.Events.{EventBody}
use pi_threads.Worker.{PooledWorker}
use pi_threads.Pool.State.{WorkerPoolOptions, Env, acquire_new, set_worker}
use pi_threads.Pool.Reserve.{find_by_thread}
use pi_threads.Pool.Inputs.{Input as PoolInput, step as pool_step}
use pi_threads.Service.Turns.{
  Turns, handle_daemon_event, answer_prompt, fail_turn, complete_promptless_turn,
}
use pi_threads.Service.Calls.{
  Session, Acquiring, Wait, send_waiting, send_resolving, send_settled, send_acquiring,
  send_configuring, start_acquiring, start_configuring, mutation_waiting, mutation_resolving,
  mutation_settled, mutation_acquiring, mutating, mutation_refreshing, abort_commanding,
  abort_settling, Service, Taken, take_call, wait_at, answer, worker_of, acquired, enqueue, queued,
}
use pi_threads.Service.Send.{
  Checks, admit_send, fail_send, fail_configured, accept_send, accept_start, fail_start,
  begin_abort, report_abort, end_abort,
}
use pi_threads.Service.Mutation.{
  admit_mutation, begin_mutate, fail_mutation, end_mutate, begin_refresh, refresh_mutated,
  report_refresh,
}

-- How a promise settles: with nothing, with the session that the catalog found, with nothing and what
-- the catalog says of the session then, with a value, or with an error.
pub data Outcome : Type 0 where
  passes : Outcome
  resolves : Session → Outcome
  checks_out : Checks → Outcome
  answers : Value → Outcome
  fails : DaemonError → Outcome

pub data Input : Type 0 where
  calls_send calls_mutation calls_abort : (call : ℕ) (thread : String) → Input
  calls_start : (call : ℕ) (cwd : String) (has_prompt : Bool) → Input
  settles : (call : ℕ) → Outcome → Input
  delivers : EventBody → Input
  prompt_answers prompt_fails : (thread turn : String) (worker : ℕ) (text : String) → Input
  promptless_runs : (thread turn : String) (worker : ℕ) → Input
  shuts_down : Input
  pool_moves : PoolInput → Input

abbrev set_turns : Service → Turns → Service
set_turns q t = record q { turns = t }

abbrev pub found_worker : Service → Option ℕ → Option PooledWorker
found_worker q none = none
found_worker q (some w) = some (worker_of q w)

abbrev pub handled_worker : Service → Option ℕ → Option PooledWorker → Service
handled_worker q (some w) (some worker) = record q { pool = set_worker q.pool w worker }
handled_worker q _ _ = q

abbrev pub thread_worker : Service → Option String → Option ℕ
thread_worker q none = none
thread_worker q (some thread) = find_by_thread q.pool thread

-- The listener of the bus: `handleDaemonEvent` with the worker that serves the thread.
unfoldable pub deliver : Service → EventBody → Service
deliver q event =
    let found = thread_worker q event.thread_id in
    let h = handle_daemon_event q.turns (found_worker q found) event in
    handled_worker (set_turns q h.turns) found h.worker

module _ (turn_name : ℕ → String) (string_of : Value → String) (preview : Value) where
  -- A call that waits for a worker, when `acquireSessionWorker` has ended.
  abbrev pub send_acquired :
      Service → ℕ → Session → String → Option (Result ℕ) → Acquiring → Service
  send_acquired q id s turn none a = wait_at q id (send_acquiring s turn a)
  send_acquired q id s turn (some (err error)) a =
      fail_send turn_name string_of preview q id s error
  send_acquired q id s turn (some (ok w)) a = wait_at q id (send_configuring s turn w)

  abbrev pub mutation_acquired : Service → ℕ → Session → Option (Result ℕ) → Acquiring → Service
  mutation_acquired q id s none a = wait_at q id (mutation_acquiring s a)
  mutation_acquired q id s (some (err error)) a = fail_mutation q id s error
  mutation_acquired q id s (some (ok w)) a = begin_mutate q id s w

  abbrev pub start_acquired : Service → ℕ → String → Bool → Option (Result ℕ) → Service
  start_acquired q id cwd p none = wait_at q id (start_acquiring cwd p)
  start_acquired q id cwd p (some (err error)) = answer q id (err error)
  start_acquired q id cwd p (some (ok w)) = wait_at q id (start_configuring cwd p w)

  abbrev aborted : String → String → Value
  aborted thread turn =
      obj (
        prop "threadId" (str thread) (prop "turnId" (str turn) (prop "status" (str "aborted") end)))

  -- A call goes on when its promise settles; an outcome of another kind does not occur.
  unfoldable pub resume : Env → Service → ℕ → Wait → Outcome → Service
  resume env q id (send_waiting thread) passes = wait_at q id (send_resolving thread)
  resume env q id (send_waiting thread) (fails error) = answer q id (err error)
  resume env q id (send_resolving thread) (resolves s) = wait_at q id (send_settled s)
  resume env q id (send_resolving thread) (fails error) = answer q id (err error)
  resume env q id (send_settled s) (checks_out checks) =
      admit_send turn_name string_of preview q id s checks
  resume env q id (send_settled s) (fails error) = answer q id (err error)
  resume env q id (send_acquiring s turn a) passes = send_acquired q id s turn (acquired q id a) a
  resume env q id (send_configuring s turn w) passes =
      accept_send turn_name string_of preview q id s turn w
  resume env q id (send_configuring s turn w) (fails error) =
      fail_configured turn_name string_of preview env q id s w error
  resume env q id (start_acquiring cwd p) passes = start_acquired q id cwd p (acquired q id queued)
  resume env q id (start_configuring cwd p w) (answers state) =
      accept_start turn_name string_of preview q id p w state
  resume env q id (start_configuring cwd p w) (fails error) =
      fail_start turn_name string_of preview env q id w error
  resume env q id (mutation_waiting thread) passes = wait_at q id (mutation_resolving thread)
  resume env q id (mutation_waiting thread) (fails error) = answer q id (err error)
  resume env q id (mutation_resolving thread) (resolves s) = wait_at q id (mutation_settled s)
  resume env q id (mutation_resolving thread) (fails error) = answer q id (err error)
  resume env q id (mutation_settled s) (checks_out checks) = admit_mutation q id s checks
  resume env q id (mutation_settled s) (fails error) = answer q id (err error)
  resume env q id (mutation_acquiring s a) passes = mutation_acquired q id s (acquired q id a) a
  resume env q id (mutating s w) (answers v) = begin_refresh q id s w (ok v)
  resume env q id (mutating s w) (fails error) = begin_refresh q id s w (err error)
  resume env q id (mutation_refreshing s w true r) passes = end_mutate env q id s w r
  resume env q id (mutation_refreshing s w false r) (answers state) =
      end_mutate env (refresh_mutated string_of q s w state) id s w r
  resume env q id (mutation_refreshing s w gone r) (fails error) =
      end_mutate env (report_refresh q s w error) id s w r
  resume env q id (abort_commanding thread turn w) passes = report_abort q id thread turn w
  resume env q id (abort_commanding thread turn w) (fails error) = end_abort q id turn w (err error)
  resume env q id (abort_settling thread turn w) passes =
      end_abort q id turn w (ok (aborted thread turn))
  resume env q id (abort_settling thread turn w) (fails error) = end_abort q id turn w (err error)
  resume env q id wait _ = wait_at q id wait

  abbrev pub resume_taken : Env → Service → ℕ → Outcome → Option Taken → Service
  resume_taken env q id o none = q
  resume_taken env q id o (some t) = resume env (record q { calls = t.rest }) id t.wait o

  unfoldable pub step : WorkerPoolOptions → Env → Service → Input → Service
  step o env q (calls_send id thread) = wait_at q id (send_waiting thread)
  step o env q (calls_mutation id thread) = wait_at q id (mutation_waiting thread)
  step o env q (calls_abort id thread) = begin_abort q id thread
  step o env q (calls_start id cwd p) =
      wait_at (enqueue q (acquire_new id cwd)) id (start_acquiring cwd p)
  step o env q (settles id outcome) = resume_taken env q id outcome (take_call id q.calls)
  step o env q (delivers event) = deliver q event
  step o env q (prompt_answers thread turn w disposition) =
      set_turns q (answer_prompt q.turns thread turn w disposition)
  step o env q (prompt_fails thread turn w message) =
      set_turns q (fail_turn q.turns thread turn w message)
  step o env q (promptless_runs thread turn w) =
      set_turns q (complete_promptless_turn q.turns thread turn w)
  step o env q shuts_down = set_turns q (let t = q.turns in record t { shutting_down = true })
  step o env q (pool_moves input) = record q { pool = pool_step o env q.pool input }

  unfoldable pub run : WorkerPoolOptions → Service → List (Env × Input) → Service
  run o q [] = q
  run o q ((env, input) ∷ rest) = run o (step o env q input) rest
