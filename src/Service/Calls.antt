-- ===== src/Service/Calls.antt =====
-- The calls of src/service/pi-threads-service.ts that start, send, change and abort, cut at their
-- awaits: where each call stands, and the state that they share.
use pi_threads.Base.{ℕ, String, Bool, List, [], ◌∷◌, ◌++◌, Option, none, some, if◌then◌else◌, ◌==◌}
use pi_threads.Value.{Value}
use pi_threads.Protocol.Errors.{DaemonError, Result, ok, err}
use pi_threads.Protocol.Events.{EventBody}
use pi_threads.Worker.{PooledWorker}
use pi_threads.Pool.State.{Pool, Job, set_worker}
use pi_threads.Service.Turns.{Turns}

-- What the calls read of a `SessionInfo`.
pub record Session : Type 0 where
  pub id : String
  pub cwd : String
  pub path : String

-- How `acquireSessionWorker` went up to its first wait: with the worker of the thread, which it has
-- retained, with an error, or with a call of the pool.
pub data Acquiring : Type 0 where
  retained : (worker : ℕ) → Acquiring
  refused : DaemonError → Acquiring
  queued : Acquiring

-- The await at which a call stands. `has_prompt` tells whether `threadStart` was given a prompt.
pub data Wait : Type 0 where
  send_waiting send_resolving : (thread : String) → Wait
  send_settled : Session → Wait
  send_acquiring : Session → (turn : String) → Acquiring → Wait
  send_configuring : Session → (turn : String) (worker : ℕ) → Wait
  start_acquiring : (cwd : String) (has_prompt : Bool) → Wait
  start_configuring : (cwd : String) (has_prompt : Bool) (worker : ℕ) → Wait
  mutation_waiting mutation_resolving : (thread : String) → Wait
  mutation_settled : Session → Wait
  mutation_acquiring : Session → Acquiring → Wait
  mutating : Session → (worker : ℕ) → Wait
  mutation_refreshing : Session → (worker : ℕ) (is_gone : Bool) → Result Value → Wait
  abort_commanding abort_settling : (thread turn : String) (worker : ℕ) → Wait

pub record Call : Type 0 where
  pub id : ℕ
  pub wait : Wait

-- `prompts` has the prompts that were submitted to workers, by their turns, and `promptless` the
-- turns for which `completePromptlessTurn` queued its microtask.
pub record Service : Type 0 where
  pub turns : Turns
  pub pool : Pool
  pub calls : List Call
  pub next_turn : ℕ
  pub prompts : List (String × ℕ)
  pub promptless : List (String × ℕ)
  pub answers : List (ℕ × Result Value)

-- The calls without the first one of an id.
pub record Taken : Type 0 where
  pub wait : Wait
  pub rest : List Call

abbrev pub keep : Call → Option Taken → Option Taken
keep c none = none
keep c (some t) = some (record { wait = t.wait; rest = c ∷ t.rest })

abbrev pub take_call : ℕ → List Call → Option Taken
take_call id [] = none
take_call id (c ∷ cs) =
    if c.id == id then some (record { wait = c.wait; rest = cs }) else keep c (take_call id cs)

-- A call goes on to its next await, or its promise settles.
abbrev pub wait_at : Service → ℕ → Wait → Service
wait_at q id wait = record q { calls = record { id = id; wait = wait } ∷ q.calls }

abbrev pub answer : Service → ℕ → Result Value → Service
answer q id r = record q { answers = q.answers ++ (id, r) ∷ [] }

abbrev pub emit : Service → EventBody → Service
emit q event = record q {
  turns = let t = q.turns in record t { emitted = t.emitted ++ event ∷ [] };
}

abbrev pub worker_of : Service → ℕ → PooledWorker
worker_of q w = let p = q.pool in p.objects w

-- An assignment to fields of a worker.
abbrev pub assign : Service → ℕ → PooledWorker → Service
assign q w worker = record q { pool = set_worker q.pool w worker }

abbrev pub enqueue : Service → Job → Service
enqueue q job = record q {
  pool = let p = q.pool in record p { lifecycle = p.lifecycle ++ job ∷ [] };
}

-- What the pool has answered to a call.
abbrev pub answer_in : ℕ → List (ℕ × Result ℕ) → Option (Result ℕ)
answer_in id [] = none
answer_in id ((call, r) ∷ rest) = if call == id then some r else answer_in id rest

-- How `acquireSessionWorker` ends, once it does.
abbrev pub acquired : Service → ℕ → Acquiring → Option (Result ℕ)
acquired q id (retained w) = some (ok w)
acquired q id (refused error) = some (err error)
acquired q id queued = let p = q.pool in answer_in id p.answers
