-- ===== src/Pool/State.antt =====
-- The state of `WorkerPool`: its fields, the worker objects, the operation that holds its lifecycle
-- lock with the place where it waits, and the operations queued behind it.
use pi_threads.Base.{
  ℕ, String, Bool, true, false, not, List, [], ◌∷◌, ◌++◌, none, filter, if◌then◌else◌, ◌==◌,
}
use pi_threads.Protocol.Errors.{DaemonError, Result}
use pi_threads.Protocol.Events.{EventBody}
use pi_threads.Worker.{PooledWorker, starting}

-- `reuse_across_threads` is `reuseAcrossThreads !== false`, `prewarm_cwd` is
-- `prewarmCwd ?? process.cwd()`.
pub record WorkerPoolOptions : Type 0 where
  pub min_workers : ℕ
  pub max_workers : ℕ
  pub idle_ttl_ms : ℕ
  pub reuse_across_threads : Bool
  pub prewarm_cwd : String

-- What a step reads of the outside: the clock, and the answer of the callback `canReclaim`.
pub record Env : Type 0 where
  pub now : ℕ
  pub can_reclaim : PooledWorker → Bool

-- Which call of the pool an operation answers; a recovery has no caller.
pub data Origin : Type 0 where
  start : ℕ → Origin
  recovery : Origin

-- For what a worker is selected or spawned.
pub data Purpose : Type 0 where
  for_new : (call : ℕ) → Purpose
  for_session : (call : ℕ) (thread_id session_path : String) → Purpose
  for_minimum : Origin → Purpose

-- An operation given to `withLifecycle`.
pub data Job : Type 0 where
  maintain : Origin → Job
  acquire_new : (call : ℕ) (cwd : String) → Job
  acquire_session : (call : ℕ) (thread_id cwd session_path : String) → Job
  reap : Job
  stop_workers : (call : ℕ) → Job

-- The `await` at which the running operation stands.
pub data Wait : Type 0 where
  idle_lock : Wait
  retiring_assigned : (worker call : ℕ) (thread_id cwd session_path : String) → Wait
  retiring_victim : (worker : ℕ) (cwd : String) (purpose : Purpose) → Wait
  starting_worker : (worker : ℕ) (cwd : String) (purpose : Purpose) → Wait
  discarding : (worker : ℕ) (error : DaemonError) (purpose : Purpose) → Wait
  delivered : (worker : ℕ) (purpose : Purpose) → Wait
  switching : (worker call : ℕ) (thread_id session_path : String) → Wait
  reading_state : (worker call : ℕ) (thread_id session_path : String) → Wait
  retiring_failed : (worker : ℕ) (error : DaemonError) (call : ℕ) → Wait
  reaping : (worker : ℕ) (rest : List ℕ) → Wait
  stopping : (call : ℕ) → Wait

-- The map `workers` is the list of its keys in the order of insertion. Objects are found by the
-- number in their id, which `nextWorkerId` makes unique; a worker that left the map is still there
-- for those that hold it. `answers` and `emitted` are what the pool has given to the outside.
pub record Pool : Type 0 where
  pub workers : List ℕ
  pub objects : ℕ → PooledWorker
  pub reservations : ℕ → ℕ
  pub claimed : ℕ → Bool
  pub retiring : ℕ → Bool
  pub next_worker_id : ℕ
  pub is_stopped : Bool
  pub reaper : Bool
  pub recovery_timer : Bool
  pub recovery_delay_ms : ℕ
  pub lifecycle : List Job
  pub running : Wait
  pub emitted : List EventBody
  pub answers : List (ℕ × Result ℕ)

abbrev pub update {ℓ} : {A : Type ℓ} → (ℕ → A) → ℕ → A → ℕ → A
update f k v j = if k == j then v else f j

abbrev pub mem : ℕ → List ℕ → Bool
mem k [] = false
mem k (x ∷ xs) = if x == k then true else mem k xs

-- `Map.prototype.delete` on the keys.
abbrev pub remove : ℕ → List ℕ → List ℕ
remove k = filter (λ x. not (x == k))

abbrev pub emit : Pool → EventBody → Pool
emit p event = record p { emitted = p.emitted ++ event ∷ [] }

-- An assignment to fields of the object `worker`.
abbrev pub set_worker : Pool → ℕ → PooledWorker → Pool
set_worker p worker w = record p { objects = update p.objects worker w }

abbrev pub answer : Pool → ℕ → Result ℕ → Pool
answer p call result = record p { running = idle_lock; answers = p.answers ++ (call, result) ∷ [] }

unfoldable pub delete_worker : Pool → ℕ → Pool
delete_worker p worker = record p { workers = remove worker p.workers }

-- No object has a number that was not given out yet.
abbrev no_worker : PooledWorker
no_worker = record {
  worker_id = 0;
  cwd = "";
  started_at = 0;
  version = none;
  state = starting;
  thread_id = none;
  active_turn_id = none;
  aborting_turn_id = none;
  last_used_at = 0;
  pid = none;
  pending_command_count = 0;
  settled = none;
}

-- The constructor.
abbrev pub new_pool : Pool
new_pool = record {
  workers = [];
  objects = λ _. no_worker;
  reservations = λ _. 0;
  claimed = λ _. false;
  retiring = λ _. false;
  next_worker_id = 1;
  is_stopped = false;
  reaper = false;
  recovery_timer = false;
  recovery_delay_ms = 1_000;
  lifecycle = [];
  running = idle_lock;
  emitted = [];
  answers = [];
}
