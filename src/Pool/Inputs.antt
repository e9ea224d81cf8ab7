-- ===== src/Pool/Inputs.antt =====
-- What reaches the pool from outside: its callers, the processes of its workers, and its timers.
use pi_threads.Base.{
  ℕ, ◌-◌, String, Bool, true, false, List, [], ◌∷◌, ◌++◌, Option, none, some, if◌then◌else◌, leb,
  is_truthy,
}
use pi_threads.Value.{Value, str, obj, prop, end, opt_num, spread}
use pi_threads.Protocol.Errors.{Result, ok, err}
use pi_threads.Protocol.Events.{EventBody, turn_failed, worker_crashed}
use pi_threads.Worker.{PooledWorker, WorkerProcessState, crashed, RawEvent, map_worker_event}
use pi_threads.Pool.State.{
  Pool, WorkerPoolOptions, Env, start, recovery, Job, maintain, acquire_new, acquire_session, reap,
  stop_workers, emit, set_worker, delete_worker,
}
use pi_threads.Pool.Reserve.{retain, release, schedule_minimum_recovery}
use pi_threads.Pool.Machine.{Settlement, run_next, resume}

abbrev exit_payload : PooledWorker → Value → Value
exit_payload w info = obj (spread info (prop "pid" (opt_num w.pid) end))

abbrev crash_event : PooledWorker → Value → EventBody
crash_event w info = record {
  type = worker_crashed;
  thread_id = w.thread_id;
  turn_id = w.active_turn_id;
  worker_id = some w.worker_id;
  payload = exit_payload w info;
}

abbrev lost_turn_event : PooledWorker → EventBody
lost_turn_event w = record {
  type = turn_failed;
  thread_id = w.thread_id;
  turn_id = w.active_turn_id;
  worker_id = some w.worker_id;
  payload =
      obj
        (prop "errorCode" (str "workerCrashed") (prop "message" (str "Pi RPC worker exited") end));
}

abbrev pub crash_events : PooledWorker → Value → List EventBody
crash_events w info =
    crash_event w info ∷ (if is_truthy w.active_turn_id then lost_turn_event w ∷ [] else [])

abbrev next_delay : Env → PooledWorker → ℕ → ℕ
next_delay env w delay = if leb 60_000 (env.now - w.started_at) then 1_000 else delay

abbrev pub is_crashed : WorkerProcessState → Bool
is_crashed crashed = true
is_crashed _ = false

-- The listener of `exit` up to its call of `scheduleMinimumRecovery`.
unfoldable pub lose_worker : Env → Pool → ℕ → Value → Pool
lose_worker env p w info =
    let worker = p.objects w in
    record (set_worker (delete_worker p w) w (record worker { active_turn_id = none })) {
      emitted = p.emitted ++ crash_events worker info;
      recovery_delay_ms = next_delay env worker p.recovery_delay_ms;
    }

-- The listener of `exit` that `spawn` installs.
unfoldable pub handle_exit : WorkerPoolOptions → Env → Pool → ℕ → Value → Pool
handle_exit o env p w info =
    if is_crashed (p.objects w).state
    then schedule_minimum_recovery o (lose_worker env p w info)
    else p

-- The listener of `event` that `spawn` installs.
unfoldable pub handle_event : Pool → ℕ → RawEvent → Pool
handle_event p w event =
    let mapped = map_worker_event (p.objects w) event in emit (set_worker p w mapped.0) mapped.1

-- `stopAll` up to its wait for the lock.
unfoldable pub begin_stop : Pool → ℕ → Pool
begin_stop p call = record p {
  is_stopped = true;
  reaper = false;
  recovery_timer = false;
  lifecycle = p.lifecycle ++ stop_workers call ∷ [];
}

-- `start` up to its wait for the lock. It sets the interval once the minimum is there: `arm_reaper`.
unfoldable pub begin_start : Pool → ℕ → Pool
begin_start p call = record p {
  is_stopped = false;
  lifecycle = p.lifecycle ++ maintain (start call) ∷ [];
}

unfoldable pub arm_reaper : WorkerPoolOptions → Pool → Pool
arm_reaper o p = record p {
  reaper = if leb 1 o.idle_ttl_ms then true else if leb 1 o.min_workers then true else p.reaper;
}

-- `writes w worker` is any assignment to the fields of a worker object by its process or by the
-- service; those that the source marks `readonly` stay.
pub data Input : Type 0 where
  calls_start calls_stop : (call : ℕ) → Input
  calls_new : (call : ℕ) (cwd : String) → Input
  calls_session : (call : ℕ) (thread_id cwd session_path : String) → Input
  minimum_reached : Input
  retains : (worker : ℕ) → Input
  releases : (worker : ℕ) (thread_id : Option String) → Input
  writes : (worker : ℕ) → PooledWorker → Input
  sends_event : (worker : ℕ) → RawEvent → Input
  exits : (worker : ℕ) → Value → Input
  reaper_fires recovery_fires lock_passes : Input
  settles : Settlement → Input

abbrev pub is_start : Input → Bool
is_start (calls_start _) = true
is_start _ = false

abbrev pub after : Pool → Result Pool → Pool
after p (ok q) = q
after p (err _) = p

abbrev enqueue : Pool → Job → Pool
enqueue p job = record p { lifecycle = p.lifecycle ++ job ∷ [] }

abbrev keep_readonly : PooledWorker → PooledWorker → PooledWorker
keep_readonly old new = record new {
  worker_id = old.worker_id;
  cwd = old.cwd;
  started_at = old.started_at;
  settled = old.settled;
}

unfoldable pub step : WorkerPoolOptions → Env → Pool → Input → Pool
step o env p (calls_start call) = begin_start p call
step o env p (calls_stop call) = begin_stop p call
step o env p (calls_new call cwd) = enqueue p (acquire_new call cwd)
step o env p (calls_session call thread_id cwd path) =
    enqueue p (acquire_session call thread_id cwd path)
step o env p minimum_reached = arm_reaper o p
step o env p (retains w) = after p (retain p w)
step o env p (releases w thread_id) = release env p w thread_id
step o env p (writes w worker) = set_worker p w (keep_readonly (p.objects w) worker)
step o env p (sends_event w event) = handle_event p w event
step o env p (exits w info) = handle_exit o env p w info
step o env p reaper_fires = if p.reaper then enqueue p reap else p
step o env p recovery_fires =
    if p.recovery_timer
    then enqueue (record p { recovery_timer = false }) (maintain recovery)
    else p
step o env p lock_passes = run_next o env p p.lifecycle p.running
step o env p (settles s) = resume o env p p.running s

unfoldable pub run : WorkerPoolOptions → Pool → List (Env × Input) → Pool
run o p [] = p
run o p ((env, input) ∷ rest) = run o (step o env p input) rest
