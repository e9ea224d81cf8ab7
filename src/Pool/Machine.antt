-- ===== src/Pool/Machine.antt =====
-- The pool as a machine: how each wait goes on, what the processes, the timers and the callers do
-- between two waits, and runs of such inputs.
use pi_threads.Base.{
  ℕ, ◌-◌, String, Bool, true, false, not, ◌&&◌, ◌||◌, List, [], ◌∷◌, none, some, if◌then◌else◌,
  ◌==◌, leb, ltb, filter, length,
}
use pi_threads.Value.{Value, str, obj, prop, end, get, is_text, opt_str, opt_num}
use pi_threads.Protocol.Errors.{DaemonError, ok, err, worker_crashed, pi_rpc_error}
use pi_threads.Protocol.Events.{EventBody, worker_started, worker_crashed as crashed_event}
use pi_threads.Worker.{assigned}
use pi_threads.Pool.State.{
  Pool, WorkerPoolOptions, Env, Origin, start, recovery, Purpose, for_new, for_session, for_minimum,
  Job, maintain, acquire_new, acquire_session, reap, stop_workers, Wait, idle_lock,
  retiring_assigned, retiring_victim, starting_worker, discarding, delivered, switching,
  reading_state, retiring_failed, reaping, stopping, emit, set_worker, answer, delete_worker,
}
use pi_threads.Pool.Reserve.{is_reclaimable, target, schedule_minimum_recovery}
use pi_threads.Pool.Acquire.{
  sort_by, last_used, begin_retire, fail_spawn, fail_select, is_reserving, spawn, select_worker,
  begin_new, begin_session, fail_switch, is_cancelled,
}

abbrev finish_maintain : Pool → Origin → Pool
finish_maintain p (start call) = answer p call (ok 0)
finish_maintain p recovery = record p { running = idle_lock }

-- The head of the loop of `maintainMinimum`.
unfoldable pub maintain_minimum : WorkerPoolOptions → Env → Pool → Origin → Pool
maintain_minimum o env p origin =
    if not p.is_stopped && not p.recovery_timer && ltb (length p.workers) (target o)
    then spawn o env p o.prewarm_cwd (for_minimum origin)
    else finish_maintain p origin

abbrev finish_reap : WorkerPoolOptions → Pool → Pool
finish_reap o p = record (schedule_minimum_recovery o p) { running = idle_lock }

-- The loop of `reapIdleWorkers`, up to the next process that it stops.
unfoldable pub reap_next : WorkerPoolOptions → Env → Pool → List ℕ → Pool
reap_next o env p [] = finish_reap o p
reap_next o env p (w ∷ rest) =
    if leb (length p.workers) o.min_workers
    then finish_reap o p
    else if is_reclaimable env p w
    then begin_retire p w (reaping w rest)
    else reap_next o env p rest

abbrev pub has_expired : WorkerPoolOptions → Env → Pool → ℕ → Bool
has_expired o env p w = leb o.idle_ttl_ms (env.now - last_used p w)

-- The workers that `reapIdleWorkers` goes through, the one used longest ago first.
unfoldable pub reap_candidates : WorkerPoolOptions → Env → Pool → List ℕ
reap_candidates o env p =
    sort_by (last_used p) (filter (has_expired o env p) (filter (is_reclaimable env p) p.workers))

unfoldable pub reap_idle_workers : WorkerPoolOptions → Env → Pool → Pool
reap_idle_workers o env p =
    if p.is_stopped || o.idle_ttl_ms == 0
    then record p { running = idle_lock }
    else reap_next o env p (reap_candidates o env p)

-- The next operation gets the lifecycle lock.
unfoldable pub begin_job : WorkerPoolOptions → Env → Pool → Job → Pool
begin_job o env p (maintain origin) = maintain_minimum o env p origin
begin_job o env p (acquire_new call cwd) = begin_new o env p call cwd
begin_job o env p (acquire_session call thread_id cwd session_path) =
    begin_session o env p call thread_id cwd session_path
begin_job o env p reap = reap_idle_workers o env p
begin_job o env p (stop_workers call) = record p { running = stopping call }

unfoldable pub run_next : WorkerPoolOptions → Env → Pool → List Job → Wait → Pool
run_next o env p (job ∷ jobs) idle_lock = begin_job o env (record p { lifecycle = jobs }) job
run_next o env p _ _ = p

-- How the promise that the running operation waits for settles.
pub data Settlement : Type 0 where
  fulfilled : Value → Settlement
  rejected : DaemonError → Settlement

abbrev started_event : Pool → ℕ → String → EventBody
started_event p w cwd = record {
  type = worker_started;
  thread_id = none;
  turn_id = none;
  worker_id = some w;
  payload = obj (
      prop "pid" (opt_num (p.objects w).pid)
        (prop "version" (opt_str (p.objects w).version) (prop "cwd" (str cwd) end)));
}

abbrev mark_assigned : Bool → Pool → ℕ → Pool
mark_assigned true p w = set_worker p w (record (p.objects w) { state = assigned })
mark_assigned false p w = p

abbrev stopped_in_startup : DaemonError
stopped_in_startup = record {
  code = worker_crashed;
  message = "Worker pool stopped during worker startup";
}

-- The rest of `spawn` once the process runs.
unfoldable pub finish_start : Pool → ℕ → String → Purpose → Pool
finish_start p w cwd purpose =
    if p.is_stopped
    then record (delete_worker p w) { running = discarding w stopped_in_startup purpose }
    else record (emit (mark_assigned (is_reserving purpose) p w) (started_event p w cwd)) {
      running = delivered w purpose;
    }

-- The code behind the call of `selectWorker` or `spawn`.
unfoldable pub use_delivered : WorkerPoolOptions → Env → Pool → ℕ → Purpose → Pool
use_delivered o env p w (for_new call) = answer p call (ok w)
use_delivered o env p w (for_session call thread_id session_path) = record p {
  running = switching w call thread_id session_path;
}
use_delivered o env p w (for_minimum origin) = maintain_minimum o env p origin

unfoldable pub check_switch : Env → Pool → ℕ → ℕ → String → String → Value → Pool
check_switch env p w call thread_id session_path response =
    if is_cancelled response
    then fail_switch env p w call
        (record { code = pi_rpc_error; message = "Pi RPC command was cancelled" })
    else record p { running = reading_state w call thread_id session_path }

unfoldable pub bind_session : Env → Pool → ℕ → ℕ → String → Value → Pool
bind_session env p w call thread_id state =
    if is_text (get "sessionId" state) thread_id
    then answer (set_worker p w (record (p.objects w) { thread_id = some thread_id })) call (ok w)
    else fail_switch env p w call
        (record { code = pi_rpc_error; message = "Pi resumed a different session than requested" })

abbrev recover_after : WorkerPoolOptions → Pool → ℕ → Pool
recover_after o p w = schedule_minimum_recovery o (delete_worker p w)

-- `worker.crashed` with the message of an operation that has no caller.
unfoldable pub report_reap : Pool → DaemonError → Pool
report_reap p error =
    emit (record p { running = idle_lock })
      (record {
        type = crashed_event;
        thread_id = none;
        turn_id = none;
        worker_id = none;
        payload = obj (prop "message" (str error.message) end);
      })

-- The running operation goes on when its promise settles.
unfoldable pub resume : WorkerPoolOptions → Env → Pool → Wait → Settlement → Pool
resume o env p idle_lock s = p
resume o env p (retiring_assigned w call thread_id cwd path) (fulfilled _) =
    select_worker o env (recover_after o p w) cwd (for_session call thread_id path)
resume o env p (retiring_assigned w call thread_id cwd path) (rejected error) =
    answer p call (err error)
resume o env p (retiring_victim w cwd purpose) (fulfilled _) =
    spawn o env (delete_worker p w) cwd purpose
resume o env p (retiring_victim w cwd purpose) (rejected error) = fail_select o p purpose error
resume o env p (starting_worker w cwd purpose) (fulfilled _) = finish_start p w cwd purpose
resume o env p (starting_worker w cwd purpose) (rejected error) = record (delete_worker p w) {
  running = discarding w error purpose;
}
resume o env p (discarding w error purpose) s = fail_spawn o p purpose error
resume o env p (delivered w purpose) s = use_delivered o env p w purpose
resume o env p (switching w call thread_id path) (fulfilled response) =
    check_switch env p w call thread_id path response
resume o env p (switching w call thread_id path) (rejected error) = fail_switch env p w call error
resume o env p (reading_state w call thread_id path) (fulfilled state) =
    bind_session env p w call thread_id state
resume o env p (reading_state w call thread_id path) (rejected error) =
    fail_switch env p w call error
resume o env p (retiring_failed w error call) (fulfilled _) =
    answer (recover_after o p w) call (err error)
resume o env p (retiring_failed w error call) (rejected error') = answer p call (err error')
resume o env p (reaping w rest) (fulfilled _) = reap_next o env (delete_worker p w) rest
resume o env p (reaping w rest) (rejected error) = report_reap p error
resume o env p (stopping call) (fulfilled _) = answer (record p { workers = [] }) call (ok 0)
resume o env p (stopping call) (rejected error) = answer p call (err error)
