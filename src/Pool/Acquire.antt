-- ===== src/Pool/Acquire.antt =====
-- Selecting, spawning and retiring workers: the stretches of `selectWorker`, `spawn`,
-- `acquireForNew` and `acquireForSession`.
use pi_threads.Base.{
  ℕ, ◌+◌, String, Bool, true, false, not, ◌&&◌, ◌||◌, List, [], ◌∷◌, ◌++◌, Option, none, some,
  if◌then◌else◌, leb, find, filter, length, str_eq,
}
use pi_threads.Value.{Value, str, bool, obj, prop, end, get, is_true}
use pi_threads.Protocol.Errors.{DaemonError, Result, ok, err, throw, busy, capacity, worker_crashed}
use pi_threads.Protocol.Events.{worker_crashed as crashed_event}
use pi_threads.Worker.{PooledWorker, assigned, starting, is_unavailable_worker}
use pi_threads.Pool.State.{
  Pool, WorkerPoolOptions, Env, Origin, start, recovery, Purpose, for_new, for_session, for_minimum,
  Wait, idle_lock, retiring_assigned, retiring_victim, starting_worker, delivered, retiring_failed,
  update, emit, set_worker, answer,
}
use pi_threads.Pool.Reserve.{
  find_by_thread, is_quiescent, is_reclaimable, retain, release, reserve_for_assignment,
  schedule_minimum_recovery,
}

-- The stable sort of `Array.prototype.sort` by an increasing key.
abbrev pub insert_by {ℓ} : {A : Type ℓ} → (A → ℕ) → A → List A → List A
insert_by key x [] = x ∷ []
insert_by key x (y ∷ ys) = if leb (key x) (key y) then x ∷ y ∷ ys else y ∷ insert_by key x ys

abbrev pub sort_by {ℓ} : {A : Type ℓ} → (A → ℕ) → List A → List A
sort_by key [] = []
sort_by key (x ∷ xs) = insert_by key x (sort_by key xs)

abbrev pub last_used : Pool → ℕ → ℕ
last_used p w = (p.objects w).last_used_at

abbrev pub first {ℓ} : {A : Type ℓ} → List A → Option A
first [] = none
first (x ∷ xs) = some x

-- The test of `selectWorker` for a worker that may change its thread in place.
abbrev pub is_candidate : WorkerPoolOptions → Env → Pool → String → ℕ → Bool
is_candidate o env p cwd w =
    is_reclaimable env p w
    && (o.reuse_across_threads || not (p.claimed w))
    && str_eq (p.objects w).cwd cwd

-- `retire` up to its wait for the process to stop.
abbrev pub begin_retire : Pool → ℕ → Wait → Pool
begin_retire p w wait = record p { retiring = update p.retiring w true; running = wait }

-- The promise of the operation that served `origin` rejects.
unfoldable pub fail_maintain : WorkerPoolOptions → Pool → Origin → DaemonError → Pool
fail_maintain o p (start call) error = answer p call (err error)
fail_maintain o p recovery error = schedule_minimum_recovery o (
    emit (record p { running = idle_lock })
      (record {
        type = crashed_event;
        thread_id = none;
        turn_id = none;
        worker_id = none;
        payload = obj (prop "recoveryFailed" (bool true) (prop "message" (str error.message) end));
      }))

-- `spawn` threw: `selectWorker` schedules a recovery, `maintainMinimum` does not catch.
unfoldable pub fail_spawn : WorkerPoolOptions → Pool → Purpose → DaemonError → Pool
fail_spawn o p (for_new call) error = answer (schedule_minimum_recovery o p) call (err error)
fail_spawn o p (for_session call _ _) error =
    answer (schedule_minimum_recovery o p) call (err error)
fail_spawn o p (for_minimum origin) error = fail_maintain o p origin error

-- A selection that throws before it spawns anything.
unfoldable pub fail_select : WorkerPoolOptions → Pool → Purpose → DaemonError → Pool
fail_select o p (for_new call) error = answer p call (err error)
fail_select o p (for_session call _ _) error = answer p call (err error)
fail_select o p (for_minimum origin) error = fail_maintain o p origin error

abbrev pub is_reserving : Purpose → Bool
is_reserving (for_minimum _) = false
is_reserving _ = true

-- The object that `workerFactory` makes.
abbrev new_worker : ℕ → String → ℕ → PooledWorker
new_worker id cwd now = record {
  worker_id = id;
  cwd = cwd;
  started_at = now;
  version = none;
  state = starting;
  thread_id = none;
  active_turn_id = none;
  aborting_turn_id = none;
  last_used_at = now;
  pid = none;
  pending_command_count = 0;
  settled = none;
}

-- The part of `spawn` from its checks to the entry in the map.
unfoldable pub add_worker : Env → Pool → String → Pool
add_worker env p cwd =
    let id = p.next_worker_id in
    record p {
      workers = p.workers ++ id ∷ [];
      objects = update p.objects id (new_worker id cwd env.now);
      reservations = update p.reservations id 0;
      claimed = update p.claimed id false;
      retiring = update p.retiring id false;
      next_worker_id = id + 1;
    }

abbrev pub reserve_if : Bool → Pool → ℕ → Result Pool
reserve_if true p w = reserve_for_assignment p w
reserve_if false p w = ok p

-- `spawn` waits for `worker.start()`, unless the reservation threw.
unfoldable pub await_start : WorkerPoolOptions → Pool → ℕ → String → Purpose → Result Pool → Pool
await_start o p w cwd purpose (ok p') = record p' { running = starting_worker w cwd purpose }
await_start o p w cwd purpose (err error) = fail_spawn o p purpose error

-- `spawn` up to `await worker.start()`.
unfoldable pub spawn : WorkerPoolOptions → Env → Pool → String → Purpose → Pool
spawn o env p cwd purpose =
    if p.is_stopped
    then fail_spawn o p purpose
        (record { code = worker_crashed; message = "Worker pool is stopped" })
    else if leb o.max_workers (length p.workers)
    then fail_spawn o p purpose (record { code = capacity; message = "Worker capacity reached" })
    else await_start o (add_worker env p cwd) p.next_worker_id cwd purpose
        (reserve_if (is_reserving purpose) (add_worker env p cwd) p.next_worker_id)

-- The choice of a victim in `selectWorker`: the reclaimable worker used longest ago.
unfoldable pub choose_victim : Env → Pool → Option ℕ
choose_victim env p = first (sort_by (last_used p) (filter (is_reclaimable env p) p.workers))

unfoldable pub evict : WorkerPoolOptions → Pool → String → Purpose → Option ℕ → Pool
evict o p cwd purpose none =
    fail_select o p purpose (record { code = capacity; message = "Worker capacity reached" })
evict o p cwd purpose (some victim) = begin_retire p victim (retiring_victim victim cwd purpose)

-- `selectWorker` when no worker of the workspace can be reused.
unfoldable pub make_room : WorkerPoolOptions → Env → Pool → String → Purpose → Pool
make_room o env p cwd purpose =
    if leb o.max_workers (length p.workers)
    then evict o p cwd purpose (choose_victim env p)
    else spawn o env p cwd purpose

-- `selectWorker` with a worker that can be reused: it is detached from its thread before the wait.
unfoldable pub deliver : WorkerPoolOptions → Pool → ℕ → Purpose → Result Pool → Pool
deliver o p w purpose (ok p') =
    record (set_worker p' w (record (p'.objects w) { state = assigned })) {
      running = delivered w purpose;
    }
deliver o p w purpose (err error) = fail_select o p purpose error

unfoldable pub select_found : WorkerPoolOptions → Env → Pool → String → Purpose → Option ℕ → Pool
select_found o env p cwd purpose none = make_room o env p cwd purpose
select_found o env p cwd purpose (some w) = deliver o p w purpose (reserve_for_assignment p w)

-- `selectWorker` up to its first wait.
unfoldable pub select_worker : WorkerPoolOptions → Env → Pool → String → Purpose → Pool
select_worker o env p cwd purpose =
    select_found o env p cwd purpose (find (is_candidate o env p cwd) p.workers)

-- The body of `acquireForNew`.
unfoldable pub begin_new : WorkerPoolOptions → Env → Pool → ℕ → String → Pool
begin_new o env p call cwd =
    if p.is_stopped
    then answer p call (throw worker_crashed "Worker pool is stopped")
    else select_worker o env p cwd (for_new call)

unfoldable pub answer_retained : Pool → ℕ → ℕ → Result Pool → Pool
answer_retained p w call (ok p') = answer p' call (ok w)
answer_retained p w call (err error) = answer p call (err error)

-- The body of `acquireForSession` for a worker that already serves the thread.
unfoldable pub begin_assigned : Env → Pool → ℕ → ℕ → String → String → String → Pool
begin_assigned env p w call thread_id cwd session_path =
    if not (is_quiescent p w)
    then answer p call (throw busy "Thread already has an active daemon operation")
    else if str_eq (p.objects w).cwd cwd
    then answer_retained p w call (retain p w)
    else if not (is_reclaimable env p w)
    then answer p call (
        throw capacity
          "Thread session is not persisted; cannot replace its worker for another workspace")
    else begin_retire p w (retiring_assigned w call thread_id cwd session_path)

unfoldable pub begin_found :
    WorkerPoolOptions → Env → Pool → ℕ → String → String → String → Option ℕ → Pool
begin_found o env p call thread_id cwd session_path none =
    select_worker o env p cwd (for_session call thread_id session_path)
begin_found o env p call thread_id cwd session_path (some w) =
    begin_assigned env p w call thread_id cwd session_path

-- The body of `acquireForSession` up to its first wait.
unfoldable pub begin_session : WorkerPoolOptions → Env → Pool → ℕ → String → String → String → Pool
begin_session o env p call thread_id cwd session_path =
    if p.is_stopped
    then answer p call (throw worker_crashed "Worker pool is stopped")
    else begin_found o env p call thread_id cwd session_path (find_by_thread p thread_id)

-- The `catch` of `acquireForSession`: a worker whose switch failed is never used again.
unfoldable pub fail_switch : Env → Pool → ℕ → ℕ → DaemonError → Pool
fail_switch env p w call error =
    let p' = release env p w none in
    if is_unavailable_worker (p'.objects w)
    then answer p' call (err error)
    else begin_retire p' w (retiring_failed w error call)

-- The test of `assertNotCancelled` on the data of a response.
abbrev pub is_cancelled : Value → Bool
is_cancelled data_value = is_true (get "cancelled" data_value)
