-- ===== src/Pool/Reserve.antt =====
-- Who may hold a worker: reservations, what is quiescent, and the recovery of the minimum.
use pi_threads.Base.{
  ℕ, ◌+◌, ◌-◌, ◌*◌, min, String, Bool, true, false, not, ◌&&◌, ◌||◌, Option, none, some,
  if◌then◌else◌, ◌==◌, leb, find, length, is_truthy, same_text, or_else,
}
use pi_threads.Value.{str, obj, prop, end}
use pi_threads.Protocol.Errors.{Result, ok, throw, worker_crashed, not_found, ◌>>=◌}
use pi_threads.Protocol.Events.{EventBody, worker_idle}
use pi_threads.Worker.{PooledWorker, WorkerProcessState, idle, assigned, is_unavailable_worker}
use pi_threads.Pool.State.{Pool, WorkerPoolOptions, Env, update, mem, emit, set_worker}

unfoldable pub assert_running : Pool → Result (Unit {0})
assert_running p = if p.is_stopped then throw worker_crashed "Worker pool is stopped" else ok tt

-- `read`
unfoldable pub read : Pool → ℕ → Result ℕ
read p worker = if mem worker p.workers then ok worker else throw not_found "Worker not found"

abbrev pub serves : Pool → String → ℕ → Bool
serves p thread_id w =
    same_text (p.objects w).thread_id (some thread_id)
    && not (p.retiring w)
    && not (is_unavailable_worker (p.objects w))

unfoldable pub find_by_thread : Pool → String → Option ℕ
find_by_thread p thread_id = find (serves p thread_id) p.workers

abbrev pub is_waiting : WorkerProcessState → Bool
is_waiting idle = true
is_waiting assigned = true
is_waiting _ = false

unfoldable pub is_quiescent : Pool → ℕ → Bool
is_quiescent p w =
    is_waiting (p.objects w).state
    && not (is_truthy (p.objects w).active_turn_id)
    && not (is_truthy (p.objects w).aborting_turn_id)
    && not (p.retiring w)
    && p.reservations w == 0
    && (p.objects w).pending_command_count == 0

unfoldable pub is_reclaimable : Env → Pool → ℕ → Bool
is_reclaimable env p w =
    is_quiescent p w && (not (is_truthy (p.objects w).thread_id) || env.can_reclaim (p.objects w))

-- `retain`; an object of this id that is in the map is the object itself.
unfoldable pub retain : Pool → ℕ → Result Pool
retain p w = assert_running p >>= λ _.
    (if not (mem w p.workers) || p.retiring w || is_unavailable_worker (p.objects w)
      then throw worker_crashed "Worker is no longer available"
      else ok (record p { reservations = update p.reservations w (p.reservations w + 1) }))

abbrev idle_event : PooledWorker → Option String → EventBody
idle_event w thread_id = record {
  type = worker_idle;
  thread_id = or_else thread_id w.thread_id;
  turn_id = none;
  worker_id = some w.worker_id;
  payload = obj (prop "cwd" (str w.cwd) end);
}

-- The end of `release`, for a worker that nothing uses any more.
unfoldable pub make_idle : Pool → ℕ → PooledWorker → Option String → Pool
make_idle p worker w thread_id =
    emit
      (set_worker p worker (record w { state = if is_truthy w.thread_id then assigned else idle }))
      (idle_event w thread_id)

unfoldable pub release : Env → Pool → ℕ → Option String → Pool
release env p w thread_id =
    let remaining = p.reservations w - 1 in
    let p' = record p { reservations = update p.reservations w remaining } in
    let used = record (p.objects w) { last_used_at = env.now } in
    if is_unavailable_worker (p.objects w) || p.retiring w
    then p'
    else if not (remaining == 0) || is_truthy used.active_turn_id
    then set_worker p' w used
    else make_idle p' w used thread_id

unfoldable pub reserve_for_assignment : Pool → ℕ → Result Pool
reserve_for_assignment p w = do
  p' ← retain p w
  ok (
      set_worker (record p' { claimed = update p'.claimed w true }) w
        (record (p'.objects w) { thread_id = none }))

abbrev pub target : WorkerPoolOptions → ℕ
target o = min o.min_workers o.max_workers

unfoldable pub schedule_minimum_recovery : WorkerPoolOptions → Pool → Pool
schedule_minimum_recovery o p =
    if p.is_stopped || p.recovery_timer || leb (target o) (length p.workers) then p else record p {
      recovery_timer = true;
      recovery_delay_ms = min (p.recovery_delay_ms * 2) 30_000;
    }
