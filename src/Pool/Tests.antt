-- ===== src/Pool/Tests.antt =====
-- The pool at work on small inputs, and its theorems there.
use pi_threads.Base.{
  ℕ, ◌≤◌, ◌<◌, ◌≡◌, refl, ◌≢◌, ◌⊎◌, ◌++◌, true, false, List, [], ◌∷◌, none, some, All, length,
  filter,
}
use pi_threads.Value.{undefined, str, obj, prop, end, opt_num}
use pi_threads.Protocol.Events.{turn_failed, worker_crashed}
use pi_threads.Protocol.Errors.{ok}
use pi_threads.Worker.{idle, crashed, is_unavailable_worker}
use pi_threads.Pool.State.{Pool, WorkerPoolOptions, Env, for_new, new_pool, mem, delete_worker}
use pi_threads.Pool.Machine.{
  fulfilled, maintain_minimum, reap_next, reap_candidates, has_expired, reap_idle_workers,
  begin_job, run_next, finish_start, use_delivered, check_switch, bind_session, report_reap, resume,
}
use pi_threads.Pool.Inputs.{
  Input, calls_stop, calls_new, releases, writes, exits, lock_passes, settles, step, run,
  lose_worker, handle_exit, handle_event, begin_stop, begin_start, arm_reaper,
}
use pi_threads.Pool.Reserve.{
  retain, release, make_idle, find_by_thread, is_quiescent, is_reclaimable, assert_running,
  reserve_for_assignment, schedule_minimum_recovery,
}
use pi_threads.Pool.Acquire.{
  fail_maintain, fail_spawn, fail_select, add_worker, await_start, spawn, choose_victim, last_used,
  evict, make_room, deliver, select_found, select_worker, begin_new, answer_retained,
  begin_assigned, begin_found, begin_session, fail_switch,
}
use pi_threads.Pool.Selection.{IsFree, IsTaken, select_worker-IsTaken}
use pi_threads.Pool.Stopping.{run-IsStopping, run-stopping}
use pi_threads.Pool.Eviction.{choose_victim-oldest, reap_next-reaping, reap_idle_workers-oldest}
use pi_threads.Pool.Crashes.{IsServing, handle_exit-crashed, find_by_thread-cases}
use pi_threads.Pool.Bounds.{IsBounded, run-IsBounded, new_pool-IsBounded}

abbrev two_workers : WorkerPoolOptions
two_workers = record {
  min_workers = 0;
  max_workers = 2;
  idle_ttl_ms = 100;
  reuse_across_threads = true;
  prewarm_cwd = "/home";
}

abbrev at : ℕ → Env
at now = record { now = now; can_reclaim = λ _. true }

code : Unit {0}
unfolding run step retain release make_idle find_by_thread is_quiescent is_reclaimable
    assert_running reserve_for_assignment schedule_minimum_recovery is_unavailable_worker
    fail_maintain fail_spawn fail_select add_worker await_start spawn choose_victim evict make_room
    deliver select_found select_worker begin_new answer_retained begin_assigned begin_found
    begin_session fail_switch maintain_minimum reap_next reap_candidates reap_idle_workers begin_job
    run_next finish_start use_delivered check_switch bind_session report_reap resume lose_worker
    handle_exit handle_event begin_stop begin_start arm_reaper delete_worker
code = tt

-- Two callers get a worker each; then the first is released.
abbrev history : List (Env × Input)
history =
    (at 1, calls_new 10 "/a")
    ∷ (at 1, calls_new 11 "/b")
    ∷ (at 1, lock_passes)
    ∷ (at 2, settles (fulfilled undefined))
    ∷ (at 2, settles (fulfilled undefined))
    ∷ (at 3, lock_passes)
    ∷ (at 4, settles (fulfilled undefined))
    ∷ (at 4, settles (fulfilled undefined))
    ∷ (at 5, releases 1 none)
    ∷ []

busy_pool : Pool
busy_pool = run two_workers new_pool history

busy_pool_answers :
    (busy_pool.answers ≡ (10, ok 1) ∷ (11, ok 2) ∷ [])
    × (busy_pool.workers ≡ 1 ∷ 2 ∷ [])
    × ((busy_pool.objects 1).state ≡ idle)
unfolding busy_pool code
busy_pool_answers = (refl, refl, refl)

run-IsBounded_example : IsBounded two_workers (run two_workers new_pool history)
run-IsBounded_example = run-IsBounded two_workers new_pool history (new_pool-IsBounded two_workers)

select_worker-IsTaken_example :
    IsFree two_workers (at 6) busy_pool "/a" 1
    × IsTaken (select_worker two_workers (at 6) busy_pool "/a" (for_new 12)) 1
unfolding busy_pool code
select_worker-IsTaken_example =
    select_worker-IsTaken two_workers (at 6) busy_pool "/a" (for_new 12) 1 (for_new 12) refl refl

stopping_pool : Pool
unfolding busy_pool
stopping_pool = run two_workers busy_pool ((at 7, calls_stop 20) ∷ (at 7, lock_passes) ∷ [])

later : List (Env × Input)
later = (at 8, calls_new 21 "/c") ∷ (at 8, lock_passes) ∷ (at 9, exits 1 undefined) ∷ []

run-IsStopping_example :
    ((run two_workers stopping_pool later).is_stopped ≡ true)
    × (length (run two_workers stopping_pool later).workers ≤ length stopping_pool.workers)
unfolding stopping_pool later code
run-IsStopping_example =
    run-IsStopping two_workers stopping_pool later (refl, (refl, (refl, tt))) refl

run-stopping_example :
    (run two_workers stopping_pool ((at 8, settles (fulfilled undefined)) ∷ later)).workers ≡ []
unfolding stopping_pool later code
run-stopping_example =
    run-stopping two_workers stopping_pool (at 8) 20 undefined later refl refl
      (refl, (refl, (refl, tt)))

choose_victim-oldest_example :
    (is_reclaimable (at 9) busy_pool 1 ≡ true)
    × All
        (λ u. last_used busy_pool 1 ≤ last_used busy_pool u)
        (filter (is_reclaimable (at 9) busy_pool) busy_pool.workers)
unfolding busy_pool code
choose_victim-oldest_example = choose_victim-oldest (at 9) busy_pool 1 refl

reap_next-reaping_example :
    (is_reclaimable (at 200) busy_pool 1 ≡ true)
    × (two_workers.min_workers < length busy_pool.workers)
unfolding busy_pool code
reap_next-reaping_example = reap_next-reaping two_workers (at 200) busy_pool (2 ∷ 1 ∷ []) [] 1 refl

reap_idle_workers-oldest_example :
    (is_reclaimable (at 200) busy_pool 1 ≡ true)
    × (has_expired two_workers (at 200) busy_pool 1 ≡ true)
    × All
        (λ u. last_used busy_pool 1 ≤ last_used busy_pool u)
        (filter
          (has_expired two_workers (at 200) busy_pool)
          (filter (is_reclaimable (at 200) busy_pool) busy_pool.workers))
    × (two_workers.min_workers < length busy_pool.workers)
    × (busy_pool.is_stopped ≡ false)
    × (two_workers.idle_ttl_ms ≢ 0)
unfolding busy_pool code
reap_idle_workers-oldest_example = reap_idle_workers-oldest two_workers (at 200) busy_pool [] 1 refl

-- Worker 2 runs a turn when its process dies.
crashing_pool : Pool
unfolding busy_pool
crashing_pool = step two_workers (at 10) busy_pool (
    writes 2 (record (busy_pool.objects 2) {
      state = crashed;
      thread_id = some "t";
      active_turn_id = some "turn";
    }))

crash_reported : (handle_exit two_workers (at 11) crashing_pool 2 undefined).workers ≡ 1 ∷ []
unfolding crashing_pool code
crash_reported = refl

handle_exit-crashed_example :
    let worker = crashing_pool.objects 2 in
    let q = handle_exit two_workers (at 11) crashing_pool 2 undefined in
    ((worker.state ≢ crashed) × (q ≡ crashing_pool))
    ⊎ ((worker.state ≡ crashed)
        × (mem 1 q.workers ≡ true)
        × ((q.objects 2).active_turn_id ≡ none)
        × (q.emitted
            ≡ crashing_pool.emitted
              ++ record {
                type = worker_crashed;
                thread_id = some "t";
                turn_id = some "turn";
                worker_id = some 2;
                payload = obj (prop "pid" (opt_num worker.pid) end);
              }
                ∷ record {
                  type = turn_failed;
                  thread_id = some "t";
                  turn_id = some "turn";
                  worker_id = some 2;
                  payload = obj (
                      prop "errorCode"
                        (str "workerCrashed")
                        (prop "message" (str "Pi RPC worker exited") end));
                }
                ∷ []))
unfolding crashing_pool code
handle_exit-crashed_example = handle_exit-crashed two_workers (at 11) crashing_pool 2 1 undefined

find_by_thread-cases_example :
    ((v : ℕ) × (find_by_thread busy_pool "t" ≡ some v) × IsServing busy_pool "t" v)
    ⊎ ((find_by_thread busy_pool "t" ≡ none) × ¬ IsServing busy_pool "t" 1)
find_by_thread-cases_example = find_by_thread-cases busy_pool "t" 1
