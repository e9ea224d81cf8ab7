-- ===== src/Pool/Crashes.antt =====
-- What the exit of a process does to the pool, and which worker a thread is served by.
use pi_threads.Base.{
  ℕ, ◌≡◌, refl, ◌⊎◌, Bool, true, false, ◌&&◌, String, List, [], ◌∷◌, ◌++◌, none, some, arith, find,
  if◌then◌else◌, ◌==◌, Option-cases, is_truthy, ◌≢◌, Option, ap, ◌∙◌, eq_iff, same_text, inl, inr,
}
use pi_threads.Value.{Value, str, obj, prop, end, opt_num, spread}
use pi_threads.Protocol.Events.{turn_failed, worker_crashed}
use pi_threads.Worker.{
  WorkerProcessState, starting, idle, assigned, running, crashed, stopped, is_unavailable_worker,
  is_dead,
}
use pi_threads.Pool.State.{Pool, WorkerPoolOptions, Env, mem, remove, delete_worker}
use pi_threads.Pool.Reserve.{serves, find_by_thread, schedule_minimum_recovery}
use pi_threads.Pool.Inputs.{crash_events, lose_worker, handle_exit, is_crashed}
use pi_threads.Pool.Selection.{find-eq-some, mem-find}

mem-remove : (k j : ℕ) (xs : List ℕ) → mem j (remove k xs) ≡ (if k == j then false else mem j xs)
mem-remove k j [] = ground arith
mem-remove k j (x ∷ xs) = ground (arith, mem-remove k j xs)

schedule_keeps :
    (o : WorkerPoolOptions) (p : Pool)
    → ((schedule_minimum_recovery o p).workers ≡ p.workers)
      × ((schedule_minimum_recovery o p).objects ≡ p.objects)
      × ((schedule_minimum_recovery o p).emitted ≡ p.emitted)
unfolding schedule_minimum_recovery
schedule_keeps o p = ground arith

crashed_or_not : (s : WorkerProcessState) → ((s ≢ crashed) × (is_crashed s ≡ false)) ⊎ (s ≡ crashed)
crashed_or_not crashed = inr refl
crashed_or_not starting = inl (λ e. cc, refl)
crashed_or_not idle = inl (λ e. cc, refl)
crashed_or_not assigned = inl (λ e. cc, refl)
crashed_or_not running = inl (λ e. cc, refl)
crashed_or_not stopped = inl (λ e. cc, refl)

lose_worker_lem :
    (env : Env) (p : Pool) (w j : ℕ) (info : Value)
    → let q = lose_worker env p w info in
      (mem j q.workers ≡ (if w == j then false else mem j p.workers))
      × ((q.objects w).active_turn_id ≡ none)
      × (q.emitted ≡ p.emitted ++ crash_events (p.objects w) info)
unfolding lose_worker delete_worker
lose_worker_lem env p w j info = (mem-remove w j p.workers, ground arith, refl)

crashed_lem :
    (o : WorkerPoolOptions) (env : Env) (p : Pool) (w j : ℕ) (info : Value)
    → (p.objects w).state ≡ crashed
    → let q = handle_exit o env p w info in
      (mem j q.workers ≡ (if w == j then false else mem j p.workers))
      × ((q.objects w).active_turn_id ≡ none)
      × (q.emitted ≡ p.emitted ++ crash_events (p.objects w) info)
unfolding handle_exit
crashed_lem o env p w j info dead =
    let (same_workers, same_objects, same_emitted) = schedule_keeps o (lose_worker env p w info) in
    let (left, ended, told) = lose_worker_lem env p w j info in
    rw (dead, same_workers, same_objects, same_emitted) (left, ended, told)

-- The exit of the process of worker w does nothing unless the process crashed. If it did, the exit
-- takes the worker, and no other, out of the map, leaves it with no active turn, and emits a
-- `worker.crashed` event with the worker, its thread, its turn, what is known of the exit and the
-- process id, and, exactly when a turn was active, then `turn.failed` for that turn.
pub handle_exit-crashed :
    (o : WorkerPoolOptions) (env : Env) (p : Pool) (w j : ℕ) (info : Value)
    → let worker = p.objects w in
      let q = handle_exit o env p w info in
      ((worker.state ≢ crashed) × (q ≡ p))
      ⊎ ((worker.state ≡ crashed)
          × (mem j q.workers ≡ (if w == j then false else mem j p.workers))
          × ((q.objects w).active_turn_id ≡ none)
          × (q.emitted
              ≡ p.emitted
                ++ record {
                  type = worker_crashed;
                  thread_id = worker.thread_id;
                  turn_id = worker.active_turn_id;
                  worker_id = some worker.worker_id;
                  payload = obj (spread info (prop "pid" (opt_num worker.pid) end));
                }
                  ∷ (if is_truthy worker.active_turn_id
                      then record {
                        type = turn_failed;
                        thread_id = worker.thread_id;
                        turn_id = worker.active_turn_id;
                        worker_id = some worker.worker_id;
                        payload = obj (
                            prop "errorCode"
                              (str "workerCrashed")
                              (prop "message" (str "Pi RPC worker exited") end));
                      }
                        ∷ []
                      else [])))
unfolding handle_exit
handle_exit-crashed o env p w j info = elim (crashed_or_not (p.objects w).state) [
  | inl (alive, e) ↦ inl (alive, ground arith)
  | inr dead ↦
      let (left, ended, told) = crashed_lem o env p w j info dead in inr (dead, left, ended, told)
]

find-none-absent :
    (t : ℕ → Bool) (xs : List ℕ) (w : ℕ) → find t xs ≡ none → (mem w xs && t w) ≡ false
find-none-absent t [] w e = refl
find-none-absent t (x ∷ xs) w e = ground (arith, find-none-absent t xs w)

-- A worker of the pool that bears the thread, does not retire and is neither crashed nor stopped.
abbrev pub IsServing : Pool → String → ℕ → Type 0
IsServing p thread_id w =
    (mem w p.workers ≡ true)
    × ((p.objects w).thread_id ≡ some thread_id)
    × (p.retiring w ≡ false)
    × ((p.objects w).state ≢ crashed)
    × ((p.objects w).state ≢ stopped)

same_text-some : (o : Option String) (t : String) → same_text o (some t) ≡ true → o ≡ some t
same_text-some none t h = absurd (ground arith)
same_text-some (some s) t h = ap (λ x. some x) ((eq_iff s t).0 h)

is_dead_lem : (s : WorkerProcessState) → is_dead s ≡ false → (s ≢ crashed) × (s ≢ stopped)
is_dead_lem s h =
    (λ e. let dead = ap is_dead e in ground arith, λ e. let dead = ap is_dead e in ground arith)

is_dead_iff : (s : WorkerProcessState) → (s ≢ crashed) → (s ≢ stopped) → is_dead s ≡ false
is_dead_iff starting c d = refl
is_dead_iff idle c d = refl
is_dead_iff assigned c d = refl
is_dead_iff running c d = refl
is_dead_iff crashed c d = absurd (c refl)
is_dead_iff stopped c d = absurd (d refl)

serves-IsServing :
    (p : Pool) (thread_id : String) (w : ℕ)
    → mem w p.workers ≡ true
    → serves p thread_id w ≡ true
    → IsServing p thread_id w
unfolding is_unavailable_worker
serves-IsServing p thread_id w h s =
    let (crash, stop) = is_dead_lem (p.objects w).state (ground arith) in
    (h, same_text-some _ _ (ground arith), ground arith, crash, stop)

IsServing-serves :
    (p : Pool) (thread_id : String) (w : ℕ)
    → IsServing p thread_id w
    → (mem w p.workers && serves p thread_id w) ≡ true
unfolding is_unavailable_worker
IsServing-serves p thread_id w (h, same, kept, crash, stop) =
    let alive = is_dead_iff (p.objects w).state crash stop in
    let named : same_text (p.objects w).thread_id (some thread_id) ≡ true =
      ap (λ o. same_text o (some thread_id)) same ∙ (eq_iff thread_id thread_id).1 refl in
    ground arith

-- `findByThread` finds a worker of the pool that bears the id of the thread, does not retire and is
-- neither crashed nor stopped, if there is any, and otherwise nothing.
pub find_by_thread-cases :
    (p : Pool) (thread_id : String) (w : ℕ)
    → ((v : ℕ) × (find_by_thread p thread_id ≡ some v) × IsServing p thread_id v)
      ⊎ ((find_by_thread p thread_id ≡ none) × ¬ IsServing p thread_id w)
unfolding find_by_thread
find_by_thread-cases p thread_id w = elim (Option-cases (find_by_thread p thread_id)) [
  | inl e ↦
      let unseen = find-none-absent (serves p thread_id) p.workers w e in
      inr (e, λ s. let seen = IsServing-serves p thread_id w s in ground arith)
  | inr (v, e) ↦ inl (
    v,
    e,
    serves-IsServing p thread_id v (mem-find (serves p thread_id) p.workers v e)
        (find-eq-some _ p.workers v e),
  )
]
