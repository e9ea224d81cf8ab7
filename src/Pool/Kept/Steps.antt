-- ===== src/Pool/Kept/Steps.antt =====
-- Every step keeps the bounds.
use pi_threads.Base.{
  ℕ, Bool, true, false, String, List, [], ◌∷◌, Option, none, some, arith, length, leb, if_cases,
}
use pi_threads.Protocol.Errors.{Result, ok, err}
use pi_threads.Pool.State.{
  Pool, WorkerPoolOptions, Env, Origin, Purpose, for_new, for_session, for_minimum, Job, maintain,
  acquire_new, acquire_session, reap, stop_workers,
}
use pi_threads.Pool.Reserve.{assert_running, retain, make_idle, release, reserve_for_assignment}
use pi_threads.Pool.Acquire.{
  is_reserving, reserve_if, await_start, spawn, evict, make_room, deliver, select_found,
  select_worker, answer_retained, begin_found, begin_new, begin_assigned, begin_session,
}
use pi_threads.Pool.Machine.{
  maintain_minimum, reap_next, reap_candidates, reap_idle_workers, begin_job,
}
use pi_threads.Pool.Kept.{
  Property, Kept, Closed, schedule-Kept, add_worker-Kept, fail_spawn-Kept, fail_select-Kept,
}

-- What a success leaves in the pool has the bounds.
abbrev pub Keeps : Property → Result Pool → Type 0
Keeps K (ok p) = Kept K p
Keeps K (err _) = Unit

module _ {o : WorkerPoolOptions} {K : Property} (c : Closed o K) where
  pub retain-Keeps : (p : Pool) (w : ℕ) → Kept K p → Keeps K (retain p w)
  unfolding retain assert_running
  retain-Keeps p w v = ground arith

  pub release-Kept :
      (env : Env) (p : Pool) (w : ℕ) (thread_id : Option String)
      → Kept K p
      → Kept K (release env p w thread_id)
  unfolding release make_idle
  release-Kept env p w thread_id v = ground arith

  reserve-Keeps : (p : Pool) (w : ℕ) → Kept K p → Keeps K (reserve_for_assignment p w)
  unfolding reserve_for_assignment retain assert_running
  reserve-Keeps p w v = ground arith

  reserve_if-Keeps : (b : Bool) (p : Pool) (w : ℕ) → Kept K p → Keeps K (reserve_if b p w)
  reserve_if-Keeps true p w v = reserve-Keeps p w v
  reserve_if-Keeps false p w v = v

  await_start-Kept :
      (p : Pool) (w : ℕ) (cwd : String) (purpose : Purpose) (r : Result Pool)
      → Kept K p
      → Keeps K r
      → Kept K (await_start o p w cwd purpose r)
  unfolding await_start
  await_start-Kept p w cwd purpose (ok p') v k = k
  await_start-Kept p w cwd purpose (err e) v k = fail_spawn-Kept c p purpose e v

  pub spawn-Kept :
      (env : Env) (p : Pool) (cwd : String) (purpose : Purpose)
      → Kept K p
      → Kept K (spawn o env p cwd purpose)
  unfolding spawn
  spawn-Kept env p cwd purpose v =
      if_cases (Kept K) p.is_stopped (λ _. fail_spawn-Kept c p purpose _ v)
        λ on.
          if_cases (Kept K) (leb o.max_workers (length p.workers))
            (λ _. fail_spawn-Kept c p purpose _ v)
            λ room.
              let added = add_worker-Kept c env p cwd on (ground arith) v in
              await_start-Kept _ _ cwd purpose _ added
                (reserve_if-Keeps (is_reserving purpose) _ _ added)

  evict-Kept :
      (p : Pool) (cwd : String) (purpose : Purpose) (victim : Option ℕ)
      → Kept K p
      → Kept K (evict o p cwd purpose victim)
  unfolding evict
  evict-Kept p cwd purpose none v = fail_select-Kept c p purpose _ v
  evict-Kept p cwd purpose (some w) v = v

  deliver-Kept :
      (p : Pool) (w : ℕ) (purpose : Purpose) (r : Result Pool)
      → Kept K p
      → Keeps K r
      → Kept K (deliver o p w purpose r)
  unfolding deliver
  deliver-Kept p w purpose (ok p') v k = k
  deliver-Kept p w purpose (err e) v k = fail_select-Kept c p purpose e v

  select_found-Kept :
      (env : Env) (p : Pool) (cwd : String) (purpose : Purpose) (found : Option ℕ)
      → Kept K p
      → Kept K (select_found o env p cwd purpose found)
  unfolding select_found make_room
  select_found-Kept env p cwd purpose none v =
      if_cases (Kept K) (leb o.max_workers (length p.workers)) (λ _. evict-Kept p cwd purpose _ v)
        (λ _. spawn-Kept env p cwd purpose v)
  select_found-Kept env p cwd purpose (some w) v =
      deliver-Kept p w purpose _ v (reserve-Keeps p w v)

  pub select_worker-Kept :
      (env : Env) (p : Pool) (cwd : String) (purpose : Purpose)
      → Kept K p
      → Kept K (select_worker o env p cwd purpose)
  unfolding select_worker
  select_worker-Kept env p cwd purpose v = select_found-Kept env p cwd purpose _ v

  answer_retained-Kept :
      (p : Pool) (w call : ℕ) (r : Result Pool)
      → Kept K p
      → Keeps K r
      → Kept K (answer_retained p w call r)
  unfolding answer_retained
  answer_retained-Kept p w call (ok p') v k = k
  answer_retained-Kept p w call (err e) v k = v

  begin_found-Kept :
      (env : Env) (p : Pool) (call : ℕ) (thread_id cwd path : String) (found : Option ℕ)
      → Kept K p
      → Kept K (begin_found o env p call thread_id cwd path found)
  unfolding begin_found begin_assigned
  begin_found-Kept env p call thread_id cwd path none v =
      select_worker-Kept env p cwd (for_session call thread_id path) v
  begin_found-Kept env p call thread_id cwd path (some w) v =
      ground (arith, answer_retained-Kept p w call (retain p w) v (retain-Keeps p w v))

  pub maintain-Kept :
      (env : Env) (p : Pool) (origin : Origin) → Kept K p → Kept K (maintain_minimum o env p origin)
  unfolding maintain_minimum
  maintain-Kept env p origin v =
      ground (arith, spawn-Kept env p o.prewarm_cwd (for_minimum origin) v)

  pub reap_next-Kept :
      (env : Env) (p : Pool) (ws : List ℕ) → Kept K p → Kept K (reap_next o env p ws)
  unfolding reap_next
  reap_next-Kept env p [] v = schedule-Kept c p v
  reap_next-Kept env p (w ∷ ws) v = ground (arith, schedule-Kept c p v, reap_next-Kept env p ws v)

  pub begin_job-Kept :
      (env : Env) (p : Pool) (job : Job) → Kept K p → Kept K (begin_job o env p job)
  unfolding begin_job begin_new begin_session reap_idle_workers
  begin_job-Kept env p (maintain origin) v = maintain-Kept env p origin v
  begin_job-Kept env p (acquire_new call cwd) v =
      if_cases (Kept K) p.is_stopped (λ _. v) (λ _. select_worker-Kept env p cwd (for_new call) v)
  begin_job-Kept env p (acquire_session call thread_id cwd path) v =
      if_cases (Kept K) p.is_stopped (λ _. v)
        (λ _. begin_found-Kept env p call thread_id cwd path _ v)
  begin_job-Kept env p reap v = ground (arith, reap_next-Kept env p (reap_candidates o env p) v)
  begin_job-Kept env p (stop_workers call) v = v
