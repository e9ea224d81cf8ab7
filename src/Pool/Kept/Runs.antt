-- ===== src/Pool/Kept/Runs.antt =====
-- Every input is answered by primitive changes.
use pi_threads.Base.{ℕ, ◌≡◌, true, false, String, List, ◌∷◌, none, arith, if_cases, leb, refl, ◌-◌}
use pi_threads.Value.{Value, get, is_text}
use pi_threads.Protocol.Errors.{DaemonError, Result, ok, err}
use pi_threads.Pool.State.{
  Pool, WorkerPoolOptions, Env, Purpose, for_new, for_session, for_minimum, Job, Wait, idle_lock,
  retiring_assigned, retiring_victim, starting_worker, discarding, delivered, switching,
  reading_state, retiring_failed, reaping, stopping, delete_worker,
}
use pi_threads.Pool.Reserve.{retain}
use pi_threads.Pool.Acquire.{is_cancelled, fail_switch}
use pi_threads.Pool.Machine.{
  run_next, Settlement, fulfilled, rejected, finish_start, use_delivered, check_switch,
  bind_session, report_reap, resume,
}
use pi_threads.Pool.Inputs.{
  Input, is_start, calls_start, calls_stop, calls_new, calls_session, minimum_reached, retains,
  releases, writes, sends_event, exits, reaper_fires, recovery_fires, lock_passes, settles,
  is_crashed, lose_worker, handle_exit, handle_event, begin_stop, begin_start, arm_reaper, after,
  step,
}
use pi_threads.Pool.Kept.{
  Property, Kept, Closed, delete-Kept, schedule-Kept, fail_spawn-Kept, fail_select-Kept,
}
use pi_threads.Pool.Kept.Steps.{
  Keeps, retain-Keeps, release-Kept, select_worker-Kept, spawn-Kept, maintain-Kept, reap_next-Kept,
  begin_job-Kept,
}

module _ {o : WorkerPoolOptions} {K : Property} (c : Closed o K) where
  fail_switch-Kept :
      (env : Env) (p : Pool) (w call : ℕ) (error : DaemonError)
      → Kept K p
      → Kept K (fail_switch env p w call error)
  unfolding fail_switch
  fail_switch-Kept env p w call error v = ground (arith, release-Kept c env p w none v)

  finish_start-Kept :
      (p : Pool) (w : ℕ) (cwd : String) (purpose : Purpose)
      → Kept K p
      → Kept K (finish_start p w cwd purpose)
  unfolding finish_start
  finish_start-Kept p w cwd (for_minimum origin) v = ground (arith, delete-Kept c p w v)
  finish_start-Kept p w cwd purpose v = ground (arith, delete-Kept c p w v)

  resume-Kept :
      (env : Env) (p : Pool) (wait : Wait) (s : Settlement)
      → Kept K p
      → Kept K (resume o env p wait s)
  unfolding resume use_delivered check_switch bind_session report_reap
  resume-Kept env p idle_lock s v = v
  resume-Kept env p (retiring_assigned w call t cwd path) (fulfilled _) v =
      select_worker-Kept c env _ cwd (for_session call t path)
        (schedule-Kept c (delete_worker p w) (delete-Kept c p w v))
  resume-Kept env p (retiring_assigned w call t cwd path) (rejected _) v = v
  resume-Kept env p (retiring_victim w cwd purpose) (fulfilled _) v =
      spawn-Kept c env (delete_worker p w) cwd purpose (delete-Kept c p w v)
  resume-Kept env p (retiring_victim w cwd purpose) (rejected e) v =
      fail_select-Kept c p purpose e v
  resume-Kept env p (starting_worker w cwd purpose) (fulfilled _) v =
      finish_start-Kept p w cwd purpose v
  resume-Kept env p (starting_worker w cwd purpose) (rejected e) v = delete-Kept c p w v
  resume-Kept env p (discarding w e purpose) s v = fail_spawn-Kept c p purpose e v
  resume-Kept env p (delivered w (for_new call)) s v = v
  resume-Kept env p (delivered w (for_session call t path)) s v = v
  resume-Kept env p (delivered w (for_minimum origin)) s v = maintain-Kept c env p origin v
  resume-Kept env p (switching w call t path) (fulfilled r) v =
      if_cases (Kept K) (is_cancelled r) (λ _. fail_switch-Kept env p w call _ v) (λ _. v)
  resume-Kept env p (switching w call t path) (rejected e) v = fail_switch-Kept env p w call e v
  resume-Kept env p (reading_state w call t path) (fulfilled state) v =
      if_cases (Kept K) (is_text (get "sessionId" state) t) (λ _. v)
        (λ _. fail_switch-Kept env p w call _ v)
  resume-Kept env p (reading_state w call t path) (rejected e) v = fail_switch-Kept env p w call e v
  resume-Kept env p (retiring_failed w e call) (fulfilled _) v =
      schedule-Kept c (delete_worker p w) (delete-Kept c p w v)
  resume-Kept env p (retiring_failed w e call) (rejected _) v = v
  resume-Kept env p (reaping w rest) (fulfilled _) v =
      reap_next-Kept c env (delete_worker p w) rest (delete-Kept c p w v)
  resume-Kept env p (reaping w rest) (rejected e) v = v
  resume-Kept env p (stopping call) (fulfilled _) v = c.cleared _ _ _ _ v
  resume-Kept env p (stopping call) (rejected e) v = v

  lose_worker-Kept :
      (env : Env) (p : Pool) (w : ℕ) (info : Value) → Kept K p → Kept K (lose_worker env p w info)
  unfolding lose_worker delete_worker
  lose_worker-Kept env p w info v =
      let q = delete_worker p w in
      if_cases (λ d. K q.workers q.next_worker_id d q.is_stopped)
        (leb 60_000 (env.now - (p.objects w).started_at))
        (λ _. c.delay_reset _ _ _ _ (delete-Kept c p w v)) (λ _. delete-Kept c p w v)

  run_next-Kept :
      (env : Env) (p : Pool) (jobs : List Job) (wait : Wait)
      → Kept K p
      → Kept K (run_next o env p jobs wait)
  unfolding run_next
  run_next-Kept env p (job ∷ jobs) idle_lock v = begin_job-Kept c env _ job v
  run_next-Kept env p _ _ v = v

  after-Kept : (p : Pool) (r : Result Pool) → Kept K p → Keeps K r → Kept K (after p r)
  after-Kept p (ok q) v k = k
  after-Kept p (err e) v k = v

  pub step-Kept :
      (env : Env) (p : Pool) (input : Input)
      → (is_start input ≡ true → K p.workers p.next_worker_id p.recovery_delay_ms false)
      → Kept K p
      → Kept K (step o env p input)
  unfolding step begin_start begin_stop arm_reaper handle_event handle_exit
  step-Kept env p (calls_start call) s v = s refl
  step-Kept env p (calls_stop call) s v = c.halted _ _ _ _ v
  step-Kept env p (calls_new call cwd) _ v = v
  step-Kept env p (calls_session call t cwd path) _ v = v
  step-Kept env p minimum_reached _ v = v
  step-Kept env p (retains w) _ v = after-Kept p (retain p w) v (retain-Keeps c p w v)
  step-Kept env p (releases w t) _ v = release-Kept c env p w t v
  step-Kept env p (writes w worker) _ v = v
  step-Kept env p (sends_event w event) _ v = v
  step-Kept env p (exits w info) _ v =
      if_cases (Kept K) (is_crashed (p.objects w).state)
        (λ _. schedule-Kept c (lose_worker env p w info) (lose_worker-Kept env p w info v)) (λ _. v)
  step-Kept env p reaper_fires _ v = ground arith
  step-Kept env p recovery_fires _ v = ground arith
  step-Kept env p lock_passes _ v = run_next-Kept env p p.lifecycle p.running v
  step-Kept env p (settles s) _ v = resume-Kept env p p.running s v
