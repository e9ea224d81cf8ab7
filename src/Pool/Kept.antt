-- ===== src/Pool/Kept.antt =====
-- What the steps of the pool do to its map of workers, the next id, the delay of a recovery and
-- `stopped`: a property of these that the few primitive changes keep is kept by every step.
pub mod Steps
pub mod Runs
use pi_threads.Base.{
  ℕ, ◌+◌, ◌*◌, ◌<◌, ◌≡◌, min, Bool, true, false, String, List, [], ◌∷◌, ◌++◌, arith, length, leb,
  ◌||◌, if_cases,
}
use pi_threads.Protocol.Errors.{DaemonError}
use pi_threads.Pool.State.{
  Pool, WorkerPoolOptions, Env, Origin, start, recovery, Purpose, for_new, for_session, for_minimum,
  remove, delete_worker,
}
use pi_threads.Pool.Reserve.{target, schedule_minimum_recovery}
use pi_threads.Pool.Acquire.{fail_maintain, fail_spawn, fail_select, add_worker}

abbrev pub Property : Type 1
Property = (workers : List ℕ) (next delay : ℕ) (is_stopped : Bool) → Type 0

abbrev pub Kept : Property → Pool → Type 0
Kept K p = K p.workers p.next_worker_id p.recovery_delay_ms p.is_stopped

-- The primitive changes: a worker leaves, all leave, one is added where there is room and the pool
-- is not stopped, the delay doubles up to its limit or is reset, and the pool stops.
pub record Closed (o : WorkerPoolOptions) (K : Property) : Type 0 where
  pub removed : (w : ℕ) (ws : List ℕ) (n d : ℕ) (b : Bool) → K ws n d b → K (remove w ws) n d b
  pub cleared : (ws : List ℕ) (n d : ℕ) (b : Bool) → K ws n d b → K [] n d b
  pub added :
      (ws : List ℕ) (n d : ℕ) (b : Bool)
      → b ≡ false
      → length ws < o.max_workers
      → K ws n d b
      → K (ws ++ n ∷ []) (n + 1) d b
  pub delayed : (ws : List ℕ) (n d : ℕ) (b : Bool) → K ws n d b → K ws n (min (d * 2) 30_000) b
  pub delay_reset : (ws : List ℕ) (n d : ℕ) (b : Bool) → K ws n d b → K ws n 1_000 b
  pub halted : (ws : List ℕ) (n d : ℕ) (b : Bool) → K ws n d b → K ws n d true

module _ {o : WorkerPoolOptions} {K : Property} (c : Closed o K) where
  pub delete-Kept : (p : Pool) (w : ℕ) → Kept K p → Kept K (delete_worker p w)
  unfolding delete_worker
  delete-Kept p w v = c.removed w _ _ _ _ v

  pub schedule-Kept : (p : Pool) → Kept K p → Kept K (schedule_minimum_recovery o p)
  unfolding schedule_minimum_recovery
  schedule-Kept p v =
      if_cases (Kept K) (p.is_stopped || p.recovery_timer || leb (target o) (length p.workers))
        (λ _. v) (λ _. c.delayed _ _ _ _ v)

  pub add_worker-Kept :
      (env : Env) (p : Pool) (cwd : String)
      → p.is_stopped ≡ false
      → length p.workers < o.max_workers
      → Kept K p
      → Kept K (add_worker env p cwd)
  unfolding add_worker
  add_worker-Kept env p cwd on room v = c.added _ _ _ _ on room v

  pub fail_maintain-Kept :
      (p : Pool) (origin : Origin) (error : DaemonError)
      → Kept K p
      → Kept K (fail_maintain o p origin error)
  unfolding fail_maintain
  fail_maintain-Kept p (start call) error v = v
  fail_maintain-Kept p recovery error v = schedule-Kept _ v

  pub fail_spawn-Kept :
      (p : Pool) (purpose : Purpose) (error : DaemonError)
      → Kept K p
      → Kept K (fail_spawn o p purpose error)
  unfolding fail_spawn
  fail_spawn-Kept p (for_new call) error v = schedule-Kept p v
  fail_spawn-Kept p (for_session call _ _) error v = schedule-Kept p v
  fail_spawn-Kept p (for_minimum origin) error v = fail_maintain-Kept p origin error v

  pub fail_select-Kept :
      (p : Pool) (purpose : Purpose) (error : DaemonError)
      → Kept K p
      → Kept K (fail_select o p purpose error)
  unfolding fail_select
  fail_select-Kept p (for_new call) error v = v
  fail_select-Kept p (for_session call _ _) error v = v
  fail_select-Kept p (for_minimum origin) error v = fail_maintain-Kept p origin error v
