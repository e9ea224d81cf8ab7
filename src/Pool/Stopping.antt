-- ===== src/Pool/Stopping.antt =====
-- `stopAll` is final until the next `start`.
use pi_threads.Base.{
  ℕ, ◌≤◌, ◌≡◌, refl, true, false, not, List, [], ◌∷◌, arith, All, length, length-filter-le, ◌==◌,
}
use pi_threads.Value.{Value}
use pi_threads.Pool.State.{Pool, WorkerPoolOptions, Env, stopping}
use pi_threads.Pool.Machine.{fulfilled, resume}
use pi_threads.Pool.Inputs.{Input, settles, is_start, step, run}
use pi_threads.Pool.Kept.{Property, Kept, Closed}
use pi_threads.Pool.Kept.Runs.{step-Kept}

-- Stopped, with at most `most` workers.
abbrev IsStopping : ℕ → Property
IsStopping most workers next delay is_stopped = (is_stopped ≡ true) × (length workers ≤ most)

module _ (o : WorkerPoolOptions) where
  IsStopping-Closed : (most : ℕ) → Closed o (IsStopping most)
  IsStopping-Closed most = record {
    removed =
        λ w ws n d b v. let shorter = length-filter-le (λ x. not (x == w)) ws in (v.0, omega arith);
    cleared = λ ws n d b v. (v.0, omega arith);
    added = λ ws n d b on room v. cc;
    delayed = λ ws n d b v. v;
    delay_reset = λ ws n d b v. v;
    halted = λ ws n d b v. (refl, v.1);
  }

  abbrev pub NoStart : Env × Input → Type 0
  NoStart e = is_start e.1 ≡ false

  run-Kept :
      (most : ℕ) (p : Pool) (inputs : List (Env × Input))
      → All NoStart inputs
      → Kept (IsStopping most) p
      → Kept (IsStopping most) (run o p inputs)
  unfolding run
  run-Kept most p [] h v = v
  run-Kept most p ((env, input) ∷ rest) (no_start, h) v =
      run-Kept most (step o env p input) rest h
        (step-Kept (IsStopping-Closed most) env p input (λ start. cc) v)

  -- Once stopped, a pool that is not started again stays stopped, and whatever else happens it
  -- never has more workers than it had: no operation that was under way, no queued one, no timer
  -- and no exit of a worker brings one in.
  pub run-IsStopping :
      (p : Pool) (inputs : List (Env × Input))
      → All NoStart inputs
      → p.is_stopped ≡ true
      → ((run o p inputs).is_stopped ≡ true) × (length (run o p inputs).workers ≤ length p.workers)
  run-IsStopping p inputs h on = run-Kept (length p.workers) p inputs h (on, omega arith)

  empty_of_length : (ws : List ℕ) → length ws ≤ 0 → ws ≡ []
  empty_of_length [] h = refl
  empty_of_length (w ∷ ws) h = absurd (omega arith)

  -- When all processes of a stopping pool have stopped, the pool is empty, and it stays so until it
  -- is started again.
  pub run-stopping :
      (p : Pool) (env : Env) (call : ℕ) (all_stopped : Value) (inputs : List (Env × Input))
      → p.running ≡ stopping call
      → p.is_stopped ≡ true
      → All NoStart inputs
      → (run o p ((env, settles (fulfilled all_stopped)) ∷ inputs)).workers ≡ []
  unfolding run step resume
  run-stopping p env call all_stopped inputs at on h =
      rw at (empty_of_length _ (run-Kept 0 _ inputs h (on, omega arith)).1)
