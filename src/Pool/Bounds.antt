-- ===== src/Pool/Bounds.antt =====
-- The size of the pool, the ids of its workers and the delay of a recovery, whatever the callers,
-- the processes and the timers do, in any order.
use pi_threads.Base.{
  ℕ, ◌+◌, ◌≤◌, ◌<◌, ◌≡◌, refl, Bool, false, not, List, [], ◌∷◌, ◌++◌, arith, All, All-filter,
  All-append, length, length-filter-le, length-append, ◌==◌, filter,
}
use pi_threads.Pool.State.{Pool, WorkerPoolOptions, Env, mem, new_pool}
use pi_threads.Pool.Inputs.{Input, step, run}
use pi_threads.Pool.Kept.{Closed}
use pi_threads.Pool.Kept.Runs.{step-Kept}

abbrev pub Distinct : List ℕ → Type 0
Distinct [] = Unit
Distinct (x ∷ xs) = (mem x xs ≡ false) × Distinct xs

-- Bounds on the three fields of the pool that count.
pub record Bounds (o : WorkerPoolOptions) (workers : List ℕ) (next delay : ℕ) : Type 0 where
  pub fits : length workers ≤ o.max_workers
  pub fresh : All (λ w. w < next) workers
  pub distinct : Distinct workers
  pub slow_enough : 1_000 ≤ delay
  pub fast_enough : delay ≤ 30_000

abbrev pub IsBounded : WorkerPoolOptions → Pool → Type 0
IsBounded o p = Bounds o p.workers p.next_worker_id p.recovery_delay_ms

mem-filter : (t : ℕ → Bool) (k : ℕ) (xs : List ℕ) → mem k xs ≡ false → mem k (filter t xs) ≡ false
mem-filter t k [] h = refl
mem-filter t k (x ∷ xs) h = ground (arith, mem-filter t k xs)

Distinct-filter : (t : ℕ → Bool) (xs : List ℕ) → Distinct xs → Distinct (filter t xs)
Distinct-filter t [] d = tt
Distinct-filter t (x ∷ xs) (m, d) = ground (arith, Distinct-filter t xs d, mem-filter t x xs m)

mem_fresh : (next : ℕ) (xs : List ℕ) → All (λ w. w < next) xs → mem next xs ≡ false
mem_fresh next [] h = refl
mem_fresh next (x ∷ xs) (p, h) = ground (arith, mem_fresh next xs h)

mem-snoc :
    (k next : ℕ) (xs : List ℕ) → mem k xs ≡ false → k < next → mem k (xs ++ next ∷ []) ≡ false
mem-snoc k next [] h l = ground arith
mem-snoc k next (x ∷ xs) h l = ground (arith, mem-snoc k next xs)

Distinct-snoc :
    (next : ℕ) (xs : List ℕ) → Distinct xs → All (λ w. w < next) xs → Distinct (xs ++ next ∷ [])
Distinct-snoc next [] d h = (refl, tt)
Distinct-snoc next (x ∷ xs) (m, d) (l, h) = (mem-snoc x next xs m l, Distinct-snoc next xs d h)

All-lt-suc : (next : ℕ) (xs : List ℕ) → All (λ w. w < next) xs → All (λ w. w < next + 1) xs
All-lt-suc next [] h = tt
All-lt-suc next (x ∷ xs) (l, h) = (omega arith, All-lt-suc next xs h)

module _ (o : WorkerPoolOptions) where
  pub Bounds-Closed : Closed o (λ ws n d _. Bounds o ws n d)
  Bounds-Closed = record {
    removed = λ w ws n d b v.
        let shorter = length-filter-le (λ x. not (x == w)) ws in
        record {
          fits = let fits = v.fits in omega arith;
          fresh = All-filter (λ x. x < n) _ ws v.fresh;
          distinct = Distinct-filter _ ws v.distinct;
          slow_enough = v.slow_enough;
          fast_enough = v.fast_enough;
        };
    cleared = λ ws n d b v. ground arith;
    added = λ ws n d b on room v. record {
      fits = let longer = length-append ws (n ∷ []) in omega arith;
      fresh = All-append (λ w. w < n + 1) ws _ (All-lt-suc n ws v.fresh) (omega arith, tt);
      distinct = Distinct-snoc n ws v.distinct v.fresh;
      slow_enough = v.slow_enough;
      fast_enough = v.fast_enough;
    };
    delayed = λ ws n d b v. ground arith;
    delay_reset = λ ws n d b v. ground arith;
    halted = λ ws n d b v. v;
  }

  -- A pool within its bounds stays within them, whatever its callers, its workers' processes and
  -- its timers do and however these interleave with the waits of its operations: it has at most
  -- `maxWorkers` workers, of distinct ids below the next one, and a recovery waits between one and
  -- thirty seconds.
  pub run-IsBounded :
      (p : Pool) (inputs : List (Env × Input)) → IsBounded o p → IsBounded o (run o p inputs)
  unfolding run
  run-IsBounded p [] v = v
  run-IsBounded p ((env, input) ∷ rest) v =
      run-IsBounded (step o env p input) rest (step-Kept Bounds-Closed env p input (λ _. v) v)

  -- So is the pool that the constructor makes.
  pub new_pool-IsBounded : IsBounded o new_pool
  new_pool-IsBounded = omega arith
