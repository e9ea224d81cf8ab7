-- ===== src/Pool/Eviction.antt =====
-- Whom the pool stops to make room, and whom the reaper stops.
use pi_threads.Base.{
  ℕ, ◌≤◌, ◌<◌, ◌≡◌, refl, Bool, true, false, List, [], ◌∷◌, Option, none, some, arith, ◌≢◌, ◌==◌,
  ◌||◌, subst, if_cases, All, All-filter, length, filter, leb, if◌then◌else◌,
}
use pi_threads.Pool.State.{Pool, WorkerPoolOptions, Env, reaping}
use pi_threads.Pool.Reserve.{is_reclaimable}
use pi_threads.Pool.Machine.{reap_next, reap_candidates, has_expired, reap_idle_workers}
use pi_threads.Pool.Acquire.{first, sort_by, insert_by, last_used, choose_victim}

-- The head of a list sorted by insertion.
abbrev lesser {ℓ} : {A : Type ℓ} → (A → ℕ) → A → Option A → A
lesser key x none = x
lesser key x (some y) = if leb (key x) (key y) then x else y

module _ {ℓ} {A : Type ℓ} (key : A → ℕ) where
  first-insert_by :
      (x : A) (xs : List A) → first (insert_by key x xs) ≡ some (lesser key x (first xs))
  first-insert_by x [] = refl
  first-insert_by x (y ∷ ys) = ground arith

  All-le_trans : (a b : ℕ) (xs : List A) → a ≤ b → All (λ u. b ≤ key u) xs → All (λ u. a ≤ key u) xs
  All-le_trans a b [] h _ = tt
  All-le_trans a b (x ∷ xs) h (p, k) = (omega arith, All-le_trans a b xs h k)

  first-sort_by-none : (xs : List A) → first (sort_by key xs) ≡ none → xs ≡ []
  first-sort_by-none [] e = refl
  first-sort_by-none (x ∷ xs) e = cc (first-insert_by x (sort_by key xs))

  All-lesser :
      (x : A) (xs : List A) (f : Option A)
      → (f ≡ none → xs ≡ [])
      → ((y : A) → f ≡ some y → All (λ u. key y ≤ key u) xs)
      → All (λ u. key (lesser key x f) ≤ key u) (x ∷ xs)
  All-lesser x xs none e _ = rw (e refl) (omega arith, tt)
  All-lesser x xs (some y) _ h =
      if_cases (λ z. All (λ u. key z ≤ key u) (x ∷ xs)) (leb (key x) (key y))
        (λ lt. (omega arith, All-le_trans (key x) (key y) xs (ground arith) (h y refl)))
        (λ gt. (ground arith, h y refl))

  -- The first of a sorted list has the least key of all.
  first-sort_by :
      (xs : List A) (v : A) → first (sort_by key xs) ≡ some v → All (λ u. key v ≤ key u) xs
  first-sort_by [] v e = tt
  first-sort_by (x ∷ xs) v e =
      let least =
        All-lesser x xs (first (sort_by key xs)) (first-sort_by-none xs)
          (λ y. first-sort_by xs y) in
      let same : lesser key x (first (sort_by key xs)) ≡ v =
        cc (first-insert_by x (sort_by key xs)) in
      subst (λ z. All (λ u. key z ≤ key u) (x ∷ xs)) same least

  first-sort_by-Any :
      (t : A → Bool) (xs : List A) (v : A)
      → All (λ u. t u ≡ true) xs
      → first (sort_by key xs) ≡ some v
      → t v ≡ true
  first-sort_by-Any t [] v h e = cc
  first-sort_by-Any t (x ∷ xs) v (p, h) e =
      from_lesser (first (sort_by key xs)) (λ y. first-sort_by-Any t xs y h)
        (cc (first-insert_by x (sort_by key xs)))
    where
      from_lesser :
          (f : Option A) → ((y : A) → f ≡ some y → t y ≡ true) → lesser key x f ≡ v → t v ≡ true
      from_lesser none ih e' = rw (← e') p
      from_lesser (some y) ih e' = ground (arith, ih y)

filter-All {ℓ} : {A : Type ℓ} (t : A → Bool) (xs : List A) → All (λ u. t u ≡ true) (filter t xs)
filter-All t [] = tt
filter-All t (x ∷ xs) = ground (arith, filter-All t xs)

-- To make room at capacity, `selectWorker` stops a worker only if it is reclaimable, and of the
-- reclaimable workers of the pool one that was used longest ago.
pub choose_victim-oldest :
    (env : Env) (p : Pool) (v : ℕ)
    → choose_victim env p ≡ some v
    → (is_reclaimable env p v ≡ true)
      × All (λ u. last_used p v ≤ last_used p u) (filter (is_reclaimable env p) p.workers)
unfolding choose_victim
choose_victim-oldest env p v e = (
  first-sort_by-Any (last_used p) (is_reclaimable env p) _ v (filter-All _ p.workers) e,
  first-sort_by (last_used p) _ v e,
)

-- It finds none only if no worker of the pool is reclaimable.
pub choose_victim-none :
    (env : Env) (p : Pool)
    → choose_victim env p ≡ none
    → filter (is_reclaimable env p) p.workers ≡ []
unfolding choose_victim
choose_victim-none env p e = first-sort_by-none (last_used p) _ e

-- Whichever list it goes through, the loop of the reaper stops a worker only if that is
-- reclaimable and the pool has more than `minWorkers` workers.
pub reap_next-reaping :
    (o : WorkerPoolOptions) (env : Env) (p : Pool) (ws rest : List ℕ) (w : ℕ)
    → (reap_next o env p ws).running ≡ reaping w rest
    → (is_reclaimable env p w ≡ true) × (o.min_workers < length p.workers)
unfolding reap_next
reap_next-reaping o env p [] rest w h = cc
reap_next-reaping o env p (x ∷ xs) rest w h =
    if_cases Stops (leb (length p.workers) o.min_workers) (λ _ e. cc)
      (λ room.
        if_cases Stops (is_reclaimable env p x) (λ r e. (stopped_is r (cc), ground arith))
          (λ _. reap_next-reaping o env p xs rest w))
      h
  where
    Stops : Pool → Type 0
    Stops q =
        q.running ≡ reaping w rest
        → (is_reclaimable env p w ≡ true) × (o.min_workers < length p.workers)

    stopped_is : is_reclaimable env p x ≡ true → x ≡ w → is_reclaimable env p w ≡ true
    stopped_is r e = rw (← e) r

first_reaped :
    (o : WorkerPoolOptions) (env : Env) (p : Pool) (ws rest : List ℕ) (w : ℕ)
    → ((v : ℕ) → first ws ≡ some v → is_reclaimable env p v ≡ true)
    → (reap_next o env p ws).running ≡ reaping w rest
    → first ws ≡ some w
unfolding reap_next
first_reaped o env p [] rest w ready h = cc
first_reaped o env p (x ∷ xs) rest w ready h = ground (arith, ready x refl)

filter-filter-All {ℓ} :
    {A : Type ℓ} (t s : A → Bool) (xs : List A) → All (λ u. t u ≡ true) (filter s (filter t xs))
filter-filter-All t s xs = All-filter (λ u. t u ≡ true) s (filter t xs) (filter-All t xs)

-- When the reaper stops a first worker, that worker is reclaimable and has been idle for
-- `idleTtlMs`, was used longest ago of all such workers of the pool, and the pool has more than
-- `minWorkers` workers, is not stopped and reaps at all.
pub reap_idle_workers-oldest :
    (o : WorkerPoolOptions) (env : Env) (p : Pool) (rest : List ℕ) (w : ℕ)
    → (reap_idle_workers o env p).running ≡ reaping w rest
    → (is_reclaimable env p w ≡ true)
      × (has_expired o env p w ≡ true)
      × All
          (λ u. last_used p w ≤ last_used p u)
          (filter (has_expired o env p) (filter (is_reclaimable env p) p.workers))
      × (o.min_workers < length p.workers)
      × (p.is_stopped ≡ false)
      × (o.idle_ttl_ms ≢ 0)
unfolding reap_idle_workers reap_candidates
reap_idle_workers-oldest o env p rest w h =
    if_cases Stops (p.is_stopped || o.idle_ttl_ms == 0) (λ _ e. cc) started h
  where
    candidates : List ℕ
    candidates = filter (has_expired o env p) (filter (is_reclaimable env p) p.workers)

    Stops : Pool → Type 0
    Stops q =
        q.running ≡ reaping w rest
        → (is_reclaimable env p w ≡ true)
          × (has_expired o env p w ≡ true)
          × All (λ u. last_used p w ≤ last_used p u) candidates
          × (o.min_workers < length p.workers)
          × (p.is_stopped ≡ false)
          × (o.idle_ttl_ms ≢ 0)

    started :
        (p.is_stopped || o.idle_ttl_ms == 0) ≡ false
        → Stops (reap_next o env p (reap_candidates o env p))
    started on e =
        let head =
          first_reaped o env p (reap_candidates o env p) rest w
            (λ v s.
              first-sort_by-Any (last_used p) (is_reclaimable env p) candidates v
                (filter-filter-All (is_reclaimable env p) (has_expired o env p) p.workers) s)
            e in
        let (ready, room) = reap_next-reaping o env p (reap_candidates o env p) rest w e in
        (
          ready,
          first-sort_by-Any (last_used p) (has_expired o env p) candidates w
              (filter-All (has_expired o env p) (filter (is_reclaimable env p) p.workers)) head,
          first-sort_by (last_used p) candidates w head,
          room,
          ground arith,
          ground arith,
        )
