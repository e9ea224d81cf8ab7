-- ===== src/Pool/Selection.antt =====
-- Which worker a caller gets, and that nobody else can use it then.
use pi_threads.Base.{
  ℕ, ◌+◌, ◌≡◌, refl, ◌⊎◌, Bool, true, false, String, List, [], ◌∷◌, Option, none, some, arith,
  length, subst, if_cases, leb, find, eq_iff,
}
use pi_threads.Protocol.Errors.{DaemonError, Result, ok, err}
use pi_threads.Worker.{assigned, is_dead, is_unavailable_worker}
use pi_threads.Pool.State.{
  Pool, WorkerPoolOptions, Env, Origin, start, recovery, Purpose, for_new, for_session, for_minimum,
  Wait, idle_lock, delivered, update, mem, set_worker,
}
use pi_threads.Pool.Reserve.{
  assert_running, serves, is_quiescent, is_reclaimable, retain, reserve_for_assignment,
  schedule_minimum_recovery,
}
use pi_threads.Pool.Acquire.{
  is_candidate, fail_maintain, fail_spawn, fail_select, await_start, spawn, evict, make_room,
  deliver, select_found, select_worker,
}

-- What is true of a worker that a selection takes, in the pool `p` before it.
pub record IsFree (o : WorkerPoolOptions) (env : Env) (p : Pool) (cwd : String) (w : ℕ)
    : Type 0 where
  pub in_map : mem w p.workers ≡ true
  pub reclaimable : is_reclaimable env p w ≡ true
  pub same_workspace : (p.objects w).cwd ≡ cwd
  pub unclaimed : (o.reuse_across_threads ≡ true) ⊎ (p.claimed w ≡ false)

-- What is true of it in the pool `q` that the selection leaves.
pub record IsTaken (q : Pool) (w : ℕ) : Type 0 where
  pub still_there : mem w q.workers ≡ true
  pub reserved_once : q.reservations w ≡ 1
  pub claimed : q.claimed w ≡ true
  pub detached : (q.objects w).thread_id ≡ none
  pub assigned_now : (q.objects w).state ≡ assigned
  pub not_quiescent : is_quiescent q w ≡ false
  pub unseen : (thread_id : String) → serves q thread_id w ≡ false

pub find-eq-some {ℓ} :
    {A : Type ℓ} (t : A → Bool) (xs : List A) (x : A) → find t xs ≡ some x → t x ≡ true
find-eq-some t [] x h = cc
find-eq-some t (y ∷ ys) x h = ground (arith, find-eq-some t ys x)

pub mem-find : (t : ℕ → Bool) (xs : List ℕ) (w : ℕ) → find t xs ≡ some w → mem w xs ≡ true
mem-find t [] w h = cc
mem-find t (y ∷ ys) w h = ground (arith, mem-find t ys w)

module _ (o : WorkerPoolOptions) (env : Env) where
  IsFree-of-candidate :
      (p : Pool) (cwd : String) (w : ℕ)
      → is_candidate o env p cwd w ≡ true
      → mem w p.workers ≡ true
      → IsFree o env p cwd w
  IsFree-of-candidate p cwd w h m = record {
    in_map = m;
    reclaimable = ground arith;
    same_workspace = ground (arith, eq_iff (p.objects w).cwd cwd);
    unclaimed = ground arith;
  }

  reserved : Pool → ℕ → Pool
  reserved p w =
      set_worker
        (record p {
          reservations = update p.reservations w (p.reservations w + 1);
          claimed = update p.claimed w true;
        })
        w (record (p.objects w) { thread_id = none })

  reclaimable_facts :
      (p : Pool) (w : ℕ)
      → is_reclaimable env p w ≡ true
      → (p.retiring w ≡ false) × (is_dead (p.objects w).state ≡ false) × (p.reservations w ≡ 0)
  unfolding is_reclaimable is_quiescent
  reclaimable_facts p w r = ground arith

  reserve_of_reclaimable :
      (p : Pool) (w : ℕ)
      → p.is_stopped ≡ false
      → mem w p.workers ≡ true
      → is_reclaimable env p w ≡ true
      → reserve_for_assignment p w ≡ ok (reserved p w)
  unfolding reserve_for_assignment retain assert_running is_reclaimable is_quiescent
      is_unavailable_worker reserved
  reserve_of_reclaimable p w on m r =
      let (active, alive, _) = reclaimable_facts p w r in rw (on, m, active, alive)

  -- The pool that a selection of `w` leaves.
  abbrev taken : Pool → ℕ → Purpose → Pool
  taken p w purpose = deliver o p w purpose (ok (reserved p w))

  taken-running :
      (p : Pool) (w : ℕ) (purpose : Purpose) → (taken p w purpose).running ≡ delivered w purpose
  unfolding deliver
  taken-running p w purpose = refl

  taken-IsTaken :
      (p : Pool) (purpose : Purpose) (w : ℕ)
      → mem w p.workers ≡ true
      → p.reservations w ≡ 0
      → IsTaken (taken p w purpose) w
  unfolding deliver reserved is_quiescent
  taken-IsTaken p purpose w m zero_before = record {
    still_there = m;
    reserved_once = ground arith;
    claimed = ground arith;
    detached = ground arith;
    assigned_now = ground arith;
    not_quiescent = ground arith;
    unseen = λ thread_id. ground arith;
  }

  -- A selection only rejects, waits for a victim, or waits for a process to start.
  abbrev is_delivered : Wait → Bool
  is_delivered (delivered _ _) = true
  is_delivered _ = false

  schedule-running : (p : Pool) → (schedule_minimum_recovery o p).running ≡ p.running
  unfolding schedule_minimum_recovery
  schedule-running p = ground arith

  fail_maintain-running :
      (p : Pool) (origin : Origin) (e : DaemonError)
      → (fail_maintain o p origin e).running ≡ idle_lock
  unfolding fail_maintain
  fail_maintain-running p (start call) e = refl
  fail_maintain-running p recovery e = schedule-running _

  fail_spawn-running :
      (p : Pool) (purpose : Purpose) (e : DaemonError)
      → (fail_spawn o p purpose e).running ≡ idle_lock
  unfolding fail_spawn
  fail_spawn-running p (for_new call) e = refl
  fail_spawn-running p (for_session call _ _) e = refl
  fail_spawn-running p (for_minimum origin) e = fail_maintain-running p origin e

  fail_select-running :
      (p : Pool) (purpose : Purpose) (e : DaemonError)
      → (fail_select o p purpose e).running ≡ idle_lock
  unfolding fail_select
  fail_select-running p (for_new call) e = refl
  fail_select-running p (for_session call _ _) e = refl
  fail_select-running p (for_minimum origin) e = fail_maintain-running p origin e

  await_start-not_delivered :
      (p : Pool) (w : ℕ) (cwd : String) (purpose : Purpose) (r : Result Pool)
      → is_delivered (await_start o p w cwd purpose r).running ≡ false
  unfolding await_start
  await_start-not_delivered p w cwd purpose (ok q) = refl
  await_start-not_delivered p w cwd purpose (err e) = rw (fail_spawn-running p purpose e)

  evict-not_delivered :
      (p : Pool) (cwd : String) (purpose : Purpose) (victim : Option ℕ)
      → is_delivered (evict o p cwd purpose victim).running ≡ false
  unfolding evict
  evict-not_delivered p cwd purpose none = rw (fail_select-running p purpose _)
  evict-not_delivered p cwd purpose (some v) = refl

  abbrev NotDelivered : Pool → Type 0
  NotDelivered q = is_delivered q.running ≡ false

  make_room-NotDelivered :
      (p : Pool) (cwd : String) (purpose : Purpose) → NotDelivered (make_room o env p cwd purpose)
  unfolding make_room spawn
  make_room-NotDelivered p cwd purpose =
      if_cases NotDelivered (leb o.max_workers (length p.workers))
        (λ _. evict-not_delivered p cwd purpose _)
        λ _.
          if_cases NotDelivered p.is_stopped (λ _. rw (fail_spawn-running p purpose _))
            λ _.
              if_cases NotDelivered (leb o.max_workers (length p.workers))
                (λ _. rw (fail_spawn-running p purpose _))
                (λ _. await_start-not_delivered _ _ cwd purpose _)

  delivered_cases :
      (p : Pool) (cwd : String) (purpose : Purpose) (found : Option ℕ) (w : ℕ) (pu : Purpose)
      → p.is_stopped ≡ false
      → find (is_candidate o env p cwd) p.workers ≡ found
      → (select_found o env p cwd purpose found).running ≡ delivered w pu
      → IsFree o env p cwd w × IsTaken (select_found o env p cwd purpose found) w
  unfolding select_found
  delivered_cases p cwd purpose none w pu on e h = cc (make_room-NotDelivered p cwd purpose)
  delivered_cases p cwd purpose (some v) w pu on e h =
      let m = mem-find (is_candidate o env p cwd) p.workers v e in
      let free = IsFree-of-candidate p cwd v (find-eq-some _ p.workers v e) m in
      let (_, _, unreserved) = reclaimable_facts p v free.reclaimable in
      let same = reserve_of_reclaimable p v on m free.reclaimable in
      let v_is_w : v ≡ w = cc (taken-running p v purpose, same) in
      subst
        (λ u. IsFree o env p cwd u × IsTaken (deliver o p v purpose (reserve_for_assignment p v)) u)
        v_is_w (free, rw same (taken-IsTaken p purpose v m unreserved))

  -- A selection hands over a worker only if it is in the map, runs in the workspace asked for, may
  -- be taken (nothing reserves it, no turn and no command of it runs, it is not retiring, its
  -- session is saved) and, where workers serve one thread only, was never claimed. In the pool that
  -- it leaves, that worker has exactly one reservation, is claimed, is no candidate any more, and
  -- no thread is served by it.
  pub select_worker-IsTaken :
      (p : Pool) (cwd : String) (purpose : Purpose) (w : ℕ) (pu : Purpose)
      → p.is_stopped ≡ false
      → (select_worker o env p cwd purpose).running ≡ delivered w pu
      → IsFree o env p cwd w × IsTaken (select_worker o env p cwd purpose) w
  unfolding select_worker
  select_worker-IsTaken p cwd purpose w pu on h = delivered_cases p cwd purpose _ w pu on refl h
