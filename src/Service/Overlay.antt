-- ===== src/Service/Overlay.antt =====
-- overlayWorkerThreadStatuses: which threads the list has.
use pi_threads.Base.{
  ◌≡◌, refl, ◌∙◌, String, Bool, true, false, not, ◌&&◌, ◌||◌, List, [], ◌∷◌, ◌++◌, Option, none,
  some, str_eq, arith, if_cases, any, eq_iff,
}
use pi_threads.Worker.{PooledWorker}
use pi_threads.Service.Threads.{
  ThreadSummary, ThreadStatus, set_status, has_thread, status_of, overlay_thread, overlay_worker,
  overlay_worker_thread_statuses, is_in,
}

-- No two entries are of one thread.
abbrev pub IsDistinct : List ThreadSummary → Type 0
IsDistinct [] = Unit
IsDistinct (t ∷ ts) = (has_thread t.thread_id ts ≡ false) × IsDistinct ts

has_thread-set_status :
    (k id : String) (status : ThreadStatus) (ts : List ThreadSummary)
    → has_thread k (set_status id status ts) ≡ has_thread k ts
has_thread-set_status k id status [] = refl
has_thread-set_status k id status (t ∷ ts) =
    let rest = has_thread-set_status k id status ts in ground arith

set_status-IsDistinct :
    (id : String) (status : ThreadStatus) (ts : List ThreadSummary)
    → IsDistinct ts
    → IsDistinct (set_status id status ts)
set_status-IsDistinct id status [] d = d
set_status-IsDistinct id status (t ∷ ts) (h, d) =
    let same = has_thread-set_status t.thread_id id status ts in
    let rest = set_status-IsDistinct id status ts d in ground arith

has_thread-snoc :
    (k : String) (ts : List ThreadSummary) (u : ThreadSummary)
    → has_thread k (ts ++ u ∷ []) ≡ (has_thread k ts || str_eq u.thread_id k)
has_thread-snoc k [] u = ground arith
has_thread-snoc k (t ∷ ts) u = let rest = has_thread-snoc k ts u in ground arith

snoc-IsDistinct :
    (ts : List ThreadSummary) (u : ThreadSummary)
    → IsDistinct ts
    → has_thread u.thread_id ts ≡ false
    → IsDistinct (ts ++ u ∷ [])
snoc-IsDistinct [] u d h = (refl, tt)
snoc-IsDistinct (t ∷ ts) u (h, d) new =
    let rest = snoc-IsDistinct ts u d in
    let same = has_thread-snoc t.thread_id ts u in
    let ids = eq_iff u.thread_id t.thread_id in
    let ids' = eq_iff t.thread_id u.thread_id in ground arith

-- A worker whose thread is listed, with the thread that it has.
abbrev pub shows : Option String → String → PooledWorker → Option String → Bool
shows cwd k w none = false
shows cwd k w (some id) = str_eq id k && not (str_eq id "") && is_in cwd w

module _ (active : String → Bool) (cwd : Option String) where
  overlay_worker-IsDistinct :
      (w : PooledWorker) (id : Option String) (ts : List ThreadSummary)
      → IsDistinct ts
      → IsDistinct (overlay_worker active cwd w id ts)
  overlay_worker-IsDistinct w none ts d = d
  overlay_worker-IsDistinct w (some id) ts d =
      if_cases IsDistinct (str_eq id "" || not (is_in cwd w)) (λ _. d)
        (λ _.
          if_cases IsDistinct (has_thread id ts)
            (λ _. set_status-IsDistinct id (status_of active w id) ts d)
            (λ new. snoc-IsDistinct ts _ d new))

  -- The list of threads never has two entries for one thread, if the catalog has not.
  pub overlay-IsDistinct :
      (ws : List PooledWorker) (ts : List ThreadSummary)
      → IsDistinct ts
      → IsDistinct (overlay_worker_thread_statuses active cwd ws ts)
  unfolding overlay_worker_thread_statuses
  overlay-IsDistinct [] ts d = d
  overlay-IsDistinct (w ∷ ws) ts d =
      overlay-IsDistinct ws (overlay_worker active cwd w w.thread_id ts)
        (overlay_worker-IsDistinct w w.thread_id ts d)

  overlay_thread-has_thread :
      (k id : String) (w : PooledWorker) (ts : List ThreadSummary)
      → has_thread k (overlay_thread active w id ts) ≡ (has_thread k ts || str_eq id k)
  overlay_thread-has_thread k id w ts =
      if_cases (λ q. has_thread k q ≡ (has_thread k ts || str_eq id k)) (has_thread id ts)
        (λ old. has_thread-set_status k id (status_of active w id) ts ∙ known k id ts old)
        (λ _. has_thread-snoc k ts _)
    where
      known :
          (k id : String) (ts : List ThreadSummary)
          → has_thread id ts ≡ true
          → has_thread k ts ≡ (has_thread k ts || str_eq id k)
      known k id ts old = let ids = eq_iff id k in ground arith

  overlay_worker-has_thread :
      (k : String) (w : PooledWorker) (id : Option String) (ts : List ThreadSummary)
      → has_thread k (overlay_worker active cwd w id ts) ≡ (has_thread k ts || shows cwd k w id)
  overlay_worker-has_thread k w none ts = ground arith
  overlay_worker-has_thread k w (some id) ts =
      if_cases (λ q. has_thread k q ≡ (has_thread k ts || shows cwd k w (some id)))
        (str_eq id "" || not (is_in cwd w)) (λ hidden. ground arith)
        (λ kept. let listed = overlay_thread-has_thread k id w ts in ground arith)

  -- The list has exactly the threads of the catalog and those of the workers in the workspace.
  pub overlay-has_thread :
      (k : String) (ws : List PooledWorker) (ts : List ThreadSummary)
      → has_thread k (overlay_worker_thread_statuses active cwd ws ts)
        ≡ (has_thread k ts || any (λ w. shows cwd k w w.thread_id) ws)
  unfolding overlay_worker_thread_statuses
  overlay-has_thread k [] ts = ground arith
  overlay-has_thread k (w ∷ ws) ts =
      let rest = overlay-has_thread k ws (overlay_worker active cwd w w.thread_id ts) in
      let first = overlay_worker-has_thread k w w.thread_id ts in ground arith
