-- ===== src/Session/Unchanged.antt =====
-- What assertUnchanged notices of a file that a worker has written.
use pi_threads.Base.{
  ℕ, ◌==◌, ◌&&◌, same_text, ◌≡◌, refl, sym, ap, ◌∙◌, subst, String, Bool, true, false, not, ◌||◌,
  List, [], ◌∷◌, Option, none, some, if_cases, eq_iff, str_eq, arith, All,
}
use pi_threads.Protocol.Errors.{Result, ok, err, external_writer_detected}
use pi_threads.Session.Entries.{Host, File, is_full}
use pi_threads.Session.Info.{SessionInfo}
use pi_threads.Session.Catalog.{
  Disk, Catalog, FileBaseline, WorkerState, exists, set_session, set_unpersisted, cache,
  has_baseline, is_same_sample, compare_baseline, sample_file, sample_baseline, keep_baseline,
  record_baseline, check_baseline, assert_unchanged, text_or, update_session, update_found,
  session_of_state, update_from_worker_state, info_from_path,
}
use pi_threads.Session.Listing.{
  Dirs, sessions_of, resolve_path, resolve_cached, resolve_id, begin_resolve,
}
use pi_threads.Session.Runs.{Input, lists, resolves, updates, step, run, or_catalog}

cache-baselines :
    (c : Catalog) (sessions : List SessionInfo) → (cache c sessions).baselines ≡ c.baselines
unfolding cache
cache-baselines c [] = refl
cache-baselines c (s ∷ ss) = cache-baselines (set_session c s.id (some s)) ss

-- How the check of a baseline ends: it passes, or says that another has written.
abbrev pub Checks : Bool → Result (Unit {0}) → Type 0
Checks b (ok _) = b ≡ true
Checks b (err error) = (b ≡ false) × (error.code ≡ external_writer_detected)

-- A file is the same when its size, its time and its last entry are.
abbrev pub is_same : Option FileBaseline → Option FileBaseline → Bool
is_same (some a) (some b) =
    a.size == b.size && a.mtime_ms == b.mtime_ms && same_text a.last_entry_hash b.last_entry_hash
is_same _ _ = false

module _ (host : Host) where
  check-Checks :
      (disk : Disk) (b : FileBaseline) (now : Option FileBaseline)
      → Checks (is_same now (some b)) (compare_baseline b now)
  check-Checks disk b none = (refl, refl)
  check-Checks disk b (some a) =
      if_cases {A = Result (Unit {0})} (Checks (is_same_sample a b)) (not (is_same_sample a b))
        (λ e. (ground arith, refl)) (λ e. ground arith)

  -- The baseline that is kept of a session with a file.
  abbrev pub IsKept : String → Option FileBaseline → Catalog → Type 0
  IsKept id b c = c.baselines id ≡ b

  sample-cases :
      (disk : Disk) (path : String)
      → exists disk path ≡ true
      → (b : FileBaseline) × (sample_baseline host disk path ≡ some b) × (b.path ≡ path)
  unfolding sample_baseline
  sample-cases disk path h = of_file (disk.files path) h
    where
      of_file :
          (f : Option File)
          → (elim f [ none ↦ false | some _ ↦ true ]) ≡ true
          → (b : FileBaseline) × (sample_file host path f ≡ some b) × (b.path ≡ path)
      of_file none h = absurd (ground arith)
      of_file (some file) h = (_, refl, refl)

  keep_lem :
      (c : Catalog) (id : String) (o : Option FileBaseline) (b : FileBaseline)
      → o ≡ some b
      → IsKept id (some b) (keep_baseline host c id o)
  keep_lem c id o b e =
      subst (λ o. IsKept id (some b) (keep_baseline host c id o)) (sym e)
        (let same = eq_iff id id in ground arith)

  update-IsKept :
      (c : Catalog) (disk : Disk) (s : SessionInfo) (b : FileBaseline)
      → exists disk s.path ≡ true
      → sample_baseline host disk s.path ≡ some b
      → IsKept s.id (some b) (update_session host c disk s)
  unfolding record_baseline
  update-IsKept c disk s b h e =
      if_cases (IsKept s.id (some b)) (exists disk s.path)
        (λ _.
          keep_lem (set_unpersisted (cache c (s ∷ [])) s.id false) s.id
            (sample_baseline host disk s.path) b e)
        (λ e'. absurd (ground arith))

  other-IsKept :
      (c : Catalog) (id thread : String) (o : Option FileBaseline) (b : Option FileBaseline)
      → str_eq id thread ≡ false
      → IsKept id b c
      → IsKept id b (keep_baseline host c thread o)
  other-IsKept c id thread none b h v = v
  other-IsKept c id thread (some a) b h v = ground arith

  cache-IsKept :
      (c : Catalog) (id : String) (b : Option FileBaseline) (ss : List SessionInfo)
      → IsKept id b c
      → IsKept id b (cache c ss)
  cache-IsKept c id b ss v = ap (λ f. f id) (cache-baselines c ss) ∙ v

  -- Whether a session has an id.
  abbrev pub has_id : String → Option SessionInfo → Bool
  has_id id none = false
  has_id id (some s) = str_eq id s.id

  found-IsKept :
      (c : Catalog) (disk : Disk) (id : String) (b : Option FileBaseline) (s : Option SessionInfo)
      → has_id id s ≡ false
      → IsKept id b c
      → IsKept id b (or_catalog c (update_found host c disk s))
  unfolding record_baseline
  found-IsKept c disk id b none h v = v
  found-IsKept c disk id b (some s) h v =
      let w = cache-IsKept c id b (s ∷ []) v in
      if_cases (IsKept id b) (exists disk s.path)
        (λ _.
          other-IsKept (set_unpersisted (cache c (s ∷ [])) s.id false) id s.id
            (sample_baseline host disk s.path) b h w)
        (λ _. if_cases (IsKept id b) (not (has_baseline (c.baselines s.id))) (λ _. w) (λ _. w))

  -- Whether a worker's state is of another session.
  abbrev pub is_of_other : String → Disk → ℕ → WorkerState → Bool
  is_of_other id disk now s = not (
      has_id id (
        session_of_state host disk now (text_or host s.session_id "")
          (text_or host s.session_file "") s))

  state-IsKept :
      (c : Catalog) (disk : Disk) (now : ℕ) (s : WorkerState) (id : String)
      (b : Option FileBaseline)
      → is_of_other id disk now s ≡ true
      → IsKept id b c
      → IsKept id b (or_catalog c (update_from_worker_state host c disk now s))
  unfolding update_from_worker_state
  state-IsKept c disk now s id b h v =
      let i = text_or host s.session_id "" in
      let path = text_or host s.session_file "" in
      if_cases {A = Option Catalog} (λ r. IsKept id b (or_catalog c r))
        (not (is_full i) || not (is_full path)) (λ _. v)
        (λ _. found-IsKept c disk id b (session_of_state host disk now i path s) (ground arith) v)

  -- No state of a worker is taken up that has the session.
  abbrev pub IsOther : String → Disk × Input → Type 0
  IsOther id (disk, updates now state) = is_of_other id disk now state ≡ true
  IsOther id (disk, _) = Unit

  stored-Checks :
      (disk disk' : Disk) (path : String) (b : FileBaseline) (o : Option FileBaseline)
      → sample_baseline host disk path ≡ some b
      → b.path ≡ path
      → o ≡ sample_baseline host disk path
      → Checks
          (is_same (sample_baseline host disk' path) (sample_baseline host disk path))
          (check_baseline host disk' o)
  stored-Checks disk disk' path b o e p k =
      subst
        (λ o.
          Checks (is_same (sample_baseline host disk' path) (sample_baseline host disk path))
            (check_baseline host disk' o))
        (sym k)
        (subst
          (λ q. Checks (is_same (sample_baseline host disk' path) q) (check_baseline host disk' q))
          (sym e)
          (subst
            (λ q.
              Checks (is_same (sample_baseline host disk' q) (some b))
                (check_baseline host disk' (some b)))
            p (check-Checks disk' b (sample_baseline host disk' b.path))))

module _ (host : Host) (dirs : Dirs) (id : String) (b : Option FileBaseline) where
  abbrev Keeps : Catalog → Type 0
  Keeps c = IsKept host id b c

  cached-Keeps :
      (c : Catalog) (thread : String) (s : Option SessionInfo)
      → Keeps c
      → let r = resolve_cached host dirs c thread s in Keeps r.0
  cached-Keeps c thread none v = v
  cached-Keeps c thread (some s) v =
      let c' = set_session (set_unpersisted c thread false) thread none in
      let w = cache-IsKept host c' id b (s ∷ []) v in
      if_cases {A = Catalog × _} (λ r. Keeps r.0) (str_eq s.id thread) (λ _. w) (λ _. w)

  id-Keeps :
      (c : Catalog) (disk : Disk) (thread : String) (cached : Option SessionInfo)
      → Keeps c
      → let r = resolve_id host dirs c disk thread cached in Keeps r.0
  id-Keeps c disk thread none v = v
  id-Keeps c disk thread (some s) v =
      if_cases {A = Catalog × _} (λ r. Keeps r.0) (exists disk s.path)
        (λ _. cached-Keeps c thread (info_from_path host disk s.path none none) v)
        (λ _. if_cases {A = Catalog × _} (λ r. Keeps r.0) (c.unpersisted thread) (λ _. v) (λ _. v))

  path-Keeps :
      (c : Catalog) (s : Option SessionInfo)
      → Keeps c
      → let r = resolve_path host dirs c s in Keeps r.0
  path-Keeps c none v = v
  path-Keeps c (some s) v = cache-IsKept host c id b (s ∷ []) v

  resolve-Keeps :
      (c : Catalog) (disk : Disk) (thread : String)
      → Keeps c
      → let r = begin_resolve host dirs c disk thread in Keeps r.0
  unfolding begin_resolve
  resolve-Keeps c disk thread v =
      if_cases {A = Catalog × _} (λ r. Keeps r.0) (exists disk thread)
        (λ _. path-Keeps c (info_from_path host disk (host.resolve thread) none none) v)
        (λ _. id-Keeps c disk thread (c.by_id thread) v)

  step-Keeps :
      (c : Catalog) (disk : Disk) (input : Input)
      → IsOther host id (disk, input)
      → Keeps c
      → Keeps (step host dirs c disk input)
  unfolding step
  step-Keeps c disk (lists is_directory cwd) o v =
      cache-IsKept host c id b (sessions_of host dirs disk is_directory cwd) v
  step-Keeps c disk (resolves thread) o v = resolve-Keeps c disk thread v
  step-Keeps c disk (updates now state) o v = state-IsKept host c disk now state id b o v

  run-Keeps :
      (c : Catalog) (inputs : List (Disk × Input))
      → All (IsOther host id) inputs
      → Keeps c
      → Keeps (run host dirs c inputs)
  unfolding run
  run-Keeps c [] o v = v
  run-Keeps c ((disk, input) ∷ rest) (o, os) v =
      run-Keeps (step host dirs c disk input) rest os (step-Keeps c disk input o v)

module _ (host : Host) (dirs : Dirs) where
  -- After the state of a worker was taken up for a session with a file, whatever is listed, resolved or
  -- taken up for other sessions, `assertUnchanged` passes exactly if the file that is there then has
  -- the size, the time and the last entry that it had; otherwise it reports an external writer.
  pub run-Checks :
      (c : Catalog) (disk disk' : Disk) (s : SessionInfo) (inputs : List (Disk × Input))
      → exists disk s.path ≡ true
      → All (IsOther host s.id) inputs
      → Checks
          (is_same (sample_baseline host disk' s.path) (sample_baseline host disk s.path))
          (assert_unchanged host (run host dirs (update_session host c disk s) inputs) disk' s.id)
  unfolding assert_unchanged
  run-Checks c disk disk' s inputs h o =
      let (b, e, p) = sample-cases host disk s.path h in
      let k =
        run-Keeps host dirs s.id (sample_baseline host disk s.path) (update_session host c disk s)
          inputs o (update-IsKept host c disk s b h e ∙ sym e) in
      stored-Checks host disk disk' s.path b _ e p k
