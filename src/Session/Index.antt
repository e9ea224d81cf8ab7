-- ===== src/Session/Index.antt =====
-- The map of sessions by id of src/session/catalog.ts, and what resolveThread makes of it.
use pi_threads.Base.{
  ℕ, ◌≡◌, refl, sym, subst, String, Bool, true, false, not, ◌||◌, List, [], ◌∷◌, Option, none, some,
  any, if_cases, eq_iff, str_eq, arith,
}
use pi_threads.Protocol.Errors.{Result, ok, err}
use pi_threads.Session.Entries.{Host, is_full}
use pi_threads.Session.Info.{SessionInfo}
use pi_threads.Session.Catalog.{
  Disk, Catalog, WorkerState, exists, set_session, set_unpersisted, cache, has_baseline,
  keep_baseline, sample_baseline, record_baseline, info_from_path, text_or, update_session,
  update_found, session_of_state, update_from_worker_state, FileBaseline,
}
use pi_threads.Session.Listing.{
  Dirs, Resolving, settled, listing, sessions_of, resolve_path, resolve_cached, resolve_id,
  begin_resolve, found_or, finish_resolve,
}
use pi_threads.Session.Runs.{Input, lists, resolves, updates, step, run, or_catalog}

abbrev is_some {ℓ} : {A : Type ℓ} → Option A → Bool
is_some none = false
is_some (some _) = true

abbrev Named : String → Option SessionInfo → Type 0
Named k none = Unit
Named k (some s) = s.id ≡ k

abbrev pub IsIndexed : Catalog → Type 0
IsIndexed c = (k : String) → Named k (c.by_id k)

-- What an answer says of the id that was asked for.
abbrev pub IsNamed : String → Result SessionInfo → Type 0
IsNamed thread (err error) = Unit
IsNamed thread (ok s) = s.id ≡ thread

abbrev pub IsResolved : String → Resolving → Type 0
IsResolved thread (settled r) = IsNamed thread r
IsResolved thread listing = Unit

set-IsIndexed :
    (c : Catalog) (id : String) (session : Option SessionInfo)
    → Named id session
    → IsIndexed c
    → IsIndexed (set_session c id session)
set-IsIndexed c id session n v k =
    if_cases {A = Option SessionInfo} (Named k) (str_eq k id)
      (λ e. subst (λ k. Named k session) (sym ((eq_iff k id).0 e)) n) (λ _. v k)

cache-IsIndexed :
    (c : Catalog) (sessions : List SessionInfo) → IsIndexed c → IsIndexed (cache c sessions)
unfolding cache
cache-IsIndexed c [] v = v
cache-IsIndexed c (s ∷ ss) v =
    cache-IsIndexed (set_session c s.id (some s)) ss (set-IsIndexed c s.id (some s) refl v)

module _ (host : Host) where
  keep-IsIndexed :
      (c : Catalog) (thread : String) (baseline : Option FileBaseline)
      → IsIndexed c
      → IsIndexed (keep_baseline host c thread baseline)
  keep-IsIndexed c thread none v = v
  keep-IsIndexed c thread (some b) v = v

  update-IsIndexed :
      (c : Catalog) (disk : Disk) (s : SessionInfo)
      → IsIndexed c
      → IsIndexed (update_session host c disk s)
  unfolding record_baseline
  update-IsIndexed c disk s v =
      let w = cache-IsIndexed c (s ∷ []) v in
      if_cases IsIndexed (exists disk s.path)
        (λ _.
          keep-IsIndexed (set_unpersisted (cache c (s ∷ [])) s.id false) s.id
            (sample_baseline host disk s.path) w)
        (λ _. if_cases IsIndexed (not (has_baseline (c.baselines s.id))) (λ _. w) (λ _. w))

  found-IsIndexed :
      (c : Catalog) (disk : Disk) (s : Option SessionInfo)
      → IsIndexed c
      → IsIndexed (or_catalog c (update_found host c disk s))
  found-IsIndexed c disk none v = v
  found-IsIndexed c disk (some s) v = update-IsIndexed c disk s v

  state-IsIndexed :
      (c : Catalog) (disk : Disk) (now : ℕ) (s : WorkerState)
      → IsIndexed c
      → IsIndexed (or_catalog c (update_from_worker_state host c disk now s))
  unfolding update_from_worker_state
  state-IsIndexed c disk now s v =
      let id = text_or host s.session_id "" in
      let path = text_or host s.session_file "" in
      if_cases {A = Option Catalog} (λ r. IsIndexed (or_catalog c r))
        (not (is_full id) || not (is_full path)) (λ _. v)
        (λ _. found-IsIndexed c disk (session_of_state host disk now id path s) v)

module _ (host : Host) (dirs : Dirs) where
  -- What a resolution leaves in the catalog and answers, for an id that is no path.
  abbrev Resolves : String → Catalog × Resolving → Type 0
  Resolves thread r = IsIndexed r.0 × IsResolved thread r.1

  cached-Resolves :
      (c : Catalog) (thread : String) (s : Option SessionInfo)
      → IsIndexed c
      → Resolves thread (resolve_cached host dirs c thread s)
  cached-Resolves c thread none v = (v, tt)
  cached-Resolves c thread (some s) v =
      let c' = set_session (set_unpersisted c thread false) thread none in
      let w = cache-IsIndexed c' (s ∷ []) (set-IsIndexed c thread none tt v) in
      if_cases (Resolves thread) (str_eq s.id thread) (λ e. (w, (eq_iff s.id thread).0 e))
        (λ _. (set-IsIndexed (cache c' (s ∷ [])) thread none tt w, tt))

  id-Resolves :
      (c : Catalog) (disk : Disk) (thread : String) (cached : Option SessionInfo)
      → Named thread cached
      → IsIndexed c
      → Resolves thread (resolve_id host dirs c disk thread cached)
  id-Resolves c disk thread none n v = (set-IsIndexed c thread none tt v, tt)
  id-Resolves c disk thread (some s) n v =
      if_cases (Resolves thread) (exists disk s.path)
        (λ _. cached-Resolves c thread (info_from_path host disk s.path none none) v)
        (λ _.
          if_cases (Resolves thread) (c.unpersisted thread) (λ _. (v, n))
            (λ _. (set-IsIndexed c thread none tt v, tt)))

  path-IsIndexed :
      (c : Catalog) (s : Option SessionInfo)
      → IsIndexed c
      → let r = resolve_path host dirs c s in IsIndexed r.0
  path-IsIndexed c none v = v
  path-IsIndexed c (some s) v = cache-IsIndexed c (s ∷ []) v

  resolve-IsIndexed :
      (c : Catalog) (disk : Disk) (thread : String)
      → IsIndexed c
      → let r = begin_resolve host dirs c disk thread in IsIndexed r.0
  unfolding begin_resolve
  resolve-IsIndexed c disk thread v =
      if_cases {A = Catalog × Resolving} (λ r. IsIndexed r.0) (exists disk thread)
        (λ _. path-IsIndexed c (info_from_path host disk (host.resolve thread) none none) v)
        (λ _. let (w, _) = id-Resolves c disk thread (c.by_id thread) (v thread) v in w)

  begin-IsResolved :
      (c : Catalog) (disk : Disk) (thread : String)
      → exists disk thread ≡ false
      → IsIndexed c
      → let r = begin_resolve host dirs c disk thread in IsResolved thread r.1
  unfolding begin_resolve
  begin-IsResolved c disk thread h v =
      if_cases {A = Catalog × Resolving} (λ r. IsResolved thread r.1) (exists disk thread)
        (λ e. absurd (ground arith))
        (λ _. let (_, n) = id-Resolves c disk thread (c.by_id thread) (v thread) v in n)

  named :
      (thread : String) (s : Option SessionInfo)
      → Named thread s
      → IsNamed thread (found_or host dirs s)
  named thread none n = tt
  named thread (some s) n = n

  step-IsIndexed :
      (c : Catalog) (disk : Disk) (input : Input)
      → IsIndexed c
      → IsIndexed (step host dirs c disk input)
  unfolding step
  step-IsIndexed c disk (lists is_directory cwd) v =
      cache-IsIndexed c (sessions_of host dirs disk is_directory cwd) v
  step-IsIndexed c disk (resolves thread) v = resolve-IsIndexed c disk thread v
  step-IsIndexed c disk (updates now state) v = state-IsIndexed host c disk now state v

  run-IsIndexed :
      (c : Catalog) (inputs : List (Disk × Input))
      → IsIndexed c
      → IsIndexed (run host dirs c inputs)
  unfolding run
  run-IsIndexed c [] v = v
  run-IsIndexed c ((disk, input) ∷ rest) v =
      run-IsIndexed (step host dirs c disk input) rest (step-IsIndexed c disk input v)

  -- After any lists, resolutions and updates on files that change meanwhile, `resolveThread` of an id
  -- that names no file gives a session of that id, where it gives one: before the list or after it.
  pub run-IsResolved :
      (c : Catalog) (inputs : List (Disk × Input)) (disk : Disk) (thread : String)
      (sessions : List SessionInfo)
      → IsIndexed c
      → exists disk thread ≡ false
      → let r = begin_resolve host dirs (run host dirs c inputs) disk thread in
        let late = finish_resolve host dirs r.0 sessions thread in
        IsResolved thread r.1 × IsNamed thread late.1
  unfolding finish_resolve
  run-IsResolved c inputs disk thread sessions v h =
      let c' = run host dirs c inputs in
      let w = run-IsIndexed c inputs v in
      let r = begin_resolve host dirs c' disk thread in
      let late = cache r.0 sessions in
      (
        begin-IsResolved c' disk thread h w,
        named thread (late.by_id thread)
            (cache-IsIndexed r.0 sessions (resolve-IsIndexed c' disk thread w) thread),
      )

abbrev pub is_ok : Result SessionInfo → Bool
is_ok (ok s) = true
is_ok (err error) = false

cache-has :
    (c : Catalog) (sessions : List SessionInfo) (thread : String)
    → let c' = cache c sessions in
      is_some (c'.by_id thread)
      ≡ (any (λ s. str_eq thread s.id) sessions || is_some (c.by_id thread))
unfolding cache
cache-has c [] thread = refl
cache-has c (s ∷ ss) thread =
    let h = cache-has (set_session c s.id (some s)) ss thread in ground arith

module _ (host : Host) (dirs : Dirs) where
  found_lem : (s : Option SessionInfo) → is_ok (found_or host dirs s) ≡ is_some s
  found_lem none = refl
  found_lem (some s) = refl

  -- A thread that the catalog does not know is found by the list if and only if the list has a session
  -- of that id.
  pub finish_resolve-finds :
      (c : Catalog) (sessions : List SessionInfo) (thread : String)
      → c.by_id thread ≡ none
      → let r = finish_resolve host dirs c sessions thread in
        is_ok r.1 ≡ any (λ s. str_eq thread s.id) sessions
  unfolding finish_resolve
  finish_resolve-finds c sessions thread h =
      let c' = cache c sessions in
      let e = found_lem (c'.by_id thread) in let k = cache-has c sessions thread in ground arith
