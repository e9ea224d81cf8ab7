-- ===== src/Session/Runs.antt =====
-- The catalog of src/session/catalog.ts as a machine: what is asked of it, on a disk that others write.
use pi_threads.Base.{ℕ, String, Bool, List, [], ◌∷◌, Option, none, some}
use pi_threads.Session.Entries.{Host}
use pi_threads.Session.Catalog.{Disk, Catalog, WorkerState, update_from_worker_state}
use pi_threads.Session.Listing.{Dirs, list_sessions, begin_resolve}

-- `resolves` is `resolveThread` up to its wait, and `lists` also what it waits for.
pub data Input : Type 0 where
  lists : (is_directory : String → Bool) (cwd : Option String) → Input
  resolves : (thread : String) → Input
  updates : (now : ℕ) → WorkerState → Input

abbrev pub or_catalog : Catalog → Option Catalog → Catalog
or_catalog c none = c
or_catalog c (some c') = c'

module _ (host : Host) (dirs : Dirs) where
  unfoldable pub step : Catalog → Disk → Input → Catalog
  step c disk (lists is_directory cwd) = list_sessions host dirs c disk is_directory cwd
  step c disk (resolves thread) = let r = begin_resolve host dirs c disk thread in r.0
  step c disk (updates now state) = or_catalog c (update_from_worker_state host c disk now state)

  unfoldable pub run : Catalog → List (Disk × Input) → Catalog
  run c [] = c
  run c ((disk, input) ∷ rest) = run (step c disk input) rest
