-- ===== src/Session/Catalog.antt =====
-- The class PiSessionCatalog of src/session/catalog.ts: its maps, the baselines of files and what a
-- worker's state does to them.
use pi_threads.Base.{
  ℕ, String, Bool, true, false, not, ◌&&◌, ◌||◌, List, [], ◌∷◌, Option, none, some, filter,
  if◌then◌else◌, ◌==◌, str_eq, same_text, or_else, text_append,
}
use pi_threads.Value.{Value, get}
use pi_threads.Protocol.Errors.{Result, ok, throw, external_writer_detected}
use pi_threads.Session.Entries.{Host, File, read_session_entries, is_non_header_entry, is_full}
use pi_threads.Session.Info.{SessionInfo, session_info_from_entries}

-- The files by path, and the names in each directory that can be read. No directory stands where the
-- path of a session is asked for.
pub record Disk : Type 0 where
  pub files : String → Option File
  pub directories : String → Option (List String)

pub record FileBaseline : Type 0 where
  pub path : String
  pub size : ℕ
  pub mtime_ms : ℕ
  pub last_entry_hash : Option String

pub record Catalog : Type 0 where
  pub by_id : String → Option SessionInfo
  pub baselines : String → Option FileBaseline
  pub unpersisted : String → Bool

-- What is given to `updateFromWorkerState`.
pub record WorkerState : Type 0 where
  pub session_id : Option String
  pub session_file : Option String
  pub cwd : Option String
  pub session_name : Option String

abbrev pub new_catalog : Catalog
new_catalog = record { by_id = λ _. none; baselines = λ _. none; unpersisted = λ _. false }

abbrev pub exists : Disk → String → Bool
exists disk path = elim (disk.files path) [ none ↦ false | some _ ↦ true ]

abbrev pub set_session : Catalog → String → Option SessionInfo → Catalog
set_session c id session = record c { by_id = λ k. if str_eq k id then session else c.by_id k }

abbrev pub set_baseline : Catalog → String → FileBaseline → Catalog
set_baseline c id baseline = record c {
  baselines = λ k. if str_eq k id then some baseline else c.baselines k;
}

abbrev pub set_unpersisted : Catalog → String → Bool → Catalog
set_unpersisted c id b = record c { unpersisted = λ k. if str_eq k id then b else c.unpersisted k }

unfoldable pub cache : Catalog → List SessionInfo → Catalog
cache c [] = c
cache c (session ∷ sessions) = cache (set_session c session.id (some session)) sessions

unfoldable pub is_persisted : Catalog → Disk → String → Bool
is_persisted c disk thread = elim (c.by_id thread) [
  | none ↦ false
  | some session ↦ exists disk session.path
]

abbrev pub last_of : List Value → Option Value
last_of [] = none
last_of (v ∷ []) = some v
last_of (v ∷ w ∷ ws) = last_of (w ∷ ws)

abbrev pub has_baseline : Option FileBaseline → Bool
has_baseline none = false
has_baseline (some _) = true

abbrev pub changed : String → Result (Unit {0})
changed message = throw external_writer_detected message

abbrev pub is_same_sample : FileBaseline → FileBaseline → Bool
is_same_sample current baseline =
    current.size == baseline.size
    && current.mtime_ms == baseline.mtime_ms
    && same_text current.last_entry_hash baseline.last_entry_hash

abbrev pub compare_baseline : FileBaseline → Option FileBaseline → Result (Unit {0})
compare_baseline baseline none = changed "Session file disappeared"
compare_baseline baseline (some current) =
    if not (is_same_sample current baseline)
    then changed "Session changed outside daemon ownership"
    else ok tt

module _ (host : Host) where
  abbrev entry_hash : Value → String
  entry_hash e = text_append (host.text_of (get "id" e)) (
      text_append ":" (
        text_append (host.text_of (get "type" e))
          (text_append ":" (host.text_of (get "timestamp" e)))))

  abbrev pub last_hash : Option Value → Option String
  last_hash none = none
  last_hash (some e) = some (entry_hash e)

  abbrev pub sample_file : String → Option File → Option FileBaseline
  sample_file path none = none
  sample_file path (some file) = some (record {
    path = path;
    size = file.size;
    mtime_ms = file.mtime_ms;
    last_entry_hash =
        last_hash (last_of (filter is_non_header_entry (read_session_entries host (some file))));
  })

  unfoldable pub sample_baseline : Disk → String → Option FileBaseline
  sample_baseline disk path = sample_file path (disk.files path)

  abbrev pub keep_baseline : Catalog → String → Option FileBaseline → Catalog
  keep_baseline c thread none = c
  keep_baseline c thread (some baseline) = set_baseline c thread baseline

  unfoldable pub record_baseline : Catalog → Disk → String → String → Catalog
  record_baseline c disk thread path = keep_baseline c thread (sample_baseline disk path)

  abbrev pub check_baseline : Disk → Option FileBaseline → Result (Unit {0})
  check_baseline disk none = ok tt
  check_baseline disk (some baseline) =
      compare_baseline baseline (sample_baseline disk baseline.path)

  unfoldable pub assert_unchanged : Catalog → Disk → String → Result (Unit {0})
  assert_unchanged c disk thread = check_baseline disk (c.baselines thread)

  -- The id of the file's own header stands before its path.
  abbrev pub overridden :
      String → Option String → Option String → Option SessionInfo → Option SessionInfo
  overridden path cwd name none = none
  overridden path cwd name (some info) = some (record info {
    id = if is_full info.id then info.id else path;
    cwd = elim cwd [ none ↦ info.cwd | some c ↦ c ];
    name = or_else name info.name;
  })

  -- It throws, here none, where `statSync` or `sessionInfoFromEntries` does.
  unfoldable pub info_from_path : Disk → String → Option String → Option String → Option SessionInfo
  info_from_path disk path cwd name = elim (disk.files path) [
    | none ↦ none
    | some file ↦
        overridden path cwd name
          (session_info_from_entries host path file (read_session_entries host (some file)))
  ]

  abbrev pub text_or : Option String → String → String
  text_or none d = d
  text_or (some s) d = s

  -- A session that Pi has not written yet.
  abbrev pub unwritten : ℕ → String → String → WorkerState → SessionInfo
  unwritten now id path s = record {
    path = path;
    id = id;
    cwd = text_or s.cwd "";
    name = s.session_name;
    parent_session_path = none;
    created = now;
    modified = now;
    message_count = 0;
    first_message = "";
    all_messages_text = "";
  }

  abbrev pub update_session : Catalog → Disk → SessionInfo → Catalog
  update_session c disk session =
      let cached = cache c (session ∷ []) in
      if exists disk session.path
      then record_baseline (set_unpersisted cached session.id false) disk session.id session.path
      else if not (has_baseline (c.baselines session.id))
      then set_unpersisted cached session.id true
      else cached

  abbrev pub update_found : Catalog → Disk → Option SessionInfo → Option Catalog
  update_found c disk none = none
  update_found c disk (some session) = some (update_session c disk session)

  abbrev pub session_of_state : Disk → ℕ → String → String → WorkerState → Option SessionInfo
  session_of_state disk now id path s =
      if exists disk path
      then info_from_path disk path s.cwd s.session_name
      else some (unwritten now id path s)

  -- It throws, here none, for a file that is not a session.
  unfoldable pub update_from_worker_state : Catalog → Disk → ℕ → WorkerState → Option Catalog
  update_from_worker_state c disk now s =
      let id = text_or s.session_id "" in
      let path = text_or s.session_file "" in
      if not (is_full id) || not (is_full path)
      then some c
      else update_found c disk (session_of_state disk now id path s)
