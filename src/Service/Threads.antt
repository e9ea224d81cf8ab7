-- ===== src/Service/Threads.antt =====
-- What threadList makes of the catalog: overlayWorkerThreadStatuses, filterThreads and pageThreads of
-- src/service/pi-threads-service.ts, with parseSince.
use pi_threads.Base.{
  ℕ, ◌+◌, ◌-◌, ◌*◌, String, Bool, true, false, not, ◌||◌, List, [], ◌∷◌, ◌++◌, Option, none, some,
  if◌then◌else◌, str_eq, ltb, leb, or_else, take, drop, length, filter,
}
use pi_threads.Protocol.Errors.{Result, ok, throw, invalid_params, ◌>>=◌}
use pi_threads.Worker.{PooledWorker, WorkerProcessState, running}

pub data ThreadStatus : Type 0 where
  thread_running thread_idle : ThreadStatus

-- The fields of `ThreadSummary` that are computed with here.
pub record ThreadSummary : Type 0 where
  pub thread_id : String
  pub cwd : String
  pub created : Option String
  pub modified : Option String
  pub message_count : ℕ
  pub status : ThreadStatus

-- `sort` is "created" or else "updated".
pub record ThreadListParams : Type 0 where
  pub limit : Option ℕ
  pub cursor : Option String
  pub since : Option String
  pub archived : Bool
  pub sort_created : Bool
  pub asc : Bool

-- Library functions that the program calls on texts: `Date.parse` and `Number` with none for NaN,
-- `trim`, the two patterns of `parseSince` with the numbers and the unit in lower case that they
-- find, `String` of a number, and the clock. Dates before 1970 count as the time 0.
pub record Texts : Type 0 where
  pub parse_date : String → Option ℕ
  pub number_of : String → Option ℕ
  pub trim : String → String
  pub seconds_of : String → Option ℕ
  pub relative_of : String → Option (ℕ × String)
  pub text_of : ℕ → String
  pub now : ℕ

abbrev unit_ms : String → ℕ
unit_ms unit =
    if str_eq unit "ms"
    then 1
    else if str_eq unit "s"
    then 1_000
    else if str_eq unit "m"
    then 60_000
    else if str_eq unit "h"
    then 3_600_000
    else if str_eq unit "d"
    then 86_400_000
    else 604_800_000

-- The status of the entry of a thread.
abbrev pub set_status : String → ThreadStatus → List ThreadSummary → List ThreadSummary
set_status id status [] = []
set_status id status (t ∷ ts) =
    if str_eq t.thread_id id then record t { status = status } ∷ ts else t ∷ set_status id status ts

abbrev pub has_thread : String → List ThreadSummary → Bool
has_thread id [] = false
has_thread id (t ∷ ts) = str_eq t.thread_id id || has_thread id ts

abbrev pub is_running_state : WorkerProcessState → Bool
is_running_state running = true
is_running_state _ = false

-- A page of a list, with the cursor of the next one.
pub record Page {ℓ} (A : Type ℓ) : Type ℓ where
  pub threads : List A
  pub cursor : Option String

-- `active` tells the threads in `activeTurns`.
abbrev pub status_of : (String → Bool) → PooledWorker → String → ThreadStatus
status_of active w id =
    if is_running_state w.state || active id then thread_running else thread_idle

abbrev worker_summary : (String → Bool) → PooledWorker → String → ThreadSummary
worker_summary active w id = record {
  thread_id = id;
  cwd = w.cwd;
  created = none;
  modified = none;
  message_count = 0;
  status = status_of active w id;
}

-- `cwd` is resolved; an absent or empty one keeps every worker.
abbrev pub is_in : Option String → PooledWorker → Bool
is_in none w = true
is_in (some cwd) w = str_eq cwd "" || str_eq w.cwd cwd

-- One round of the loop of `overlayWorkerThreadStatuses`.
abbrev pub overlay_thread :
    (String → Bool) → PooledWorker → String → List ThreadSummary → List ThreadSummary
overlay_thread active w id threads =
    if has_thread id threads
    then set_status id (status_of active w id) threads
    else threads ++ worker_summary active w id ∷ []

abbrev pub overlay_worker :
    (String → Bool)
    → Option String
    → PooledWorker
    → Option String
    → List ThreadSummary
    → List ThreadSummary
overlay_worker active cwd w none threads = threads
overlay_worker active cwd w (some id) threads =
    if str_eq id "" || not (is_in cwd w) then threads else overlay_thread active w id threads

unfoldable pub overlay_worker_thread_statuses :
    (String → Bool) → Option String → List PooledWorker → List ThreadSummary → List ThreadSummary
overlay_worker_thread_statuses active cwd [] threads = threads
overlay_worker_thread_statuses active cwd (w ∷ ws) threads =
    overlay_worker_thread_statuses active cwd ws (overlay_worker active cwd w w.thread_id threads)

module _ (texts : Texts) where
  abbrev parse_other : Option (ℕ × String) → Option ℕ → Result (Option ℕ)
  parse_other (some (amount, unit)) _ = ok (some (texts.now - amount * unit_ms unit))
  parse_other none none = throw invalid_params "Invalid --since value"
  parse_other none (some parsed) = ok (some parsed)

  abbrev parse_trimmed : String → Option ℕ → Result (Option ℕ)
  parse_trimmed s (some seconds) = ok (some (seconds * 1_000))
  parse_trimmed s none = parse_other (texts.relative_of s) (texts.parse_date s)

  unfoldable pub parse_since : Option String → Result (Option ℕ)
  parse_since none = ok none
  parse_since (some value) =
      if str_eq value ""
      then ok none
      else parse_trimmed (texts.trim value) (texts.seconds_of (texts.trim value))

  abbrev date_or_zero : Option ℕ → ℕ
  date_or_zero none = 0
  date_or_zero (some t) = t

  abbrev pub parse_thread_date : Option String → ℕ
  parse_thread_date none = 0
  parse_thread_date (some s) = if str_eq s "" then 0 else date_or_zero (texts.parse_date s)

  abbrev pub updated_time : ThreadSummary → ℕ
  updated_time t = parse_thread_date (or_else t.modified t.created)

  abbrev pub created_time : ThreadSummary → ℕ
  created_time t = parse_thread_date (or_else t.created t.modified)

  abbrev pub sort_time : Bool → ThreadSummary → ℕ
  sort_time sort_created t = if sort_created then created_time t else updated_time t

  -- Whether the comparison of `filterThreads` keeps a thread before a later one: the sort is stable.
  abbrev pub stays : Bool → Bool → ThreadSummary → ThreadSummary → Bool
  stays sort_created asc left right =
      if asc
      then leb (sort_time sort_created left) (sort_time sort_created right)
      else leb (sort_time sort_created right) (sort_time sort_created left)

  abbrev pub insert_thread : Bool → Bool → ThreadSummary → List ThreadSummary → List ThreadSummary
  insert_thread sort_created asc t [] = t ∷ []
  insert_thread sort_created asc t (u ∷ us) =
      if stays sort_created asc t u then t ∷ u ∷ us else u ∷ insert_thread sort_created asc t us

  abbrev pub sort_threads : Bool → Bool → List ThreadSummary → List ThreadSummary
  sort_threads sort_created asc [] = []
  sort_threads sort_created asc (t ∷ ts) =
      insert_thread sort_created asc t (sort_threads sort_created asc ts)

  abbrev pub is_recent : Option ℕ → ThreadSummary → Bool
  is_recent none t = true
  is_recent (some since) t = leb since (updated_time t)

  unfoldable pub filter_threads :
      List ThreadSummary → ThreadListParams → Result (List ThreadSummary)
  filter_threads threads options =
      if options.archived
      then throw invalid_params "Pi session archive filtering is not supported"
      else parse_since options.since >>= λ since.
          ok (sort_threads options.sort_created options.asc (filter (is_recent since) threads))

  -- The offset of a page; none for NaN.
  abbrev pub offset_of : Option String → Option ℕ
  offset_of none = some 0
  offset_of (some cursor) = if str_eq cursor "" then some 0 else texts.number_of cursor

  abbrev pub limit_of : Option ℕ → ℕ
  limit_of none = 50
  limit_of (some n) = n

  -- A slice from NaN up to NaN is empty, and no number is below NaN.
  abbrev pub page_at {ℓ} : {A : Type ℓ} → List A → ℕ → Option ℕ → Page A
  page_at threads limit none = record { threads = []; cursor = none }
  page_at threads limit (some offset) = record {
    threads = take limit (drop offset threads);
    cursor =
        if ltb (offset + limit) (length threads)
        then some (texts.text_of (offset + limit))
        else none;
  }

  unfoldable pub page_threads {ℓ} : {A : Type ℓ} → List A → Option String → Option ℕ → Page A
  page_threads threads cursor limit = page_at threads (limit_of limit) (offset_of cursor)

  -- `threadList` and `threadSearch` with what the catalog found.
  unfoldable pub thread_list :
      (String → Bool)
      → Option String
      → List PooledWorker
      → List ThreadSummary
      → ThreadListParams
      → Result (Page ThreadSummary)
  thread_list active cwd workers found options = do
    sorted ← filter_threads (overlay_worker_thread_statuses active cwd workers found) options
    ok (page_threads sorted options.cursor options.limit)
