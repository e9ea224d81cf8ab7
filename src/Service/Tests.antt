-- ===== src/Service/Tests.antt =====
-- Instances of the theorems about the answers of the service.
use pi_threads.Base.{
  ℕ, zero, suc, ◌≡◌, ◌<◌, refl, String, true, false, List, [], ◌∷◌, Option, none, some,
  if◌then◌else◌, str_eq, arith, length,
}
use pi_threads.Value.{arr, cons, nil, Value, is_object, obj, prop, end, str}
use pi_threads.Protocol.Errors.{ok}
use pi_threads.Service.Settings.{resolve_model_selection}
use pi_threads.Worker.{PooledWorker, running}
use pi_threads.Service.Threads.{
  Texts, ThreadSummary, ThreadListParams, thread_idle, has_thread, overlay_worker_thread_statuses,
  page_threads, offset_of, filter_threads, parse_since,
}
use pi_threads.Protocol.Events.{EventBody, turn_completed, is_terminal_event_type}
use pi_threads.Service.Turns.{Turns, handle_daemon_event}
use pi_threads.Service.Turns.Late.{handle_daemon_event-spares}
use pi_threads.Service.Paging.{follow, page_threads-whole}
use pi_threads.Service.Messages.{limit_entries}
use pi_threads.Service.LastEntries.{limit_entries-asc}
use pi_threads.Service.Overlay.{IsDistinct, overlay-IsDistinct, overlay-has_thread}
use pi_threads.Service.Order.{IsSorted, IsBefore, filter_threads-IsSorted}

abbrev date : String → Option ℕ
date text =
    if str_eq text "2026-01-01" then some 1 else if str_eq text "2026-01-02" then some 2 else none

abbrev digit : String → Option ℕ
digit text =
    if str_eq text "0"
    then some 0
    else if str_eq text "1"
    then some 1
    else if str_eq text "2"
    then some 2
    else none

abbrev show : ℕ → String
show zero = "0"
show (suc zero) = "1"
show (suc (suc n)) = "2"

abbrev texts : Texts
texts = record {
  parse_date = date;
  number_of = digit;
  trim = λ s. s;
  seconds_of = digit;
  relative_of = λ s. none;
  text_of = show;
  now = 10;
}

abbrev thread : String → String → ThreadSummary
thread id modified = record {
  thread_id = id;
  cwd = "/w";
  created = none;
  modified = some modified;
  message_count = 1;
  status = thread_idle;
}

abbrev threads : List ThreadSummary
threads = thread "a" "2026-01-01" ∷ thread "b" "2026-01-02" ∷ thread "c" "2026-01-01" ∷ []

abbrev worker : PooledWorker
worker = record {
  worker_id = 1;
  cwd = "/w";
  started_at = 0;
  version = none;
  state = running;
  thread_id = some "d";
  active_turn_id = none;
  aborting_turn_id = none;
  last_used_at = 0;
  pid = none;
  pending_command_count = 0;
  settled = none;
}

show_read : (n : ℕ) → n < 3 → offset_of texts (some (show n)) ≡ some n
show_read zero h = refl
show_read (suc zero) h = refl
show_read (suc (suc zero)) h = refl
show_read (suc (suc (suc n))) h = absurd (omega arith)

page_threads-whole_example : follow (λ c. page_threads texts threads c (some 2)) 4 none ≡ threads
page_threads-whole_example = page_threads-whole texts threads (some 2) (omega arith) show_read

abbrev message : Value
message = obj (prop "type" (str "message") end)

limit_entries-asc_example :
    limit_entries (some (message ∷ obj end ∷ message ∷ [])) (some 1) (some false)
    ≡ some (message ∷ [])
unfolding is_object
limit_entries-asc_example = limit_entries-asc (message ∷ obj end ∷ message ∷ []) 1 (some false)

overlay-IsDistinct_example :
    IsDistinct (overlay_worker_thread_statuses (λ id. false) none (worker ∷ worker ∷ []) threads)
overlay-IsDistinct_example =
    overlay-IsDistinct (λ id. false) none (worker ∷ worker ∷ []) threads (refl, (refl, (refl, tt)))

overlay-has_thread_example :
    has_thread "d" (overlay_worker_thread_statuses (λ id. false) (some "/w") (worker ∷ []) threads)
    ≡ true
overlay-has_thread_example = overlay-has_thread (λ id. false) (some "/w") "d" (worker ∷ []) threads

abbrev options : ThreadListParams
options = record {
  limit = none;
  cursor = none;
  since = none;
  archived = false;
  sort_created = false;
  asc = false;
}

filter_threads-IsSorted_example :
    IsSorted
      (IsBefore texts false false)
      (thread "b" "2026-01-02" ∷ thread "a" "2026-01-01" ∷ thread "c" "2026-01-01" ∷ [])
    × (length threads ≡ 3)
unfolding filter_threads parse_since
filter_threads-IsSorted_example =
    filter_threads-IsSorted texts threads
      (thread "b" "2026-01-02" ∷ thread "a" "2026-01-01" ∷ thread "c" "2026-01-01" ∷ []) options
      none (λ t. true) refl refl

abbrev body_of : String → EventBody
body_of turn = record {
  type = turn_completed;
  thread_id = some "d";
  turn_id = some turn;
  worker_id = some 1;
  payload = obj end;
}

-- A thread whose second turn runs on its worker.
abbrev turns : Turns
turns = record {
  active_turns = λ k.
      if str_eq k "d"
      then some (record { turn_id = "turn_2"; worker_id = some 1; has_agent_run = true })
      else none;
  session_mutations = λ k. false;
  shutting_down = false;
  emitted = [];
}

own_event_ends :
    (handle_daemon_event turns (some worker) (body_of "turn_2")).turns.active_turns "d" ≡ none
unfolding handle_daemon_event is_terminal_event_type
own_event_ends = refl

handle_daemon_event-spares_example :
    (handle_daemon_event turns (some worker) (body_of "turn_1")).turns.active_turns "d"
    ≡ some (record { turn_id = "turn_2"; worker_id = some 1; has_agent_run = true })
handle_daemon_event-spares_example =
    handle_daemon_event-spares turns (some worker) (body_of "turn_1") "d" "turn_1" refl refl

-- The worker lists a model by its name; the text names it so.
abbrev models : Value
models = obj (
    prop "data"
      (obj (
        prop "models"
          (arr (
            cons
              (obj (prop "provider" (str "p") (prop "id" (str "m-1") (prop "name" (str "m") end))))
              nil))
          end))
      end)

selected_model :
    resolve_model_selection "p/m" models ≡ ok (record { provider = "p"; model_id = "m-1" })
unfolding resolve_model_selection
selected_model = refl
