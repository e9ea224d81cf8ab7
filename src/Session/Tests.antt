-- ===== src/Session/Tests.antt =====
-- A session file with two messages, and the theorems about it.
use pi_threads.Base.{
  ℕ, ◌≡◌, ◌≤◌, refl, ◌⊎◌, String, Bool, true, false, List, [], ◌∷◌, Option, none, some, any, All,
  length, str_eq, if◌then◌else◌, ◌==◌, text_append,
}
use pi_threads.Value.{Value, is_record, str, num, obj, prop, end, get}
use pi_threads.Session.Entries.{Host, File, read_session_entries, message_text}
use pi_threads.Session.Info.{
  SessionInfo, empty_tally, tally, parse_date, is_user, is_talk, session_modified_date,
  session_info_from_entries,
}
use pi_threads.Session.Activity.{HasTime, IsTimeOf, session_modified_date-latest}
use pi_threads.Session.Described.{messages, texts, head_or, last_name, tally-described}
use pi_threads.Session.Catalog.{
  Disk, new_catalog, sample_baseline, update_session, assert_unchanged, info_from_path,
  record_baseline, cache,
}
use pi_threads.Session.Listing.{
  Dirs, begin_resolve, finish_resolve, list_all_sessions, list_sessions_from_dir,
}
use pi_threads.Session.Runs.{Input, lists, resolves, step, run}
use pi_threads.Session.Index.{IsResolved, IsNamed, is_ok, run-IsResolved, finish_resolve-finds}
use pi_threads.Session.Unchanged.{Checks, is_same, run-Checks}

abbrev header : Value
header = obj (prop "type" (str "session") (prop "id" (str "a") (prop "cwd" (str "/w") end)))

abbrev said : String → ℕ → Value
said text time = obj (
    prop "type" (str "message") (
      prop "message"
        (obj
          (prop "role" (str "user") (prop "content" (str text) (prop "timestamp" (num time) end))))
        end))

abbrev parsed : List ℕ → Option Value
parsed [] = none
parsed (c ∷ cs) =
    if c == 1 then some header else if c == 2 then some (said "hello" 5) else some (said "again" 7)

abbrev host : Host
host = record {
  trim = λ s. s;
  parse_date = λ s. none;
  parse_json = parsed;
  is_space = λ c. c == 32;
  text_of = λ v. "x";
  resolve = λ path. path;
  join = λ dir name. text_append dir (text_append "/" name);
  home = "/home";
}

abbrev dirs : Dirs
dirs = record {
  agent_dir = none;
  session_dir = some "/s";
  ends_with = λ name end. str_eq name "a.jsonl";
  lower = λ s. s;
  includes = λ s t. str_eq s t;
}

abbrev file_of : List ℕ → ℕ → File
file_of text time = record { size = length text; mtime_ms = time; birthtime = 1; text = text }

abbrev disk_of : File → Disk
disk_of file = record {
  files = λ path. if str_eq path "/s/a.jsonl" then some file else none;
  directories = λ path. if str_eq path "/s" then some ("a.jsonl" ∷ "b" ∷ []) else none;
}

-- Another program appends a message.
before : Disk
before = disk_of (file_of (1 ∷ 10 ∷ 2 ∷ 10 ∷ []) 5)

after : Disk
after = disk_of (file_of (1 ∷ 10 ∷ 2 ∷ 10 ∷ 3 ∷ 10 ∷ []) 7)

abbrev saved : SessionInfo
saved = record {
  path = "/s/a.jsonl";
  id = "a";
  cwd = "/w";
  name = none;
  parent_session_path = none;
  created = 1;
  modified = 5;
  message_count = 1;
  first_message = "hello";
  all_messages_text = "hello";
}

abbrev everything : String → Bool
everything _ = true

history : List (Disk × Input)
history = (before, lists everything none) ∷ (before, resolves "a") ∷ []

code : Unit {0}
unfolding before after history read_session_entries message_text session_info_from_entries
    session_modified_date tally sample_baseline assert_unchanged info_from_path record_baseline
    cache begin_resolve finish_resolve list_all_sessions list_sessions_from_dir step run is_record
code = tt

found_again :
    let r = begin_resolve host dirs (run host dirs new_catalog history) before "a" in
    IsResolved "a" r.1 × (list_all_sessions host dirs before everything ≡ saved ∷ [])
unfolding code
found_again = (refl, refl)

session_modified_date-latest_example :
    let entries = header ∷ said "hello" 5 ∷ said "again" 7 ∷ [] in
    let m = session_modified_date host entries header 1 in
    All (λ entry. (t : ℕ) → HasTime host entry t → t ≤ m) entries
    × (IsTimeOf host entries m
        ⊎ (All (λ entry. (t : ℕ) → HasTime host entry t → t ≡ 0) entries
            × (m ≡ parse_date host (get "timestamp" header) 1)))
session_modified_date-latest_example =
    session_modified_date-latest host (header ∷ said "hello" 5 ∷ said "again" 7 ∷ []) header 1

tally-described_example :
    let entries = header ∷ said "hello" 5 ∷ said "again" 7 ∷ [] in
    let t = tally host empty_tally entries in
    (t.message_count ≡ length (messages entries))
    × (t.first_message ≡ head_or "" (texts is_user (messages entries)))
    × (t.name ≡ last_name host none entries)
    × (t.all_messages ≡ texts is_talk (messages entries))
tally-described_example = tally-described host (header ∷ said "hello" 5 ∷ said "again" 7 ∷ [])

run-IsResolved_example :
    let r = begin_resolve host dirs (run host dirs new_catalog history) after "a" in
    let late = finish_resolve host dirs r.0 (saved ∷ []) "a" in
    IsResolved "a" r.1 × IsNamed "a" late.1
unfolding after
run-IsResolved_example =
    run-IsResolved host dirs new_catalog history after "a" (saved ∷ []) (λ k. tt) refl

finish_resolve-finds_example :
    let r = finish_resolve host dirs new_catalog (saved ∷ []) "a" in
    is_ok r.1 ≡ any (λ s. str_eq "a" s.id) (saved ∷ [])
finish_resolve-finds_example = finish_resolve-finds host dirs new_catalog (saved ∷ []) "a" refl

run-Checks_example :
    Checks
      (is_same (sample_baseline host after "/s/a.jsonl") (sample_baseline host before "/s/a.jsonl"))
      (assert_unchanged host
        (run host dirs (update_session host new_catalog before saved) history)
        after
        "a")
unfolding before history
run-Checks_example = run-Checks host dirs new_catalog before after saved history refl (tt, (tt, tt))

noticed :
    is_same (sample_baseline host after "/s/a.jsonl") (sample_baseline host before "/s/a.jsonl")
    ≡ false
unfolding code
noticed = refl
