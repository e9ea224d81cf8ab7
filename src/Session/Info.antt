-- ===== src/Session/Info.antt =====
-- sessionInfoFromEntries, sessionModifiedDate and parseDate of src/session/catalog.ts.
use pi_threads.Base.{
  ℕ, suc, ◌+◌, max, String, Bool, not, ◌&&◌, ◌||◌, List, [], ◌∷◌, ◌++◌, Option, none, some, find,
  if◌then◌else◌,
}
use pi_threads.Value.{Value, str, num, get, is_text, text_of}
use pi_threads.Session.Entries.{
  Host, File, is_session_header, is_message, is_full, join_words, text_or_empty, message_text,
}

pub record SessionInfo : Type 0 where
  pub path : String
  pub id : String
  pub cwd : String
  pub name : Option String
  pub parent_session_path : Option String
  pub created : ℕ
  pub modified : ℕ
  pub message_count : ℕ
  pub first_message : String
  pub all_messages_text : String

-- The variables of the loop over the entries.
pub record Tally : Type 0 where
  pub message_count : ℕ
  pub first_message : String
  pub name : Option String
  pub all_messages : List String

abbrev pub empty_tally : Tally
empty_tally = record { message_count = 0; first_message = ""; name = none; all_messages = [] }

abbrev pub is_user : Value → Bool
is_user message = is_text (get "role" message) "user"

abbrev pub is_talk : Value → Bool
is_talk message = is_user message || is_text (get "role" message) "assistant"

abbrev pub tally_text : Tally → Bool → String → Tally
tally_text t user text = if not (is_full text) then t else record t {
  all_messages = t.all_messages ++ text ∷ [];
  first_message = if not (is_full t.first_message) && user then text else t.first_message;
}

abbrev pub tally_message : Tally → Value → Tally
tally_message t message =
    if not (is_talk message) then t else tally_text t (is_user message) (message_text message)

-- The time of the last change in a list of times, if there is one: `Math.max(last ?? 0, time)`.
abbrev pub later : Option ℕ → Option ℕ → Option ℕ
later last none = last
later none (some time) = some (max 0 time)
later (some last) (some time) = some (max last time)

module _ (host : Host) where
  abbrev pub entry_name : Value → Option String
  entry_name (str s) = if is_full (host.trim s) then some (host.trim s) else none
  entry_name _ = none

  abbrev pub tally_entry : Tally → Value → Tally
  tally_entry t entry =
      if is_text (get "type" entry) "session_info"
      then record t { name = entry_name (get "name" entry) }
      else if not (is_message entry)
      then t
      else tally_message (record t { message_count = t.message_count + 1 }) (get "message" entry)

  unfoldable pub tally : Tally → List Value → Tally
  tally t [] = t
  tally t (entry ∷ entries) = tally (tally_entry t entry) entries

  abbrev pub date_of : Value → Option ℕ
  date_of (str s) = host.parse_date s
  date_of _ = none

  abbrev pub or_time : Option ℕ → ℕ → ℕ
  or_time none fallback = fallback
  or_time (some time) fallback = time

  abbrev pub parse_date : Value → ℕ → ℕ
  parse_date value fallback = or_time (date_of value) fallback

  -- The time that an entry counts for, by its message or else by itself.
  abbrev pub message_time : Value → Value → Option ℕ
  message_time (num time) stamp = some time
  message_time _ stamp = date_of stamp

  abbrev pub activity : Value → Option ℕ
  activity entry =
      if not (is_message entry) || not (is_talk (get "message" entry))
      then none
      else message_time (get "timestamp" (get "message" entry)) (get "timestamp" entry)

  abbrev pub last_activity : Option ℕ → List Value → Option ℕ
  last_activity last [] = last
  last_activity last (entry ∷ entries) = last_activity (later last (activity entry)) entries

  -- A time of zero is falsy.
  abbrev pub activity_or : Option ℕ → ℕ → ℕ
  activity_or (some (suc time)) fallback = suc time
  activity_or _ fallback = fallback

  unfoldable pub session_modified_date : List Value → Value → ℕ → ℕ
  session_modified_date entries header fallback =
      activity_or (last_activity none entries) (parse_date (get "timestamp" header) fallback)

  abbrev pub described : String → File → List Value → Value → Tally → SessionInfo
  described path stat entries header t = record {
    path = path;
    id = text_or_empty (get "id" header);
    cwd = text_or_empty (get "cwd" header);
    name = t.name;
    parent_session_path = text_of (get "parentSession" header);
    created = parse_date (get "timestamp" header) stat.birthtime;
    modified = session_modified_date entries header stat.mtime_ms;
    message_count = t.message_count;
    first_message = if is_full t.first_message then t.first_message else "(no messages)";
    all_messages_text = join_words t.all_messages;
  }

  abbrev pub with_header : String → File → List Value → Option Value → Option SessionInfo
  with_header path stat entries none = none
  with_header path stat entries (some header) =
      some (described path stat entries header (tally empty_tally entries))

  -- It throws, here none, for entries without a header.
  unfoldable pub session_info_from_entries : String → File → List Value → Option SessionInfo
  session_info_from_entries path stat entries =
      with_header path stat entries (find is_session_header entries)
