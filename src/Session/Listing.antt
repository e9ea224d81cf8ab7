-- ===== src/Session/Listing.antt =====
-- Which sessions there are, and which one a caller means: list, search, resolveThread, read, messages,
-- and the directories of sessions, of src/session/catalog.ts.
use pi_threads.Base.{
  ℕ, String, Bool, false, ◌&&◌, ◌||◌, List, [], ◌∷◌, ◌++◌, Option, none, some, map, filter, take,
  drop, length, if◌then◌else◌, ◌==◌, leb, str_eq, text_append, ◌-◌,
}
use pi_threads.Value.{Value, prop, end, get, is_text, spread, obj}
use pi_threads.Protocol.Errors.{Result, ok, err, not_found, internal}
use pi_threads.Service.Threads.{ThreadSummary, thread_idle}
use pi_threads.Session.Entries.{
  Host, File, read_session_entries, is_non_header_entry, is_message, is_full,
}
use pi_threads.Session.Info.{SessionInfo, session_info_from_entries}
use pi_threads.Session.Paths.{safe_path, after_tilde}
use pi_threads.Session.Catalog.{
  Disk, Catalog, exists, set_session, set_unpersisted, cache, info_from_path,
}

-- The variables PI_CODING_AGENT_DIR and PI_CODING_AGENT_SESSION_DIR, and of the platform: `endsWith`,
-- `toLowerCase` and `includes`.
pub record Dirs : Type 0 where
  pub agent_dir : Option String
  pub session_dir : Option String
  pub ends_with : String → String → Bool
  pub lower : String → String
  pub includes : String → String → Bool

-- `resolveThread` up to its wait for the list: with a session, with what a file threw, or waiting.
pub data Resolving : Type 0 where
  settled : Result SessionInfo → Resolving
  listing : Resolving

abbrev pub insert_session : SessionInfo → List SessionInfo → List SessionInfo
insert_session s [] = s ∷ []
insert_session s (t ∷ ts) =
    let rest = insert_session s ts in if leb t.modified s.modified then s ∷ t ∷ ts else t ∷ rest

-- `sort` by `modified`, the latest first; it is stable.
abbrev pub sort_sessions : List SessionInfo → List SessionInfo
sort_sessions [] = []
sort_sessions (s ∷ ss) = insert_session s (sort_sessions ss)

abbrev pub present {ℓ} : {A : Type ℓ} → Option A → List A
present none = []
present (some a) = a ∷ []

abbrev pub concat {ℓ} : {A : Type ℓ} → List (List A) → List A
concat [] = []
concat (xs ∷ xss) = xs ++ concat xss

abbrev pub names_or : Option (List String) → List String
names_or none = []
names_or (some names) = names

-- `toSummary`; `iso` is `toISOString`.
abbrev pub to_summary : (ℕ → String) → SessionInfo → ThreadSummary
to_summary iso session = record {
  thread_id = session.id;
  cwd = session.cwd;
  created = some (iso session.created);
  modified = some (iso session.modified);
  message_count = session.message_count;
  status = thread_idle;
}

module _ (host : Host) (dirs : Dirs) where
  abbrev info_of_file : String → Option File → Option SessionInfo
  info_of_file path none = none
  info_of_file path (some file) =
      session_info_from_entries host path file (read_session_entries host (some file))

  abbrev pub session_info_from_path : Disk → String → Option SessionInfo
  session_info_from_path disk path = info_of_file path (disk.files path)

  -- A directory that is not there or cannot be read has no sessions.
  unfoldable pub list_sessions_from_dir : Disk → String → List SessionInfo
  list_sessions_from_dir disk dir = concat (
      map (λ name. present (session_info_from_path disk (host.join dir name)))
        (filter (λ name. dirs.ends_with name ".jsonl") (names_or (disk.directories dir))))

  abbrev home_or : String → Option String → String
  home_or path none = path
  home_or path (some rest) = host.join host.home rest

  abbrev pub resolve_pi_path : String → String
  resolve_pi_path path =
      host.resolve (if str_eq path "~" then host.home else home_or path (after_tilde path))

  abbrev resolved_or : Option String → String → String
  resolved_or none d = d
  resolved_or (some path) d = if is_full path then resolve_pi_path path else d

  abbrev pub sessions_root : String
  sessions_root =
      host.join (resolved_or dirs.agent_dir (host.join (host.join host.home ".pi") "agent"))
        "sessions"

  abbrev pub default_session_dir_for_cwd : String → String
  default_session_dir_for_cwd cwd =
      host.join sessions_root (text_append "--" (text_append (safe_path (host.resolve cwd)) "--"))

  abbrev pub configured_session_dir : Option String
  configured_session_dir = elim dirs.session_dir [
    | none ↦ none
    | some path ↦ if is_full path then some (resolve_pi_path path) else none
  ]

  abbrev pub session_cwd_matches : String → String → Bool
  session_cwd_matches session_cwd cwd =
      is_full session_cwd && str_eq (host.resolve session_cwd) (host.resolve cwd)

  abbrev sessions_for_cwd : Disk → String → Option String → List SessionInfo
  sessions_for_cwd disk cwd none =
      sort_sessions (list_sessions_from_dir disk (default_session_dir_for_cwd cwd))
  sessions_for_cwd disk cwd (some custom) =
      sort_sessions
        (filter (λ s. session_cwd_matches s.cwd cwd) (list_sessions_from_dir disk custom))

  unfoldable pub list_sessions_for_cwd : Disk → String → List SessionInfo
  list_sessions_for_cwd disk cwd = sessions_for_cwd disk cwd configured_session_dir

  -- `is_directory` is what `readdir` says of an entry of the root.
  abbrev pub all_sessions : Disk → (String → Bool) → Option String → List SessionInfo
  all_sessions disk is_directory (some custom) = sort_sessions (list_sessions_from_dir disk custom)
  all_sessions disk is_directory none = sort_sessions (
      concat (
        map (λ name. list_sessions_from_dir disk (host.join sessions_root name))
          (filter is_directory (names_or (disk.directories sessions_root)))))

  unfoldable pub list_all_sessions : Disk → (String → Bool) → List SessionInfo
  list_all_sessions disk is_directory = all_sessions disk is_directory configured_session_dir

  abbrev pub sessions_of : Disk → (String → Bool) → Option String → List SessionInfo
  sessions_of disk is_directory none = list_all_sessions disk is_directory
  sessions_of disk is_directory (some cwd) =
      if is_full cwd
      then list_sessions_for_cwd disk (host.resolve cwd)
      else list_all_sessions disk is_directory

  -- `list`: the sessions that it finds are cached.
  abbrev pub list_sessions : Catalog → Disk → (String → Bool) → Option String → Catalog
  list_sessions c disk is_directory cwd = cache c (sessions_of disk is_directory cwd)

  abbrev text_matches : String → Option String → Bool
  text_matches query none = false
  text_matches query (some s) = is_full s && dirs.includes (dirs.lower s) (dirs.lower query)

  abbrev pub matches : String → SessionInfo → Bool
  matches query s =
      text_matches query (some s.id)
      || text_matches query s.name
      || text_matches query (some s.first_message)
      || text_matches query (some s.cwd)

  abbrev pub limited {ℓ} : {A : Type ℓ} → Option ℕ → List A → List A
  limited none results = results
  limited (some n) results = take n results

  unfoldable pub search : List SessionInfo → String → Option ℕ → List SessionInfo
  search sessions query limit = limited limit (filter (matches query) sessions)

  abbrev threw : Resolving
  threw = settled (err (record { code = internal; message = "Invalid Pi session file" }))

  -- The session of a path that exists.
  abbrev pub resolve_path : Catalog → Option SessionInfo → Catalog × Resolving
  resolve_path c none = (c, threw)
  resolve_path c (some session) = (cache c (session ∷ []), settled (ok session))

  abbrev forget : Catalog → String → Catalog
  forget c thread = set_session c thread none

  -- The file of a cached session, read again.
  abbrev pub resolve_cached : Catalog → String → Option SessionInfo → Catalog × Resolving
  resolve_cached c thread none = (c, threw)
  resolve_cached c thread (some session) =
      let c' = cache (forget (set_unpersisted c thread false) thread) (session ∷ []) in
      if str_eq session.id thread then (c', settled (ok session)) else (forget c' thread, listing)

  abbrev pub resolve_id : Catalog → Disk → String → Option SessionInfo → Catalog × Resolving
  resolve_id c disk thread none = (forget c thread, listing)
  resolve_id c disk thread (some cached) =
      if exists disk cached.path
      then resolve_cached c thread (info_from_path host disk cached.path none none)
      else if c.unpersisted thread
      then (c, settled (ok cached))
      else (forget c thread, listing)

  unfoldable pub begin_resolve : Catalog → Disk → String → Catalog × Resolving
  begin_resolve c disk thread =
      if exists disk thread
      then resolve_path c (info_from_path host disk (host.resolve thread) none none)
      else resolve_id c disk thread (c.by_id thread)

  abbrev pub found_or : Option SessionInfo → Result SessionInfo
  found_or none = err (record { code = not_found; message = "Thread not found" })
  found_or (some session) = ok session

  -- The rest of `resolveThread`, when the list is there.
  unfoldable pub finish_resolve : Catalog → List SessionInfo → String → Catalog × Result SessionInfo
  finish_resolve c sessions thread = let c' = cache c sessions in (c', found_or (c'.by_id thread))

  -- The entries of `read`, and `messages`.
  unfoldable pub read_entries : Disk → SessionInfo → List Value
  read_entries disk session =
      filter is_non_header_entry (read_session_entries host (disk.files session.path))

  abbrev with_role : Option String → List Value → List Value
  with_role none found = found
  with_role (some role) found =
      if is_full role then filter (λ m. is_text (get "role" m) role) found else found

  -- `slice(-last)`
  abbrev last_messages : Option ℕ → List Value → List Value
  last_messages none found = found
  last_messages (some last) found = if last == 0 then [] else drop (length found - last) found

  -- `{ entryId: entry.id, ...entry.message }`
  abbrev message_of : Value → Value
  message_of entry = obj (spread (get "message" entry) (prop "entryId" (get "id" entry) end))

  unfoldable pub messages : Disk → SessionInfo → Option ℕ → Option String → List Value
  messages disk session last role = last_messages last (
      with_role role
        (map message_of (filter is_message (read_session_entries host (disk.files session.path)))))
