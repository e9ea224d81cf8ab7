-- ===== src/Session/Entries.antt =====
-- The entries of a session file: readSessionEntries, messageText and the tests of entries of
-- src/session/catalog.ts. A file is the list of its code units.
use pi_threads.Base.{
  ℕ, String, Bool, true, false, not, ◌&&◌, List, [], ◌∷◌, ◌++◌, Option, none, some, map, filter,
  any, if◌then◌else◌, ◌==◌, str_eq, text_append,
}
use pi_threads.Value.{Value, str, arr, elems, get, is_record, is_text}

-- Functions of the platform: `trim`, `Date.parse` with none for NaN, `JSON.parse` with none for what
-- does not parse, white space, `String`, and `resolve`, `join` and `homedir` of the paths.
pub record Host : Type 0 where
  pub trim : String → String
  pub parse_date : String → Option ℕ
  pub parse_json : List ℕ → Option Value
  pub is_space : ℕ → Bool
  pub text_of : Value → String
  pub resolve : String → String
  pub join : String → String → String
  pub home : String

-- What `statSync` and `readFileSync` give of a file.
pub record File : Type 0 where
  pub size : ℕ
  pub mtime_ms : ℕ
  pub birthtime : ℕ
  pub text : List ℕ

abbrev pub prepend_unit : ℕ → List (List ℕ) → List (List ℕ)
prepend_unit c [] = (c ∷ []) ∷ []
prepend_unit c (row ∷ rows) = (c ∷ row) ∷ rows

-- `split("\n")`
abbrev pub split_rows : List ℕ → List (List ℕ)
split_rows [] = [] ∷ []
split_rows (c ∷ cs) = let rows = split_rows cs in if c == 10 then [] ∷ rows else prepend_unit c rows

abbrev pub record_of : Option Value → List Value
record_of none = []
record_of (some entry) = if is_record entry then entry ∷ [] else []

module _ (host : Host) where
  abbrev pub parse_rows : List (List ℕ) → List Value
  parse_rows [] = []
  parse_rows (row ∷ rows) =
      let rest = parse_rows rows in
      if any (λ c. not (host.is_space c)) row then record_of (host.parse_json row) ++ rest else rest

  unfoldable pub read_session_entries : Option File → List Value
  read_session_entries none = []
  read_session_entries (some file) = parse_rows (split_rows file.text)

abbrev pub is_string : Value → Bool
is_string (str _) = true
is_string _ = false

abbrev pub is_session_header : Value → Bool
is_session_header entry = is_text (get "type" entry) "session" && is_string (get "id" entry)

abbrev pub is_non_header_entry : Value → Bool
is_non_header_entry entry = not (is_text (get "type" entry) "session")

abbrev pub is_message : Value → Bool
is_message entry = is_text (get "type" entry) "message" && is_record (get "message" entry)

abbrev pub text_or_empty : Value → String
text_or_empty (str s) = s
text_or_empty _ = ""

abbrev pub part_text : Value → String
part_text part =
    if not (is_record part)
    then ""
    else if is_text (get "type" part) "text"
    then text_or_empty (get "text" part)
    else ""

abbrev pub is_full : String → Bool
is_full s = not (str_eq s "")

-- `join(" ")`
abbrev pub join_words : List String → String
join_words [] = ""
join_words (s ∷ []) = s
join_words (s ∷ t ∷ ts) = text_append s (text_append " " (join_words (t ∷ ts)))

abbrev pub content_text : Value → String
content_text (str s) = s
content_text (arr parts) = join_words (filter is_full (map part_text (elems parts)))
content_text _ = ""

unfoldable pub message_text : Value → String
message_text message = content_text (get "content" message)
