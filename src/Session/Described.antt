-- ===== src/Session/Described.antt =====
-- What sessionInfoFromEntries counts and collects in one pass, said by filters.
use mathlib.Core.List.{append_assoc, append-nil}
use pi_threads.Base.{
  ◌+◌, ◌≡◌, refl, sym, ap, ◌∙◌, String, Bool, true, false, not, List, [], ◌∷◌, ◌++◌, Option, none,
  map, filter, length, if◌then◌else◌, if_cases, subst, eq_iff, str_eq, arith,
}
use pi_threads.Value.{Value, str, get, is_text}
use pi_threads.Session.Entries.{Host, is_message, is_full, message_text}
use pi_threads.Session.Info.{
  Tally, is_user, is_talk, tally_text, tally_message, entry_name, tally_entry, tally, empty_tally,
}

abbrev pub messages : List Value → List Value
messages entries = map (get "message") (filter is_message entries)

abbrev pub texts : (Value → Bool) → List Value → List String
texts p found = filter is_full (map message_text (filter p found))

abbrev pub head_or : String → List String → String
head_or d [] = d
head_or d (s ∷ ss) = s

abbrev first_of : String → List String → String
first_of first found = if is_full first then first else head_or first found

-- What a tally becomes over messages.
abbrev Tallied : Tally → List Value → Tally → Type 0
Tallied t found r =
    (r.message_count ≡ t.message_count + length found)
    × (r.first_message ≡ first_of t.first_message (texts is_user found))
    × (r.all_messages ≡ t.all_messages ++ texts is_talk found)

info_lem : (v : Value) → is_text v "session_info" ≡ true → is_text v "message" ≡ false
info_lem (str s) h =
    let e = (eq_iff s "session_info").0 h in subst (λ s. str_eq s "message" ≡ false) (sym e) refl
info_lem v h = refl

skip_lem :
    (entry : Value) (entries : List Value)
    → is_message entry ≡ false
    → messages (entry ∷ entries) ≡ messages entries
skip_lem entry entries h =
    ap
      (λ b.
        map (get "message")
          (if b then entry ∷ filter is_message entries else filter is_message entries))
      h

keep_lem :
    (entry : Value) (entries : List Value)
    → is_message entry ≡ true
    → messages (entry ∷ entries) ≡ get "message" entry ∷ messages entries
keep_lem entry entries h =
    ap
      (λ b.
        map (get "message")
          (if b then entry ∷ filter is_message entries else filter is_message entries))
      h

first_none : (first : String) → first ≡ first_of first []
first_none first = ground arith

silent-Tallied :
    (t : Tally) (m : Value) (found : List Value) (r : Tally)
    → is_talk m ≡ false
    → Tallied (record t { message_count = t.message_count + 1 }) found r
    → Tallied t (m ∷ found) r
silent-Tallied t m found r h (a, b, c) = (omega arith, ground arith, ground arith)

text-Tallied :
    (t : Tally) (m : Value) (found : List Value) (r : Tally)
    → is_talk m ≡ true
    → Tallied
        (tally_text (record t { message_count = t.message_count + 1 }) (is_user m) (message_text m))
        found
        r
    → Tallied t (m ∷ found) r
text-Tallied t m found r h (a, b, c) = (
  ground arith,
  ground arith,
  let assoc = append_assoc t.all_messages (message_text m ∷ []) (texts is_talk found) in
      ground arith,
)

message-Tallied :
    (t : Tally) (m : Value) (found : List Value) (r : Tally)
    → Tallied (tally_message (record t { message_count = t.message_count + 1 }) m) found r
    → Tallied t (m ∷ found) r
message-Tallied t m found r =
    if_cases {A = Tally} (λ t'. Tallied t' found r → Tallied t (m ∷ found) r) (not (is_talk m))
      (λ e v. silent-Tallied t m found r (ground arith) v)
      (λ e v. text-Tallied t m found r (ground arith) v)

unnamed : (t : Tally) (m : Value) → (tally_message t m).name ≡ t.name
unnamed t m =
    if_cases {A = Tally} (λ t'. t'.name ≡ t.name) (not (is_talk m)) (λ _. refl)
      (λ _.
        if_cases {A = Tally} (λ t'. t'.name ≡ t.name) (not (is_full (message_text m))) (λ _. refl)
          (λ _. refl))

name_if :
    (b : Bool) (t t' : Tally) {name : Option String}
    → t'.name ≡ name
    → (if b then t else t').name ≡ (if b then t.name else name)
name_if true t t' e = refl
name_if false t t' e = e

module _ (host : Host) where
  -- The name that the last entry of a name gives.
  abbrev pub last_name : Option String → List Value → Option String
  last_name name [] = name
  last_name name (entry ∷ entries) =
      last_name
        (if is_text (get "type" entry) "session_info"
          then entry_name host (get "name" entry)
          else name)
        entries

  named_lem :
      (t : Tally) (entry : Value)
      → (tally_entry host t entry).name ≡ (
          if is_text (get "type" entry) "session_info"
          then entry_name host (get "name" entry)
          else t.name)
  named_lem t entry =
      name_if (is_text (get "type" entry) "session_info")
        (record t { name = entry_name host (get "name" entry) }) _
        (if_cases {A = Tally} (λ t'. t'.name ≡ t.name) (not (is_message entry)) (λ _. refl)
          (λ _. unnamed (record t { message_count = t.message_count + 1 }) (get "message" entry)))

  entry-Tallied :
      (t : Tally) (entry : Value) (entries : List Value) (r : Tally)
      → Tallied (tally_entry host t entry) (messages entries) r
      → Tallied t (messages (entry ∷ entries)) r
  entry-Tallied t entry entries r =
      let P : Tally → Type 0 =
        λ t'. Tallied t' (messages entries) r → Tallied t (messages (entry ∷ entries)) r in
      if_cases P (is_text (get "type" entry) "session_info") (λ e v. skipped (cong_and e) v)
        (λ _.
          if_cases P (not (is_message entry)) (λ e v. skipped (ground arith) v)
            (λ e v.
              subst (λ found. Tallied t found r) (sym (keep_lem entry entries (ground arith)))
                (message-Tallied t (get "message" entry) (messages entries) r v)))
    where
      cong_and : is_text (get "type" entry) "session_info" ≡ true → is_message entry ≡ false
      cong_and e = let h = info_lem (get "type" entry) e in ground arith

      skipped :
          is_message entry ≡ false
          → Tallied t (messages entries) r
          → Tallied t (messages (entry ∷ entries)) r
      skipped h v = subst (λ found. Tallied t found r) (sym (skip_lem entry entries h)) v

  tally-Tallied :
      (t : Tally) (entries : List Value)
      → Tallied t (messages entries) (tally host t entries)
        × ((tally host t entries).name ≡ last_name t.name entries)
  unfolding tally
  tally-Tallied t [] =
      ((omega arith, first_none t.first_message, sym (append-nil t.all_messages)), refl)
  tally-Tallied t (entry ∷ entries) =
      let (v, n) = tally-Tallied (tally_entry host t entry) entries in
      (
        entry-Tallied t entry entries (tally host (tally_entry host t entry) entries) v,
        n ∙ ap (λ name. last_name name entries) (named_lem t entry),
      )

  -- One pass over the entries counts their messages, finds the first text of the user, takes the name
  -- of the last entry that names the session, and collects the texts of the user and the assistant.
  pub tally-described :
      (entries : List Value)
      → let t = tally host empty_tally entries in
        (t.message_count ≡ length (messages entries))
        × (t.first_message ≡ head_or "" (texts is_user (messages entries)))
        × (t.name ≡ last_name none entries)
        × (t.all_messages ≡ texts is_talk (messages entries))
  tally-described entries =
      let ((a, b, c), n) = tally-Tallied empty_tally entries in (omega arith, b, n, c)
