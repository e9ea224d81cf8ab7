-- ===== src/Session/Activity.antt =====
-- The date of the last activity of a session, as sessionModifiedDate finds it.
use pi_threads.Base.{
  ℕ, zero, suc, ◌≤◌, ◌≡◌, refl, ◌⊎◌, inl, inr, sym, subst, ap, ◌∙◌, String, Bool, false, true, ◌||◌,
  List, [], ◌∷◌, Option, none, some, ◌==◌, any, All, max, arith,
}
use pi_threads.Value.{Value, num, str, get, is_record, is_text}
use pi_threads.Value.Texts.{or_cases, is_text-str, str-is_text}
use pi_threads.Session.Entries.{Host}
use pi_threads.Session.Info.{
  is_user, is_talk, date_of, message_time, activity, later, last_activity, activity_or, parse_date,
  session_modified_date,
}

abbrev prepend : Option ℕ → List ℕ → List ℕ
prepend none ts = ts
prepend (some t) ts = t ∷ ts

-- What a list of times says of the one that the loop ends with, if it starts with one.
abbrev IsLatest : ℕ → List ℕ → Option ℕ → Type 0
IsLatest l ts none = ⊥
IsLatest l ts (some m) = (l ≤ m) × All (λ t. t ≤ m) ts × ((l == m || any (λ t. t == m) ts) ≡ true)

abbrev is_num : Value → Bool
is_num (num n) = true
is_num v = false

module _ (host : Host) where
  -- The times that the messages of the user and of the assistant count for, in the order of the file.
  abbrev times : List Value → List ℕ
  times [] = []
  times (entry ∷ entries) = prepend (activity host entry) (times entries)

  raise_lem :
      (l t : ℕ) (ts : List ℕ) (r : Option ℕ) → IsLatest (max l t) ts r → IsLatest l (t ∷ ts) r
  raise_lem l t ts none h = h
  raise_lem l t ts (some m) (a, k, e) = (omega arith, (omega arith, k), ground arith)

  later-IsLatest :
      (l : ℕ) (a : Option ℕ) (ts : List ℕ) (after : Option ℕ → Option ℕ)
      → ((k : ℕ) → IsLatest k ts (after (some k)))
      → IsLatest l (prepend a ts) (after (later (some l) a))
  later-IsLatest l none ts after h = h l
  later-IsLatest l (some t) ts after h = raise_lem l t ts (after (some (max l t))) (h (max l t))

  last_activity-IsLatest :
      (l : ℕ) (entries : List Value)
      → IsLatest l (times entries) (last_activity host (some l) entries)
  last_activity-IsLatest l [] = (omega arith, tt, ground arith)
  last_activity-IsLatest l (entry ∷ entries) =
      later-IsLatest l (activity host entry) (times entries)
        (λ last. last_activity host last entries) (λ k. last_activity-IsLatest k entries)

  -- The same from the start, where there is no time yet.
  abbrev IsFirst : List ℕ → Option ℕ → Type 0
  IsFirst ts none = ts ≡ []
  IsFirst ts (some m) = All (λ t. t ≤ m) ts × (any (λ t. t == m) ts ≡ true)

  first_lem : (t : ℕ) (ts : List ℕ) (r : Option ℕ) → IsLatest (max 0 t) ts r → IsFirst (t ∷ ts) r
  first_lem t ts none h = absurd h
  first_lem t ts (some m) (a, k, e) = ((omega arith, k), ground arith)

  started-IsFirst :
      (a : Option ℕ) (ts : List ℕ) (after : Option ℕ → Option ℕ)
      → ((k : ℕ) → IsLatest k ts (after (some k)))
      → IsFirst ts (after none)
      → IsFirst (prepend a ts) (after (later none a))
  started-IsFirst none ts after h f = f
  started-IsFirst (some t) ts after h f = first_lem t ts (after (some (max 0 t))) (h (max 0 t))

  last_activity-IsFirst :
      (entries : List Value) → IsFirst (times entries) (last_activity host none entries)
  last_activity-IsFirst [] = refl
  last_activity-IsFirst (entry ∷ entries) =
      started-IsFirst (activity host entry) (times entries)
        (λ last. last_activity host last entries) (λ k. last_activity-IsLatest k entries)
        (last_activity-IsFirst entries)

  abbrev IsModified : List ℕ → ℕ → ℕ → Type 0
  IsModified ts otherwise m =
      All (λ t. t ≤ m) ts
      × ((any (λ t. t == m) ts ≡ true) ⊎ (All (λ t. t ≡ 0) ts × (m ≡ otherwise)))

  zero_lem : (ts : List ℕ) → All (λ t. t ≤ 0) ts → All (λ t. t ≡ 0) ts
  zero_lem [] h = tt
  zero_lem (t ∷ ts) (h, hs) = (omega arith, zero_lem ts hs)

  zero_bound : (m : ℕ) (ts : List ℕ) → All (λ t. t ≤ 0) ts → All (λ t. t ≤ m) ts
  zero_bound m [] h = tt
  zero_bound m (t ∷ ts) (h, hs) = (omega arith, zero_bound m ts hs)

  modified_lem :
      (ts : List ℕ) (otherwise : ℕ) (r : Option ℕ)
      → IsFirst ts r
      → IsModified ts otherwise (activity_or host r otherwise)
  modified_lem ts d none h = subst (λ ts. IsModified ts d d) (sym h) (tt, inr (tt, refl))
  modified_lem ts d (some zero) (h, e) = (zero_bound d ts h, inr (zero_lem ts h, refl))
  modified_lem ts d (some (suc m)) (h, e) = (h, inl e)

  -- The time that an entry of a session has, if it is a message of the user or of the assistant: the
  -- number in its message, or else the date in the entry.
  abbrev pub HasTime : Value → ℕ → Type 0
  HasTime entry t =
      (get "type" entry ≡ str "message")
      × (is_record (get "message" entry) ≡ true)
      × ((get "role" (get "message" entry) ≡ str "user")
          ⊎ (get "role" (get "message" entry) ≡ str "assistant"))
      × ((get "timestamp" (get "message" entry) ≡ num t)
          ⊎ (((n : ℕ) → get "timestamp" (get "message" entry) ≡ num n → ⊥)
              × ((date : String) × (get "timestamp" entry ≡ str date)
                  × (host.parse_date date ≡ some t))))

  -- One of the entries has the time.
  abbrev pub IsTimeOf : List Value → ℕ → Type 0
  IsTimeOf [] m = ⊥
  IsTimeOf (entry ∷ entries) m = HasTime entry m ⊎ IsTimeOf entries m

  date_of-str :
      (v : Value) (t : ℕ)
      → date_of host v ≡ some t
      → (date : String) × (v ≡ str date) × (host.parse_date date ≡ some t)
  date_of-str (str date) t h = (date, refl, h)
  date_of-str v t h = absurd (ground arith)

  message_time-time :
      (v stamp : Value) (t : ℕ)
      → message_time host v stamp ≡ some t
      → (v ≡ num t)
        ⊎ (((n : ℕ) → v ≡ num n → ⊥)
            × ((date : String) × (stamp ≡ str date) × (host.parse_date date ≡ some t)))
  message_time-time (num n) stamp t h = inl (ground arith)
  message_time-time v stamp t h =
      inr (λ n e. let k = ap is_num e in ground arith, date_of-str stamp t h)

  time-message_time :
      (v stamp : Value) (t : ℕ)
      → (v ≡ num t)
        ⊎ (((n : ℕ) → v ≡ num n → ⊥)
            × ((date : String) × (stamp ≡ str date) × (host.parse_date date ≡ some t)))
      → message_time host v stamp ≡ some t
  time-message_time v stamp t (inl e) = ap (λ x. message_time host x stamp) e
  time-message_time (num n) stamp t (inr (differs, rest)) = absurd (differs n refl)
  time-message_time v stamp t (inr (differs, (date, e, h))) = ap (date_of host) e ∙ h

  talk_cases :
      (message : Value)
      → is_talk message ≡ true
      → (get "role" message ≡ str "user") ⊎ (get "role" message ≡ str "assistant")
  talk_cases message h =
      elim (or_cases (is_user message) (is_text (get "role" message) "assistant") h) [
        | inl e ↦ inl (is_text-str _ "user" e)
        | inr e ↦ inr (is_text-str _ "assistant" e)
      ]

  cases_talk :
      (message : Value)
      → (get "role" message ≡ str "user") ⊎ (get "role" message ≡ str "assistant")
      → is_talk message ≡ true
  cases_talk message (inl e) = let k = str-is_text _ "user" e in ground arith
  cases_talk message (inr e) = let k = str-is_text _ "assistant" e in ground arith

  activity-HasTime : (entry : Value) (t : ℕ) → activity host entry ≡ some t → HasTime entry t
  activity-HasTime entry t h = (
    is_text-str _ "message" (ground arith),
    ground arith,
    talk_cases (get "message" entry) (ground arith),
    message_time-time (get "timestamp" (get "message" entry)) (get "timestamp" entry) t
        (ground arith),
  )

  HasTime-activity : (entry : Value) (t : ℕ) → HasTime entry t → activity host entry ≡ some t
  HasTime-activity entry t (type, body, role, time) =
      let a = str-is_text _ "message" type in
      let b = cases_talk (get "message" entry) role in
      let c =
        time-message_time (get "timestamp" (get "message" entry)) (get "timestamp" entry) t time in
      ground arith

  prepend-All :
      (P : ℕ → Type 0) (o : Option ℕ) (t : ℕ) (ts : List ℕ)
      → o ≡ some t
      → All P (prepend o ts)
      → P t
  prepend-All P none t ts e h = absurd (ground arith)
  prepend-All P (some u) t ts e (h, hs) = let same : u ≡ t = ground arith in subst P same h

  prepend-rest : (P : ℕ → Type 0) (o : Option ℕ) (ts : List ℕ) → All P (prepend o ts) → All P ts
  prepend-rest P none ts h = h
  prepend-rest P (some u) ts (h, hs) = hs

  -- What holds of all times holds of the time of each entry.
  times-All :
      (P : ℕ → Type 0) (entries : List Value)
      → All P (times entries)
      → All (λ entry. (t : ℕ) → HasTime entry t → P t) entries
  times-All P [] h = tt
  times-All P (entry ∷ entries) h = (
    λ t time.
        prepend-All P (activity host entry) t (times entries) (HasTime-activity entry t time) h,
    times-All P entries (prepend-rest P (activity host entry) (times entries) h),
  )

  prepend-any :
      (m : ℕ) (o : Option ℕ) (ts : List ℕ)
      → any (λ t. t == m) (prepend o ts) ≡ true
      → (o ≡ some m) ⊎ (any (λ t. t == m) ts ≡ true)
  prepend-any m none ts h = inr h
  prepend-any m (some u) ts h = elim (or_cases (u == m) (any (λ t. t == m) ts) h) [
    | inl e ↦ inl (ground arith)
    | inr e ↦ inr e
  ]

  any-IsTimeOf :
      (m : ℕ) (entries : List Value) → any (λ t. t == m) (times entries) ≡ true → IsTimeOf entries m
  any-IsTimeOf m [] h = absurd (ground arith)
  any-IsTimeOf m (entry ∷ entries) h =
      elim (prepend-any m (activity host entry) (times entries) h) [
        | inl e ↦ inl (activity-HasTime entry m e)
        | inr e ↦ inr (any-IsTimeOf m entries e)
      ]

  -- The modified date of a session is no earlier than the time of any message of the user or of the
  -- assistant, and is the time of one of them; or they have no time but 0 and it is the date in the
  -- header or, without one, that of the file.
  pub session_modified_date-latest :
      (entries : List Value) (header : Value) (fallback : ℕ)
      → let m = session_modified_date host entries header fallback in
        All (λ entry. (t : ℕ) → HasTime entry t → t ≤ m) entries
        × (IsTimeOf entries m
            ⊎ (All (λ entry. (t : ℕ) → HasTime entry t → t ≡ 0) entries
                × (m ≡ parse_date host (get "timestamp" header) fallback)))
  unfolding session_modified_date
  session_modified_date-latest entries header fallback =
      let m = session_modified_date host entries header fallback in
      let (bound, which) =
        modified_lem (times entries) (parse_date host (get "timestamp" header) fallback)
          (last_activity host none entries) (last_activity-IsFirst entries) in
      (
        times-All (λ t. t ≤ m) entries bound,
        elim which [
          | inl e ↦ inl (any-IsTimeOf m entries e)
          | inr (zero_times, e) ↦ inr (times-All (λ t. t ≡ 0) entries zero_times, e)
        ],
      )
