-- ===== src/Service/Order.antt =====
-- filterThreads: the order of the threads and which of them stay.
use pi_threads.Base.{
  ℕ, ◌≡◌, ◌≤◌, ap, ◌∙◌, String, none, some, if◌then◌else◌, str_eq, or_else, leb, refl, subst, Bool,
  true, false, List, [], ◌∷◌, Option, length, filter, arith, if_cases, All,
}
use pi_threads.Protocol.Errors.{ok}
use pi_threads.Service.Threads.{
  Texts, ThreadSummary, ThreadListParams, stays, insert_thread, sort_threads, filter_threads,
  is_recent, parse_since, sort_time, parse_thread_date,
}

-- Every entry stays before the later ones.
abbrev pub IsSorted : (ThreadSummary → ThreadSummary → Type 0) → List ThreadSummary → Type 0
IsSorted before [] = Unit
IsSorted before (t ∷ ts) = All (before t) ts × IsSorted before ts

module _ (texts : Texts) (sort_created asc : Bool) where
  abbrev Stays : ThreadSummary → ThreadSummary → Type 0
  Stays t u = stays texts sort_created asc t u ≡ true

  stays_trans :
      (t u : ThreadSummary)
      → stays texts sort_created asc t u ≡ true
      → (us : List ThreadSummary) → All (λ v. stays texts sort_created asc u v ≡ true) us
      → All (λ v. stays texts sort_created asc t v ≡ true) us
  stays_trans t u h [] a = tt
  stays_trans t u h (v ∷ vs) (b, a) = (ground arith, stays_trans t u h vs a)

  All-insert :
      (t v : ThreadSummary) (us : List ThreadSummary)
      → stays texts sort_created asc v t ≡ true
      → All (λ u. stays texts sort_created asc v u ≡ true) us
      → All
          (λ u. stays texts sort_created asc v u ≡ true)
          (insert_thread texts sort_created asc t us)
  All-insert t v [] h a = (h, tt)
  All-insert t v (u ∷ us) h (b, a) =
      if_cases (All (λ x. stays texts sort_created asc v x ≡ true))
        (stays texts sort_created asc t u) (λ _. (h, (b, a))) (λ _. (b, All-insert t v us h a))

  stays_total :
      (t u : ThreadSummary)
      → stays texts sort_created asc t u ≡ false
      → stays texts sort_created asc u t ≡ true
  stays_total t u h = ground arith

  insert-IsSorted :
      (t : ThreadSummary) (us : List ThreadSummary)
      → IsSorted Stays us
      → IsSorted Stays (insert_thread texts sort_created asc t us)
  insert-IsSorted t [] s = (tt, tt)
  insert-IsSorted t (u ∷ us) (a, s) =
      if_cases (IsSorted Stays) (stays texts sort_created asc t u)
        (λ h. ((h, stays_trans t u h us a), (a, s)))
        (λ h. (All-insert t u us (stays_total t u h) a, insert-IsSorted t us s))

  sort-IsSorted :
      (ts : List ThreadSummary) → IsSorted Stays (sort_threads texts sort_created asc ts)
  sort-IsSorted [] = tt
  sort-IsSorted (t ∷ ts) = insert-IsSorted t _ (sort-IsSorted ts)

  count-insert :
      (p : ThreadSummary → Bool) (t : ThreadSummary) (us : List ThreadSummary)
      → length (filter p (insert_thread texts sort_created asc t us)) ≡ length (filter p (t ∷ us))
  count-insert p t [] = refl
  count-insert p t (u ∷ us) =
      if_cases (λ q. length (filter p q) ≡ length (filter p (t ∷ u ∷ us)))
        (stays texts sort_created asc t u) (λ _. refl)
        (λ _. let rest = count-insert p t us in ground arith)

  count-sort :
      (p : ThreadSummary → Bool) (ts : List ThreadSummary)
      → length (filter p (sort_threads texts sort_created asc ts)) ≡ length (filter p ts)
  count-sort p [] = refl
  count-sort p (t ∷ ts) =
      let inserted = count-insert p t (sort_threads texts sort_created asc ts) in
      let rest = count-sort p ts in ground arith

-- A date of a thread as a time: one that is missing, empty or no date counts as 0.
abbrev pub date_time : Texts → Option String → ℕ
date_time texts none = 0
date_time texts (some s) = if str_eq s "" then 0 else or_zero (texts.parse_date s)
  where
    or_zero : Option ℕ → ℕ
    or_zero none = 0
    or_zero (some t) = t

-- The time by which a listing is sorted, with `sort_created` and without.
abbrev pub order_time : Texts → Bool → ThreadSummary → ℕ
order_time texts true t = date_time texts (or_else t.created t.modified)
order_time texts false t = date_time texts (or_else t.modified t.created)

abbrev pub IsBefore : Texts → (sort_created asc : Bool) → ThreadSummary → ThreadSummary → Type 0
IsBefore texts sort_created true t u =
    order_time texts sort_created t ≤ order_time texts sort_created u
IsBefore texts sort_created false t u =
    order_time texts sort_created u ≤ order_time texts sort_created t

abbrev pub is_kept : Texts → Option ℕ → ThreadSummary → Bool
is_kept texts none t = true
is_kept texts (some since) t = leb since (date_time texts (or_else t.modified t.created))

date_time_lem : (texts : Texts) (o : Option String) → parse_thread_date texts o ≡ date_time texts o
date_time_lem texts none = refl
date_time_lem texts (some s) = refl

kept_lem :
    (texts : Texts) (since : Option ℕ) (t : ThreadSummary)
    → is_recent texts since t ≡ is_kept texts since t
kept_lem texts none t = refl
kept_lem texts (some since) t = ap (leb since) (date_time_lem texts (or_else t.modified t.created))

filter_kept :
    (texts : Texts) (since : Option ℕ) (ts : List ThreadSummary)
    → filter (is_recent texts since) ts ≡ filter (is_kept texts since) ts
filter_kept texts since [] = refl
filter_kept texts since (t ∷ ts) =
    let same = kept_lem texts since t in let rest = filter_kept texts since ts in ground arith

sort_time_lem :
    (texts : Texts) (sort_created : Bool) (t : ThreadSummary)
    → sort_time texts sort_created t ≡ order_time texts sort_created t
sort_time_lem texts true t = date_time_lem texts (or_else t.created t.modified)
sort_time_lem texts false t = date_time_lem texts (or_else t.modified t.created)

stays-IsBefore :
    (texts : Texts) (sort_created asc : Bool) (t u : ThreadSummary)
    → stays texts sort_created asc t u ≡ true
    → IsBefore texts sort_created asc t u
stays-IsBefore texts sort_created true t u h =
    let a = sort_time_lem texts sort_created t in
    let b = sort_time_lem texts sort_created u in ground arith
stays-IsBefore texts sort_created false t u h =
    let a = sort_time_lem texts sort_created t in
    let b = sort_time_lem texts sort_created u in ground arith

All-IsBefore :
    (texts : Texts) (sort_created asc : Bool) (t : ThreadSummary) (us : List ThreadSummary)
    → All (Stays texts sort_created asc t) us
    → All (IsBefore texts sort_created asc t) us
All-IsBefore texts sort_created asc t [] h = tt
All-IsBefore texts sort_created asc t (u ∷ us) (h, hs) =
    (stays-IsBefore texts sort_created asc t u h, All-IsBefore texts sort_created asc t us hs)

IsSorted-IsBefore :
    (texts : Texts) (sort_created asc : Bool) (ts : List ThreadSummary)
    → IsSorted (Stays texts sort_created asc) ts
    → IsSorted (IsBefore texts sort_created asc) ts
IsSorted-IsBefore texts sort_created asc [] h = tt
IsSorted-IsBefore texts sort_created asc (t ∷ ts) (h, hs) =
    (All-IsBefore texts sort_created asc t ts h, IsSorted-IsBefore texts sort_created asc ts hs)

-- The threads that a listing keeps, once its options are accepted: ascending in time or descending,
-- as asked for, by the date of creation, or else of change, as asked for; and they are those that
-- were changed no earlier than the given time, each as often as before. A thread without the date
-- in question has the other, and one with neither has the time 0.
pub filter_threads-IsSorted :
    (texts : Texts) (threads sorted : List ThreadSummary) (options : ThreadListParams)
    (since : Option ℕ) (p : ThreadSummary → Bool)
    → parse_since texts options.since ≡ ok since
    → filter_threads texts threads options ≡ ok sorted
    → IsSorted (IsBefore texts options.sort_created options.asc) sorted
      × (length (filter p sorted) ≡ length (filter p (filter (is_kept texts since) threads)))
unfolding filter_threads
filter_threads-IsSorted texts threads sorted options since p parsed answered =
    let kept = filter (is_recent texts since) threads in
    let same : sort_threads texts options.sort_created options.asc kept ≡ sorted = ground arith in
    subst
      (λ q.
        IsSorted (IsBefore texts options.sort_created options.asc) q
        × (length (filter p q) ≡ length (filter p (filter (is_kept texts since) threads))))
      same
      (
        IsSorted-IsBefore texts options.sort_created options.asc _
            (sort-IsSorted texts options.sort_created options.asc kept),
        count-sort texts options.sort_created options.asc p kept
            ∙ ap (λ ts. length (filter p ts)) (filter_kept texts since threads),
      )
