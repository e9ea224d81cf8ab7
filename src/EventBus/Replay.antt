-- ===== src/EventBus/Replay.antt =====
-- A client that comes back with a cursor misses nothing and gets nothing twice.
use pi_threads.Base.{
  ℕ, zero, suc, ◌+◌, ◌-◌, ◌≤◌, ◌≡◌, refl, ap, ◌∙◌, String, Bool, true, false, ◌&&◌, List, [], ◌∷◌,
  ◌++◌, Option, some, arith, if◌then◌else◌, ltb, filter, length, drop, length-append, length-drop,
  drop-length, eq_iff,
}
use pi_threads.Protocol.Errors.{Result, ok, throw, ◌>>=◌, event_history_lost}
use pi_threads.Protocol.Filters.{EventFilter, matches_filter}
use pi_threads.EventBus.{
  DaemonEvent, EventBus, CursorMatch, sequence_of, is_later, check_cursor, since, events_since,
  Call, run,
}
use pi_threads.EventBus.Log.{emitted, Numbered, IsLog, run-IsLog}

-- The part of a numbered list after a position, by the numbers.
filter_later :
    (t n : ℕ) (m : DaemonEvent → Bool) (log : List DaemonEvent)
    → Numbered (n + 1) log
    → t ≤ n
    → filter (λ e. ltb t e.sequence && m e) log ≡ filter m log
filter_later t n m [] h l = refl
filter_later t n m (x ∷ xs) (e, h) l =
    let rest = filter_later t (n + 1) m xs h (omega arith) in ground arith

filter-drop :
    (t n seen k : ℕ) (m : DaemonEvent → Bool) (log : List DaemonEvent)
    → Numbered (n + 1) log
    → t ≡ n + seen
    → k ≤ seen
    → filter (λ e. ltb t e.sequence && m e) (drop k log) ≡ filter m (drop seen log)
filter-drop t n zero zero m log h e l = filter_later t n m log h (omega arith)
filter-drop t n zero (suc k) m log h e l = absurd (omega arith)
filter-drop t n (suc seen) zero m [] h e l = refl
filter-drop t n (suc seen) zero m (x ∷ xs) (p, h) e l =
    let rest = filter-drop t (n + 1) seen zero m xs h (omega arith) (omega arith) in ground arith
filter-drop t n (suc seen) (suc k) m [] h e l = refl
filter-drop t n (suc seen) (suc k) m (x ∷ xs) (p, h) e l =
    filter-drop t (n + 1) seen k m xs h (omega arith) (omega arith)

answer_cases :
    (over : Bool) (n : ℕ) (find_events : ℕ → List DaemonEvent) (events : List DaemonEvent)
    → (over ≡ false → find_events n ≡ events)
    → (if over
          then throw event_history_lost "Event cursor has expired from the replay buffer"
          else ok n)
        >>= (λ k. ok (find_events k))
      ≡ (if over
          then throw event_history_lost "Event cursor has expired from the replay buffer"
          else ok events)
answer_cases true n g es h = refl
answer_cases false n g es h = ap ok (h refl)

module _ (epoch : String) (limit : ℕ) (match : String → Option CursorMatch) where
  checked :
      (b : EventBus) (log : List DaemonEvent) (new : List DaemonEvent) (n : ℕ)
      → IsLog epoch limit b (log ++ new)
      → n ≡ length log
      → check_cursor match b (some (record { epoch = epoch; number = n })) ≡ (
          if ltb limit (length new)
          then throw event_history_lost "Event cursor has expired from the replay buffer"
          else ok n)
  checked b log new n v e =
      let all = length-append log new in
      let kept : length b.replay ≡ length (log ++ new) - (length (log ++ new) - b.replay_limit) =
        ap length v.kept ∙ length-drop (length (log ++ new) - b.replay_limit) (log ++ new) in
      let counted = v.counted in
      let own = eq_iff b.epoch epoch in
      let id = eq_iff epoch b.epoch in
      let same = v.same_epoch in let l = v.same_limit in ground arith

  kept_since :
      (b : EventBus) (log new : List DaemonEvent) (f : EventFilter) (n : ℕ)
      → IsLog epoch limit b (log ++ new)
      → n ≡ length log
      → ltb limit (length new) ≡ false
      → filter (is_later match n f) b.replay ≡ filter (λ e. matches_filter e.body f) new
  kept_since b log new f n v e room =
      let all = length-append log new in
      let same = v.same_limit in
      rw
        (
          v.kept,
          filter-drop n 0 (length log) (length (log ++ new) - b.replay_limit)
              (λ x. matches_filter x.body f) (log ++ new) v.numbered (omega arith) (ground arith),
          drop-length log new,
        )
        refl

  -- A client has seen every event so far and comes back later with the cursor of the last one,
  -- whatever calls were made in between, from listeners too. If more events were emitted since than
  -- the replay buffer holds, it is told that history was lost. Otherwise it gets exactly the
  -- events emitted since that its filter matches, in order.
  pub run-events_since :
      (b : EventBus) (log : List DaemonEvent) (cs : List Call) (f : EventFilter) (cursor : String)
      → IsLog epoch limit b log
      → f.since_event_id ≡ some cursor
      → match cursor ≡ some (record { epoch = epoch; number = b.next_id - 1 })
      → let new = emitted b.next_id cs in
        events_since match (run match b cs) f ≡ (
          if ltb limit (length new)
          then throw event_history_lost "Event cursor has expired from the replay buffer"
          else ok (filter (λ e. matches_filter e.body f) new))
  unfolding events_since sequence_of
  run-events_since b log cs f cursor v asked found =
      let q = run match b cs in
      let new = emitted b.next_id cs in
      let n = b.next_id - 1 in
      let w = run-IsLog epoch limit match b log cs v in
      let counted = v.counted in
      let seen : n ≡ length log = omega arith in
      let answer : Result ℕ → Result (List DaemonEvent) =
        λ r. r >>= λ k. ok (filter (is_later match k f) q.replay) in
      let cursor_ok : since match q f.since_event_id
          ≡ check_cursor match q (some (record { epoch = epoch; number = n })) =
        rw (asked, found) refl in
      ap answer (cursor_ok ∙ checked q log new n w seen)
      ∙ answer_cases (ltb limit (length new)) n (λ k. filter (is_later match k f) q.replay) _
          (kept_since q log new f n w seen)
