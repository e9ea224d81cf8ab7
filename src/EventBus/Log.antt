-- ===== src/EventBus/Log.antt =====
-- The log of a bus: what every call keeps of it, listeners that call the bus included.
use mathlib.Core.List.{append_assoc, append-nil}
use pi_threads.Base.{
  ℕ, zero, suc, ◌+◌, ◌-◌, ◌≤◌, ◌≡◌, refl, sym, ap, subst, ◌∙◌, String, true, false, List, [], ◌∷◌,
  ◌++◌, Option, none, some, arith, ltb, length, drop, length-append, length-drop, drop-append,
  if_cases,
}
use pi_threads.Value.{Value}
use pi_threads.Protocol.Errors.{ok}
use pi_threads.Protocol.Events.{EventBody}
use pi_threads.EventBus.{
  DaemonEvent, Subscriber, Frame, draining, fanning, delivering_to, listening, EventBus, emit,
  push_replay, shift, CursorMatch, subscribe, unsubscribe, offer, serve, drain, advance,
  listener_returns, listener_throws, Call, emits, subscribes, unsubscribes, returns, throws,
  advances, after, step, run, new_event_bus,
}

-- The events that calls emit, numbered from `n`.
abbrev pub emitted : ℕ → List Call → List DaemonEvent
emitted n [] = []
emitted n (emits body ∷ cs) = record { sequence = n; body = body } ∷ emitted (n + 1) cs
emitted n (subscribes _ ∷ cs) = emitted n cs
emitted n (unsubscribes _ ∷ cs) = emitted n cs
emitted n (returns ∷ cs) = emitted n cs
emitted n (throws ∷ cs) = emitted n cs
emitted n (advances ∷ cs) = emitted n cs

abbrev pub Numbered : ℕ → List DaemonEvent → Type 0
Numbered n [] = Unit
Numbered n (e ∷ es) = (e.sequence ≡ n) × Numbered (n + 1) es

-- A bus of an epoch and a limit that has emitted the events of `log`: they are numbered from one,
-- and the replay buffer holds the last of them.
pub record Log (epoch : String) (limit : ℕ) (log : List DaemonEvent) (own_epoch : String)
    (own_limit next : ℕ) (replay : List DaemonEvent) : Type 0 where
  pub same_epoch : own_epoch ≡ epoch
  pub same_limit : own_limit ≡ limit
  pub numbered : Numbered 1 log
  pub counted : next ≡ length log + 1
  pub kept : replay ≡ drop (length log - own_limit) log
  pub positive : 1 ≤ limit

abbrev pub IsLog : String → ℕ → EventBus → List DaemonEvent → Type 0
IsLog epoch limit b log = Log epoch limit log b.epoch b.replay_limit b.next_id b.replay

Numbered-snoc :
    (n : ℕ) (es : List DaemonEvent) (e : DaemonEvent)
    → Numbered n es
    → e.sequence ≡ n + length es
    → Numbered n (es ++ e ∷ [])
Numbered-snoc n [] e h s = (omega arith, tt)
Numbered-snoc n (x ∷ xs) e (p, h) s = (p, Numbered-snoc (n + 1) xs e h (omega arith))

shift-drop : (k : ℕ) (xs : List DaemonEvent) → shift (drop k xs) ≡ drop (suc k) xs
shift-drop zero [] = refl
shift-drop zero (x ∷ xs) = refl
shift-drop (suc k) [] = refl
shift-drop (suc k) (x ∷ xs) = shift-drop k xs

push_replay-drop :
    (limit : ℕ) (log : List DaemonEvent) (e : DaemonEvent)
    → push_replay limit (drop (length log - limit) log) e
      ≡ drop (length (log ++ e ∷ []) - limit) (log ++ e ∷ [])
push_replay-drop limit log e =
    let k = length log - limit in
    let joined = drop-append k log (e ∷ []) (omega arith) in
    if_cases (λ r. r ≡ drop (length (log ++ e ∷ []) - limit) (log ++ e ∷ []))
      (ltb limit (length (drop k log ++ e ∷ [])))
      (λ over.
        ap shift (sym joined)
        ∙ shift-drop k (log ++ e ∷ [])
        ∙ ap (λ i. drop i (log ++ e ∷ [])) (cut_over over))
      (λ room. sym joined ∙ ap (λ i. drop i (log ++ e ∷ [])) (cut_room room))
  where
    cut_over :
        ltb limit (length (drop (length log - limit) log ++ e ∷ [])) ≡ true
        → suc (length log - limit) ≡ length (log ++ e ∷ []) - limit
    cut_over over =
        let longer = length-append log (e ∷ []) in
        let measured = length-append (drop (length log - limit) log) (e ∷ []) in
        let rest = length-drop (length log - limit) log in ground arith

    cut_room :
        ltb limit (length (drop (length log - limit) log ++ e ∷ [])) ≡ false
        → length log - limit ≡ length (log ++ e ∷ []) - limit
    cut_room room =
        let longer = length-append log (e ∷ []) in
        let measured = length-append (drop (length log - limit) log) (e ∷ []) in
        let rest = length-drop (length log - limit) log in ground arith

emitted-uncons :
    (n n' : ℕ) (c : Call) (cs : List Call)
    → n' ≡ n + length (emitted n (c ∷ []))
    → emitted n (c ∷ cs) ≡ emitted n (c ∷ []) ++ emitted n' cs
emitted-uncons n n' (emits body) cs h =
    ap (λ m. record { sequence = n; body = body } ∷ emitted m cs) (omega arith)
emitted-uncons n n' (subscribes _) cs h = ap (λ m. emitted m cs) (omega arith)
emitted-uncons n n' (unsubscribes _) cs h = ap (λ m. emitted m cs) (omega arith)
emitted-uncons n n' returns cs h = ap (λ m. emitted m cs) (omega arith)
emitted-uncons n n' throws cs h = ap (λ m. emitted m cs) (omega arith)
emitted-uncons n n' advances cs h = ap (λ m. emitted m cs) (omega arith)

module _ (epoch : String) (limit : ℕ) (match : String → Option CursorMatch) where
  emit-IsLog :
      (b : EventBus) (log : List DaemonEvent) (body : EventBody)
      → IsLog epoch limit b log
      → IsLog epoch limit (emit b body) (log ++ record { sequence = b.next_id; body = body } ∷ [])
  unfolding emit
  emit-IsLog b log body v =
      let e : DaemonEvent = record { sequence = b.next_id; body = body } in
      let counted = v.counted in
      let longer = length-append log (e ∷ []) in
      let grown : Log epoch limit (log ++ e ∷ []) b.epoch b.replay_limit (b.next_id + 1)
          (push_replay b.replay_limit b.replay e) =
        record {
          same_epoch = v.same_epoch;
          same_limit = v.same_limit;
          numbered = Numbered-snoc 1 log e v.numbered (omega arith);
          counted = omega arith;
          kept =
              ap (λ r. push_replay b.replay_limit r e) v.kept
              ∙ push_replay-drop b.replay_limit log e;
          positive = v.positive;
        } in
      if_cases (λ q. IsLog epoch limit q (log ++ e ∷ [])) b.delivering (λ _. grown) (λ _. grown)

  offer-IsLog :
      (b : EventBus) (log : List DaemonEvent) (e : DaemonEvent) (s : Option Subscriber)
      (below : List Frame)
      → IsLog epoch limit b log
      → IsLog epoch limit (offer b e s below) log
  unfolding offer
  offer-IsLog b log e none below v = v
  offer-IsLog b log e (some s) below v = ground arith

  serve-IsLog :
      (b : EventBus) (log : List DaemonEvent) (id : ℕ) (s : Option Subscriber) (below : List Frame)
      → IsLog epoch limit b log
      → IsLog epoch limit (serve b id s below) log
  unfolding serve
  serve-IsLog b log id none below v = v
  serve-IsLog b log id (some s) below v = ground arith

  drain-IsLog :
      (b : EventBus) (log pending : List DaemonEvent) (below : List Frame)
      → IsLog epoch limit b log
      → IsLog epoch limit (drain b pending below) log
  unfolding drain
  drain-IsLog b log [] below v = v
  drain-IsLog b log (e ∷ rest) below v = v

  advance-IsLog :
      (b : EventBus) (log : List DaemonEvent) (stack : List Frame)
      → IsLog epoch limit b log
      → IsLog epoch limit (advance b stack) log
  unfolding advance
  advance-IsLog b log [] v = v
  advance-IsLog b log (draining ∷ below) v = drain-IsLog b log b.pending below v
  advance-IsLog b log (fanning e [] ∷ below) v = v
  advance-IsLog b log (fanning e (id ∷ ids) ∷ below) v =
      offer-IsLog b log e _ (fanning e ids ∷ below) v
  advance-IsLog b log (delivering_to id ∷ below) v = serve-IsLog b log id _ below v
  advance-IsLog b log (listening id ∷ below) v = v

  returns-IsLog :
      (b : EventBus) (log : List DaemonEvent) (stack : List Frame)
      → IsLog epoch limit b log
      → IsLog epoch limit (listener_returns b stack) log
  unfolding listener_returns
  returns-IsLog b log stack v = ground arith

  throws-IsLog :
      (b : EventBus) (log : List DaemonEvent) (stack : List Frame)
      → IsLog epoch limit b log
      → IsLog epoch limit (listener_throws b stack) log
  unfolding listener_throws unsubscribe
  throws-IsLog b log stack v = ground arith

  subscribe-IsLog :
      (b : EventBus) (log : List DaemonEvent) (value : Value)
      → IsLog epoch limit b log
      → IsLog epoch limit (after b (subscribe match b value)) log
  unfolding subscribe
  subscribe-IsLog b log value v = ground arith

  step-IsLog :
      (b : EventBus) (log : List DaemonEvent) (c : Call)
      → IsLog epoch limit b log
      → IsLog epoch limit (step match b c) (log ++ emitted b.next_id (c ∷ []))
  unfolding step unsubscribe
  step-IsLog b log (emits body) v = emit-IsLog b log body v
  step-IsLog b log (subscribes value) v = rw (append-nil log) (subscribe-IsLog b log value v)
  step-IsLog b log (unsubscribes id) v = rw (append-nil log) v
  step-IsLog b log returns v = rw (append-nil log) (returns-IsLog b log b.stack v)
  step-IsLog b log throws v = rw (append-nil log) (throws-IsLog b log b.stack v)
  step-IsLog b log advances v = rw (append-nil log) (advance-IsLog b log b.stack v)

  step-counted :
      (b : EventBus) (log : List DaemonEvent) (c : Call)
      → IsLog epoch limit b log
      → (step match b c).next_id ≡ b.next_id + length (emitted b.next_id (c ∷ []))
  step-counted b log c v =
      let grown = length-append log (emitted b.next_id (c ∷ [])) in
      let before = v.counted in let next = (step-IsLog b log c v).counted in omega arith

  -- A bus that has emitted the events of a log, numbered from one, with the last of them in its
  -- replay buffer, does so after any calls for the log that the calls have extended: whatever
  -- listeners do, ids are never reused or skipped, and the buffer has exactly the latest events.
  pub run-IsLog :
      (b : EventBus) (log : List DaemonEvent) (cs : List Call)
      → IsLog epoch limit b log
      → IsLog epoch limit (run match b cs) (log ++ emitted b.next_id cs)
  unfolding run
  run-IsLog b log [] v = rw (append-nil log) v
  run-IsLog b log (c ∷ cs) v =
      let b' = step match b c in
      let joined =
        append_assoc log (emitted b.next_id (c ∷ [])) (emitted b'.next_id cs)
        ∙ ap (λ es. log ++ es)
            (sym (emitted-uncons b.next_id b'.next_id c cs (step-counted b log c v))) in
      subst (λ es. IsLog epoch limit (run match b' cs) es) joined
        (run-IsLog b' (log ++ emitted b.next_id (c ∷ [])) cs (step-IsLog b log c v))

-- A new bus has an empty log.
pub new_event_bus-IsLog :
    (epoch : String) (limit : ℕ) (b : EventBus)
    → new_event_bus epoch limit ≡ ok b
    → IsLog epoch limit b []
unfolding new_event_bus
new_event_bus-IsLog epoch limit b h = ground arith
