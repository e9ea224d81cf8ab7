-- ===== src/Service/Turns/Late.antt =====
-- An event that comes late does not touch the turn that a thread has by then.
use pi_threads.Base.{
  ℕ, ◌≡◌, refl, sym, ap, ◌∙◌, String, Bool, true, false, not, ◌||◌, Option, none, some, ◌==◌,
  str_eq, arith, if_cases, eq_iff,
}
use pi_threads.Protocol.Events.{DaemonEventType, EventBody, is_terminal_event_type}
use pi_threads.Worker.{PooledWorker}
use pi_threads.Service.Turns.{
  ActiveTurn, Turns, is_some, Handled, untouched, end_turn, is_start, handle_active, handle_turn,
  handle_daemon_event, set_turn,
}

-- A turn that an event of the given turn does not concern: it has no worker yet, or is another one.
abbrev pub is_spared : Option ActiveTurn → String → Bool
is_spared none turn = true
is_spared (some a) turn = not (is_some a.worker_id) || not (str_eq a.turn_id turn)

set_turn_other :
    (t : Turns) (thread k : String) (turn : Option ActiveTurn)
    → str_eq k thread ≡ false
    → (set_turn t thread turn).active_turns k ≡ t.active_turns k
set_turn_other t thread k turn h = ground arith

end_turn_other :
    (t : Turns) (thread k : String) (owner : ℕ) (found : Option PooledWorker)
    → str_eq k thread ≡ false
    → (end_turn t thread owner found).turns.active_turns k ≡ t.active_turns k
end_turn_other t thread k owner none h = ground arith
end_turn_other t thread k owner (some w) h =
    if_cases {A = Handled} (λ q. q.turns.active_turns k ≡ t.active_turns k) (w.worker_id == owner)
      (λ _. ground arith) (λ _. ground arith)

worker_spared :
    (t : Turns) (found : Option PooledWorker) (type : DaemonEventType) (thread turn k : String)
    (a : ActiveTurn) (worker : Option ℕ)
    → a.worker_id ≡ worker
    → str_eq k thread ≡ false
    → (handle_active t found type thread turn
          (some (record a { worker_id = worker }))).turns.active_turns
        k
      ≡ t.active_turns k
worker_spared t found type thread turn k a none e h = refl
worker_spared t found type thread turn k a (some owner) e h =
    let P : Handled → Type 0 = λ q. q.turns.active_turns k ≡ t.active_turns k in
    if_cases P (not (str_eq a.turn_id turn)) (λ _. refl)
      (λ _.
        if_cases P (is_start type) (λ _. set_turn_other t thread k _ h)
          (λ _.
            if_cases P (not (is_terminal_event_type type)) (λ _. refl)
              (λ _. end_turn_other t thread k owner found h)))

own_spared :
    (t : Turns) (found : Option PooledWorker) (type : DaemonEventType) (thread turn : String)
    (a : ActiveTurn) (worker : Option ℕ)
    → is_spared (some (record a { worker_id = worker })) turn ≡ true
    → handle_active t found type thread turn (some (record a { worker_id = worker }))
      ≡ untouched t found
own_spared t found type thread turn a none h = refl
own_spared t found type thread turn a (some owner) h = ground arith

active_spared :
    (t : Turns) (found : Option PooledWorker) (type : DaemonEventType) (thread turn k : String)
    (a : Option ActiveTurn)
    → t.active_turns thread ≡ a
    → is_spared (t.active_turns k) turn ≡ true
    → (handle_active t found type thread turn a).turns.active_turns k ≡ t.active_turns k
active_spared t found type thread turn k none e s = refl
active_spared t found type thread turn k (some a) e s = by_thread (str_eq k thread) refl
  where
    by_thread :
        (same : Bool)
        → str_eq k thread ≡ same
        → (handle_active t found type thread turn (some a)).turns.active_turns k ≡ t.active_turns k
    by_thread false h = worker_spared t found type thread turn k a a.worker_id refl h
    by_thread true h =
        ap (λ q. q.turns.active_turns k)
          (own_spared t found type thread turn a a.worker_id
            (sym (ap (λ o. is_spared o turn) (ap t.active_turns ((eq_iff k thread).0 h) ∙ e)) ∙ s))

-- An event of a turn leaves the entry of every thread alone that is reserved by a turn which has no
-- worker yet or by another turn: a late or doubled terminal event of a turn that is over never ends or
-- marks the turn that followed it.
pub handle_daemon_event-spares :
    (t : Turns) (found : Option PooledWorker) (event : EventBody) (k turn : String)
    → event.turn_id ≡ some turn
    → is_spared (t.active_turns k) turn ≡ true
    → (handle_daemon_event t found event).turns.active_turns k ≡ t.active_turns k
unfolding handle_daemon_event
handle_daemon_event-spares t found event k turn e s =
    if_cases {A = Handled} (λ q. q.turns.active_turns k ≡ t.active_turns k) t.shutting_down
      (λ _. refl) (λ _. by_ids event.thread_id event.turn_id e)
  where
    by_ids :
        (thread id : Option String)
        → id ≡ some turn
        → (handle_turn t found event.type thread id).turns.active_turns k ≡ t.active_turns k
    by_ids none id h = refl
    by_ids (some thread) none h = refl
    by_ids (some thread) (some u) h =
        if_cases {A = Handled} (λ q. q.turns.active_turns k ≡ t.active_turns k)
          (str_eq thread "" || str_eq u "") (λ _. refl)
          (λ _.
            active_spared t found event.type thread u k (t.active_turns thread) refl (ground arith))
