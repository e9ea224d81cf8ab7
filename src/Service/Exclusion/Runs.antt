-- ===== src/Service/Exclusion/Runs.antt =====
-- Whole runs of the service, and the threads that its calls hold.
use pi_threads.Base.{
  ℕ, ◌+◌, ◌≤◌, ◌≡◌, refl, ap, String, Bool, true, false, not, ◌&&◌, ◌||◌, List, [], ◌∷◌, Option,
  none, some, if◌then◌else◌, ◌==◌, str_eq, arith, if_cases,
}
use pi_threads.Value.{Value}
use pi_threads.Protocol.Errors.{Result, ok, err}
use pi_threads.Protocol.Events.{EventBody, DaemonEventType, is_terminal_event_type}
use pi_threads.Worker.{PooledWorker}
use pi_threads.Pool.State.{Env, WorkerPoolOptions}
use pi_threads.Pool.Reserve.{read}
use pi_threads.Service.Turns.{
  ActiveTurn, Turns, is_some, set_turn, Handled, end_turn, is_start, handle_active, handle_turn,
  handle_daemon_event, answer_prompt, fail_turn, complete_promptless_turn,
}
use pi_threads.Service.Calls.{Call, Service, Taken, keep, take_call}
use pi_threads.Service.Send.{require_active, abort_read, abort_active, begin_abort}
use pi_threads.Service.Machine.{
  Outcome, Input, calls_send, calls_mutation, calls_abort, calls_start, settles, delivers,
  prompt_answers, prompt_fails, promptless_runs, shuts_down, pool_moves, found_worker,
  handled_worker, thread_worker, deliver, resume_taken, step, run,
}
use pi_threads.Service.Exclusion.{
  sends_at, changes_at, sends, changes, reserved, IsExclusive, Held, replace-Held,
}
use pi_threads.Service.Exclusion.Steps.{
  AllApart, IsHeld, unheld, reheld, IsFresh, resume-IsExclusive,
}

-- A call taken from the list holds what the list held with it.
abbrev IsSplit : List Call → Option Taken → Type 0
IsSplit cs none = Unit
IsSplit cs (some t) =
    (k : String)
    → (sends k cs ≡ sends_at k t.wait + sends k t.rest)
      × (changes k cs ≡ changes_at k t.wait + changes k t.rest)

keep-IsSplit :
    (c : Call) (cs : List Call) (o : Option Taken) → IsSplit cs o → IsSplit (c ∷ cs) (keep c o)
keep-IsSplit c cs none h = tt
keep-IsSplit c cs (some t) h = λ k. let e = h k in (omega arith, omega arith)

take_call-IsSplit : (id : ℕ) (cs : List Call) → IsSplit cs (take_call id cs)
take_call-IsSplit id [] = tt
take_call-IsSplit id (c ∷ cs) =
    if_cases (IsSplit (c ∷ cs)) (c.id == id) (λ _. λ k. (refl, refl))
      (λ _. keep-IsSplit c cs (take_call id cs) (take_call-IsSplit id cs))

taken-IsHeld :
    (q : Service) (t : Taken)
    → IsSplit q.calls (some t)
    → IsExclusive q
    → IsHeld t.wait (record q { calls = t.rest })
taken-IsHeld q t h v k = let e = h k in let w = v k in ground arith

-- The events of the bus end or mark turns that have a worker.
abbrev KeptApart : List Call → Handled → Type 0
KeptApart calls h = AllApart calls h.turns

replaced :
    (calls : List Call) (t : Turns) (thread : String) (a : ActiveTurn) (y : Option ActiveTurn)
    → t.active_turns thread ≡ some a
    → is_some a.worker_id ≡ true
    → reserved y ≡ 0
    → Held calls (λ k. 0) (λ k. 0) t
    → AllApart calls (set_turn t thread y)
replaced calls t thread a y e there busy v =
    unheld calls (set_turn t thread y)
      (replace-Held calls t thread (some a) y e refl (ground arith) busy v)

end_turn-KeptApart :
    (calls : List Call) (t : Turns) (thread : String) (owner : ℕ) (found : Option PooledWorker)
    → AllApart calls (set_turn t thread none)
    → KeptApart calls (end_turn t thread owner found)
end_turn-KeptApart calls t thread owner none v = v
end_turn-KeptApart calls t thread owner (some w) v =
    if_cases (KeptApart calls) (w.worker_id == owner) (λ _. v) (λ _. v)

owned-KeptApart :
    (calls : List Call) (t : Turns) (found : Option PooledWorker) (type : DaemonEventType)
    (thread turn : String) (a : ActiveTurn) (worker : Option ℕ)
    → a.worker_id ≡ worker
    → t.active_turns thread ≡ some (record a { worker_id = worker })
    → Held calls (λ k. 0) (λ k. 0) t
    → KeptApart calls
        (handle_active t found type thread turn (some (record a { worker_id = worker })))
owned-KeptApart calls t found type thread turn a none w e v = unheld calls t v
owned-KeptApart calls t found type thread turn a (some owner) w e v =
    if_cases (KeptApart calls) (not (str_eq a.turn_id turn)) (λ _. unheld calls t v)
      (λ _.
        if_cases (KeptApart calls) (is_start type)
          (λ _. replaced calls t thread (record a { worker_id = some owner }) _ e refl refl v)
          (λ _.
            if_cases (KeptApart calls) (not (is_terminal_event_type type)) (λ _. unheld calls t v)
              (λ _. end_turn-KeptApart calls t thread owner found (
                replaced calls t thread (record a { worker_id = some owner }) none e refl refl v))))

active-KeptApart :
    (calls : List Call) (t : Turns) (found : Option PooledWorker) (type : DaemonEventType)
    (thread turn : String) (entry : Option ActiveTurn)
    → t.active_turns thread ≡ entry
    → Held calls (λ k. 0) (λ k. 0) t
    → KeptApart calls (handle_active t found type thread turn entry)
active-KeptApart calls t found type thread turn none e v = unheld calls t v
active-KeptApart calls t found type thread turn (some a) e v =
    owned-KeptApart calls t found type thread turn a a.worker_id refl e v

turn-KeptApart :
    (calls : List Call) (t : Turns) (found : Option PooledWorker) (type : DaemonEventType)
    (thread turn : Option String)
    → Held calls (λ k. 0) (λ k. 0) t
    → KeptApart calls (handle_turn t found type thread turn)
turn-KeptApart calls t found type none turn v = unheld calls t v
turn-KeptApart calls t found type (some thread) none v = unheld calls t v
turn-KeptApart calls t found type (some thread) (some turn) v =
    if_cases (KeptApart calls) (str_eq thread "" || str_eq turn "") (λ _. unheld calls t v)
      (λ _. active-KeptApart calls t found type thread turn (t.active_turns thread) refl v)

event-KeptApart :
    (calls : List Call) (t : Turns) (found : Option PooledWorker) (event : EventBody)
    → Held calls (λ k. 0) (λ k. 0) t
    → KeptApart calls (handle_daemon_event t found event)
unfolding handle_daemon_event
event-KeptApart calls t found event v =
    if_cases (KeptApart calls) t.shutting_down (λ _. unheld calls t v)
      (λ _. turn-KeptApart calls t found event.type event.thread_id event.turn_id v)

handled-IsExclusive :
    (q : Service) (found : Option ℕ) (worker : Option PooledWorker)
    → IsExclusive q
    → IsExclusive (handled_worker q found worker)
handled-IsExclusive q none worker v = v
handled-IsExclusive q (some w) none v = v
handled-IsExclusive q (some w) (some worker) v = v

deliver-IsExclusive :
    (q : Service) (event : EventBody) → IsExclusive q → IsExclusive (deliver q event)
unfolding deliver
deliver-IsExclusive q event v =
    let found = thread_worker q event.thread_id in
    let h = handle_daemon_event q.turns (found_worker q found) event in
    handled-IsExclusive (record q { turns = h.turns }) found h.worker
      (event-KeptApart q.calls q.turns (found_worker q found) event (reheld q v))

abort-IsExclusive :
    (q : Service) (id : ℕ) (thread : String) (r : Result (String × ℕ))
    → IsExclusive q
    → IsExclusive (abort_active q id thread r)
abort-IsExclusive q id thread (err error) v = v
abort-IsExclusive q id thread (ok (turn, w)) v = read_worker (read q.pool w)
  where
    read_worker : (r : Result ℕ) → IsExclusive (abort_read q id thread turn w r)
    read_worker (err error) = v
    read_worker (ok _) = reheld q v

-- Changes of the events that the service has emitted alone.
quiet_turns :
    (calls : List Call) (t : Turns) (b : Bool) (more : List EventBody)
    → AllApart calls t
    → AllApart calls (if b then t else record t { emitted = more })
quiet_turns calls t true more v = v
quiet_turns calls t false more v = v

module _ (turn_name : ℕ → String) (string_of : Value → String) (preview : Value) where
  -- What an input may bring: a started session is one that nothing holds.
  abbrev IsFreshFor : Service → Outcome → Option Taken → Type 0
  IsFreshFor q o none = Unit
  IsFreshFor q o (some t) = IsFresh turn_name string_of preview t.rest t.wait o

  abbrev pub IsFreshInput : Service → Input → Type 0
  IsFreshInput q (settles id o) = IsFreshFor q o (take_call id q.calls)
  IsFreshInput q _ = Unit

  taken-IsExclusive :
      (env : Env) (q : Service) (id : ℕ) (o : Outcome) (t : Option Taken)
      → IsSplit q.calls t
      → IsFreshFor q o t
      → IsExclusive q
      → IsExclusive (resume_taken turn_name string_of preview env q id o t)
  taken-IsExclusive env q id o none h f v = v
  taken-IsExclusive env q id o (some t) h f v =
      resume-IsExclusive turn_name string_of preview env (record q { calls = t.rest }) id t.wait o f
        (taken-IsHeld q t h v)

  step-IsExclusive :
      (o : WorkerPoolOptions) (env : Env) (q : Service) (input : Input)
      → IsFreshInput q input
      → IsExclusive q
      → IsExclusive (step turn_name string_of preview o env q input)
  unfolding step begin_abort answer_prompt fail_turn complete_promptless_turn
  step-IsExclusive o env q (calls_send id thread) f v = reheld q v
  step-IsExclusive o env q (calls_mutation id thread) f v = reheld q v
  step-IsExclusive o env q (calls_abort id thread) f v =
      abort-IsExclusive q id thread (require_active (let t = q.turns in t.active_turns thread)) v
  step-IsExclusive o env q (calls_start id cwd p) f v = reheld q v
  step-IsExclusive o env q (settles id outcome) f v =
      taken-IsExclusive env q id outcome (take_call id q.calls) (take_call-IsSplit id q.calls) f v
  step-IsExclusive o env q (delivers event) f v = deliver-IsExclusive q event v
  step-IsExclusive o env q (prompt_answers thread turn w d) f v = quiet_turns q.calls q.turns _ _ v
  step-IsExclusive o env q (prompt_fails thread turn w m) f v = quiet_turns q.calls q.turns _ _ v
  step-IsExclusive o env q (promptless_runs thread turn w) f v = quiet_turns q.calls q.turns _ _ v
  step-IsExclusive o env q shuts_down f v = v
  step-IsExclusive o env q (pool_moves input) f v = v

  -- Along a run, no call that sends to a new session or changes it is past its admission when
  -- threadStart accepts the session.
  abbrev pub IsFreshRun : WorkerPoolOptions → Service → List (Env × Input) → Type 0
  IsFreshRun o q [] = Unit
  IsFreshRun o q ((env, input) ∷ rest) =
      IsFreshInput q input × IsFreshRun o (step turn_name string_of preview o env q input) rest

  run-IsExclusive :
      (o : WorkerPoolOptions) (q : Service) (inputs : List (Env × Input))
      → IsFreshRun o q inputs
      → IsExclusive q
      → IsExclusive (run turn_name string_of preview o q inputs)
  unfolding run
  run-IsExclusive o q [] f v = v
  run-IsExclusive o q ((env, input) ∷ rest) (f, fs) v =
      run-IsExclusive o (step turn_name string_of preview o env q input) rest fs
        (step-IsExclusive o env q input f v)

  -- Whatever is called and however the waits, the events and the pool interleave, no two of the
  -- calls that send to a thread or change it are past their admission at once: together they
  -- hold a thread at most once, and while one changes it the thread has no turn. This assumes what
  -- threadStart does not check: when it accepts a session that Pi has just made, no call that sends
  -- to this session or changes it is past its admission.
  pub run-apart :
      (o : WorkerPoolOptions) (q : Service) (inputs : List (Env × Input)) (k : String)
      → IsFreshRun o q inputs
      → IsExclusive q
      → let q' = run turn_name string_of preview o q inputs in
        let t = q'.turns in
        (sends k q'.calls + changes k q'.calls ≤ 1)
        × ((is_some (t.active_turns k) && not (changes k q'.calls == 0)) ≡ false)
  run-apart o q inputs k f v =
      let h = run-IsExclusive o q inputs f v k in (ground arith, ground arith)

  -- Once every call has been answered, no thread is marked as being changed, and every turn that is
  -- still active has its worker: no error path leaves a reservation or a mark behind. This too
  -- assumes that, whenever threadStart accepted a new session, no call that sent to it or changed it
  -- was past its admission.
  pub run-unheld :
      (o : WorkerPoolOptions) (q : Service) (inputs : List (Env × Input)) (k : String)
      → IsFreshRun o q inputs
      → IsExclusive q
      → (let q' = run turn_name string_of preview o q inputs in q'.calls ≡ [])
      → let q' = run turn_name string_of preview o q inputs in
        let t = q'.turns in (t.session_mutations k ≡ false) × (reserved (t.active_turns k) ≡ 0)
  run-unheld o q inputs k f v done =
      let q' = run turn_name string_of preview o q inputs in
      let h = run-IsExclusive o q inputs f v k in
      let quiet = ap (sends k) done in
      let unchanged = ap (changes k) done in (ground arith, ground arith)
