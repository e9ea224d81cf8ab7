-- ===== src/Service/Exclusion/Steps.antt =====
-- Every step of the service keeps its threads apart.
use pi_threads.Base.{
  ℕ, ◌≡◌, refl, String, Bool, true, false, not, ◌||◌, List, Option, none, some, str_eq, arith,
  if_cases, is_truthy, same_text, ◌+◌,
}
use pi_threads.Value.{Value, get}
use pi_threads.Protocol.Errors.{DaemonError, Result, ok, err}
use pi_threads.Pool.State.{Pool, Env}
use pi_threads.Pool.Reserve.{find_by_thread, retain}
use pi_threads.Service.Threads.{is_running_state}
use pi_threads.Service.Turns.{
  is_turn, ActiveTurn, Turns, set_turn, set_mutation, is_taken, reserve_turn, begin_mutation,
  end_mutation,
}
use pi_threads.Service.Calls.{
  Session, Acquiring, queued, Wait, send_waiting, send_resolving, send_settled, send_acquiring,
  send_configuring, start_acquiring, start_configuring, mutation_waiting, mutation_resolving,
  mutation_settled, mutation_acquiring, mutating, mutation_refreshing, abort_commanding,
  abort_settling, Call, Service, worker_of, acquired, answer, wait_at,
}
use pi_threads.Service.Send.{
  Checks, resumable, acquire_found, acquire_session_worker, retained_or, reserved_send,
  checked_send, admit_send, fail_send, fail_configured, accept_send, accept_start, fail_start,
  running_turn, report_abort, end_abort,
}
use pi_threads.Service.Mutation.{
  marked_mutation, admit_mutation, begin_mutate, begin_refresh, fail_mutation, end_mutate,
  refresh_mutated, report_refresh,
}
use pi_threads.Service.Machine.{
  Outcome, passes, resolves, checks_out, answers, fails, send_acquired, mutation_acquired,
  start_acquired, resume,
}
use pi_threads.Service.Exclusion.{
  one_if, sends_at, changes_at, sends, changes, reserved, Apart, IsExclusive, Held, reserve-Held,
  mark-Held, unmark-Held, settle-Held, start-Held,
}

abbrev pub IsHeld : Wait → Service → Type 0
IsHeld wait q = Held q.calls (λ k. sends_at k wait) (λ k. changes_at k wait) q.turns

-- A call that holds nothing.
pub unheld :
    (calls : List Call) (t : Turns)
    → Held calls (λ k. 0) (λ k. 0) t
    → (k : String)
    → Apart (sends k calls) (changes k calls) (t.active_turns k) (t.session_mutations k)
unheld calls t v k = let h = v k in ground arith

pub reheld : (q : Service) → IsExclusive q → Held q.calls (λ k. 0) (λ k. 0) q.turns
reheld q v k = let h = v k in ground arith

abbrev pub AllApart : List Call → Turns → Type 0
AllApart calls t =
    (k : String)
    → Apart (sends k calls) (changes k calls) (t.active_turns k) (t.session_mutations k)

settled :
    (q : Service) (thread : String) (x : Option ActiveTurn)
    → reserved x ≡ 0
    → Held q.calls (λ k. one_if (str_eq k thread)) (λ k. 0) q.turns
    → AllApart q.calls (set_turn q.turns thread x)
settled q thread x e v =
    unheld q.calls (set_turn q.turns thread x) (settle-Held q.calls q.turns thread x e v)

started :
    (q : Service) (thread : String) (x : Option ActiveTurn)
    → reserved x ≡ 0
    → sends thread q.calls + changes thread q.calls ≡ 0
    → Held q.calls (λ k. 0) (λ k. 0) q.turns
    → AllApart q.calls (set_turn q.turns thread x)
started q thread x e free v =
    unheld q.calls (set_turn q.turns thread x) (start-Held q.calls q.turns thread x e free v)

unmarked :
    (q : Service) (thread : String)
    → Held q.calls (λ k. 0) (λ k. one_if (str_eq k thread)) q.turns
    → AllApart q.calls (set_mutation q.turns thread false)
unmarked q thread v =
    unheld q.calls (set_mutation q.turns thread false) (unmark-Held q.calls q.turns thread v)

-- What `acquireSessionWorker` does to the pool touches no entry and no call.
module _ (P : Turns → List Call → Type 0) where
  retained_or-keeps :
      (q : Service) (w : ℕ) (r : Result Pool)
      → P q.turns q.calls
      → let n = retained_or q w r in let q' = n.0 in P q'.turns q'.calls
  retained_or-keeps q w (ok p) h = h
  retained_or-keeps q w (err e) h = h

  found-keeps :
      (q : Service) (id : ℕ) (s : Session) (o : Option ℕ)
      → P q.turns q.calls
      → let n = acquire_found q id s o in let q' = n.0 in P q'.turns q'.calls
  found-keeps q id s none h = h
  found-keeps q id s (some w) h =
      let K : Service × Acquiring → Type 0 = λ n. let q' = n.0 in P q'.turns q'.calls in
      if_cases K (not (str_eq (worker_of q w).cwd s.cwd)) (λ _. h)
        (λ _.
          if_cases K
            (is_truthy (worker_of q w).active_turn_id || is_running_state (worker_of q w).state)
            (λ _. h) (λ _. retained_or-keeps q w (retain q.pool w) h))

  acquire-keeps :
      (q : Service) (id : ℕ) (s : Session)
      → P q.turns q.calls
      → let n = acquire_session_worker q id s in let q' = n.0 in P q'.turns q'.calls
  unfolding acquire_session_worker
  acquire-keeps q id s h = found-keeps q id s (find_by_thread q.pool s.id) h

module _ (turn_name : ℕ → String) (string_of : Value → String) (preview : Value) where
  reserved_send-IsExclusive :
      (q : Service) (id : ℕ) (s : Session) (turn : String)
      → Held q.calls (λ k. 0) (λ k. 0) q.turns
      → IsExclusive
          (reserved_send turn_name string_of preview q id s turn (reserve_turn q.turns s.id turn))
  unfolding reserve_turn
  reserved_send-IsExclusive q id s turn v =
      if_cases (λ r. IsExclusive (reserved_send turn_name string_of preview q id s turn r))
        (is_taken q.turns s.id) (λ _. unheld q.calls q.turns v)
        (λ free.
          acquire-keeps (λ t cs. Held cs (λ k. one_if (str_eq k s.id)) (λ k. 0) t) _ id s
            (reserve-Held q.calls q.turns s.id _ refl free v))

  admit_send-IsExclusive :
      (q : Service) (id : ℕ) (s : Session) (checks : Checks)
      → Held q.calls (λ k. 0) (λ k. 0) q.turns
      → IsExclusive (admit_send turn_name string_of preview q id s checks)
  unfolding admit_send
  admit_send-IsExclusive q id s checks v =
      checked checks.changed (resumable q checks.is_persisted s.id)
    where
      checked :
          (a b : Option DaemonError)
          → IsExclusive (checked_send turn_name string_of preview q id s a b)
      checked (some e) b = unheld q.calls q.turns v
      checked none (some e) = unheld q.calls q.turns v
      checked none none = reserved_send-IsExclusive q id s (turn_name q.next_turn) v

  marked-IsExclusive :
      (q : Service) (id : ℕ) (s : Session) (a b : Option DaemonError)
      → Held q.calls (λ k. 0) (λ k. 0) q.turns
      → IsExclusive (marked_mutation q id s a b (begin_mutation q.turns s.id))
  unfolding begin_mutation
  marked-IsExclusive q id s a b v =
      if_cases (λ r. IsExclusive (marked_mutation q id s a b r)) (is_taken q.turns s.id)
        (λ _. unheld q.calls q.turns v) (λ free. marked a b free)
    where
      marked :
          (a b : Option DaemonError)
          → is_taken q.turns s.id ≡ false
          → IsExclusive (marked_mutation q id s a b (ok (set_mutation q.turns s.id true)))
      marked (some e) b free = unheld q.calls q.turns v
      marked none (some e) free = unheld q.calls q.turns v
      marked none none free =
          acquire-keeps (λ t cs. Held cs (λ k. 0) (λ k. one_if (str_eq k s.id)) t) _ id s
            (mark-Held q.calls q.turns s.id free v)

  report_abort-IsExclusive :
      (q : Service) (id : ℕ) (thread turn : String) (w : ℕ)
      → Held q.calls (λ k. 0) (λ k. 0) q.turns
      → IsExclusive (report_abort q id thread turn w)
  unfolding report_abort
  report_abort-IsExclusive q id thread turn w v =
      if_cases {A = Service} (λ r. IsExclusive (wait_at r id (abort_settling thread turn w)))
        (is_turn (let t = q.turns in t.active_turns thread) turn) (λ _. v) (λ _. v)

  end_abort-IsExclusive :
      (q : Service) (id : ℕ) (turn : String) (w : ℕ) (r : Result Value)
      → Held q.calls (λ k. 0) (λ k. 0) q.turns
      → IsExclusive (end_abort q id turn w r)
  unfolding end_abort
  end_abort-IsExclusive q id turn w r v =
      if_cases {A = Service} (λ p. IsExclusive (answer p id r))
        (same_text (worker_of q w).aborting_turn_id (some turn)) (λ _. unheld q.calls q.turns v)
        (λ _. unheld q.calls q.turns v)

  -- When a new session is accepted, no call that sends to it or changes it is past its admission.
  abbrev pub IsFresh : List Call → Wait → Outcome → Type 0
  IsFresh calls (start_configuring _ _ _) (answers state) =
      let thread = string_of (get "sessionId" state) in
      sends thread calls + changes thread calls ≡ 0
  IsFresh calls _ _ = Unit

  accept_start-IsExclusive :
      (q : Service) (id : ℕ) (p : Bool) (w : ℕ) (state : Value)
      → sends (string_of (get "sessionId" state)) q.calls
          + changes (string_of (get "sessionId" state)) q.calls
        ≡ 0
      → Held q.calls (λ k. 0) (λ k. 0) q.turns
      → IsExclusive (accept_start turn_name string_of preview q id p w state)
  unfolding accept_start
  accept_start-IsExclusive q id true w state free v =
      started q (string_of (get "sessionId" state)) (some (running_turn (turn_name q.next_turn) w))
        refl free v
  accept_start-IsExclusive q id false w state free v =
      started q (string_of (get "sessionId" state)) (some (running_turn (turn_name q.next_turn) w))
        refl free v

  pub resume-IsExclusive :
      (env : Env) (q : Service) (id : ℕ) (wait : Wait) (o : Outcome)
      → IsFresh q.calls wait o
      → IsHeld wait q
      → IsExclusive (resume turn_name string_of preview env q id wait o)
  unfolding resume admit_mutation begin_mutate begin_refresh fail_mutation end_mutate
      refresh_mutated report_refresh end_mutation fail_send fail_configured accept_send fail_start
  resume-IsExclusive env q id (send_waiting thread) passes _ v = v
  resume-IsExclusive env q id (send_waiting thread) (resolves session) _ v = v
  resume-IsExclusive env q id (send_waiting thread) (checks_out checks) _ v = v
  resume-IsExclusive env q id (send_waiting thread) (answers state) _ v = v
  resume-IsExclusive env q id (send_waiting thread) (fails error) _ v = unheld q.calls q.turns v
  resume-IsExclusive env q id (send_resolving thread) passes _ v = v
  resume-IsExclusive env q id (send_resolving thread) (resolves s) _ v = v
  resume-IsExclusive env q id (send_resolving thread) (checks_out checks) _ v = v
  resume-IsExclusive env q id (send_resolving thread) (answers state) _ v = v
  resume-IsExclusive env q id (send_resolving thread) (fails error) _ v = unheld q.calls q.turns v
  resume-IsExclusive env q id (send_settled s) passes _ v = v
  resume-IsExclusive env q id (send_settled s) (resolves session) _ v = v
  resume-IsExclusive env q id (send_settled s) (checks_out checks) _ v =
      admit_send-IsExclusive q id s checks v
  resume-IsExclusive env q id (send_settled s) (answers state) _ v = v
  resume-IsExclusive env q id (send_settled s) (fails error) _ v = unheld q.calls q.turns v
  resume-IsExclusive env q id (send_acquiring s turn a) passes _ v = acquired_send (acquired q id a)
    where
      acquired_send :
          (r : Option (Result ℕ))
          → IsExclusive (send_acquired turn_name string_of preview q id s turn r a)
      acquired_send none = v
      acquired_send (some (ok w)) = v
      acquired_send (some (err error)) = settled q s.id none refl v
  resume-IsExclusive env q id (send_acquiring s turn a) (resolves session) _ v = v
  resume-IsExclusive env q id (send_acquiring s turn a) (checks_out checks) _ v = v
  resume-IsExclusive env q id (send_acquiring s turn a) (answers state) _ v = v
  resume-IsExclusive env q id (send_acquiring s turn a) (fails error) _ v = v
  resume-IsExclusive env q id (send_configuring s turn w) passes _ v =
      settled q s.id (some (running_turn turn w)) refl v
  resume-IsExclusive env q id (send_configuring s turn w) (resolves session) _ v = v
  resume-IsExclusive env q id (send_configuring s turn w) (checks_out checks) _ v = v
  resume-IsExclusive env q id (send_configuring s turn w) (answers state) _ v = v
  resume-IsExclusive env q id (send_configuring s turn w) (fails error) _ v =
      settled q s.id none refl v
  resume-IsExclusive env q id (start_acquiring cwd p) passes _ v =
      acquired_start (acquired q id queued)
    where
      acquired_start :
          (r : Option (Result ℕ))
          → IsExclusive (start_acquired turn_name string_of preview q id cwd p r)
      acquired_start none = v
      acquired_start (some (ok w)) = v
      acquired_start (some (err error)) = unheld q.calls q.turns v
  resume-IsExclusive env q id (start_acquiring cwd p) (resolves session) _ v = v
  resume-IsExclusive env q id (start_acquiring cwd p) (checks_out checks) _ v = v
  resume-IsExclusive env q id (start_acquiring cwd p) (answers state) _ v = v
  resume-IsExclusive env q id (start_acquiring cwd p) (fails error) _ v = v
  resume-IsExclusive env q id (start_configuring cwd p w) passes _ v = v
  resume-IsExclusive env q id (start_configuring cwd p w) (resolves session) _ v = v
  resume-IsExclusive env q id (start_configuring cwd p w) (checks_out checks) _ v = v
  resume-IsExclusive env q id (start_configuring cwd p w) (answers state) free v =
      accept_start-IsExclusive q id p w state free v
  resume-IsExclusive env q id (start_configuring cwd p w) (fails error) _ v =
      unheld q.calls q.turns v
  resume-IsExclusive env q id (mutation_waiting thread) passes _ v = v
  resume-IsExclusive env q id (mutation_waiting thread) (resolves session) _ v = v
  resume-IsExclusive env q id (mutation_waiting thread) (checks_out checks) _ v = v
  resume-IsExclusive env q id (mutation_waiting thread) (answers state) _ v = v
  resume-IsExclusive env q id (mutation_waiting thread) (fails error) _ v = unheld q.calls q.turns v
  resume-IsExclusive env q id (mutation_resolving thread) passes _ v = v
  resume-IsExclusive env q id (mutation_resolving thread) (resolves s) _ v = v
  resume-IsExclusive env q id (mutation_resolving thread) (checks_out checks) _ v = v
  resume-IsExclusive env q id (mutation_resolving thread) (answers state) _ v = v
  resume-IsExclusive env q id (mutation_resolving thread) (fails error) _ v =
      unheld q.calls q.turns v
  resume-IsExclusive env q id (mutation_settled s) passes _ v = v
  resume-IsExclusive env q id (mutation_settled s) (resolves session) _ v = v
  resume-IsExclusive env q id (mutation_settled s) (checks_out checks) _ v =
      marked-IsExclusive q id s checks.changed (resumable q checks.is_persisted s.id) v
  resume-IsExclusive env q id (mutation_settled s) (answers state) _ v = v
  resume-IsExclusive env q id (mutation_settled s) (fails error) _ v = unheld q.calls q.turns v
  resume-IsExclusive env q id (mutation_acquiring s a) passes _ v =
      acquired_mutation (acquired q id a)
    where
      acquired_mutation :
          (r : Option (Result ℕ))
          → IsExclusive (mutation_acquired turn_name string_of preview q id s r a)
      acquired_mutation none = v
      acquired_mutation (some (ok w)) = v
      acquired_mutation (some (err error)) = unmarked q s.id v
  resume-IsExclusive env q id (mutation_acquiring s a) (resolves session) _ v = v
  resume-IsExclusive env q id (mutation_acquiring s a) (checks_out checks) _ v = v
  resume-IsExclusive env q id (mutation_acquiring s a) (answers state) _ v = v
  resume-IsExclusive env q id (mutation_acquiring s a) (fails error) _ v = v
  resume-IsExclusive env q id (mutating s w) passes _ v = v
  resume-IsExclusive env q id (mutating s w) (resolves session) _ v = v
  resume-IsExclusive env q id (mutating s w) (checks_out checks) _ v = v
  resume-IsExclusive env q id (mutating s w) (answers value) _ v = v
  resume-IsExclusive env q id (mutating s w) (fails error) _ v = v
  resume-IsExclusive env q id (mutation_refreshing s w true r) passes _ v = unmarked q s.id v
  resume-IsExclusive env q id (mutation_refreshing s w true r) (resolves session) _ v = v
  resume-IsExclusive env q id (mutation_refreshing s w true r) (checks_out checks) _ v = v
  resume-IsExclusive env q id (mutation_refreshing s w true r) (answers state) _ v = v
  resume-IsExclusive env q id (mutation_refreshing s w true r) (fails error) _ v = unmarked q s.id v
  resume-IsExclusive env q id (mutation_refreshing s w false r) passes _ v = v
  resume-IsExclusive env q id (mutation_refreshing s w false r) (resolves session) _ v = v
  resume-IsExclusive env q id (mutation_refreshing s w false r) (checks_out checks) _ v = v
  resume-IsExclusive env q id (mutation_refreshing s w false r) (answers state) _ v =
      unmarked q s.id v
  resume-IsExclusive env q id (mutation_refreshing s w false r) (fails error) _ v =
      unmarked q s.id v
  resume-IsExclusive env q id (abort_commanding thread turn w) passes _ v =
      report_abort-IsExclusive q id thread turn w v
  resume-IsExclusive env q id (abort_commanding thread turn w) (resolves session) _ v = v
  resume-IsExclusive env q id (abort_commanding thread turn w) (checks_out checks) _ v = v
  resume-IsExclusive env q id (abort_commanding thread turn w) (answers state) _ v = v
  resume-IsExclusive env q id (abort_commanding thread turn w) (fails error) _ v =
      end_abort-IsExclusive q id turn w (err error) v
  resume-IsExclusive env q id (abort_settling thread turn w) passes _ v =
      end_abort-IsExclusive q id turn w _ v
  resume-IsExclusive env q id (abort_settling thread turn w) (resolves session) _ v = v
  resume-IsExclusive env q id (abort_settling thread turn w) (checks_out checks) _ v = v
  resume-IsExclusive env q id (abort_settling thread turn w) (answers state) _ v = v
  resume-IsExclusive env q id (abort_settling thread turn w) (fails error) _ v =
      end_abort-IsExclusive q id turn w (err error) v
