-- ===== src/Service/Exclusion.antt =====
-- Which calls of src/service/pi-threads-service.ts hold a thread, and what its entries say of them.
pub mod Steps
pub mod Runs
pub mod Tests
use pi_threads.Base.{
  ℕ, zero, suc, ◌+◌, ◌≤◌, ◌≡◌, refl, sym, ap, subst, ◌∙◌, String, Bool, true, false, not, ◌&&◌,
  ◌||◌, List, [], ◌∷◌, ◌++◌, Option, none, some, if◌then◌else◌, ◌==◌, str_eq, arith, if_cases,
  eq_iff, Bool-cases, ◌⊎◌, inl, inr,
}
use pi_threads.Value.{Value, get}
use pi_threads.Protocol.Errors.{DaemonError, Result, ok, err}
use pi_threads.Protocol.Events.{EventBody, DaemonEventType, is_terminal_event_type}
use pi_threads.Worker.{PooledWorker}
use pi_threads.Pool.State.{Pool, Env, WorkerPoolOptions}
use pi_threads.Service.Turns.{
  ActiveTurn, Turns, is_some, set_turn, set_mutation, is_taken, reserve_turn, begin_mutation,
  end_mutation, Handled, untouched, end_turn, is_start, handle_active, handle_turn,
  handle_daemon_event,
}
use pi_threads.Service.Calls.{
  Session, Acquiring, Wait, send_waiting, send_resolving, send_settled, send_acquiring,
  send_configuring, start_acquiring, start_configuring, mutation_waiting, mutation_resolving,
  mutation_settled, mutation_acquiring, mutating, mutation_refreshing, abort_commanding,
  abort_settling, Call, Service, Taken, keep, take_call,
}

abbrev pub one_if : Bool → ℕ
one_if true = 1
one_if false = 0

-- How often a call holds a thread for a turn that has no worker yet, or for a change.
abbrev pub sends_at : String → Wait → ℕ
sends_at k (send_acquiring s _ _) = one_if (str_eq k s.id)
sends_at k (send_configuring s _ _) = one_if (str_eq k s.id)
sends_at k _ = 0

abbrev pub changes_at : String → Wait → ℕ
changes_at k (mutation_acquiring s _) = one_if (str_eq k s.id)
changes_at k (mutating s _) = one_if (str_eq k s.id)
changes_at k (mutation_refreshing s _ _ _) = one_if (str_eq k s.id)
changes_at k _ = 0

abbrev pub sends : String → List Call → ℕ
sends k [] = 0
sends k (c ∷ cs) = sends_at k c.wait + sends k cs

abbrev pub changes : String → List Call → ℕ
changes k [] = 0
changes k (c ∷ cs) = changes_at k c.wait + changes k cs

abbrev pub reserved : Option ActiveTurn → ℕ
reserved none = 0
reserved (some a) = one_if (not (is_some a.worker_id))

-- What the entry and the mark of a thread say of the calls that hold it.
pub record Apart (sending changing : ℕ) (entry : Option ActiveTurn) (mark : Bool) : Type 0 where
  pub sent : sending ≡ reserved entry
  pub changed : changing ≡ one_if mark
  pub apart : (is_some entry && mark) ≡ false

abbrev pub IsExclusive : Service → Type 0
IsExclusive q =
    (k : String)
    → let t = q.turns in
      Apart (sends k q.calls) (changes k q.calls) (t.active_turns k) (t.session_mutations k)

str_self : (k : String) → str_eq k k ≡ true
str_self k = let same = eq_iff k k in ground arith

-- A claim about every thread, from that thread and the others.
by_thread :
    (P : String → Type 0) (thread : String)
    → (str_eq thread thread ≡ true → P thread)
    → ((k : String) → str_eq k thread ≡ false → P k)
    → (k : String) → P k
by_thread P thread own others k = cases (Bool-cases (str_eq k thread))
  where
    cases : (str_eq k thread ≡ true) ⊎ (str_eq k thread ≡ false) → P k
    cases (inl h) = subst P (sym ((eq_iff k thread).0 h)) (own (str_self thread))
    cases (inr h) = others k h

-- Calls that hold threads, with one besides that holds them as often as it is said.
abbrev pub Held : List Call → (String → ℕ) → (String → ℕ) → Turns → Type 0
Held calls n m t =
    (k : String)
    → Apart (n k + sends k calls) (m k + changes k calls) (t.active_turns k) (t.session_mutations k)

module _ (calls : List Call) (t : Turns) where
  pub reserve-Held :
      (s : String) (a : ActiveTurn)
      → a.worker_id ≡ none
      → is_taken t s ≡ false
      → Held calls (λ k. 0) (λ k. 0) t
      → Held calls (λ k. one_if (str_eq k s)) (λ k. 0) (set_turn t s (some a))
  reserve-Held s a e free v =
      by_thread _ s (λ self. let h = v s in ground arith) (λ k other. let h = v k in ground arith)

  pub mark-Held :
      (s : String)
      → is_taken t s ≡ false
      → Held calls (λ k. 0) (λ k. 0) t
      → Held calls (λ k. 0) (λ k. one_if (str_eq k s)) (set_mutation t s true)
  mark-Held s free v =
      by_thread _ s (λ self. let h = v s in ground arith) (λ k other. let h = v k in ground arith)

  pub unmark-Held :
      (s : String)
      → Held calls (λ k. 0) (λ k. one_if (str_eq k s)) t
      → Held calls (λ k. 0) (λ k. 0) (set_mutation t s false)
  unmark-Held s v =
      by_thread _ s (λ self. let h = v s in ground arith) (λ k other. let h = v k in ground arith)

  -- The entry of a turn that was reserved is dropped, or gets its worker.
  pub settle-Held :
      (s : String) (x : Option ActiveTurn)
      → reserved x ≡ 0
      → Held calls (λ k. one_if (str_eq k s)) (λ k. 0) t
      → Held calls (λ k. 0) (λ k. 0) (set_turn t s x)
  settle-Held s x e v =
      by_thread _ s (λ self. let h = v s in ground arith) (λ k other. let h = v k in ground arith)

  -- A thread that nothing holds gets an entry with a worker.
  pub start-Held :
      (s : String) (x : Option ActiveTurn)
      → reserved x ≡ 0
      → sends s calls + changes s calls ≡ 0
      → Held calls (λ k. 0) (λ k. 0) t
      → Held calls (λ k. 0) (λ k. 0) (set_turn t s x)
  start-Held s x e free v =
      by_thread _ s (λ self. let h = v s in ground arith) (λ k other. let h = v k in ground arith)

  -- An entry with a worker is dropped or replaced.
  pub replace-Held :
      (s : String) (x y : Option ActiveTurn)
      → t.active_turns s ≡ x
      → is_some x ≡ true
      → reserved x ≡ 0
      → reserved y ≡ 0
      → Held calls (λ k. 0) (λ k. 0) t
      → Held calls (λ k. 0) (λ k. 0) (set_turn t s y)
  replace-Held s x y e there busy e' v =
      by_thread _ s (λ self. let h = v s in ground arith) (λ k other. let h = v k in ground arith)
