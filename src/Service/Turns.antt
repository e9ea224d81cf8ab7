-- ===== src/Service/Turns.antt =====
-- The turns of threads in src/service/pi-threads-service.ts: reservations, mutations, what the answer
-- to a prompt does, and handleDaemonEvent.
pub mod Late
use pi_threads.Base.{
  ℕ, ◌≡◌, refl, String, Bool, true, false, not, ◌&&◌, ◌||◌, List, [], ◌∷◌, ◌++◌, Option, none, some,
  if◌then◌else◌, ◌==◌, str_eq, arith, if_cases, eq_iff,
}
use pi_threads.Value.{Value, str, bool, obj, prop, end}
use pi_threads.Protocol.Errors.{Result, ok, err, throw, busy}
use pi_threads.Protocol.Events.{
  DaemonEventType, EventBody, turn_started, turn_completed, turn_failed, turn_accepted,
  is_terminal_event_type,
}
use pi_threads.Worker.{PooledWorker, is_dead}

pub record ActiveTurn : Type 0 where
  pub turn_id : String
  pub worker_id : Option ℕ
  pub has_agent_run : Bool

-- `active_turns` is the map `activeTurns` and `session_mutations` the set `sessionMutations`.
pub record Turns : Type 0 where
  pub active_turns : String → Option ActiveTurn
  pub session_mutations : String → Bool
  pub shutting_down : Bool
  pub emitted : List EventBody

abbrev pub is_some {ℓ} : {A : Type ℓ} → Option A → Bool
is_some none = false
is_some (some _) = true

abbrev pub set_turn : Turns → String → Option ActiveTurn → Turns
set_turn t thread turn = record t {
  active_turns = λ k. if str_eq k thread then turn else t.active_turns k;
}

abbrev pub set_mutation : Turns → String → Bool → Turns
set_mutation t thread b = record t {
  session_mutations = λ k. if str_eq k thread then b else t.session_mutations k;
}

abbrev pub is_taken : Turns → String → Bool
is_taken t thread = is_some (t.active_turns thread) || t.session_mutations thread

unfoldable pub reserve_turn : Turns → String → String → Result Turns
reserve_turn t thread turn =
    if is_taken t thread
    then throw busy "Thread already has active daemon work"
    else ok (
        set_turn t thread
          (some (record { turn_id = turn; worker_id = none; has_agent_run = false })))

-- The test and the mark of `withSessionMutation`, and its end.
unfoldable pub begin_mutation : Turns → String → Result Turns
begin_mutation t thread =
    if is_taken t thread
    then throw busy "Thread already has active daemon work"
    else ok (set_mutation t thread true)

unfoldable pub end_mutation : Turns → String → Turns
end_mutation t thread = set_mutation t thread false

-- `this.activeTurns.get(threadId)?.turnId === turnId`
abbrev pub is_turn : Option ActiveTurn → String → Bool
is_turn none turn = false
is_turn (some a) turn = str_eq a.turn_id turn

abbrev ended : DaemonEventType → String → String → ℕ → Value → EventBody
ended type thread turn worker payload = record {
  type = type;
  thread_id = some thread;
  turn_id = some turn;
  worker_id = some worker;
  payload = payload;
}

unfoldable pub fail_turn : Turns → String → String → ℕ → String → Turns
fail_turn t thread turn worker message =
    if not (is_turn (t.active_turns thread) turn) then t else record t {
      emitted =
          t.emitted
          ++ ended turn_failed thread turn worker
              (obj (prop "errorCode" (str "piRpcError") (prop "message" (str message) end)))
            ∷ [];
    }

unfoldable pub complete_promptless_turn : Turns → String → String → ℕ → Turns
complete_promptless_turn t thread turn worker =
    if not (is_turn (t.active_turns thread) turn) then t else record t {
      emitted =
          t.emitted
          ++ ended turn_completed thread turn worker
              (obj (prop "status" (str "completed") (prop "promptless" (bool true) end)))
            ∷ [];
    }

abbrev is_waiting : Option ActiveTurn → String → Bool
is_waiting none turn = false
is_waiting (some a) turn = str_eq a.turn_id turn && not a.has_agent_run

-- `submitPrompt`, when the prompt is answered with a disposition.
unfoldable pub answer_prompt : Turns → String → String → ℕ → String → Turns
answer_prompt t thread turn worker disposition =
    if not (is_waiting (t.active_turns thread) turn) || not (str_eq disposition "handled")
    then t
    else record t {
      emitted =
          t.emitted
          ++ ended turn_completed thread turn worker
              (obj (prop "status" (str "completed") (prop "disposition" (str disposition) end)))
            ∷ [];
    }

-- The work that is left when a turn ends.
pub data Cleanup : Type 0 where
  refresh_owned_session : (thread : String) → Cleanup
  refresh_worker_session : (worker : ℕ) (thread : String) → Cleanup

pub record Handled : Type 0 where
  pub turns : Turns
  pub worker : Option PooledWorker
  pub cleanup : Option Cleanup

abbrev pub untouched : Turns → Option PooledWorker → Handled
untouched t worker = record { turns = t; worker = worker; cleanup = none }

-- `found` is `workers.findByThread`.
abbrev pub end_turn : Turns → String → ℕ → Option PooledWorker → Handled
end_turn t thread owner none = record {
  turns = set_turn t thread none;
  worker = none;
  cleanup = some (refresh_owned_session thread);
}
end_turn t thread owner (some w) =
    if w.worker_id == owner
    then record {
      turns = set_turn t thread none;
      worker = some (record w { active_turn_id = none });
      cleanup = some (
          if is_dead w.state
          then refresh_owned_session thread
          else refresh_worker_session w.worker_id thread);
    }
    else record {
      turns = set_turn t thread none;
      worker = some w;
      cleanup = some (refresh_owned_session thread);
    }

abbrev pub is_start : DaemonEventType → Bool
is_start turn_started = true
is_start _ = false

abbrev pub handle_active :
    Turns → Option PooledWorker → DaemonEventType → String → String → Option ActiveTurn → Handled
handle_active t found type thread turn none = untouched t found
handle_active t found type thread turn (some a) = elim a.worker_id [
  | none ↦ untouched t found
  | some owner ↦
      if not (str_eq a.turn_id turn)
      then untouched t found
      else if is_start type
      then untouched (set_turn t thread (some (record a { has_agent_run = true }))) found
      else if not (is_terminal_event_type type)
      then untouched t found
      else end_turn t thread owner found
]

abbrev pub handle_turn :
    Turns → Option PooledWorker → DaemonEventType → Option String → Option String → Handled
handle_turn t found type (some thread) (some turn) =
    if str_eq thread "" || str_eq turn ""
    then untouched t found
    else handle_active t found type thread turn (t.active_turns thread)
handle_turn t found type _ _ = untouched t found

-- `handleDaemonEvent` up to its wait for the cleanup.
unfoldable pub handle_daemon_event : Turns → Option PooledWorker → EventBody → Handled
handle_daemon_event t found event =
    if t.shutting_down
    then untouched t found
    else handle_turn t found event.type event.thread_id event.turn_id
