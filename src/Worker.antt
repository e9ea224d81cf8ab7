-- ===== src/Worker.antt =====
-- The worker as its pool sees it (the interface `PooledWorker` of worker/worker-pool.ts), and what
-- the pool makes of the events of its process: `mapWorkerEvent`.
pub mod Output
pub mod Commands
pub mod Outcomes
mod Tests
use mathlib.Core.Option
use pi_threads.Base.{
  ℕ, String, Bool, true, false, not, ◌&&◌, ◌||◌, List, [], ◌∷◌, Option, none, some, filter, find,
  if◌then◌else◌, is_truthy, same_text, str_eq, text_append,
}
use pi_threads.Value.{
  Value, undefined, str, obj, end, prop, get, is_object, array_or_empty, is_text, is_true, text_of,
  opt_str,
}
use pi_threads.Protocol.Events.{
  DaemonEventType, EventBody, turn_started, run_step_started, run_step_completed, message_delta,
  message_completed, tool_started, tool_updated, tool_completed, retry_scheduled, retry_completed,
  queue_updated, compaction_started, compaction_completed, extension_ui_requested, extension_error,
  turn_completed, turn_aborted, turn_failed, thread_updated,
}

pub data WorkerProcessState : Type 0 where
  starting idle assigned running crashed stopped : WorkerProcessState

-- A failed run: its message and stop reason. The code is always `piRpcError`.
pub record AgentFailure : Type 0 where
  pub message : String
  pub stop_reason : Option String

-- An entry of `pendingSettledOutcomes`.
pub record SettledOutcome : Type 0 where
  pub turn_id : Option String
  pub pi_event : Value
  pub failure : Option AgentFailure

-- A worker object, with its entry of the weak map `pendingSettledOutcomes`.
pub record PooledWorker : Type 0 where
  pub worker_id : ℕ
  pub cwd : String
  pub started_at : ℕ
  pub version : Option String
  pub state : WorkerProcessState
  pub thread_id : Option String
  pub active_turn_id : Option String
  pub aborting_turn_id : Option String
  pub last_used_at : ℕ
  pub pid : Option ℕ
  pub pending_command_count : ℕ
  pub settled : Option SettledOutcome

abbrev pub is_dead : WorkerProcessState → Bool
is_dead crashed = true
is_dead stopped = true
is_dead _ = false

unfoldable pub is_unavailable_worker : PooledWorker → Bool
is_unavailable_worker w = is_dead w.state

-- The cases of `mapWorkerEvent`, one for each text that it compares the type with.
pub data RawType : Type 0 where
  agent_start turn_start turn_end agent_end agent_settled : RawType
  auto_retry_start queue_update auto_retry_end compaction_start compaction_end : RawType
  extension_ui_request extension_error_raised : RawType
  tool_execution_start tool_execution_update tool_execution_end : RawType
  message_start message_update message_end other_type : RawType

-- An event of the process: `String(raw.type ?? "")`, and the object itself.
pub record RawEvent : Type 0 where
  pub type : String
  pub raw : Value

unfoldable pub output_type : String → RawType
output_type t =
    if str_eq t "tool_execution_start"
    then tool_execution_start
    else if str_eq t "tool_execution_update"
    then tool_execution_update
    else if str_eq t "tool_execution_end"
    then tool_execution_end
    else if str_eq t "message_start"
    then message_start
    else if str_eq t "message_update"
    then message_update
    else if str_eq t "message_end"
    then message_end
    else other_type

unfoldable pub session_type : String → RawType
unfolding output_type
session_type t =
    if str_eq t "auto_retry_start"
    then auto_retry_start
    else if str_eq t "queue_update"
    then queue_update
    else if str_eq t "auto_retry_end"
    then auto_retry_end
    else if str_eq t "compaction_start"
    then compaction_start
    else if str_eq t "compaction_end"
    then compaction_end
    else if str_eq t "extension_ui_request"
    then extension_ui_request
    else if str_eq t "extension_error"
    then extension_error_raised
    else output_type t

unfoldable pub raw_type : String → RawType
raw_type t =
    if str_eq t "agent_start"
    then agent_start
    else if str_eq t "turn_start"
    then turn_start
    else if str_eq t "turn_end"
    then turn_end
    else if str_eq t "agent_end"
    then agent_end
    else if str_eq t "agent_settled"
    then agent_settled
    else session_type t

abbrev stop_text : Option String → String
stop_text none = "unknown"
stop_text (some s) = s

abbrev failure_message : Value → Option String → String
failure_message (str m) reason = m
failure_message _ reason = text_append "Pi turn ended with stopReason " (stop_text reason)

unfoldable pub agent_failure : Value → Option AgentFailure
agent_failure raw =
    Option.map described (find is_failed (filter is_object (array_or_empty (get "messages" raw))))
  where
    is_failed : Value → Bool
    is_failed message =
        is_text (get "stopReason" message) "error" || is_text (get "stopReason" message) "aborted"

    described : Value → AgentFailure
    described failed =
        let stop_reason = text_of (get "stopReason" failed) in
        record {
          message = failure_message (get "errorMessage" failed) stop_reason;
          stop_reason = stop_reason;
        }

-- The event that carries the thread and the turn of the worker.
abbrev about : PooledWorker → DaemonEventType → Value → EventBody
about w type payload = record {
  type = type;
  thread_id = w.thread_id;
  turn_id = w.active_turn_id;
  worker_id = some w.worker_id;
  payload = payload;
}

abbrev idle_event : PooledWorker → Value → EventBody
idle_event w raw = record {
  type = thread_updated;
  thread_id = w.thread_id;
  turn_id = none;
  worker_id = some w.worker_id;
  payload = obj (prop "piEvent" raw (prop "status" (str "idle") end));
}

abbrev failed_event : PooledWorker → Value → SettledOutcome → AgentFailure → EventBody
failed_event w raw outcome failure = about w turn_failed (
    obj (
      prop "piEvent" outcome.pi_event (
        prop "settledPiEvent" raw (
          prop "status" (str "failed") (
            prop "errorCode" (str "piRpcError") (
              prop "message" (str failure.message)
                (prop "stopReason" (opt_str failure.stop_reason) end)))))))

abbrev completed_event : PooledWorker → Value → Option SettledOutcome → EventBody
completed_event w raw none =
    about w turn_completed (obj (prop "piEvent" raw (prop "status" (str "completed") end)))
completed_event w raw (some outcome) = about w turn_completed (
    obj (
      prop "piEvent" raw
        (prop "agentEndPiEvent" outcome.pi_event (prop "status" (str "completed") end))))

-- The outcome noted at `agent_end`, if it belongs to the turn that is now active.
abbrev matching : Option SettledOutcome → Option String → Option SettledOutcome
matching none turn = none
matching (some pending) turn = if same_text pending.turn_id turn then some pending else none

abbrev ended_event : PooledWorker → Value → Option SettledOutcome → EventBody
ended_event w raw none = completed_event w raw none
ended_event w raw (some outcome) = elim outcome.failure [
  | none ↦ completed_event w raw (some outcome)
  | some failure ↦ failed_event w raw outcome failure
]

abbrev aborted_event : PooledWorker → Value → EventBody
aborted_event w raw = about w turn_aborted (
    obj (prop "piEvent" raw (prop "reason" (str "client") (prop "finalState" (str "aborted") end))))

-- `agent_settled` ends the turn of the worker, if it has one.
unfoldable pub settle_agent : PooledWorker → Value → PooledWorker × EventBody
settle_agent w raw =
    let outcome = matching w.settled w.active_turn_id in
    let settled = record w { state = assigned; settled = none } in
    if not (is_truthy w.active_turn_id)
    then (settled, idle_event w raw)
    else if same_text w.aborting_turn_id w.active_turn_id
    then (record settled { aborting_turn_id = none }, aborted_event w raw)
    else (settled, ended_event w raw outcome)

abbrev pi_event : Value → Value
pi_event raw = obj (prop "piEvent" raw end)

-- The worker after the event, and the event that the pool emits for it.
unfoldable pub map_raw : RawType → PooledWorker → Value → PooledWorker × EventBody
unfolding settle_agent agent_failure
map_raw agent_start w raw = (
  record w { state = running },
  about w turn_started (obj (prop "piEvent" raw (prop "piRunId" (get "id" raw) end))),
)
map_raw turn_start w raw = (w, about w run_step_started (pi_event raw))
map_raw turn_end w raw = (w, about w run_step_completed (pi_event raw))
map_raw agent_end w raw =
    let status : Value = str (if is_true (get "willRetry" raw) then "retrying" else "settling") in
    (
      record w {
        settled =
            some
              (record { turn_id = w.active_turn_id; pi_event = raw; failure = agent_failure raw });
      },
      about w thread_updated (obj (prop "piEvent" raw (prop "status" status end))),
    )
map_raw agent_settled w raw = settle_agent w raw
map_raw auto_retry_start w raw = (w, about w retry_scheduled raw)
map_raw queue_update w raw = (w, about w queue_updated raw)
map_raw auto_retry_end w raw = (w, about w retry_completed raw)
map_raw compaction_start w raw = (w, about w compaction_started raw)
map_raw compaction_end w raw = (w, about w compaction_completed raw)
map_raw extension_ui_request w raw = (w, about w extension_ui_requested raw)
map_raw extension_error_raised w raw = (w, about w extension_error raw)
map_raw tool_execution_start w raw = (w, about w tool_started raw)
map_raw tool_execution_update w raw = (w, about w tool_updated raw)
map_raw tool_execution_end w raw = (w, about w tool_completed raw)
map_raw message_start w raw = (w, about w message_delta raw)
map_raw message_update w raw = (w, about w message_delta raw)
map_raw message_end w raw = (w, about w message_completed raw)
map_raw other_type w raw = (w, about w thread_updated (pi_event raw))

unfoldable pub map_worker_event : PooledWorker → RawEvent → PooledWorker × EventBody
unfolding map_raw raw_type session_type
map_worker_event w event = map_raw (raw_type event.type) w event.raw
