-- ===== src/Protocol/Events.antt =====
-- src/protocol/events.ts: the events of the daemon and the filters over them.
use pi_threads.Base.{ℕ, String, Bool, true, false, Option}
use pi_threads.Value.{Value}

pub data DaemonEventType : Type 0 where
  turn_accepted turn_started run_step_started run_step_completed : DaemonEventType
  message_delta message_completed tool_started tool_updated tool_completed : DaemonEventType
  retry_scheduled retry_completed queue_updated : DaemonEventType
  compaction_started compaction_completed : DaemonEventType
  extension_ui_requested extension_ui_completed extension_error : DaemonEventType
  turn_completed turn_aborted turn_failed : DaemonEventType
  worker_started worker_idle worker_crashed thread_updated : DaemonEventType

-- What `emit` is given: an event with no id. Workers are named by the number in `worker_<n>`.
pub record EventBody : Type 0 where
  pub type : DaemonEventType
  pub thread_id : Option String
  pub turn_id : Option String
  pub worker_id : Option ℕ
  pub payload : Value

unfoldable pub is_terminal_event_type : DaemonEventType → Bool
is_terminal_event_type turn_completed = true
is_terminal_event_type turn_failed = true
is_terminal_event_type turn_aborted = true
is_terminal_event_type _ = false
