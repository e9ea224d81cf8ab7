-- ===== src/Protocol/Filters.antt =====
-- The filters over events: src/protocol/events.ts, and validateEventFilter and matchesFilter of
-- src/service/event-bus.ts.
use pi_threads.Base.{
  String, Bool, true, false, not, ◌&&◌, ◌||◌, List, [], ◌∷◌, Option, none, some, if◌then◌else◌,
  str_eq, is_truthy, same_text, find, any,
}
use pi_threads.Value.{Value, undefined, str, arr, obj, Props, end, prop, get, elems}
use pi_threads.Protocol.Errors.{Result, ok, err, throw, invalid_params, ◌>>=◌}
use pi_threads.Protocol.Events.{
  DaemonEventType, EventBody, turn_accepted, turn_started, run_step_started, run_step_completed,
  message_delta, message_completed, tool_started, tool_updated, tool_completed, retry_scheduled,
  retry_completed, queue_updated, compaction_started, compaction_completed, extension_ui_requested,
  extension_ui_completed, extension_error, turn_completed, turn_aborted, turn_failed,
  worker_started, worker_idle, worker_crashed, thread_updated,
}

pub record EventFilter : Type 0 where
  pub thread_id : Option String
  pub turn_id : Option String
  pub since_event_id : Option String
  pub event_types : Option (List DaemonEventType)

unfoldable pub event_type_text : DaemonEventType → String
event_type_text turn_accepted = "turn.accepted"
event_type_text turn_started = "turn.started"
event_type_text run_step_started = "run.step.started"
event_type_text run_step_completed = "run.step.completed"
event_type_text message_delta = "message.delta"
event_type_text message_completed = "message.completed"
event_type_text tool_started = "tool.started"
event_type_text tool_updated = "tool.updated"
event_type_text tool_completed = "tool.completed"
event_type_text retry_scheduled = "retry.scheduled"
event_type_text retry_completed = "retry.completed"
event_type_text queue_updated = "queue.updated"
event_type_text compaction_started = "compaction.started"
event_type_text compaction_completed = "compaction.completed"
event_type_text extension_ui_requested = "extension_ui.requested"
event_type_text extension_ui_completed = "extension_ui.completed"
event_type_text extension_error = "extension.error"
event_type_text turn_completed = "turn.completed"
event_type_text turn_aborted = "turn.aborted"
event_type_text turn_failed = "turn.failed"
event_type_text worker_started = "worker.started"
event_type_text worker_idle = "worker.idle"
event_type_text worker_crashed = "worker.crashed"
event_type_text thread_updated = "thread.updated"

abbrev pub event_types_table : List DaemonEventType
event_types_table =
    turn_accepted ∷ turn_started ∷ run_step_started ∷ run_step_completed ∷ message_delta
    ∷ message_completed ∷ tool_started ∷ tool_updated ∷ tool_completed ∷ retry_scheduled
    ∷ retry_completed ∷ queue_updated ∷ compaction_started ∷ compaction_completed
    ∷ extension_ui_requested ∷ extension_ui_completed ∷ extension_error ∷ turn_completed
    ∷ turn_aborted ∷ turn_failed ∷ worker_started ∷ worker_idle ∷ worker_crashed ∷ thread_updated
    ∷ []

unfoldable pub event_type_of : String → Option DaemonEventType
event_type_of text = find (λ t. str_eq (event_type_text t) text) event_types_table

abbrev is_filter_key : String → Bool
is_filter_key key =
    str_eq key "threadId"
    || str_eq key "turnId"
    || str_eq key "sinceEventId"
    || str_eq key "eventTypes"

abbrev unknown_keys : Props → Bool
unknown_keys end = false
unknown_keys (prop key _ rest) = not (is_filter_key key) || unknown_keys rest

-- A field that is absent, or else a text that is not empty.
abbrev text_field : Value → String → Result (Option String)
text_field undefined message = ok none
text_field (str s) message = if str_eq s "" then throw invalid_params message else ok (some s)
text_field _ message = throw invalid_params message

abbrev valid_types : List Value → Result (List DaemonEventType)
valid_types [] = ok []
valid_types (str s ∷ rest) = elim (event_type_of s) [
  | none ↦ throw invalid_params "Invalid eventTypes filter"
  | some t ↦ elim (valid_types rest) [ ok ts ↦ ok (t ∷ ts) | err e ↦ err e ]
]
valid_types (_ ∷ rest) = throw invalid_params "Invalid eventTypes filter"

abbrev types_field : Value → Result (Option (List DaemonEventType))
types_field undefined = ok none
types_field (arr vs) = elim (valid_types (elems vs)) [ ok ts ↦ ok (some ts) | err e ↦ err e ]
types_field _ = throw invalid_params "Invalid eventTypes filter"

abbrev known_keys : Value → Result (Unit {0})
known_keys (obj ps) = if unknown_keys ps then throw invalid_params "Unknown event filter" else ok tt
known_keys _ = throw invalid_params "Event filter must be an object"

unfoldable pub validate_event_filter : Value → Result EventFilter
validate_event_filter value = do
  _ ← known_keys value
  thread_id ← text_field (get "threadId" value) "threadId must be a non-empty string"
  turn_id ← text_field (get "turnId" value) "turnId must be a non-empty string"
  since ← text_field (get "sinceEventId" value) "sinceEventId must be a non-empty string"
  types ← types_field (get "eventTypes" value)
  ok (record {
    thread_id = thread_id;
    turn_id = turn_id;
    since_event_id = since;
    event_types = types;
  })

abbrev matches_text : Option String → Option String → Bool
matches_text wanted given = not (is_truthy wanted) || same_text given wanted

-- An empty list of types matches as an absent one.
abbrev matches_types : Option (List DaemonEventType) → DaemonEventType → Bool
matches_types none t = true
matches_types (some []) t = true
matches_types (some (u ∷ us)) t = any (λ x. str_eq (event_type_text x) (event_type_text t)) (u ∷ us)

unfoldable pub matches_filter : EventBody → EventFilter → Bool
matches_filter event filter =
    matches_text filter.thread_id event.thread_id
    && matches_text filter.turn_id event.turn_id
    && matches_types filter.event_types event.type
