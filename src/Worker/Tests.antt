-- ===== src/Worker/Tests.antt =====
-- A worker whose run fails, on small inputs.
use pi_threads.Base.{◌≡◌, refl, ◌↔◌, true, String, [], ◌∷◌, none, some, arith, is_truthy, eq_iff}
use pi_threads.Value.{Value, undefined, str, obj, arr, prop, end, cons, nil, is_object}
use pi_threads.Protocol.Events.{is_terminal_event_type, turn_failed}
use pi_threads.Worker.{PooledWorker, RawEvent, running, agent_failure, map_worker_event}
use pi_threads.Worker.Outcomes.{feed, verdict, map_worker_event-terminal_iff, agent_end-verdict}

abbrev busy_worker : PooledWorker
busy_worker = record {
  worker_id = 1;
  cwd = "/a";
  started_at = 0;
  version = none;
  state = running;
  thread_id = some "t";
  active_turn_id = some "turn";
  aborting_turn_id = none;
  last_used_at = 0;
  pid = none;
  pending_command_count = 0;
  settled = none;
}

abbrev failed_run : Value
failed_run = obj (prop "messages" (arr (cons (obj (prop "stopReason" (str "error") end)) nil)) end)

abbrev raw_event : String → Value → RawEvent
raw_event type raw = record { type = type; raw = raw }

failed_run_fails : verdict busy_worker failed_run ≡ turn_failed
unfolding verdict agent_failure is_object
failed_run_fails = refl

agent_end-verdict_example :
    (map_worker_event
      (feed
        (map_worker_event busy_worker (raw_event "agent_end" failed_run)).0
        (raw_event "message_end" undefined ∷ []))
      (raw_event "agent_settled" undefined)).1.type
    ≡ verdict busy_worker failed_run
agent_end-verdict_example =
    agent_end-verdict busy_worker failed_run undefined (raw_event "message_end" undefined ∷ []) refl
      (
        (
          ground (arith, eq_iff "message_end" "agent_end"),
          ground (arith, eq_iff "message_end" "agent_settled"),
        ),
        tt,
      )

map_worker_event-terminal_iff_example :
    (is_terminal_event_type
        (map_worker_event busy_worker (raw_event "agent_settled" undefined)).1.type
      ≡ true)
    ↔ (◌≡◌ {A = String} "agent_settled" "agent_settled" × (is_truthy (some "turn") ≡ true))
map_worker_event-terminal_iff_example =
    map_worker_event-terminal_iff busy_worker (raw_event "agent_settled" undefined)
