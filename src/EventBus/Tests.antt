-- ===== src/EventBus/Tests.antt =====
-- Runs of the event bus, and the instances of its theorems.
use pi_threads.Base.{
  ℕ, ◌≡◌, refl, String, false, List, [], ◌∷◌, Option, none, some, str_eq, if◌then◌else◌, arith, map,
}
use pi_threads.Value.{undefined, obj, end}
use pi_threads.Protocol.Errors.{ok}
use pi_threads.Protocol.Events.{EventBody, turn_accepted, turn_completed}
use pi_threads.Protocol.Filters.{EventFilter, validate_event_filter, matches_filter}
use pi_threads.EventBus.{
  DaemonEvent, EventBus, CursorMatch, Call, emits, subscribes, returns, advances, new_event_bus,
  emit, subscribe, offer, serve, drain, advance, listener_returns, step, run, events_since,
}
use pi_threads.EventBus.Log.{IsLog, emitted, run-IsLog, new_event_bus-IsLog}
use pi_threads.EventBus.Replay.{run-events_since}

abbrev match : String → Option CursorMatch
match cursor = if str_eq cursor "e:1" then some (record { epoch = "e"; number = 1 }) else none

abbrev bus : EventBus
bus = record {
  epoch = "e";
  replay_limit = 2;
  next_id = 1;
  replay = [];
  pending = [];
  delivering = false;
  subscribers = [];
  next_subscription = 0;
  stack = [];
  deliveries = [];
}

abbrev accepted : EventBody
accepted = record {
  type = turn_accepted;
  thread_id = some "t";
  turn_id = some "u";
  worker_id = none;
  payload = undefined;
}

abbrev completed : EventBody
completed = record accepted { type = turn_completed }

abbrev all_of_t : EventFilter
all_of_t = record {
  thread_id = some "t";
  turn_id = none;
  since_event_id = some "e:1";
  event_types = none;
}

-- A listener that emits while it is called: its event waits for the loop of the first `emit`.
abbrev nested : List Call
nested =
    subscribes (obj end)
    ∷ advances
    ∷ emits accepted
    ∷ advances
    ∷ advances
    ∷ advances
    ∷ emits completed
    ∷ returns
    ∷ advances
    ∷ advances
    ∷ advances
    ∷ advances
    ∷ advances
    ∷ returns
    ∷ advances
    ∷ advances
    ∷ advances
    ∷ []

abbrev delivered_sequence : ℕ × DaemonEvent → ℕ
delivered_sequence (subscriber, e) = e.sequence

nested_calls :
    let q = run match bus nested in
    (map delivered_sequence q.deliveries ≡ 1 ∷ 2 ∷ [])
    × (q.stack ≡ [])
    × (q.delivering ≡ false)
    × (q.next_id ≡ 3)
unfolding run step emit subscribe offer serve drain advance listener_returns validate_event_filter
    matches_filter
nested_calls = (refl, refl, refl, refl)

bus-IsLog : IsLog "e" 2 bus []
unfolding new_event_bus
bus-IsLog = new_event_bus-IsLog "e" 2 bus refl

seen-IsLog : IsLog "e" 2 (emit bus accepted) (record { sequence = 1; body = accepted } ∷ [])
unfolding emit
seen-IsLog = record {
  same_epoch = refl;
  same_limit = refl;
  numbered = (refl, tt);
  counted = refl;
  kept = refl;
  positive = omega arith;
}

run-IsLog_example :
    IsLog "e" 2
      (run match bus (emits accepted ∷ advances ∷ emits completed ∷ []))
      (emitted 1 (emits accepted ∷ advances ∷ emits completed ∷ []))
run-IsLog_example =
    run-IsLog "e" 2 match bus [] (emits accepted ∷ advances ∷ emits completed ∷ []) bus-IsLog

run-events_since_example :
    events_since match (run match (emit bus accepted) (advances ∷ emits completed ∷ [])) all_of_t
    ≡ ok (record { sequence = 2; body = completed } ∷ [])
unfolding emit matches_filter
run-events_since_example =
    run-events_since "e" 2 match (emit bus accepted) (record { sequence = 1; body = accepted } ∷ [])
      (advances ∷ emits completed ∷ []) all_of_t "e:1" seen-IsLog refl refl
