-- ===== src/Protocol/TurnStream/Tests.antt =====
-- A turn whose first event comes before its acceptance.
use pi_threads.Base.{
  ℕ, ◌≡◌, refl, inl, String, List, [], ◌∷◌, Option, none, some, any, filter, map, arith,
}
use pi_threads.Value.{undefined}
use pi_threads.Protocol.Events.{
  EventBody, DaemonEventType, turn_started, turn_completed, worker_idle, is_terminal_event_type,
}
use pi_threads.Protocol.Stream.{push, finish, accept, fail, settle, next}
use pi_threads.Protocol.Stream.Fifo.{contents}
use pi_threads.Protocol.TurnStream.{
  AcceptedTurn, TurnFrame, accepted_frame, event_frame, is_accepted, is_terminal, thread_start,
  TurnStream, open_stream, Input, subscribes, answers, delivers, nexts, run, step, deliver,
  deliver_all, take_acceptance,
}
use pi_threads.Protocol.TurnStream.Disposal.{IsDisposed, run-IsDisposed}
use pi_threads.Protocol.TurnStream.Pushes.{until_terminal}
use pi_threads.Protocol.TurnStream.Shapes.{IsFramed}
use pi_threads.Protocol.TurnStream.Reader.{events_of, run-frames}

abbrev one_byte : EventBody → ℕ
one_byte e = 1

abbrev two_bytes : TurnFrame → ℕ
two_bytes f = 2

abbrev event : DaemonEventType → Option String → EventBody
event type turn = record {
  type = type;
  thread_id = some "a";
  turn_id = turn;
  worker_id = some 1;
  payload = undefined;
}

abbrev turn : AcceptedTurn
turn = record { thread_id = "a"; turn_id = "t" }

abbrev opened : TurnStream
opened = open_stream one_byte two_bytes 100 thread_start undefined

inputs : List Input
inputs =
    subscribes
    ∷ delivers (event turn_started (some "t"))
    ∷ nexts 1
    ∷ delivers (event turn_completed (some "other"))
    ∷ answers turn
    ∷ delivers (event worker_idle none)
    ∷ delivers (event turn_completed (some "t"))
    ∷ delivers (event turn_started (some "t"))
    ∷ []

code : Unit {0}
unfolding inputs run step open_stream deliver deliver_all take_acceptance push finish accept fail
    settle next is_terminal_event_type
code = tt

opened-IsFramed : IsFramed [] opened
unfolding open_stream
opened-IsFramed = record {
  valid = record {
    counted = refl;
    within = omega arith;
    waits_empty = inl refl;
    failed_empty = inl refl;
    closed_once = refl;
  };
  waiting = inl refl;
  framed = λ _. (refl, refl, refl);
}

run-frames_example :
    let s = (run one_byte two_bytes opened inputs).stream in
    let found = filter (is_accepted turn) (events_of inputs) in
    (contents s ≡ accepted_frame turn ∷ map event_frame (until_terminal found))
    × (s.ended ≡ any is_terminal found)
unfolding code
run-frames_example =
    run-frames one_byte two_bytes opened inputs turn opened-IsFramed
      (tt, (tt, (tt, (tt, (tt, (tt, (tt, (tt, tt)))))))) refl refl

two_events :
    contents (run one_byte two_bytes opened inputs).stream
    ≡ accepted_frame turn
      ∷ event_frame (event turn_started (some "t"))
      ∷ event_frame (event turn_completed (some "t"))
      ∷ []
unfolding code
two_events = refl

run-IsDisposed_example : IsDisposed (run one_byte two_bytes opened inputs)
unfolding open_stream
run-IsDisposed_example =
    run-IsDisposed one_byte two_bytes opened inputs
      (record { unsubscribed = refl; dropped = inl refl })
