-- ===== src/Protocol/TurnStream.antt =====
-- src/protocol/turn-stream.ts: createTurnStream, the finite stream of one turn, as a machine. Its body
-- is cut at its awaits, and its listener may be called at any time.
pub mod Pushes
pub mod Shapes
pub mod Frames
pub mod Reader
pub mod Disposal
mod Tests
use pi_threads.Base.{
  ℕ, ◌+◌, String, Bool, true, false, not, ◌&&◌, ◌||◌, List, [], ◌∷◌, ◌++◌, Option, none, some,
  if◌then◌else◌, str_eq, same_text, ltb,
}
use pi_threads.Value.{Value, str, get}
use pi_threads.Protocol.Errors.{
  DaemonError, Thrown, daemon, Result, ok, throw, err, invalid_params, stream_overflow,
}
use pi_threads.Protocol.Events.{EventBody, is_terminal_event_type}
use pi_threads.Protocol.Stream.{
  BufferedStream, new_stream, push, finish, fail, next, close, return_stream,
}

pub record AcceptedTurn : Type 0 where
  pub thread_id : String
  pub turn_id : String

pub data TurnMethod : Type 0 where
  thread_start thread_send : TurnMethod

pub data TurnFrame : Type 0 where
  accepted_frame : AcceptedTurn → TurnFrame
  event_frame : EventBody → TurnFrame

-- The await at which the body stands: for the id of the thread, the subscription or the answer.
pub data Phase : Type 0 where
  resolving subscribing requesting over : Phase

-- `is_subscribed` tells whether `dispose` is there and has not been called.
pub record TurnStream : Type 0 where
  pub stream : BufferedStream TurnFrame
  pub limit : ℕ
  pub accepted : Option AcceptedTurn
  pub pending : List EventBody
  pub pending_bytes : ℕ
  pub filter_thread : Option String
  pub is_subscribed : Bool
  pub phase : Phase

unfoldable pub assert_turn_method : String → Result TurnMethod
assert_turn_method method =
    if str_eq method "thread/start"
    then ok thread_start
    else if str_eq method "thread/send"
    then ok thread_send
    else throw invalid_params "Finite streaming supports thread/start and thread/send only"

-- `isTerminalEvent`
abbrev pub is_terminal : EventBody → Bool
is_terminal event = is_terminal_event_type event.type

abbrev pub is_accepted : AcceptedTurn → EventBody → Bool
is_accepted turn event =
    same_text event.turn_id (some turn.turn_id) && same_text event.thread_id (some turn.thread_id)

abbrev buffer_overflow : Thrown
buffer_overflow = daemon (record {
  code = stream_overflow;
  message = "Pre-acceptance event buffer exceeded its byte limit";
})

-- A call of the stream; when it ends the stream, `onClose` has been called.
abbrev pub with_stream : TurnStream → BufferedStream TurnFrame → TurnStream
with_stream t s =
    let was = t.stream in
    let closes = s.ended && not was.ended in
    record t {
      stream = s;
      pending = if closes then [] else t.pending;
      is_subscribed = t.is_subscribed && not closes;
    }

abbrev pub is_ended : TurnStream → Bool
is_ended t = let s = t.stream in s.ended

-- `event_bytes` and `frame_bytes` are the lengths of the JSON text.
module _ (event_bytes : EventBody → ℕ) (frame_bytes : TurnFrame → ℕ) where
  abbrev pub end_stream : TurnStream → TurnStream
  end_stream t = with_stream t (finish frame_bytes none t.stream)

  abbrev pub fail_stream : TurnStream → Thrown → TurnStream
  fail_stream t thrown = with_stream t (fail frame_bytes none t.stream thrown)

  abbrev pub push_frame : TurnStream → TurnFrame → TurnStream
  push_frame t frame = with_stream t (push frame_bytes none t.stream frame)

  abbrev pub hold : TurnStream → EventBody → TurnStream
  hold t event =
      let counted = record t { pending_bytes = t.pending_bytes + event_bytes event } in
      if ltb t.limit (t.pending_bytes + event_bytes event)
      then fail_stream counted buffer_overflow
      else record counted { pending = t.pending ++ event ∷ [] }

  abbrev pub expose : TurnStream → AcceptedTurn → EventBody → TurnStream
  expose t turn event =
      if not (is_accepted turn event)
      then t
      else if is_terminal event
      then end_stream (push_frame t (event_frame event))
      else push_frame t (event_frame event)

  abbrev pub deliver_to : TurnStream → Option AcceptedTurn → EventBody → TurnStream
  deliver_to t none event = hold t event
  deliver_to t (some turn) event = expose t turn event

  unfoldable pub deliver : TurnStream → EventBody → TurnStream
  deliver t event = if is_ended t then t else deliver_to t t.accepted event

  unfoldable pub deliver_all : TurnStream → List EventBody → TurnStream
  deliver_all t [] = t
  deliver_all t (event ∷ events) = deliver_all (deliver t event) events

  -- The first part of the body; an error of it is caught and fails the stream.
  unfoldable pub open_stream : ℕ → TurnMethod → Value → TurnStream
  open_stream limit method params =
      let t : TurnStream = record {
        stream = new_stream limit;
        limit = limit;
        accepted = none;
        pending = [];
        pending_bytes = 0;
        filter_thread = none;
        is_subscribed = false;
        phase = subscribing;
      } in
      elim method [
        | thread_start ↦ t
        | thread_send ↦
            if has_thread (get "threadId" params)
            then record t { phase = resolving }
            else fail_stream (record t { phase = over })
                (daemon (record { code = invalid_params; message = "threadId is required" }))
      ]
    where
      has_thread : Value → Bool
      has_thread (str s) = not (str_eq s "")
      has_thread _ = false

  abbrev pub take_id : TurnStream → String → TurnStream
  take_id t thread =
      if is_ended t
      then record t { phase = over }
      else record t { phase = subscribing; filter_thread = some thread }

  -- `dispose` is called at once if the stream is over.
  abbrev pub take_subscription : TurnStream → TurnStream
  take_subscription t =
      if is_ended t
      then record t { phase = over }
      else record t { phase = requesting; is_subscribed = true }

  unfoldable pub take_acceptance : TurnStream → AcceptedTurn → TurnStream
  take_acceptance t turn =
      let known = record t { accepted = some turn; phase = over } in
      if is_ended t
      then known
      else let exposed = push_frame known (accepted_frame turn) in
        deliver_all (record exposed { pending = [] }) exposed.pending

-- What the source, the listener and the reader do.
pub data Input : Type 0 where
  resolves : (thread : String) → Input
  subscribes : Input
  answers : AcceptedTurn → Input
  throws reports : Thrown → Input
  delivers : EventBody → Input
  nexts returns : (promise : ℕ) → Input
  closes_early : Input

module _ (event_bytes : EventBody → ℕ) (frame_bytes : TurnFrame → ℕ) where
  -- An await that settles is the one at which the body stands.
  abbrev pub settle_phase : TurnStream → Phase → Input → TurnStream
  settle_phase t resolving (resolves thread) = take_id event_bytes frame_bytes t thread
  settle_phase t subscribing subscribes = take_subscription event_bytes frame_bytes t
  settle_phase t requesting (answers turn) = take_acceptance event_bytes frame_bytes t turn
  settle_phase t over _ = t
  settle_phase t phase (throws thrown) =
      fail_stream event_bytes frame_bytes (record t { phase = over }) thrown
  settle_phase t phase _ = t

  unfoldable pub step : TurnStream → Input → TurnStream
  step t (delivers event) = deliver event_bytes frame_bytes t event
  step t (reports thrown) = fail_stream event_bytes frame_bytes t thrown
  step t (nexts promise) = with_stream t (next frame_bytes none t.stream promise)
  step t (returns promise) = with_stream t (return_stream frame_bytes none t.stream promise)
  step t closes_early = with_stream t (close frame_bytes none t.stream)
  step t input = settle_phase t t.phase input

  unfoldable pub run : TurnStream → List Input → TurnStream
  run t [] = t
  run t (input ∷ rest) = run (step t input) rest
