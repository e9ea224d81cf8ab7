-- ===== src/Protocol/Stream.antt =====
-- src/protocol/stream.ts: the bounded stream of one consumer. A promise is named by the number of
-- the call of `next` that made it, and `settled` lists the promises that were settled, in order.
pub mod Laws
pub mod Fifo
mod Tests
use pi_threads.Base.{
  ℕ, ◌+◌, ◌-◌, ◌*◌, String, Bool, true, false, List, [], ◌∷◌, ◌++◌, Option, none, some,
  if◌then◌else◌, ltb,
}
use pi_threads.Protocol.Errors.{DaemonError, Thrown, daemon, error, stream_overflow}

abbrev pub max_stream_bytes : ℕ
max_stream_bytes = 4 * 1024 * 1024

-- How a promise of `next` is settled.
pub data Answer (A : Type 0) : Type 0 where
  item : A → Answer A
  done : Answer A
  rejected : Thrown → Answer A

-- `closes` counts the calls of `onClose`.
pub record BufferedStream (A : Type 0) : Type 0 where
  pub limit : ℕ
  pub queue : List (A × ℕ)
  pub bytes : ℕ
  pub ended : Bool
  pub failure : Option Thrown
  pub waiter : Option ℕ
  pub settled : List (ℕ × Answer A)
  pub closes : ℕ

abbrev pub new_stream : {A : Type 0} → ℕ → BufferedStream A
new_stream limit = record {
  limit = limit;
  queue = [];
  bytes = 0;
  ended = false;
  failure = none;
  waiter = none;
  settled = [];
  closes = 0;
}

abbrev pub overflow : Thrown
overflow =
    daemon
      (record { code = stream_overflow; message = "Event stream buffer exceeded its byte limit" })

abbrev second_consumer : Thrown
second_consumer = error "Event streams support one consumer"

-- `byte_length` is `Buffer.byteLength(JSON.stringify(value))`; `on_close` is what the callback throws.
module _ {A : Type 0} (byte_length : A → ℕ) (on_close : Option Thrown) where
  abbrev pub settle_promise : BufferedStream A → ℕ → Answer A → BufferedStream A
  settle_promise s promise answer = record s { settled = s.settled ++ (promise, answer) ∷ [] }

  -- The `finally` of `settle`.
  abbrev pub release_waiter : BufferedStream A → Option ℕ → Option Thrown → BufferedStream A
  release_waiter s none _ = s
  release_waiter s (some w) none = record (settle_promise s w done) { waiter = none }
  release_waiter s (some w) (some e) = record (settle_promise s w (rejected e)) { waiter = none }

  -- A throw of `onClose` fails the stream, unless it has failed already.
  abbrev pub after_close : BufferedStream A → Option Thrown → BufferedStream A
  after_close s none = s
  after_close s (some thrown) = record s {
    failure = elim s.failure [ none ↦ some thrown | some e ↦ some e ];
    queue = [];
    bytes = 0;
  }

  unfoldable pub settle : BufferedStream A → BufferedStream A
  settle s =
      let closed = after_close (record s { closes = s.closes + 1 }) on_close in
      release_waiter closed closed.waiter closed.failure

  unfoldable pub finish : BufferedStream A → BufferedStream A
  unfolding settle
  finish s = if s.ended then s else settle (record s { ended = true })

  unfoldable pub fail : BufferedStream A → Thrown → BufferedStream A
  unfolding settle
  fail s e =
      if s.ended
      then s
      else settle (record s { failure = some e; queue = []; bytes = 0; ended = true })

  unfoldable pub accept : BufferedStream A → A → Option ℕ → BufferedStream A
  accept s value (some w) = record (settle_promise s w (item value)) { waiter = none }
  accept s value none = record s {
    queue = s.queue ++ (value, byte_length value) ∷ [];
    bytes = s.bytes + byte_length value;
  }

  unfoldable pub push : BufferedStream A → A → BufferedStream A
  unfolding fail accept
  push s value =
      if s.ended
      then s
      else if ltb s.limit (s.bytes + byte_length value)
      then fail s overflow
      else accept s value s.waiter

  abbrev pub wait_or_reject : BufferedStream A → ℕ → Option ℕ → BufferedStream A
  wait_or_reject s promise none = record s { waiter = some promise }
  wait_or_reject s promise (some _) = settle_promise s promise (rejected second_consumer)

  abbrev pub shift_or_wait : BufferedStream A → ℕ → List (A × ℕ) → BufferedStream A
  shift_or_wait s promise ((value, bytes) ∷ rest) =
      settle_promise (record s { queue = rest; bytes = s.bytes - bytes }) promise (item value)
  shift_or_wait s promise [] =
      if s.ended then settle_promise s promise done else wait_or_reject s promise s.waiter

  abbrev pub next_of : BufferedStream A → ℕ → Option Thrown → BufferedStream A
  next_of s promise (some e) = settle_promise s promise (rejected e)
  next_of s promise none = shift_or_wait s promise s.queue

  unfoldable pub next : BufferedStream A → ℕ → BufferedStream A
  next s promise = next_of s promise s.failure

  unfoldable pub close : BufferedStream A → BufferedStream A
  unfolding finish
  close s = finish (record s { queue = []; bytes = 0 })

  -- `return` closes the stream and answers its own promise.
  unfoldable pub return_stream : BufferedStream A → ℕ → BufferedStream A
  unfolding close
  return_stream s promise = settle_promise (close s) promise done

-- The calls of a stream.
pub data Call (A : Type 0) : Type 0 where
  pushes : A → Call A
  finishes closes_early : Call A
  fails : Thrown → Call A
  nexts returns : ℕ → Call A

module _ {A : Type 0} (byte_length : A → ℕ) (on_close : Option Thrown) where
  unfoldable pub step : BufferedStream A → Call A → BufferedStream A
  step s (pushes value) = push byte_length on_close s value
  step s finishes = finish byte_length on_close s
  step s closes_early = close byte_length on_close s
  step s (fails e) = fail byte_length on_close s e
  step s (nexts promise) = next byte_length on_close s promise
  step s (returns promise) = return_stream byte_length on_close s promise

  unfoldable pub run : BufferedStream A → List (Call A) → BufferedStream A
  run s [] = s
  run s (c ∷ cs) = run (step s c) cs
