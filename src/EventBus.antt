-- ===== src/EventBus.antt =====
-- src/service/event-bus.ts: the class EventBus. Listeners may call the bus again before they return,
-- so the bus is a machine with a stack of the calls that are under way: `advance` makes the next
-- step of the bus itself, and the listener on top of the stack chooses its own.
pub mod Log
pub mod Replay
mod Tests
use pi_threads.Base.{
  ℕ, ◌+◌, ◌-◌, String, Bool, true, false, not, ◌&&◌, ◌||◌, List, [], ◌∷◌, ◌++◌, Option, none, some,
  if◌then◌else◌, ◌==◌, ltb, leb, str_eq, map, filter, find, length,
}
use pi_threads.Value.{Value}
use pi_threads.Protocol.Errors.{
  DaemonError, Result, ok, err, throw, invalid_params, event_history_lost, ◌>>=◌,
}
use pi_threads.Protocol.Events.{EventBody}
use pi_threads.Protocol.Filters.{EventFilter, validate_event_filter, matches_filter}

-- An emitted event; its id is the text `epoch:sequence`. The timestamp is left out.
pub record DaemonEvent : Type 0 where
  pub sequence : ℕ
  pub body : EventBody

-- Subscriptions have random ids, which differ; here they are numbered.
pub record Subscriber : Type 0 where
  pub id : ℕ
  pub filter : EventFilter
  pub live_after : ℕ
  pub queue : List DaemonEvent
  pub delivering : Bool

-- A call under way: the loop of `emit`, its inner loop over the subscribers that were there, the
-- loop of `deliver`, and a listener.
pub data Frame : Type 0 where
  draining : Frame
  fanning : DaemonEvent → List ℕ → Frame
  delivering_to : ℕ → Frame
  listening : ℕ → Frame

pub record EventBus : Type 0 where
  pub epoch : String
  pub replay_limit : ℕ
  pub next_id : ℕ
  pub replay : List DaemonEvent
  pub pending : List DaemonEvent
  pub delivering : Bool
  pub subscribers : List Subscriber
  pub next_subscription : ℕ
  pub stack : List Frame
  pub deliveries : List (ℕ × DaemonEvent)

unfoldable pub new_event_bus : String → ℕ → Result EventBus
new_event_bus epoch replay_limit =
    if ltb replay_limit 1
    then throw invalid_params "Replay limit must be a positive integer"
    else ok (record {
      epoch = epoch;
      replay_limit = replay_limit;
      next_id = 1;
      replay = [];
      pending = [];
      delivering = false;
      subscribers = [];
      next_subscription = 0;
      stack = [];
      deliveries = [];
    })

-- A push onto the replay buffer, which drops its oldest event beyond the limit.
abbrev pub shift : List DaemonEvent → List DaemonEvent
shift [] = []
shift (e ∷ es) = es

abbrev pub push_replay : ℕ → List DaemonEvent → DaemonEvent → List DaemonEvent
push_replay limit replay e =
    let longer = replay ++ e ∷ [] in if ltb limit (length longer) then shift longer else longer

unfoldable pub emit : EventBus → EventBody → EventBus
emit b body =
    let event : DaemonEvent = record { sequence = b.next_id; body = body } in
    let noted = record b {
      next_id = b.next_id + 1;
      replay = push_replay b.replay_limit b.replay event;
      pending = b.pending ++ event ∷ [];
    } in
    if b.delivering then noted else record noted { delivering = true; stack = draining ∷ b.stack }

-- What the pattern of `sequence` finds in a cursor: its epoch and its number, if the number is a safe
-- integer.
pub record CursorMatch : Type 0 where
  pub epoch : String
  pub number : ℕ

-- `match` is the regular expression of `sequence`.
module _ (match : String → Option CursorMatch) where
  abbrev pub check_cursor : EventBus → Option CursorMatch → Result ℕ
  check_cursor b none = throw invalid_params "Invalid event cursor"
  check_cursor b (some c) =
      if not (str_eq c.epoch b.epoch)
      then throw event_history_lost "Event cursor belongs to another daemon instance"
      else if leb b.next_id c.number
      then throw invalid_params "Event cursor is in the future"
      else if ltb c.number (b.next_id - length b.replay - 1)
      then throw event_history_lost "Event cursor has expired from the replay buffer"
      else ok c.number

  unfoldable pub sequence_of : EventBus → String → Result ℕ
  sequence_of b cursor = check_cursor b (match cursor)

  abbrev pub since : EventBus → Option String → Result ℕ
  since b none = ok 0
  since b (some cursor) = sequence_of b cursor

  abbrev pub is_later : ℕ → EventFilter → DaemonEvent → Bool
  is_later n filter event = ltb n event.sequence && matches_filter event.body filter

  -- `eventsSince` for a filter that is checked.
  unfoldable pub events_since : EventBus → EventFilter → Result (List DaemonEvent)
  events_since b f = do n ← since b f.since_event_id; ok (filter (is_later n f) b.replay)

  abbrev first_queue : EventBus → EventFilter → Option String → Result (List DaemonEvent)
  first_queue b f none = ok []
  first_queue b f (some _) = events_since b f

  abbrev add_subscriber : EventBus → EventFilter → List DaemonEvent → EventBus
  add_subscriber b f queue = record b {
    subscribers =
        b.subscribers
        ++ record {
          id = b.next_subscription;
          filter = f;
          live_after = b.next_id - 1;
          queue = queue;
          delivering = true;
        }
          ∷ [];
    next_subscription = b.next_subscription + 1;
    stack = delivering_to b.next_subscription ∷ b.stack;
  }

  -- `subscribe`, up to the loop of its `deliver`.
  unfoldable pub subscribe : EventBus → Value → Result EventBus
  subscribe b value = do
    f ← validate_event_filter value
    queue ← first_queue b f f.since_event_id
    ok (add_subscriber b f queue)

unfoldable pub unsubscribe : EventBus → ℕ → EventBus
unsubscribe b id = record b { subscribers = filter (λ s. not (s.id == id)) b.subscribers }

abbrev subscriber_of : EventBus → ℕ → Option Subscriber
subscriber_of b id = find (λ s. s.id == id) b.subscribers

abbrev put : EventBus → Subscriber → EventBus
put b s = record b { subscribers = map (λ t. if t.id == s.id then s else t) b.subscribers }

-- `deliver`, up to its loop; the stack is given below the call.
abbrev begin_deliver : EventBus → Subscriber → List Frame → EventBus
begin_deliver b s below =
    if s.delivering
    then record (put b s) { stack = below }
    else record (put b (record s { delivering = true })) { stack = delivering_to s.id ∷ below }

-- One round of the inner loop of `emit`.
unfoldable pub offer : EventBus → DaemonEvent → Option Subscriber → List Frame → EventBus
offer b e none below = record b { stack = below }
offer b e (some s) below =
    if ltb s.live_after e.sequence && matches_filter e.body s.filter
    then begin_deliver b (record s { queue = s.queue ++ e ∷ [] }) below
    else record b { stack = below }

-- One round of the loop of `deliver`.
unfoldable pub serve : EventBus → ℕ → Option Subscriber → List Frame → EventBus
serve b id none below = record b { stack = below }
serve b id (some s) below = elim s.queue [
  | [] ↦ record (put b (record s { delivering = false })) { stack = below }
  | e ∷ rest ↦ record (put b (record s { queue = rest })) {
    stack = listening id ∷ delivering_to id ∷ below;
    deliveries = b.deliveries ++ (id, e) ∷ [];
  }
]

unfoldable pub drain : EventBus → List DaemonEvent → List Frame → EventBus
drain b [] below = record b { delivering = false; stack = below }
drain b (e ∷ rest) below = record b {
  pending = rest;
  stack = fanning e (map (λ s. s.id) b.subscribers) ∷ draining ∷ below;
}

-- The next step of the code of the bus; a listener on top of the stack makes its own.
unfoldable pub advance : EventBus → List Frame → EventBus
advance b [] = b
advance b (draining ∷ below) = drain b b.pending below
advance b (fanning e [] ∷ below) = record b { stack = below }
advance b (fanning e (id ∷ ids) ∷ below) = offer b e (subscriber_of b id) (fanning e ids ∷ below)
advance b (delivering_to id ∷ below) = serve b id (subscriber_of b id) below
advance b (listening id ∷ below) = b

-- A listener returns, or throws: then its subscriber is detached and its `deliver` ends.
unfoldable pub listener_returns : EventBus → List Frame → EventBus
listener_returns b (listening id ∷ below) = record b { stack = below }
listener_returns b _ = b

unfoldable pub listener_throws : EventBus → List Frame → EventBus
listener_throws b (listening id ∷ delivering_to j ∷ below) = record (unsubscribe b id) {
  stack = below;
}
listener_throws b _ = b

pub data Call : Type 0 where
  emits : EventBody → Call
  subscribes : Value → Call
  unsubscribes : ℕ → Call
  returns throws advances : Call

abbrev pub after : EventBus → Result EventBus → EventBus
after b (ok b') = b'
after b (err _) = b

unfoldable pub step : (String → Option CursorMatch) → EventBus → Call → EventBus
step match b (emits body) = emit b body
step match b (subscribes filter) = after b (subscribe match b filter)
step match b (unsubscribes id) = unsubscribe b id
step match b returns = listener_returns b b.stack
step match b throws = listener_throws b b.stack
step match b advances = advance b b.stack

unfoldable pub run : (String → Option CursorMatch) → EventBus → List Call → EventBus
run match b [] = b
run match b (c ∷ cs) = run match (step match b c) cs
