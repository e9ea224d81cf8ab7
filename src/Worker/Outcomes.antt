-- ===== src/Worker/Outcomes.antt =====
-- When the events of a worker's process end a turn, and how.
use pi_threads.Base.{
  All, if◌then◌else◌, ◌∙◌, String, true, ◌≡◌, refl, sym, ◌≢◌, ◌↔◌, List, [], ◌∷◌, Option, none,
  some, is_truthy, same_text, eq_iff, arith,
}
use pi_threads.Value.{Value}
use pi_threads.Protocol.Events.{
  DaemonEventType, is_terminal_event_type, turn_aborted, turn_failed, turn_completed,
}
use pi_threads.Worker.{
  PooledWorker, RawEvent, RawType, agent_end, agent_settled, raw_type, session_type, output_type,
  map_raw, map_worker_event, settle_agent, agent_failure,
}

map_raw_terminal :
    (t : RawType) (w : PooledWorker) (raw : Value)
    → is_terminal_event_type (map_raw t w raw).1.type ≡ true
    → (t ≡ agent_settled) × (is_truthy w.active_turn_id ≡ true)
unfolding map_raw is_terminal_event_type
map_raw_terminal t w raw h = ground arith

settled_terminal :
    (event : RawEvent) (w : PooledWorker)
    → event.type ≡ "agent_settled"
    → is_truthy w.active_turn_id ≡ true
    → is_terminal_event_type (map_worker_event w event).1.type ≡ true
unfolding map_worker_event is_terminal_event_type
settled_terminal event w settled active = rw settled (ground arith)

output_type-middle : (t : String) → (output_type t ≢ agent_end) × (output_type t ≢ agent_settled)
unfolding output_type
output_type-middle t = ground arith

session_type-middle : (t : String) → (session_type t ≢ agent_end) × (session_type t ≢ agent_settled)
unfolding session_type
session_type-middle t = ground (arith, output_type-middle t)

agent_settled_only : (t : String) → raw_type t ≡ agent_settled → t ≡ "agent_settled"
unfolding raw_type
agent_settled_only t h = ground (arith, eq_iff t "agent_settled", session_type-middle t)

-- An event of the process ends a turn exactly when it is `agent_settled` and the worker has an
-- active turn: then it is mapped to `turn.completed`, `turn.failed` or `turn.aborted`, and no other
-- event ever is.
pub map_worker_event-terminal_iff :
    (w : PooledWorker) (event : RawEvent)
    → (is_terminal_event_type (map_worker_event w event).1.type ≡ true)
      ↔ ((event.type ≡ "agent_settled") × (is_truthy w.active_turn_id ≡ true))
unfolding map_worker_event
map_worker_event-terminal_iff w event = (forth, back)
  where
    forth :
        is_terminal_event_type (map_worker_event w event).1.type ≡ true
        → (event.type ≡ "agent_settled") × (is_truthy w.active_turn_id ≡ true)
    forth h =
        let (settled, active) = map_raw_terminal (raw_type event.type) w event.raw h in
        (agent_settled_only event.type settled, active)

    back :
        (event.type ≡ "agent_settled") × (is_truthy w.active_turn_id ≡ true)
        → is_terminal_event_type (map_worker_event w event).1.type ≡ true
    back (settled, active) = settled_terminal event w settled active

-- Events between the end of a run and its settling: any but `agent_end` and `agent_settled`.
abbrev pub IsMiddle : RawEvent → Type 0
IsMiddle e = (e.type ≢ "agent_end") × (e.type ≢ "agent_settled")

unfoldable pub feed : PooledWorker → List RawEvent → PooledWorker
feed w [] = w
feed w (e ∷ es) = feed (map_worker_event w e).0 es

-- What the pool keeps of a worker while its turn runs on.
abbrev SameTurn : PooledWorker → PooledWorker → Type 0
SameTurn v w =
    (v.active_turn_id ≡ w.active_turn_id)
    × (v.aborting_turn_id ≡ w.aborting_turn_id)
    × (v.settled ≡ w.settled)

raw_type-middle :
    (t : String)
    → t ≢ "agent_end"
    → t ≢ "agent_settled"
    → (raw_type t ≢ agent_end) × (raw_type t ≢ agent_settled)
unfolding raw_type
raw_type-middle t e s =
    ground (arith, eq_iff t "agent_end", eq_iff t "agent_settled", session_type-middle t)

map_raw-SameTurn :
    (t : RawType) (w : PooledWorker) (raw : Value)
    → t ≢ agent_end
    → t ≢ agent_settled
    → SameTurn (map_raw t w raw).0 w
unfolding map_raw
map_raw-SameTurn t w raw e s = ground arith

feed-SameTurn : (w : PooledWorker) (es : List RawEvent) → All IsMiddle es → SameTurn (feed w es) w
unfolding feed map_worker_event
feed-SameTurn w [] h = (refl, refl, refl)
feed-SameTurn w (e ∷ es) (m, h) =
    let (x, y) = raw_type-middle e.type m.0 m.1 in
    let (a, b, c) = feed-SameTurn (map_worker_event w e).0 es h in
    let (a', b', c') = map_raw-SameTurn (raw_type e.type) w e.raw x y in (a ∙ a', b ∙ b', c ∙ c')

-- How a run that ended with `raw` is reported: an abort by the client counts before a failure.
unfoldable pub verdict : PooledWorker → Value → DaemonEventType
verdict w raw =
    if same_text w.aborting_turn_id w.active_turn_id
    then turn_aborted
    else elim (agent_failure raw) [ none ↦ turn_completed | some _ ↦ turn_failed ]

same_text_refl : (a : Option String) → same_text a a ≡ true
same_text_refl none = refl
same_text_refl (some s) = (eq_iff s s).1 refl

settle_agent-verdict :
    (w : PooledWorker) (raw settled : Value) (turn : Option String)
    → w.settled ≡ some (record { turn_id = turn; pi_event = raw; failure = agent_failure raw })
    → turn ≡ w.active_turn_id
    → is_truthy w.active_turn_id ≡ true
    → (settle_agent w settled).1.type ≡ verdict w raw
unfolding settle_agent verdict
settle_agent-verdict w raw settled turn kept same active =
    ground (arith, same_text_refl w.active_turn_id)

verdict_cong :
    (v w : PooledWorker) (raw : Value)
    → v.active_turn_id ≡ w.active_turn_id
    → v.aborting_turn_id ≡ w.aborting_turn_id
    → verdict v raw ≡ verdict w raw
unfolding verdict
verdict_cong v w raw a b = rw (a, b)

-- When a run of an active turn ends (`agent_end`) and, after any other events, the agent settles,
-- the turn is reported as aborted if the client was aborting it, else as failed if the run's
-- messages hold one with stop reason "error" or "aborted", else as completed.
pub agent_end-verdict :
    (w : PooledWorker) (raw settled : Value) (es : List RawEvent)
    → is_truthy w.active_turn_id ≡ true
    → All IsMiddle es
    → (map_worker_event
        (feed (map_worker_event w (record { type = "agent_end"; raw = raw })).0 es)
        (record { type = "agent_settled"; raw = settled })).1.type
      ≡ verdict w raw
unfolding map_worker_event
agent_end-verdict w raw settled es active h =
    let ended : PooledWorker = (map_worker_event w (record { type = "agent_end"; raw = raw })).0 in
    let (same, aborting, kept) = feed-SameTurn ended es h in
    settle_agent-verdict (feed ended es) raw settled w.active_turn_id kept (sym same)
      (rw same active)
    ∙ verdict_cong (feed ended es) w raw same aborting
