-- ===== src/Protocol/TurnStream/Disposal.antt =====
-- The subscription of a turn stream of src/protocol/turn-stream.ts, and its end.
use pi_threads.Base.{
  ℕ, ◌+◌, ◌≡◌, refl, ◌⊎◌, inl, inr, false, not, ◌&&◌, List, [], ◌∷◌, Option, none, some, arith,
  if_cases, ltb,
}
use pi_threads.Protocol.Errors.{Thrown}
use pi_threads.Protocol.Events.{EventBody}
use pi_threads.Protocol.Stream.{BufferedStream, push}
use pi_threads.Protocol.TurnStream.{
  AcceptedTurn, TurnFrame, accepted_frame, event_frame, Phase, resolving, subscribing, requesting,
  over, TurnStream, is_ended, is_accepted, is_terminal, with_stream, push_frame, fail_stream, hold,
  expose, deliver_to, deliver, deliver_all, take_acceptance, Input, resolves, subscribes, answers,
  throws, reports, delivers, nexts, returns, closes_early, settle_phase, step, run,
}

pub record IsDisposed (t : TurnStream) : Type 0 where
  pub unsubscribed : (t.is_subscribed && is_ended t) ≡ false
  pub dropped : (is_ended t ≡ false) ⊎ (t.pending ≡ [])

with-IsDisposed :
    (t : TurnStream) (s : BufferedStream TurnFrame) → IsDisposed t → IsDisposed (with_stream t s)
with-IsDisposed t s v = ground arith

module _ (event_bytes : EventBody → ℕ) (frame_bytes : TurnFrame → ℕ) where
  push-IsDisposed :
      (t : TurnStream) (f : TurnFrame)
      → IsDisposed t
      → IsDisposed (push_frame event_bytes frame_bytes t f)
  push-IsDisposed t f v = with-IsDisposed t (push frame_bytes none t.stream f) v

  hold-IsDisposed :
      (t : TurnStream) (event : EventBody)
      → is_ended t ≡ false
      → IsDisposed t
      → IsDisposed (hold event_bytes frame_bytes t event)
  hold-IsDisposed t event h v =
      if_cases IsDisposed (ltb t.limit (t.pending_bytes + event_bytes event))
        (λ _.
          with-IsDisposed (record t { pending_bytes = t.pending_bytes + event_bytes event }) _
            (record { unsubscribed = v.unsubscribed; dropped = v.dropped }))
        (λ _. record { unsubscribed = v.unsubscribed; dropped = inl h })

  expose-IsDisposed :
      (t : TurnStream) (turn : AcceptedTurn) (event : EventBody)
      → IsDisposed t
      → IsDisposed (expose event_bytes frame_bytes t turn event)
  expose-IsDisposed t turn event v =
      let w = push-IsDisposed t (event_frame event) v in
      if_cases IsDisposed (not (is_accepted turn event)) (λ _. v)
        (λ _.
          if_cases IsDisposed (is_terminal event)
            (λ _. with-IsDisposed (push_frame event_bytes frame_bytes t (event_frame event)) _ w)
            (λ _. w))

  deliver-IsDisposed :
      (t : TurnStream) (event : EventBody)
      → IsDisposed t
      → IsDisposed (deliver event_bytes frame_bytes t event)
  unfolding deliver
  deliver-IsDisposed t event v =
      if_cases IsDisposed (is_ended t) (λ _. v) (λ h. delivered_to t.accepted h)
    where
      delivered_to :
          (a : Option AcceptedTurn)
          → is_ended t ≡ false
          → IsDisposed (deliver_to event_bytes frame_bytes t a event)
      delivered_to none h = hold-IsDisposed t event h v
      delivered_to (some turn) h = expose-IsDisposed t turn event v

  deliver_all-IsDisposed :
      (t : TurnStream) (events : List EventBody)
      → IsDisposed t
      → IsDisposed (deliver_all event_bytes frame_bytes t events)
  unfolding deliver_all
  deliver_all-IsDisposed t [] v = v
  deliver_all-IsDisposed t (e ∷ es) v =
      deliver_all-IsDisposed (deliver event_bytes frame_bytes t e) es (deliver-IsDisposed t e v)

  take_acceptance-IsDisposed :
      (t : TurnStream) (turn : AcceptedTurn)
      → IsDisposed t
      → IsDisposed (take_acceptance event_bytes frame_bytes t turn)
  unfolding take_acceptance
  take_acceptance-IsDisposed t turn v =
      let known = record t { accepted = some turn; phase = over } in
      let k : IsDisposed known = record { unsubscribed = v.unsubscribed; dropped = v.dropped } in
      let w = push-IsDisposed known (accepted_frame turn) k in
      if_cases IsDisposed (is_ended t) (λ _. k)
        (λ _.
          deliver_all-IsDisposed
            (record (push_frame event_bytes frame_bytes known (accepted_frame turn)) {
              pending = [];
            })
            _ (record { unsubscribed = w.unsubscribed; dropped = inr refl }))

  moved-IsDisposed :
      (t : TurnStream) (phase : Phase) → IsDisposed t → IsDisposed (record t { phase = phase })
  moved-IsDisposed t phase v = record { unsubscribed = v.unsubscribed; dropped = v.dropped }

  thrown-IsDisposed :
      (t : TurnStream) (thrown : Thrown)
      → IsDisposed t
      → IsDisposed (fail_stream event_bytes frame_bytes (record t { phase = over }) thrown)
  thrown-IsDisposed t thrown v = with-IsDisposed _ _ (moved-IsDisposed t over v)

  phase-IsDisposed :
      (t : TurnStream) (phase : Phase) (input : Input)
      → IsDisposed t
      → IsDisposed (settle_phase event_bytes frame_bytes t phase input)
  phase-IsDisposed t resolving (resolves thread) v = ground arith
  phase-IsDisposed t subscribing subscribes v = ground arith
  phase-IsDisposed t requesting (answers turn) v = take_acceptance-IsDisposed t turn v
  phase-IsDisposed t over input v = v
  phase-IsDisposed t resolving (throws thrown) v = thrown-IsDisposed t thrown v
  phase-IsDisposed t subscribing (throws thrown) v = thrown-IsDisposed t thrown v
  phase-IsDisposed t requesting (throws thrown) v = thrown-IsDisposed t thrown v
  phase-IsDisposed t phase input v = v

  step-IsDisposed :
      (t : TurnStream) (input : Input)
      → IsDisposed t
      → IsDisposed (step event_bytes frame_bytes t input)
  unfolding step
  step-IsDisposed t (delivers event) v = deliver-IsDisposed t event v
  step-IsDisposed t (reports thrown) v = with-IsDisposed t _ v
  step-IsDisposed t (nexts promise) v = with-IsDisposed t _ v
  step-IsDisposed t (returns promise) v = with-IsDisposed t _ v
  step-IsDisposed t closes_early v = with-IsDisposed t _ v
  step-IsDisposed t (resolves thread) v = phase-IsDisposed t t.phase (resolves thread) v
  step-IsDisposed t subscribes v = phase-IsDisposed t t.phase subscribes v
  step-IsDisposed t (answers turn) v = phase-IsDisposed t t.phase (answers turn) v
  step-IsDisposed t (throws thrown) v = phase-IsDisposed t t.phase (throws thrown) v

  -- Once a turn stream is over, for whatever reason and whenever in its life, it has no subscription
  -- and holds no events: whatever the source, the listener and the reader do, in any order.
  pub run-IsDisposed :
      (t : TurnStream) (inputs : List Input)
      → IsDisposed t
      → IsDisposed (run event_bytes frame_bytes t inputs)
  unfolding run
  run-IsDisposed t [] v = v
  run-IsDisposed t (input ∷ rest) v =
      run-IsDisposed (step event_bytes frame_bytes t input) rest (step-IsDisposed t input v)
