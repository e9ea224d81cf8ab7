-- ===== src/Protocol/TurnStream/Reader.antt =====
-- Whole runs of a turn stream, as their reader sees them.
use mathlib.Core.List.{append_assoc, append-nil}
use pi_threads.Base.{
  ℕ, any, filter, map, ◌≡◌, refl, sym, ap, ◌∙◌, subst, ◌⊎◌, inl, inr, Bool, true, List, [], ◌∷◌,
  ◌++◌, Option, none, some, All, arith, if◌then◌else◌, if_cases, String,
}
use pi_threads.Protocol.Errors.{Thrown}
use pi_threads.Protocol.Events.{EventBody}
use pi_threads.Protocol.Stream.{
  BufferedStream, fail, next, settle, step as stream_step, nexts as stream_nexts,
}
use pi_threads.Protocol.Stream.Laws.{step-IsValid}
use pi_threads.Protocol.Stream.Fifo.{contents, step-contents}
use pi_threads.Protocol.TurnStream.{
  AcceptedTurn, TurnFrame, accepted_frame, event_frame, is_accepted, is_terminal, Phase, resolving,
  subscribing, requesting, over, TurnStream, is_ended, with_stream, fail_stream, Input, resolves,
  subscribes, answers, throws, reports, delivers, nexts, returns, closes_early, settle_phase, step,
  run,
}
use pi_threads.Protocol.TurnStream.Pushes.{until_terminal, fail-IsValid, fail_failed}
use pi_threads.Protocol.TurnStream.Shapes.{Framed, IsFramed}
use pi_threads.Protocol.TurnStream.Frames.{deliver-IsFramed, take_acceptance-IsFramed}

-- The events of a run.
abbrev pub events_of : List Input → List EventBody
events_of [] = []
events_of (delivers event ∷ rest) = event ∷ events_of rest
events_of (_ ∷ rest) = events_of rest

abbrev event_of : Input → List EventBody
event_of (delivers event) = event ∷ []
event_of _ = []

-- The reader does not leave early.
abbrev pub IsGentle : Input → Type 0
IsGentle (returns promise) = ⊥
IsGentle closes_early = ⊥
IsGentle _ = Unit

same-Framed :
    (events : List EventBody) (t t' : TurnStream) (a : Option AcceptedTurn)
    → contents t'.stream ≡ contents t.stream
    → t'.pending ≡ t.pending
    → is_ended t' ≡ is_ended t
    → Framed events t a
    → Framed events t' a
same-Framed events t t' none c p e (c', p', e') = (c ∙ c', p ∙ p', e ∙ e')
same-Framed events t t' (some turn) c p e (c', e') = (c ∙ c', e ∙ e')

idle-IsFramed :
    (events : List EventBody) (t : TurnStream) → IsFramed events t → IsFramed (events ++ []) t
idle-IsFramed events t v = subst (λ es. IsFramed es t) (sym (append-nil events)) v

split_lem :
    (input : Input) (rest : List Input)
    → events_of (input ∷ rest) ≡ event_of input ++ events_of rest
split_lem (delivers event) rest = refl
split_lem (resolves thread) rest = refl
split_lem subscribes rest = refl
split_lem (answers turn) rest = refl
split_lem (throws e) rest = refl
split_lem (reports e) rest = refl
split_lem (nexts p) rest = refl
split_lem (returns p) rest = refl
split_lem closes_early rest = refl

module _ (event_bytes : EventBody → ℕ) (frame_bytes : TurnFrame → ℕ) where
  next_failure :
      (s : BufferedStream TurnFrame) (p : ℕ) → (next frame_bytes none s p).failure ≡ s.failure
  unfolding next
  next_failure s p = ground arith

  next_ended : (s : BufferedStream TurnFrame) (p : ℕ) → (next frame_bytes none s p).ended ≡ s.ended
  unfolding next
  next_ended s p = ground arith

  next-IsFramed :
      (events : List EventBody) (t : TurnStream) (p : ℕ)
      → IsFramed events t
      → IsFramed events (with_stream t (next frame_bytes none t.stream p))
  unfolding stream_step
  next-IsFramed events t p v =
      let s' = next frame_bytes none t.stream p in
      let o = next_ended t.stream p in
      record {
        valid = step-IsValid frame_bytes none t.stream (stream_nexts p) v.valid;
        waiting = v.waiting;
        framed = λ f.
            same-Framed events t (with_stream t s') t.accepted
              (step-contents frame_bytes none t.stream (stream_nexts p) v.valid tt f
                ∙ append-nil (contents t.stream))
              (ground arith) o (v.framed (sym (next_failure t.stream p) ∙ f));
      }

  fail_ended :
      (s : BufferedStream TurnFrame) (e : Thrown) → s.ended ≡ true → fail frame_bytes none s e ≡ s
  unfolding fail
  fail_ended s e h =
      ap
        (λ b.
          if b
          then s
          else settle frame_bytes none
              (record s { failure = some e; queue = []; bytes = 0; ended = true }))
        h

  fail-IsFramed :
      (events : List EventBody) (t : TurnStream) (e : Thrown)
      → IsFramed events t
      → IsFramed events (fail_stream event_bytes frame_bytes t e)
  fail-IsFramed events t e v = record {
    valid = fail-IsValid frame_bytes t.stream e v.valid;
    waiting = v.waiting;
    framed = λ f.
        let (o, k) = fail_failed frame_bytes t.stream e f in
        let same = fail_ended t.stream e o in
        same-Framed events t (fail_stream event_bytes frame_bytes t e) t.accepted (ap contents same)
          (ground arith) (ap (λ s. s.ended) same) (v.framed k);
  }

  -- The body goes on while the turn is not accepted.
  move-IsFramed :
      (events : List EventBody) (t : TurnStream) (phase : Phase) (thread : Option String) (b : Bool)
      → t.accepted ≡ none
      → IsFramed events t
      → IsFramed events (record t { phase = phase; filter_thread = thread; is_subscribed = b })
  move-IsFramed events t phase thread b a v = record {
    valid = v.valid;
    waiting = inl a;
    framed = λ f.
        same-Framed events t (record t { phase = phase; filter_thread = thread; is_subscribed = b })
          t.accepted refl refl refl (v.framed f);
  }

  unaccepted :
      (t : TurnStream) (phase : Phase)
      → t.phase ≡ phase
      → (phase ≡ over → ⊥)
      → (t.accepted ≡ none) ⊎ (t.phase ≡ over)
      → t.accepted ≡ none
  unaccepted t phase e n (inl a) = a
  unaccepted t phase e n (inr o) = absurd (n (sym e ∙ o))

  phase-IsFramed :
      (events : List EventBody) (t : TurnStream) (phase : Phase) (input : Input)
      → t.phase ≡ phase
      → IsFramed events t
      → IsFramed events (settle_phase event_bytes frame_bytes t phase input)
  phase-IsFramed events t resolving (resolves thread) e v =
      let a = unaccepted t resolving e (λ p. ground arith) v.waiting in
      if_cases (IsFramed events) (is_ended t)
        (λ _. move-IsFramed events t over t.filter_thread t.is_subscribed a v)
        (λ _. move-IsFramed events t subscribing (some thread) t.is_subscribed a v)
  phase-IsFramed events t subscribing subscribes e v =
      let a = unaccepted t subscribing e (λ p. ground arith) v.waiting in
      if_cases (IsFramed events) (is_ended t)
        (λ _. move-IsFramed events t over t.filter_thread t.is_subscribed a v)
        (λ _. move-IsFramed events t requesting t.filter_thread true a v)
  phase-IsFramed events t requesting (answers turn) e v =
      take_acceptance-IsFramed event_bytes frame_bytes events t turn
        (unaccepted t requesting e (λ p. ground arith) v.waiting) v
  phase-IsFramed events t over input e v = v
  phase-IsFramed events t resolving (throws thrown) e v =
      fail-IsFramed events (record t { phase = over }) thrown
        (move-IsFramed events t over t.filter_thread t.is_subscribed
          (unaccepted t resolving e (λ p. ground arith) v.waiting) v)
  phase-IsFramed events t subscribing (throws thrown) e v =
      fail-IsFramed events (record t { phase = over }) thrown
        (move-IsFramed events t over t.filter_thread t.is_subscribed
          (unaccepted t subscribing e (λ p. ground arith) v.waiting) v)
  phase-IsFramed events t requesting (throws thrown) e v =
      fail-IsFramed events (record t { phase = over }) thrown
        (move-IsFramed events t over t.filter_thread t.is_subscribed
          (unaccepted t requesting e (λ p. ground arith) v.waiting) v)
  phase-IsFramed events t phase input e v = v

  step-IsFramed :
      (events : List EventBody) (t : TurnStream) (input : Input)
      → IsGentle input
      → IsFramed events t
      → IsFramed (events ++ event_of input) (step event_bytes frame_bytes t input)
  unfolding step
  step-IsFramed events t (delivers event) g v =
      deliver-IsFramed event_bytes frame_bytes events t event v
  step-IsFramed events t (reports e) g v = idle-IsFramed events _ (fail-IsFramed events t e v)
  step-IsFramed events t (nexts p) g v = idle-IsFramed events _ (next-IsFramed events t p v)
  step-IsFramed events t (returns p) g v = absurd g
  step-IsFramed events t closes_early g v = absurd g
  step-IsFramed events t (resolves thread) g v =
      idle-IsFramed events _ (phase-IsFramed events t t.phase (resolves thread) refl v)
  step-IsFramed events t subscribes g v =
      idle-IsFramed events _ (phase-IsFramed events t t.phase subscribes refl v)
  step-IsFramed events t (answers turn) g v =
      idle-IsFramed events _ (phase-IsFramed events t t.phase (answers turn) refl v)
  step-IsFramed events t (throws e) g v =
      idle-IsFramed events _ (phase-IsFramed events t t.phase (throws e) refl v)

  run-IsFramed :
      (events : List EventBody) (t : TurnStream) (inputs : List Input)
      → All IsGentle inputs
      → IsFramed events t
      → IsFramed (events ++ events_of inputs) (run event_bytes frame_bytes t inputs)
  unfolding run
  run-IsFramed events t [] g v = idle-IsFramed events t v
  run-IsFramed events t (input ∷ rest) (g, gs) v =
      let t' = step event_bytes frame_bytes t input in
      subst (λ es. IsFramed es (run event_bytes frame_bytes t' rest))
        (append_assoc events (event_of input) (events_of rest)
          ∙ ap (λ es. events ++ es) (sym (split_lem input rest)))
        (run-IsFramed (events ++ event_of input) t' rest gs (step-IsFramed events t input g v))

  -- When a stream whose reader stays has accepted its turn and has not failed, its reader has been
  -- given, or has queued, the acceptance and then exactly the turn's events since the stream was
  -- opened, in order and up to the one that ends the turn, whether they came before the acceptance
  -- or after it; and the stream is over if and only if that one has come.
  pub run-frames :
      (t : TurnStream) (inputs : List Input) (turn : AcceptedTurn)
      → IsFramed [] t
      → All IsGentle inputs
      → (run event_bytes frame_bytes t inputs).accepted ≡ some turn
      → (let s = (run event_bytes frame_bytes t inputs).stream in s.failure ≡ none)
      → let s = (run event_bytes frame_bytes t inputs).stream in
        let found = filter (is_accepted turn) (events_of inputs) in
        (contents s ≡ accepted_frame turn ∷ map event_frame (until_terminal found))
        × (s.ended ≡ any is_terminal found)
  run-frames t inputs turn v g a f =
      let r = run event_bytes frame_bytes t inputs in
      subst (Framed (events_of inputs) r) a (let w = run-IsFramed [] t inputs g v in w.framed f)
