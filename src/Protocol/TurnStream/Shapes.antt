-- ===== src/Protocol/TurnStream/Shapes.antt =====
-- The frames of a turn after its acceptance.
use mathlib.Core.List.{append-nil}
use pi_threads.Base.{
  ℕ, ◌≡◌, sym, ap, ◌∙◌, subst, ◌⊎◌, true, false, not, List, [], ◌∷◌, ◌++◌, Option, none, some, map,
  filter, any, arith, if_cases,
}
use pi_threads.Protocol.Events.{EventBody}
use pi_threads.Protocol.Stream.{BufferedStream, push}
use pi_threads.Protocol.Stream.Laws.{IsValid}
use pi_threads.Protocol.Stream.Fifo.{contents}
use pi_threads.Protocol.TurnStream.{
  AcceptedTurn, TurnFrame, accepted_frame, event_frame, over, TurnStream, is_ended, is_accepted,
  is_terminal, push_frame, end_stream, expose,
}
use pi_threads.Protocol.TurnStream.Pushes.{
  until_terminal, any-append, filter-append, until-stop, until-go, map-append, push-IsValid,
  finish-IsValid, push-contents, push_open, finish_failure, finish_ended, finish-contents,
}

pub open_failure : (s : BufferedStream TurnFrame) → IsValid s → s.ended ≡ false → s.failure ≡ none
open_failure s v h = let f = v.failed_empty in ground arith

-- The frames of a turn of which these are the events so far.
abbrev pub Shape : List EventBody → AcceptedTurn → TurnStream → Type 0
Shape found turn t =
    (contents t.stream ≡ accepted_frame turn ∷ map event_frame (until_terminal found))
    × (is_ended t ≡ any is_terminal found)

abbrev pub Framed : List EventBody → TurnStream → Option AcceptedTurn → Type 0
Framed events t none = (contents t.stream ≡ []) × (t.pending ≡ events) × (is_ended t ≡ false)
Framed events t (some turn) = Shape (filter (is_accepted turn) events) turn t

pub record IsFramed (events : List EventBody) (t : TurnStream) : Type 0 where
  pub valid : IsValid t.stream
  pub waiting : (t.accepted ≡ none) ⊎ (t.phase ≡ over)
  pub framed : (let s = t.stream in s.failure ≡ none) → Framed events t t.accepted

pub skip_lem :
    (turn : AcceptedTurn) (events : List EventBody) (e : EventBody)
    → is_accepted turn e ≡ false
    → filter (is_accepted turn) (events ++ e ∷ []) ≡ filter (is_accepted turn) events
skip_lem turn events e h =
    let k = filter-append (is_accepted turn) events (e ∷ []) in
    let n = append-nil (filter (is_accepted turn) events) in ground arith

pub take_lem :
    (turn : AcceptedTurn) (events : List EventBody) (e : EventBody)
    → is_accepted turn e ≡ true
    → filter (is_accepted turn) (events ++ e ∷ []) ≡ filter (is_accepted turn) events ++ e ∷ []
take_lem turn events e h = let k = filter-append (is_accepted turn) events (e ∷ []) in ground arith

pub done_lem :
    (found xs : List EventBody) (turn : AcceptedTurn) (t : TurnStream)
    → any is_terminal found ≡ true
    → Shape found turn t
    → Shape (found ++ xs) turn t
done_lem found xs turn t h (c, d) =
    let k = until-stop found xs h in
    let a = any-append is_terminal found xs in
    (c ∙ ap (λ es. accepted_frame turn ∷ map event_frame es) (sym k), ground arith)

module _ (event_bytes : EventBody → ℕ) (frame_bytes : TurnFrame → ℕ) where
  pub grown :
      (found : List EventBody) (turn : AcceptedTurn) (e : EventBody)
      (s s' : BufferedStream TurnFrame)
      → any is_terminal found ≡ false
      → contents s ≡ accepted_frame turn ∷ map event_frame (until_terminal found)
      → contents s' ≡ contents s ++ event_frame e ∷ []
      → contents s' ≡ accepted_frame turn ∷ map event_frame (until_terminal (found ++ e ∷ []))
  grown found turn e s s' h c c' =
      c'
      ∙ ap (λ t. t ++ event_frame e ∷ []) c
      ∙ ap (λ t. accepted_frame turn ∷ t)
          (sym (map-append event_frame (until_terminal found) (e ∷ []))
            ∙ ap (map event_frame) (sym (until-go found e h)))

  pub pushed-Shape :
      (found : List EventBody) (turn : AcceptedTurn) (e : EventBody) (t : TurnStream)
      → is_ended t ≡ false
      → is_terminal e ≡ false
      → IsValid t.stream
      → Shape found turn t
      → (let s = push frame_bytes none t.stream (event_frame e) in s.failure ≡ none)
      → Shape (found ++ e ∷ []) turn (push_frame event_bytes frame_bytes t (event_frame e))
  pushed-Shape found turn e t h plain v (c, d) f =
      let a = any-append is_terminal found (e ∷ []) in
      let o = push_open frame_bytes t.stream (event_frame e) h f in
      (
        grown found turn e t.stream (push frame_bytes none t.stream (event_frame e)) (sym d ∙ h) c
            (push-contents frame_bytes t.stream (event_frame e) v h f),
        ground arith,
      )

  pub ended-Shape :
      (found : List EventBody) (turn : AcceptedTurn) (e : EventBody) (t : TurnStream)
      → is_ended t ≡ false
      → is_terminal e ≡ true
      → IsValid t.stream
      → Shape found turn t
      → (let s = push frame_bytes none t.stream (event_frame e) in s.failure ≡ none)
      → Shape (found ++ e ∷ []) turn (
          end_stream event_bytes frame_bytes (push_frame event_bytes frame_bytes t (event_frame e)))
  ended-Shape found turn e t h last v (c, d) f =
      let s' = push frame_bytes none t.stream (event_frame e) in
      let a = any-append is_terminal found (e ∷ []) in
      let o = finish_ended frame_bytes s' in
      (
        finish-contents frame_bytes s' (push-IsValid frame_bytes t.stream (event_frame e) v) f
            ∙ grown found turn e t.stream s' (sym d ∙ h) c
                (push-contents frame_bytes t.stream (event_frame e) v h f),
        ground arith,
      )

  -- An event of the turn, and one of another turn, after the acceptance.
  pub expose-IsFramed :
      (events : List EventBody) (t : TurnStream) (turn : AcceptedTurn) (e : EventBody)
      → t.accepted ≡ some turn
      → is_ended t ≡ false
      → IsFramed events t
      → IsFramed (events ++ e ∷ []) (expose event_bytes frame_bytes t turn e)
  expose-IsFramed events t turn e a h v =
      if_cases P (not (is_accepted turn e))
        (λ k. record {
          valid = v.valid;
          waiting = v.waiting;
          framed = λ f. re t a (
              subst (λ found. Shape found turn t) (sym (skip_lem turn events e (ground arith)))
                shape);
        })
        (λ k.
          if_cases P (is_terminal e)
            (λ last. record {
              valid =
                  finish-IsValid frame_bytes s'
                    (push-IsValid frame_bytes t.stream (event_frame e) v.valid);
              waiting = v.waiting;
              framed = λ f.
                  re
                    (end_stream event_bytes frame_bytes
                      (push_frame event_bytes frame_bytes t (event_frame e)))
                    a
                    (subst
                      (λ found. Shape found turn (
                        end_stream event_bytes frame_bytes
                          (push_frame event_bytes frame_bytes t (event_frame e))))
                      (sym (take_lem turn events e (ground arith)))
                      (ended-Shape found turn e t h last v.valid shape
                        (sym (finish_failure frame_bytes s') ∙ f)));
            })
            (λ plain. record {
              valid = push-IsValid frame_bytes t.stream (event_frame e) v.valid;
              waiting = v.waiting;
              framed = λ f. re (push_frame event_bytes frame_bytes t (event_frame e)) a (
                  subst
                    (λ found.
                      Shape found turn (push_frame event_bytes frame_bytes t (event_frame e)))
                    (sym (take_lem turn events e (ground arith)))
                    (pushed-Shape found turn e t h plain v.valid shape f));
            }))
    where
      P : TurnStream → Type 0
      P t' = IsFramed (events ++ e ∷ []) t'

      found : List EventBody
      found = filter (is_accepted turn) events

      s' : BufferedStream TurnFrame
      s' = push frame_bytes none t.stream (event_frame e)

      shape : Shape found turn t
      shape = subst (Framed events t) a (v.framed (open_failure t.stream v.valid h))

      re :
          (t' : TurnStream)
          → t'.accepted ≡ some turn
          → Shape (filter (is_accepted turn) (events ++ e ∷ [])) turn t'
          → Framed (events ++ e ∷ []) t' t'.accepted
      re t' a' x = subst (Framed (events ++ e ∷ []) t') (sym a') x
