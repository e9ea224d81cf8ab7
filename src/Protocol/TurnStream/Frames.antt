-- ===== src/Protocol/TurnStream/Frames.antt =====
-- What the reader of a turn stream gets: the acceptance of the turn and then its events.
use mathlib.Core.List.{append_assoc, append-nil}
use pi_threads.Base.{
  ℕ, ◌+◌, ◌≡◌, refl, sym, ap, ◌∙◌, subst, inr, true, false, not, ◌&&◌, List, [], ◌∷◌, ◌++◌, Option,
  none, some, filter, arith, if◌then◌else◌, if_cases, ltb,
}
use pi_threads.Protocol.Errors.{Thrown}
use pi_threads.Protocol.Events.{EventBody}
use pi_threads.Protocol.Stream.{BufferedStream, push}
use pi_threads.Protocol.TurnStream.{
  AcceptedTurn, TurnFrame, accepted_frame, over, TurnStream, is_ended, is_accepted, with_stream,
  hold, deliver_to, deliver, deliver_all, take_acceptance,
}
use pi_threads.Protocol.TurnStream.Pushes.{
  filter-append, push-IsValid, fail-IsValid, push-contents, push_open, fail_failed,
}
use pi_threads.Protocol.TurnStream.Shapes.{
  open_failure, Shape, Framed, IsFramed, done_lem, expose-IsFramed,
}

module _ (event_bytes : EventBody → ℕ) (frame_bytes : TurnFrame → ℕ) where
  hold-IsFramed :
      (events : List EventBody) (t : TurnStream) (e : EventBody)
      → t.accepted ≡ none
      → is_ended t ≡ false
      → IsFramed events t
      → IsFramed (events ++ e ∷ []) (hold event_bytes frame_bytes t e)
  hold-IsFramed events t e a h v =
      if_cases (IsFramed (events ++ e ∷ [])) (ltb t.limit (t.pending_bytes + event_bytes e))
        (λ _. record {
          valid = fail-IsValid frame_bytes t.stream _ v.valid;
          waiting = v.waiting;
          framed =
              λ f. let (ended, _) = fail_failed frame_bytes t.stream _ f in absurd (ground arith);
        })
        (λ _. record {
          valid = v.valid;
          waiting = v.waiting;
          framed = λ f.
              let (c, p, o) = subst (Framed events t) a (v.framed f) in
              let t' = record t {
                pending_bytes = t.pending_bytes + event_bytes e;
                pending = t.pending ++ e ∷ [];
              } in
              subst (Framed (events ++ e ∷ []) t') (sym a) (c, ap (λ es. es ++ e ∷ []) p, o);
        })

  ended-Framed :
      (events xs : List EventBody) (t : TurnStream) (a : Option AcceptedTurn)
      → is_ended t ≡ true
      → Framed events t a
      → Framed (events ++ xs) t a
  ended-Framed events xs t none h (c, p, o) = absurd (ground arith)
  ended-Framed events xs t (some turn) h (c, d) =
      subst (λ found. Shape found turn t) (sym (filter-append (is_accepted turn) events xs))
        (done_lem (filter (is_accepted turn) events) (filter (is_accepted turn) xs) turn t
          (sym d ∙ h) (c, d))

  pub deliver-IsFramed :
      (events : List EventBody) (t : TurnStream) (e : EventBody)
      → IsFramed events t
      → IsFramed (events ++ e ∷ []) (deliver event_bytes frame_bytes t e)
  unfolding deliver
  deliver-IsFramed events t e v =
      if_cases (IsFramed (events ++ e ∷ [])) (is_ended t)
        (λ h. record {
          valid = v.valid;
          waiting = v.waiting;
          framed = λ f. ended-Framed events (e ∷ []) t t.accepted h (v.framed f);
        })
        (λ h. delivered_to t.accepted refl h)
    where
      delivered_to :
          (a : Option AcceptedTurn)
          → t.accepted ≡ a
          → is_ended t ≡ false
          → IsFramed (events ++ e ∷ []) (deliver_to event_bytes frame_bytes t a e)
      delivered_to none a h = hold-IsFramed events t e a h v
      delivered_to (some turn) a h = expose-IsFramed event_bytes frame_bytes events t turn e a h v

  deliver_all-IsFramed :
      (events xs : List EventBody) (t : TurnStream)
      → IsFramed events t
      → IsFramed (events ++ xs) (deliver_all event_bytes frame_bytes t xs)
  unfolding deliver_all
  deliver_all-IsFramed events [] t v = subst (λ es. IsFramed es t) (sym (append-nil events)) v
  deliver_all-IsFramed events (e ∷ es) t v =
      subst
        (λ all.
          IsFramed all
            (deliver_all event_bytes frame_bytes (deliver event_bytes frame_bytes t e) es))
        (append_assoc events (e ∷ []) es)
        (deliver_all-IsFramed (events ++ e ∷ []) es (deliver event_bytes frame_bytes t e)
          (deliver-IsFramed events t e v))

  deliver-ended :
      (t : TurnStream) (e : EventBody) → is_ended t ≡ true → deliver event_bytes frame_bytes t e ≡ t
  unfolding deliver
  deliver-ended t e h =
      ap (λ b. if b then t else deliver_to event_bytes frame_bytes t t.accepted e) h

  deliver_all-ended :
      (t : TurnStream) (xs : List EventBody)
      → is_ended t ≡ true
      → deliver_all event_bytes frame_bytes t xs ≡ t
  unfolding deliver_all
  deliver_all-ended t [] h = refl
  deliver_all-ended t (e ∷ es) h =
      ap (λ t'. deliver_all event_bytes frame_bytes t' es) (deliver-ended t e h)
      ∙ deliver_all-ended t es h

  pub take_acceptance-IsFramed :
      (events : List EventBody) (t : TurnStream) (turn : AcceptedTurn)
      → t.accepted ≡ none
      → IsFramed events t
      → IsFramed events (take_acceptance event_bytes frame_bytes t turn)
  unfolding take_acceptance
  take_acceptance-IsFramed events t turn a v =
      if_cases (IsFramed events) (is_ended t)
        (λ h. record {
          valid = v.valid;
          waiting = inr refl;
          framed =
              λ f. let (_, _, o) = subst (Framed events t) a (v.framed f) in absurd (ground arith);
        })
        (λ h. exposed h s'.failure refl)
    where
      known : TurnStream
      known = record t { accepted = some turn; phase = over }

      s' : BufferedStream TurnFrame
      s' = push frame_bytes none t.stream (accepted_frame turn)

      x : TurnStream
      x =
          record (with_stream (record t { accepted = some turn; phase = over })
            (push frame_bytes none t.stream (accepted_frame turn))) { pending = [] }

      exposed :
          is_ended t ≡ false
          → (f : Option Thrown) → s'.failure ≡ f
          → (let p = with_stream known s' in
              IsFramed events (deliver_all event_bytes frame_bytes x p.pending))
      exposed h none f =
          let o = push_open frame_bytes t.stream (accepted_frame turn) h f in
          let (c, p, _) = subst (Framed events t) a (v.framed (open_failure t.stream v.valid h)) in
          let k : IsFramed [] x = record {
            valid = push-IsValid frame_bytes t.stream (accepted_frame turn) v.valid;
            waiting = inr refl;
            framed = λ _. (
              push-contents frame_bytes t.stream (accepted_frame turn) v.valid h f
                  ∙ ap (λ fs. fs ++ accepted_frame turn ∷ []) c,
              o,
            );
          } in
          let n = with_stream known s' in
          let same : n.pending ≡ events =
            ap (λ b. if b && not (is_ended t) then [] else t.pending) o ∙ p in
          subst (λ es. IsFramed es (deliver_all event_bytes frame_bytes x n.pending)) same
            (deliver_all-IsFramed [] n.pending x k)
      exposed h (some thrown) f =
          let w = push-IsValid frame_bytes t.stream (accepted_frame turn) v.valid in
          let over = w.failed_empty in
          let n = with_stream known s' in
          subst (IsFramed events) (sym (deliver_all-ended x n.pending (ground arith)))
            (record { valid = w; waiting = inr refl; framed = λ g. absurd (ground arith) })
