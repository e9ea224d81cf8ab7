-- ===== src/Protocol/Stream/Fifo.antt =====
-- The stream delivers what was pushed, in order and without loss, until it fails or is closed.
use mathlib.Core.List.{append_assoc, append-nil}
use pi_threads.Base.{
  ℕ, ◌+◌, ◌≡◌, refl, ◌⊎◌, inl, inr, ◌∙◌, ap, sym, Bool, true, false, not, ◌&&◌, List, [], ◌∷◌, ◌++◌,
  Option, none, some, arith, if◌then◌else◌, ltb, All, if_cases,
}
use pi_threads.Protocol.Errors.{Thrown}
use pi_threads.Protocol.Stream.{
  Answer, item, done, rejected, BufferedStream, Call, pushes, finishes, closes_early, fails, nexts,
  returns, finish, fail, accept, overflow, wait_or_reject, shift_or_wait, next_of, release_waiter,
  after_close, push, next, close, return_stream, step, run,
}
use pi_threads.Protocol.Stream.Laws.{IsValid, step-IsValid}

-- The values that the promises of `next` were answered with, and those still queued.
abbrev pub delivered : {A : Type 0} → List (ℕ × Answer A) → List A
delivered [] = []
delivered ((_, item a) ∷ rest) = a ∷ delivered rest
delivered ((_, done) ∷ rest) = delivered rest
delivered ((_, rejected _) ∷ rest) = delivered rest

abbrev pub values : {A : Type 0} → List (A × ℕ) → List A
values [] = []
values ((a, _) ∷ rest) = a ∷ values rest

abbrev pub contents : {A : Type 0} → BufferedStream A → List A
contents s = delivered s.settled ++ values s.queue

delivered-append :
    {A : Type 0} (xs ys : List (ℕ × Answer A)) → delivered (xs ++ ys) ≡ delivered xs ++ delivered ys
delivered-append [] ys = refl
delivered-append ((p, item a) ∷ xs) ys = ap (λ t. a ∷ t) (delivered-append xs ys)
delivered-append ((p, done) ∷ xs) ys = delivered-append xs ys
delivered-append ((p, rejected e) ∷ xs) ys = delivered-append xs ys

values-append : {A : Type 0} (xs ys : List (A × ℕ)) → values (xs ++ ys) ≡ values xs ++ values ys
values-append [] ys = refl
values-append ((a, _) ∷ xs) ys = ap (λ t. a ∷ t) (values-append xs ys)

-- Calls that do not cut the reader off.
abbrev pub IsGentle : {A : Type 0} → Call A → Type 0
IsGentle closes_early = ⊥
IsGentle (returns _) = ⊥
IsGentle _ = Unit

module _ {A : Type 0} (byte_length : A → ℕ) (on_close : Option Thrown) where
  -- What a call adds: a pushed value, unless the stream is over or would exceed its limit.
  abbrev pub accepted : BufferedStream A → Call A → List A
  accepted s (pushes a) =
      if not s.ended && not (ltb s.limit (s.bytes + byte_length a)) then a ∷ [] else []
  accepted s _ = []

  abbrev pub all_accepted : BufferedStream A → List (Call A) → List A
  all_accepted s [] = []
  all_accepted s (c ∷ cs) = accepted s c ++ all_accepted (step byte_length on_close s c) cs

  deliver_to_waiter :
      (s : BufferedStream A) (w : ℕ) (a : A)
      → s.queue ≡ []
      → delivered (s.settled ++ (w, item a) ∷ []) ++ values s.queue ≡ contents s ++ a ∷ []
  deliver_to_waiter s w a e = rw (e, delivered-append s.settled, append-nil, append-nil)

  accept-contents :
      (s : BufferedStream A) (a : A) (w : Option ℕ)
      → (w ≡ none) ⊎ (s.queue ≡ [])
      → contents (accept byte_length on_close s a w) ≡ contents s ++ a ∷ []
  unfolding accept
  accept-contents s a none _ = rw (values-append s.queue, append_assoc) refl
  accept-contents s a (some w) (inl e) = cc
  accept-contents s a (some w) (inr e) = deliver_to_waiter s w a e

  fail-failure :
      (s : BufferedStream A) (e : Thrown)
      → s.ended ≡ false
      → (fail byte_length on_close s e).failure ≡ some e
  unfolding fail
  fail-failure s e open_still = ground arith

  -- The body of `push`, at the answers of its two tests.
  push_at :
      (s : BufferedStream A) (a : A) (over full : Bool)
      → s.ended ≡ over
      → (s.waiter ≡ none) ⊎ (s.queue ≡ [])
      → let q : BufferedStream A =
          if over
          then s
          else if full
          then fail byte_length on_close s overflow
          else accept byte_length on_close s a s.waiter in
        q.failure ≡ none → contents q ≡ contents s ++ (if not over && not full then a ∷ [] else [])
  push_at s a true full e w h = sym (append-nil (contents s))
  push_at s a false true e w h = cc (fail-failure s overflow e)
  push_at s a false false e w h = accept-contents s a s.waiter w

  waiting_empty : (s : BufferedStream A) → IsValid s → (s.waiter ≡ none) ⊎ (s.queue ≡ [])
  waiting_empty s v = ground arith

  quiet :
      (xs : List (ℕ × Answer A)) (p : ℕ) (r : Answer A)
      → delivered ((p, r) ∷ []) ≡ []
      → delivered (xs ++ (p, r) ∷ []) ≡ delivered xs
  quiet xs p r e = delivered-append xs ((p, r) ∷ []) ∙ rw e (append-nil (delivered xs))

  wait-contents :
      (s : BufferedStream A) (p : ℕ) (w : Option ℕ)
      → contents (wait_or_reject byte_length on_close s p w) ≡ contents s
  wait-contents s p none = refl
  wait-contents s p (some _) = ap (λ t. t ++ values s.queue) (quiet s.settled p _ refl)

  shift-contents :
      (s : BufferedStream A) (p : ℕ) (q : List (A × ℕ))
      → s.queue ≡ q
      → contents (shift_or_wait byte_length on_close s p q) ≡ contents s
  shift-contents s p ((a, n) ∷ rest) e = rw (delivered-append s.settled, append_assoc, e) refl
  shift-contents s p [] e =
      if_cases (λ q. contents q ≡ contents s) s.ended
        (λ _. ap (λ t. t ++ values s.queue) (quiet s.settled p done refl))
        (λ _. wait-contents s p s.waiter)

  next-contents :
      (s : BufferedStream A) (p : ℕ) (f : Option Thrown)
      → contents (next_of byte_length on_close s p f) ≡ contents s
  next-contents s p none = shift-contents s p s.queue refl
  next-contents s p (some e) = ap (λ t. t ++ values s.queue) (quiet s.settled p _ refl)

  release-contents :
      (s : BufferedStream A) (w : Option ℕ) (f : Option Thrown)
      → contents (release_waiter byte_length on_close s w f) ≡ contents s
  release-contents s none f = refl
  release-contents s (some w) none = ap (λ t. t ++ values s.queue) (quiet s.settled w done refl)
  release-contents s (some w) (some e) = ap (λ t. t ++ values s.queue) (quiet s.settled w _ refl)

  -- A stream that settles without a failure keeps its queue.
  settle_at :
      (s : BufferedStream A) (thrown : Option Thrown)
      → let q = after_close byte_length on_close s thrown in
        (release_waiter byte_length on_close q q.waiter q.failure).failure ≡ none
        → contents (release_waiter byte_length on_close q q.waiter q.failure) ≡ contents s
  settle_at s none h = release-contents s s.waiter s.failure
  settle_at s (some e) h = ground arith

  finish-contents :
      (s : BufferedStream A)
      → (finish byte_length on_close s).failure ≡ none
      → contents (finish byte_length on_close s) ≡ contents s
  unfolding finish
  finish-contents s h =
      if_cases (λ q. q.failure ≡ none → contents q ≡ contents s) s.ended (λ _ _. refl)
        (λ _. settle_at (record s { ended = true; closes = s.closes + 1 }) on_close) h

  fail-contents :
      (s : BufferedStream A) (e : Thrown)
      → (fail byte_length on_close s e).failure ≡ none
      → contents (fail byte_length on_close s e) ≡ contents s
  unfolding fail
  fail-contents s e h =
      if_cases (λ q. q.failure ≡ none → contents q ≡ contents s) s.ended (λ _ _. refl)
        (λ _ failed. absurd (ground arith)) h

  pub step-contents :
      (s : BufferedStream A) (c : Call A)
      → IsValid s
      → IsGentle c
      → (step byte_length on_close s c).failure ≡ none
      → contents (step byte_length on_close s c) ≡ contents s ++ accepted s c
  unfolding step push next
  step-contents s (pushes a) v g h =
      push_at s a s.ended (ltb s.limit (s.bytes + byte_length a)) refl (waiting_empty s v) h
  step-contents s finishes v g h = finish-contents s h ∙ sym (append-nil (contents s))
  step-contents s closes_early v g h = absurd g
  step-contents s (fails e) v g h = fail-contents s e h ∙ sym (append-nil (contents s))
  step-contents s (nexts p) v g h = next-contents s p s.failure ∙ sym (append-nil (contents s))
  step-contents s (returns p) v g h = absurd g

  pub step-failed :
      (s : BufferedStream A) (c : Call A) (e : Thrown)
      → IsValid s
      → s.failure ≡ some e
      → (step byte_length on_close s c).failure ≡ some e
  unfolding step push next finish close return_stream fail accept
  step-failed s (pushes a) e v h = ground arith
  step-failed s finishes e v h = ground arith
  step-failed s closes_early e v h = ground arith
  step-failed s (fails e') e v h = ground arith
  step-failed s (nexts p) e v h = ground arith
  step-failed s (returns p) e v h = ground arith

  run-failed :
      (s : BufferedStream A) (cs : List (Call A)) (e : Thrown)
      → IsValid s
      → s.failure ≡ some e
      → (run byte_length on_close s cs).failure ≡ some e
  unfolding run
  run-failed s [] e v h = h
  run-failed s (c ∷ cs) e v h =
      run-failed (step byte_length on_close s c) cs e (step-IsValid byte_length on_close s c v)
        (step-failed s c e v h)

  -- As long as a stream neither fails nor is closed by its reader, what its reader was given,
  -- followed by what is queued, is exactly the sequence of the values whose push was accepted: none
  -- is lost, doubled or reordered, whether a promise was waiting for it or not.
  pub run-contents :
      (s : BufferedStream A) (cs : List (Call A))
      → IsValid s
      → All IsGentle cs
      → (run byte_length on_close s cs).failure ≡ none
      → contents (run byte_length on_close s cs) ≡ contents s ++ all_accepted s cs
  unfolding run
  run-contents s [] v g h = sym (append-nil (contents s))
  run-contents s (c ∷ cs) v (g, gs) h =
      let s' = step byte_length on_close s c in
      let v' = step-IsValid byte_length on_close s c v in
      let unfailed : s'.failure ≡ none = not_failed s'.failure refl in
      run-contents s' cs v' gs h
      ∙ ap (λ t. t ++ all_accepted s' cs) (step-contents s c v g unfailed)
      ∙ append_assoc (contents s) (accepted s c) (all_accepted s' cs)
    where
      not_failed :
          (f : Option Thrown)
          → (step byte_length on_close s c).failure ≡ f
          → (step byte_length on_close s c).failure ≡ none
      not_failed none e = e
      not_failed (some thrown) e = cc (
          run-failed (step byte_length on_close s c) cs thrown
            (step-IsValid byte_length on_close s c v) e)
