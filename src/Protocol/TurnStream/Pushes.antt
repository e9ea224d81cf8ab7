-- ===== src/Protocol/TurnStream/Pushes.antt =====
-- Pushing to the stream of a turn and finishing it, and lists of events.
use mathlib.Core.List.{append-nil}
use pi_threads.Base.{
  ℕ, ◌+◌, ◌≡◌, refl, ap, ◌∙◌, Bool, true, false, ◌||◌, List, [], ◌∷◌, ◌++◌, none, map, filter, any,
  arith, if◌then◌else◌, ltb,
}
use pi_threads.Protocol.Errors.{Thrown}
use pi_threads.Protocol.Events.{EventBody}
use pi_threads.Protocol.Stream.{
  BufferedStream, push, finish, fail, settle, accept, step as stream_step, pushes, finishes, fails,
}
use pi_threads.Protocol.Stream.Laws.{IsValid, step-IsValid}
use pi_threads.Protocol.Stream.Fifo.{contents, accepted, step-contents}
use pi_threads.Protocol.TurnStream.{TurnFrame, is_terminal}

-- The events up to the first that ends the turn.
abbrev pub until_terminal : List EventBody → List EventBody
until_terminal [] = []
until_terminal (e ∷ es) = let rest = until_terminal es in if is_terminal e then e ∷ [] else e ∷ rest

pub any-append :
    (p : EventBody → Bool) (xs ys : List EventBody) → any p (xs ++ ys) ≡ (any p xs || any p ys)
any-append p [] ys = refl
any-append p (x ∷ xs) ys = let h = any-append p xs ys in ground arith

pub filter-append :
    (p : EventBody → Bool) (xs ys : List EventBody)
    → filter p (xs ++ ys) ≡ filter p xs ++ filter p ys
filter-append p [] ys = refl
filter-append p (x ∷ xs) ys = let h = filter-append p xs ys in ground arith

pub until-stop :
    (xs ys : List EventBody)
    → any is_terminal xs ≡ true
    → until_terminal (xs ++ ys) ≡ until_terminal xs
until-stop (x ∷ xs) ys h = let k = until-stop xs ys in ground arith
until-stop [] ys h = absurd (ground arith)

pub until-go :
    (xs : List EventBody) (e : EventBody)
    → any is_terminal xs ≡ false
    → until_terminal (xs ++ e ∷ []) ≡ until_terminal xs ++ e ∷ []
until-go [] e h = ground arith
until-go (x ∷ xs) e h = let k = until-go xs e in ground arith

pub map-append :
    (f : EventBody → TurnFrame) (xs ys : List EventBody) → map f (xs ++ ys) ≡ map f xs ++ map f ys
map-append f [] ys = refl
map-append f (x ∷ xs) ys = ap (λ t. f x ∷ t) (map-append f xs ys)

module _ (frame_bytes : TurnFrame → ℕ) where
  pub push-IsValid :
      (s : BufferedStream TurnFrame) (f : TurnFrame)
      → IsValid s
      → IsValid (push frame_bytes none s f)
  unfolding stream_step
  push-IsValid s f v = step-IsValid frame_bytes none s (pushes f) v

  pub finish-IsValid :
      (s : BufferedStream TurnFrame) → IsValid s → IsValid (finish frame_bytes none s)
  unfolding stream_step
  finish-IsValid s v = step-IsValid frame_bytes none s finishes v

  pub fail-IsValid :
      (s : BufferedStream TurnFrame) (thrown : Thrown)
      → IsValid s
      → IsValid (fail frame_bytes none s thrown)
  unfolding stream_step
  fail-IsValid s thrown v = step-IsValid frame_bytes none s (fails thrown) v

  pub push_fits :
      (s : BufferedStream TurnFrame) (f : TurnFrame)
      → s.ended ≡ false
      → (push frame_bytes none s f).failure ≡ none
      → ltb s.limit (s.bytes + frame_bytes f) ≡ false
  unfolding push fail settle accept
  push_fits s f h k = ground arith

  pub push-contents :
      (s : BufferedStream TurnFrame) (f : TurnFrame)
      → IsValid s
      → s.ended ≡ false
      → (push frame_bytes none s f).failure ≡ none
      → contents (push frame_bytes none s f) ≡ contents s ++ f ∷ []
  unfolding stream_step
  push-contents s f v h k =
      let fits = push_fits s f h k in
      let one : accepted frame_bytes none s (pushes f) ≡ f ∷ [] = ground arith in
      step-contents frame_bytes none s (pushes f) v tt k ∙ ap (λ t. contents s ++ t) one

  pub push_open :
      (s : BufferedStream TurnFrame) (f : TurnFrame)
      → s.ended ≡ false
      → (push frame_bytes none s f).failure ≡ none
      → (push frame_bytes none s f).ended ≡ false
  unfolding push fail settle accept
  push_open s f h k = ground arith

  pub finish_failure :
      (s : BufferedStream TurnFrame) → (finish frame_bytes none s).failure ≡ s.failure
  unfolding finish
  finish_failure s = ground arith

  pub finish_ended : (s : BufferedStream TurnFrame) → (finish frame_bytes none s).ended ≡ true
  unfolding finish
  finish_ended s = ground arith

  pub finish-contents :
      (s : BufferedStream TurnFrame)
      → IsValid s
      → s.failure ≡ none
      → contents (finish frame_bytes none s) ≡ contents s
  unfolding stream_step
  finish-contents s v h =
      step-contents frame_bytes none s finishes v tt (finish_failure s ∙ h)
      ∙ append-nil (contents s)

  pub fail_failed :
      (s : BufferedStream TurnFrame) (e : Thrown)
      → (fail frame_bytes none s e).failure ≡ none
      → (s.ended ≡ true) × (s.failure ≡ none)
  unfolding fail settle
  fail_failed s e h = (ground arith, ground arith)
