-- ===== src/Protocol/Stream/Laws.antt =====
-- The stream keeps to its limit, has a waiter only while it is open and empty, and closes once.
use pi_threads.Base.{
  ℕ, ◌+◌, ◌≤◌, ◌≡◌, ◌⊎◌, true, false, List, [], ◌∷◌, ◌++◌, Option, none, arith, if◌then◌else◌,
}
use pi_threads.Protocol.Errors.{Thrown}
use pi_threads.Protocol.Stream.{
  BufferedStream, Call, pushes, finishes, closes_early, fails, nexts, returns, finish, fail, push,
  next, close, return_stream, step, run,
}

abbrev pub total : {A : Type 0} → List (A × ℕ) → ℕ
total [] = 0
total ((_, n) ∷ rest) = n + total rest

pub record IsValid {A : Type 0} (s : BufferedStream A) : Type 0 where
  pub counted : s.bytes ≡ total s.queue
  pub within : s.bytes ≤ s.limit
  pub waits_empty : (s.waiter ≡ none) ⊎ ((s.queue ≡ []) × (s.ended ≡ false))
  pub failed_empty : (s.failure ≡ none) ⊎ ((s.queue ≡ []) × (s.ended ≡ true))
  pub closed_once : s.closes ≡ (if s.ended then 1 else 0)

total-append :
    {A : Type 0} (xs : List (A × ℕ)) (a : A) (n : ℕ) → total (xs ++ (a, n) ∷ []) ≡ total xs + n
total-append [] a n = omega arith
total-append ((_, m) ∷ xs) a n = omega (arith, total-append xs a n)

module _ {A : Type 0} (byte_length : A → ℕ) (on_close : Option Thrown) where
  finish-IsValid : (s : BufferedStream A) → IsValid s → IsValid (finish byte_length on_close s)
  unfolding finish
  finish-IsValid s v = ground arith

  fail-IsValid :
      (s : BufferedStream A) (e : Thrown) → IsValid s → IsValid (fail byte_length on_close s e)
  unfolding fail
  fail-IsValid s e v = ground arith

  push-IsValid :
      (s : BufferedStream A) (a : A) → IsValid s → IsValid (push byte_length on_close s a)
  unfolding push
  push-IsValid s a v = ground (arith, fail-IsValid s _ v, total-append s.queue a (byte_length a))

  next-IsValid :
      (s : BufferedStream A) (p : ℕ) → IsValid s → IsValid (next byte_length on_close s p)
  unfolding next
  next-IsValid s p v = ground arith

  close-IsValid : (s : BufferedStream A) → IsValid s → IsValid (close byte_length on_close s)
  unfolding close
  close-IsValid s v = ground arith

  pub step-IsValid :
      (s : BufferedStream A) (c : Call A) → IsValid s → IsValid (step byte_length on_close s c)
  unfolding step return_stream
  step-IsValid s (pushes a) v = push-IsValid s a v
  step-IsValid s finishes v = finish-IsValid s v
  step-IsValid s closes_early v = close-IsValid s v
  step-IsValid s (fails e) v = fail-IsValid s e v
  step-IsValid s (nexts p) v = next-IsValid s p v
  step-IsValid s (returns p) v =
      let closed = close-IsValid s v in
      record {
        counted = closed.counted;
        within = closed.within;
        waits_empty = closed.waits_empty;
        failed_empty = closed.failed_empty;
        closed_once = closed.closed_once;
      }

  -- Whatever the order of pushes, reads and closings, a stream holds exactly the bytes that it
  -- counts, never more than its limit; a promise waits only while the stream is open and has nothing
  -- queued; a failed stream is over and has dropped its queue; and `onClose` has been called once if
  -- the stream is over, and otherwise not at all.
  pub run-IsValid :
      (s : BufferedStream A) (cs : List (Call A))
      → IsValid s
      → IsValid (run byte_length on_close s cs)
  unfolding run
  run-IsValid s [] v = v
  run-IsValid s (c ∷ cs) v = run-IsValid (step byte_length on_close s c) cs (step-IsValid s c v)
