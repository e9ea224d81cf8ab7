-- ===== src/Protocol/Stream/Tests.antt =====
-- A stream at work.
use pi_threads.Base.{ℕ, ◌≡◌, refl, inl, List, [], ◌∷◌, ◌++◌, none, arith}
use pi_threads.Protocol.Stream.{
  new_stream, Call, pushes, finishes, nexts, step, run, push, next, finish, fail, settle, accept,
  item, done,
}
use pi_threads.Protocol.Stream.Laws.{IsValid, run-IsValid}
use pi_threads.Protocol.Stream.Fifo.{contents, all_accepted, run-contents}

code : Unit {0}
unfolding run step push next finish fail settle accept
code = tt

-- Each value takes as many bytes as it says.
abbrev size : ℕ → ℕ
size n = n

abbrev calls : List (Call ℕ)
calls = nexts 1 ∷ pushes 3 ∷ pushes 4 ∷ finishes ∷ pushes 1 ∷ nexts 2 ∷ nexts 3 ∷ []

answers : (run size none (new_stream 10) calls).settled ≡ (1, item 3) ∷ (2, item 4) ∷ (3, done) ∷ []
unfolding code
answers = refl

new_stream-IsValid : IsValid (new_stream {A = ℕ} 10)
new_stream-IsValid = record {
  counted = refl;
  within = omega arith;
  waits_empty = inl refl;
  failed_empty = inl refl;
  closed_once = refl;
}

run-IsValid_example : IsValid (run size none (new_stream 10) calls)
run-IsValid_example = run-IsValid size none (new_stream 10) calls new_stream-IsValid

run-contents_example :
    contents (run size none (new_stream 10) calls)
    ≡ contents (new_stream 10) ++ all_accepted size none (new_stream 10) calls
unfolding code
run-contents_example =
    run-contents size none (new_stream 10) calls new_stream-IsValid
      (tt, (tt, (tt, (tt, (tt, (tt, (tt, tt))))))) refl
