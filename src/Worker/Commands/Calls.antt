-- ===== src/Worker/Commands/Calls.antt =====
-- The calls of `command` that are answered, wait or are with the process, and how often each is there.
use pi_threads.Base.{ℕ, times, ◌+◌, ◌≡◌, List, [], ◌∷◌, ◌++◌, if◌then◌else◌, ◌==◌, arith}
use pi_threads.Value.{Value}
use pi_threads.Protocol.Errors.{Result}
use pi_threads.Worker.Commands.{Command, PendingCommand}

abbrev pub answered : List (ℕ × Result Value) → List ℕ
answered [] = []
answered ((call, r) ∷ rest) = call ∷ answered rest

abbrev pub calls_of : List Command → List ℕ
calls_of [] = []
calls_of (c ∷ cs) = c.call ∷ calls_of cs

abbrev pub pending_calls : List PendingCommand → List ℕ
pending_calls [] = []
pending_calls (p ∷ ps) = p.command.call ∷ pending_calls ps

pub times-answered :
    (k call : ℕ) (r : Result Value) (xs : List (ℕ × Result Value))
    → times k (answered (xs ++ (call, r) ∷ []))
      ≡ times k (answered xs) + (if call == k then 1 else 0)
times-answered k call r [] = omega arith
times-answered k call r ((c, q) ∷ xs) = let h = times-answered k call r xs in omega arith

pub times-queued :
    (k : ℕ) (c : Command) (cs : List Command)
    → times k (calls_of (cs ++ c ∷ [])) ≡ times k (calls_of cs) + (if c.call == k then 1 else 0)
times-queued k c [] = omega arith
times-queued k c (x ∷ xs) = let h = times-queued k c xs in omega arith

pub times-pending :
    (k : ℕ) (p : PendingCommand) (ps : List PendingCommand)
    → times k (pending_calls (ps ++ p ∷ []))
      ≡ times k (pending_calls ps) + (if p.command.call == k then 1 else 0)
times-pending k p [] = omega arith
times-pending k p (x ∷ xs) = let h = times-pending k p xs in omega arith
