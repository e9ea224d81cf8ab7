-- ===== src/Worker/Commands/Serial.antt =====
-- Every accepted command is accounted for, and the process has one ordinary command at a time.
use pi_threads.Base.{
  ℕ, times, ◌+◌, ◌≤◌, ◌≡◌, refl, ap, false, not, List, [], ◌∷◌, ◌++◌, Option, none, some, length,
  if◌then◌else◌, length-append, any, filter, arith, if_cases, ◌==◌, ◌||◌,
}
use pi_threads.Value.{Value, get}
use pi_threads.Protocol.Errors.{DaemonError, Result, err, timeout, worker_crashed}
use pi_threads.Worker.{is_dead, crashed}
use pi_threads.Worker.Commands.Calls.{
  answered, calls_of, pending_calls, times-answered, times-queued, times-pending,
}
use pi_threads.Worker.Commands.{
  checked_command, not_running, is_bypass_command, Command, PendingCommand, PiRpcWorker,
  validate_command, finish, execute_command, command, is_ordinary, is_busy, start_first, start_next,
  Taken, keep, take_pending, settle_taken, respond, write_fails, reject_each, reject_pending,
  time_out_taken, time_out, close, stop, Step, calls, starts, closes, stops, responds, write_failed,
  times_out, input_error, step, run,
}

-- The commands that are neither settled nor lost, and the ordinary ones among those that the process
-- has.
pub record Counts (made answers : List ℕ) (count : ℕ) (queue : List Command)
    (pending : List PendingCommand) : Type 0 where
  pub settled :
      (k : ℕ)
      → times k made ≡ times k answers + times k (calls_of queue) + times k (pending_calls pending)
  pub counted : count ≡ length queue + length pending
  pub serial : length (filter is_ordinary pending) ≤ 1

abbrev pub IsSerial : List ℕ → PiRpcWorker → Type 0
IsSerial made w = Counts made (answered w.answers) w.command_count w.queue w.pending

-- The calls of a step, before those made earlier.
abbrev pub made_by : Step → List ℕ → List ℕ
made_by (calls call body) made = call ∷ made
made_by _ made = made

abbrev pub all_made : List ℕ → List Step → List ℕ
all_made made [] = made
all_made made (s ∷ ss) = all_made (made_by s made) ss

ordinary-snoc :
    (p : PendingCommand) (ps : List PendingCommand)
    → length (filter is_ordinary (ps ++ p ∷ []))
      ≡ length (filter is_ordinary ps) + length (filter is_ordinary (p ∷ []))
ordinary-snoc p [] = omega arith
ordinary-snoc p (x ∷ xs) = let rest = ordinary-snoc p xs in ground arith

none_ordinary :
    (ps : List PendingCommand) → any is_ordinary ps ≡ false → length (filter is_ordinary ps) ≡ 0
none_ordinary [] h = refl
none_ordinary (p ∷ ps) h = ground (arith, none_ordinary ps)

abbrev IsSplit : List PendingCommand → Option Taken → Type 0
IsSplit ps none = Unit
IsSplit ps (some t) =
    (length ps ≡ length t.rest + 1)
    × (length (filter is_ordinary t.rest) ≤ length (filter is_ordinary ps))
    × ((k : ℕ)
        → times k (pending_calls ps)
          ≡ (if t.entry.command.call == k then 1 else 0) + times k (pending_calls t.rest))

keep-IsSplit :
    (p : PendingCommand) (ps : List PendingCommand) (o : Option Taken)
    → IsSplit ps o
    → IsSplit (p ∷ ps) (keep p o)
keep-IsSplit p ps none h = tt
keep-IsSplit p ps (some t) (one, fewer, same) =
    (omega arith, ground arith, λ k. let e = same k in omega arith)

take_pending-IsSplit : (id : ℕ) (ps : List PendingCommand) → IsSplit ps (take_pending id ps)
take_pending-IsSplit id [] = tt
take_pending-IsSplit id (p ∷ ps) =
    if_cases (IsSplit (p ∷ ps)) (p.id == id) (λ _. (omega arith, ground arith, λ k. refl))
      (λ _. keep-IsSplit p ps (take_pending id ps) (take_pending-IsSplit id ps))

settle_taken-IsSerial :
    (made : List ℕ) (w : PiRpcWorker) (r : Result Value) (o : Option Taken)
    → IsSplit w.pending o
    → IsSerial made w
    → IsSerial made (settle_taken w r o)
settle_taken-IsSerial made w r none h v = v
settle_taken-IsSerial made w r (some t) (one, fewer, same) v =
    let counted = v.counted in
    let serial = v.serial in
    record {
      settled = λ k.
          let all = v.settled k in
          let e = same k in
          let told = times-answered k t.entry.command.call r w.answers in omega arith;
      counted = omega arith;
      serial = omega arith;
    }

-- Rejecting some commands takes them off the count.
reject_each-IsSerial :
    (made : List ℕ) (w : PiRpcWorker) (error : DaemonError) (ps : List PendingCommand)
    → w.pending ≡ []
    → w.command_count ≡ length w.queue + length ps
    → ((k : ℕ)
        → times k made
          ≡ times k (answered w.answers) + times k (calls_of w.queue) + times k (pending_calls ps))
    → IsSerial made (reject_each w error ps)
reject_each-IsSerial made w error [] e h all =
    let size = ap length e in
    let no_calls : (k : ℕ) → times k (pending_calls w.pending) ≡ 0 =
      λ k. ap (λ ps. times k (pending_calls ps)) e in
    let none_there : length (filter is_ordinary w.pending) ≡ 0 =
      ap (λ ps. length (filter is_ordinary ps)) e in
    record {
      settled = λ k. let same = all k in let gone = no_calls k in omega arith;
      counted = omega arith;
      serial = omega arith;
    }
reject_each-IsSerial made w error (p ∷ ps) e h all =
    reject_each-IsSerial made (finish w p.command (err error)) error ps e (omega arith) (λ k.
      let same = all k in
      let told = times-answered k p.command.call (err error) w.answers in omega arith)

reject_pending-IsSerial :
    (made : List ℕ) (w : PiRpcWorker) (error : DaemonError)
    → IsSerial made w
    → IsSerial made (reject_pending w error)
unfolding reject_pending
reject_pending-IsSerial made w error v =
    reject_each-IsSerial made (record w { pending = [] }) error w.pending refl v.counted v.settled

-- A command starts: it was counted, and if it is ordinary no other is with the process.
execute_command-IsSerial :
    (made : List ℕ) (w : PiRpcWorker) (c : Command)
    → w.command_count ≡ length w.queue + length w.pending + 1
    → ((k : ℕ)
        → times k made
          ≡ times k (answered w.answers)
            + times k (calls_of w.queue)
            + times k (pending_calls w.pending)
            + (if c.call == k then 1 else 0))
    → length (filter is_ordinary w.pending)
        + length (filter is_ordinary (record { id = w.next_command_id; command = c } ∷ []))
      ≤ 1
    → IsSerial made (execute_command w c)
unfolding execute_command
execute_command-IsSerial made w c h all s =
    let snoc = ordinary-snoc (record { id = w.next_command_id; command = c }) w.pending in
    let longer = length-append w.pending (record { id = w.next_command_id; command = c } ∷ []) in
    if_cases (IsSerial made) (not w.has_child || is_dead w.state)
      (λ _. record {
        settled = λ k.
            let same = all k in
            let told = times-answered k c.call (err not_running) w.answers in omega arith;
        counted = omega arith;
        serial = omega arith;
      })
      (λ _. record {
        settled = λ k.
            let same = all k in
            let sent = times-pending k (record { id = w.next_command_id; command = c }) w.pending in
            omega arith;
        counted = omega arith;
        serial = omega arith;
      })

command-IsSerial :
    (made : List ℕ) (w : PiRpcWorker) (call : ℕ) (body : Value)
    → IsSerial made w
    → IsSerial (call ∷ made) (command w call body)
unfolding command
command-IsSerial made w call body v = checked (validate_command body)
  where
    checked : (o : Option DaemonError) → IsSerial (call ∷ made) (checked_command w call body o)
    checked (some error) = record {
      settled = λ k.
          let same = v.settled k in
          let told = times-answered k call (err error) w.answers in omega arith;
      counted = v.counted;
      serial = v.serial;
    }
    checked none =
        let c : Command = record {
          call = call;
          bypass = is_bypass_command (get "type" body);
          body = body;
        } in
        let counted = v.counted in
        let serial = v.serial in
        let longer = length-append w.queue (c ∷ []) in
        if_cases (IsSerial (call ∷ made)) c.bypass
          (λ bypass.
            execute_command-IsSerial (call ∷ made)
              (record w { command_count = w.command_count + 1 }) c (omega arith)
              (λ k. let same = v.settled k in omega arith) (ground arith))
          (λ _. record {
            settled =
                λ k. let same = v.settled k in let kept = times-queued k c w.queue in omega arith;
            counted = omega arith;
            serial = omega arith;
          })

start_first-IsSerial :
    (made : List ℕ) (w : PiRpcWorker) (queue : List Command)
    → w.queue ≡ queue
    → is_busy w ≡ false
    → IsSerial made w
    → IsSerial made (start_first w queue)
start_first-IsSerial made w [] e idle v = v
start_first-IsSerial made w (c ∷ rest) e idle v =
    let counted = v.counted in
    let none_there = none_ordinary w.pending idle in
    let shorter = ap length e in
    let same : (k : ℕ) → times k (calls_of w.queue) ≡ times k (calls_of (c ∷ rest)) =
      λ k. ap (λ cs. times k (calls_of cs)) e in
    execute_command-IsSerial made (record w { queue = rest }) c (omega arith)
      (λ k. let all = v.settled k in let first = same k in omega arith) (ground arith)

time_out_taken-IsSerial :
    (made : List ℕ) (w : PiRpcWorker) (o : Option Taken)
    → IsSplit w.pending o
    → IsSerial made w
    → IsSerial made (time_out_taken w o)
time_out_taken-IsSerial made w none h v = v
time_out_taken-IsSerial made w (some t) h v =
    reject_pending-IsSerial made (record (settle_taken w timed_out (some t)) { state = crashed })
      (record { code = worker_crashed; message = "Pi RPC worker timed out" })
      (settle_taken-IsSerial made w timed_out (some t) h v)
  where
    timed_out : Result Value
    timed_out = err (record { code = timeout; message = "Pi RPC command timed out" })

stop-IsSerial : (made : List ℕ) (w : PiRpcWorker) → IsSerial made w → IsSerial made (stop w)
unfolding stop
stop-IsSerial made w v = ground arith

step-IsSerial :
    (made : List ℕ) (w : PiRpcWorker) (s : Step)
    → IsSerial made w
    → IsSerial (made_by s made) (step w s)
unfolding step start_next close stop respond write_fails time_out
step-IsSerial made w (calls call body) v = command-IsSerial made w call body v
step-IsSerial made w starts v =
    if_cases (IsSerial made) (is_busy w) (λ _. v)
      (λ idle. start_first-IsSerial made w w.queue refl idle v)
step-IsSerial made w closes v = reject_pending-IsSerial made _ _ v
step-IsSerial made w stops v = stop-IsSerial made w v
step-IsSerial made w (responds id response) v =
    settle_taken-IsSerial made w _ _ (take_pending-IsSplit id w.pending) v
step-IsSerial made w (write_failed id) v =
    settle_taken-IsSerial made w _ _ (take_pending-IsSplit id w.pending) v
step-IsSerial made w (times_out id) v =
    time_out_taken-IsSerial made w (take_pending id w.pending) (take_pending-IsSplit id w.pending) v
step-IsSerial made w (input_error message) v = reject_pending-IsSerial made _ _ v

-- Whatever is called and whatever the process and the timers do, in any order, each call that was
-- made is answered, waits in the queue or is with the process, exactly one of these and once;
-- `commandCount` is the number of those that wait or are with the process, and the process has at
-- most one command that does not bypass the queue.
pub run-IsSerial :
    (made : List ℕ) (w : PiRpcWorker) (ss : List Step)
    → IsSerial made w
    → IsSerial (all_made made ss) (run w ss)
unfolding run
run-IsSerial made w [] v = v
run-IsSerial made w (s ∷ ss) v =
    run-IsSerial (made_by s made) (step w s) ss (step-IsSerial made w s v)
