-- ===== src/Worker/Commands.antt =====
-- src/worker/pi-rpc-worker.ts: the commands of PiRpcWorker, from `command` to the promise that it
-- returns. A call is named by a number; what is written to the process, its responses, its timers and
-- its exit are steps in any order.
pub mod Calls
pub mod Serial
mod Tests
use pi_threads.Base.{
  ℕ, ◌+◌, ◌-◌, ◌≡◌, String, Bool, true, false, not, ◌&&◌, ◌||◌, List, [], ◌∷◌, ◌++◌, Option, none,
  some, if◌then◌else◌, ◌==◌, str_eq, length, map, any,
}
use pi_threads.Value.{
  Value, Props, undefined, null, bool, num, str, obj, end, prop, get, is_record, has_prop, text_of,
}
use pi_threads.Protocol.Errors.{
  DaemonError, Result, ok, err, invalid_params, worker_crashed, pi_rpc_error, timeout,
}
use pi_threads.Worker.{WorkerProcessState, stopped, crashed, idle, is_dead, starting}

-- A call of `command` that is accepted: whether it bypasses the queue.
pub record Command : Type 0 where
  pub call : ℕ
  pub bypass : Bool
  pub body : Value

-- An entry of the map `pending`, by the number in its id `rpc_<n>`.
pub record PendingCommand : Type 0 where
  pub id : ℕ
  pub command : Command

-- `queue` has the calls that wait in `commandQueue`; `has_child` tells that a process was spawned;
-- `written` is what the process was sent, `answers` how the promises of calls were settled.
pub record PiRpcWorker : Type 0 where
  pub state : WorkerProcessState
  pub has_child : Bool
  pub command_count : ℕ
  pub next_command_id : ℕ
  pub queue : List Command
  pub pending : List PendingCommand
  pub written : List (ℕ × Value)
  pub answers : List (ℕ × Result Value)

unfoldable pub validate_command : Value → Option DaemonError
validate_command command =
    if not (is_record command) || is_no_text (get "type" command)
    then some
        (record { code = invalid_params; message = "Pi RPC command must be an object with a type" })
    else if has_prop "id" command
    then some
        (record { code = invalid_params; message = "Pi RPC command id is assigned by pi-threads" })
    else none
  where
    is_no_text : Value → Bool
    is_no_text (str s) = str_eq s ""
    is_no_text _ = true

abbrev pub is_bypass_command : Value → Bool
is_bypass_command (str s) = str_eq s "abort" || str_eq s "abort_bash"
is_bypass_command _ = false

abbrev pub not_running : DaemonError
not_running = record { code = worker_crashed; message = "Worker is not running" }

abbrev settle_call : PiRpcWorker → ℕ → Result Value → PiRpcWorker
settle_call w call r = record w { answers = w.answers ++ (call, r) ∷ [] }

-- The `finally` of `command`.
abbrev pub finish : PiRpcWorker → Command → Result Value → PiRpcWorker
finish w c r = record (settle_call w c.call r) { command_count = w.command_count - 1 }

-- `executeCommand` up to its wait.
unfoldable pub execute_command : PiRpcWorker → Command → PiRpcWorker
execute_command w c =
    if not w.has_child || is_dead w.state then finish w c (err not_running) else record w {
      next_command_id = w.next_command_id + 1;
      pending = w.pending ++ record { id = w.next_command_id; command = c } ∷ [];
      written = w.written ++ (w.next_command_id, c.body) ∷ [];
    }

abbrev accept_command : PiRpcWorker → Command → PiRpcWorker
accept_command w c =
    if c.bypass then execute_command w c else record w { queue = w.queue ++ c ∷ [] }

abbrev pub checked_command : PiRpcWorker → ℕ → Value → Option DaemonError → PiRpcWorker
checked_command w call body (some error) = settle_call w call (err error)
checked_command w call body none =
    accept_command (record w { command_count = w.command_count + 1 })
      (record { call = call; bypass = is_bypass_command (get "type" body); body = body })

unfoldable pub command : PiRpcWorker → ℕ → Value → PiRpcWorker
command w call body = checked_command w call body (validate_command body)

abbrev pub is_ordinary : PendingCommand → Bool
is_ordinary p = not p.command.bypass

abbrev pub is_busy : PiRpcWorker → Bool
is_busy w = any is_ordinary w.pending

abbrev pub start_first : PiRpcWorker → List Command → PiRpcWorker
start_first w [] = w
start_first w (c ∷ rest) = execute_command (record w { queue = rest }) c

-- The promise `commandQueue` settles: the next task starts when the one before has settled.
unfoldable pub start_next : PiRpcWorker → PiRpcWorker
start_next w = if is_busy w then w else start_first w w.queue

-- `pending.get(id)` with `pending.delete(id)`; the ids of the map are different.
pub record Taken : Type 0 where
  pub entry : PendingCommand
  pub rest : List PendingCommand

abbrev pub keep : PendingCommand → Option Taken → Option Taken
keep p none = none
keep p (some t) = some (record { entry = t.entry; rest = p ∷ t.rest })

abbrev pub take_pending : ℕ → List PendingCommand → Option Taken
take_pending id [] = none
take_pending id (p ∷ ps) =
    if p.id == id then some (record { entry = p; rest = ps }) else keep p (take_pending id ps)

abbrev is_truthy_value : Value → Bool
is_truthy_value undefined = false
is_truthy_value null = false
is_truthy_value (bool b) = b
is_truthy_value (num n) = not (n == 0)
is_truthy_value (str s) = not (str_eq s "")
is_truthy_value _ = true

abbrev text_or : Option String → String → String
text_or none d = d
text_or (some s) d = s

-- `executeCommand` after its wait.
abbrev pub result_of : Value → Result Value
result_of response =
    if is_truthy_value (get "success" response)
    then ok response
    else err (record {
      code = pi_rpc_error;
      message = text_or (text_of (get "error" response)) "Pi RPC command failed";
    })

abbrev pub settle_taken : PiRpcWorker → Result Value → Option Taken → PiRpcWorker
settle_taken w r none = w
settle_taken w r (some t) = finish (record w { pending = t.rest }) t.entry.command r

-- A response of the process, as `handleStdout` gives it to a pending command.
unfoldable pub respond : PiRpcWorker → ℕ → Value → PiRpcWorker
respond w id response = settle_taken w (result_of response) (take_pending id w.pending)

unfoldable pub write_fails : PiRpcWorker → ℕ → PiRpcWorker
write_fails w id =
    settle_taken w
      (err (record { code = worker_crashed; message = "Unable to write Pi RPC command" }))
      (take_pending id w.pending)

abbrev pub reject_each : PiRpcWorker → DaemonError → List PendingCommand → PiRpcWorker
reject_each w error [] = w
reject_each w error (p ∷ ps) = reject_each (finish w p.command (err error)) error ps

unfoldable pub reject_pending : PiRpcWorker → DaemonError → PiRpcWorker
reject_pending w error = reject_each (record w { pending = [] }) error w.pending

-- The timer of a command, which is cleared when the command settles.
abbrev pub time_out_taken : PiRpcWorker → Option Taken → PiRpcWorker
time_out_taken w none = w
time_out_taken w (some t) =
    reject_pending
      (record (settle_taken w
        (err (record { code = timeout; message = "Pi RPC command timed out" })) (some t)) {
          state = crashed;
        })
      (record { code = worker_crashed; message = "Pi RPC worker timed out" })

unfoldable pub time_out : PiRpcWorker → ℕ → PiRpcWorker
time_out w id = time_out_taken w (take_pending id w.pending)

abbrev pub closed_state : WorkerProcessState → WorkerProcessState
closed_state stopped = stopped
closed_state _ = crashed

-- The handler of `close`.
unfoldable pub close : PiRpcWorker → PiRpcWorker
close w =
    reject_pending (record w { state = closed_state w.state })
      (record { code = worker_crashed; message = "Pi RPC worker exited" })

-- `stop`, up to its wait.
unfoldable pub stop : PiRpcWorker → PiRpcWorker
stop w = if not w.has_child || is_stopped_state w.state then w else record w { state = stopped }
  where
    is_stopped_state : WorkerProcessState → Bool
    is_stopped_state stopped = true
    is_stopped_state _ = false

pub data Step : Type 0 where
  calls : ℕ → Value → Step
  starts closes stops : Step
  responds : ℕ → Value → Step
  write_failed times_out : ℕ → Step
  input_error : String → Step

unfoldable pub step : PiRpcWorker → Step → PiRpcWorker
step w (calls call body) = command w call body
step w starts = start_next w
step w closes = close w
step w stops = stop w
step w (responds id response) = respond w id response
step w (write_failed id) = write_fails w id
step w (times_out id) = time_out w id
step w (input_error message) =
    reject_pending w (record { code = worker_crashed; message = message })

unfoldable pub run : PiRpcWorker → List Step → PiRpcWorker
run w [] = w
run w (s ∷ ss) = run (step w s) ss
