-- ===== src/Service/Mutation.antt =====
-- withSessionMutation of src/service/pi-threads-service.ts, between its awaits.
use pi_threads.Base.{ℕ, String, Option, none, some, or_else}
use pi_threads.Value.{Value, undefined, null, str, obj, prop, end, get}
use pi_threads.Protocol.Errors.{DaemonError, Result, ok, err}
use pi_threads.Protocol.Events.{thread_updated}
use pi_threads.Worker.{running, is_dead}
use pi_threads.Pool.State.{Env}
use pi_threads.Pool.Reserve.{release}
use pi_threads.Service.Turns.{Turns, begin_mutation, end_mutation}
use pi_threads.Service.Calls.{
  Session, mutation_acquiring, mutating, mutation_refreshing, Service, wait_at, answer, emit,
  worker_of, assign,
}
use pi_threads.Service.Send.{Checks, resumable, acquire_session_worker}

abbrev pub marked_mutation :
    Service → ℕ → Session → Option DaemonError → Option DaemonError → Result Turns → Service
marked_mutation q id s _ _ (err error) = answer q id (err error)
marked_mutation q id s (some error) _ (ok t) = answer q id (err error)
marked_mutation q id s none (some error) (ok t) = answer q id (err error)
marked_mutation q id s none none (ok t) =
    let next = acquire_session_worker (record q { turns = t }) id s in
    wait_at next.0 id (mutation_acquiring s next.1)

-- From the tests of the session to the call that gets a worker: the test of `begin_mutation` comes
-- before those of the catalog, its mark after them.
unfoldable pub admit_mutation : Service → ℕ → Session → Checks → Service
admit_mutation q id s checks =
    marked_mutation q id s checks.changed (resumable q checks.is_persisted s.id)
      (begin_mutation q.turns s.id)

-- The worker is there: `mutate` runs.
unfoldable pub begin_mutate : Service → ℕ → Session → ℕ → Service
begin_mutate q id s w =
    wait_at (assign q w (record (worker_of q w) { state = running })) id (mutating s w)

-- The end of the outer `finally`, without a worker and with one.
abbrev pub unmark : Service → String → Service
unmark q thread = record q { turns = end_mutation q.turns thread }

unfoldable pub fail_mutation : Service → ℕ → Session → DaemonError → Service
fail_mutation q id s error = answer (unmark q s.id) id (err error)

unfoldable pub end_mutate : Env → Service → ℕ → Session → ℕ → Result Value → Service
end_mutate env q id s w r =
    let q' = unmark q s.id in answer (record q' { pool = release env q'.pool w none }) id r

abbrev session_or : (Value → String) → Value → String → String
session_or string_of undefined d = d
session_or string_of null d = d
session_or string_of v d = string_of v

-- `mutate` has ended: the state of the worker then decides who refreshes the session.
unfoldable pub begin_refresh : Service → ℕ → Session → ℕ → Result Value → Service
begin_refresh q id s w r = wait_at q id (mutation_refreshing s w (is_dead (worker_of q w).state) r)

-- The inner `try`, for a worker that was not gone.
unfoldable pub refresh_mutated : (Value → String) → Service → Session → ℕ → Value → Service
refresh_mutated string_of q s w state = assign q w (record (worker_of q w) {
  thread_id = some (session_or string_of (get "sessionId" state) s.id);
})

unfoldable pub report_refresh : Service → Session → ℕ → DaemonError → Service
report_refresh q s w error = emit q (record {
  type = thread_updated;
  thread_id = or_else (worker_of q w).thread_id (some s.id);
  turn_id = none;
  worker_id = some w;
  payload =
      obj (prop "internalError" (str error.message) (prop "operation" (str "session.refresh") end));
})
