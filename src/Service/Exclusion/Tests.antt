-- ===== src/Service/Exclusion/Tests.antt =====
-- A call that sends and one that changes the same thread, at once, and the theorems about them.
use pi_threads.Base.{
  ℕ, ◌+◌, ◌≤◌, ◌≡◌, refl, String, true, false, not, ◌&&◌, List, [], ◌∷◌, none, ◌==◌, if◌then◌else◌,
}
use pi_threads.Value.{Value, undefined, str, obj, prop, end}
use pi_threads.Protocol.Errors.{DaemonError, busy}
use pi_threads.Pool.State.{WorkerPoolOptions, Env, new_pool}
use pi_threads.Pool.Reserve.{find_by_thread, assert_running}
use pi_threads.Pool.Acquire.{
  begin_session, begin_found, select_worker, select_found, make_room, choose_victim, evict,
  fail_select, spawn, fail_spawn,
}
use pi_threads.Pool.Machine.{run_next, begin_job}
use pi_threads.Pool.Inputs.{lock_passes, step as pool_step}
use pi_threads.Service.Turns.{is_some, reserve_turn, begin_mutation}
use pi_threads.Service.Calls.{Session, Call, Service, start_configuring}
use pi_threads.Service.Send.{accept_start, admit_send, fail_send, acquire_session_worker}
use pi_threads.Service.Mutation.{admit_mutation}
use pi_threads.Service.Machine.{
  Input, passes, resolves, checks_out, answers, calls_send, calls_mutation, settles, pool_moves,
  resume, step, run,
}
use pi_threads.Service.Exclusion.{sends, changes, reserved}
use pi_threads.Service.Exclusion.Runs.{run-apart, run-unheld}

abbrev two_workers : WorkerPoolOptions
two_workers = record {
  min_workers = 0;
  max_workers = 2;
  idle_ttl_ms = 100;
  reuse_across_threads = true;
  prewarm_cwd = "/home";
}

abbrev env : Env
env = record { now = 1; can_reclaim = λ _. true }

abbrev name_of : ℕ → String
name_of n = if n == 0 then "t0" else "t1"

abbrev text_of : Value → String
text_of (str s) = s
text_of _ = "undefined"

-- A call of threadStart whose worker is configured.
abbrev starting : Call
starting = record { id = 5; wait = start_configuring "/b" true 1 }

abbrev quiet : Service
quiet = record {
  turns = record {
    active_turns = λ _. none;
    session_mutations = λ _. false;
    shutting_down = false;
    emitted = [];
  };
  pool = new_pool;
  calls = starting ∷ [];
  next_turn = 0;
  prompts = [];
  promptless = [];
  answers = [];
}

abbrev saved : Session
saved = record { id = "a"; cwd = "/a"; path = "/a.jsonl" }

abbrev lost : DaemonError
lost = record { code = busy; message = "lost" }

-- The worker tells the id of the new session.
abbrev new_session : Value
new_session = obj (prop "sessionId" (str "b") end)

-- The new session is accepted; both calls come to their checks; the change is refused, and the send fails.
history : List (Env × Input)
history =
    (env, settles 5 (answers new_session))
    ∷ (env, calls_send 1 "a")
    ∷ (env, calls_mutation 2 "a")
    ∷ (env, settles 1 passes)
    ∷ (env, settles 2 passes)
    ∷ (env, settles 1 (resolves saved))
    ∷ (env, settles 2 (resolves saved))
    ∷ (env, settles 1 (checks_out (record { changed = none; is_persisted = true })))
    ∷ (env, settles 2 (checks_out (record { changed = none; is_persisted = true })))
    ∷ (env, pool_moves lock_passes)
    ∷ []

-- The pool has no worker for the send, which then gives its reservation back.
failing : List (Env × Input)
failing =
    (env, settles 5 (answers new_session))
    ∷ (env, calls_send 1 "a")
    ∷ (env, settles 1 passes)
    ∷ (env, settles 1 (resolves saved))
    ∷ (env, settles 1 (checks_out (record { changed = none; is_persisted = true })))
    ∷ (env, pool_moves lock_passes)
    ∷ (env, settles 1 passes)
    ∷ []

abbrev no_workers : WorkerPoolOptions
no_workers = record two_workers { max_workers = 0 }

code : Unit {0}
unfolding history run step resume admit_send admit_mutation reserve_turn begin_mutation
    acquire_session_worker find_by_thread pool_step run_next begin_job begin_session begin_found
    select_worker select_found make_room choose_victim evict fail_select spawn fail_spawn
    assert_running fail_send failing accept_start
code = tt

refused_change :
    let q = run name_of text_of undefined two_workers quiet history in
    (sends "a" q.calls ≡ 1) × (changes "a" q.calls ≡ 0)
unfolding code
refused_change = (refl, refl)

run-apart_example :
    let q = run name_of text_of undefined two_workers quiet history in
    let t = q.turns in
    (sends "a" q.calls + changes "a" q.calls ≤ 1)
    × ((is_some (t.active_turns "a") && not (changes "a" q.calls == 0)) ≡ false)
unfolding code
run-apart_example =
    run-apart name_of text_of undefined two_workers quiet history "a"
      (refl, (tt, (tt, (tt, (tt, (tt, (tt, (tt, (tt, (tt, tt))))))))))
      (λ k. record { sent = refl; changed = refl; apart = refl })

run-unheld_example :
    let q = run name_of text_of undefined no_workers quiet failing in
    let t = q.turns in (t.session_mutations "a" ≡ false) × (reserved (t.active_turns "a") ≡ 0)
unfolding code
run-unheld_example =
    run-unheld name_of text_of undefined no_workers quiet failing "a"
      (refl, (tt, (tt, (tt, (tt, (tt, (tt, tt)))))))
      (λ k. record { sent = refl; changed = refl; apart = refl }) refl
