-- ===== src/Protocol/Errors.antt =====
-- src/errors.ts, and the result type of code that may throw a `DaemonError`.
use pi_threads.Base.{String}

pub data ErrorCode : Type 0 where
  invalid_params unauthorized forbidden not_found busy capacity : ErrorCode
  external_writer_detected worker_crashed pi_rpc_error timeout : ErrorCode
  event_history_lost stream_interrupted stream_overflow internal : ErrorCode

-- The structured `data` of an error is left out; clients branch on the code.
pub record DaemonError : Type 0 where
  pub code : ErrorCode
  pub message : String

-- What a `catch` clause may meet: a `DaemonError`, another `Error`, or any other value by its text.
pub data Thrown : Type 0 where
  daemon : DaemonError → Thrown
  error : String → Thrown
  other : String → Thrown

unfoldable pub to_daemon_error : Thrown → DaemonError
to_daemon_error (daemon e) = e
to_daemon_error (error message) = record { code = internal; message = message }
to_daemon_error (other text) = record { code = internal; message = text }

-- What code that may throw a `DaemonError` gives back.
pub data Result {ℓ} (A : Type ℓ) : Type ℓ where
  ok : (value : A) → Result A
  err : (thrown : DaemonError) → Result A

-- `await` and the plain sequence: the first throw ends both.
infixl 5 ◌>>=◌
abbrev pub ◌>>=◌ {ℓ κ} : {A : Type ℓ} {B : Type κ} → Result A → (A → Result B) → Result B
◌>>=◌ first next = elim first [ err thrown ↦ err thrown | ok value ↦ next value ]

abbrev pub throw {ℓ} : {A : Type ℓ} → ErrorCode → String → Result A
throw code message = err (record { code = code; message = message })
