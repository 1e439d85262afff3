-- ===== src/Controller.antt =====
-- internal/controller: the reconcilers, and the sinks that the streams of instances feed.
pub mod Outbox
pub mod TeamSink
pub mod Teams
pub mod SessionSink
pub mod SandboxBroker
use aistio.Prelude.{ℕ, ◌*◌, Bool, true, false}

-- `ctrl.Result` with the error: the nanoseconds after which the object is reconciled again, 0 for not
-- before it changes.
pub record Result : Type 0 where
  pub requeue_after : ℕ
  pub error : Bool

abbrev pub settled : Result
settled = record { requeue_after = 0; error = false }

-- `n` seconds.
abbrev pub retry_after : ℕ → Result
retry_after n = record { requeue_after = n * 1000000000; error = false }

abbrev pub failed_with : ℕ → Result
failed_with n = record { requeue_after = n * 1000000000; error = true }
