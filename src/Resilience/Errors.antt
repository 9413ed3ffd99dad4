-- ===== src/Resilience/Errors.antt =====
-- core/resilient_job.go: which errors `NewResilientJobExecutor` has retried, and what `executeJob` makes
-- of the error of a job.
use Prim.Native.String.{find, len}
use ofelia.Common.{String, Bool, not, ◌||◌, Option, none, some, ltb, concat}
use ofelia.Resilience.{FnEnd, fn_passes, fn_fails}

-- What is looked at of an error: its text, and whether it wraps `context.Canceled` or
-- `ErrSkippedExecution`.
pub record JobError : Type 0 where
  pub text : String
  pub is_canceled : Bool
  pub is_skipped : Bool

-- `strings.Contains(s, part)`, for a part that is not empty.
abbrev pub contains : String → String → Bool
contains s part = ltb (find s part) (len s)

unfoldable pub is_retryable : JobError → Bool
is_retryable err = not (
    err.is_canceled
    || err.is_skipped
    || contains err.text "404"
    || contains err.text "not found"
    || contains err.text "400"
    || contains err.text "invalid")

-- The result of `executeJob`, from the error of the job's `Run`; wrapping keeps what is wrapped.
unfoldable pub execute_result : String → Option JobError → FnEnd JobError
unfolding concat
execute_result name none = fn_passes
execute_result name (some err) = fn_fails (record err {
  text = concat "resilient job " (concat name (concat " execution failed: " err.text));
})
