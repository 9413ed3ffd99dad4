-- ===== src/Job.antt =====
-- core/bare_job.go, and the errors that jobs pass on (core/common.go and the `%w` wrapping).
pub mod History
mod Examples
use ofelia.Common.{
  ℕ, suc, ◌+◌, ◌-◌, ◌%◌, ◌^◌, String, Bool, true, false, Option, none, some, List, [], ◌∷◌, ◌++◌, ℤ,
  pos, negsuc, length, drop, ltb, if◌then◌else◌,
}

-- An error value: `ErrSkippedExecution`, any other, or one wrapped by `fmt.Errorf("…: %w", err)`.
pub data GoError : Type 0 where
  skipped_execution : GoError
  other : String → GoError
  wrap : String → GoError → GoError

-- `errors.Is(err, ErrSkippedExecution)`
unfoldable pub is_skipped : GoError → Bool
is_skipped skipped_execution = true
is_skipped (other s) = false
is_skipped (wrap s e) = is_skipped e

-- `fmt.Errorf("…: %w", err)` where the code has tested that `err` is not nil.
abbrev pub wrap_error : String → Option GoError → Option GoError
wrap_error s none = none
wrap_error s (some e) = some (wrap s e)

-- How a call ends: it returns an error or nil, or it panics.
pub data Exit : Type 0 where
  returned : Option GoError → Exit
  panicked : Exit

-- `*Execution` is a pointer that the history shares with the context; the history is read only
-- after the execution has ended, so it holds values of the type `E`.
pub record BareJob (E : Type 0) : Type 0 where
  pub schedule : String
  pub name : String
  pub command : String
  pub run_on_startup : Bool
  pub history_limit : ℤ
  pub max_retries : ℤ
  pub retry_delay_ms : ℕ
  pub retry_exponential : Bool
  pub retry_max_delay_ms : ℕ
  pub dependencies : List String
  pub on_success : List String
  pub on_failure : List String
  pub allow_parallel : Bool
  -- an `int32`, as its bit pattern
  pub running : ℕ
  pub history : List E
  pub last_run : Option E
  pub cron_id : ℕ

module _ {E : Type 0} where
  unfoldable pub notify_start : BareJob E → BareJob E
  notify_start j = record j { running = (j.running + 1) % 2 ^ 32 }

  unfoldable pub notify_stop : BareJob E → BareJob E
  notify_stop j = record j { running = (j.running + 2 ^ 32 - 1) % 2 ^ 32 }

  -- `if j.HistoryLimit > 0 && len(j.history) > j.HistoryLimit`
  unfoldable pub trim_history : ℤ → List E → List E
  trim_history (pos (suc n)) history =
      if ltb (suc n) (length history) then drop (length history - suc n) history else history
  trim_history _ history = history

  unfoldable pub set_last_run : E → BareJob E → BareJob E
  set_last_run e j = record j {
    last_run = some e;
    history = trim_history j.history_limit (j.history ++ e ∷ []);
  }

  -- A copy of the slice.
  abbrev pub get_history : BareJob E → List E
  get_history j = j.history

  abbrev pub set_cron_job_id : ℕ → BareJob E → BareJob E
  set_cron_job_id id j = record j { cron_id = id }
