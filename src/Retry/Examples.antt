-- ===== src/Retry/Examples.antt =====
-- The theorems on retries at concrete values.
use ofelia.Common.{ℕ, ◌+◌, ◌≡◌, refl, true, none, some, Option, [], pos, leb, if◌then◌else◌}
use ofelia.Job.{GoError, other, Exit, returned}
use ofelia.Retry.{RetryConfig, execute_with_retry}
use ofelia.Retry.Attempts.{Stops, execute_with_retry-Stops}

abbrev patient : RetryConfig
patient = record {
  max_retries = pos 3;
  retry_delay_ms = 1000;
  retry_exponential = true;
  retry_max_delay_ms = 60000;
}

-- A function that counts its runs and succeeds at the third.
abbrev third_time : ℕ → ℕ × Exit
third_time n = (n + 1, returned (if leb 2 n then none else some (other "exit status 1")))

abbrev never : ℕ → Option GoError
never _ = none

execute_with_retry-Stops_example :
    (k : ℕ) × Stops
      (pos 0)
      third_time
      never
      patient
      true
      3
      0
      k
      0
      []
      (execute_with_retry (pos 0) third_time never patient true 0)
execute_with_retry-Stops_example =
    execute_with_retry-Stops (pos 0) third_time never patient true 2 0 refl

three_runs : (execute_with_retry (pos 0) third_time never patient true 0).state ≡ 3
unfolding execute_with_retry
three_runs = refl
