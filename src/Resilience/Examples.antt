-- ===== src/Resilience/Examples.antt =====
-- The theorems on the token bucket, the retries and the executor at concrete values.
use ofelia.Common.{
  ℕ, ◌+◌, ◌*◌, ◌-◌, ◌≤◌, ◌≡◌, refl, Bool, true, false, some, [], ◌∷◌, pos, pos_part, arith, ltb,
  String, if◌then◌else◌,
}
use ofelia.Resilience.{
  billion, TokenBucket, RetryPolicy, FnEnd, fn_fails, fn_panics, new_resilient_job_executor,
  execute_job,
}
use ofelia.Resilience.Errors.{JobError, is_retryable, execute_result}
use ofelia.Resilience.Bucket.{Take, in_order, last_time}
use ofelia.Resilience.Executor.{
  IsRestored, Request, takes, total_runs, execute_job-IsRestored, total_runs-bounded,
}

abbrev second : ℕ
second = 1000000000

abbrev take_one : ℕ → Take
take_one t = record { count = 1; time = t }

abbrev empty_bucket : TokenBucket
empty_bucket = record { rate = 1; capacity = 10; tokens = 0; last_refill = 0 }

abbrev policy : RetryPolicy String
policy = record {
  max_attempts = pos 3;
  initial_delay = 2;
  max_delay = 60;
  backed_off = λ d. d * 2;
  jittered = λ d. d;
  retryable_errors = λ e. true;
}

-- The first two runs fail, the third panics.
abbrev fn : ℕ → FnEnd String
fn n = if ltb n 3 then fn_fails "timeout" else fn_panics

abbrev uninterrupted : ℕ → Bool
uninterrupted n = false

execute_job-IsRestored_example :
    let rje = new_resilient_job_executor "backup" 0 in
    IsRestored rje.bulkhead (execute_job policy fn uninterrupted 5 90 rje).executor.bulkhead
unfolding new_resilient_job_executor
execute_job-IsRestored_example =
    execute_job-IsRestored policy fn uninterrupted 5 90 (new_resilient_job_executor "backup" 0)
      (omega arith)

abbrev request : ℕ → Request String
request t = record { fn = fn; interrupted = uninterrupted; start = t; finish = t + 60 }

total_runs-bounded_example :
    let qs = request 5 ∷ request second ∷ [] in
    total_runs policy qs (new_resilient_job_executor "backup" 0) * billion
    ≤ pos_part policy.max_attempts * (10 * billion + (last_time 0 (takes qs) - 0))
unfolding in_order takes
total_runs-bounded_example =
    total_runs-bounded policy "backup" 0 (request 5 ∷ request second ∷ []) refl

abbrev timeout : JobError
timeout = record { text = "timeout"; is_canceled = false; is_skipped = false }

abbrev is_retried : FnEnd JobError → Bool
is_retried (fn_fails e) = is_retryable e
is_retried _ = false

-- The same error of a job is retried or not, by the name of the job.
by_name :
    (is_retried (execute_result "backup" (some timeout)) ≡ true)
    × (is_retried (execute_result "sync-404" (some timeout)) ≡ false)
unfolding is_retryable execute_result
by_name = (refl, refl)
