-- ===== src/Wrapper/Examples.antt =====
-- The theorems on runs under the scheduler at concrete values. The world is a clock that every action
-- moves on.
use ofelia.Common.{
  ℕ, ◌+◌, ◌≡◌, refl, true, false, none, some, Option, List, [], ◌∷◌, pos, arith, map,
}
use ofelia.Job.{GoError, other, returned, panicked, BareJob, notify_start}
use ofelia.Execution.{Execution}
use ofelia.Retry.{execute_with_retry}
use ofelia.Chain.{Middleware, overlap, notifier, JobRun, next}
use ofelia.Chain.Steps.{notify_all}
use ofelia.Wrapper.{run_with_ctx, new_context}
use ofelia.Wrapper.Runs.{retries_idle, begun, over, left, run_with_ctx-returns}
use ofelia.Wrapper.Panics.{last_skipped, run_all, panic_disables}

abbrev clock : ℕ → ℕ
clock n = n

-- A job that takes 5 and fails.
abbrev failing_run : Execution → ℕ → JobRun ℕ
failing_run e n = record {
  world = n + 5;
  output_stream = e.output_stream;
  error_stream = e.error_stream;
  exit = returned (some (other "exit status 1"));
}

-- A job that panics.
abbrev panicking_run : Execution → ℕ → JobRun ℕ
panicking_run e n = record {
  world = n + 5;
  output_stream = e.output_stream;
  error_stream = e.error_stream;
  exit = panicked;
}

abbrev never : ℕ → Option GoError
never _ = none

abbrev backup_job : BareJob Execution
backup_job = record {
  schedule = "@daily";
  name = "backup";
  command = "tar c /data";
  run_on_startup = false;
  history_limit = pos 10;
  max_retries = pos 3;
  retry_delay_ms = 1000;
  retry_exponential = true;
  retry_max_delay_ms = 60000;
  dependencies = [];
  on_success = [];
  on_failure = [];
  allow_parallel = true;
  running = 0;
  history = [];
  last_run = none;
  cron_id = 1;
}

abbrev fresh : Execution
fresh = record {
  id = "f3a01b9c22d0";
  date = none;
  duration = 0;
  is_running = false;
  failed = false;
  skipped = false;
  error = none;
  output_stream = some (record { ident = 1; text = "" });
  error_stream = some (record { ident = 2; text = "" });
  captured_stdout = "";
  captured_stderr = "";
}

abbrev guarded : List (Middleware ℕ)
guarded = overlap true ∷ notifier (λ e n. n + 1) ∷ []

retries_idle_example :
    let c = new_context clock failing_run (pos 0) never true true fresh backup_job guarded 7 in
    execute_with_retry
      (pos 0)
      (next clock failing_run)
      never
      (record {
        max_retries = pos 3;
        retry_delay_ms = 1000;
        retry_exponential = true;
        retry_max_delay_ms = 60000;
      })
      true
      c
    ≡ record {
      state = (next clock failing_run c).0;
      result = (next clock failing_run c).1;
      records = [];
      delays = [];
    }
retries_idle_example =
    retries_idle clock failing_run (pos 0) never true true
      (record {
        max_retries = pos 3;
        retry_delay_ms = 1000;
        retry_exponential = true;
        retry_max_delay_ms = 60000;
      })
      (new_context clock failing_run (pos 0) never true true fresh backup_job guarded 7)

abbrev start_of : (Execution → ℕ → JobRun ℕ) → Execution
start_of run = begun clock run (pos 0) never true true fresh 7

run_with_ctx-returns_example :
    let r = failing_run (start_of failing_run) 7 in
    let e' =
      over clock failing_run
        (pos 0)
        never
        true
        true
        (start_of failing_run)
        r
        (some (other "exit status 1")) in
    run_with_ctx clock failing_run (pos 0) never true true true (some fresh) backup_job guarded 7
    ≡ left clock failing_run (pos 0) never true true backup_job e' (notify_all guarded e' r.world)
unfolding notify_start
run_with_ctx-returns_example =
    run_with_ctx-returns clock failing_run (pos 0) never true true fresh backup_job guarded 7
      (some (other "exit status 1")) (omega arith) refl refl

-- A second run of the job while the first is under way.
abbrev busy_job : BareJob Execution
busy_job = record backup_job { running = 1 }

panic_disables_example :
    let r =
      run_with_ctx clock panicking_run
        (pos 0)
        never
        true
        true
        true
        (some fresh)
        backup_job
        guarded
        7 in
    let later =
      run_all clock panicking_run
        (pos 0)
        never
        true
        true
        guarded
        (fresh ∷ fresh ∷ [])
        r.job
        r.world in
    (map (λ s. last_skipped s.job) later ≡ true ∷ true ∷ [])
    × (map (λ s. s.job.running) later ≡ 1 ∷ 1 ∷ [])
panic_disables_example =
    panic_disables clock panicking_run (pos 0) never true true guarded fresh (fresh ∷ fresh ∷ [])
      backup_job 7 refl refl refl
