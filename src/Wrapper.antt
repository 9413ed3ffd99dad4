-- ===== src/Wrapper.antt =====
-- core/scheduler.go, the wrapper that go-cron runs for each job: `runWithCtx`, `start`, `stop` and
-- `boundJobContext`.
pub mod Runs
pub mod Panics
mod Examples
use ofelia.Common.{
  ℕ, ◌*◌, Bool, true, false, not, ◌&&◌, Option, none, some, List, [], ℤ, pos, negsuc, ltb_ℤ,
  is_some, if◌then◌else◌, String,
}
use ofelia.Job.{GoError, Exit, returned, panicked, BareJob, set_last_run}
use ofelia.Execution.{Buffer, Execution, cleanup}
use ofelia.Retry.{Attempted, RetryRecord, get_retry_config, execute_with_retry}
use ofelia.Chain.{Middleware, Context, JobRun, start, stop, next}

-- 24 hours, in nanoseconds.
abbrev pub default_job_max_runtime : ℤ
default_job_max_runtime = pos (24 * 3_600_000_000_000)

-- The first duration if it is positive, and otherwise the second.
abbrev positive_or : ℤ → ℤ → ℤ
positive_or d e = if ltb_ℤ (pos 0) d then d else e

-- The timeout that `boundJobContext` sets. `max_runtime` is what `GetMaxRuntime` returns, if the job
-- has that method.
unfoldable pub bound_job_context : Option ℤ → ℤ → ℤ
bound_job_context none default_max = positive_or default_max default_job_max_runtime
bound_job_context (some max_runtime) default_max =
    positive_or (positive_or max_runtime default_max) default_job_max_runtime

-- What a run leaves: the job, the world, the buffers that are put back into the pool, the call of
-- the completion callback, and the retry metrics.
pub record Ran (W : Type 0) : Type 0 where
  pub job : BareJob Execution
  pub world : W
  pub put : List Buffer
  pub completed : Option (String × Bool)
  pub records : List RetryRecord

-- The parameters are those of the chain and of the retry loop. `metrics` tells whether there is a
-- recorder, and `callback` whether `onJobComplete` is set.
module _ {W : Type 0} (clock : W → ℕ) (job_run : Execution → W → JobRun W) (out_of_range : ℤ)
    (interrupted : ℕ → Option GoError) (metrics callback : Bool) where
  -- `err == nil && !jctx.Execution.Failed`
  abbrev succeeded : Option GoError → Execution → Bool
  succeeded err e = not (is_some err) && not e.failed

  -- After `ExecuteWithRetry`: `stop` with `SetLastRun`, the callback, and the deferred `Cleanup`.
  -- The history holds the pointer to the execution, so it shows what `Cleanup` does to it.
  -- A panic is recovered by the deferred function, after `Cleanup`, and nothing else is done.
  finish : Context W → Exit → List RetryRecord → Ran W
  finish c panicked records = record {
    job = c.job;
    world = c.world;
    put = (cleanup c.execution).1;
    completed = none;
    records = records;
  }
  finish c (returned err) records =
      let c' = stop clock job_run err c in
      let (e, put) = cleanup c'.execution in
      record {
        job = set_last_run e c'.job;
        world = c'.world;
        put = put;
        completed = if callback then some (c'.job.name, succeeded err c'.execution) else none;
        records = records;
      }

  -- `NewContextWithContext`
  unfoldable pub new_context : Execution → BareJob Execution → List (Middleware W) → W → Context W
  new_context e job ms world = record {
    execution = e;
    job = job;
    executed = false;
    rest = ms;
    world = world;
  }

  run_execution : Execution → BareJob Execution → List (Middleware W) → W → Ran W
  unfolding finish new_context
  run_execution e job ms world =
      let c = start clock job_run (new_context e job ms world) in
      let r =
        execute_with_retry out_of_range (next clock job_run) interrupted (get_retry_config job)
          metrics c in
      finish r.state r.result r.records

  -- `fresh` is what `NewExecution` returns, `none` being its error.
  unfoldable pub run_with_ctx :
      Bool → Option Execution → BareJob Execution → List (Middleware W) → W → Ran W
  unfolding run_execution
  run_with_ctx cron_running none job ms world = record {
    job = job;
    world = world;
    put = [];
    completed = none;
    records = [];
  }
  run_with_ctx cron_running (some e) job ms world =
      if cron_running
      then run_execution e job ms world
      else record { job = job; world = world; put = []; completed = none; records = [] }
