-- ===== src/Wrapper/Runs.antt =====
-- What a run under the scheduler does from start to end.
use mathlib.Core.Bool.{not}
use ofelia.Common.{
  ℕ, ◌+◌, ◌-◌, ◌^◌, ◌%◌, ◌<◌, ◌≡◌, refl, Bool, true, false, ◌⊎◌, inl, inr, Option, none, some, List,
  [], arith, ◌∙◌, ap, if◌then◌else◌, ℤ,
}
use ofelia.Job.{
  GoError, wrap_error, skipped_execution, Exit, returned, panicked, BareJob, notify_start,
  notify_stop, set_last_run,
}
use ofelia.Execution
use ofelia.Execution.{Buffer, Execution, cleanup}
use ofelia.Execution.Lifecycle.{stop-flags}
use ofelia.Retry.{RetryConfig, Attempted, execute_with_retry, get_retry_config}
use ofelia.Chain.{Middleware, Context, JobRun, next, start}
use ofelia.Chain.Steps.{next-nil, blocked, notify_all, stop_ended}
use ofelia.Chain.Passes.{next-runs, next-refuses, next-panics}
use ofelia.Wrapper.{Ran, new_context, finish, run_with_ctx}

module _ {S : Type 0} (out_of_range : ℤ) (run : S → S × Exit) (interrupted : ℕ → Option GoError)
    (metrics : Bool) where
  once :
      (config : RetryConfig) (s : S)
      → ((run s).1 ≡ returned none) ⊎ ((run s).1 ≡ panicked)
      → execute_with_retry out_of_range run interrupted config metrics s
        ≡ record { state = (run s).0; result = (run s).1; records = []; delays = [] }
  unfolding execute_with_retry
  once config s (inl e) = ground arith
  once config s (inr e) = ground arith

notify_start-stop :
    {E : Type 0} (j : BareJob E) → j.running < 2 ^ 32 → notify_stop (notify_start j) ≡ j
unfolding notify_start notify_stop
notify_start-stop j h = λ i. record j { running = back i }
  where
    back : ((j.running + 1) % 2 ^ 32 + 2 ^ 32 - 1) % 2 ^ 32 ≡ j.running
    back = omega arith

module _ {W : Type 0} (clock : W → ℕ) (job_run : Execution → W → JobRun W) (out_of_range : ℤ)
    (interrupted : ℕ → Option GoError) (metrics callback : Bool) where
  -- The retry loop around `Next`, as the scheduler calls it, runs it once and records and waits
  -- nothing, whatever retries are configured and whatever the job returns.
  pub retries_idle :
      (config : RetryConfig) (c : Context W)
      → execute_with_retry out_of_range (next clock job_run) interrupted config metrics c ≡ record {
        state = (next clock job_run c).0;
        result = (next clock job_run c).1;
        records = [];
        delays = [];
      }
  retries_idle config c =
      once out_of_range (next clock job_run) interrupted metrics config c (next-nil clock job_run c)

  -- The execution when the job is run, and when the job has returned.
  abbrev pub begun : Execution → W → Execution
  begun e world = Execution.start (clock world) e

  abbrev pub over : Execution → JobRun W → Option GoError → Execution
  over e r err =
      Execution.stop (clock r.world) (wrap_error "job run" err)
        (record e { output_stream = r.output_stream; error_stream = r.error_stream })

  begun-running : (e : Execution) (world : W) → (begun e world).is_running ≡ true
  unfolding Execution.start
  begun-running e world = refl

  -- What the wrapper makes of the context after the one call of `Next`.
  run_execution-once :
      (e : Execution) (job : BareJob Execution) (ms : List (Middleware W)) (world : W)
      (r : Context W × Exit)
      → next clock job_run (
          start clock job_run
            (new_context clock job_run out_of_range interrupted metrics callback e job ms world))
        ≡ r
      → run_with_ctx clock job_run out_of_range interrupted metrics callback true
          (some e)
          job
          ms
          world
        ≡ finish clock job_run out_of_range interrupted metrics callback r.0 r.1 []
  unfolding run_with_ctx
  run_execution-once e job ms world r h =
      ap
        (λ (a : Attempted (Context W)).
          finish clock job_run out_of_range interrupted metrics callback a.state a.result a.records)
        (retries_idle (get_retry_config job) _)
      ∙ ap
          (λ (q : Context W × Exit).
            finish clock job_run out_of_range interrupted metrics callback q.0 q.1 [])
          h

  finish-ended :
      (c : Context W)
      → c.execution.is_running ≡ false
      → finish clock job_run out_of_range interrupted metrics callback c (returned none) []
        ≡ record {
          job = set_last_run (cleanup c.execution).0 c.job;
          world = c.world;
          put = (cleanup c.execution).1;
          completed = if callback then some (c.job.name, not c.execution.failed) else none;
          records = [];
        }
  unfolding finish
  finish-ended c h =
      ap
        (λ (d : Context W).
          let a : Ran W = record {
            job = set_last_run (cleanup d.execution).0 d.job;
            world = d.world;
            put = (cleanup d.execution).1;
            completed = if callback then some (d.job.name, not d.execution.failed) else none;
            records = [];
          } in
          a)
        (stop_ended clock job_run none c h)

  -- What is left once the execution has ended as `e`, with the world `w` after the notifications.
  abbrev pub left : BareJob Execution → Execution → W → Ran W
  left job e w = record {
    job = set_last_run (cleanup e).0 job;
    world = w;
    put = (cleanup e).1;
    completed = if callback then some (job.name, not e.failed) else none;
    records = [];
  }

  -- Under a running scheduler, a run of a job that returns, where no overlap guard applies: the job
  -- is run once, with the started execution; the execution is ended with the job's error and each
  -- notifying middleware called with it; the job's counter of running executions is what it was, the
  -- execution is the last run, and both its buffers go back; the callback learns whether the
  -- execution is not marked as failed. No retry is recorded, whatever retries the job configures.
  pub run_with_ctx-returns :
      (e : Execution) (job : BareJob Execution) (ms : List (Middleware W)) (world : W)
      (err : Option GoError)
      → job.running < 2 ^ 32
      → blocked (notify_start job).running ms ≡ false
      → (job_run (begun e world) world).exit ≡ returned err
      → let r = job_run (begun e world) world in
        let e' = over (begun e world) r err in
        run_with_ctx clock job_run out_of_range interrupted metrics callback true
          (some e)
          job
          ms
          world
        ≡ left job e' (notify_all ms e' r.world)
  unfolding start new_context
  run_with_ctx-returns e job ms world err small free x =
      let r = job_run (begun e world) world in
      let e' = over (begun e world) r err in
      run_execution-once e job ms world _
        (next-runs clock job_run _ err (begun-running e world) x free)
      ∙ finish-ended _ (stop-flags (clock r.world) (wrap_error "job run" err) _).0
      ∙ ap (λ j. left j e' (notify_all ms e' r.world)) (notify_start-stop job small)

  -- Under a running scheduler, where an overlap guard applies: the job is not run, and the execution is
  -- ended as skipped, notified and recorded like any other; the counter of running executions is
  -- what it was.
  pub run_with_ctx-skips :
      (e : Execution) (job : BareJob Execution) (ms : List (Middleware W)) (world : W)
      → job.running < 2 ^ 32
      → blocked (notify_start job).running ms ≡ true
      → let e' = Execution.stop (clock world) (some skipped_execution) (begun e world) in
        run_with_ctx clock job_run out_of_range interrupted metrics callback true
          (some e)
          job
          ms
          world
        ≡ left job e' (notify_all ms e' world)
  unfolding start new_context
  run_with_ctx-skips e job ms world small b =
      let e' = Execution.stop (clock world) (some skipped_execution) (begun e world) in
      run_execution-once e job ms world _ (next-refuses clock job_run _ (begun-running e world) b)
      ∙ finish-ended _ (stop-flags (clock world) (some skipped_execution) _).0
      ∙ ap (λ j. left j e' (notify_all ms e' world)) (notify_start-stop job small)

  -- Under a running scheduler, a run of a job that panics, where no overlap guard applies: the panic
  -- does not get out, and the buffers go back, but nothing is notified or recorded, the callback
  -- is not called, and the job's counter of running executions stays raised by one.
  pub run_with_ctx-panics :
      (e : Execution) (job : BareJob Execution) (ms : List (Middleware W)) (world : W)
      → blocked (notify_start job).running ms ≡ false
      → (job_run (begun e world) world).exit ≡ panicked
      → let r = job_run (begun e world) world in
        let streams = record (begun e world) {
          output_stream = r.output_stream;
          error_stream = r.error_stream;
        } in
        run_with_ctx clock job_run out_of_range interrupted metrics callback true
          (some e)
          job
          ms
          world
        ≡ record {
          job = notify_start job;
          world = r.world;
          put = (cleanup streams).1;
          completed = none;
          records = [];
        }
  unfolding start new_context finish
  run_with_ctx-panics e job ms world free x =
      run_execution-once e job ms world _
        (next-panics clock job_run _ (begun-running e world) x free)
