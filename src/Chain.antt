-- ===== src/Chain.antt =====
-- core/common.go, the context and the middleware chain: `Start`, `Next`, `doNext`, `getNext` and
-- `Stop`; and the `Run` methods of the middlewares: middlewares/overlap.go, and save.go, mail.go,
-- slack.go and webhook.go, which all call `Next` and `Stop` and then may notify.
pub mod Steps
pub mod Passes
use ofelia.Common.{
  ℕ, ◌^◌, Bool, true, false, not, ◌&&◌, ◌||◌, Option, none, some, List, [], ◌∷◌, ltb, if◌then◌else◌,
  is_some, String,
}
use ofelia.Job.{
  GoError, skipped_execution, wrap, wrap_error, Exit, returned, panicked, BareJob, notify_start,
  notify_stop,
}
use ofelia.Execution
use ofelia.Execution.{Buffer, Execution}

-- `W` is the rest of the world. What a notifying middleware does there after the run depends on the
-- execution; it logs its own errors and does not return them.
pub data Middleware (W : Type 0) : Type 0 where
  overlap : (no_overlap : Bool) → Middleware W
  notifier : (notify : Execution → W → W) → Middleware W

unfoldable pub continue_on_stop : {W : Type 0} → Middleware W → Bool
continue_on_stop (overlap _) = false
continue_on_stop (notifier _) = true

-- `rest` are the middlewares from `current` on. The job is the shared object behind `c.Job`.
pub record Context (W : Type 0) : Type 0 where
  pub execution : Execution
  pub job : BareJob Execution
  pub executed : Bool
  pub rest : List (Middleware W)
  pub world : W

-- What the job's own `Run` leaves: the world, the execution's streams, and how it ends.
pub record JobRun (W : Type 0) : Type 0 where
  pub world : W
  pub output_stream : Option Buffer
  pub error_stream : Option Buffer
  pub exit : Exit

-- `int32(r) > 1` for the bit pattern `r`.
abbrev pub runs_twice : ℕ → Bool
runs_twice r = ltb 1 r && ltb r (2 ^ 31)

abbrev pub wrap_exit : String → Exit → Exit
wrap_exit s (returned err) = returned (wrap_error s err)
wrap_exit s panicked = panicked

-- `clock` reads the monotonic clock, and `job_run` is the `Run` method of the job.
module _ {W : Type 0} (clock : W → ℕ) (job_run : Execution → W → JobRun W) where
  unfoldable pub start : Context W → Context W
  start c = record c {
    execution = Execution.start (clock c.world) c.execution;
    job = notify_start c.job;
  }

  unfoldable pub stop : Option GoError → Context W → Context W
  stop err c =
      if c.execution.is_running
      then record c {
        execution = Execution.stop (clock c.world) err c.execution;
        job = notify_stop c.job;
      }
      else c

  -- The end of `Next`, after `doNext`. It returns nil in every case.
  unfoldable pub after_do_next : Context W × Exit → Context W × Exit
  after_do_next (c, panicked) = (c, panicked)
  after_do_next (c, returned err) =
      (if is_some err || c.executed then stop err c else c, returned none)

  -- What a notifying middleware does after `ctx.Next()`.
  unfoldable pub after_next : (Execution → W → W) → Context W × Exit → Context W × Exit
  after_next notify (c, panicked) = (c, panicked)
  after_next notify (c, returned err) =
      let c' = stop err c in (record c' { world = notify c'.execution c'.world }, returned err)

  -- The middleware's `Run`, given `ctx.Next`.
  unfoldable pub run_middleware :
      Middleware W → (Context W → Context W × Exit) → Context W → Context W × Exit
  unfolding after_next
  run_middleware (overlap no_overlap) next c =
      next (if no_overlap && runs_twice c.job.running then stop (some skipped_execution) c else c)
  run_middleware (notifier notify) next c = after_next notify (next c)

  -- `c.executed = true; c.Job.Run(c)`
  unfoldable pub run_job : Context W → Context W × Exit
  run_job c =
      let r = job_run c.execution c.world in
      (
        record c {
          executed = true;
          world = r.world;
          execution = record c.execution {
            output_stream = r.output_stream;
            error_stream = r.error_stream;
          };
        },
        wrap_exit "job run" r.exit,
      )

  -- `doNext`, by recursion on the middlewares from `current` on. A middleware calls `Next` once, and
  -- finds the middlewares behind its own.
  unfoldable pub do_next : List (Middleware W) → Context W → Context W × Exit
  unfolding run_middleware run_job after_do_next continue_on_stop
  do_next [] c = if c.execution.is_running then run_job c else (c, returned none)
  do_next (m ∷ ms) c =
      let c' = record c { rest = ms } in
      let onward = do_next ms c' in
      let (c'', exit) = run_middleware m (λ x. after_do_next (do_next ms x)) c' in
      if not c.execution.is_running && not (continue_on_stop m)
      then onward
      else (c'', wrap_exit "middleware run" exit)

  unfoldable pub next : Context W → Context W × Exit
  unfolding do_next
  next c = after_do_next (do_next c.rest c)
