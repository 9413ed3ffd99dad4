-- ===== src/Scheduler/Running.antt =====
-- core/scheduler.go, `Start` and the methods that stop the scheduler.
use ofelia.Common.{ℕ, String, Bool, true, false, Option, none, some, List, [], ◌∷◌, map, ℤ, pos}
use ofelia.Execution.{Execution}
use ofelia.Job.{BareJob}
use ofelia.Workflow.{build_workflow_dependencies}
use ofelia.Scheduler.GoCron.{Cron}
use ofelia.Scheduler.{Scheduler, set_key, job_name}

-- `ErrSchedulerTimeout`, with the timeout.
pub data StopError : Type 0 where
  scheduler_timeout : ℤ → StopError

-- The loop of `Start` over the jobs.
unfoldable pub fill_names : (ℕ → String) → List ℕ → (String → Option ℕ) → String → Option ℕ
fill_names names [] by_name = by_name
fill_names names (r ∷ rs) by_name = fill_names names rs (set_key (names r) (some r) by_name)

-- 30 seconds, in nanoseconds.
abbrev pub default_stop_timeout : ℤ
default_stop_timeout = pos 30_000_000_000

module _ {C M : Type 0} where
  abbrev pub bare_jobs : Scheduler C M → List (BareJob Execution)
  bare_jobs s = map (λ r. (s.objects r).bare) s.jobs

  -- After the stop of go-cron.
  abbrev pub after_stop : ℤ → C × Bool → Scheduler C M → Scheduler C M × Option StopError
  after_stop timeout (c, true) s = (record s { cron = c }, none)
  after_stop timeout (c, false) s = (record s { cron = c }, some (scheduler_timeout timeout))

module _ {C M : Type 0} (cron : Cron C) where
  -- It returns nil, whatever comes of the edges.
  unfoldable pub start : Scheduler C M → Scheduler C M
  unfolding fill_names build_workflow_dependencies
  start s =
      let wired = build_workflow_dependencies cron.add_dependency_by_name (bare_jobs s) s.cron in
      record s {
        jobs_by_name = fill_names (job_name s) s.jobs s.jobs_by_name;
        cron = cron.start wired.0;
      }

  unfoldable pub stop_with_timeout : ℤ → Scheduler C M → Scheduler C M × Option StopError
  stop_with_timeout timeout s = after_stop timeout (cron.stop_with_timeout timeout s.cron) s

  abbrev pub stop : Scheduler C M → Scheduler C M × Option StopError
  stop s = stop_with_timeout default_stop_timeout s

  unfoldable pub stop_and_wait : Scheduler C M → Scheduler C M
  stop_and_wait s = record s { cron = cron.stop_and_wait s.cron }
