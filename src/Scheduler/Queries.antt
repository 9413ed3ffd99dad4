-- ===== src/Scheduler/Queries.antt =====
-- core/scheduler.go, the methods that read: `GetJob`, `GetDisabledJob`, `GetAnyJob`, `lookupJob`,
-- `GetActiveJobs`, `GetDisabledJobs`, `GetJobsByTag` and `workflowStatus`. `NewScheduler` makes
-- `jobsByName`, so `lookupJob` reads it.
use ofelia.Common.{
  ℕ, String, Bool, true, false, not, ◌&&◌, Option, none, List, [], ◌∷◌, ◌++◌, ◌==◌, if◌then◌else◌,
}
use ofelia.Scheduler.GoCron.{
  Cron, JobResult, result_pending, result_success, result_failure, result_skipped,
}
use ofelia.Scheduler.{Scheduler, job_name, job_cron_id}

module _ {C M : Type 0} where
  unfoldable pub lookup_job : String → Scheduler C M → Option ℕ
  lookup_job n s = s.jobs_by_name n

  unfoldable pub get_any_job : String → Scheduler C M → Option ℕ
  get_any_job n s = s.jobs_by_name n

  unfoldable pub get_job : String → Scheduler C M → Option ℕ
  unfolding lookup_job
  get_job n s = if s.disabled_names n then none else lookup_job n s

  unfoldable pub get_disabled_job : String → Scheduler C M → Option ℕ
  unfolding lookup_job
  get_disabled_job n s = if not (s.disabled_names n) then none else lookup_job n s

-- The jobs that `p` holds of, in their order.
unfoldable pub keep : (ℕ → Bool) → List ℕ → List ℕ
keep p [] = []
keep p (r ∷ rs) = let rest = keep p rs in if p r then r ∷ rest else rest

-- `range s.Jobs` up to the first job that `p` holds of.
unfoldable pub first_job : (ℕ → Bool) → List ℕ → List ℕ
first_job p [] = []
first_job p (r ∷ rs) = let later = first_job p rs in if p r then r ∷ [] else later

module _ {C M : Type 0} where
  unfoldable pub get_disabled_jobs : Scheduler C M → List ℕ
  unfolding keep
  get_disabled_jobs s = keep (λ r. s.disabled_names (job_name s r)) s.jobs

  unfoldable pub get_active_jobs : Scheduler C M → List ℕ
  unfolding keep
  get_active_jobs s = keep (λ r. not (s.disabled_names (job_name s r))) s.jobs

  -- The jobs of the entries, given by their IDs.
  unfoldable pub jobs_of_entries : List ℕ → Scheduler C M → List ℕ
  unfolding first_job
  jobs_of_entries [] s = []
  jobs_of_entries (id ∷ ids) s =
      first_job (λ r. job_cron_id s r == id) s.jobs ++ jobs_of_entries ids s

  unfoldable pub get_jobs_by_tag : Cron C → String → Scheduler C M → List ℕ
  unfolding jobs_of_entries
  get_jobs_by_tag cron tag s = jobs_of_entries (cron.entries_by_tag tag s.cron) s

-- The status constants.
pub data WorkflowStatus : Type 0 where
  workflow_status_success workflow_status_failure workflow_status_skipped workflow_status_mixed :
      WorkflowStatus

-- `hasFailure`, `hasSuccess` and `hasSkipped`.
pub record Seen : Type 0 where
  pub has_failure : Bool
  pub has_success : Bool
  pub has_skipped : Bool

abbrev pub see : JobResult → Seen → Seen
see result_failure f = record f { has_failure = true }
see result_success f = record f { has_success = true }
see result_skipped f = record f { has_skipped = true }
see result_pending f = f

-- The loop, over the results in the order in which they are ranged over.
unfoldable pub see_all : List JobResult → Seen → Seen
see_all [] f = f
see_all (r ∷ rs) f = see_all rs (see r f)

abbrev pub status_of : Seen → WorkflowStatus
status_of f =
    if f.has_failure
    then workflow_status_failure
    else if f.has_success && not f.has_skipped
    then workflow_status_success
    else if f.has_skipped && not f.has_success
    then workflow_status_skipped
    else workflow_status_mixed

unfoldable pub workflow_status : List JobResult → WorkflowStatus
unfolding see_all
workflow_status [] = workflow_status_success
workflow_status (r ∷ rs) =
    status_of
      (see_all (r ∷ rs) (record { has_failure = false; has_success = false; has_skipped = false }))
