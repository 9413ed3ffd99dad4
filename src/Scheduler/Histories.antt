-- ===== src/Scheduler/Histories.antt =====
-- What holds of a scheduler after any sequence of its operations.
use ofelia.Common.{ℕ, String, false, ◌≡◌, refl, Option, none, some, List, ◌is◌, ℤ, arith}
use ofelia.Scheduler.GoCron.{Cron, Documented}
use ofelia.Scheduler.{
  Scheduler, JobObject, job_name, find_job, new_scheduler, add_job_with_tags, remove_job,
  disable_job, enable_job, run_job,
}
use ofelia.Scheduler.Running
use ofelia.Scheduler.Running.{stop_with_timeout, stop_and_wait}
use ofelia.Scheduler.Starting.{start-IsConsistent, stop-IsConsistent, stop_and_wait-IsConsistent}
use ofelia.Scheduler.Naming.{count}
use ofelia.Scheduler.Consistency.{IsConsistent}
use ofelia.Scheduler.Preservation.{
  add_job-IsConsistent, remove_job-IsConsistent, disable_job-IsConsistent, enable_job-IsConsistent,
  run_job-IsConsistent,
}

module _ {C M : Type 0} (cron : Cron C) (type_name : M → String) where
  -- Jobs with a name are added, whatever comes of it, and jobs that the map of names has are removed.
  pub data Step : Scheduler C M → Scheduler C M → Type 0 where
    adds :
        (r : ℕ) (tags : List String) (s : Scheduler C M)
        → (job_name s r is "") ≡ false
        → Step s (add_job_with_tags cron type_name r tags s).0
    removes :
        (r : ℕ) (s : Scheduler C M)
        → s.jobs_by_name (job_name s r) ≡ some r
        → Step s (remove_job cron type_name r s)
    disables : (n : String) (s : Scheduler C M) → Step s (disable_job cron type_name n s).0
    enables : (n : String) (s : Scheduler C M) → Step s (enable_job cron type_name n s).0
    runs : (n : String) (s : Scheduler C M) → Step s (run_job cron type_name n s).0
    starts : (s : Scheduler C M) → Step s (Running.start cron s)
    stops : (timeout : ℤ) (s : Scheduler C M) → Step s (stop_with_timeout cron timeout s).0
    awaits : (s : Scheduler C M) → Step s (stop_and_wait cron s)

  pub data Reach (first : Scheduler C M) : Scheduler C M → Type 0 where
    start : Reach first first
    next : (s t : Scheduler C M) → Reach first s → Step s t → Reach first t

  module _ (entry : String → C → Option ℕ) (doc : Documented C cron entry) where
    Step-IsConsistent :
        (s t : Scheduler C M) → Step s t → IsConsistent entry s → IsConsistent entry t
    Step-IsConsistent s t (adds r tags _ named) v =
        add_job-IsConsistent entry cron doc type_name r tags s v named
    Step-IsConsistent s t (removes r _ named) v =
        remove_job-IsConsistent entry cron doc type_name r s v named
    Step-IsConsistent s t (disables n _) v = disable_job-IsConsistent entry cron doc type_name n s v
    Step-IsConsistent s t (enables n _) v = enable_job-IsConsistent entry cron doc type_name n s v
    Step-IsConsistent s t (runs n _) v = run_job-IsConsistent entry cron doc type_name n s v
    Step-IsConsistent s t (starts _) v = start-IsConsistent entry cron doc s v
    Step-IsConsistent s t (stops timeout _) v = stop-IsConsistent entry cron doc timeout s v
    Step-IsConsistent s t (awaits _) v = stop_and_wait-IsConsistent entry cron doc s v

    new_scheduler-IsConsistent :
        (c : C) (objects : ℕ → JobObject M)
        → ((n : String) → entry n c ≡ none)
        → IsConsistent {M = M} entry (new_scheduler c objects)
    unfolding new_scheduler find_job count
    new_scheduler-IsConsistent c objects vacant = record {
      by_name = λ n. refl;
      once = λ n. omega arith;
      known = λ n h. ground arith;
      entries = λ n. vacant n;
      own_ids = λ n m id a b. ground (arith, vacant n);
    }

    -- Where go-cron does what it documents, and has no entries at first: after any additions of
    -- named jobs, removals of jobs that the map has, enabling, disabling and running of whatever
    -- name, starts, whatever edges the jobs have, and stops, the map of names has what a search of the list finds, no two jobs have the same name, only
    -- known names are disabled, each name's entry in go-cron has the ID of its job, and no two
    -- entries share one.
    pub reachable-IsConsistent :
        (c : C) (objects : ℕ → JobObject M) (s : Scheduler C M)
        → ((n : String) → entry n c ≡ none)
        → Reach (new_scheduler c objects) s
        → IsConsistent entry s
    reachable-IsConsistent c objects s vacant start = new_scheduler-IsConsistent c objects vacant
    reachable-IsConsistent c objects s vacant (next t _ path step) =
        Step-IsConsistent t s step (reachable-IsConsistent c objects t vacant path)
