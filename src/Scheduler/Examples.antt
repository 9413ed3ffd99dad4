-- ===== src/Scheduler/Examples.antt =====
-- The theorems on the scheduler at concrete values, over a table of entries in the place of go-cron.
use ofelia.Common.{
  ℕ, suc, ◌+◌, ◌≤◌, String, Bool, true, false, ◌≡◌, ◌≢◌, refl, sym, ap, ◌∙◌, Option, none, some,
  List, [], ◌∷◌, ◌++◌, if◌then◌else◌, if-true, if-false, is_some, ◌is◌, is_iff, is_refl, arith, pos,
  length, ◌==◌, Bool-cases, inl, inr, not,
}
use ofelia.Container.{empty}
use ofelia.Scheduler.Table.{Table, entry, table, table-Documented}
use ofelia.Scheduler.{
  Scheduler, JobObject, new_scheduler, set_key, find_job, update_job, remove_job, add_job_with_tags,
  disable_job,
}
use ofelia.Scheduler.Naming.{mem}
use ofelia.Scheduler.Queries.{get_jobs_by_tag}
use ofelia.Scheduler.Consistency.{IsConsistent}
use ofelia.Scheduler.Running
use ofelia.Scheduler.Histories.{Reach, start, next, adds, disables, starts, reachable-IsConsistent}
use ofelia.Scheduler.Updates.{both_updated, remove_job-other}
use ofelia.Scheduler.Tags.{remove_jobs_by_tag, remove_jobs_by_tag-updated}

abbrev job : String → ℕ → JobObject String
job name id = record {
  bare = record {
    schedule = "@daily";
    name = name;
    command = "";
    run_on_startup = false;
    history_limit = pos 10;
    max_retries = pos 0;
    retry_delay_ms = 1000;
    retry_exponential = true;
    retry_max_delay_ms = 60000;
    dependencies = [];
    on_success = [];
    on_failure = [];
    allow_parallel = true;
    running = 0;
    history = [];
    last_run = none;
    cron_id = id;
  };
  container = empty;
}

abbrev type_name : String → String
type_name m = m

-- 0 and 2 are named backup, the others sync; 0 and 1 have cron IDs.
abbrev objects : ℕ → JobObject String
objects r =
    if r == 0
    then job "backup" 1
    else if r == 1
    then job "sync" 2
    else if r == 2
    then job "backup" 0
    else job "sync" 0

abbrev first : Scheduler Table String
first = new_scheduler [] objects

abbrev one_job : Scheduler Table String
one_job = (add_job_with_tags table type_name 2 [] first).0

-- The job, while go-cron runs.
abbrev one_job_started : Scheduler Table String
one_job_started = Running.start table one_job

one_job_paused-Reach :
    Reach table type_name first (disable_job table type_name "backup" one_job_started).0
unfolding new_scheduler ofelia.Common.◌is◌
one_job_paused-Reach =
    next one_job_started _
      (next one_job _ (next first one_job start (adds 2 [] first refl)) (starts one_job))
      (disables "backup" one_job_started)

reachable-IsConsistent_example :
    IsConsistent entry (disable_job table type_name "backup" one_job_started).0
reachable-IsConsistent_example =
    reachable-IsConsistent table type_name entry table-Documented [] objects
      (disable_job table type_name "backup" one_job_started).0 (λ n. refl) one_job_paused-Reach

abbrev two_jobs : Scheduler Table String
two_jobs = record {
  jobs = 0 ∷ 1 ∷ [];
  removed = [];
  container = empty;
  cron = ("sync", 2) ∷ ("backup", 1) ∷ [];
  jobs_by_name = set_key "sync" (some 1) (set_key "backup" (some 0) (λ n. none));
  disabled_names = λ n. false;
  objects = objects;
}

remove_job-other_example :
    (remove_job table type_name 3 (both_updated table type_name 0 1 "@hourly" 2 3 two_jobs)).jobs
    ≡ 3 ∷ []
unfolding ofelia.Common.◌is◌
remove_job-other_example =
    remove_job-other table type_name 0 1 2 3 [] "@hourly" two_jobs.cron two_jobs.cron two_jobs refl
      refl refl refl refl refl refl refl refl refl

remove_jobs_by_tag-updated_example :
    let s' = (update_job table type_name "backup" "@hourly" 2 two_jobs).0 in
    (mem 2 (remove_jobs_by_tag table "backup" s').0.jobs ≡ true)
    × (mem 2 (get_jobs_by_tag table "backup" s') ≡ false)
unfolding ofelia.Common.◌is◌ find_job
remove_jobs_by_tag-updated_example =
    remove_jobs_by_tag-updated table type_name "backup" "@hourly" "backup" 2 two_jobs.cron (0 ∷ [])
      two_jobs refl refl refl refl refl

abbrev one_entry : Table
one_entry = ("backup", 1) ∷ []

one_job-IsConsistent : IsConsistent entry one_job
unfolding new_scheduler ofelia.Common.◌is◌
one_job-IsConsistent =
    reachable-IsConsistent table type_name entry table-Documented [] objects one_job (λ n. refl)
      (next first one_job start (adds 2 [] first refl))
