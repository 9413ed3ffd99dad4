-- ===== src/Scheduler.antt =====
-- core/scheduler.go, the registry of jobs over go-cron, which is the parameter `Cron`. The methods
-- run here one after another.
pub mod GoCron
pub mod Table
pub mod Naming
pub mod Consistency
pub mod Preservation
pub mod Running
pub mod Starting
pub mod Histories
pub mod Updates
pub mod Queries
pub mod Tags
pub mod Switching
mod Examples
use ofelia.Common.{
  ℕ, String, Bool, true, false, not, ◌&&◌, ◌||◌, Option, none, some, List, [], ◌∷◌, ◌++◌, ltb, ◌==◌,
  if◌then◌else◌, is_some, ◌is◌,
}
use ofelia.Job.{GoError, BareJob, set_cron_job_id}
use ofelia.Execution.{Execution}
use ofelia.Container.{Container, empty, middlewares, use_middlewares}
use ofelia.Scheduler.GoCron.{Cron, EntryAdded, refused, entered}

pub data SchedulerError : Type 0 where
  empty_schedule : SchedulerError
  job_not_found : String → SchedulerError
  add_cron_job : GoError → SchedulerError
  trigger_job : String → GoError → SchedulerError
  update_entry : GoError → SchedulerError
  pause_job : GoError → SchedulerError
  resume_job : GoError → SchedulerError

-- What a `Job` points to.
pub record JobObject (M : Type 0) : Type 0 where
  pub bare : BareJob Execution
  pub container : Container M

-- Jobs are pointers: numbers that `objects` looks up. `disabled_names` and `jobs_by_name` are the
-- maps, `C` is the state of go-cron.
pub record Scheduler (C M : Type 0) : Type 0 where
  pub jobs : List ℕ
  pub removed : List ℕ
  pub container : Container M
  pub cron : C
  pub jobs_by_name : String → Option ℕ
  pub disabled_names : String → Bool
  pub objects : ℕ → JobObject M

module _ {A : Type 0} where
  abbrev pub set_key : String → A → (String → A) → String → A
  set_key k a m n = if n is k then a else m n

-- The job of `getJob`, `none` being nil.
unfoldable pub find_job : (ℕ → String) → String → List ℕ → Option ℕ
find_job names n [] = none
find_job names n (r ∷ rs) =
    let later = find_job names n rs in if names r is n then some r else later

-- `range s.Jobs` up to the first job that `p` holds of, which is cut out.
unfoldable pub cut_first : (ℕ → Bool) → List ℕ → List ℕ
cut_first p [] = []
cut_first p (r ∷ rs) = let rest = cut_first p rs in if p r then rs else r ∷ rest

-- The first job of that name is replaced.
unfoldable pub replace_job : (ℕ → String) → String → ℕ → List ℕ → List ℕ
replace_job names n new [] = []
replace_job names n new (r ∷ rs) =
    let rest = replace_job names n new rs in if names r is n then new ∷ rs else r ∷ rest

module _ {C M : Type 0} where
  abbrev pub job_name : Scheduler C M → ℕ → String
  job_name s r = (s.objects r).bare.name

  -- `NewScheduler`, around the state of a new go-cron.
  unfoldable pub new_scheduler : C → (ℕ → JobObject M) → Scheduler C M
  new_scheduler c objects = record {
    jobs = [];
    removed = [];
    container = empty;
    cron = c;
    jobs_by_name = λ n. none;
    disabled_names = λ n. false;
    objects = objects;
  }

  abbrev pub job_cron_id : Scheduler C M → ℕ → ℕ
  job_cron_id s r = (s.objects r).bare.cron_id

  abbrev pub set_id : ℕ → ℕ → Scheduler C M → Scheduler C M
  set_id r id s = record s {
    objects = λ x.
        if x == r
        then record (s.objects r) { bare = set_cron_job_id id (s.objects r).bare }
        else s.objects x;
  }

  -- After `s.cron.AddJob`.
  abbrev pub after_add : ℕ → C × EntryAdded → Scheduler C M → Scheduler C M × Option SchedulerError
  after_add r (c, refused e) s = (record s { cron = c }, some (add_cron_job e))
  after_add r (c, entered id) s =
      let s' = set_id r id (record s { cron = c }) in
      (
        record s' {
          jobs = s'.jobs ++ r ∷ [];
          jobs_by_name = set_key (job_name s r) (some r) s'.jobs_by_name;
        },
        none,
      )

  -- After `s.cron.UpdateEntryJobByName`.
  abbrev pub after_update :
      String → ℕ → C × Option GoError → Scheduler C M → Scheduler C M × Option SchedulerError
  after_update n new (c, some e) s = (record s { cron = c }, some (update_entry e))
  after_update n new (c, none) s = (
    record s {
      cron = c;
      jobs = replace_job (job_name s) n new s.jobs;
      jobs_by_name = set_key n (some new) s.jobs_by_name;
    },
    none,
  )

  -- After `s.cron.PauseEntryByName`.
  abbrev pub after_pause :
      String → C × Option GoError → Scheduler C M → Scheduler C M × Option SchedulerError
  after_pause n (c, some e) s = (record s { cron = c }, some (pause_job e))
  after_pause n (c, none) s =
      (record s { cron = c; disabled_names = set_key n true s.disabled_names }, none)

  -- After `s.cron.ResumeEntryByName`.
  abbrev pub after_resume :
      String → C × Option GoError → Scheduler C M → Scheduler C M × Option SchedulerError
  after_resume n (c, some e) s = (record s { cron = c }, some (resume_job e))
  after_resume n (c, none) s =
      (record s { cron = c; disabled_names = set_key n false s.disabled_names }, none)

  -- After `s.cron.TriggerEntryByName`.
  abbrev pub after_trigger :
      String → C × Option GoError → Scheduler C M → Scheduler C M × Option SchedulerError
  after_trigger n (c, some e) s = (record s { cron = c }, some (trigger_job n e))
  after_trigger n (c, none) s = (record s { cron = c }, none)

module _ {C M : Type 0} (cron : Cron C) (type_name : M → String) where
  -- `j.Use(s.Middlewares()...)`
  abbrev pub use_global : ℕ → Scheduler C M → Scheduler C M
  use_global r s = record s {
    objects = λ x.
        if x == r
        then record (s.objects r) {
          container = use_middlewares type_name (middlewares s.container) (s.objects r).container;
        }
        else s.objects x;
  }

  unfoldable pub add_job_with_tags :
      ℕ → List String → Scheduler C M → Scheduler C M × Option SchedulerError
  add_job_with_tags r tags s =
      let j = (s.objects r).bare in
      if j.schedule is ""
      then (s, some empty_schedule)
      else after_add r (cron.add_job j.schedule r j.name tags j.run_on_startup s.cron)
          (use_global r s)

  unfoldable pub remove_job : ℕ → Scheduler C M → Scheduler C M
  remove_job r s =
      let n = job_name s r in
      record s {
        cron = cron.remove_by_name n s.cron;
        jobs = cut_first (λ x. x == r || job_cron_id s x == job_cron_id s r) s.jobs;
        jobs_by_name = set_key n none s.jobs_by_name;
        disabled_names = set_key n false s.disabled_names;
        removed = s.removed ++ r ∷ [];
      }

  unfoldable pub update_job :
      String → String → ℕ → Scheduler C M → Scheduler C M × Option SchedulerError
  update_job n new_schedule new s =
      if not (is_some (find_job (job_name s) n s.jobs)) || s.disabled_names n
      then (s, some (job_not_found n))
      else after_update n new (cron.update_entry_job_by_name n new_schedule new s.cron)
          (use_global new s)

  unfoldable pub disable_job : String → Scheduler C M → Scheduler C M × Option SchedulerError
  disable_job n s =
      if not (is_some (find_job (job_name s) n s.jobs))
      then (s, some (job_not_found n))
      else if s.disabled_names n
      then (s, none)
      else after_pause n (cron.pause_entry_by_name n s.cron) s

  unfoldable pub enable_job : String → Scheduler C M → Scheduler C M × Option SchedulerError
  enable_job n s =
      if not (s.disabled_names n)
      then (s, if is_some (s.jobs_by_name n) then none else some (job_not_found n))
      else if not (is_some (find_job (job_name s) n s.jobs))
      then (s, some (job_not_found n))
      else after_resume n (cron.resume_entry_by_name n s.cron) s

  unfoldable pub run_job : String → Scheduler C M → Scheduler C M × Option SchedulerError
  run_job n s =
      if not (is_some (s.jobs_by_name n)) || s.disabled_names n
      then (s, some (job_not_found n))
      else after_trigger n (cron.trigger_entry_by_name n s.cron) s
