-- ===== src/JobsApi/Methods.antt =====
-- What methods of the scheduler leave alone: the jobs of other names.
use ofelia.Common.{
  ℕ, String, Bool, false, not, ◌||◌, ◌≡◌, refl, sym, ap, ◌∙◌, Option, some, List, ◌==◌, if-false,
  is_some, ◌is◌, if-all,
}
use ofelia.Scheduler.GoCron.{Cron, Documented, EntryAdded, refused, entered}
use ofelia.Scheduler.{
  SchedulerError, Scheduler, job_name, find_job, use_global, add_job_with_tags, after_add,
  remove_job, disable_job, enable_job, run_job,
}
use ofelia.Scheduler.Naming.{find_job-names}
use ofelia.Scheduler.Consistency.{IsConsistent, use_global-name}
use ofelia.Scheduler.Preservation.{remove_job-IsConsistent}
use ofelia.JobsApi.Names.{
  IsSameJob, refl-IsSameJob, trans-IsSameJob, object_of, objects-same, after_add-same,
  after_pause-same, after_resume-same, after_trigger-same,
}

module _ {C M : Type 0} (entry : String → C → Option ℕ) (cron : Cron C)
    (doc : Documented C cron entry) (type_name : M → String) (m : String) where
  pub remove_job-same :
      (old : ℕ) (s : Scheduler C M)
      → IsConsistent entry s
      → s.jobs_by_name (job_name s old) ≡ some old
      → (m is job_name s old) ≡ false
      → IsSameJob entry m s (remove_job cron type_name old s)
  unfolding remove_job
  remove_job-same old s v named h =
      let w = remove_job-IsConsistent entry cron doc type_name old s v named in
      record {
        by_name = if-false h _ _;
        listed = sym (w.by_name m) ∙ if-false h _ _ ∙ v.by_name m;
        object = ap (object_of s.objects) (if-false h _ _);
        disabled = if-false h _ _;
        in_cron = doc.removed (job_name s old) m s.cron ∙ if-false h _ _;
      }

  pub use_global-same :
      (r : ℕ) (s : Scheduler C M)
      → ((y : ℕ) → s.jobs_by_name m ≡ some y → (y == r) ≡ false)
      → IsSameJob entry m s (use_global cron type_name r s)
  use_global-same r s others =
      let s' = use_global cron type_name r s in
      objects-same entry m s'.objects s (λ y e. if-false (others y e) _ _)
        (find_job-names (job_name s) (job_name s') (λ x. use_global-name cron type_name r x s) m
          s.jobs)

  added-entry :
      (schedule : String) (r : ℕ) (n : String) (tags : List String) (now : Bool) (c : C)
      (x : C × EntryAdded)
      → (n is "") ≡ false
      → (m is n) ≡ false
      → cron.add_job schedule r n tags now c ≡ x
      → entry m x.0 ≡ entry m c
  added-entry schedule r n tags now c (c', refused e) named h k =
      doc.unadded schedule r n tags now c c' e k m
  added-entry schedule r n tags now c (c', entered id) named h k =
      doc.added schedule r n tags now c c' id named k m ∙ if-false h _ _

  pub add_job-same :
      (r : ℕ) (tags : List String) (s : Scheduler C M)
      → (job_name s r is "") ≡ false
      → (m is job_name s r) ≡ false
      → ((y : ℕ) → s.jobs_by_name m ≡ some y → (y == r) ≡ false)
      → IsSameJob entry m s (add_job_with_tags cron type_name r tags s).0
  unfolding add_job_with_tags
  add_job-same r tags s named h others =
      let j = (s.objects r).bare in
      let x = cron.add_job j.schedule r j.name tags j.run_on_startup s.cron in
      let s' = use_global cron type_name r s in
      if-all {A = Scheduler C M × Option SchedulerError} (λ o. IsSameJob entry m s o.0)
        (j.schedule is "") _ _ (λ _. refl-IsSameJob entry m s)
        (λ _. trans-IsSameJob entry m s s' (after_add r x s').0 (use_global-same r s others) (
          after_add-same entry m r x s'
            (ap (λ n. m is n) (use_global-name cron type_name r r s) ∙ h) others
            (added-entry j.schedule r j.name tags j.run_on_startup s.cron x named h refl)))

  pub disable_job-same :
      (n : String) (s : Scheduler C M)
      → (m is n) ≡ false
      → IsSameJob entry m s (disable_job cron type_name n s).0
  unfolding disable_job
  disable_job-same n s h =
      if-all {A = Scheduler C M × Option SchedulerError} (λ x. IsSameJob entry m s x.0)
        (not (is_some (find_job (job_name s) n s.jobs))) _ _ (λ _. refl-IsSameJob entry m s)
        (λ _.
          if-all {A = Scheduler C M × Option SchedulerError} (λ x. IsSameJob entry m s x.0)
            (s.disabled_names n) _ _ (λ _. refl-IsSameJob entry m s)
            (λ _.
              after_pause-same entry m n (cron.pause_entry_by_name n s.cron) s h
                (doc.paused n m s.cron)))

  pub enable_job-same :
      (n : String) (s : Scheduler C M)
      → (m is n) ≡ false
      → IsSameJob entry m s (enable_job cron type_name n s).0
  unfolding enable_job
  enable_job-same n s h =
      if-all {A = Scheduler C M × Option SchedulerError} (λ x. IsSameJob entry m s x.0)
        (not (s.disabled_names n)) _ _ (λ _. refl-IsSameJob entry m s)
        (λ _.
          if-all {A = Scheduler C M × Option SchedulerError} (λ x. IsSameJob entry m s x.0)
            (not (is_some (find_job (job_name s) n s.jobs))) _ _ (λ _. refl-IsSameJob entry m s)
            (λ _.
              after_resume-same entry m n (cron.resume_entry_by_name n s.cron) s h
                (doc.resumed n m s.cron)))

  pub run_job-same :
      (n : String) (s : Scheduler C M) → IsSameJob entry m s (run_job cron type_name n s).0
  unfolding run_job
  run_job-same n s =
      if-all {A = Scheduler C M × Option SchedulerError} (λ x. IsSameJob entry m s x.0)
        (not (is_some (s.jobs_by_name n)) || s.disabled_names n) _ _ (λ _. refl-IsSameJob entry m s)
        (λ _.
          after_trigger-same entry m n (cron.trigger_entry_by_name n s.cron) s
            (doc.triggered n m s.cron))
