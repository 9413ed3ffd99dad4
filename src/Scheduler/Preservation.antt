-- ===== src/Scheduler/Preservation.antt =====
-- The operations of the scheduler keep it consistent.
use ofelia.Common.{
  ℕ, String, false, ◌||◌, not, ◌≡◌, sym, ap, ◌∙◌, Option, some, List, ◌==◌, if◌then◌else◌, if-all,
  is_some, ◌is◌, is_iff, arith,
}
use ofelia.Scheduler.GoCron.{Cron, Documented}
use ofelia.Scheduler.{
  Scheduler, job_name, job_cron_id, find_job, cut_first, use_global, add_job_with_tags, remove_job,
  disable_job, enable_job, run_job,
}
use ofelia.Scheduler.Naming.{find_job-mem, cut_first-same, find_job-cut_first, count-cut_first}
use ofelia.Scheduler.Consistency.{
  entry_id, use_global-name, use_global-id, IsConsistent, LeavesConsistent,
  after_pause-IsConsistent, after_resume-IsConsistent, after_trigger-IsConsistent, same_jobs,
  after_add-IsConsistent,
}

module _ {C M : Type 0} (entry : String → C → Option ℕ) where
  module _ (cron : Cron C) (doc : Documented C cron entry) (type_name : M → String) where
    own_entry :
        (x : ℕ) (s : Scheduler C M)
        → IsConsistent entry s
        → s.jobs_by_name (job_name s x) ≡ some x
        → entry (job_name s x) s.cron ≡ some (job_cron_id s x)
    own_entry x s v h = v.entries (job_name s x) ∙ ap (entry_id (job_cron_id s)) h

    cut-own :
        (r : ℕ) (s : Scheduler C M)
        → IsConsistent entry s
        → s.jobs_by_name (job_name s r) ≡ some r
        → cut_first (λ x. x == r || job_cron_id s x == job_cron_id s r) s.jobs
          ≡ cut_first (λ x. job_name s x is job_name s r) s.jobs
    cut-own r s v named = cut_first-same _ _ s.jobs (λ x h.
        let found = v.by_name (job_name s x) ∙ find_job-mem (job_name s) x s.jobs (v.once _) h in
        ground (
          arith,
          is_iff (job_name s x) (job_name s r),
          ap (job_name s),
          found,
          named,
          ap s.jobs_by_name,
          ap (job_cron_id s),
          v.own_ids (job_name s x) (job_name s r) (job_cron_id s x) (own_entry x s v found),
          own_entry r s v named,
        ))

    pub remove_job-IsConsistent :
        (r : ℕ) (s : Scheduler C M)
        → IsConsistent entry s
        → s.jobs_by_name (job_name s r) ≡ some r
        → IsConsistent entry (remove_job cron type_name r s)
    unfolding remove_job
    remove_job-IsConsistent r s v named = record {
      by_name = λ n. ground (
        arith,
        ap (find_job (job_name s) n) (cut-own r s v named),
        find_job-cut_first (job_name s) (job_name s r) n s.jobs (v.once _),
        v.by_name n,
      );
      once = λ n. ground (
        arith,
        count-cut_first (job_name s) (λ x. x == r || job_cron_id s x == job_cron_id s r) n s.jobs,
        v.once n,
      );
      known = λ n. ground (arith, v.known n);
      entries = λ n. doc.removed (job_name s r) n s.cron ∙ ground (arith, v.entries n);
      own_ids = λ n m id a b. ground (
        arith,
        v.own_ids n m id,
        doc.removed (job_name s r) n s.cron,
        doc.removed (job_name s r) m s.cron,
      );
    }

    pub disable_job-IsConsistent :
        (n : String) (s : Scheduler C M)
        → IsConsistent entry s
        → IsConsistent entry (disable_job cron type_name n s).0
    unfolding disable_job
    disable_job-IsConsistent n s v =
        let found = find_job (job_name s) n s.jobs in
        if-all (LeavesConsistent entry) (not (is_some found)) _ _ (λ _. v)
          (λ h.
            if-all (LeavesConsistent entry) (s.disabled_names n) _ _ (λ _. v)
              (λ _.
                after_pause-IsConsistent entry n _ s v (λ m. doc.paused n m s.cron)
                  (ground (arith, v.by_name n))))

    pub enable_job-IsConsistent :
        (n : String) (s : Scheduler C M)
        → IsConsistent entry s
        → IsConsistent entry (enable_job cron type_name n s).0
    unfolding enable_job
    enable_job-IsConsistent n s v =
        let found = find_job (job_name s) n s.jobs in
        if-all (LeavesConsistent entry) (not (s.disabled_names n)) _ _ (λ _. v)
          (λ _.
            if-all (LeavesConsistent entry) (not (is_some found)) _ _ (λ _. v)
              (λ _. after_resume-IsConsistent entry n _ s v (λ m. doc.resumed n m s.cron)))

    pub add_job-IsConsistent :
        (r : ℕ) (tags : List String) (s : Scheduler C M)
        → IsConsistent entry s
        → (job_name s r is "") ≡ false
        → IsConsistent entry (add_job_with_tags cron type_name r tags s).0
    unfolding add_job_with_tags
    add_job-IsConsistent r tags s v named =
        let j = (s.objects r).bare in
        let name = use_global-name cron type_name r r s in
        if-all (LeavesConsistent entry) (j.schedule is "") _ _ (λ _. v)
          (λ _.
            after_add-IsConsistent entry r _ (use_global cron type_name r s)
              (same_jobs entry _ s v (λ x. use_global-name cron type_name r x s)
                (λ x. use_global-id cron type_name r x s))
              (λ c id h. (
                ap (λ k. entry k s.cron) name ∙ doc.free _ _ _ _ _ _ _ _ named h,
                doc.fresh _ _ _ _ _ _ _ _ named h,
                λ m.
                    doc.added _ _ _ _ _ _ _ _ named h m
                    ∙ (λ i. if m is sym name i then some id else entry m s.cron),
              ))
              (λ c e h. doc.unadded _ _ _ _ _ _ _ _ h))

    pub run_job-IsConsistent :
        (n : String) (s : Scheduler C M)
        → IsConsistent entry s
        → IsConsistent entry (run_job cron type_name n s).0
    unfolding run_job
    run_job-IsConsistent n s v =
        if-all (LeavesConsistent entry) (not (is_some (s.jobs_by_name n)) || s.disabled_names n) _ _
          (λ _. v) (λ _. after_trigger-IsConsistent entry n _ s v (λ m. doc.triggered n m s.cron))
