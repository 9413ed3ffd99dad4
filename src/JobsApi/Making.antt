-- ===== src/JobsApi/Making.antt =====
-- A new job behind a pointer that no job of the list has.
use ofelia.Common.{
  ℕ, ◌≤◌, String, false, ◌≡◌, sym, ap, ◌∙◌, subst, Option, some, ◌==◌, if-true, if-false, arith,
}
use ofelia.Scheduler.{Scheduler, JobObject, job_name, job_cron_id}
use ofelia.Scheduler.Naming.{mem, find_job-name, find_job-fresh, count-fresh, find_job-unlisted}
use ofelia.Scheduler.Consistency.{IsConsistent, entry_id-same}
use ofelia.JobsApi.{JobRequest, make_job}
use ofelia.JobsApi.Names.{IsSameJob, objects-same}

module _ {C M : Type 0} where
  pub made-name :
      (new : ℕ) (req : JobRequest) (s : Scheduler C M)
      → job_name (make_job new req s) new ≡ req.name
  made-name new req s =
      ap (λ (o : JobObject M). o.bare.name) (if-true {b = new == new} (ground arith) _ _)

  pub kept-name :
      (new : ℕ) (req : JobRequest) (s : Scheduler C M) (x : ℕ)
      → (x == new) ≡ false
      → job_name (make_job new req s) x ≡ job_name s x
  kept-name new req s x d = ap (λ (o : JobObject M). o.bare.name) (if-false d _ _)

module _ {C M : Type 0} (entry : String → C → Option ℕ) (s : Scheduler C M)
    (v : IsConsistent entry s) where
  pub known-name : (n : String) (x : ℕ) → s.jobs_by_name n ≡ some x → job_name s x ≡ n
  known-name n x h = find_job-name (job_name s) n s.jobs x (sym (v.by_name n) ∙ h)

  module _ (new : ℕ) (fresh : mem new s.jobs ≡ false) where
    pub known-other : (n : String) (x : ℕ) → s.jobs_by_name n ≡ some x → (x == new) ≡ false
    known-other n x h = find_job-unlisted (job_name s) n new x s.jobs fresh (sym (v.by_name n) ∙ h)

    pub make_job-IsConsistent : (req : JobRequest) → IsConsistent entry (make_job new req s)
    make_job-IsConsistent req =
        let s' = make_job new req s in
        record {
          by_name = λ n.
              v.by_name n
              ∙ sym (
                  find_job-fresh (job_name s) (job_name s') new (kept-name new req s) n s.jobs
                    fresh);
          once = λ n.
              subst (λ k. k ≤ 1)
                (sym
                  (count-fresh (job_name s) (job_name s') new (kept-name new req s) n s.jobs fresh))
                (v.once n);
          known = v.known;
          entries = λ n.
              v.entries n
              ∙ sym (
                  entry_id-same (job_cron_id s) (job_cron_id s') (s.jobs_by_name n) (λ x h.
                    ap (λ (o : JobObject M). o.bare.cron_id) (if-false (known-other n x h) _ _)));
          own_ids = v.own_ids;
        }

    pub make_job-same : (req : JobRequest) (m : String) → IsSameJob entry m s (make_job new req s)
    make_job-same req m =
        let s' = make_job new req s in
        objects-same entry m s'.objects s (λ x h. if-false (known-other m x h) _ _)
          (find_job-fresh (job_name s) (job_name s') new (kept-name new req s) m s.jobs fresh)
