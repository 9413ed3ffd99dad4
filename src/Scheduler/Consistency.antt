-- ===== src/Scheduler/Consistency.antt =====
-- What holds between the scheduler's list of jobs, its map of names, its disabled names and the
-- entries of go-cron.
use ofelia.Common.{
  ℕ, ◌≤◌, String, Bool, true, false, ◌≡◌, ◌≢◌, refl, sym, ap, ◌∙◌, subst, Option, none, some, [],
  ◌∷◌, ◌++◌, ◌==◌, if◌then◌else◌, if-true, if-false, Bool-cases, inl, inr, is_some, ◌is◌, is_iff,
  arith,
}
use ofelia.Job.{GoError}
use ofelia.Scheduler.GoCron.{Cron, EntryAdded, refused, entered}
use ofelia.Scheduler.{
  Scheduler, SchedulerError, JobObject, set_key, job_name, job_cron_id, find_job, use_global,
  set_id, after_add, after_pause, after_resume, after_trigger,
}
use ofelia.Scheduler.Naming.{
  count, find_job-append, count-append, count-none, find_job-name, find_job-names, count-names,
}

abbrev pub entry_id : (ℕ → ℕ) → Option ℕ → Option ℕ
entry_id id none = none
entry_id id (some r) = some (id r)

entry_id-none : (id : ℕ → ℕ) (o : Option ℕ) → entry_id id o ≡ none → o ≡ none
entry_id-none id none h = refl
entry_id-none id (some r) h = ground arith

pub entry_id-same :
    (id id' : ℕ → ℕ) (o : Option ℕ)
    → ((r : ℕ) → o ≡ some r → id' r ≡ id r)
    → entry_id id' o ≡ entry_id id o
entry_id-same id id' none same = refl
entry_id-same id id' (some r) same = ap some (same r refl)

module _ {C M : Type 0} (cron : Cron C) (type_name : M → String) where
  pub use_global-name :
      (r x : ℕ) (s : Scheduler C M) → job_name (use_global cron type_name r s) x ≡ job_name s x
  use_global-name r x s = ground (arith, ap (λ o. (s.objects o).bare.name))

  pub use_global-id :
      (r x : ℕ) (s : Scheduler C M)
      → job_cron_id (use_global cron type_name r s) x ≡ job_cron_id s x
  use_global-id r x s = ground (arith, ap (λ o. (s.objects o).bare.cron_id))

module _ {C M : Type 0} (entry : String → C → Option ℕ) where
  -- The map has what a search of the list finds, no two jobs have the same name, only known names
  -- are disabled, each name's entry in go-cron has the ID of its job, and no two entries share one.
  pub record IsConsistent (s : Scheduler C M) : Type 0 where
    pub by_name : (n : String) → s.jobs_by_name n ≡ find_job (job_name s) n s.jobs
    pub once : (n : String) → count (job_name s) n s.jobs ≤ 1
    pub known : (n : String) → s.disabled_names n ≡ true → is_some (s.jobs_by_name n) ≡ true
    pub entries : (n : String) → entry n s.cron ≡ entry_id (job_cron_id s) (s.jobs_by_name n)
    pub own_ids :
        (n m : String) (id : ℕ) → entry n s.cron ≡ some id → entry m s.cron ≡ some id → n ≡ m

  abbrev pub LeavesConsistent : Scheduler C M × Option SchedulerError → Type 0
  LeavesConsistent o = IsConsistent o.0

  -- Entries that stay, and another set of known names that are disabled.
  pub switched :
      (c : C) (d : String → Bool) (s : Scheduler C M)
      → IsConsistent s
      → ((m : String) → entry m c ≡ entry m s.cron)
      → ((m : String) → d m ≡ true → is_some (s.jobs_by_name m) ≡ true)
      → IsConsistent (record s { cron = c; disabled_names = d })
  switched c d s v same known = record {
    by_name = v.by_name;
    once = v.once;
    known = known;
    entries = λ n. same n ∙ v.entries n;
    own_ids = λ n m id a b. v.own_ids n m id (sym (same n) ∙ a) (sym (same m) ∙ b);
  }

  pub after_pause-IsConsistent :
      (n : String) (o : C × Option GoError) (s : Scheduler C M)
      → IsConsistent s
      → ((m : String) → entry m o.0 ≡ entry m s.cron)
      → is_some (s.jobs_by_name n) ≡ true
      → IsConsistent (after_pause n o s).0
  after_pause-IsConsistent n (c, some e) s v same named =
      switched c s.disabled_names s v same v.known
  after_pause-IsConsistent n (c, none) s v same named =
      switched c (set_key n true s.disabled_names) s v same
        (λ m. ground (arith, v.known m, is_iff m n))

  pub after_resume-IsConsistent :
      (n : String) (o : C × Option GoError) (s : Scheduler C M)
      → IsConsistent s
      → ((m : String) → entry m o.0 ≡ entry m s.cron)
      → IsConsistent (after_resume n o s).0
  after_resume-IsConsistent n (c, some e) s v same = switched c s.disabled_names s v same v.known
  after_resume-IsConsistent n (c, none) s v same =
      switched c (set_key n false s.disabled_names) s v same (λ m. ground (arith, v.known m))

  pub after_trigger-IsConsistent :
      (n : String) (o : C × Option GoError) (s : Scheduler C M)
      → IsConsistent s
      → ((m : String) → entry m o.0 ≡ entry m s.cron)
      → IsConsistent (after_trigger n o s).0
  after_trigger-IsConsistent n (c, some e) s v same = switched c s.disabled_names s v same v.known
  after_trigger-IsConsistent n (c, none) s v same = switched c s.disabled_names s v same v.known

  pub same_jobs :
      (o : ℕ → JobObject M) (s : Scheduler C M)
      → IsConsistent s
      → ((r : ℕ) → (o r).bare.name ≡ job_name s r)
      → ((r : ℕ) → (o r).bare.cron_id ≡ job_cron_id s r)
      → IsConsistent (record s { objects = o })
  same_jobs o s v names ids = record {
    by_name = λ n. v.by_name n ∙ sym (find_job-names (job_name s) _ names n s.jobs);
    once = λ n. subst (λ k. k ≤ 1) (sym (count-names (job_name s) _ names n s.jobs)) (v.once n);
    known = v.known;
    entries =
        λ n. v.entries n ∙ sym (entry_id-same (job_cron_id s) _ (s.jobs_by_name n) (λ r _. ids r));
    own_ids = v.own_ids;
  }

  pub set_id-name : (r id x : ℕ) (s : Scheduler C M) → job_name (set_id r id s) x ≡ job_name s x
  set_id-name r id x s = ground (arith, ap (λ o. (s.objects o).bare.name))

  set_id-own : (r id : ℕ) (s : Scheduler C M) → job_cron_id (set_id r id s) r ≡ id
  set_id-own r id s = ground arith

  set_id-other :
      (r id x : ℕ) (s : Scheduler C M)
      → (x == r) ≡ false
      → job_cron_id (set_id r id s) x ≡ job_cron_id s x
  set_id-other r id x s h = ground arith

  other_job :
      (n : String) (r x : ℕ) (s : Scheduler C M)
      → (n is job_name s r) ≡ false
      → job_name s x ≡ n
      → (x == r) ≡ false
  other_job n r x s h k = ground (arith, ap (job_name s), is_iff n (job_name s r))

  unlisted :
      (r : ℕ) (s : Scheduler C M)
      → IsConsistent s
      → entry (job_name s r) s.cron ≡ none
      → find_job (job_name s) (job_name s r) s.jobs ≡ none
  unlisted r s v free =
      sym (v.by_name (job_name s r))
      ∙ entry_id-none (job_cron_id s) _ (sym (v.entries (job_name s r)) ∙ free)

  pub after_add-IsConsistent :
      (r : ℕ) (o : C × EntryAdded) (s : Scheduler C M)
      → IsConsistent s
      → ((c : C) (id : ℕ)
          → o ≡ (c, entered id)
          → (entry (job_name s r) s.cron ≡ none)
            × ((m : String) → entry m s.cron ≢ some id)
            × ((m : String) → entry m c ≡ (if m is job_name s r then some id else entry m s.cron)))
      → ((c : C) (e : GoError) → o ≡ (c, refused e) → (m : String) → entry m c ≡ entry m s.cron)
      → IsConsistent (after_add r o s).0
  after_add-IsConsistent r (c, refused e) s v good bad =
      switched c s.disabled_names s v (bad c e refl) v.known
  after_add-IsConsistent r (c, entered id) s v good bad =
      let (free, fresh, grown) = good c id refl in
      let s' = set_id r id (record s { cron = c }) in
      let none_there = unlisted r s v free in
      record {
        by_name = λ n. ground (
          arith,
          find_job-names (job_name s) (job_name s') (λ x. set_id-name r id x s) n
              (s.jobs ++ r ∷ []),
          find_job-append (job_name s) n s.jobs r,
          v.by_name n,
          none_there,
          is_iff n (job_name s r),
          is_iff (job_name s r) n,
        );
        once = λ n. ground (
          arith,
          count-names (job_name s) (job_name s') (λ x. set_id-name r id x s) n (s.jobs ++ r ∷ []),
          count-append (job_name s) n s.jobs r,
          v.once n,
          none_there,
          count-none (job_name s) n s.jobs,
          is_iff (job_name s r) n,
        );
        known = λ n. ground (arith, v.known n);
        entries = λ n. elim (Bool-cases (n is job_name s r)) [
          | inl e ↦
              grown n
              ∙ if-true e (some id) (entry n s.cron)
              ∙ ap some (sym (set_id-own r id s))
              ∙ sym (ap (entry_id (job_cron_id s')) (if-true e (some r) (s.jobs_by_name n)))
          | inr e ↦
              grown n
              ∙ if-false e (some id) (entry n s.cron)
              ∙ v.entries n
              ∙ sym (
                  entry_id-same (job_cron_id s) (job_cron_id s') (s.jobs_by_name n) (λ x h.
                    set_id-other r id x s (
                      other_job n r x s e
                        (find_job-name (job_name s) n s.jobs x (sym (v.by_name n) ∙ h)))))
              ∙ sym (ap (entry_id (job_cron_id s')) (if-false e (some r) (s.jobs_by_name n)))
        ];
        own_ids = λ n m i a b. ground (
          arith,
          grown n,
          grown m,
          fresh n,
          fresh m,
          v.own_ids n m i,
          is_iff n (job_name s r),
          is_iff m (job_name s r),
        );
      }
