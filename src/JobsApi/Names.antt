-- ===== src/JobsApi/Names.antt =====
-- What is kept of the job of a name, and that the ends of the scheduler's methods leave it alone where
-- they are about another one.
use ofelia.Common.{
  ℕ, String, Bool, false, ◌≡◌, refl, ap, ◌∙◌, Option, none, some, [], ◌∷◌, ◌++◌, ◌==◌, if-false,
  ◌is◌, is_iff, arith,
}
use ofelia.Job.{GoError}
use ofelia.Scheduler.GoCron.{EntryAdded, refused, entered}
use ofelia.Scheduler.{
  Scheduler, JobObject, job_name, find_job, set_id, after_add, after_pause, after_update,
  after_resume, after_trigger,
}
use ofelia.Scheduler.Naming.{find_job-append, find_job-names, find_job-replace_job}
use ofelia.Scheduler.Consistency.{set_id-name}

module _ {M : Type 0} where
  -- The record behind a pointer.
  abbrev pub object_of : (ℕ → JobObject M) → Option ℕ → Option (JobObject M)
  object_of objects none = none
  object_of objects (some x) = some (objects x)

  object_of-same :
      (objects objects' : ℕ → JobObject M) (o : Option ℕ)
      → ((x : ℕ) → o ≡ some x → objects' x ≡ objects x)
      → object_of objects' o ≡ object_of objects o
  object_of-same objects objects' none same = refl
  object_of-same objects objects' (some x) same = ap some (same x refl)

module _ {C M : Type 0} (entry : String → C → Option ℕ) (m : String) where
  -- The map of names has the same pointer under the name, the list of jobs has the same one, the
  -- record behind it is the same, and so are whether the name is disabled and its entry in go-cron.
  pub record IsSameJob (s s' : Scheduler C M) : Type 0 where
    pub by_name : s'.jobs_by_name m ≡ s.jobs_by_name m
    pub listed : find_job (job_name s') m s'.jobs ≡ find_job (job_name s) m s.jobs
    pub object : object_of s'.objects (s'.jobs_by_name m) ≡ object_of s.objects (s.jobs_by_name m)
    pub disabled : s'.disabled_names m ≡ s.disabled_names m
    pub in_cron : entry m s'.cron ≡ entry m s.cron

  pub refl-IsSameJob : (s : Scheduler C M) → IsSameJob s s
  refl-IsSameJob s = record {
    by_name = refl;
    listed = refl;
    object = refl;
    disabled = refl;
    in_cron = refl;
  }

  pub trans-IsSameJob : (a b c : Scheduler C M) → IsSameJob a b → IsSameJob b c → IsSameJob a c
  trans-IsSameJob a b c v w = record {
    by_name = w.by_name ∙ v.by_name;
    listed = w.listed ∙ v.listed;
    object = w.object ∙ v.object;
    disabled = w.disabled ∙ v.disabled;
    in_cron = w.in_cron ∙ v.in_cron;
  }

  switched-same :
      (c : C) (d : String → Bool) (s : Scheduler C M)
      → entry m c ≡ entry m s.cron
      → d m ≡ s.disabled_names m
      → IsSameJob s (record s { cron = c; disabled_names = d })
  switched-same c d s e h = record {
    by_name = refl;
    listed = refl;
    object = refl;
    disabled = h;
    in_cron = e;
  }

  pub objects-same :
      (o : ℕ → JobObject M) (s : Scheduler C M)
      → ((x : ℕ) → s.jobs_by_name m ≡ some x → o x ≡ s.objects x)
      → find_job (λ x. (o x).bare.name) m s.jobs ≡ find_job (job_name s) m s.jobs
      → IsSameJob s (record s { objects = o })
  objects-same o s same found = record {
    by_name = refl;
    listed = found;
    object = object_of-same s.objects o (s.jobs_by_name m) same;
    disabled = refl;
    in_cron = refl;
  }

  pub after_add-same :
      (r : ℕ) (x : C × EntryAdded) (s : Scheduler C M)
      → (m is job_name s r) ≡ false
      → ((y : ℕ) → s.jobs_by_name m ≡ some y → (y == r) ≡ false)
      → entry m x.0 ≡ entry m s.cron
      → IsSameJob s (after_add r x s).0
  after_add-same r (c, refused e) s h others k = switched-same c s.disabled_names s k refl
  after_add-same r (c, entered id) s h others k =
      let s' = set_id r id (record s { cron = c }) in
      record {
        by_name = if-false h _ _;
        listed =
            find_job-names (job_name s) (job_name s') (λ x. set_id-name entry r id x s) m
              (s.jobs ++ r ∷ [])
            ∙ find_job-append (job_name s) m s.jobs r
            ∙ ground (arith, is_iff m (job_name s r), is_iff (job_name s r) m);
        object =
            ap (object_of s'.objects) (if-false h _ _)
            ∙ object_of-same s.objects s'.objects (s.jobs_by_name m)
                (λ y e. if-false (others y e) _ _);
        disabled = refl;
        in_cron = k;
      }

  pub after_update-same :
      (n : String) (new : ℕ) (x : C × Option GoError) (s : Scheduler C M)
      → (m is n) ≡ false
      → job_name s new ≡ n
      → entry m x.0 ≡ entry m s.cron
      → IsSameJob s (after_update n new x s).0
  after_update-same n new (c, some e) s h named k = switched-same c s.disabled_names s k refl
  after_update-same n new (c, none) s h named k = record {
    by_name = if-false h _ _;
    listed = find_job-replace_job (job_name s) n m new s.jobs named h;
    object = ap (object_of s.objects) (if-false h _ _);
    disabled = refl;
    in_cron = k;
  }

  pub after_pause-same :
      (n : String) (x : C × Option GoError) (s : Scheduler C M)
      → (m is n) ≡ false
      → entry m x.0 ≡ entry m s.cron
      → IsSameJob s (after_pause n x s).0
  after_pause-same n (c, some e) s h k = switched-same c s.disabled_names s k refl
  after_pause-same n (c, none) s h k = switched-same c _ s k (if-false h _ _)

  pub after_resume-same :
      (n : String) (x : C × Option GoError) (s : Scheduler C M)
      → (m is n) ≡ false
      → entry m x.0 ≡ entry m s.cron
      → IsSameJob s (after_resume n x s).0
  after_resume-same n (c, some e) s h k = switched-same c s.disabled_names s k refl
  after_resume-same n (c, none) s h k = switched-same c _ s k (if-false h _ _)

  pub after_trigger-same :
      (n : String) (x : C × Option GoError) (s : Scheduler C M)
      → entry m x.0 ≡ entry m s.cron
      → IsSameJob s (after_trigger n x s).0
  after_trigger-same n (c, some e) s k = switched-same c s.disabled_names s k refl
  after_trigger-same n (c, none) s k = switched-same c s.disabled_names s k refl
