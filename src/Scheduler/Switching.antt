-- ===== src/Scheduler/Switching.antt =====
-- Disabling, enabling, running and reading jobs.
use mathlib.Core.List.Perm
use mathlib.Core.List.{Perm, perm_middle}
use ofelia.Common.{
  ℕ, String, Bool, true, false, not, ◌||◌, ◌≡◌, refl, sym, ap, ◌∙◌, subst, or_true, Option, none,
  some, List, [], ◌∷◌, ◌++◌, if◌then◌else◌, if-true, if-false, is_some, is_iff, is_refl, arith,
}
use ofelia.Scheduler.GoCron.{Cron}
use ofelia.Scheduler.{
  Scheduler, SchedulerError, job_not_found, set_key, job_name, find_job, after_pause, disable_job,
  after_resume, enable_job, after_trigger, run_job,
}
use ofelia.Scheduler.Queries.{
  keep, lookup_job, get_job, get_disabled_job, get_active_jobs, get_disabled_jobs,
}
use ofelia.Scheduler.Consistency.{IsConsistent}

place :
    (b : Bool) (r : ℕ) (xs ys rs : List ℕ)
    → Perm (xs ++ ys) rs
    → Perm ((if not b then r ∷ xs else xs) ++ (if b then r ∷ ys else ys)) (r ∷ rs)
place true r xs ys rs h = Perm.trans (perm_middle xs ys) (Perm.cons r h)
place false r xs ys rs h = Perm.cons r h

keep-perm : (p : ℕ → Bool) (rs : List ℕ) → Perm (keep (λ r. not (p r)) rs ++ keep p rs) rs
unfolding keep
keep-perm p [] = Perm.rfl
keep-perm p (r ∷ rs) = place (p r) r (keep (λ x. not (p x)) rs) (keep p rs) rs (keep-perm p rs)

module _ {C M : Type 0} where
  -- The active jobs and the disabled jobs are the jobs, each job being in one of the lists.
  pub active-disabled : (s : Scheduler C M) → Perm (get_active_jobs s ++ get_disabled_jobs s) s.jobs
  unfolding get_active_jobs get_disabled_jobs
  active-disabled s = keep-perm (λ r. s.disabled_names (job_name s r)) s.jobs

  module _ (cron : Cron C) (type_name : M → String) where
    -- `RunJob` fails with `ErrJobNotFound`, and leaves everything as it is, exactly if `GetJob` has no
    -- job of that name; otherwise it triggers the entry of that name.
    pub run_job-get_job :
        (n : String) (s : Scheduler C M)
        → run_job cron type_name n s ≡ (
            if is_some (get_job n s)
            then after_trigger n (cron.trigger_entry_by_name n s.cron) s
            else (s, some (job_not_found n)))
    unfolding run_job get_job
    run_job-get_job n s = ground arith

    module _ (entry : String → C → Option ℕ) (n : String) (r : ℕ) (c : C) (s : Scheduler C M)
        (v : IsConsistent entry s) (active : get_job n s ≡ some r)
        (paused : cron.pause_entry_by_name n s.cron ≡ (c, none)) where
      abbrev disabled : Scheduler C M
      disabled = record s { cron = c; disabled_names = set_key n true s.disabled_names }

      was_enabled : s.disabled_names n ≡ false
      unfolding get_job
      was_enabled = ground arith

      was_found : find_job (job_name s) n s.jobs ≡ some r
      unfolding get_job lookup_job
      was_found = ground (arith, v.by_name n)

      disable_job-disabled : disable_job cron type_name n s ≡ (disabled, none)
      unfolding disable_job
      disable_job-disabled =
          if-false (ap (λ o. not (is_some o)) was_found) _ _
          ∙ if-false was_enabled _ _
          ∙ ap (λ o. after_pause n o s) paused

      now_disabled : disabled.disabled_names n ≡ true
      now_disabled = if-true (is_refl n) _ _

      names_restored :
          (m : String) → set_key n false (set_key n true s.disabled_names) m ≡ s.disabled_names m
      names_restored m = ground (arith, was_enabled, is_iff m n, ap s.disabled_names)

      -- Of a consistent scheduler, an active job that go-cron pauses becomes a disabled one: `GetJob`
      -- no longer has it, `GetDisabledJob` has it, and `RunJob` refuses it.
      pub disable_job-refuses :
          let (d, err) = disable_job cron type_name n s in
          (err ≡ none)
          × (get_job n d ≡ none)
          × (get_disabled_job n d ≡ some r)
          × (run_job cron type_name n d ≡ (d, some (job_not_found n)))
      unfolding get_job get_disabled_job lookup_job run_job
      disable_job-refuses =
          subst
            (λ (o : Scheduler C M × Option SchedulerError).
              (o.1 ≡ none)
              × (get_job n o.0 ≡ none)
              × (get_disabled_job n o.0 ≡ some r)
              × (run_job cron type_name n o.0 ≡ (o.0, some (job_not_found n))))
            (sym disable_job-disabled)
            (
              refl,
              if-true now_disabled _ _,
              if-false (ap not now_disabled) _ _ ∙ v.by_name n ∙ was_found,
              if-true (ap (λ b. not (is_some (s.jobs_by_name n)) || b) now_disabled ∙ or_true _) _
                  _,
            )

      -- Where go-cron resumes it too, enabling it again leaves the scheduler as it was before, except for
      -- the state of go-cron.
      pub enable_job-disable_job :
          (c' : C)
          → cron.resume_entry_by_name n c ≡ (c', none)
          → enable_job cron type_name n (disable_job cron type_name n s).0
            ≡ (record s { cron = c' }, none)
      unfolding enable_job
      enable_job-disable_job c' resumed =
          ap (λ o. (enable_job cron type_name n o.0)) disable_job-disabled
          ∙ if-false (ap not now_disabled) _ _
          ∙ if-false (ap (λ o. not (is_some o)) was_found) _ _
          ∙ ap (λ o. after_resume n o disabled) resumed
          ∙ (λ i. (record s { cron = c'; disabled_names = λ m. names_restored m i }, none))
