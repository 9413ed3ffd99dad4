-- ===== src/Scheduler/Tags.antt =====
-- core/scheduler.go, `RemoveJobsByTag`, and what it and `GetJobsByTag` do with updated jobs.
use ofelia.Common.{
  ℕ, suc, String, Bool, true, false, ◌||◌, ◌≡◌, refl, sym, ap, ◌∙◌, subst, Option, none, some, List,
  [], ◌∷◌, ◌++◌, map, ◌==◌, if◌then◌else◌, is_some, arith,
}
use ofelia.Scheduler.GoCron.{Cron}
use ofelia.Scheduler.{Scheduler, set_key, job_name, job_cron_id, find_job, update_job, replace_job}
use ofelia.Scheduler.Naming.{mem}
use ofelia.Scheduler.Queries.{first_job, jobs_of_entries, get_jobs_by_tag}
use ofelia.Scheduler.Updates.{updated, update_job-updated, updated-id, updated-jobs}

-- Backwards over the list, up to the first job that `p` holds of.
unfoldable pub last_job : (ℕ → Bool) → List ℕ → Option ℕ
last_job p [] = none
last_job p (r ∷ rs) = elim (last_job p rs) [ some x ↦ some x | none ↦ if p r then some r else none ]

-- The list without that job.
unfoldable pub cut_last : (ℕ → Bool) → List ℕ → List ℕ
unfolding last_job
cut_last p [] = []
cut_last p (r ∷ rs) =
    let rest = cut_last p rs in
    if is_some (last_job p rs) then r ∷ rest else if p r then rs else r ∷ rs

module _ {C M : Type 0} where
  -- The job of an entry is removed, if there is one.
  abbrev pub remove_found : (ℕ → Bool) → Option ℕ → Scheduler C M → Scheduler C M
  remove_found p none s = s
  remove_found p (some r) s = record s {
    jobs_by_name = set_key (job_name s r) none s.jobs_by_name;
    disabled_names = set_key (job_name s r) false s.disabled_names;
    removed = s.removed ++ r ∷ [];
    jobs = cut_last p s.jobs;
  }

  -- `for _, entry := range entries`
  unfoldable pub remove_entries : List ℕ → Scheduler C M → Scheduler C M
  unfolding last_job cut_last
  remove_entries [] s = s
  remove_entries (id ∷ ids) s =
      let of_entry : ℕ → Bool = λ r. job_cron_id s r == id in
      remove_entries ids (remove_found of_entry (last_job of_entry s.jobs) s)

  -- `entries` are those with the tag; the number is what the method returns.
  unfoldable pub remove_tagged : Cron C → String → List ℕ → Scheduler C M → Scheduler C M × ℕ
  unfolding remove_entries
  remove_tagged cron tag [] s = (s, 0)
  remove_tagged cron tag (id ∷ ids) s =
      let (c, count) = cron.remove_by_tag tag s.cron in
      (remove_entries (id ∷ ids) (record s { cron = c }), count)

  unfoldable pub remove_jobs_by_tag : Cron C → String → Scheduler C M → Scheduler C M × ℕ
  unfolding remove_tagged
  remove_jobs_by_tag cron tag s = remove_tagged cron tag (cron.entries_by_tag tag s.cron) s

mem-nil : (x : ℕ) → mem x [] ≡ false
unfolding mem
mem-nil x = refl

mem-append : (x : ℕ) (rs ss : List ℕ) → mem x (rs ++ ss) ≡ (mem x rs || mem x ss)
unfolding mem
mem-append x [] ss = refl
mem-append x (r ∷ rs) ss = ground (arith, mem-append x rs ss)

mem-first_job : (p : ℕ → Bool) (x : ℕ) (rs : List ℕ) → p x ≡ false → mem x (first_job p rs) ≡ false
unfolding mem first_job
mem-first_job p x [] h = refl
mem-first_job p x (r ∷ rs) h = ground (arith, mem-first_job p x rs, ap p)

mem-replace_job :
    (names : ℕ → String) (n : String) (new : ℕ) (rs : List ℕ)
    → is_some (find_job names n rs) ≡ true
    → mem new (replace_job names n new rs) ≡ true
unfolding mem find_job replace_job
mem-replace_job names n new [] h = ground arith
mem-replace_job names n new (r ∷ rs) h = ground (arith, mem-replace_job names n new rs)

mem-cut_last :
    (p : ℕ → Bool) (x : ℕ) (rs : List ℕ)
    → p x ≡ false
    → mem x rs ≡ true
    → mem x (cut_last p rs) ≡ true
unfolding mem cut_last
mem-cut_last p x [] h m = ground arith
mem-cut_last p x (r ∷ rs) h m = ground (arith, mem-cut_last p x rs, ap p)

module _ {C M : Type 0} where
  remove_found-mem :
      (p : ℕ → Bool) (o : Option ℕ) (x : ℕ) (s : Scheduler C M)
      → p x ≡ false
      → mem x s.jobs ≡ true
      → mem x (remove_found p o s).jobs ≡ true
  remove_found-mem p none x s h m = m
  remove_found-mem p (some r) x s h m = mem-cut_last p x s.jobs h m

  remove_found-id :
      (p : ℕ → Bool) (o : Option ℕ) (x : ℕ) (s : Scheduler C M)
      → job_cron_id (remove_found p o s) x ≡ job_cron_id s x
  remove_found-id p none x s = refl
  remove_found-id p (some r) x s = refl

  remove_entries-mem :
      (ids : List ℕ) (x : ℕ) (s : Scheduler C M)
      → job_cron_id s x ≡ 0
      → mem x s.jobs ≡ true
      → mem x (remove_entries (map suc ids) s).jobs ≡ true
  unfolding remove_entries
  remove_entries-mem [] x s z m = m
  remove_entries-mem (id ∷ ids) x s z m =
      let p : ℕ → Bool = λ r. job_cron_id s r == suc id in
      let o = last_job p s.jobs in
      remove_entries-mem ids x (remove_found p o s) (remove_found-id p o x s ∙ z)
        (remove_found-mem p o x s (ground (arith, z)) m)

  jobs_of_entries-mem :
      (ids : List ℕ) (x : ℕ) (s : Scheduler C M)
      → job_cron_id s x ≡ 0
      → mem x (jobs_of_entries (map suc ids) s) ≡ false
  unfolding jobs_of_entries
  jobs_of_entries-mem [] x s z = mem-nil x
  jobs_of_entries-mem (id ∷ ids) x s z =
      let p : ℕ → Bool = λ r. job_cron_id s r == suc id in
      ground (
        arith,
        mem-append x (first_job p s.jobs) (jobs_of_entries (map suc ids) s),
        mem-first_job p x s.jobs (ground (arith, z)),
        jobs_of_entries-mem ids x s z,
      )

  remove_tagged-mem :
      (cron : Cron C) (tag : String) (ids entries : List ℕ) (x : ℕ) (s : Scheduler C M)
      → entries ≡ map suc ids
      → job_cron_id s x ≡ 0
      → mem x s.jobs ≡ true
      → mem x (remove_tagged cron tag entries s).0.jobs ≡ true
  unfolding remove_tagged
  remove_tagged-mem cron tag ids [] x s h z m = m
  remove_tagged-mem cron tag ids (e ∷ es) x s h z m =
      let s' = record s { cron = (cron.remove_by_tag tag s.cron).0 } in
      ap (λ l. mem x (remove_entries l s').jobs) h ∙ remove_entries-mem ids x s' z m

  -- `UpdateJob` has put a job without a cron ID in the place of an active one, and go-cron has taken
  -- it. Whatever tag its entry has, given that no ID is 0: `RemoveJobsByTag` does not take the job
  -- off the list, and `GetJobsByTag` does not find it.
  pub remove_jobs_by_tag-updated :
      (cron : Cron C) (type_name : M → String) (n schedule tag : String) (new : ℕ) (c : C)
      (ids : List ℕ) (s : Scheduler C M)
      → is_some (find_job (job_name s) n s.jobs) ≡ true
      → s.disabled_names n ≡ false
      → cron.update_entry_job_by_name n schedule new s.cron ≡ (c, none)
      → job_cron_id s new ≡ 0
      → cron.entries_by_tag tag c ≡ map suc ids
      → let s' = (update_job cron type_name n schedule new s).0 in
        (mem new (remove_jobs_by_tag cron tag s').0.jobs ≡ true)
        × (mem new (get_jobs_by_tag cron tag s') ≡ false)
  unfolding remove_jobs_by_tag get_jobs_by_tag
  remove_jobs_by_tag-updated cron type_name n schedule tag new c ids s found enabled ok z tagged =
      let t = updated cron type_name n new c s in
      let z' = updated-id cron type_name n new new c s ∙ z in
      subst
        (λ (s' : Scheduler C M).
          (mem new (remove_jobs_by_tag cron tag s').0.jobs ≡ true)
          × (mem new (get_jobs_by_tag cron tag s') ≡ false))
        (sym
          (ap (λ o. o.0) (update_job-updated cron type_name n schedule new c s found enabled ok)))
        (
          remove_tagged-mem cron tag ids (cron.entries_by_tag tag c) new t tagged z' (
              ap (mem new) (updated-jobs cron type_name n new c s s.jobs refl)
              ∙ mem-replace_job (job_name s) n new s.jobs found),
          ap (λ l. mem new (jobs_of_entries l t)) tagged ∙ jobs_of_entries-mem ids new t z',
        )
