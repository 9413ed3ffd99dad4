-- ===== src/Scheduler/Updates.antt =====
-- `UpdateJob` puts the new job in place of the old one, but leaves its cron ID as it is, 0 for a new
-- job; and other methods find jobs by their cron IDs.
use ofelia.Common.{
  ℕ, String, Bool, true, false, not, ◌||◌, ◌≡◌, ap, ◌∙◌, none, List, ◌∷◌, ◌==◌, if-true, if-false,
  is_some, ◌is◌, is_refl, arith,
}
use ofelia.Scheduler.GoCron.{Cron}
use ofelia.Scheduler.{
  Scheduler, job_name, job_cron_id, find_job, cut_first, replace_job, use_global, update_job,
  after_update, remove_job,
}
use ofelia.Scheduler.Naming.{replace_job-names}
use ofelia.Scheduler.Consistency.{use_global-name, use_global-id}

module _ {C M : Type 0} (cron : Cron C) (type_name : M → String) where
  abbrev pub updated : String → ℕ → C → Scheduler C M → Scheduler C M
  updated n new c s = (after_update n new (c, none) (use_global cron type_name new s)).0

  pub update_job-updated :
      (n schedule : String) (new : ℕ) (c : C) (s : Scheduler C M)
      → is_some (find_job (job_name s) n s.jobs) ≡ true
      → s.disabled_names n ≡ false
      → cron.update_entry_job_by_name n schedule new s.cron ≡ (c, none)
      → update_job cron type_name n schedule new s ≡ (updated n new c s, none)
  unfolding update_job
  update_job-updated n schedule new c s found enabled ok =
      if-false {b = not (is_some (find_job (job_name s) n s.jobs)) || s.disabled_names n}
        (ground arith) _ _
      ∙ ap (λ o. after_update n new o (use_global cron type_name new s)) ok

  updated-name :
      (n : String) (new x : ℕ) (c : C) (s : Scheduler C M)
      → job_name (updated n new c s) x ≡ job_name s x
  updated-name n new x c s = use_global-name cron type_name new x s

  pub updated-id :
      (n : String) (new x : ℕ) (c : C) (s : Scheduler C M)
      → job_cron_id (updated n new c s) x ≡ job_cron_id s x
  updated-id n new x c s = use_global-id cron type_name new x s

  pub updated-jobs :
      (n : String) (new : ℕ) (c : C) (s : Scheduler C M) (l : List ℕ)
      → s.jobs ≡ l
      → (updated n new c s).jobs ≡ replace_job (job_name s) n new l
  updated-jobs n new c s l h =
      replace_job-names (job_name s) _ (λ x. updated-name n new x c s) n new s.jobs
      ∙ ap (replace_job (job_name s) n new) h

  replace_job-two :
      (names : ℕ → String) (n : String) (x y new : ℕ) (rest : List ℕ)
      → (names x is n) ≡ false
      → (names y is n) ≡ true
      → replace_job names n new (x ∷ y ∷ rest) ≡ x ∷ new ∷ rest
  unfolding replace_job
  replace_job-two names n x y new rest h k = ground arith

  replace_job-one :
      (names : ℕ → String) (x new : ℕ) (rest : List ℕ)
      → replace_job names (names x) new (x ∷ rest) ≡ new ∷ rest
  unfolding replace_job
  replace_job-one names x new rest = if-true (is_refl (names x)) _ _

  found-two :
      (names : ℕ → String) (n : String) (x y : ℕ) (rest : List ℕ)
      → (names x is n || names y is n) ≡ true
      → is_some (find_job names n (x ∷ y ∷ rest)) ≡ true
  unfolding find_job
  found-two names n x y rest h = ground arith

  cut_first-one : (p : ℕ → Bool) (x : ℕ) (rs : List ℕ) → p x ≡ true → cut_first p (x ∷ rs) ≡ rs
  unfolding cut_first
  cut_first-one p x rs h = if-true h _ _

  -- The scheduler after the updates of the jobs `a` and `b` to `new_a` and `new_b`.
  abbrev pub both_updated : ℕ → ℕ → String → ℕ → ℕ → Scheduler C M → Scheduler C M
  both_updated a b schedule new_a new_b s =
      (update_job cron type_name (job_name s b) schedule new_b
        (update_job cron type_name (job_name s a) schedule new_a s).0).0

  module _ (a b new_a new_b : ℕ) (rest : List ℕ) (schedule : String) (c c' : C) (s : Scheduler C M)
      (l : s.jobs ≡ a ∷ b ∷ rest) (d : (job_name s a is job_name s b) ≡ false)
      (ea : s.disabled_names (job_name s a) ≡ false) (eb : s.disabled_names (job_name s b) ≡ false)
      (na : job_name s new_a ≡ job_name s a)
      (ua : cron.update_entry_job_by_name (job_name s a) schedule new_a s.cron ≡ (c, none))
      (ub : cron.update_entry_job_by_name (job_name s b) schedule new_b c ≡ (c', none)) where
    abbrev first_updated : Scheduler C M
    first_updated = updated (job_name s a) new_a c s

    first-jobs : first_updated.jobs ≡ new_a ∷ b ∷ rest
    first-jobs =
        updated-jobs (job_name s a) new_a c s _ l ∙ replace_job-one (job_name s) a new_a (b ∷ rest)

    first-name : (x : ℕ) → job_name first_updated x ≡ job_name s x
    first-name x = updated-name (job_name s a) new_a x c s

    named_b : (job_name first_updated b is job_name s b) ≡ true
    named_b = ap (λ k. k is job_name s b) (first-name b) ∙ is_refl (job_name s b)

    both-updated :
        both_updated a b schedule new_a new_b s ≡ updated (job_name s b) new_b c' first_updated
    both-updated =
        ap (λ o. (update_job cron type_name (job_name s b) schedule new_b o.0).0)
          (update_job-updated (job_name s a) schedule new_a c s
            (ap (λ rs. is_some (find_job (job_name s) (job_name s a) rs)) l
              ∙ found-two (job_name s) (job_name s a) a b rest
                  (ground (arith, is_refl (job_name s a))))
            ea ua)
        ∙ ap (λ o. o.0)
            (update_job-updated (job_name s b) schedule new_b c' first_updated
              (ap (λ rs. is_some (find_job (job_name first_updated) (job_name s b) rs)) first-jobs
                ∙ found-two (job_name first_updated) (job_name s b) new_a b rest
                    (ground (arith, named_b)))
              eb ub)

    both-jobs : (both_updated a b schedule new_a new_b s).jobs ≡ new_a ∷ new_b ∷ rest
    both-jobs =
        ap (λ t. t.jobs) both-updated
        ∙ updated-jobs (job_name s b) new_b c' first_updated _ first-jobs
        ∙ replace_job-two _ (job_name s b) new_a b new_b rest
            (ap (λ k. k is job_name s b) (first-name new_a ∙ na) ∙ d) named_b

    both-id : (x : ℕ) → job_cron_id (both_updated a b schedule new_a new_b s) x ≡ job_cron_id s x
    both-id x =
        ap (λ t. job_cron_id t x) both-updated
        ∙ updated-id (job_name s b) new_b x c' first_updated
        ∙ updated-id (job_name s a) new_a x c s

  -- Two jobs at the head of the list are updated, and go-cron takes the updates. The new jobs have
  -- the names of the old ones, and no cron ID yet. Then removing the second one cuts the first one
  -- out of the list, and leaves the second one there.
  pub remove_job-other :
      (a b new_a new_b : ℕ) (rest : List ℕ) (schedule : String) (c c' : C) (s : Scheduler C M)
      → s.jobs ≡ a ∷ b ∷ rest
      → (job_name s a is job_name s b) ≡ false
      → s.disabled_names (job_name s a) ≡ false
      → s.disabled_names (job_name s b) ≡ false
      → job_name s new_a ≡ job_name s a
      → job_name s new_b ≡ job_name s b
      → job_cron_id s new_a ≡ 0
      → job_cron_id s new_b ≡ 0
      → cron.update_entry_job_by_name (job_name s a) schedule new_a s.cron ≡ (c, none)
      → cron.update_entry_job_by_name (job_name s b) schedule new_b c ≡ (c', none)
      → (remove_job cron type_name new_b (both_updated a b schedule new_a new_b s)).jobs
        ≡ new_b ∷ rest
  unfolding remove_job
  remove_job-other a b new_a new_b rest schedule c c' s l d ea eb na nb ia ib ua ub =
      let t = both_updated a b schedule new_a new_b s in
      ap (cut_first (λ x. x == new_b || job_cron_id t x == job_cron_id t new_b))
        (both-jobs a b new_a new_b rest schedule c c' s l d ea eb na ua ub)
      ∙ cut_first-one _ new_a (new_b ∷ rest) (
          ground (
            arith,
            ia,
            ib,
            both-id a b new_a new_b rest schedule c c' s l d ea eb na ua ub new_a,
            both-id a b new_a new_b rest schedule c c' s l d ea eb na ua ub new_b,
          ))
