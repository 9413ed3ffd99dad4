-- ===== src/JobsApi/Keeping.antt =====
-- What an answer of the API keeps of the job of a name.
use ofelia.Common.{
  ℕ, String, Bool, true, false, not, ◌≡◌, refl, ◌∙◌, Option, none, some, if-false, ◌is◌, arith,
  if-all,
}
use ofelia.Scheduler.{SchedulerError, Scheduler}
use ofelia.JobsApi.Names.{IsSameJob, refl-IsSameJob}
use ofelia.JobsApi.{
  JobRequest, Request, JobsApi, validate_job_name, of_body, decoded, after_add_job, with_scheduler,
}

-- Whether a body that decodes is about another name.
abbrev pub is_about_other : String → Option JobRequest → Bool
is_about_other m none = true
is_about_other m (some req) = not (m is req.name)

module _ {C M : Type 0} (entry : String → C → Option ℕ) (m : String) where
  -- All that is kept of the job of the name, and its origin.
  unfoldable pub IsSame : JobsApi C M → JobsApi C M → Type 0
  IsSame api api' =
      IsSameJob entry m api.scheduler api'.scheduler × (api'.origins m ≡ api.origins m)

  pub refl-IsSame : (api : JobsApi C M) → IsSame api api
  unfolding IsSame
  refl-IsSame api = (refl-IsSameJob entry m api.scheduler, refl)

  of_body-IsSame :
      (body : Option JobRequest) (f : JobRequest → JobsApi C M → JobsApi C M × ℕ)
      (api : JobsApi C M)
      → is_about_other m body ≡ true
      → ((req : JobRequest)
          → (req.name is "") ≡ false
          → (m is req.name) ≡ false
          → IsSame api (f req api).0)
      → IsSame api (of_body body f api).0
  unfolding validate_job_name
  of_body-IsSame none f api other h = refl-IsSame api
  of_body-IsSame (some req) f api other h =
      if-all {A = JobsApi C M × ℕ} (λ x. IsSame api x.0) (validate_job_name req.name) _ _
        (λ valid. h req (ground arith) (ground arith)) (λ _. refl-IsSame api)

  pub decoded-IsSame :
      (r : Request) (f : JobRequest → JobsApi C M → JobsApi C M × ℕ) (api : JobsApi C M)
      → is_about_other m r.body ≡ true
      → ((req : JobRequest)
          → (req.name is "") ≡ false
          → (m is req.name) ≡ false
          → IsSame api (f req api).0)
      → IsSame api (decoded r f api).0
  unfolding decoded
  decoded-IsSame r f api other h =
      if-all {A = JobsApi C M × ℕ} (λ x. IsSame api x.0) (not r.is_post) _ _ (λ _. refl-IsSame api)
        (λ _. of_body-IsSame r.body f api other h)

  pub with_scheduler-IsSame :
      (api : JobsApi C M) (x : Scheduler C M × Option SchedulerError)
      → IsSameJob entry m api.scheduler x.0
      → IsSame api (with_scheduler api x).0
  unfolding IsSame
  with_scheduler-IsSame api (s, e) h = (h, refl)

  pub after_add_job-IsSame :
      (r : Request) (req : JobRequest) (api₀ api : JobsApi C M) (ok : ℕ)
      (x : Scheduler C M × Option SchedulerError)
      → (m is req.name) ≡ false
      → api.origins m ≡ api₀.origins m
      → IsSameJob entry m api₀.scheduler x.0
      → IsSame api₀ (after_add_job r req api ok x).0
  unfolding IsSame
  after_add_job-IsSame r req api₀ api ok (s, some e) other o h = (h, o)
  after_add_job-IsSame r req api₀ api ok (s, none) other o h = (h, if-false other _ _ ∙ o)
