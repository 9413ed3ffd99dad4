-- ===== src/JobsApi/Serving.antt =====
-- What requests to the API leave alone: the jobs of other names.
use ofelia.Common.{
  ℕ, String, Bool, true, false, not, ◌≡◌, refl, sym, ap, ◌∙◌, Option, none, some, [], if-false,
  ◌is◌, if-all, is_some, ◌||◌,
}
use ofelia.Job.{GoError}
use ofelia.Scheduler.GoCron.{Cron, Documented}
use ofelia.Scheduler.{
  SchedulerError, Scheduler, job_name, find_job, use_global, after_update, disable_job, enable_job,
  run_job, add_job_with_tags, remove_job, update_job,
}
use ofelia.Scheduler.Naming.{mem}
use ofelia.Scheduler.Queries.{get_any_job}
use ofelia.Scheduler.Consistency.{IsConsistent, use_global-name}
use ofelia.JobsApi.Names.{IsSameJob, trans-IsSameJob, after_update-same}
use ofelia.JobsApi.Methods.{
  remove_job-same, use_global-same, add_job-same, disable_job-same, enable_job-same, run_job-same,
}
use ofelia.JobsApi.Making.{
  made-name, kept-name, known-name, known-other, make_job-IsConsistent, make_job-same,
}
use ofelia.JobsApi.{
  JobRequest, Request, JobsApi, Validators, makes_job, make_job, after_add_job, remove_old,
  delete_found, replace_any, after_update_job, run_job_handler, toggle_job_handler,
  disable_job_handler, enable_job_handler, create_job_handler, update_job_handler,
  delete_job_handler,
}
use ofelia.JobsApi.Routes.{
  Route, jobs_run, jobs_disable, jobs_enable, jobs_create, jobs_update, jobs_delete, serve,
}
use ofelia.JobsApi.Keeping.{
  is_about_other, IsSame, refl-IsSame, decoded-IsSame, with_scheduler-IsSame, after_add_job-IsSame,
}

module _ {C M : Type 0} (entry : String → C → Option ℕ) (cron : Cron C)
    (doc : Documented C cron entry) (type_name : M → String) (m : String) where
  delete_found-IsSame :
      (n : String) (o : Option ℕ) (api : JobsApi C M)
      → IsConsistent entry api.scheduler
      → api.scheduler.jobs_by_name n ≡ o
      → (m is n) ≡ false
      → IsSame entry m api (delete_found cron type_name n o api).0
  unfolding IsSame
  delete_found-IsSame n none api v there other = refl-IsSame entry m api
  delete_found-IsSame n (some j) api v there other =
      let s = api.scheduler in
      let name = known-name entry s v n j there in
      (
        remove_job-same entry cron doc type_name m j s v (ap s.jobs_by_name name ∙ there)
            (ap (λ k. m is k) name ∙ other),
        if-false other _ _,
      )

  remove_old-same :
      (new : ℕ) (req : JobRequest) (o : Option ℕ) (s : Scheduler C M)
      → IsConsistent entry s
      → mem new s.jobs ≡ false
      → s.jobs_by_name req.name ≡ o
      → (m is req.name) ≡ false
      → IsSameJob entry m s (remove_old cron type_name o (make_job new req s))
  remove_old-same new req none s v fresh there other = make_job-same entry s v new fresh req m
  remove_old-same new req (some old) s v fresh there other =
      let s' = make_job new req s in
      let name : job_name s' old ≡ req.name =
        kept-name new req s old (known-other entry s v new fresh req.name old there)
        ∙ known-name entry s v req.name old there in
      trans-IsSameJob entry m s s' (remove_job cron type_name old s')
        (make_job-same entry s v new fresh req m)
        (remove_job-same entry cron doc type_name m old s'
          (make_job-IsConsistent entry s v new fresh req) (ap s.jobs_by_name name ∙ there)
          (ap (λ k. m is k) name ∙ other))

  remove_old-name :
      (o : Option ℕ) (x : ℕ) (s : Scheduler C M)
      → job_name (remove_old cron type_name o s) x ≡ job_name s x
  unfolding remove_job
  remove_old-name none x s = refl
  remove_old-name (some old) x s = refl

  replace_any-IsSame :
      (new : ℕ) (r : Request) (req : JobRequest) (api : JobsApi C M)
      → IsConsistent entry api.scheduler
      → mem new api.scheduler.jobs ≡ false
      → (req.name is "") ≡ false
      → (m is req.name) ≡ false
      → IsSame entry m api
          (replace_any cron type_name new r req
            (record api { scheduler = make_job new req api.scheduler })).0
  unfolding replace_any get_any_job
  replace_any-IsSame new r req api v fresh named other =
      let s = make_job new req api.scheduler in
      let o = api.scheduler.jobs_by_name req.name in
      let s' = remove_old cron type_name o s in
      let name : job_name s' new ≡ req.name =
        remove_old-name o new s ∙ made-name new req api.scheduler in
      let kept = remove_old-same new req o api.scheduler v fresh refl other in
      after_add_job-IsSame entry m r req api (record api { scheduler = s }) 201
        (add_job_with_tags cron type_name new [] s') other refl
        (trans-IsSameJob entry m api.scheduler s' (add_job_with_tags cron type_name new [] s').0
          kept
          (add_job-same entry cron doc type_name m new [] s' (ap (λ k. k is "") name ∙ named)
            (ap (λ k. m is k) name ∙ other)
            (λ y h. known-other entry api.scheduler v new fresh m y (sym kept.by_name ∙ h))))

  after_update-IsSame :
      (new : ℕ) (r : Request) (req : JobRequest) (api : JobsApi C M) (x : C × Option GoError)
      (s : Scheduler C M)
      → (m is req.name) ≡ false
      → IsSameJob entry m api.scheduler (after_update req.name new x s).0
      → IsSame entry m api
          (after_update_job cron type_name new r req api (after_update req.name new x s)).0
  unfolding IsSame
  after_update-IsSame new r req api (c, some e) s other h = (h, refl)
  after_update-IsSame new r req api (c, none) s other h = (h, if-false other _ _)

  update-IsSame :
      (new : ℕ) (r : Request) (req : JobRequest) (api : JobsApi C M)
      → IsConsistent entry api.scheduler
      → mem new api.scheduler.jobs ≡ false
      → (req.name is "") ≡ false
      → (m is req.name) ≡ false
      → IsSame entry m api
          (after_update_job cron type_name new r req api (
            update_job cron type_name req.name req.schedule new (make_job new req api.scheduler))).0
  unfolding update_job
  update-IsSame new r req api v fresh named other =
      let s₀ = api.scheduler in
      let s = make_job new req s₀ in
      let s' = use_global cron type_name new s in
      let n = req.name in
      let x = cron.update_entry_job_by_name n req.schedule new s.cron in
      if-all {A = Scheduler C M × Option SchedulerError}
        (λ o. IsSame entry m api (after_update_job cron type_name new r req api o).0)
        (not (is_some (find_job (job_name s) n s.jobs)) || s.disabled_names n) _ _
        (λ _. replace_any-IsSame new r req api v fresh named other)
        (λ _. after_update-IsSame new r req api x s' other (
          trans-IsSameJob entry m s₀ s (after_update n new x s').0
            (make_job-same entry s₀ v new fresh req m)
            (trans-IsSameJob entry m s s' (after_update n new x s').0
              (use_global-same entry cron doc type_name m new s
                (known-other entry s₀ v new fresh m))
              (after_update-same entry m n new x s' other
                (use_global-name cron type_name new new s ∙ made-name new req s₀)
                (doc.updated n req.schedule m new s.cron)))))

  create-IsSame :
      (new : ℕ) (r : Request) (req : JobRequest) (api : JobsApi C M)
      → IsConsistent entry api.scheduler
      → mem new api.scheduler.jobs ≡ false
      → (req.name is "") ≡ false
      → (m is req.name) ≡ false
      → IsSame entry m api
          (after_add_job r req api 201
            (add_job_with_tags cron type_name new [] (make_job new req api.scheduler))).0
  create-IsSame new r req api v fresh named other =
      let s₀ = api.scheduler in
      let s = make_job new req s₀ in
      let name = made-name new req s₀ in
      after_add_job-IsSame entry m r req api api 201 (add_job_with_tags cron type_name new [] s)
        other refl
        (trans-IsSameJob entry m s₀ s (add_job_with_tags cron type_name new [] s).0
          (make_job-same entry s₀ v new fresh req m)
          (add_job-same entry cron doc type_name m new [] s (ap (λ k. k is "") name ∙ named)
            (ap (λ k. m is k) name ∙ other) (known-other entry s₀ v new fresh m)))

module _ {C M : Type 0} (entry : String → C → Option ℕ) (cron : Cron C)
    (doc : Documented C cron entry) (type_name : M → String) (v : Validators) (has_provider : Bool)
    (m : String) where
  -- Where go-cron does what it documents, the scheduler has the invariant of Scheduler.Histories, and a
  -- new job is behind a pointer that no job of the list has: whatever a request asks for, if it is
  -- not about the name, then the map of names and the list of jobs have the same job under it as
  -- before, the record of that job is the same, and so are its entry in go-cron, whether the name is
  -- disabled, and its origin.
  pub serve-IsSame :
      (route : Route) (new : ℕ) (r : Request) (api : JobsApi C M)
      → IsConsistent entry api.scheduler
      → mem new api.scheduler.jobs ≡ false
      → is_about_other m r.body ≡ true
      → IsSame entry m api (serve cron type_name v has_provider route new r api).0
  unfolding serve run_job_handler disable_job_handler enable_job_handler toggle_job_handler
      create_job_handler update_job_handler delete_job_handler
  serve-IsSame jobs_run new r api w fresh other = decoded-IsSame entry m r _ api other (λ req k h.
      with_scheduler-IsSame entry m api (run_job cron type_name req.name api.scheduler)
        (run_job-same entry cron doc type_name m req.name api.scheduler))
  serve-IsSame jobs_disable new r api w fresh other =
      decoded-IsSame entry m r _ api other (λ req k h.
        with_scheduler-IsSame entry m api (disable_job cron type_name req.name api.scheduler)
          (disable_job-same entry cron doc type_name m req.name api.scheduler h))
  serve-IsSame jobs_enable new r api w fresh other =
      decoded-IsSame entry m r _ api other (λ req k h.
        with_scheduler-IsSame entry m api (enable_job cron type_name req.name api.scheduler)
          (enable_job-same entry cron doc type_name m req.name api.scheduler h))
  serve-IsSame jobs_create new r api w fresh other =
      decoded-IsSame entry m r _ api other (λ req k h.
        if-all {A = JobsApi C M × ℕ} (λ x. IsSame entry m api x.0) (makes_job v has_provider req) _
          _ (λ _. create-IsSame entry cron doc type_name m new r req api w fresh k h)
          (λ _. refl-IsSame entry m api))
  serve-IsSame jobs_update new r api w fresh other =
      decoded-IsSame entry m r _ api other (λ req k h.
        if-all {A = JobsApi C M × ℕ} (λ x. IsSame entry m api x.0) (makes_job v has_provider req) _
          _ (λ _. update-IsSame entry cron doc type_name m new r req api w fresh k h)
          (λ _. refl-IsSame entry m api))
  serve-IsSame jobs_delete new r api w fresh other =
      decoded-IsSame entry m r _ api other (λ req k h.
        delete_found-IsSame entry cron doc type_name m req.name (get_any_job req.name api.scheduler)
          api w refl h)
