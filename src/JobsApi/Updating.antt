-- ===== src/JobsApi/Updating.antt =====
-- What `updateJobHandler` does to a job that is disabled, which `UpdateJob` does not find.
use ofelia.Common.{
  ℕ, String, Bool, true, false, not, ◌||◌, ◌≡◌, ap, ◌∙◌, Option, none, some, [], ◌==◌, if-true,
  if-false, is_some, ◌is◌, is_refl, arith,
}
use ofelia.Job.{GoError}
use ofelia.Scheduler.GoCron.{Cron, Documented, refused}
use ofelia.Scheduler.{
  job_not_found, Scheduler, JobObject, job_name, find_job, use_global, add_job_with_tags, after_add,
  remove_job, update_job,
}
use ofelia.Scheduler.Queries.{get_any_job}
use ofelia.JobsApi.{
  JobRequest, Request, JobsApi, Validators, validate_job_name, makes_job, job_of, of_body, decoded,
  make_job, after_add_job, remove_old, replace_any, after_update_job, update_job_handler,
}

module _ {C M : Type 0} (cron : Cron C) (type_name : M → String) where
  update_job-disabled :
      (n schedule : String) (new : ℕ) (s : Scheduler C M)
      → s.disabled_names n ≡ true
      → update_job cron type_name n schedule new s ≡ (s, some (job_not_found n))
  unfolding update_job
  update_job-disabled n schedule new s h =
      if-true {b = not (is_some (find_job (job_name s) n s.jobs)) || s.disabled_names n}
        (ground arith) _ _

  add_job-refused :
      (new : ℕ) (c : C) (e : GoError) (s : Scheduler C M)
      → ((s.objects new).bare.schedule is "") ≡ false
      → cron.add_job
          (s.objects new).bare.schedule
          new
          (s.objects new).bare.name
          []
          (s.objects new).bare.run_on_startup
          s.cron
        ≡ (c, refused e)
      → add_job_with_tags cron type_name new [] s
        ≡ (after_add new (c, refused e) (use_global cron type_name new s))
  unfolding add_job_with_tags
  add_job-refused new c e s filled h =
      if-false filled _ _ ∙ ap (λ o. after_add new o (use_global cron type_name new s)) h

  decoded-request :
      (r : Request) (req : JobRequest) (f : JobRequest → JobsApi C M → JobsApi C M × ℕ)
      (api : JobsApi C M)
      → r.is_post ≡ true
      → r.body ≡ some req
      → validate_job_name req.name ≡ true
      → decoded r f api ≡ f req api
  unfolding decoded
  decoded-request r req f api post body valid =
      if-false (ap not post) _ _ ∙ ap (λ o. of_body o f api) body ∙ if-true valid _ _

module _ {C M : Type 0} (cron : Cron C) (type_name : M → String) (v : Validators)
    (has_provider : Bool) where
  -- After the fall back of an update, on the scheduler with the new job.
  abbrev pub removed : ℕ → ℕ → JobRequest → Scheduler C M → Scheduler C M
  removed old new req s = remove_job cron type_name old (make_job new req s)

  update_job_handler-replaces :
      (new old : ℕ) (r : Request) (req : JobRequest) (api : JobsApi C M)
      → r.is_post ≡ true
      → r.body ≡ some req
      → validate_job_name req.name ≡ true
      → makes_job v has_provider req ≡ true
      → api.scheduler.disabled_names req.name ≡ true
      → api.scheduler.jobs_by_name req.name ≡ some old
      → update_job_handler cron type_name v has_provider new r api
        ≡ after_add_job r req
            (record api { scheduler = make_job new req api.scheduler })
            201
            (add_job_with_tags cron type_name new [] (removed old new req api.scheduler))
  unfolding update_job_handler replace_any get_any_job
  update_job_handler-replaces new old r req api post body valid good disabled there =
      let s = make_job new req api.scheduler in
      let api' = record api { scheduler = s } in
      decoded-request cron type_name r req _ api post body valid
      ∙ if-true good _ _
      ∙ ap (after_update_job cron type_name new r req api)
          (update_job-disabled cron type_name req.name req.schedule new s disabled)
      ∙ ap
          (λ o.
            after_add_job r req api' 201
              (add_job_with_tags cron type_name new [] (remove_old cron type_name o s)))
          there

  old-name :
      (new old : ℕ) (req : JobRequest) (s : Scheduler C M)
      → (old == new) ≡ false
      → job_name (make_job new req s) old ≡ job_name s old
  old-name new old req s d = ap (λ (o : JobObject M). o.bare.name) (if-false d _ _)

  -- A good update of a job that is disabled, whose new schedule go-cron refuses: the answer is a
  -- failure, and the job is gone, from the scheduler's map as from go-cron.
  pub update_job_handler-loses :
      (entry : String → C → Option ℕ) (doc : Documented C cron entry) (new old : ℕ) (e : GoError)
      (c : C) (r : Request) (req : JobRequest) (api : JobsApi C M)
      → r.is_post ≡ true
      → r.body ≡ some req
      → validate_job_name req.name ≡ true
      → makes_job v has_provider req ≡ true
      → (req.schedule is "") ≡ false
      → api.scheduler.disabled_names req.name ≡ true
      → api.scheduler.jobs_by_name req.name ≡ some old
      → job_name api.scheduler old ≡ req.name
      → (old == new) ≡ false
      → cron.add_job req.schedule new req.name [] false
          (cron.remove_by_name req.name api.scheduler.cron)
        ≡ (c, refused e)
      → let x = update_job_handler cron type_name v has_provider new r api in
        (x.1 ≡ 400)
        × (x.0.scheduler.jobs_by_name req.name ≡ none)
        × (entry req.name x.0.scheduler.cron ≡ none)
  unfolding remove_job
  update_job_handler-loses entry doc new old e c r req api post body valid good filled disabled
        there named other refuses =
      let s = removed old new req api.scheduler in
      let c₀ = api.scheduler.cron in
      let own : s.objects new ≡ job_of req = if-true {b = new == new} (ground arith) _ _ in
      let old_named = old-name new old req api.scheduler other ∙ named in
      let still_refuses =
        ap
          (λ (j : JobObject M).
            cron.add_job j.bare.schedule new j.bare.name [] j.bare.run_on_startup s.cron)
          own
        ∙ ap (λ n. cron.add_job req.schedule new req.name [] false (cron.remove_by_name n c₀))
            old_named
        ∙ refuses in
      let whole =
        update_job_handler-replaces new old r req api post body valid good disabled there
        ∙ ap (after_add_job r req (record api { scheduler = make_job new req api.scheduler }) 201) (
            add_job-refused cron type_name new c e s
              (ap (λ (j : JobObject M). j.bare.schedule is "") own ∙ filled) still_refuses) in
      (
        ap (λ x. x.1) whole,
        ap (λ x. x.0.scheduler.jobs_by_name req.name) whole
            ∙ if-true (ap (λ n. req.name is n) old_named ∙ is_refl req.name) _ _,
        ap (λ x. entry req.name x.0.scheduler.cron) whole
            ∙ doc.unadded req.schedule new req.name [] false (cron.remove_by_name req.name c₀) c e
                refuses req.name
            ∙ doc.removed req.name req.name c₀
            ∙ if-true (is_refl req.name) _ _,
      )
