-- ===== src/Scheduler/Starting.antt =====
-- Starting and stopping keep the scheduler consistent.
use ofelia.Common.{
  ℕ, ◌≤◌, String, Bool, true, false, ◌≡◌, refl, sym, ap, ◌∙◌, Option, none, some, List, [], ◌∷◌, ℤ,
  is_some, is_iff, arith,
}
use ofelia.Workflow.{
  DependencyEdge, AddError, WorkflowError, collect_dependency_edges, validate_edge_targets,
  wire_edges, after_edge, after_validation, build_workflow_dependencies,
}
use ofelia.Scheduler.GoCron.{Cron, Documented}
use ofelia.Scheduler.{Scheduler, job_name, job_cron_id, find_job, set_key}
use ofelia.Scheduler.Running.{
  fill_names, bare_jobs, after_stop, start, stop_with_timeout, stop_and_wait,
}
use ofelia.Scheduler.Naming.{count, or_else, find_job-count}
use ofelia.Scheduler.Consistency.{IsConsistent, entry_id, switched}

-- Of the jobs whose names are one, the map has the only one.
fill_names-find_job :
    (names : ℕ → String) (rs : List ℕ) (by_name : String → Option ℕ) (n : String)
    → count names n rs ≤ 1
    → fill_names names rs by_name n ≡ or_else (find_job names n rs) (by_name n)
unfolding fill_names count find_job
fill_names-find_job names [] by_name n h = refl
fill_names-find_job names (r ∷ rs) by_name n h = ground (
  arith,
  fill_names-find_job names rs (set_key (names r) (some r) by_name) n,
  is_iff n (names r),
  is_iff (names r) n,
  find_job-count names n rs,
)

or_else-same : (o : Option ℕ) → or_else o o ≡ o
or_else-same none = refl
or_else-same (some r) = refl

module _ {C : Type 0} (entry : String → C → Option ℕ)
    (add : DependencyEdge → C → C × Option AddError)
    (same : (e : DependencyEdge) (m : String) (c : C) → entry m (add e c).0 ≡ entry m c) where
  after_edge-entry :
      (e : DependencyEdge) (o : C × Option AddError) (onward : C → C × Option WorkflowError)
      (m : String) (c : C)
      → entry m o.0 ≡ entry m c
      → ((c' : C) → entry m (onward c').0 ≡ entry m c')
      → entry m (after_edge add e o onward).0 ≡ entry m c
  after_edge-entry e (c', some x) onward m c h k = h
  after_edge-entry e (c', none) onward m c h k = k c' ∙ h

  wire_edges-entry :
      (es : List DependencyEdge) (m : String) (c : C) → entry m (wire_edges add es c).0 ≡ entry m c
  unfolding wire_edges
  wire_edges-entry [] m c = refl
  wire_edges-entry (e ∷ es) m c =
      after_edge-entry e (add e c) (λ c'. wire_edges add es c') m c (same e m c)
        (λ c'. wire_edges-entry es m c')

  after_validation-entry :
      (o : Option WorkflowError) (es : List DependencyEdge) (m : String) (c : C)
      → entry m (after_validation add o es c).0 ≡ entry m c
  after_validation-entry (some err) es m c = refl
  after_validation-entry none es m c = wire_edges-entry es m c

module _ {C M : Type 0} (entry : String → C → Option ℕ) (cron : Cron C)
    (doc : Documented C cron entry) where
  build-entry :
      (s : Scheduler C M) (m : String)
      → entry m (build_workflow_dependencies cron.add_dependency_by_name (bare_jobs s) s.cron).0
        ≡ entry m s.cron
  unfolding build_workflow_dependencies
  build-entry s m =
      let edges = collect_dependency_edges (bare_jobs s) in
      after_validation-entry entry cron.add_dependency_by_name (λ e k c. doc.wired e k c)
        (validate_edge_targets (bare_jobs s) edges) edges m s.cron

  start-entry : (s : Scheduler C M) (m : String) → entry m (start cron s).cron ≡ entry m s.cron
  unfolding start
  start-entry s m = doc.started m _ ∙ build-entry s m

  -- On a consistent scheduler, a start leaves the map of names as it is.
  start-by_name :
      (s : Scheduler C M)
      → IsConsistent entry s
      → (n : String) → (start cron s).jobs_by_name n ≡ s.jobs_by_name n
  unfolding start
  start-by_name s v n =
      fill_names-find_job (job_name s) s.jobs s.jobs_by_name n (v.once n)
      ∙ ap (λ o. or_else o (s.jobs_by_name n)) (sym (v.by_name n))
      ∙ or_else-same (s.jobs_by_name n)

  pub start-IsConsistent :
      (s : Scheduler C M) → IsConsistent entry s → IsConsistent entry (start cron s)
  unfolding start
  start-IsConsistent s v =
      let keeps = start-by_name s v in
      let same = start-entry s in
      record {
        by_name = λ n. keeps n ∙ v.by_name n;
        once = v.once;
        known = λ n d. ap is_some (keeps n) ∙ v.known n d;
        entries = λ n. same n ∙ v.entries n ∙ ap (entry_id (job_cron_id s)) (sym (keeps n));
        own_ids = λ n m id a b. v.own_ids n m id (sym (same n) ∙ a) (sym (same m) ∙ b);
      }

  after_stop-IsConsistent :
      (timeout : ℤ) (o : C × Bool) (s : Scheduler C M)
      → IsConsistent entry s
      → ((m : String) → entry m o.0 ≡ entry m s.cron)
      → IsConsistent entry (after_stop timeout o s).0
  after_stop-IsConsistent timeout (c, true) s v same =
      switched entry c s.disabled_names s v same v.known
  after_stop-IsConsistent timeout (c, false) s v same =
      switched entry c s.disabled_names s v same v.known

  pub stop-IsConsistent :
      (timeout : ℤ) (s : Scheduler C M)
      → IsConsistent entry s
      → IsConsistent entry (stop_with_timeout cron timeout s).0
  unfolding stop_with_timeout
  stop-IsConsistent timeout s v =
      after_stop-IsConsistent timeout (cron.stop_with_timeout timeout s.cron) s v
        (λ m. doc.stopped timeout m s.cron)

  pub stop_and_wait-IsConsistent :
      (s : Scheduler C M) → IsConsistent entry s → IsConsistent entry (stop_and_wait cron s)
  unfolding stop_and_wait
  stop_and_wait-IsConsistent s v =
      switched entry (cron.stop_and_wait s.cron) s.disabled_names s v (λ m. doc.awaited m s.cron)
        v.known
