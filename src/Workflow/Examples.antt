-- ===== src/Workflow/Examples.antt =====
-- The theorems on workflows at concrete values. The list of the edges taken stands for go-cron; it
-- refuses an edge from a job to itself.
use ofelia.Common.{
  ℕ, String, Bool, true, false, ◌≡◌, refl, ap, Option, none, some, List, [], ◌∷◌, ◌++◌,
  if◌then◌else◌, ◌is◌, arith, pos,
}
use ofelia.Job.{BareJob}
use ofelia.Workflow.{
  on_success, on_failure, DependencyEdge, AddError, cycle_detected, WorkflowError,
  collect_dependency_edges, build_workflow_dependencies,
}
use ofelia.Workflow.Wiring.{Documented, WiresFirst, build-first}

abbrev add_dependency : DependencyEdge → List DependencyEdge → List DependencyEdge × Option AddError
add_dependency e c = if e.child is e.parent then (c, some cycle_detected) else (c ++ e ∷ [], none)

abbrev wired : List DependencyEdge → List DependencyEdge
wired c = c

add_dependency-Documented : Documented (List DependencyEdge) add_dependency wired
add_dependency-Documented = record {
  taken = λ e c c' h. ground (arith, ap (λ (o : List DependencyEdge × Option AddError). o.0) h);
  untaken = λ e c c' x h. ground (arith, ap (λ (o : List DependencyEdge × Option AddError). o.0) h);
}

abbrev job : String → List String → List String → BareJob ℕ
job name dependencies failures = record {
  schedule = "@daily";
  name = name;
  command = "";
  run_on_startup = false;
  history_limit = pos 10;
  max_retries = pos 0;
  retry_delay_ms = 1000;
  retry_exponential = true;
  retry_max_delay_ms = 60000;
  dependencies = dependencies;
  on_success = [];
  on_failure = failures;
  allow_parallel = true;
  running = 0;
  history = [];
  last_run = none;
  cron_id = 0;
}

-- `sync` depends on `backup` and runs itself again when it fails.
abbrev jobs : List (BareJob ℕ)
jobs = job "backup" [] [] ∷ job "sync" ("backup" ∷ []) ("sync" ∷ []) ∷ []

build-first_example :
    (k : ℕ) × WiresFirst wired k
      (collect_dependency_edges jobs)
      []
      (build_workflow_dependencies add_dependency jobs [])
build-first_example = build-first add_dependency wired add_dependency-Documented jobs []

one_wired : build_workflow_dependencies add_dependency jobs [] ≡ (
  record { child = "sync"; parent = "backup"; condition = on_success } ∷ [],
  some (
      WorkflowError.circular_dependency
        (record { child = "sync"; parent = "sync"; condition = on_failure })),
)
unfolding build_workflow_dependencies ofelia.Common.◌is◌
one_wired = refl
