-- ===== src/Workflow.antt =====
-- core/workflow.go: the edges between jobs that depend on each other, and how they are wired into
-- go-cron. Every job type has a `BareJob` in it and so is a `DependencyProvider`.
pub mod Wiring
mod Examples
use ofelia.Common.{
  ℕ, String, Bool, true, false, not, ◌||◌, Option, none, some, List, [], ◌∷◌, ◌++◌, map,
  if◌then◌else◌, ◌is◌,
}
use ofelia.Job.{GoError, BareJob}

-- `cron.OnSuccess` and `cron.OnFailure`
pub data TriggerCondition : Type 0 where
  on_success on_failure : TriggerCondition

pub record DependencyEdge : Type 0 where
  pub child : String
  pub parent : String
  pub condition : TriggerCondition

module _ {E : Type 0} where
  abbrev pub depends_on_edge : BareJob E → String → DependencyEdge
  depends_on_edge j p = record { child = j.name; parent = p; condition = on_success }

  abbrev pub on_success_edge : BareJob E → String → DependencyEdge
  on_success_edge j t = record { child = t; parent = j.name; condition = on_success }

  abbrev pub on_failure_edge : BareJob E → String → DependencyEdge
  on_failure_edge j t = record { child = t; parent = j.name; condition = on_failure }

  -- The loops over the parents and the targets of one job.
  unfoldable pub edges_of : BareJob E → List DependencyEdge
  edges_of j =
      map (depends_on_edge j) j.dependencies
      ++ map (on_success_edge j) j.on_success
      ++ map (on_failure_edge j) j.on_failure

  unfoldable pub collect_dependency_edges : List (BareJob E) → List DependencyEdge
  unfolding edges_of
  collect_dependency_edges [] = []
  collect_dependency_edges (j ∷ js) = edges_of j ++ collect_dependency_edges js

  -- Whether `jobSet` has the name.
  unfoldable pub in_job_set : List (BareJob E) → String → Bool
  in_job_set [] n = false
  in_job_set (j ∷ js) n = j.name is n || in_job_set js n

-- What `AddDependencyByName` of go-cron returns, `ErrCycleDetected` apart.
pub data AddError : Type 0 where
  cycle_detected : AddError
  add_failed : GoError → AddError

pub data WorkflowError : Type 0 where
  target_not_found : String → WorkflowError
  parent_not_found : String → WorkflowError
  circular_dependency : DependencyEdge → WorkflowError
  workflow_invalid : DependencyEdge → GoError → WorkflowError

module _ {E : Type 0} where
  unfoldable pub validate_edge_targets :
      List (BareJob E) → List DependencyEdge → Option WorkflowError
  unfolding in_job_set
  validate_edge_targets jobs [] = none
  validate_edge_targets jobs (e ∷ es) =
      let later = validate_edge_targets jobs es in
      if not (in_job_set jobs e.child)
      then some (target_not_found e.child)
      else if not (in_job_set jobs e.parent)
      then some (parent_not_found e.parent)
      else later

-- `add_dependency` is go-cron's `AddDependencyByName`, on its state `C`.
module _ {C : Type 0} (add_dependency : DependencyEdge → C → C × Option AddError) where
  abbrev pub wire_error : DependencyEdge → AddError → WorkflowError
  wire_error e cycle_detected = circular_dependency e
  wire_error e (add_failed x) = workflow_invalid e x

  -- The rest of `wireEdges` after an edge, which `onward` goes on with.
  abbrev pub after_edge :
      DependencyEdge
      → C × Option AddError
      → (C → C × Option WorkflowError)
      → C × Option WorkflowError
  after_edge e (c, some x) onward = (c, some (wire_error e x))
  after_edge e (c, none) onward = onward c

  unfoldable pub wire_edges : List DependencyEdge → C → C × Option WorkflowError
  wire_edges [] c = (c, none)
  wire_edges (e ∷ es) c = after_edge e (add_dependency e c) (λ c'. wire_edges es c')

  abbrev pub after_validation :
      Option WorkflowError → List DependencyEdge → C → C × Option WorkflowError
  after_validation (some err) edges c = (c, some err)
  after_validation none edges c = wire_edges edges c

  -- No edges are valid and wired at once.
  unfoldable pub build_workflow_dependencies :
      {E : Type 0} → List (BareJob E) → C → C × Option WorkflowError
  unfolding collect_dependency_edges validate_edge_targets wire_edges
  build_workflow_dependencies jobs c =
      let edges = collect_dependency_edges jobs in
      after_validation (validate_edge_targets jobs edges) edges c
