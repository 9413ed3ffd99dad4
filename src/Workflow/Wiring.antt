-- ===== src/Workflow/Wiring.antt =====
-- Which edges are wired, and what an unknown name in a job does.
use mathlib.Core.List.{append-nil, append_assoc}
use ofelia.Common.{
  ℕ, suc, ◌≤◌, String, Bool, true, false, ◌||◌, ◌≡◌, refl, sym, ap, ◌∙◌, Option, none, some, List,
  [], ◌∷◌, ◌++◌, map, length, take, ltb, is_some, ◌is◌, is_iff, arith,
}
use ofelia.Job.{BareJob}
use ofelia.Workflow.{
  DependencyEdge, AddError, WorkflowError, depends_on_edge, on_success_edge, on_failure_edge,
  edges_of, collect_dependency_edges, in_job_set, validate_edge_targets, wire_edges, after_edge,
  after_validation, build_workflow_dependencies,
}

-- What go-cron documents: `wired c` are the edges that it has, and it takes an edge or returns an
-- error.
pub record Documented (C : Type 0) (add_dependency : DependencyEdge → C → C × Option AddError)
    (wired : C → List DependencyEdge) : Type 0 where
  pub taken :
      (e : DependencyEdge) (c c' : C)
      → add_dependency e c ≡ (c', none)
      → wired c' ≡ wired c ++ e ∷ []
  pub untaken :
      (e : DependencyEdge) (c c' : C) (x : AddError)
      → add_dependency e c ≡ (c', some x)
      → wired c' ≡ wired c

module _ {C : Type 0} (wired : C → List DependencyEdge) where
  -- The result `o` of wiring `es` from `c` on has wired the first `k` of them, and `k` is less than
  -- their number exactly if there is an error.
  abbrev pub WiresFirst : ℕ → List DependencyEdge → C → C × Option WorkflowError → Type 0
  WiresFirst k es c o =
      (k ≤ length es) × (wired o.0 ≡ wired c ++ take k es) × (is_some o.1 ≡ ltb k (length es))

module _ {C : Type 0} (add_dependency : DependencyEdge → C → C × Option AddError)
    (wired : C → List DependencyEdge) (doc : Documented C add_dependency wired) where
  after_edge-first :
      (e : DependencyEdge) (es : List DependencyEdge) (c : C) (o : C × Option AddError)
      → add_dependency e c ≡ o
      → ((c' : C) → (k : ℕ) × WiresFirst wired k es c' (wire_edges add_dependency es c'))
      → (k : ℕ) × WiresFirst wired k
          (e ∷ es)
          c
          (after_edge add_dependency e o (λ c'. wire_edges add_dependency es c'))
  after_edge-first e es c (c', some x) h rest =
      (0, (omega arith, doc.untaken e c c' x h ∙ sym (append-nil (wired c)), ground arith))
  after_edge-first e es c (c', none) h rest =
      let (k, (fits, first, result)) = rest c' in
      (
        suc k,
        (
          omega (arith, fits),
          first
              ∙ ap (λ l. l ++ take k es) (doc.taken e c c' h)
              ∙ append_assoc (wired c) (e ∷ []) (take k es),
          result ∙ ground arith,
        ),
      )

  wire_edges-first :
      (es : List DependencyEdge) (c : C)
      → (k : ℕ) × WiresFirst wired k es c (wire_edges add_dependency es c)
  unfolding wire_edges
  wire_edges-first [] c = (0, (omega arith, sym (append-nil (wired c)), refl))
  wire_edges-first (e ∷ es) c =
      after_edge-first e es c (add_dependency e c) refl (wire_edges-first es)

  validation-first :
      (v : Option WorkflowError) (es : List DependencyEdge) (c : C)
      → (is_some v ≡ true → ltb 0 (length es) ≡ true)
      → (k : ℕ) × WiresFirst wired k es c (after_validation add_dependency v es c)
  validation-first none es c h = wire_edges-first es c
  validation-first (some x) es c h = (0, (omega arith, sym (append-nil (wired c)), sym (h refl)))

module _ {E : Type 0} where
  validate-nonempty :
      (jobs : List (BareJob E)) (es : List DependencyEdge)
      → is_some (validate_edge_targets jobs es) ≡ true
      → ltb 0 (length es) ≡ true
  unfolding validate_edge_targets
  validate-nonempty jobs [] h = ground arith
  validate-nonempty jobs (e ∷ es) h = ground arith

  -- Where go-cron takes an edge or returns an error: building wires the first k of the collected
  -- edges, in their order, for some k, and returns an error exactly if those are not all of them.
  pub build-first :
      {C : Type 0} (add_dependency : DependencyEdge → C → C × Option AddError)
      (wired : C → List DependencyEdge)
      → Documented C add_dependency wired
      → (jobs : List (BareJob E)) (c : C)
      → (k : ℕ) × WiresFirst wired k
          (collect_dependency_edges jobs)
          c
          (build_workflow_dependencies add_dependency jobs c)
  unfolding build_workflow_dependencies
  build-first add_dependency wired doc jobs c =
      let edges = collect_dependency_edges jobs in
      validation-first add_dependency wired doc (validate_edge_targets jobs edges) edges c
        (validate-nonempty jobs edges)

unfoldable pub listed : String → List String → Bool
listed n [] = false
listed n (m ∷ ms) = m is n || listed n ms

-- Whether an edge has the name at one of its ends.
unfoldable touched : String → List DependencyEdge → Bool
touched n [] = false
touched n (e ∷ es) = e.child is n || e.parent is n || touched n es

touched-append :
    (n : String) (es fs : List DependencyEdge)
    → touched n (es ++ fs) ≡ (touched n es || touched n fs)
unfolding touched
touched-append n [] fs = refl
touched-append n (e ∷ es) fs = ground (arith, touched-append n es fs)

touched-map-parent :
    (n : String) (f : String → DependencyEdge)
    → ((p : String) → (f p).parent ≡ p)
    → (ps : List String) → listed n ps ≡ true
    → touched n (map f ps) ≡ true
unfolding listed touched
touched-map-parent n f own [] h = ground arith
touched-map-parent n f own (p ∷ ps) h =
    ground (arith, touched-map-parent n f own ps, ap (λ k. k is n) (own p))

touched-map-child :
    (n : String) (f : String → DependencyEdge)
    → ((t : String) → (f t).child ≡ t)
    → (ts : List String) → listed n ts ≡ true
    → touched n (map f ts) ≡ true
unfolding listed touched
touched-map-child n f own [] h = ground arith
touched-map-child n f own (t ∷ ts) h =
    ground (arith, touched-map-child n f own ts, ap (λ k. k is n) (own t))

after_validation-some :
    {C : Type 0} (add_dependency : DependencyEdge → C → C × Option AddError)
    (v : Option WorkflowError) (es : List DependencyEdge) (c : C)
    → is_some v ≡ true
    → (err : WorkflowError) × (after_validation add_dependency v es c ≡ (c, some err))
after_validation-some add_dependency none es c h = ground arith
after_validation-some add_dependency (some err) es c h = (err, refl)

module _ {E : Type 0} where
  -- Whether a job names `n` in its dependencies or its targets.
  unfoldable pub refers_to : String → List (BareJob E) → Bool
  unfolding listed
  refers_to n [] = false
  refers_to n (j ∷ js) =
      listed n j.dependencies || listed n j.on_success || listed n j.on_failure || refers_to n js

  touched-edges_of :
      (n : String) (j : BareJob E)
      → (listed n j.dependencies || listed n j.on_success || listed n j.on_failure) ≡ true
      → touched n (edges_of j) ≡ true
  unfolding edges_of
  touched-edges_of n j h =
      let parents = map (depends_on_edge j) j.dependencies in
      let successes = map (on_success_edge j) j.on_success in
      let failures = map (on_failure_edge j) j.on_failure in
      ground (
        arith,
        touched-append n (parents ++ successes) failures,
        touched-append n parents successes,
        touched-map-parent n (depends_on_edge j) (λ p. refl) j.dependencies,
        touched-map-child n (on_success_edge j) (λ t. refl) j.on_success,
        touched-map-child n (on_failure_edge j) (λ t. refl) j.on_failure,
      )

  touched-collect :
      (n : String) (jobs : List (BareJob E))
      → refers_to n jobs ≡ true
      → touched n (collect_dependency_edges jobs) ≡ true
  unfolding refers_to collect_dependency_edges
  touched-collect n [] h = ground arith
  touched-collect n (j ∷ js) h = ground (
    arith,
    touched-append n (edges_of j) (collect_dependency_edges js),
    touched-edges_of n j,
    touched-collect n js,
  )

  validate-touched :
      (n : String) (jobs : List (BareJob E)) (es : List DependencyEdge)
      → in_job_set jobs n ≡ false
      → touched n es ≡ true
      → is_some (validate_edge_targets jobs es) ≡ true
  unfolding validate_edge_targets touched
  validate-touched n jobs [] unknown h = ground arith
  validate-touched n jobs (e ∷ es) unknown h = ground (
    arith,
    validate-touched n jobs es unknown,
    is_iff e.child n,
    is_iff e.parent n,
    ap (in_job_set jobs),
  )

  -- If some job names, in its dependencies or its targets, a job that is not there, then building
  -- returns an error and wires nothing.
  pub build-unknown :
      {C : Type 0} (add_dependency : DependencyEdge → C → C × Option AddError)
      (jobs : List (BareJob E)) (n : String) (c : C)
      → refers_to n jobs ≡ true
      → in_job_set jobs n ≡ false
      → (err : WorkflowError) × (build_workflow_dependencies add_dependency jobs c ≡ (c, some err))
  unfolding build_workflow_dependencies
  build-unknown add_dependency jobs n c named unknown =
      let edges = collect_dependency_edges jobs in
      after_validation-some add_dependency (validate_edge_targets jobs edges) edges c
        (validate-touched n jobs edges unknown (touched-collect n jobs named))
