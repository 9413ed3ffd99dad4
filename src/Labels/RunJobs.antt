-- ===== src/Labels/RunJobs.antt =====
-- Which container a job of the type `job-run` is taken from, if several define one of the name.
use ofelia.Common.{
  String, Bool, true, false, not, ◌||◌, ◌≡◌, refl, ap, ◌∙◌, Option, none, some, List, [], ◌∷◌,
  if◌then◌else◌, is_iff, arith, lookup, assign, has_key, has_distinct, lookup-assign, lookup-absent,
  has_distinct-assign, is_some,
}
use ofelia.Labels.{
  DockerContainerInfo, Params, Jobs, Found, nothing_found, merge_job_maps,
  add_container_name_to_jobs_if_needed, sort_containers, params_or,
}
use ofelia.Labels.Keys.{split_dots}
use ofelia.Labels.Splitting.{
  name_jobs, set_job_param, set_in_job, add_webhook, apply_job_parameter_to_job_maps, add_job_label,
  add_parts, add_label, add_labels, add_container, add_containers, split_containers_labels,
}

abbrev pub or_else {ℓ} : {V : Type ℓ} → Option V → Option V → Option V
or_else none o = o
or_else (some v) o = some v

module _ {ℓ} {V : Type ℓ} where
  has_key-lookup_none : (k : String) (m : List (String × V)) → has_key k m ≡ is_some (lookup k m)
  unfolding has_key lookup
  has_key-lookup_none k [] = refl
  has_key-lookup_none k ((j, v) ∷ m) = ground (arith, has_key-lookup_none k m)

  abbrev pub merged_lookup : Option V → Option V → Bool → Option V
  merged_lookup l r true = or_else r l
  merged_lookup l r false = or_else l r

  pub lookup-merge_job_maps :
      (n : String) (right left : List (String × V)) (use_right : Bool)
      → has_distinct right ≡ true
      → lookup n (merge_job_maps left right use_right)
        ≡ merged_lookup (lookup n left) (lookup n right) use_right
  unfolding merge_job_maps lookup has_distinct
  lookup-merge_job_maps n [] left true d = ground arith
  lookup-merge_job_maps n [] left false d = ground arith
  lookup-merge_job_maps n ((k, v) ∷ right) left true d = ground (
    arith,
    lookup-merge_job_maps n right (if not (has_key k left) || true then assign k v left else left)
        true,
    lookup-assign k n v left,
    is_iff k n,
    lookup-absent n right,
    ap (λ x. has_key x right),
  )
  lookup-merge_job_maps n ((k, v) ∷ right) left false d = ground (
    arith,
    lookup-merge_job_maps n right (if not (has_key k left) || false then assign k v left else left)
        false,
    lookup-assign k n v left,
    is_iff k n,
    lookup-absent n right,
    ap (λ x. has_key x right),
    has_key-lookup_none k left,
    ap (λ x. lookup x left),
  )

module _ (unmarshal : String → Option (List String)) where
  add_job_label-run_same :
      (c : DockerContainerInfo) (t n p v : String) (f g : Found)
      → f.run ≡ g.run
      → (add_job_label unmarshal c t n p v f).run ≡ (add_job_label unmarshal c t n p v g).run
  unfolding add_job_label apply_job_parameter_to_job_maps add_webhook
  add_job_label-run_same c t n p v f g h = ground (arith, ap (set_in_job unmarshal n p v) h)

  add_parts-run_same :
      (c : DockerContainerInfo) (parts : List String) (v : String) (f g : Found)
      → f.run ≡ g.run
      → (add_parts unmarshal c parts v f).run ≡ (add_parts unmarshal c parts v g).run
  add_parts-run_same c [] v f g h = h
  add_parts-run_same c (p ∷ []) v f g h = h
  add_parts-run_same c (p ∷ q ∷ []) v f g h = ground arith
  add_parts-run_same c (p ∷ q ∷ r ∷ []) v f g h = ground arith
  add_parts-run_same c (p ∷ q ∷ r ∷ s ∷ parts) v f g h = add_job_label-run_same c q r s v f g h

  add_labels-run_same :
      (c : DockerContainerInfo) (labels : List (String × String)) (f g : Found)
      → f.run ≡ g.run
      → (add_labels unmarshal c labels f).run ≡ (add_labels unmarshal c labels g).run
  unfolding add_labels add_label
  add_labels-run_same c [] f g h = h
  add_labels-run_same c ((k, v) ∷ labels) f g h =
      add_labels-run_same c labels (add_label unmarshal c k v f) (add_label unmarshal c k v g)
        (ground (arith, add_parts-run_same c (split_dots k) v f g h))

  add_job_label-run_distinct :
      (c : DockerContainerInfo) (t n p v : String) (f : Found)
      → has_distinct f.run ≡ true
      → has_distinct (add_job_label unmarshal c t n p v f).run ≡ true
  unfolding add_job_label apply_job_parameter_to_job_maps add_webhook set_in_job
  add_job_label-run_distinct c t n p v f h =
      let j = set_job_param unmarshal p v (params_or (lookup n f.run)) in
      ground (arith, has_distinct-assign n j f.run h)

  add_parts-run_distinct :
      (c : DockerContainerInfo) (parts : List String) (v : String) (f : Found)
      → has_distinct f.run ≡ true
      → has_distinct (add_parts unmarshal c parts v f).run ≡ true
  add_parts-run_distinct c [] v f h = h
  add_parts-run_distinct c (p ∷ []) v f h = h
  add_parts-run_distinct c (p ∷ q ∷ []) v f h = ground arith
  add_parts-run_distinct c (p ∷ q ∷ r ∷ []) v f h = ground arith
  add_parts-run_distinct c (p ∷ q ∷ r ∷ s ∷ parts) v f h = add_job_label-run_distinct c q r s v f h

  add_labels-run_distinct :
      (c : DockerContainerInfo) (labels : List (String × String)) (f : Found)
      → has_distinct f.run ≡ true
      → has_distinct (add_labels unmarshal c labels f).run ≡ true
  unfolding add_labels add_label
  add_labels-run_distinct c [] f h = h
  add_labels-run_distinct c ((k, v) ∷ labels) f h =
      add_labels-run_distinct c labels (add_label unmarshal c k v f)
        (ground (arith, add_parts-run_distinct c (split_dots k) v f h))

  has_key-named :
      (x : String) (container : String) (jobs : Jobs)
      → has_key x (add_container_name_to_jobs_if_needed container jobs) ≡ has_key x jobs
  unfolding has_key add_container_name_to_jobs_if_needed
  has_key-named x container [] = refl
  has_key-named x container ((n, job) ∷ jobs) = ground (arith, has_key-named x container jobs)

  has_distinct-named :
      (container : String) (jobs : Jobs)
      → has_distinct (add_container_name_to_jobs_if_needed container jobs) ≡ has_distinct jobs
  unfolding has_distinct add_container_name_to_jobs_if_needed
  has_distinct-named container [] = refl
  has_distinct-named container ((n, job) ∷ jobs) =
      ground (arith, has_distinct-named container jobs, has_key-named n container jobs)

  -- The jobs of the type `job-run` that the labels of one container define.
  unfoldable pub run_jobs : DockerContainerInfo → Jobs
  run_jobs c = name_jobs unmarshal c (add_labels unmarshal c c.labels nothing_found).run

  run_jobs-distinct : (c : DockerContainerInfo) → has_distinct (run_jobs c) ≡ true
  unfolding run_jobs has_distinct
  run_jobs-distinct c =
      let jobs = (add_labels unmarshal c c.labels nothing_found).run in
      ground (
        arith,
        add_labels-run_distinct c c.labels nothing_found refl,
        has_distinct-named c.name jobs,
      )

  add_container-run :
      (n : String) (c : DockerContainerInfo) (f : Found)
      → lookup n (add_container unmarshal c f).run
        ≡ merged_lookup (lookup n f.run) (lookup n (run_jobs c)) c.running
  unfolding add_container run_jobs
  add_container-run n c f =
      ap (λ jobs. lookup n (merge_job_maps f.run (name_jobs unmarshal c jobs) c.running))
        (add_labels-run_same c c.labels (record f { exec = []; run = [] }) nothing_found refl)
      ∙ lookup-merge_job_maps n (run_jobs c) f.run c.running (run_jobs-distinct c)

  -- The job of the last running container that defines one of the name.
  unfoldable pub last_running : String → List DockerContainerInfo → Option Params
  last_running n [] = none
  last_running n (c ∷ cs) =
      let later = last_running n cs in
      or_else later (if c.running then lookup n (run_jobs c) else none)

  -- The job of the first stopped container that defines one of the name.
  unfoldable pub first_stopped : String → List DockerContainerInfo → Option Params
  first_stopped n [] = none
  first_stopped n (c ∷ cs) =
      let later = first_stopped n cs in
      or_else (if c.running then none else lookup n (run_jobs c)) later

  add_containers-run :
      (n : String) (cs : List DockerContainerInfo) (f : Found)
      → lookup n (add_containers unmarshal cs f).run
        ≡ or_else (last_running n cs) (or_else (lookup n f.run) (first_stopped n cs))
  unfolding add_containers last_running first_stopped
  add_containers-run n [] f = ground arith
  add_containers-run n (c ∷ cs) f =
      ground (arith, add_containers-run n cs (add_container unmarshal c f), add_container-run n c f)

  -- A job of the type `job-run` is the one of the last running container, in the order of the
  -- sort, that defines one of its name; if no running container does, then the one of the first
  -- stopped container.
  pub split-run :
      (cs : List DockerContainerInfo) (n : String)
      → lookup n (split_containers_labels unmarshal cs).run
        ≡ or_else (last_running n (sort_containers cs)) (first_stopped n (sort_containers cs))
  unfolding split_containers_labels lookup
  split-run cs n = add_containers-run n (sort_containers cs) nothing_found
