-- ===== src/Labels/Running.antt =====
-- Which jobs running containers define: all but those of `job-run`.
use ofelia.Common.{
  String, Bool, false, ◌≡◌, refl, sym, ap, ◌∙◌, Option, List, [], ◌∷◌, ◌is◌, is_iff, inl, inr,
  Bool-cases, if-true, if-false, arith,
}
use ofelia.Labels.{
  DockerContainerInfo, Jobs, can_run_job_on_container, Found, nothing_found, merge_job_maps,
  add_container_name_to_jobs_if_needed, sort_containers,
}
use ofelia.Labels.Keys.{split_dots}
use ofelia.Labels.Order.{only, only-sort_containers}
use ofelia.Labels.Splitting.{
  name_jobs, add_webhook, apply_job_parameter_to_job_maps, add_job_label, add_parts, add_label,
  add_labels, add_container, add_containers, split_containers_labels,
}

-- What running containers decide.
pub record FromRunning : Type 0 where
  pub exec : Jobs
  pub local : Jobs
  pub service : Jobs
  pub compose : Jobs

abbrev pub from_running : Found → FromRunning
from_running f = record { exec = f.exec; local = f.local; service = f.service; compose = f.compose }

abbrev pub is_running : DockerContainerInfo → Bool
is_running c = c.running

run_differs :
    (("job-run" is "job-exec") ≡ false)
    × (("job-run" is "job-local") ≡ false)
    × (("job-run" is "job-service-run") ≡ false)
unfolding ◌is◌
run_differs = (refl, refl, refl)

module _ (unmarshal : String → Option (List String)) where
  add_job_label-outside :
      (c : DockerContainerInfo) (t n p v : String) (f : Found)
      → c.running ≡ false
      → from_running (add_job_label unmarshal c t n p v f) ≡ from_running f
  unfolding add_job_label can_run_job_on_container apply_job_parameter_to_job_maps
  add_job_label-outside c t n p v f h = ground (
    arith,
    is_iff t "job-run",
    ap (λ x. x is "job-exec"),
    ap (λ x. x is "job-local"),
    ap (λ x. x is "job-service-run"),
    run_differs,
  )

  add_parts-outside :
      (c : DockerContainerInfo) (parts : List String) (v : String) (f : Found)
      → c.running ≡ false
      → from_running (add_parts unmarshal c parts v f) ≡ from_running f
  add_parts-outside c [] v f h = refl
  add_parts-outside c (p ∷ []) v f h = refl
  add_parts-outside c (p ∷ q ∷ []) v f h = ground arith
  add_parts-outside c (p ∷ q ∷ r ∷ []) v f h = ground arith
  add_parts-outside c (p ∷ q ∷ r ∷ s ∷ parts) v f h = add_job_label-outside c q r s v f h

  add_labels-outside :
      (c : DockerContainerInfo) (labels : List (String × String)) (f : Found)
      → c.running ≡ false
      → from_running (add_labels unmarshal c labels f) ≡ from_running f
  unfolding add_labels add_label
  add_labels-outside c [] f h = refl
  add_labels-outside c ((k, v) ∷ labels) f h = ground (
    arith,
    add_labels-outside c labels (add_label unmarshal c k v f) h,
    add_parts-outside c (split_dots k) v f h,
  )

  -- What a container adds depends on nothing else of what was found.
  add_job_label-same :
      (c : DockerContainerInfo) (t n p v : String) (f g : Found)
      → from_running f ≡ from_running g
      → from_running (add_job_label unmarshal c t n p v f)
        ≡ from_running (add_job_label unmarshal c t n p v g)
  unfolding add_job_label apply_job_parameter_to_job_maps add_webhook
  add_job_label-same c t n p v f g h = ground arith

  add_parts-same :
      (c : DockerContainerInfo) (parts : List String) (v : String) (f g : Found)
      → from_running f ≡ from_running g
      → from_running (add_parts unmarshal c parts v f)
        ≡ from_running (add_parts unmarshal c parts v g)
  add_parts-same c [] v f g h = h
  add_parts-same c (p ∷ []) v f g h = h
  add_parts-same c (p ∷ q ∷ []) v f g h = ground arith
  add_parts-same c (p ∷ q ∷ r ∷ []) v f g h = ground arith
  add_parts-same c (p ∷ q ∷ r ∷ s ∷ parts) v f g h = add_job_label-same c q r s v f g h

  add_labels-same :
      (c : DockerContainerInfo) (labels : List (String × String)) (f g : Found)
      → from_running f ≡ from_running g
      → from_running (add_labels unmarshal c labels f)
        ≡ from_running (add_labels unmarshal c labels g)
  unfolding add_labels add_label
  add_labels-same c [] f g h = h
  add_labels-same c ((k, v) ∷ labels) f g h =
      add_labels-same c labels (add_label unmarshal c k v f) (add_label unmarshal c k v g)
        (ground (arith, add_parts-same c (split_dots k) v f g h))

  add_container-outside :
      (c : DockerContainerInfo) (f : Found)
      → c.running ≡ false
      → from_running (add_container unmarshal c f) ≡ from_running f
  unfolding add_container merge_job_maps add_container_name_to_jobs_if_needed
  add_container-outside c f h =
      let e = add_labels-outside c c.labels (record f { exec = []; run = [] }) h in
      ground (
        arith,
        e,
        ap (λ (r : FromRunning). merge_job_maps f.exec (name_jobs unmarshal c r.exec) false) e,
      )

  add_container-same :
      (c : DockerContainerInfo) (f g : Found)
      → from_running f ≡ from_running g
      → from_running (add_container unmarshal c f) ≡ from_running (add_container unmarshal c g)
  unfolding add_container
  add_container-same c f g h =
      let f' = record f { exec = []; run = [] } in
      let g' = record g { exec = []; run = [] } in
      let same : from_running f' ≡ from_running g' = ground arith in
      let e = add_labels-same c c.labels f' g' same in
      ground (
        arith,
        e,
        h,
        ap (λ (r : FromRunning). merge_job_maps f.exec (name_jobs unmarshal c r.exec) false) e,
      )

  add_containers-run :
      (cs : List DockerContainerInfo) (f g : Found)
      → from_running f ≡ from_running g
      → from_running (add_containers unmarshal cs f)
        ≡ from_running (add_containers unmarshal (only is_running cs) g)
  unfolding add_containers only
  add_containers-run [] f g h = h
  add_containers-run (c ∷ cs) f g h = elim (Bool-cases c.running) [
    | inl inside ↦
        add_containers-run cs (add_container unmarshal c f) (add_container unmarshal c g)
          (add_container-same c f g h)
        ∙ ap (λ l. from_running (add_containers unmarshal l g)) (sym (if-true inside _ _))
    | inr outside ↦
        add_containers-run cs (add_container unmarshal c f) g
          (add_container-outside c f outside ∙ h)
        ∙ ap (λ l. from_running (add_containers unmarshal l g)) (sym (if-false outside _ _))
  ]

  -- The jobs of all types but `job-run` are as if the running containers were the only ones: what
  -- labels the stopped containers have does not matter.
  pub split-running :
      (cs : List DockerContainerInfo)
      → from_running (split_containers_labels unmarshal cs)
        ≡ from_running (split_containers_labels unmarshal (only is_running cs))
  unfolding split_containers_labels
  split-running cs =
      add_containers-run (sort_containers cs) nothing_found nothing_found refl
      ∙ ap (λ l. from_running (add_containers unmarshal l nothing_found))
          (only-sort_containers is_running cs)
