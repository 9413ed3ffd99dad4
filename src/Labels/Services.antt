-- ===== src/Labels/Services.antt =====
-- Which containers may define what: jobs on the host, global settings and webhooks come from service
-- containers, and all jobs but `job-run` from running ones.
use ofelia.Common.{
  String, false, ◌≡◌, refl, sym, ap, ◌∙◌, Option, List, [], ◌∷◌, inl, inr, Bool-cases, if-true,
  if-false, arith,
}
use ofelia.Labels.{
  DockerContainerInfo, Jobs, can_run_job_on_container, Found, nothing_found, sort_containers,
}
use ofelia.Labels.Keys.{split_dots}
use ofelia.Labels.Order.{only, only-sort_containers}
use ofelia.Labels.Splitting.{
  is_service, add_webhook, apply_job_parameter_to_job_maps, add_job_label, add_parts, add_label,
  add_labels, add_container, add_containers, split_containers_labels,
}

-- What service containers decide.
pub record FromServices : Type 0 where
  pub local : Jobs
  pub service : Jobs
  pub globals : List (String × String)
  pub webhooks : List (String × List (String × String))

abbrev pub from_services : Found → FromServices
from_services f = record {
  local = f.local;
  service = f.service;
  globals = f.globals;
  webhooks = f.webhooks;
}

module _ (unmarshal : String → Option (List String)) where
  add_job_label-outside :
      (c : DockerContainerInfo) (t n p v : String) (f : Found)
      → is_service c ≡ false
      → from_services (add_job_label unmarshal c t n p v f) ≡ from_services f
  unfolding add_job_label can_run_job_on_container apply_job_parameter_to_job_maps
  add_job_label-outside c t n p v f h = ground arith

  add_parts-outside :
      (c : DockerContainerInfo) (parts : List String) (v : String) (f : Found)
      → is_service c ≡ false
      → from_services (add_parts unmarshal c parts v f) ≡ from_services f
  add_parts-outside c [] v f h = refl
  add_parts-outside c (p ∷ []) v f h = refl
  add_parts-outside c (p ∷ q ∷ []) v f h = ground arith
  add_parts-outside c (p ∷ q ∷ r ∷ []) v f h = ground arith
  add_parts-outside c (p ∷ q ∷ r ∷ s ∷ parts) v f h = add_job_label-outside c q r s v f h

  add_labels-outside :
      (c : DockerContainerInfo) (labels : List (String × String)) (f : Found)
      → is_service c ≡ false
      → from_services (add_labels unmarshal c labels f) ≡ from_services f
  unfolding add_labels add_label
  add_labels-outside c [] f h = refl
  add_labels-outside c ((k, v) ∷ labels) f h = ground (
    arith,
    add_labels-outside c labels (add_label unmarshal c k v f) h,
    add_parts-outside c (split_dots k) v f h,
  )

  -- What a container adds depends on nothing else of what was found.
  add_job_label-same :
      (c : DockerContainerInfo) (t n p v : String) (f g : Found)
      → from_services f ≡ from_services g
      → from_services (add_job_label unmarshal c t n p v f)
        ≡ from_services (add_job_label unmarshal c t n p v g)
  unfolding add_job_label apply_job_parameter_to_job_maps add_webhook
  add_job_label-same c t n p v f g h = ground arith

  add_parts-same :
      (c : DockerContainerInfo) (parts : List String) (v : String) (f g : Found)
      → from_services f ≡ from_services g
      → from_services (add_parts unmarshal c parts v f)
        ≡ from_services (add_parts unmarshal c parts v g)
  add_parts-same c [] v f g h = h
  add_parts-same c (p ∷ []) v f g h = h
  add_parts-same c (p ∷ q ∷ []) v f g h = ground arith
  add_parts-same c (p ∷ q ∷ r ∷ []) v f g h = ground arith
  add_parts-same c (p ∷ q ∷ r ∷ s ∷ parts) v f g h = add_job_label-same c q r s v f g h

  add_labels-same :
      (c : DockerContainerInfo) (labels : List (String × String)) (f g : Found)
      → from_services f ≡ from_services g
      → from_services (add_labels unmarshal c labels f)
        ≡ from_services (add_labels unmarshal c labels g)
  unfolding add_labels add_label
  add_labels-same c [] f g h = h
  add_labels-same c ((k, v) ∷ labels) f g h =
      add_labels-same c labels (add_label unmarshal c k v f) (add_label unmarshal c k v g)
        (ground (arith, add_parts-same c (split_dots k) v f g h))

  add_container-outside :
      (c : DockerContainerInfo) (f : Found)
      → is_service c ≡ false
      → from_services (add_container unmarshal c f) ≡ from_services f
  unfolding add_container
  add_container-outside c f h =
      ground (arith, add_labels-outside c c.labels (record f { exec = []; run = [] }) h)

  add_container-same :
      (c : DockerContainerInfo) (f g : Found)
      → from_services f ≡ from_services g
      → from_services (add_container unmarshal c f) ≡ from_services (add_container unmarshal c g)
  unfolding add_container
  add_container-same c f g h = ground (
    arith,
    add_labels-same c c.labels (record f { exec = []; run = [] }) (record g { exec = []; run = [] })
        h,
  )

  add_containers-services :
      (cs : List DockerContainerInfo) (f g : Found)
      → from_services f ≡ from_services g
      → from_services (add_containers unmarshal cs f)
        ≡ from_services (add_containers unmarshal (only is_service cs) g)
  unfolding add_containers only
  add_containers-services [] f g h = h
  add_containers-services (c ∷ cs) f g h = elim (Bool-cases (is_service c)) [
    | inl inside ↦
        add_containers-services cs (add_container unmarshal c f) (add_container unmarshal c g)
          (add_container-same c f g h)
        ∙ ap (λ l. from_services (add_containers unmarshal l g)) (sym (if-true inside _ _))
    | inr outside ↦
        add_containers-services cs (add_container unmarshal c f) g
          (add_container-outside c f outside ∙ h)
        ∙ ap (λ l. from_services (add_containers unmarshal l g)) (sym (if-false outside _ _))
  ]

  -- Local jobs, service jobs, global settings and webhooks are as if the service containers were the
  -- only ones: what labels the other containers have does not matter.
  pub split-services :
      (cs : List DockerContainerInfo)
      → from_services (split_containers_labels unmarshal cs)
        ≡ from_services (split_containers_labels unmarshal (only is_service cs))
  unfolding split_containers_labels
  split-services cs =
      add_containers-services (sort_containers cs) nothing_found nothing_found refl
      ∙ ap (λ l. from_services (add_containers unmarshal l nothing_found))
          (only-sort_containers is_service cs)
