-- ===== src/Labels/Splitting.antt =====
-- cli/docker-labels.go, `splitContainersLabelsIntoJobMapsByType`: going through the labels of all
-- containers.
use ofelia.Common.{
  String, Bool, false, Option, none, some, List, [], ◌∷◌, if◌then◌else◌, ◌is◌, lookup, assign,
  concat,
}
use ofelia.Labels.{
  DockerContainerInfo, Param, text, texts, Params, Jobs, can_run_job_on_container, params_or, Found,
  nothing_found, webhook_or, has_service_label, get_job_prefix, merge_job_maps,
  add_container_name_to_jobs_if_needed, sort_containers,
}
use ofelia.Labels.Keys.{split_dots, is_list_param, is_internal, is_one_of, global_label_allow_list}

-- `filterGlobalLabelKey`
unfoldable pub filter_global_label_key :
    String → String → List (String × String) → List (String × String)
filter_global_label_key key value globals =
    if is_one_of global_label_allow_list key then assign key value globals else globals

unfoldable pub add_webhook : String → String → String → Found → Found
add_webhook name param value f = record f {
  webhooks = assign name (assign param value (webhook_or (lookup name f.webhooks))) f.webhooks;
}

-- Whether the labels of the container count as those of the service: asked once for each container.
abbrev pub is_service : DockerContainerInfo → Bool
is_service c = has_service_label c.labels

-- `json.Unmarshal` of a value into a list of texts, `none` where it fails.
module _ (unmarshal : String → Option (List String)) where
  abbrev pub list_or : String → Option (List String) → Param
  list_or value none = text value
  list_or value (some arr) = texts arr

  unfoldable pub set_job_param : String → String → Params → Params
  set_job_param name value params =
      assign name (if is_list_param name then list_or value (unmarshal value) else text value)
        params

  -- `ensureJob` and `setJobParam`
  unfoldable pub set_in_job : String → String → String → Jobs → Jobs
  unfolding set_job_param
  set_in_job name param value jobs =
      assign name (set_job_param param value (params_or (lookup name jobs))) jobs

  unfoldable pub apply_job_parameter_to_job_maps :
      String → String → String → String → String → Found → Found
  unfolding set_in_job
  apply_job_parameter_to_job_maps job_type name param value scoped f =
      if job_type is "job-exec"
      then record f { exec = set_in_job scoped param value f.exec }
      else if job_type is "job-local"
      then record f { local = set_in_job name param value f.local }
      else if job_type is "job-service-run"
      then record f { service = set_in_job name param value f.service }
      else if job_type is "job-run"
      then record f { run = set_in_job name param value f.run }
      else if job_type is "job-compose"
      then record f { compose = set_in_job name param value f.compose }
      else f

  -- A label of a job or of a webhook.
  unfoldable pub add_job_label :
      DockerContainerInfo → String → String → String → String → Found → Found
  unfolding add_webhook apply_job_parameter_to_job_maps
  add_job_label c job_type name param value f =
      if job_type is "webhook"
      then (if is_service c then add_webhook name param value f else f)
      else (let scoped =
            if job_type is "job-exec" then concat (concat (get_job_prefix c) ".") name else name in
          if can_run_job_on_container job_type c.running (is_service c)
          then apply_job_parameter_to_job_maps job_type name param value scoped f
          else f)

  abbrev pub add_global : DockerContainerInfo → String → String → Found → Found
  add_global c key value f =
      if is_service c then record f { globals = filter_global_label_key key value f.globals } else f

  -- On the parts of the key.
  abbrev pub add_parts : DockerContainerInfo → List String → String → Found → Found
  add_parts c [] value f = f
  add_parts c (p ∷ []) value f = f
  add_parts c (p ∷ q ∷ []) value f = add_global c q value f
  add_parts c (p ∷ q ∷ r ∷ []) value f = add_global c q value f
  add_parts c (p ∷ q ∷ r ∷ s ∷ parts) value f = add_job_label c q r s value f

  -- The body of the loop over the labels.
  unfoldable pub add_label : DockerContainerInfo → String → String → Found → Found
  unfolding add_job_label
  add_label c k value f = if is_internal k then f else add_parts c (split_dots k) value f

  unfoldable pub add_labels : DockerContainerInfo → List (String × String) → Found → Found
  unfolding add_label
  add_labels c [] f = f
  add_labels c ((k, value) ∷ labels) f = add_labels c labels (add_label c k value f)

  -- The jobs that the container is named in.
  abbrev pub name_jobs : DockerContainerInfo → Jobs → Jobs
  name_jobs c jobs = if is_service c then jobs else add_container_name_to_jobs_if_needed c.name jobs

  -- The rest of the body of the loop over the containers: `f` is what was there before, `g` with
  -- the labels of the container.
  abbrev pub merge_container : DockerContainerInfo → Found → Found → Found
  merge_container c f g = record g {
    exec = merge_job_maps f.exec (name_jobs c g.exec) false;
    run = merge_job_maps f.run (name_jobs c g.run) c.running;
  }

  unfoldable pub add_container : DockerContainerInfo → Found → Found
  unfolding add_labels
  add_container c f = merge_container c f (add_labels c c.labels (record f { exec = []; run = [] }))

  unfoldable pub add_containers : List DockerContainerInfo → Found → Found
  unfolding add_container
  add_containers [] f = f
  add_containers (c ∷ cs) f = add_containers cs (add_container c f)

  unfoldable pub split_containers_labels : List DockerContainerInfo → Found
  unfolding add_containers
  split_containers_labels cs = add_containers (sort_containers cs) nothing_found
