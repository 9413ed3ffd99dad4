-- ===== src/Labels/Examples.antt =====
-- The theorems on labels at concrete containers.
use ofelia.Common.{
  String, Bool, true, false, ◌≡◌, refl, Option, none, some, List, [], ◌∷◌, if◌then◌else◌, lookup,
  assign, has_key, has_distinct, ◌is◌, concat,
}
use ofelia.Labels.{
  DockerContainerInfo, text, Jobs, merge_job_maps, has_service_label, get_job_prefix,
  sort_containers, can_run_job_on_container, add_container_name_to_jobs_if_needed,
}
use ofelia.Labels.Keys.{split_dots, is_list_param, is_internal}
use ofelia.Labels.Order.{only}
use ofelia.Labels.Splitting.{is_service, split_containers_labels}
use ofelia.Labels.Services.{from_services}
use ofelia.Labels.Running.{from_running, is_running}
use ofelia.Labels.Sources.{split-sources}
use ofelia.Labels.RunJobs.{or_else, last_running, first_stopped, split-run}
use ofelia.Labels.Building.{
  JobKind, LiveJobs, Decoder, build_from_docker_containers, docker_containers_update, decode_into,
}
use ofelia.Labels.Policy.{IsHostless, build-IsHostless}
use ofelia.Labels.Failing.{label_sync, kept_ini, update-exec_fails}
use ofelia.Sync.{JobSource, unset, ini, label, JobConfig}
use ofelia.Sync.PerName.{IsLawful}

abbrev unmarshal : String → Option (List String)
unmarshal value = if value is "[]" then some [] else none

abbrev scheduler_container : DockerContainerInfo
scheduler_container = record {
  name = "ofelia";
  created = 2;
  running = true;
  labels =
      ("ofelia.enabled", "true")
      ∷ ("ofelia.service", "true")
      ∷ ("ofelia.job-local.clean.command", "rm")
      ∷ ("ofelia.log-level", "debug")
      ∷ ("ofelia.allow-host-jobs-from-labels", "true")
      ∷ [];
}

abbrev database : DockerContainerInfo
database = record {
  name = "db-1";
  created = 5;
  running = true;
  labels =
      ("com.docker.compose.service", "db")
      ∷ ("ofelia.job-exec.dump.command", "pg_dump")
      ∷ ("ofelia.job-local.own.command", "sh")
      ∷ ("ofelia.job-run.report.image", "alpine")
      ∷ [];
}

abbrev stopped : DockerContainerInfo
stopped = record {
  name = "old";
  created = 1;
  running = false;
  labels =
      ("ofelia.job-exec.dump.command", "true")
      ∷ ("ofelia.job-run.report.image", "busybox")
      ∷ ("ofelia.job-run.start.Volume", "[]")
      ∷ [];
}

abbrev containers : List DockerContainerInfo
containers = stopped ∷ scheduler_container ∷ database ∷ []

split-sources_example :
    (from_services (split_containers_labels unmarshal containers)
      ≡ from_services (split_containers_labels unmarshal (only is_service containers)))
    × (from_running (split_containers_labels unmarshal containers)
        ≡ from_running (split_containers_labels unmarshal (only is_running containers)))
split-sources_example = split-sources unmarshal containers

split-run_example :
    lookup "report" (split_containers_labels unmarshal containers).run
    ≡ or_else
        (last_running unmarshal "report" (sort_containers containers))
        (first_stopped unmarshal "report" (sort_containers containers))
split-run_example = split-run unmarshal containers "report"

abbrev methods : JobConfig JobSource
methods = record {
  get_job_source = λ j. j;
  set_job_source = λ s j. s;
  validate = λ j. true;
  hash = λ j. none;
  build_middlewares = λ j. j;
}

-- Jobs of the name `dump` do not decode.
abbrev decode_jobs : JobKind → Jobs → List (String × JobSource) × Bool
decode_jobs kind [] = ([], true)
decode_jobs kind ((n, job) ∷ jobs) =
    let (rest, ok) = decode_jobs kind jobs in
    if n is "db.dump" then (rest, false) else ((n, unset) ∷ rest, ok)

abbrev decoder : Decoder Bool JobSource
decoder = record {
  unmarshal = unmarshal;
  decode_globals = λ settings g. (g, true);
  decode_jobs = decode_jobs;
  allow_host_jobs_from_labels = λ g. g;
}

build-IsHostless_example :
    IsHostless decoder (build_from_docker_containers decoder methods false containers).1
build-IsHostless_example =
    build-IsHostless decoder methods false containers (λ settings h a. refl) refl

methods-IsLawful : (kind : JobKind) → IsLawful (label_sync methods (λ n j. j))
methods-IsLawful kind = record {
  source_set = λ s j. refl;
  source_built = λ j. refl;
  source_prepared = λ n j. refl;
}

abbrev live : LiveJobs JobSource
live = record {
  maps = record {
    exec = [];
    local = [];
    service = [];
    run = ("report", label) ∷ ("weekly", ini) ∷ [];
    compose = [];
  };
  made = [];
}

update-exec_fails_example :
    let after =
      (docker_containers_update decoder methods (λ kind n j. j) false containers live).maps in
    (lookup "report" after.run ≡ kept_ini methods (lookup "report" live.maps.run))
    × (lookup "report" after.local ≡ kept_ini methods (lookup "report" live.maps.local))
    × (lookup "report" after.service ≡ kept_ini methods (lookup "report" live.maps.service))
    × (lookup "report" after.compose ≡ kept_ini methods (lookup "report" live.maps.compose))
unfolding has_distinct decode_into split_containers_labels sort_containers merge_job_maps
    has_service_label ◌is◌ add_container_name_to_jobs_if_needed is_internal split_dots
    can_run_job_on_container assign has_key concat lookup get_job_prefix is_list_param
update-exec_fails_example =
    update-exec_fails decoder methods (λ kind n j. j) methods-IsLawful false containers live
      "report" refl refl refl refl refl

exec_jobs :
    (split_containers_labels unmarshal containers).exec
    ≡ ("db.dump", ("command", text "pg_dump") ∷ ("container", text "db-1") ∷ []) ∷ []
unfolding split_containers_labels sort_containers merge_job_maps has_service_label ◌is◌
    add_container_name_to_jobs_if_needed is_internal split_dots can_run_job_on_container assign
    has_key concat lookup get_job_prefix is_list_param
exec_jobs = refl
