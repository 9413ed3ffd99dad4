-- ===== src/Labels.antt =====
-- cli/docker-labels.go: the jobs, the global settings and the webhooks that containers define by their
-- labels.
pub mod Keys
pub mod Order
pub mod Splitting
pub mod Services
pub mod Running
pub mod Sources
pub mod RunJobs
pub mod Building
pub mod Policy
pub mod Failing
mod Examples
use ofelia.Common.{
  ℕ, String, Bool, true, false, not, ◌&&◌, ◌||◌, Option, none, some, List, [], ◌∷◌, ltb,
  if◌then◌else◌, ◌is◌, lookup, assign, has_key, text_lt,
}

pub record DockerContainerInfo : Type 0 where
  pub name : String
  pub created : ℕ
  pub running : Bool
  pub labels : List (String × String)

-- A parameter of a job: a text, or the texts of a JSON array.
pub data Param : Type 0 where
  text : String → Param
  texts : List String → Param

-- A job as a map of its parameters, and a map of jobs by their names.
abbrev pub Params : Type 0
Params = List (String × Param)

abbrev pub Jobs : Type 0
Jobs = List (String × Params)

abbrev pub is_host_type : String → Bool
is_host_type job_type = job_type is "job-local" || job_type is "job-service-run"

abbrev pub is_other_type : String → Bool
is_other_type job_type =
    job_type is "job-run" || job_type is "job-exec" || job_type is "job-compose"

unfoldable pub check_job_type_allowed_on_service_container : String → Bool → Bool
check_job_type_allowed_on_service_container job_type is_service =
    if is_service then true else if is_host_type job_type then false else is_other_type job_type

unfoldable pub check_job_type_allowed_on_stopped_container : String → Bool → Bool
check_job_type_allowed_on_stopped_container job_type is_running =
    if is_running then true else job_type is "job-run"

unfoldable pub can_run_job_on_container : String → Bool → Bool → Bool
unfolding check_job_type_allowed_on_service_container check_job_type_allowed_on_stopped_container
can_run_job_on_container job_type is_running is_service =
    check_job_type_allowed_on_service_container job_type is_service
    && check_job_type_allowed_on_stopped_container job_type is_running

-- The parameters of the job after `ensureJob`.
abbrev pub params_or : Option Params → Params
params_or none = []
params_or (some params) = params

-- What the labels of all containers so far have set, and those of the current one in `exec` and
-- `run`.
pub record Found : Type 0 where
  pub exec : Jobs
  pub local : Jobs
  pub run : Jobs
  pub service : Jobs
  pub compose : Jobs
  pub globals : List (String × String)
  pub webhooks : List (String × List (String × String))

abbrev pub nothing_found : Found
nothing_found = record {
  exec = [];
  local = [];
  run = [];
  service = [];
  compose = [];
  globals = [];
  webhooks = [];
}

abbrev pub webhook_or : Option (List (String × String)) → List (String × String)
webhook_or none = []
webhook_or (some params) = params

unfoldable pub has_service_label : List (String × String) → Bool
has_service_label [] = false
has_service_label ((k, v) ∷ labels) =
    if k is "ofelia.service" && v is "true" then true else has_service_label labels

abbrev pub prefix_or : String → Option String → String
prefix_or name none = name
prefix_or name (some service) = if service is "" then name else service

-- Docker Compose's name of the service, or the name of the container.
unfoldable pub get_job_prefix : DockerContainerInfo → String
get_job_prefix c = prefix_or c.name (lookup "com.docker.compose.service" c.labels)

unfoldable pub merge_job_maps {ℓ} :
    {V : Type ℓ} → List (String × V) → List (String × V) → Bool → List (String × V)
merge_job_maps left [] use_right = left
merge_job_maps left ((k, v) ∷ right) use_right =
    merge_job_maps (if not (has_key k left) || use_right then assign k v left else left) right
      use_right

-- The job with the container's name, where it has neither an image nor a container.
abbrev pub named : String → Params → Params
named container job =
    if has_key "image" job
    then job
    else if has_key "container" job
    then job
    else assign "container" (text container) job

unfoldable pub add_container_name_to_jobs_if_needed : String → Jobs → Jobs
add_container_name_to_jobs_if_needed container [] = []
add_container_name_to_jobs_if_needed container ((n, job) ∷ jobs) =
    (n, named container job) ∷ add_container_name_to_jobs_if_needed container jobs

-- The order of `sortContainers`: whether the left one is to stand before the right one.
unfoldable pub comes_first : DockerContainerInfo → DockerContainerInfo → Bool
comes_first left right =
    if left.running && not right.running
    then true
    else if right.running && not left.running
    then false
    else if ltb right.created left.created
    then true
    else if ltb left.created right.created
    then false
    else text_lt left.name right.name

unfoldable pub place : DockerContainerInfo → List DockerContainerInfo → List DockerContainerInfo
place c [] = c ∷ []
place c (d ∷ cs) = let rest = place c cs in if comes_first d c then d ∷ rest else c ∷ d ∷ cs

-- A stable sort.
unfoldable pub sort_containers : List DockerContainerInfo → List DockerContainerInfo
unfolding comes_first place
sort_containers [] = []
sort_containers (c ∷ cs) = place c (sort_containers cs)
