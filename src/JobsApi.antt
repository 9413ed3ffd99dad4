-- ===== src/JobsApi.antt =====
-- web/server.go, the handlers of the API that change jobs: `runJobHandler`, `toggleJobHandler`,
-- `createJobHandler`, `updateJobHandler` and `deleteJobHandler`, on the scheduler and the origins
-- of jobs, with `validateJobName` and `jobFromRequest`.
--
-- A handler returns the status of its answer. The validators of commands are parameters, since they
-- rest on regular expressions, and so is the splitting of a command into its arguments.
pub mod Routes
pub mod Names
pub mod Methods
pub mod Making
pub mod Keeping
pub mod Serving
pub mod Updating
mod Examples
use Prim.Native.String.{len}
use Prim.Native.Char.{Char, code}
use ofelia.Common.{
  ℕ, String, Bool, true, false, not, ◌&&◌, ◌||◌, Option, none, some, List, [], pos, ltb, ◌==◌,
  if◌then◌else◌, ◌is◌,
}
use ofelia.Container.{empty}
use ofelia.Scheduler.GoCron.{Cron}
use ofelia.Scheduler.{
  SchedulerError, job_not_found, Scheduler, JobObject, set_key, add_job_with_tags, remove_job,
  update_job, disable_job, enable_job, run_job,
}
use ofelia.Scheduler.Queries.{get_any_job}

pub record JobRequest : Type 0 where
  pub name : String
  pub type_ : String
  pub schedule : String
  pub command : String
  pub image : String
  pub container : String
  pub file : String
  pub service : String
  pub exec_flag : Bool

-- `body` is the decoded body, `none` if it does not decode, and `origin` the header `X-Origin`.
pub record Request : Type 0 where
  pub is_post : Bool
  pub body : Option JobRequest
  pub origin : String

pub record JobsApi (C M : Type 0) : Type 0 where
  pub scheduler : Scheduler C M
  pub origins : String → Option String

-- The third condition of `validateJobName`.
unfoldable pub has_control : String → Bool
has_control String.[] = false
has_control (String.◌∷◌ c s) = ltb (code c) 32 || code c == 127 || has_control s

unfoldable pub validate_job_name : String → Bool
unfolding has_control
validate_job_name name = not (name is "") && not (ltb 256 (len name)) && not (has_control name)

-- The validators of the package config, and `args.GetArgs`.
pub record Validators : Type 0 where
  pub validate_file_path : String → Bool
  pub validate_service_name : String → Bool
  pub validate_command_args : List String → Bool
  pub get_args : String → List String

abbrev pub valid_command : Validators → String → Bool
valid_command v command = command is "" || v.validate_command_args (v.get_args command)

-- Whether `jobFromRequest` makes a job.
unfoldable pub makes_job : Validators → Bool → JobRequest → Bool
makes_job v has_provider req =
    if req.type_ is "run"
    then has_provider
    else if req.type_ is "exec"
    then has_provider
    else if req.type_ is "compose"
    then (req.file is "" || v.validate_file_path req.file)
      && v.validate_service_name req.service
      && valid_command v req.command
    else (req.type_ is "" || req.type_ is "local") && valid_command v req.command

-- The job that `jobFromRequest` makes, behind a new pointer.
abbrev pub job_of : {M : Type 0} → JobRequest → JobObject M
job_of req = record {
  bare = record {
    schedule = req.schedule;
    name = req.name;
    command = req.command;
    run_on_startup = false;
    history_limit = pos 0;
    max_retries = pos 0;
    retry_delay_ms = 0;
    retry_exponential = false;
    retry_max_delay_ms = 0;
    dependencies = [];
    on_success = [];
    on_failure = [];
    allow_parallel = false;
    running = 0;
    history = [];
    last_run = none;
    cron_id = 0;
  };
  container = empty;
}

-- What of a scheduler error the handlers look at.
abbrev pub is_not_found : SchedulerError → Bool
is_not_found (job_not_found n) = true
is_not_found _ = false

-- After `RunJob` or the toggle.
abbrev pub answer_status : Option SchedulerError → ℕ
answer_status none = 204
answer_status (some e) = if is_not_found e then 404 else 500

abbrev pub origin_of : Request → String
origin_of r = if r.origin is "" then "api" else r.origin

module _ {C M : Type 0} where
  abbrev pub of_body :
      Option JobRequest
      → (JobRequest → JobsApi C M → JobsApi C M × ℕ)
      → JobsApi C M
      → JobsApi C M × ℕ
  of_body none f api = (api, 400)
  of_body (some req) f api = if validate_job_name req.name then f req api else (api, 400)

  -- What each handler begins with.
  unfoldable pub decoded :
      Request → (JobRequest → JobsApi C M → JobsApi C M × ℕ) → JobsApi C M → JobsApi C M × ℕ
  decoded r f api = if not r.is_post then (api, 405) else of_body r.body f api

  abbrev pub with_scheduler : JobsApi C M → Scheduler C M × Option SchedulerError → JobsApi C M × ℕ
  with_scheduler api (s, e) = (record api { scheduler = s }, answer_status e)

  unfoldable pub run_job_handler : Cron C → (M → String) → Request → JobsApi C M → JobsApi C M × ℕ
  unfolding decoded
  run_job_handler cron type_name r =
      decoded r (λ req api. with_scheduler api (run_job cron type_name req.name api.scheduler))

  unfoldable pub toggle_job_handler :
      (String → Scheduler C M → Scheduler C M × Option SchedulerError)
      → Request
      → JobsApi C M
      → JobsApi C M × ℕ
  unfolding decoded
  toggle_job_handler toggle r =
      decoded r (λ req api. with_scheduler api (toggle req.name api.scheduler))

  unfoldable pub disable_job_handler :
      Cron C → (M → String) → Request → JobsApi C M → JobsApi C M × ℕ
  unfolding toggle_job_handler
  disable_job_handler cron type_name = toggle_job_handler (disable_job cron type_name)

  unfoldable pub enable_job_handler :
      Cron C → (M → String) → Request → JobsApi C M → JobsApi C M × ℕ
  unfolding toggle_job_handler
  enable_job_handler cron type_name = toggle_job_handler (enable_job cron type_name)

  -- The new job behind the pointer `new`, which nothing else uses.
  abbrev pub make_job : ℕ → JobRequest → Scheduler C M → Scheduler C M
  make_job new req s = record s { objects = λ x. if x == new then job_of req else s.objects x }

  abbrev pub set_origin : Request → JobRequest → JobsApi C M → JobsApi C M
  set_origin r req api = record api { origins = set_key req.name (some (origin_of r)) api.origins }

  -- After `AddJob`, with the status of a success.
  abbrev pub after_add_job :
      Request
      → JobRequest
      → JobsApi C M
      → ℕ
      → Scheduler C M × Option SchedulerError
      → JobsApi C M × ℕ
  after_add_job r req api ok (s, some e) = (record api { scheduler = s }, 400)
  after_add_job r req api ok (s, none) = (set_origin r req (record api { scheduler = s }), ok)

  abbrev pub remove_old : Cron C → (M → String) → Option ℕ → Scheduler C M → Scheduler C M
  remove_old cron type_name none s = s
  remove_old cron type_name (some old) s = remove_job cron type_name old s

  -- After `GetAnyJob` in `deleteJobHandler`.
  abbrev pub delete_found :
      Cron C → (M → String) → String → Option ℕ → JobsApi C M → JobsApi C M × ℕ
  delete_found cron type_name n none api = (api, 404)
  delete_found cron type_name n (some j) api = (
    record {
      scheduler = remove_job cron type_name j api.scheduler;
      origins = set_key n none api.origins;
    },
    204,
  )

  unfoldable pub delete_job_handler :
      Cron C → (M → String) → Request → JobsApi C M → JobsApi C M × ℕ
  unfolding decoded get_any_job
  delete_job_handler cron type_name r =
      decoded r
        (λ req api. delete_found cron type_name req.name (get_any_job req.name api.scheduler) api)

module _ {C M : Type 0} (cron : Cron C) (type_name : M → String) where
  -- Without a job that can be updated: what is there under the name is removed, the new one added.
  unfoldable pub replace_any : ℕ → Request → JobRequest → JobsApi C M → JobsApi C M × ℕ
  unfolding get_any_job add_job_with_tags remove_job
  replace_any new r req api =
      let s = remove_old cron type_name (get_any_job req.name api.scheduler) api.scheduler in
      after_add_job r req api 201 (add_job_with_tags cron type_name new [] s)

  -- After `UpdateJob`.
  abbrev pub after_update_job :
      ℕ
      → Request
      → JobRequest
      → JobsApi C M
      → Scheduler C M × Option SchedulerError
      → JobsApi C M × ℕ
  after_update_job new r req api (s, none) = (set_origin r req (record api { scheduler = s }), 200)
  after_update_job new r req api (s, some e) =
      let api' = record api { scheduler = s } in
      if is_not_found e then replace_any new r req api' else (api', 500)

module _ {C M : Type 0} (cron : Cron C) (type_name : M → String) (v : Validators)
    (has_provider : Bool) where
  unfoldable pub create_job_handler : ℕ → Request → JobsApi C M → JobsApi C M × ℕ
  unfolding decoded makes_job add_job_with_tags
  create_job_handler new r = decoded r (λ req api.
      if makes_job v has_provider req
      then after_add_job r req api 201
          (add_job_with_tags cron type_name new [] (make_job new req api.scheduler))
      else (api, 400))

  unfoldable pub update_job_handler : ℕ → Request → JobsApi C M → JobsApi C M × ℕ
  unfolding decoded makes_job update_job
  update_job_handler new r = decoded r (λ req api.
      if makes_job v has_provider req
      then after_update_job cron type_name new r req api
          (update_job cron type_name req.name req.schedule new (make_job new req api.scheduler))
      else (api, 400))
