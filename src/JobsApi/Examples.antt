-- ===== src/JobsApi/Examples.antt =====
-- The theorems on the API at concrete requests, over the table of names in the place of go-cron.
use ofelia.Common.{String, true, false, ◌≡◌, refl, none, some, [], ◌∷◌, if◌then◌else◌, ◌is◌}
use ofelia.Job.{other}
use ofelia.Scheduler.Table.{Table, entry, table, table-Documented}
use ofelia.Scheduler.{Scheduler, new_scheduler, add_job_with_tags}
use ofelia.Scheduler.Consistency.{IsConsistent}
use ofelia.Scheduler.Histories.{start, next, adds, reachable-IsConsistent}
use ofelia.JobsApi.{JobRequest, Request, JobsApi, Validators, job_of, update_job_handler}
use ofelia.JobsApi.Routes.{jobs_update, serve}
use ofelia.JobsApi.Updating.{update_job_handler-loses}
use ofelia.JobsApi.Keeping.{IsSame}
use ofelia.JobsApi.Serving.{serve-IsSame}

abbrev type_name : String → String
type_name m = m

abbrev validators : Validators
validators = record {
  validate_file_path = λ f. true;
  validate_service_name = λ n. true;
  validate_command_args = λ a. true;
  get_args = λ c. c ∷ [];
}

abbrev wanted : String → JobRequest
wanted schedule = record {
  name = "backup";
  type_ = "local";
  schedule = schedule;
  command = "true";
  image = "";
  container = "";
  file = "";
  service = "";
  exec_flag = false;
}

-- The job backup is disabled, behind the pointer 1.
abbrev api : JobsApi Table String
api = record {
  scheduler = record {
    jobs = 1 ∷ [];
    removed = [];
    container =
        (new_scheduler {C = Table} {M = String} [] (λ x. job_of (wanted "@daily"))).container;
    cron = ("backup", 1) ∷ [];
    jobs_by_name = λ n. if n is "backup" then some 1 else none;
    disabled_names = λ n. n is "backup";
    objects = λ x. job_of (wanted "@daily");
  };
  origins = λ n. none;
}

abbrev request : Request
request = record { is_post = true; body = some (wanted "@never"); origin = "" }

update_job_handler-loses_example :
    let x = update_job_handler table type_name validators false 5 request api in
    (x.1 ≡ 400)
    × (x.0.scheduler.jobs_by_name "backup" ≡ none)
    × (entry "backup" x.0.scheduler.cron ≡ none)
unfolding ofelia.JobsApi.validate_job_name ◌is◌ ofelia.JobsApi.makes_job
update_job_handler-loses_example =
    update_job_handler-loses table type_name validators false entry table-Documented 5 1
      (other "duplicate name or bad schedule") [] request (wanted "@never") api refl refl refl refl
      refl refl refl refl refl refl

-- The job backup has been added behind the pointer 1, and nothing else done.
abbrev first : Scheduler Table String
first = new_scheduler [] (λ x. job_of (wanted "@daily"))

abbrev with_backup : JobsApi Table String
with_backup = record {
  scheduler = (add_job_with_tags table type_name 1 [] first).0;
  origins = λ n. none;
}

with_backup-IsConsistent : IsConsistent entry with_backup.scheduler
unfolding new_scheduler ◌is◌
with_backup-IsConsistent =
    reachable-IsConsistent table type_name entry table-Documented [] (λ x. job_of (wanted "@daily"))
      with_backup.scheduler (λ n. refl)
      (next first with_backup.scheduler start (adds 1 [] first refl))

-- A job sync, which there is not yet.
abbrev update_sync : Request
update_sync = record {
  is_post = true;
  body = some (record (wanted "@hourly") { name = "sync" });
  origin = "";
}

serve-IsSame_example :
    IsSame entry "backup" with_backup
      (serve table type_name validators false jobs_update 5 update_sync with_backup).0
unfolding ◌is◌ new_scheduler ofelia.Scheduler.Naming.mem add_job_with_tags
serve-IsSame_example =
    serve-IsSame entry table table-Documented type_name validators false "backup" jobs_update 5
      update_sync with_backup with_backup-IsConsistent refl refl

-- The job sync is added.
synced :
    (serve table type_name validators false jobs_update 5 update_sync with_backup).0.scheduler.jobs
    ≡ 1 ∷ 5 ∷ []
unfolding serve ofelia.JobsApi.validate_job_name ◌is◌ ofelia.JobsApi.makes_job
    ofelia.Scheduler.find_job new_scheduler ofelia.JobsApi.replace_any
synced = refl
