-- ===== src/JobsApi/Routes.antt =====
-- web/server.go, `NewServerWithAuth`: which handler serves which route.
use ofelia.Common.{ℕ, String, Bool}
use ofelia.Scheduler.GoCron.{Cron}
use ofelia.JobsApi.{
  Request, JobsApi, Validators, run_job_handler, disable_job_handler, enable_job_handler,
  create_job_handler, update_job_handler, delete_job_handler,
}

-- The routes below /api/jobs whose handlers change jobs.
pub data Route : Type 0 where
  jobs_run jobs_disable jobs_enable jobs_create jobs_update jobs_delete : Route

module _ {C M : Type 0} (cron : Cron C) (type_name : M → String) (v : Validators)
    (has_provider : Bool) where
  unfoldable pub serve : Route → ℕ → Request → JobsApi C M → JobsApi C M × ℕ
  unfolding run_job_handler disable_job_handler enable_job_handler create_job_handler
      update_job_handler delete_job_handler
  serve jobs_run new r = run_job_handler cron type_name r
  serve jobs_disable new r = disable_job_handler cron type_name r
  serve jobs_enable new r = enable_job_handler cron type_name r
  serve jobs_create new r = create_job_handler cron type_name v has_provider new r
  serve jobs_update new r = update_job_handler cron type_name v has_provider new r
  serve jobs_delete new r = delete_job_handler cron type_name r
