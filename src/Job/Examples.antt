-- ===== src/Job/Examples.antt =====
-- The theorem on the history at concrete values.
use ofelia.Common.{ℕ, ◌≡◌, refl, true, false, none, [], ◌∷◌, pos}
use ofelia.Job.{BareJob}
use ofelia.Job.History.{last_items}

-- A job with a limit of 2, and numbers for its executions.
abbrev backup_job : BareJob ℕ
backup_job = record {
  schedule = "@daily";
  name = "backup";
  command = "tar c /data";
  run_on_startup = false;
  history_limit = pos 2;
  max_retries = pos 3;
  retry_delay_ms = 1000;
  retry_exponential = true;
  retry_max_delay_ms = 60000;
  dependencies = [];
  on_success = [];
  on_failure = [];
  allow_parallel = true;
  running = 0;
  history = 1 ∷ [];
  last_run = none;
  cron_id = 1;
}

last_two : last_items {A = ℕ} 2 (1 ∷ 2 ∷ 3 ∷ 4 ∷ []) ≡ 3 ∷ 4 ∷ []
unfolding last_items
last_two = refl
