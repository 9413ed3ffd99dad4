-- ===== src/Sync/Examples.antt =====
-- The theorems on the sync at a concrete type of jobs.
use ofelia.Common.{
  String, Bool, true, false, ◌≡◌, refl, none, some, List, [], ◌∷◌, ◌++◌, ◌is◌, lookup, assign,
  without, has_distinct, arith,
}
use ofelia.Sync.{
  JobSource, unset, ini, label, JobConfig, remove_job, add_job, Synced, Sync, prepared,
  prepared_new, sync_job_map, union_webhook_names,
}
use ofelia.Sync.Calls.{calls_of, view}
use ofelia.Sync.PerName.{IsLawful, reconciled, after, sync_job_map-reconciled}
use ofelia.Sync.Registered.{registered, sync_job_map-registered}
use ofelia.Sync.Again.{IsPlainHash, sync_job_map-again, invalid_override}

record Job : Type 0 where
  name : String
  schedule : String
  is_valid : Bool
  source : JobSource

abbrev methods : JobConfig Job
methods = record {
  get_job_source = λ j. j.source;
  set_job_source = λ s j. record j { source = s };
  validate = λ j. j.is_valid;
  hash = λ j. some j.schedule;
  build_middlewares = λ j. j;
}

abbrev from_files : Sync Job
from_files = record { methods = methods; prep = λ n j. record j { name = n }; source = ini }

abbrev from_labels : Sync Job
from_labels = record from_files { source = label }

from_files-IsLawful : IsLawful from_files
from_files-IsLawful = record {
  source_set = λ s j. refl;
  source_built = λ j. refl;
  source_prepared = λ n j. refl;
}

from_labels-IsLawful : IsLawful from_labels
from_labels-IsLawful = record {
  source_set = λ s j. refl;
  source_built = λ j. refl;
  source_prepared = λ n j. refl;
}

from_files-IsPlainHash : IsPlainHash from_files
unfolding prepared prepared_new
from_files-IsPlainHash = record { hash_built = λ j. refl; hash_prepared = λ n j. refl }

abbrev hourly : Job
hourly = record { name = "backup"; schedule = "@hourly"; is_valid = true; source = label }

abbrev daily : Job
daily = record { name = "backup"; schedule = "@daily"; is_valid = true; source = unset }

abbrev broken : Job
broken = record { name = "backup"; schedule = "@daily"; is_valid = false; source = unset }

abbrev kept : Job
kept = record { name = "report"; schedule = "@daily"; is_valid = true; source = ini }

abbrev before : Synced Job
before = record {
  current = ("report", kept) ∷ ("backup", hourly) ∷ [];
  calls = ("report", add_job kept) ∷ ("backup", add_job hourly) ∷ [];
}

abbrev parsed : List (String × Job)
parsed = ("backup", daily) ∷ ("report", kept) ∷ []

sync_job_map-reconciled_example :
    view "backup" (sync_job_map from_files parsed before)
    ≡ after
        (calls_of "backup" before.calls)
        (reconciled from_files "backup" (lookup "backup" before.current) (lookup "backup" parsed))
unfolding has_distinct ◌is◌
sync_job_map-reconciled_example =
    sync_job_map-reconciled from_files from_files-IsLawful parsed before "backup" refl refl

daily_acceptable :
    (new : Job)
    → lookup "backup" parsed ≡ some new
    → methods.validate (prepared_new from_files "backup" new) ≡ true
unfolding lookup prepared_new ◌is◌
daily_acceptable new h = ground arith

sync_job_map-registered_example :
    registered none (calls_of "backup" (sync_job_map from_files parsed before).calls)
    ≡ lookup "backup" (sync_job_map from_files parsed before).current
unfolding has_distinct lookup calls_of registered ◌is◌
sync_job_map-registered_example =
    sync_job_map-registered from_files from_files-IsLawful parsed before "backup" refl refl
      daily_acceptable refl

sync_job_map-again_example :
    view "backup" (sync_job_map from_files parsed (sync_job_map from_files parsed before))
    ≡ view "backup" (sync_job_map from_files parsed before)
unfolding has_distinct ◌is◌
sync_job_map-again_example =
    sync_job_map-again from_files from_files-IsLawful from_files-IsPlainHash parsed before "backup"
      refl refl daily_acceptable

invalid_override_example :
    view "backup" (
      sync_job_map from_labels
        (("backup", hourly) ∷ [])
        (sync_job_map from_files (("backup", broken) ∷ []) before))
    ≡ record {
      entry = some hourly;
      made = calls_of "backup" before.calls ++ remove_job hourly ∷ [];
    }
unfolding has_distinct lookup prepared prepared_new ◌is◌
invalid_override_example =
    invalid_override from_files from_labels from_files-IsLawful from_labels-IsLawful
      (("backup", broken) ∷ []) (("backup", hourly) ∷ []) before "backup" hourly broken hourly refl
      refl refl refl refl refl refl refl refl refl refl refl

synced :
    (sync_job_map from_files parsed before).current
    ≡ ("report", kept) ∷ ("backup", record daily { source = ini }) ∷ []
unfolding sync_job_map lookup assign without prepared prepared_new ◌is◌
synced = refl

union : union_webhook_names ("a" ∷ "a" ∷ []) ("b" ∷ "a" ∷ []) ≡ "a" ∷ "b" ∷ []
unfolding union_webhook_names ◌is◌
union = refl
