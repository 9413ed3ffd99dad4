-- ===== src/Dedup/Examples.antt =====
-- The theorems on notifications at concrete values. The text itself stands for its digest.
use ofelia.Common.{ℕ, String, ◌≡◌, refl, true, false, Option, none, some, List, [], ◌∷◌, arith}
use ofelia.Dedup.{NotificationDedup, DedupContext, should_notify, cleans, calls}
use ofelia.Dedup.Cooldown.{all_between, notified_once}

abbrev digest : String → String
digest s = s

abbrev dedup : NotificationDedup
dedup = record { cooldown = 100; entries = λ k. none }

-- Two jobs whose names and commands, put together, are the same text.
abbrev dump : DedupContext
dump = record { job_name = "dump"; job_command = "all"; failed = true; error = some "exit 1" }

abbrev dumpa : DedupContext
dumpa = record { job_name = "dumpa"; job_command = "ll"; failed = true; error = some "exit 1" }

notified_once_example :
    (should_notify digest dumpa 60
      (calls digest (cleans 50 ∷ []) (should_notify digest dump 10 dedup).0)).1
    ≡ false
unfolding should_notify all_between ofelia.Common.concat
notified_once_example =
    notified_once digest 10 60 dump dumpa (cleans 50 ∷ []) dedup refl refl refl refl refl
      (omega arith) refl refl
