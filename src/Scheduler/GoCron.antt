-- ===== src/Scheduler/GoCron.antt =====
-- The package github.com/netresearch/go-cron, as the scheduler uses it. Its code is not in the
-- repository.
use ofelia.Common.{
  ℕ, String, Bool, false, ◌≡◌, ◌≢◌, Option, none, some, List, ◌is◌, if◌then◌else◌, ℤ,
}
use ofelia.Job.{GoError}
use ofelia.Workflow.{DependencyEdge, AddError}

-- What `AddJob` of go-cron returns: an error or the ID of the new entry.
pub data EntryAdded : Type 0 where
  refused : GoError → EntryAdded
  entered : ℕ → EntryAdded

-- `cron.JobResult`
pub data JobResult : Type 0 where
  result_pending result_success result_failure result_skipped : JobResult

-- The methods of `*cron.Cron`, on its state `C`. A job is a number, the pointer in its wrapper.
-- `WaitForJobByName` changes nothing that the scheduler sees and is left out.
pub record Cron (C : Type 0) : Type 0 where
  pub add_job : String → ℕ → String → List String → Bool → C → C × EntryAdded
  pub remove_by_name : String → C → C
  pub entries_by_tag : String → C → List ℕ
  pub remove_by_tag : String → C → C × ℕ
  pub update_entry_job_by_name : String → String → ℕ → C → C × Option GoError
  pub pause_entry_by_name : String → C → C × Option GoError
  pub resume_entry_by_name : String → C → C × Option GoError
  pub trigger_entry_by_name : String → C → C × Option GoError
  pub add_dependency_by_name : DependencyEdge → C → C × Option AddError
  pub start : C → C
  pub stop_with_timeout : ℤ → C → C × Bool
  pub stop_and_wait : C → C

-- What go-cron documents, where `entry n c` is the ID of the entry named `n`: a name is entered once,
-- an ID is never given twice, and only adding and removing change which entries there are.
pub record Documented (C : Type 0) (cron : Cron C) (entry : String → C → Option ℕ) : Type 0 where
  pub free :
      (schedule : String) (j : ℕ) (n : String) (tags : List String) (now : Bool) (c c' : C) (id : ℕ)
      → (n is "") ≡ false
      → cron.add_job schedule j n tags now c ≡ (c', entered id)
      → entry n c ≡ none
  pub fresh :
      (schedule : String) (j : ℕ) (n : String) (tags : List String) (now : Bool) (c c' : C) (id : ℕ)
      → (n is "") ≡ false
      → cron.add_job schedule j n tags now c ≡ (c', entered id)
      → (m : String) → entry m c ≢ some id
  pub added :
      (schedule : String) (j : ℕ) (n : String) (tags : List String) (now : Bool) (c c' : C) (id : ℕ)
      → (n is "") ≡ false
      → cron.add_job schedule j n tags now c ≡ (c', entered id)
      → (m : String) → entry m c' ≡ (if m is n then some id else entry m c)
  pub unadded :
      (schedule : String) (j : ℕ) (n : String) (tags : List String) (now : Bool) (c c' : C)
      (e : GoError)
      → cron.add_job schedule j n tags now c ≡ (c', refused e)
      → (m : String) → entry m c' ≡ entry m c
  pub removed :
      (n m : String) (c : C)
      → entry m (cron.remove_by_name n c) ≡ (if m is n then none else entry m c)
  pub updated :
      (n schedule m : String) (j : ℕ) (c : C)
      → entry m (cron.update_entry_job_by_name n schedule j c).0 ≡ entry m c
  pub paused : (n m : String) (c : C) → entry m (cron.pause_entry_by_name n c).0 ≡ entry m c
  pub resumed : (n m : String) (c : C) → entry m (cron.resume_entry_by_name n c).0 ≡ entry m c
  pub triggered : (n m : String) (c : C) → entry m (cron.trigger_entry_by_name n c).0 ≡ entry m c
  pub wired :
      (e : DependencyEdge) (m : String) (c : C)
      → entry m (cron.add_dependency_by_name e c).0 ≡ entry m c
  pub started : (m : String) (c : C) → entry m (cron.start c) ≡ entry m c
  pub stopped :
      (timeout : ℤ) (m : String) (c : C) → entry m (cron.stop_with_timeout timeout c).0 ≡ entry m c
  pub awaited : (m : String) (c : C) → entry m (cron.stop_and_wait c) ≡ entry m c
