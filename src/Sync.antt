-- ===== src/Sync.antt =====
-- cli/config.go, `syncJobMap`, `replaceIfChanged`, `addNewJob` and `mergeJobs`: bringing the jobs of one
-- type in line with a newly read configuration, from the files or from the labels of containers;
-- and `unionWebhookNames`.
--
-- The scheduler's two methods are called for their effect, and their errors are dropped, so the
-- model keeps the calls, each with the name of the job. Log lines are left out, and changes that
-- the code makes to a new job which it then drops.
pub mod Calls
pub mod PerName
pub mod Precedence
pub mod Registered
pub mod Again
pub mod Names
mod Examples
use ofelia.Common.{
  String, Bool, true, false, not, ◌&&◌, ◌||◌, ◌≡◌, Option, none, some, List, [], ◌∷◌, ◌++◌,
  if◌then◌else◌, ◌is◌, lookup, assign, without,
}

-- `unset` is the empty text.
pub data JobSource : Type 0 where
  unset : JobSource
  ini : JobSource
  label : JobSource

abbrev pub same_source : JobSource → JobSource → Bool
same_source unset unset = true
same_source ini ini = true
same_source label label = true
same_source _ _ = false

-- The interface `jobConfig`, with `validate` telling whether `Validate` returns nil, which it does
-- for the types that have none, and the hash `none` where `Hash` returns an error.
pub record JobConfig (J : Type 0) : Type 0 where
  pub get_job_source : J → JobSource
  pub set_job_source : JobSource → J → J
  pub validate : J → Bool
  pub hash : J → Option String
  pub build_middlewares : J → J

pub data Call (J : Type 0) : Type 0 where
  remove_job : J → Call J
  add_job : J → Call J

-- The map of jobs, and the calls of the scheduler so far.
pub record Synced (J : Type 0) : Type 0 where
  pub current : List (String × J)
  pub calls : List (String × Call J)

-- What the sync needs besides the jobs: their methods, `prep`, and where the new ones come from.
pub record Sync (J : Type 0) : Type 0 where
  pub methods : JobConfig J
  pub prep : String → J → J
  pub source : JobSource

-- The end of `replaceIfChanged`, on the two hashes: whether it replaces the job.
abbrev pub compare_hashes : Option String → Option String → Bool
compare_hashes none old = false
compare_hashes (some new) none = false
compare_hashes (some new) (some old) = not (new is old)

module _ {J : Type 0} where
  abbrev pub source_of : Sync J → J → JobSource
  source_of y j = y.methods.get_job_source j

  -- The new job as `replaceIfChanged` prepares it.
  unfoldable pub prepared : Sync J → String → J → J
  prepared y name new = y.methods.set_job_source y.source (y.prep name new)

  unfoldable pub replace_if_changed : Sync J → String → J → J → Bool
  unfolding prepared
  replace_if_changed y name old new =
      let j = prepared y name new in
      if y.methods.validate j then compare_hashes (y.methods.hash j) (y.methods.hash old) else false

  -- The state after `replaceIfChanged` and the assignment that follows it.
  abbrev pub replaced : Sync J → String → J → J → Synced J → Synced J
  replaced y name old new s =
      let j = y.methods.build_middlewares (prepared y name new) in
      record {
        current = assign name j s.current;
        calls = s.calls ++ (name, remove_job old) ∷ (name, add_job j) ∷ [];
      }

  -- Whether the first loop skips the job: it comes from elsewhere.
  abbrev pub is_foreign : Sync J → J → Bool
  is_foreign y j =
      not (same_source y.source unset)
      && not (same_source (source_of y j) y.source)
      && not (same_source (source_of y j) unset)

  -- The body of the first loop, behind its first test.
  abbrev pub update_current : Sync J → String → J → Option J → Synced J → Synced J
  update_current y name j none s = record {
    current = without name s.current;
    calls = s.calls ++ (name, remove_job j) ∷ [];
  }
  update_current y name j (some new) s =
      if replace_if_changed y name j new then replaced y name j new s else s

  unfoldable pub update_jobs : Sync J → List (String × J) → List (String × J) → Synced J → Synced J
  unfolding replace_if_changed
  update_jobs y parsed [] s = s
  update_jobs y parsed ((name, j) ∷ jobs) s =
      update_jobs y parsed jobs
        (if is_foreign y j then s else update_current y name j (lookup name parsed) s)

  abbrev pub marked : Sync J → J → J
  marked y j = if same_source y.source unset then j else y.methods.set_job_source y.source j

  -- The new job as `addNewJob` prepares it.
  unfoldable pub prepared_new : Sync J → String → J → J
  prepared_new y name j = y.prep name (marked y j)

  unfoldable pub add_new_job : Sync J → String → J → Synced J → Synced J
  unfolding prepared_new
  add_new_job y name new s =
      let j = prepared_new y name new in
      let built = y.methods.build_middlewares j in
      if y.methods.validate j
      then record {
        current = assign name built s.current;
        calls = s.calls ++ (name, add_job built) ∷ [];
      }
      else s

  -- Whether the job in the map gives way to a new one: labels give way to files.
  abbrev pub gives_way : Sync J → J → Bool
  gives_way y cur =
      not (same_source (source_of y cur) y.source)
      && same_source y.source ini
      && same_source (source_of y cur) label

  -- The body of the second loop, on the job that the map has.
  abbrev pub add_job_over : Sync J → String → J → Option J → Synced J → Synced J
  add_job_over y name new none s = add_new_job y name new s
  add_job_over y name new (some cur) s =
      if gives_way y cur
      then add_new_job y name new (record s { calls = s.calls ++ (name, remove_job cur) ∷ [] })
      else s

  unfoldable pub add_jobs : Sync J → List (String × J) → Synced J → Synced J
  unfolding add_new_job
  add_jobs y [] s = s
  add_jobs y ((name, j) ∷ jobs) s =
      add_jobs y jobs (add_job_over y name j (lookup name s.current) s)

  -- The two loops. The first one ranges over the map as it is at the start: it deletes and assigns
  -- the entry that it is at, and no other.
  unfoldable pub sync_job_map : Sync J → List (String × J) → Synced J → Synced J
  unfolding update_jobs add_jobs
  sync_job_map y parsed s = add_jobs y parsed (update_jobs y parsed s.current s)

  -- Whether the entry of the map keeps its place before a job from a label.
  abbrev pub keeps_ini : JobConfig J → Option J → Bool
  keeps_ini m none = false
  keeps_ini m (some existing) = same_source (m.get_job_source existing) ini

  unfoldable pub merge_jobs :
      JobConfig J → List (String × J) → List (String × J) → List (String × J)
  merge_jobs m dst [] = dst
  merge_jobs m dst ((name, j) ∷ src) =
      merge_jobs m (if keeps_ini m (lookup name dst) then dst else assign name j dst) src

-- Whether the text is among the names.
unfoldable pub has_name : String → List String → Bool
has_name n [] = false
has_name n (m ∷ names) = if m is n then true else has_name n names

-- The two loops of `unionWebhookNames` over `out`; `seen` has the same names.
unfoldable pub add_unseen : List String → List String → List String
unfolding has_name
add_unseen [] out = out
add_unseen (n ∷ names) out = add_unseen names (if has_name n out then out else out ++ n ∷ [])

unfoldable pub union_webhook_names : List String → List String → List String
unfolding add_unseen
union_webhook_names [] per_job = per_job
union_webhook_names global [] = global
union_webhook_names (g ∷ global) (p ∷ per_job) =
    add_unseen (p ∷ per_job) (add_unseen (g ∷ global) [])
