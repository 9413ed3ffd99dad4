-- ===== src/Sync/Precedence.antt =====
-- Whose jobs a sync changes, and that it keeps a map a map.
use ofelia.Common.{
  String, true, ◌≡◌, refl, ap, Option, none, some, List, [], ◌∷◌, ◌++◌, lookup, assign,
  lookup-assign, lookup-absent, has_key, is_iff, if◌then◌else◌, has_distinct, has_distinct-assign,
  has_distinct-without, arith,
}
use mathlib.Core.List.{append-nil}
use ofelia.Sync.{
  ini, label, JobConfig, keeps_ini, merge_jobs, remove_job, Synced, Sync, source_of, prepared,
  prepared_new, update_current, update_jobs, add_new_job, add_job_over, add_jobs, sync_job_map,
}
use ofelia.Sync.Calls.{calls_of}
use ofelia.Sync.PerName.{IsLawful, sync_job_map-reconciled}

module _ {J : Type 0} where
  update_current-distinct :
      (y : Sync J) (n : String) (j : J) (p : Option J) (s : Synced J)
      → has_distinct s.current ≡ true
      → has_distinct (update_current y n j p s).current ≡ true
  update_current-distinct y n j none s h = has_distinct-without n s.current h
  update_current-distinct y n j (some new) s h =
      ground
        (arith, has_distinct-assign n (y.methods.build_middlewares (prepared y n new)) s.current h)

  update_jobs-distinct :
      (y : Sync J) (parsed jobs : List (String × J)) (s : Synced J)
      → has_distinct s.current ≡ true
      → has_distinct (update_jobs y parsed jobs s).current ≡ true
  unfolding update_jobs
  update_jobs-distinct y parsed [] s h = h
  update_jobs-distinct y parsed ((m, j) ∷ jobs) s h =
      update_jobs-distinct y parsed jobs _
        (ground (arith, update_current-distinct y m j (lookup m parsed) s h))

  add_new_job-distinct :
      (y : Sync J) (n : String) (new : J) (s : Synced J)
      → has_distinct s.current ≡ true
      → has_distinct (add_new_job y n new s).current ≡ true
  unfolding add_new_job
  add_new_job-distinct y n new s h = ground (
    arith,
    has_distinct-assign n (y.methods.build_middlewares (prepared_new y n new)) s.current h,
  )

  add_job_over-distinct :
      (y : Sync J) (n : String) (new : J) (cur : Option J) (s : Synced J)
      → has_distinct s.current ≡ true
      → has_distinct (add_job_over y n new cur s).current ≡ true
  add_job_over-distinct y n new none s h = add_new_job-distinct y n new s h
  add_job_over-distinct y n new (some cur) s h =
      let s' : Synced J = record s { calls = s.calls ++ (n, remove_job cur) ∷ [] } in
      ground (arith, add_new_job-distinct y n new s' h)

  add_jobs-distinct :
      (y : Sync J) (parsed : List (String × J)) (s : Synced J)
      → has_distinct s.current ≡ true
      → has_distinct (add_jobs y parsed s).current ≡ true
  unfolding add_jobs
  add_jobs-distinct y [] s h = h
  add_jobs-distinct y ((m, j) ∷ parsed) s h =
      add_jobs-distinct y parsed _ (add_job_over-distinct y m j (lookup m s.current) s h)

  pub sync_job_map-distinct :
      (y : Sync J) (parsed : List (String × J)) (s : Synced J)
      → has_distinct s.current ≡ true
      → has_distinct (sync_job_map y parsed s).current ≡ true
  unfolding sync_job_map
  sync_job_map-distinct y parsed s h =
      add_jobs-distinct y parsed _ (update_jobs-distinct y parsed s.current s h)

  -- A sync with the labels of containers leaves a job that comes from a file as it is, and calls
  -- the scheduler for no job of its name, whatever the labels say.
  pub labels_keep_ini :
      (y : Sync J)
      → IsLawful y
      → (parsed : List (String × J)) (s : Synced J) (n : String) (cur : J)
      → has_distinct s.current ≡ true
      → has_distinct parsed ≡ true
      → y.source ≡ label
      → lookup n s.current ≡ some cur
      → source_of y cur ≡ ini
      → (lookup n (sync_job_map y parsed s).current ≡ some cur)
        × (calls_of n (sync_job_map y parsed s).calls ≡ calls_of n s.calls)
  labels_keep_ini y laws parsed s n cur distinct distinct_new from_labels here from_file = ground (
    arith,
    sync_job_map-reconciled y laws parsed s n distinct distinct_new,
    append-nil (calls_of n s.calls),
    from_labels,
    here,
    from_file,
  )

  -- The entry of a name after the labels are merged into the jobs of the files.
  abbrev pub merged_entry : JobConfig J → Option J → Option J → Option J
  merged_entry m cur none = cur
  merged_entry m cur (some j) = if keeps_ini m cur then cur else some j

  -- Starting up, jobs from labels are merged into those from the files: a job of a file keeps its
  -- name, any other name has the job of its label, if there is one, and its old job otherwise.
  pub merge_jobs-lookup :
      (m : JobConfig J) (src dst : List (String × J)) (n : String)
      → has_distinct src ≡ true
      → lookup n (merge_jobs m dst src) ≡ merged_entry m (lookup n dst) (lookup n src)
  unfolding merge_jobs lookup has_distinct
  merge_jobs-lookup m [] dst n d = refl
  merge_jobs-lookup m ((k, j) ∷ src) dst n d =
      let dst' = if keeps_ini m (lookup k dst) then dst else assign k j dst in
      ground (
        arith,
        merge_jobs-lookup m src dst' n,
        lookup-assign k n j dst,
        is_iff k n,
        lookup-absent n src,
        ap (λ x. has_key x src),
        ap (λ x. lookup x dst),
      )
