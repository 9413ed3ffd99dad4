-- ===== src/Sync/PerName.antt =====
-- A sync, name by name: what becomes of a job depends on the entry of its name in the map and on the
-- new job of that name, in whatever order the loops come to the names.
use mathlib.Core.List.{append-nil, append_assoc}
use ofelia.Common.{
  String, true, false, not, ◌&&◌, ◌≡◌, refl, ap, ◌∙◌, Option, none, some, List, [], ◌∷◌, ◌++◌,
  if◌then◌else◌, ◌is◌, is_iff, inl, inr, Bool-cases, lookup, has_key, has_distinct, lookup-absent,
  arith,
}
use ofelia.Sync.{
  JobSource, unset, ini, label, same_source, Call, remove_job, add_job, Synced, Sync, source_of,
  prepared, prepared_new, is_foreign, update_current, update_jobs, gives_way, add_job_over,
  add_jobs, sync_job_map,
}
use ofelia.Sync.Calls.{
  calls_of, View, view, update_view, add_view, add_over_view, view-update_current,
  view-update_current_other, view-add_job_over, view-add_job_over_other,
}

-- What the methods of the job types do to the source.
pub record IsLawful {J : Type 0} (y : Sync J) : Type 0 where
  pub source_set :
      (s : JobSource) (j : J) → y.methods.get_job_source (y.methods.set_job_source s j) ≡ s
  pub source_built :
      (j : J)
      → y.methods.get_job_source (y.methods.build_middlewares j) ≡ y.methods.get_job_source j
  pub source_prepared :
      (n : String) (j : J) → y.methods.get_job_source (y.prep n j) ≡ y.methods.get_job_source j

module _ {J : Type 0} where
  abbrev update_entry : Sync J → String → Option J → Option J → View J → View J
  update_entry y n none p v = v
  update_entry y n (some j) p v = if is_foreign y j then v else update_view y n j p v

  view-update_jobs :
      (y : Sync J) (n : String) (parsed jobs : List (String × J)) (s : Synced J)
      → has_distinct jobs ≡ true
      → view n (update_jobs y parsed jobs s)
        ≡ update_entry y n (lookup n jobs) (lookup n parsed) (view n s)
  unfolding update_jobs lookup has_distinct
  view-update_jobs y n parsed [] s d = refl
  view-update_jobs y n parsed ((m, j) ∷ jobs) s d =
      let s' = if is_foreign y j then s else update_current y m j (lookup m parsed) s in
      let later = view-update_jobs y n parsed jobs s' (ground arith) in
      elim (Bool-cases (m is n)) [
        | inl same ↦
            let e = (is_iff m n).0 same in
            ground (
              arith,
              later,
              lookup-absent n jobs,
              ap (λ k. has_key k jobs) e,
              ap (λ k. update_current y k j (lookup k parsed) s) e,
              view-update_current y n j (lookup n parsed) s,
            )
        | inr other ↦
            ground (arith, later, view-update_current_other y m n j (lookup m parsed) s other)
      ]

  abbrev add_entry : Sync J → String → Option J → View J → View J
  add_entry y n none v = v
  add_entry y n (some new) v = add_over_view y n new v.entry v

  view-add_jobs :
      (y : Sync J) (n : String) (parsed : List (String × J)) (s : Synced J)
      → has_distinct parsed ≡ true
      → view n (add_jobs y parsed s) ≡ add_entry y n (lookup n parsed) (view n s)
  unfolding add_jobs lookup has_distinct
  view-add_jobs y n [] s d = refl
  view-add_jobs y n ((m, j) ∷ parsed) s d =
      let later =
        view-add_jobs y n parsed (add_job_over y m j (lookup m s.current) s) (ground arith) in
      elim (Bool-cases (m is n)) [
        | inl same ↦
            let e = (is_iff m n).0 same in
            ground (
              arith,
              later,
              lookup-absent n parsed,
              ap (λ k. has_key k parsed) e,
              ap (λ k. add_job_over y k j (lookup k s.current) s) e,
              view-add_job_over y n j (lookup n s.current) s,
            )
        | inr other ↦
            ground (arith, later, view-add_job_over_other y m n j (lookup m s.current) s other)
      ]

  -- What a sync is to do to a name: `cur` is its entry in the map, `p` its new job.
  abbrev pub reconciled : Sync J → String → Option J → Option J → View J
  reconciled y n none none = record { entry = none; made = [] }
  reconciled y n none (some new) = add_view y n new (record { entry = none; made = [] })
  reconciled y n (some cur) none =
      if is_foreign y cur
      then record { entry = some cur; made = [] }
      else record { entry = none; made = remove_job cur ∷ [] }
  reconciled y n (some cur) (some new) =
      if is_foreign y cur
      then (if gives_way y cur
          then add_view y n new (record { entry = some cur; made = remove_job cur ∷ [] })
          else record { entry = some cur; made = [] })
      else update_view y n cur (some new) (record { entry = some cur; made = [] })

  -- The view with the calls before it.
  abbrev pub after : List (Call J) → View J → View J
  after cs v = record v { made = cs ++ v.made }

-- On the sources: who gives way to a file comes from elsewhere.
gives_way_elsewhere :
    (s t : JobSource)
    → (not (same_source t s) && same_source s ini && same_source t label) ≡ true
    → (not (same_source s unset) && not (same_source t s) && not (same_source t unset)) ≡ true
gives_way_elsewhere unset t h = ground arith
gives_way_elsewhere label t h = ground arith
gives_way_elsewhere ini unset h = ground arith
gives_way_elsewhere ini ini h = ground arith
gives_way_elsewhere ini label h = refl

pub same_source_refl : (s : JobSource) → same_source s s ≡ true
same_source_refl unset = refl
same_source_refl ini = refl
same_source_refl label = refl

module _ {J : Type 0} where
  own_stays : (y : Sync J) (j : J) → is_foreign y j ≡ false → gives_way y j ≡ false
  own_stays y j h = ground (arith, gives_way_elsewhere y.source (source_of y j))

  built_stays :
      (y : Sync J)
      → IsLawful y
      → (n : String) (new : J)
      → gives_way y (y.methods.build_middlewares (prepared y n new)) ≡ false
  unfolding prepared
  built_stays y laws n new =
      let j = y.prep n new in
      ground (
        arith,
        laws.source_built (y.methods.set_job_source y.source j),
        laws.source_set y.source j,
        same_source_refl y.source,
        ap (λ t. same_source t y.source),
      )

  settled :
      (y : Sync J)
      → IsLawful y
      → (n : String) (cur p : Option J) (cs : List (Call J))
      → add_entry y n p (update_entry y n cur p (record { entry = cur; made = cs }))
        ≡ after cs (reconciled y n cur p)
  settled y laws n none none cs = ground (arith, append-nil cs)
  settled y laws n none (some new) cs = ground (arith, append-nil cs)
  settled y laws n (some cur) none cs = ground (arith, append-nil cs)
  settled y laws n (some cur) (some new) cs =
      let built = y.methods.build_middlewares (prepared_new y n new) in
      ground (
        arith,
        append-nil cs,
        append_assoc cs (remove_job cur ∷ []) (add_job built ∷ []),
        built_stays y laws n new,
        own_stays y cur,
      )

  -- What a sync does is the same for each name, whatever the other names and the order of the maps:
  -- the entry of the name afterwards, and the calls of the scheduler made for it, behind those made
  -- before, are those of `reconciled`, from its entry before and its new job. Each name stands once
  -- in each of the two maps.
  pub sync_job_map-reconciled :
      (y : Sync J)
      → IsLawful y
      → (parsed : List (String × J)) (s : Synced J) (n : String) → has_distinct s.current ≡ true
      → has_distinct parsed ≡ true
      → view n (sync_job_map y parsed s)
        ≡ after (calls_of n s.calls) (reconciled y n (lookup n s.current) (lookup n parsed))
  unfolding sync_job_map
  sync_job_map-reconciled y laws parsed s n distinct distinct_new =
      view-add_jobs y n parsed (update_jobs y parsed s.current s) distinct_new
      ∙ ap (add_entry y n (lookup n parsed)) (view-update_jobs y n parsed s.current s distinct)
      ∙ settled y laws n (lookup n s.current) (lookup n parsed) (calls_of n s.calls)
