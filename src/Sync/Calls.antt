-- ===== src/Sync/Calls.antt =====
-- What a sync does to one name: the job that the map has for it, and the calls made for it.
use mathlib.Core.List.{append-nil}
use ofelia.Common.{
  String, false, ◌≡◌, refl, Option, none, some, List, [], ◌∷◌, ◌++◌, if◌then◌else◌, ◌is◌, is_refl,
  lookup, lookup-assign, lookup-without, arith,
}
use ofelia.Sync.{
  Call, remove_job, add_job, Synced, Sync, prepared, prepared_new, replace_if_changed,
  update_current, add_new_job, gives_way, add_job_over,
}

module _ {J : Type 0} where
  unfoldable pub calls_of : String → List (String × Call J) → List (Call J)
  calls_of n [] = []
  calls_of n ((m, c) ∷ cs) = let rest = calls_of n cs in if m is n then c ∷ rest else rest

  pub calls_of-append :
      (n : String) (cs ds : List (String × Call J))
      → calls_of n (cs ++ ds) ≡ calls_of n cs ++ calls_of n ds
  unfolding calls_of
  calls_of-append n [] ds = refl
  calls_of-append n ((m, c) ∷ cs) ds = ground (arith, calls_of-append n cs ds)

-- The entry of one name and the calls for it.
pub record View (J : Type 0) : Type 0 where
  pub entry : Option J
  pub made : List (Call J)

module _ {J : Type 0} where
  abbrev pub view : String → Synced J → View J
  view n s = record { entry = lookup n s.current; made = calls_of n s.calls }

  -- What the body of the first loop does to the name that it is at.
  abbrev pub update_view : Sync J → String → J → Option J → View J → View J
  update_view y n j none v = record { entry = none; made = v.made ++ remove_job j ∷ [] }
  update_view y n j (some new) v =
      let built = y.methods.build_middlewares (prepared y n new) in
      if replace_if_changed y n j new
      then record { entry = some built; made = v.made ++ remove_job j ∷ add_job built ∷ [] }
      else v

  pub view-update_current :
      (y : Sync J) (n : String) (j : J) (p : Option J) (s : Synced J)
      → view n (update_current y n j p s) ≡ update_view y n j p (view n s)
  unfolding calls_of
  view-update_current y n j none s = ground (
    arith,
    lookup-without n n s.current,
    is_refl n,
    calls_of-append n s.calls ((n, remove_job j) ∷ []),
  )
  view-update_current y n j (some new) s =
      let built = y.methods.build_middlewares (prepared y n new) in
      ground (
        arith,
        lookup-assign n n built s.current,
        is_refl n,
        calls_of-append n s.calls ((n, remove_job j) ∷ (n, add_job built) ∷ []),
      )

  pub view-update_current_other :
      (y : Sync J) (m n : String) (j : J) (p : Option J) (s : Synced J)
      → (m is n) ≡ false
      → view n (update_current y m j p s) ≡ view n s
  unfolding calls_of
  view-update_current_other y m n j none s h = ground (
    arith,
    lookup-without m n s.current,
    append-nil (calls_of n s.calls),
    calls_of-append n s.calls ((m, remove_job j) ∷ []),
  )
  view-update_current_other y m n j (some new) s h =
      let built = y.methods.build_middlewares (prepared y m new) in
      ground (
        arith,
        lookup-assign m n built s.current,
        append-nil (calls_of n s.calls),
        calls_of-append n s.calls ((m, remove_job j) ∷ (m, add_job built) ∷ []),
      )

  -- What `addNewJob` does to the name of the job.
  abbrev pub add_view : Sync J → String → J → View J → View J
  add_view y n new v =
      let built = y.methods.build_middlewares (prepared_new y n new) in
      if y.methods.validate (prepared_new y n new)
      then record { entry = some built; made = v.made ++ add_job built ∷ [] }
      else v

  pub view-add_new_job :
      (y : Sync J) (n : String) (new : J) (s : Synced J)
      → view n (add_new_job y n new s) ≡ add_view y n new (view n s)
  unfolding calls_of add_new_job
  view-add_new_job y n new s =
      let built = y.methods.build_middlewares (prepared_new y n new) in
      ground (
        arith,
        lookup-assign n n built s.current,
        is_refl n,
        calls_of-append n s.calls ((n, add_job built) ∷ []),
      )

  pub view-add_new_job_other :
      (y : Sync J) (m n : String) (new : J) (s : Synced J)
      → (m is n) ≡ false
      → view n (add_new_job y m new s) ≡ view n s
  unfolding calls_of add_new_job
  view-add_new_job_other y m n new s h =
      let built = y.methods.build_middlewares (prepared_new y m new) in
      ground (
        arith,
        lookup-assign m n built s.current,
        append-nil (calls_of n s.calls),
        calls_of-append n s.calls ((m, add_job built) ∷ []),
      )

  -- What the body of the second loop does to the name that it is at, on the entry of the name.
  abbrev pub add_over_view : Sync J → String → J → Option J → View J → View J
  add_over_view y n new none v = add_view y n new v
  add_over_view y n new (some cur) v =
      if gives_way y cur
      then add_view y n new (record v { made = v.made ++ remove_job cur ∷ [] })
      else v

  pub view-add_job_over :
      (y : Sync J) (n : String) (new : J) (cur : Option J) (s : Synced J)
      → view n (add_job_over y n new cur s) ≡ add_over_view y n new cur (view n s)
  unfolding calls_of
  view-add_job_over y n new none s = view-add_new_job y n new s
  view-add_job_over y n new (some cur) s =
      let s' : Synced J = record s { calls = s.calls ++ (n, remove_job cur) ∷ [] } in
      ground (
        arith,
        view-add_new_job y n new s',
        is_refl n,
        calls_of-append n s.calls ((n, remove_job cur) ∷ []),
      )

  pub view-add_job_over_other :
      (y : Sync J) (m n : String) (new : J) (cur : Option J) (s : Synced J)
      → (m is n) ≡ false
      → view n (add_job_over y m new cur s) ≡ view n s
  unfolding calls_of
  view-add_job_over_other y m n new none s h = view-add_new_job_other y m n new s h
  view-add_job_over_other y m n new (some cur) s h =
      let s' : Synced J = record s { calls = s.calls ++ (m, remove_job cur) ∷ [] } in
      ground (
        arith,
        view-add_new_job_other y m n new s' h,
        append-nil (calls_of n s.calls),
        calls_of-append n s.calls ((m, remove_job cur) ∷ []),
      )
