-- ===== src/Sync/Again.antt =====
-- What a second sync with the same configuration does, and the job that an invalid one leaves behind.
use mathlib.Core.List.{append-nil}
use ofelia.Common.{
  String, true, false, ◌≡◌, refl, ap, ◌∙◌, Option, none, some, List, [], ◌∷◌, ◌++◌, is_refl, lookup,
  has_distinct, arith, inl, inr, Bool-cases,
}
use ofelia.Sync.{
  unset, ini, label, same_source, remove_job, Synced, Sync, source_of, compare_hashes, prepared,
  prepared_new, replace_if_changed, is_foreign, sync_job_map,
}
use ofelia.Sync.Calls.{calls_of, View, view}
use ofelia.Sync.PerName.{IsLawful, same_source_refl, reconciled, after, sync_job_map-reconciled}
use ofelia.Sync.Precedence.{sync_job_map-distinct}
use ofelia.Sync.Registered.{IsAcceptable}

compare_hashes_refl : (h : Option String) → compare_hashes h h ≡ false
compare_hashes_refl none = refl
compare_hashes_refl (some t) = ground (arith, is_refl t)

module _ {J : Type 0} where
  -- The hash of a job tells neither its source nor its middlewares.
  pub record IsPlainHash (y : Sync J) : Type 0 where
    pub hash_built : (j : J) → y.methods.hash (y.methods.build_middlewares j) ≡ y.methods.hash j
    pub hash_prepared :
        (n : String) (j : J) → y.methods.hash (prepared_new y n j) ≡ y.methods.hash (prepared y n j)

  replaced_once :
      (y : Sync J)
      → IsPlainHash y
      → (n : String) (new : J)
      → replace_if_changed y n (y.methods.build_middlewares (prepared y n new)) new ≡ false
  unfolding replace_if_changed
  replaced_once y plain n new = ground (
    arith,
    plain.hash_built (prepared y n new),
    compare_hashes_refl (y.methods.hash (prepared y n new)),
    ap (compare_hashes (y.methods.hash (prepared y n new))) (plain.hash_built (prepared y n new)),
  )

  added_once :
      (y : Sync J)
      → IsPlainHash y
      → (n : String) (new : J)
      → replace_if_changed y n (y.methods.build_middlewares (prepared_new y n new)) new ≡ false
  unfolding replace_if_changed
  added_once y plain n new = ground (
    arith,
    compare_hashes_refl (y.methods.hash (prepared y n new)),
    ap (compare_hashes (y.methods.hash (prepared y n new)))
        (plain.hash_built (prepared_new y n new) ∙ plain.hash_prepared n new),
  )

  own_source : (y : Sync J) (j : J) → source_of y j ≡ y.source → is_foreign y j ≡ false
  own_source y j h = ground (arith, ap (λ t. same_source t y.source) h, same_source_refl y.source)

  prepared-own :
      (y : Sync J)
      → IsLawful y
      → (n : String) (new : J)
      → is_foreign y (y.methods.build_middlewares (prepared y n new)) ≡ false
  unfolding prepared
  prepared-own y laws n new =
      own_source y _ (laws.source_built _ ∙ laws.source_set y.source (y.prep n new))

  prepared_new-own :
      (y : Sync J)
      → IsLawful y
      → (n : String) (new : J)
      → is_foreign y (y.methods.build_middlewares (prepared_new y n new)) ≡ false
  unfolding prepared_new
  prepared_new-own y laws n new = elim (Bool-cases (same_source y.source unset)) [
    | inl free ↦ ground arith
    | inr set ↦
        let j = y.methods.set_job_source y.source new in
        let e =
          laws.source_built (y.prep n j)
          ∙ laws.source_prepared n j
          ∙ laws.source_set y.source new in
        ground (arith, own_source y (y.methods.build_middlewares (y.prep n j)) e)
  ]

  reconciled-again :
      (y : Sync J)
      → IsLawful y
      → IsPlainHash y
      → (n : String) (cur p : Option J) → IsAcceptable y n p
      → reconciled y n (reconciled y n cur p).entry p
        ≡ record { entry = (reconciled y n cur p).entry; made = [] }
  reconciled-again y laws plain n none none ok = refl
  reconciled-again y laws plain n none (some new) ok =
      ground (arith, ok new refl, prepared_new-own y laws n new, added_once y plain n new)
  reconciled-again y laws plain n (some cur) none ok = ground arith
  reconciled-again y laws plain n (some cur) (some new) ok = ground (
    arith,
    ok new refl,
    prepared_new-own y laws n new,
    added_once y plain n new,
    prepared-own y laws n new,
    replaced_once y plain n new,
  )

  -- Where the new job of a name, if any, is valid, and hashes tell neither the source nor the
  -- middlewares of a job: a second sync with the same configuration leaves the entry of the name
  -- as it is and calls the scheduler for no job of that name.
  pub sync_job_map-again :
      (y : Sync J)
      → IsLawful y
      → IsPlainHash y
      → (parsed : List (String × J)) (s : Synced J) (n : String) → has_distinct s.current ≡ true
      → has_distinct parsed ≡ true
      → IsAcceptable y n (lookup n parsed)
      → view n (sync_job_map y parsed (sync_job_map y parsed s)) ≡ view n (sync_job_map y parsed s)
  sync_job_map-again y laws plain parsed s n distinct distinct_new ok =
      let s' = sync_job_map y parsed s in
      let e = sync_job_map-reconciled y laws parsed s n distinct distinct_new in
      let e' =
        sync_job_map-reconciled y laws parsed s' n (sync_job_map-distinct y parsed s distinct)
          distinct_new in
      let same = reconciled-again y laws plain n (lookup n s.current) (lookup n parsed) ok in
      e'
      ∙ ap (λ (v : View J). after v.made (reconciled y n v.entry (lookup n parsed))) e
      ∙ ap
          (after
            (calls_of n s.calls ++ (reconciled y n (lookup n s.current) (lookup n parsed)).made))
          same
      ∙ ground (
        arith,
        e,
        append-nil
            (calls_of n s.calls ++ (reconciled y n (lookup n s.current) (lookup n parsed)).made),
      )

  -- A job from a label, whose name a file now gives to a job that is not valid: the sync with the
  -- files removes the old job from the scheduler, adds none, and leaves the old one in the map. A
  -- sync with the labels after it, which still have a job with the hash of the old one, calls the
  -- scheduler for no job of that name.
  pub invalid_override :
      (y labels : Sync J)
      → IsLawful y
      → IsLawful labels
      → (parsed again : List (String × J)) (s : Synced J) (n : String) (cur new same : J)
      → has_distinct s.current ≡ true
      → has_distinct parsed ≡ true
      → has_distinct again ≡ true
      → y.source ≡ ini
      → labels.source ≡ label
      → y.methods.get_job_source cur ≡ label
      → labels.methods.get_job_source cur ≡ label
      → lookup n s.current ≡ some cur
      → lookup n parsed ≡ some new
      → y.methods.validate (prepared_new y n new) ≡ false
      → lookup n again ≡ some same
      → labels.methods.hash (prepared labels n same) ≡ labels.methods.hash cur
      → view n (sync_job_map labels again (sync_job_map y parsed s))
        ≡ record { entry = some cur; made = calls_of n s.calls ++ remove_job cur ∷ [] }
  unfolding replace_if_changed
  invalid_override y labels laws laws' parsed again s n cur new same d d' d'' files lab c c' here
        there bad still hashes =
      let s' = sync_job_map y parsed s in
      let e = sync_job_map-reconciled y laws parsed s n d d' in
      ground (
        arith,
        e,
        sync_job_map-reconciled labels laws' again s' n (sync_job_map-distinct y parsed s d) d'',
        append-nil (calls_of n s.calls ++ remove_job cur ∷ []),
        compare_hashes_refl (labels.methods.hash cur),
        ap (λ h. compare_hashes h (labels.methods.hash cur)) hashes,
      )
