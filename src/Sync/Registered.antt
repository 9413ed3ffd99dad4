-- ===== src/Sync/Registered.antt =====
-- Whether the map of jobs and the scheduler still agree after a sync.
use ofelia.Common.{
  String, true, ◌≡◌, refl, sym, ap, ◌∙◌, Option, none, some, List, [], ◌∷◌, ◌++◌, lookup,
  has_distinct, arith,
}
use ofelia.Sync.{Call, remove_job, add_job, Synced, Sync, prepared_new, sync_job_map}
use ofelia.Sync.Calls.{calls_of, View}
use ofelia.Sync.PerName.{IsLawful, reconciled, sync_job_map-reconciled}

module _ {J : Type 0} where
  -- The job that the scheduler has under a name, after calls for that name that all succeed.
  unfoldable pub registered : Option J → List (Call J) → Option J
  registered r [] = r
  registered r (remove_job j ∷ cs) = registered none cs
  registered r (add_job j ∷ cs) = registered (some j) cs

  registered-append :
      (r : Option J) (cs ds : List (Call J))
      → registered r (cs ++ ds) ≡ registered (registered r cs) ds
  unfolding registered
  registered-append r [] ds = refl
  registered-append r (remove_job j ∷ cs) ds = registered-append none cs ds
  registered-append r (add_job j ∷ cs) ds = registered-append (some j) cs ds

  -- Every new job of the name is valid.
  abbrev pub IsAcceptable : Sync J → String → Option J → Type 0
  IsAcceptable y n p = (new : J) → p ≡ some new → y.methods.validate (prepared_new y n new) ≡ true

  registered-reconciled :
      (y : Sync J) (n : String) (cur p : Option J)
      → IsAcceptable y n p
      → registered cur (reconciled y n cur p).made ≡ (reconciled y n cur p).entry
  unfolding registered
  registered-reconciled y n none none ok = refl
  registered-reconciled y n none (some new) ok = ground arith
  registered-reconciled y n (some cur) none ok = ground arith
  registered-reconciled y n (some cur) (some new) ok = ground (arith, ok new refl)

  -- Where the new job of the name, if any, is valid and the scheduler's methods succeed: if the
  -- scheduler had the job of the map under the name before a sync, then it has the job of the map
  -- under it afterwards.
  pub sync_job_map-registered :
      (y : Sync J)
      → IsLawful y
      → (parsed : List (String × J)) (s : Synced J) (n : String) → has_distinct s.current ≡ true
      → has_distinct parsed ≡ true
      → IsAcceptable y n (lookup n parsed)
      → registered none (calls_of n s.calls) ≡ lookup n s.current
      → registered none (calls_of n (sync_job_map y parsed s).calls)
        ≡ lookup n (sync_job_map y parsed s).current
  sync_job_map-registered y laws parsed s n distinct distinct_new ok before =
      let cs = calls_of n s.calls in
      let r = reconciled y n (lookup n s.current) (lookup n parsed) in
      let e = sync_job_map-reconciled y laws parsed s n distinct distinct_new in
      ap (λ (v : View J). registered none v.made) e
      ∙ registered-append none cs r.made
      ∙ ap (λ o. registered o r.made) before
      ∙ registered-reconciled y n (lookup n s.current) (lookup n parsed) ok
      ∙ sym (ap (λ (v : View J). v.entry) e)
