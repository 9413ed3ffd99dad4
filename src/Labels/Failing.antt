-- ===== src/Labels/Failing.antt =====
-- What an update does if the labels of exec jobs do not decode: the error is dropped, and the jobs that
-- were not built are missing.
use ofelia.Common.{
  String, true, false, not, ◌&&◌, ◌≡◌, refl, ap, ◌∙◌, Option, none, some, List, [], if◌then◌else◌,
  lookup, has_distinct, arith,
}
use ofelia.Labels.{DockerContainerInfo}
use ofelia.Labels.Splitting.{split_containers_labels}
use ofelia.Labels.Building.{
  JobKind, exec_kind, run_kind, local_kind, service_kind, compose_kind, Decoder, decode_into,
  LiveJobs, sync_kind, docker_containers_update, sync_label_jobs,
}
use ofelia.Labels.Policy.{build-exec_fails}
use ofelia.Sync.{JobSource, unset, ini, label, same_source, JobConfig, Call, Sync}
use ofelia.Sync.Calls.{View}
use ofelia.Sync.PerName.{IsLawful, reconciled, sync_job_map-reconciled}

ini_is_foreign :
    (s : JobSource)
    → (not (same_source label unset) && not (same_source s label) && not (same_source s unset))
      ≡ same_source s ini
ini_is_foreign unset = refl
ini_is_foreign ini = refl
ini_is_foreign label = refl

module _ {J : Type 0} where
  -- The entry, if it comes from a file.
  abbrev pub kept_ini : JobConfig J → Option J → Option J
  kept_ini m none = none
  kept_ini m (some j) = if same_source (m.get_job_source j) ini then some j else none

  abbrev pub label_sync : JobConfig J → (String → J → J) → Sync J
  label_sync m prep = record { methods = m; prep = prep; source = label }

  reconciled-nothing :
      (m : JobConfig J) (prep : String → J → J) (n : String) (cur : Option J)
      → (reconciled (label_sync m prep) n cur none).entry ≡ kept_ini m cur
  reconciled-nothing m prep n none = refl
  reconciled-nothing m prep n (some cur) = ground (arith, ini_is_foreign (m.get_job_source cur))

  sync_kind-nothing :
      (m : JobConfig J) (prep : String → J → J)
      → IsLawful (label_sync m prep)
      → (parsed current : List (String × J)) (calls : List (String × Call J)) (n : String)
      → parsed ≡ []
      → has_distinct current ≡ true
      → lookup n (sync_kind m prep label parsed current calls).current
        ≡ kept_ini m (lookup n current)
  unfolding has_distinct lookup
  sync_kind-nothing m prep laws parsed current calls n nothing distinct =
      ap (λ l. lookup n (sync_kind m prep label l current calls).current) nothing
      ∙ ap (λ (v : View J). v.entry)
          (sync_job_map-reconciled (label_sync m prep) laws []
            (record { current = current; calls = calls }) n distinct refl)
      ∙ reconciled-nothing m prep n (lookup n current)

-- Where labels of exec jobs do not decode: whatever else the labels say, an update leaves of the
-- run, local, service and compose jobs only those that come from files.
pub update-exec_fails :
    {G J : Type 0} (d : Decoder G J) (m : JobConfig J) (preps : JobKind → String → J → J)
    → ((kind : JobKind) → IsLawful (label_sync m (preps kind)))
    → (g : G) (cs : List DockerContainerInfo) (live : LiveJobs J) (n : String)
    → has_distinct live.maps.run ≡ true
    → has_distinct live.maps.local ≡ true
    → has_distinct live.maps.service ≡ true
    → has_distinct live.maps.compose ≡ true
    → (decode_into d exec_kind (split_containers_labels d.unmarshal cs).exec).1 ≡ false
    → let after = (docker_containers_update d m preps g cs live).maps in
      (lookup n after.run ≡ kept_ini m (lookup n live.maps.run))
      × (lookup n after.local ≡ kept_ini m (lookup n live.maps.local))
      × (lookup n after.service ≡ kept_ini m (lookup n live.maps.service))
      × (lookup n after.compose ≡ kept_ini m (lookup n live.maps.compose))
unfolding docker_containers_update sync_label_jobs
update-exec_fails d m preps laws g cs live n dr dl ds dc fails =
    let (local, service, run, compose) = build-exec_fails d m g cs fails in
    (
      sync_kind-nothing m (preps run_kind) (laws run_kind) _ live.maps.run _ n run dr,
      sync_kind-nothing m (preps local_kind) (laws local_kind) _ live.maps.local _ n local dl,
      sync_kind-nothing m (preps service_kind) (laws service_kind) _ live.maps.service _ n service
          ds,
      sync_kind-nothing m (preps compose_kind) (laws compose_kind) _ live.maps.compose _ n compose
          dc,
    )
