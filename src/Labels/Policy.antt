-- ===== src/Labels/Policy.antt =====
-- What no label can do, and what one that cannot be decoded does.
use ofelia.Common.{
  String, Bool, true, false, ◌≡◌, refl, ap, ◌∙◌, sym, Option, List, [], ◌∷◌, if◌then◌else◌,
  if-false, if-all, subst, arith, assign,
}
use ofelia.Labels.{DockerContainerInfo, Found, nothing_found, sort_containers}
use ofelia.Labels.Keys.{is_one_of, global_label_allow_list, split_dots}
use ofelia.Labels.Splitting.{
  filter_global_label_key, add_webhook, apply_job_parameter_to_job_maps, add_job_label, add_parts,
  add_label, add_labels, add_container, add_containers, split_containers_labels,
}
use ofelia.Labels.Building.{
  exec_kind, JobMaps, Decoder, decode_into, decode_settings, decode_all, mark_job_source,
  build_from_docker_containers,
}
use ofelia.Sync.{JobConfig}

-- Every key is one of the allow-list.
unfoldable pub are_allowed : List (String × String) → Bool
are_allowed [] = true
are_allowed ((k, v) ∷ globals) =
    let rest = are_allowed globals in if is_one_of global_label_allow_list k then rest else false

are_allowed-assign :
    (k v : String) (globals : List (String × String))
    → is_one_of global_label_allow_list k ≡ true
    → are_allowed globals ≡ true
    → are_allowed (assign k v globals) ≡ true
unfolding are_allowed assign
are_allowed-assign k v [] h a = ground arith
are_allowed-assign k v ((j, w) ∷ globals) h a = ground (arith, are_allowed-assign k v globals h)

are_allowed-filter :
    (k v : String) (globals : List (String × String))
    → are_allowed globals ≡ true
    → are_allowed (filter_global_label_key k v globals) ≡ true
unfolding filter_global_label_key
are_allowed-filter k v globals a = ground (arith, are_allowed-assign k v globals)

module _ (unmarshal : String → Option (List String)) where
  add_job_label-globals :
      (c : DockerContainerInfo) (t n p v : String) (f : Found)
      → (add_job_label unmarshal c t n p v f).globals ≡ f.globals
  unfolding add_job_label apply_job_parameter_to_job_maps add_webhook
  add_job_label-globals c t n p v f = ground arith

  add_parts-allowed :
      (c : DockerContainerInfo) (parts : List String) (v : String) (f : Found)
      → are_allowed f.globals ≡ true
      → are_allowed (add_parts unmarshal c parts v f).globals ≡ true
  add_parts-allowed c [] v f a = a
  add_parts-allowed c (p ∷ []) v f a = a
  add_parts-allowed c (p ∷ q ∷ []) v f a = ground (arith, are_allowed-filter q v f.globals)
  add_parts-allowed c (p ∷ q ∷ r ∷ []) v f a = ground (arith, are_allowed-filter q v f.globals)
  add_parts-allowed c (p ∷ q ∷ r ∷ s ∷ parts) v f a =
      ap are_allowed (add_job_label-globals c q r s v f) ∙ a

  add_labels-allowed :
      (c : DockerContainerInfo) (labels : List (String × String)) (f : Found)
      → are_allowed f.globals ≡ true
      → are_allowed (add_labels unmarshal c labels f).globals ≡ true
  unfolding add_labels add_label
  add_labels-allowed c [] f a = a
  add_labels-allowed c ((k, v) ∷ labels) f a =
      add_labels-allowed c labels (add_label unmarshal c k v f)
        (ground (arith, add_parts-allowed c (split_dots k) v f a))

  add_containers-allowed :
      (cs : List DockerContainerInfo) (f : Found)
      → are_allowed f.globals ≡ true
      → are_allowed (add_containers unmarshal cs f).globals ≡ true
  unfolding add_containers add_container
  add_containers-allowed [] f a = a
  add_containers-allowed (c ∷ cs) f a =
      add_containers-allowed cs (add_container unmarshal c f)
        (add_labels-allowed c c.labels (record f { exec = []; run = [] }) a)

  pub split-allowed :
      (cs : List DockerContainerInfo)
      → are_allowed (split_containers_labels unmarshal cs).globals ≡ true
  unfolding split_containers_labels are_allowed
  split-allowed cs = add_containers-allowed (sort_containers cs) nothing_found refl

module _ {G J : Type 0} (d : Decoder G J) where
  -- Decoding settings whose keys are all on the allow-list leaves the flag as it is.
  abbrev pub KeepsFlag : Type 0
  KeepsFlag =
      (settings : List (String × String)) (h : G)
      → are_allowed settings ≡ true
      → d.allow_host_jobs_from_labels (d.decode_globals settings h).0
        ≡ d.allow_host_jobs_from_labels h

  flag-decode_settings :
      (settings : List (String × String)) (g : G)
      → KeepsFlag
      → are_allowed settings ≡ true
      → d.allow_host_jobs_from_labels (decode_settings d settings g).0
        ≡ d.allow_host_jobs_from_labels g
  flag-decode_settings [] g keeps a = refl
  flag-decode_settings (s ∷ settings) g keeps a = keeps (s ∷ settings) g a

  -- No jobs that run on the host.
  abbrev pub IsHostless : JobMaps J → Type 0
  IsHostless maps = (maps.local ≡ []) × (maps.compose ≡ [])

  decode_all-IsHostless :
      (m : JobConfig J) (f : Found)
      → IsHostless (decode_all d m (record f { local = []; compose = [] }))
  unfolding decode_all decode_into mark_job_source
  decode_all-IsHostless m f = ground arith

  -- Where decoding settings whose keys are all on the allow-list leaves the flag for jobs on the
  -- host as it is, and the flag is not set: no labels lead to local or compose jobs.
  pub build-IsHostless :
      (m : JobConfig J) (g : G) (cs : List DockerContainerInfo)
      → KeepsFlag
      → d.allow_host_jobs_from_labels g ≡ false
      → IsHostless (build_from_docker_containers d m g cs).1
  unfolding build_from_docker_containers
  build-IsHostless m g cs keeps off =
      let f = split_containers_labels d.unmarshal cs in
      let g' = (decode_settings d f.globals g).0 in
      let still : d.allow_host_jobs_from_labels g' ≡ false =
        flag-decode_settings f.globals g keeps (split-allowed d.unmarshal cs) ∙ off in
      if-all (λ (r : G × JobMaps J). IsHostless r.1) (decode_settings d f.globals g).1 _ _
        (λ _.
          subst (λ h. IsHostless (decode_all d m h)) (sym (if-false still f _))
            (decode_all-IsHostless m f))
        (λ _. (refl, refl))

  -- The labels of exec jobs do not all decode: then no local, service, run or compose jobs are
  -- built from the labels.
  pub build-exec_fails :
      (m : JobConfig J) (g : G) (cs : List DockerContainerInfo)
      → (decode_into d exec_kind (split_containers_labels d.unmarshal cs).exec).1 ≡ false
      → ((build_from_docker_containers d m g cs).1.local ≡ [])
        × ((build_from_docker_containers d m g cs).1.service ≡ [])
        × ((build_from_docker_containers d m g cs).1.run ≡ [])
        × ((build_from_docker_containers d m g cs).1.compose ≡ [])
  unfolding build_from_docker_containers decode_all
  build-exec_fails m g cs fails = ground arith
