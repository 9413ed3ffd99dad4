-- ===== src/ServiceJob/Specified.antt =====
-- The specification that a service job gets: its labels, environment and mounts.
use ofelia.Common.{
  String, Bool, true, ◌&&◌, none, some, List, [], ◌∷◌, ◌++◌, map, ◌≡◌, refl, ap, ◌∙◌, arith, lookup,
}
use ofelia.Annotations.{Surroundings, get_default_annotations}
use ofelia.Annotations.Merging.{or_else, last_annotation, merge_annotations-last}
use ofelia.Environment.{merge_environments}
use ofelia.Environment.Files.{
  FileRead, Inspected, ok, parse_env_file, resolve_env_from, resolve_job_environment,
}
use ofelia.Environment.Resolving.{first_error, all_read, asked, resolve-unless}
use ofelia.Environment.Places.{entries_of, last_from, to_list}
use ofelia.Environment.Merging.{merge_environments-last}
use ofelia.ServiceJob.Printing.{Volume, printed, is_printable, mount_of, parse_volume_mount-printed}
use ofelia.ServiceJob.Spec.{
  ServiceSettings, ServiceSpec, built, with_mount, mounts_of, with_environment, with_mounts,
  build_service,
}

unfoldable pub all_printable : List Volume → Bool
all_printable [] = true
all_printable (v ∷ vs) = is_printable v && all_printable vs

mounts_of-printed :
    (vs : List Volume)
    → all_printable vs ≡ true
    → mounts_of (map printed vs) ≡ built (map mount_of vs)
unfolding mounts_of all_printable
mounts_of-printed [] h = refl
mounts_of-printed (v ∷ vs) h =
    ap (λ o. with_mount (printed v) o (mounts_of (map printed vs)))
      (parse_volume_mount-printed v (ground arith))
    ∙ ap (with_mount (printed v) (some (mount_of v))) (mounts_of-printed vs (ground arith))

module _ (get_args : String → List String) (j : ServiceSettings) (around : Surroundings)
    (has_provider : Bool) (files : List FileRead) (containers : List Inspected) where
  -- What the env files have, what the containers that are asked have, and the job's own.
  abbrev pub variables : List String
  variables =
      all_read (map parse_env_file files)
      ++ all_read (map resolve_env_from (asked has_provider containers))
      ++ j.environment

  resolved :
      first_error (map parse_env_file files) ≡ none
      → first_error (map resolve_env_from (asked has_provider containers)) ≡ none
      → resolve_job_environment has_provider files containers j.environment
        ≡ ok (
            merge_environments
              (all_read (map parse_env_file files))
              (all_read (map resolve_env_from (asked has_provider containers)))
              j.environment)
  resolved f c = rw (resolve-unless has_provider files containers j.environment, f, c) refl

  -- Where all env files can be read and all containers that are asked inspected, and the volumes are
  -- written with a source and a target, without colons, and options without commas: the job gets a
  -- specification. Each label of it has the value of the user's last annotation for the key, and
  -- else its default; of the variables with a key, in the env files, the containers and the job's own
  -- environment, it has exactly the last one; and it has one mount for each volume, in their order,
  -- read-only if an option is `ro`, and a bind mount if the source begins with a slash or a dot.
  pub build_service-builds :
      (vs : List Volume)
      → j.volumes ≡ map printed vs
      → all_printable vs ≡ true
      → first_error (map parse_env_file files) ≡ none
      → first_error (map resolve_env_from (asked has_provider containers)) ≡ none
      → (spec : ServiceSpec) × (build_service get_args j around has_provider files containers
          ≡ built spec)
        × ((k : String)
            → lookup k spec.labels
              ≡ or_else
                  (last_annotation k j.annotations)
                  (lookup k (get_default_annotations j.name "service" around)))
        × ((k : String) → entries_of k spec.env ≡ to_list (last_from k none variables))
        × (spec.mounts ≡ map mount_of vs)
  unfolding build_service
  build_service-builds vs w p f c =
      let fs = all_read (map parse_env_file files) in
      let cs = all_read (map resolve_env_from (asked has_provider containers)) in
      let env = merge_environments fs cs j.environment in
      (
        _,
        ap (with_environment get_args j around) (resolved f c)
            ∙ ap (with_mounts get_args j around env) (ap mounts_of w ∙ mounts_of-printed vs p),
        (λ k. merge_annotations-last k j.name "service" around j.annotations),
        (λ k. merge_environments-last fs cs j.environment k),
        refl,
      )
