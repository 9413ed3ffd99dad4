-- ===== src/ServiceJob/Examples.antt =====
-- The theorems on service jobs at concrete rounds.
use ofelia.Common.{
  String, true, false, ◌≡◌, refl, Option, none, some, List, [], ◌∷◌, map, pos, ◌is◌, lookup,
}
use ofelia.Annotations.{Surroundings, get_default_annotations}
use ofelia.Annotations.Merging.{or_else, last_annotation}
use ofelia.Environment.Files.{FileRead, has_text, Inspected, inspected}
use ofelia.Environment.Places.{entries_of, last_from, to_list}
use ofelia.ServiceJob.Printing.{Volume, printed, mount_of}
use ofelia.ServiceJob.Spec.{
  ServiceSettings, ServiceSpec, built, broken, invalid_volume, mounts_of, build_service,
}
use ofelia.ServiceJob.Specified.{variables, build_service-builds}
use ofelia.RunJob.{answer, failure, parse_bool}
use ofelia.ServiceJob.{
  ServiceJob, running, rejected, shutdown, Round, tick, ensure_image, create_service,
  inspect_service, remove_service, ServiceError, Swarm, watch_rounds, watch_container,
  removal_error, is_not_found_error, first_error, run,
}
use ofelia.ServiceJob.Watching.{round_end, are_lost, watch_rounds-lost}
use ofelia.ServiceJob.Deleting.{run-returns}

abbrev starts : Round
starts = tick 500 (answer (record { state = running; exit_code = none } ∷ []))

abbrev is_rejected : Round
is_rejected = tick 1000 (answer (record { state = rejected; exit_code = some (pos 0) } ∷ []))

abbrev unlisted : Round
unlisted = tick 1500 (failure "timeout")

abbrev shut_down : Round
shut_down = tick 2000 (answer (record { state = shutdown; exit_code = some (pos 137) } ∷ []))

watch_rounds-lost_example : watch_rounds (pos 0) (unlisted ∷ shut_down ∷ shut_down ∷ []) ≡ none
unfolding are_lost
watch_rounds-lost_example = watch_rounds-lost (unlisted ∷ shut_down ∷ shut_down ∷ []) refl

abbrev job : ServiceJob
job = record { delete = "true"; image = "alpine"; max_runtime = pos 1400 }

abbrev swarm : Swarm
swarm = record {
  image_error = none;
  prepare_error = none;
  created = answer "s1";
  inspect_error = none;
  rounds = starts ∷ unlisted ∷ shut_down ∷ [];
  remove_error = some "Error: No such service: s1";
}

run-returns_example :
    (err : Option ServiceError) × (watch_container job swarm ≡ some err)
    × (run job swarm
        ≡ some (record {
          calls =
              ensure_image job.image
              ∷ create_service
              ∷ inspect_service "s1"
              ∷ remove_service "s1"
              ∷ [];
          error = first_error err (removal_error swarm.remove_error);
        }))
unfolding parse_bool ◌is◌
run-returns_example =
    run-returns job swarm "s1" (starts ∷ []) (shut_down ∷ []) 1500 (failure "timeout") refl refl
      refl refl refl refl

rejects : watch_rounds (pos 0) (starts ∷ is_rejected ∷ []) ≡ some (round_end (pos 0) is_rejected)
unfolding watch_rounds
rejects = refl

not_found : is_not_found_error "Error: No such service: s1" ≡ true
unfolding is_not_found_error
not_found = refl

abbrev volumes : List Volume
volumes =
    record { source = "/srv/in"; target = "/in"; options = "z" ∷ "ro" ∷ [] }
    ∷ record { source = "cache"; target = "/cache"; options = [] }
    ∷ []

abbrev settings : ServiceSettings
settings = record {
  name = "backup";
  image = "alpine";
  user = "";
  hostname = "";
  dir = "";
  tty = false;
  command = "sync";
  network = "";
  volumes = map printed volumes;
  annotations = "team=a" ∷ " ofelia.job.name =nightly" ∷ "=x" ∷ [];
  environment = "MODE=live" ∷ [];
}

abbrev around : Surroundings
around = record { hostname = ""; version = "1.0"; now = "2026-01-01T00:00:00Z" }

-- A command of one word.
abbrev one_word : String → List String
one_word command = command ∷ []

abbrev env_files : List FileRead
env_files = has_text "MODE=test\n" none ∷ []

abbrev containers : List Inspected
containers = inspected none ∷ []

build_service-builds_example :
    (spec : ServiceSpec) × (build_service one_word settings around true env_files containers
      ≡ built spec)
    × ((k : String)
        → lookup k spec.labels
          ≡ or_else
              (last_annotation k settings.annotations)
              (lookup k (get_default_annotations settings.name "service" around)))
    × ((k : String)
        → entries_of k spec.env
          ≡ to_list
              (last_from k none (variables one_word settings around true env_files containers)))
    × (spec.mounts ≡ map mount_of volumes)
unfolding ofelia.ServiceJob.Specified.all_printable ofelia.Environment.Texts.lacks
    ofelia.ServiceJob.Printing.all_lack ofelia.Environment.Resolving.first_error
    ofelia.Environment.Files.parse_env_file ofelia.Environment.Files.resolve_env_from
build_service-builds_example =
    build_service-builds one_word settings around true env_files containers volumes refl refl refl
      refl

unmounted : mounts_of ("cache:/cache" ∷ "/srv" ∷ []) ≡ broken (invalid_volume "/srv")
unfolding mounts_of
unmounted = refl

renamed : last_annotation "ofelia.job.name" settings.annotations ≡ some "nightly"
unfolding last_annotation ofelia.Environment.Files.cut_at ofelia.Environment.Files.trim_space ◌is◌
renamed = refl
