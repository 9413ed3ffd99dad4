-- ===== src/ServiceJob/Spec.antt =====
-- core/runservice.go, `buildService`: the specification of the service of a job. The splitting of a
-- command, which another package does, is a parameter, and so are the answers that the environment is
-- resolved from.
use ofelia.Common.{String, Bool, Option, none, some, List, [], ◌∷◌, if◌then◌else◌, ◌is◌, ℕ}
use ofelia.Annotations.{Surroundings, get_default_annotations, merge_annotations}
use ofelia.Environment.Files.{
  EnvError, Result, ok, err, FileRead, Inspected, resolve_job_environment,
}
use ofelia.ServiceJob.Mounts.{ServiceMount, parse_volume_mount}

pub record ServiceSettings : Type 0 where
  pub name : String
  pub image : String
  pub user : String
  pub hostname : String
  pub dir : String
  pub tty : Bool
  pub command : String
  pub network : String
  pub volumes : List String
  pub annotations : List String
  pub environment : List String

-- The restart condition is always `none`.
pub record ServiceSpec : Type 0 where
  pub labels : List (String × String)
  pub image : String
  pub env : List String
  pub user : String
  pub hostname : String
  pub dir : String
  pub tty : Bool
  pub max_attempts : ℕ
  pub mounts : List ServiceMount
  pub networks : List String
  pub command : List String

pub data SpecError : Type 0 where
  resolving_environment : EnvError → SpecError
  invalid_volume : String → SpecError

pub data SpecResult (A : Type 0) : Type 0 where
  built : A → SpecResult A
  broken : SpecError → SpecResult A

abbrev pub with_mount :
    String → Option ServiceMount → SpecResult (List ServiceMount) → SpecResult (List ServiceMount)
with_mount text none later = broken (invalid_volume text)
with_mount text (some m) (broken e) = broken e
with_mount text (some m) (built mounts) = built (m ∷ mounts)

-- The loop over the volumes, which ends at the first that is not valid.
unfoldable pub mounts_of : List String → SpecResult (List ServiceMount)
unfolding parse_volume_mount
mounts_of [] = built []
mounts_of (text ∷ volumes) = with_mount text (parse_volume_mount text) (mounts_of volumes)

-- A list of the text, unless it is empty.
abbrev pub if_given : String → List String → List String
if_given s given = if s is "" then [] else given

module _ (get_args : String → List String) where
  abbrev pub with_mounts :
      ServiceSettings
      → Surroundings
      → List String
      → SpecResult (List ServiceMount)
      → SpecResult ServiceSpec
  with_mounts j around env (broken e) = broken e
  with_mounts j around env (built mounts) = built (record {
    labels = merge_annotations j.annotations (get_default_annotations j.name "service" around);
    image = j.image;
    env = env;
    user = j.user;
    hostname = j.hostname;
    dir = j.dir;
    tty = j.tty;
    max_attempts = 1;
    mounts = mounts;
    networks = if_given j.network (j.network ∷ []);
    command = if_given j.command (get_args j.command);
  })

  abbrev pub with_environment :
      ServiceSettings → Surroundings → Result (List String) → SpecResult ServiceSpec
  with_environment j around (err e) = broken (resolving_environment e)
  with_environment j around (ok env) = with_mounts j around env (mounts_of j.volumes)

  -- Up to the call of the provider, which creates the service.
  unfoldable pub build_service :
      ServiceSettings
      → Surroundings
      → Bool
      → List FileRead
      → List Inspected
      → SpecResult ServiceSpec
  unfolding mounts_of merge_annotations get_default_annotations resolve_job_environment ◌is◌
  build_service j around has_provider env_files env_from =
      with_environment j around
        (resolve_job_environment has_provider env_files env_from j.environment)
