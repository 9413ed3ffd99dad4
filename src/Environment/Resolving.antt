-- ===== src/Environment/Resolving.antt =====
-- What errors do to the environment of a job.
use ofelia.Common.{
  String, Bool, true, false, ◌≡◌, refl, ap, ◌∙◌, Option, none, some, List, [], ◌∷◌, ◌++◌, map,
  if◌then◌else◌,
}
use ofelia.Environment.{merge_environments}
use ofelia.Environment.Files.{
  FileRead, EnvError, Result, ok, err, parse_env_file, Inspected, resolve_env_from, append_ok,
  read_all, merge_ok, resolve_job_environment,
}

-- Whether each of them is read.
abbrev pub is_ok : {A : Type 0} → Result A → Bool
is_ok (ok a) = true
is_ok (err e) = false

-- The first error of what is read, and all that is read.
unfoldable pub first_error : List (Result (List String)) → Option EnvError
first_error [] = none
first_error (ok vars ∷ rs) = first_error rs
first_error (err e ∷ rs) = some e

unfoldable pub all_read : List (Result (List String)) → List String
all_read [] = []
all_read (ok vars ∷ rs) = vars ++ all_read rs
all_read (err e ∷ rs) = all_read rs

abbrev pub unless : {A : Type 0} → Option EnvError → A → Result A
unless none a = ok a
unless (some e) a = err e

append_vars :
    (vars : List String) (o : Option EnvError) (more : List String)
    → append_ok (ok vars) (unless o more) ≡ unless o (vars ++ more)
append_vars vars none more = refl
append_vars vars (some e) more = refl

append_unless :
    (r : Result (List String)) (rs : List (Result (List String)))
    → append_ok r (unless (first_error rs) (all_read rs))
      ≡ unless (first_error (r ∷ rs)) (all_read (r ∷ rs))
unfolding first_error all_read
append_unless (err e) rs = refl
append_unless (ok vars) rs = append_vars vars (first_error rs) (all_read rs)

read_all-unless :
    {A : Type 0} (read : A → Result (List String)) (xs : List A)
    → read_all read xs ≡ unless (first_error (map read xs)) (all_read (map read xs))
unfolding read_all first_error all_read
read_all-unless read [] = refl
read_all-unless read (x ∷ xs) =
    ap (append_ok (read x)) (read_all-unless read xs) ∙ append_unless (read x) (map read xs)

abbrev pub or_first : Option EnvError → Option EnvError → Option EnvError
or_first (some e) o = some e
or_first none o = o

merge_unless :
    (o p : Option EnvError) (files from explicit : List String)
    → merge_ok (unless o files) (unless p from) explicit
      ≡ unless (or_first o p) (merge_environments files from explicit)
merge_unless (some e) p files from explicit = refl
merge_unless none (some e) files from explicit = refl
merge_unless none none files from explicit = refl

-- The containers that are asked: none without a provider.
abbrev pub asked : Bool → List Inspected → List Inspected
asked has_provider containers = if has_provider then containers else []

asked_only :
    (has_provider : Bool) (containers : List Inspected)
    → (if has_provider then read_all resolve_env_from containers else ok [])
      ≡ read_all resolve_env_from (asked has_provider containers)
unfolding read_all
asked_only true containers = refl
asked_only false containers = refl

-- The variables read are merged, unless there was an error.
pub resolve-unless :
    (has_provider : Bool) (files : List FileRead) (containers : List Inspected)
    (explicit : List String)
    → let fs = map parse_env_file files in
      let cs = map resolve_env_from (asked has_provider containers) in
      resolve_job_environment has_provider files containers explicit
      ≡ unless
          (or_first (first_error fs) (first_error cs))
          (merge_environments (all_read fs) (all_read cs) explicit)
unfolding resolve_job_environment
resolve-unless has_provider files containers explicit =
    let fs = map parse_env_file files in
    let cs = map resolve_env_from (asked has_provider containers) in
    ap (λ r. merge_ok (read_all parse_env_file files) r explicit)
      (asked_only has_provider containers)
    ∙ ap (λ r. merge_ok r (read_all resolve_env_from (asked has_provider containers)) explicit)
        (read_all-unless parse_env_file files)
    ∙ ap (λ r. merge_ok (unless (first_error fs) (all_read fs)) r explicit)
        (read_all-unless resolve_env_from (asked has_provider containers))
    ∙ merge_unless (first_error fs) (first_error cs) (all_read fs) (all_read cs) explicit
