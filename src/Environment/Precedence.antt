-- ===== src/Environment/Precedence.antt =====
-- Which variables a job has in the end, or which error it gets for them.
use mathlib.Core.List.{append_assoc}
use ofelia.Common.{
  String, Bool, ◌≡◌, refl, ap, ◌∙◌, Option, none, some, List, [], ◌∷◌, ◌++◌, map, sym,
}
use ofelia.Environment.{merge_environments}
use ofelia.Environment.Files.{
  FileRead, EnvError, Result, ok, err, parse_env_file, Inspected, resolve_env_from,
  resolve_job_environment,
}
use ofelia.Environment.Resolving.{unless, or_first, first_error, all_read, asked, resolve-unless}
use ofelia.Environment.Places.{entries_of, last_from, to_list}
use ofelia.Environment.Merging.{merge_environments-last}

-- The function on what was read, unless there was an error.
abbrev pub on_ok : {A B : Type 0} → (A → B) → Result A → Result B
on_ok f (ok a) = ok (f a)
on_ok f (err e) = err e

on_ok-unless :
    {A B : Type 0} (f : A → B) (o : Option EnvError) (a : A) → on_ok f (unless o a) ≡ unless o (f a)
on_ok-unless f none a = refl
on_ok-unless f (some e) a = refl

first_error-append :
    (rs ss : List (Result (List String)))
    → first_error (rs ++ ss) ≡ or_first (first_error rs) (first_error ss)
unfolding first_error
first_error-append [] ss = refl
first_error-append (ok vars ∷ rs) ss = first_error-append rs ss
first_error-append (err e ∷ rs) ss = refl

all_read-append :
    (rs ss : List (Result (List String))) → all_read (rs ++ ss) ≡ all_read rs ++ all_read ss
unfolding all_read
all_read-append [] ss = refl
all_read-append (ok vars ∷ rs) ss =
    ap (λ vs. vars ++ vs) (all_read-append rs ss)
    ∙ sym (append_assoc vars (all_read rs) (all_read ss))
all_read-append (err e ∷ rs) ss = all_read-append rs ss

-- What is read: the env files in their order, and then the containers that are asked.
abbrev pub sources : Bool → List FileRead → List Inspected → List (Result (List String))
sources has_provider files containers =
    map parse_env_file files ++ map resolve_env_from (asked has_provider containers)

-- Whatever key: the environment of a job fails with the error of the first env file that cannot be
-- read, or else of the first container that is asked and cannot be inspected; without such an error,
-- of the entries with the key, in the env files, these containers and the job's own environment in
-- this order, it has exactly the last one, and none if there is none. Without a provider no container
-- is asked.
pub resolve_job_environment-last :
    (has_provider : Bool) (files : List FileRead) (containers : List Inspected)
    (explicit : List String) (k : String)
    → let read = sources has_provider files containers in
      on_ok (entries_of k) (resolve_job_environment has_provider files containers explicit)
      ≡ unless (first_error read) (to_list (last_from k none (all_read read ++ explicit)))
resolve_job_environment-last has_provider files containers explicit k =
    let fs = map parse_env_file files in
    let cs = map resolve_env_from (asked has_provider containers) in
    let read = fs ++ cs in
    let entries = ap (λ vs. vs ++ explicit) (all_read-append fs cs) in
    ap (on_ok (entries_of k)) (resolve-unless has_provider files containers explicit)
    ∙ on_ok-unless (entries_of k) (or_first (first_error fs) (first_error cs))
        (merge_environments (all_read fs) (all_read cs) explicit)
    ∙ ap (λ o. unless o (entries_of k (merge_environments (all_read fs) (all_read cs) explicit)))
        (sym (first_error-append fs cs))
    ∙ ap (unless (first_error read)) (
        merge_environments-last (all_read fs) (all_read cs) explicit k
        ∙ ap (λ vs. to_list (last_from k none vs)) (sym entries))
