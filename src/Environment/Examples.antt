-- ===== src/Environment/Examples.antt =====
-- The theorem on environments at concrete entries.
use ofelia.Common.{◌≡◌, refl, none, some, true, false, map, String, List, [], ◌∷◌, ◌++◌}
use ofelia.Environment.{merge_environments}
use ofelia.Environment.Files.{
  FileRead, has_text, Inspected, inspected, not_inspected, ok, err, inspect_container,
  parse_env_file, resolve_env_from, resolve_job_environment,
}
use ofelia.Environment.Parsing.{Assignment, line_of, env_entry}
use ofelia.Environment.Scanning.{text_of, parse_env_file-text_of}
use ofelia.Environment.Places.{entries_of, last_from, to_list}
use ofelia.Environment.Resolving.{unless, first_error, all_read}
use ofelia.Environment.Precedence.{on_ok, sources, resolve_job_environment-last}

abbrev env_files : List String
env_files = "MODE=test" ∷ "PATH=/bin" ∷ "no entry" ∷ []

abbrev explicit : List String
explicit = "MODE=live" ∷ "KEY=a=b" ∷ []

merged : merge_environments env_files [] explicit ≡ "MODE=live" ∷ "PATH=/bin" ∷ "KEY=a=b" ∷ []
unfolding merge_environments ofelia.Common.◌is◌ ofelia.Common.index_byte ofelia.Common.prefix
merged = refl

-- The second value has a quote, an equals sign and white space at its ends.
abbrev assignments : List Assignment
assignments =
    record { exported = true; quote = "'"; key = "MODE"; value = "test" }
    ∷ record { exported = false; quote = "'"; key = "TEXT"; value = " it's a=b " }
    ∷ []

parse_env_file-text_of_example :
    parse_env_file (has_text (text_of (map line_of assignments)) none)
    ≡ ok (map env_entry assignments)
unfolding ofelia.Environment.Parsing.all_plain ofelia.Environment.Files.is_space
    ofelia.Environment.Texts.lacks ofelia.Environment.Files.after_prefix
    ofelia.Environment.Scanning.all_scannable ofelia.Environment.Files.byte_length
    ofelia.Common.concat
parse_env_file-text_of_example = parse_env_file-text_of assignments refl refl

abbrev from_containers : List Inspected
from_containers = inspected (some ("MODE=live" ∷ [])) ∷ not_inspected "no such container" ∷ []

abbrev files : List FileRead
files = has_text "# modes\nMODE=test\r\n" none ∷ []

resolve_job_environment-last_example :
    let read = sources true files from_containers in
    on_ok (entries_of "MODE") (resolve_job_environment true files from_containers explicit)
    ≡ unless (first_error read) (to_list (last_from "MODE" none (all_read read ++ explicit)))
resolve_job_environment-last_example =
    resolve_job_environment-last true files from_containers explicit "MODE"

failed :
    resolve_job_environment true files from_containers explicit
    ≡ err (inspect_container "no such container")
unfolding resolve_job_environment
failed = refl

-- Without the provider, the files and the job's own variables.
resolved : resolve_job_environment false files from_containers explicit ≡ ok explicit
unfolding resolve_job_environment ofelia.Common.◌is◌ ofelia.Common.index_byte ofelia.Common.prefix
resolved = refl

-- A value over two lines is cut at the line break.
broken :
    parse_env_file (has_text "KEY=\"a\nb\"\nMODE=test" none) ≡ ok ("KEY=\"a" ∷ "MODE=test" ∷ [])
unfolding parse_env_file
broken = refl
