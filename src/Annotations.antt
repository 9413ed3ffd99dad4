-- ===== src/Annotations.antt =====
-- core/annotations.go: the annotations of a job, which become the labels of its container or service.
pub mod Merging
use ofelia.Common.{String, Bool, Option, none, some, List, [], ◌∷◌, if◌then◌else◌, ◌is◌, assign}
use ofelia.Environment.Files.{is_empty, trim_space, cut_at}

abbrev pub with_key : String → String → List (String × String) → List (String × String)
with_key key value result = if is_empty key then result else assign key value result

abbrev pub annotate : Option (String × String) → List (String × String) → List (String × String)
annotate none result = result
annotate (some (key, value)) result = with_key (trim_space key) value result

-- The loop of `parseAnnotations`, with the map so far.
unfoldable pub annotate_all : List String → List (String × String) → List (String × String)
unfolding cut_at trim_space assign
annotate_all [] result = result
annotate_all (ann ∷ annotations) result =
    annotate_all annotations (annotate (cut_at b'=' ann) result)

abbrev pub parse_annotations : List String → List (String × String)
parse_annotations annotations = annotate_all annotations []

abbrev pub text_or : String → String → String
text_or fallback s = if s is "" then fallback else s

-- What the defaults are made from: the answer for the host's name, the version set by the build, and
-- the time, formatted.
pub record Surroundings : Type 0 where
  pub hostname : String
  pub version : String
  pub now : String

unfoldable pub get_default_annotations : String → String → Surroundings → List (String × String)
unfolding ◌is◌
get_default_annotations job_name job_type around =
    ("ofelia.job.name", job_name)
    ∷ ("ofelia.job.type", job_type)
    ∷ ("ofelia.execution.time", around.now)
    ∷ ("ofelia.scheduler.host", text_or "unknown" around.hostname)
    ∷ ("ofelia.version", text_or "dev" around.version)
    ∷ []

-- `maps.Copy`
unfoldable pub copy_into : List (String × String) → List (String × String) → List (String × String)
unfolding assign
copy_into result [] = result
copy_into result ((key, value) ∷ entries) = copy_into (assign key value result) entries

unfoldable pub merge_annotations : List String → List (String × String) → List (String × String)
unfolding copy_into annotate_all
merge_annotations annotations defaults =
    copy_into (copy_into [] defaults) (parse_annotations annotations)
