-- ===== src/Environment/Files.antt =====
-- core/envfile.go, `ParseEnvFile`, `ResolveEnvFrom` and `ResolveJobEnvironment`: the variables of env
-- files and of other containers. What is read of a file, and the answers of Docker, are given.
use Prim.Native.Char.{Char, code}
use Prim.Native.String as Native
use ofelia.Common.{
  ℕ, ◌+◌, String, Bool, true, false, ◌&&◌, ◌||◌, Option, none, some, List, [], ◌∷◌, ◌++◌, leb, ltb,
  ◌==◌, if◌then◌else◌, concat,
}
use ofelia.Environment.{merge_environments}

-- `unicode.IsSpace`
unfoldable pub is_space : ℕ → Bool
is_space c =
    leb 9 c && leb c 13
    || c == 32
    || c == 133
    || c == 160
    || c == 5760
    || leb 8192 c && leb c 8202
    || c == 8232
    || c == 8233
    || c == 8239
    || c == 8287
    || c == 12288

abbrev pub is_empty : String → Bool
is_empty Native.String.[] = true
is_empty (Native.String.◌∷◌ c s) = false

unfoldable pub trim_left : String → String
unfolding is_space
trim_left Native.String.[] = ""
trim_left (Native.String.◌∷◌ c s) =
    let rest = trim_left s in if is_space (code c) then rest else Native.String.◌∷◌ c s

unfoldable pub trim_right : String → String
unfolding is_space
trim_right Native.String.[] = ""
trim_right (Native.String.◌∷◌ c s) =
    let rest = trim_right s in
    if is_empty rest && is_space (code c) then "" else Native.String.◌∷◌ c rest

unfoldable pub trim_space : String → String
unfolding trim_left trim_right
trim_space s = trim_right (trim_left s)

-- What follows a prefix, if the text has it.
unfoldable pub after_prefix : String → String → Option String
after_prefix Native.String.[] s = some s
after_prefix (Native.String.◌∷◌ p start) Native.String.[] = none
after_prefix (Native.String.◌∷◌ p start) (Native.String.◌∷◌ c s) =
    let rest = after_prefix start s in if code p == code c then rest else none

abbrev pub or_itself : String → Option String → String
or_itself s none = s
or_itself s (some rest) = rest

unfoldable pub trim_prefix : String → String → String
unfolding after_prefix
trim_prefix start s = or_itself s (after_prefix start s)

abbrev pub in_key : Char → Option (String × String) → Option (String × String)
in_key c none = none
in_key c (some (key, value)) = some (Native.String.◌∷◌ c key, value)

-- What stands before the first such character and behind it, if there is one.
unfoldable pub cut_at : ℕ → String → Option (String × String)
cut_at q Native.String.[] = none
cut_at q (Native.String.◌∷◌ c s) =
    let rest = cut_at q s in if code c == q then some ("", s) else in_key c rest

-- Whether the last character is this one.
unfoldable pub ends_with : ℕ → String → Bool
ends_with q Native.String.[] = false
ends_with q (Native.String.◌∷◌ c s) =
    let later = ends_with q s in if is_empty s then code c == q else later

unfoldable pub without_last : String → String
without_last Native.String.[] = ""
without_last (Native.String.◌∷◌ c s) =
    let rest = without_last s in if is_empty s then "" else Native.String.◌∷◌ c rest

abbrev pub is_quote : ℕ → Bool
is_quote c = c == 34 || c == 39

-- The value without the quotes around it.
unfoldable pub unquote : String → String
unfolding ends_with without_last
unquote Native.String.[] = ""
unquote (Native.String.◌∷◌ c s) =
    if is_quote (code c) && ends_with (code c) s then without_last s else Native.String.◌∷◌ c s

abbrev pub is_comment : String → Bool
is_comment Native.String.[] = false
is_comment (Native.String.◌∷◌ c s) = code c == b'#'

abbrev pub entry_of : Option (String × String) → Option String
entry_of none = none
entry_of (some (key, value)) =
    if is_empty key then none else some (concat key (concat "=" (unquote value)))

-- The loop body of `ParseEnvFile`: the entry that a line gives, if any.
unfoldable pub parse_line : String → Option String
unfolding trim_space trim_prefix cut_at unquote concat
parse_line text =
    let line = trim_space text in
    if is_empty line || is_comment line
    then none
    else entry_of (cut_at b'=' (trim_prefix "export " line))

abbrev pub with_entry : Option String → List String → List String
with_entry none entries = entries
with_entry (some e) entries = e ∷ entries

unfoldable pub parse_lines : List String → List String
unfolding parse_line
parse_lines [] = []
parse_lines (line ∷ lines) = with_entry (parse_line line) (parse_lines lines)

-- What opening and reading a file comes to: it does not open, or it has this text, behind which
-- reading fails if there is an error. The text is of UTF-8.
pub data FileRead : Type 0 where
  not_opened : String → FileRead
  has_text : String → Option String → FileRead

-- How many bytes a character has in UTF-8.
abbrev pub byte_count : ℕ → ℕ
byte_count c = if ltb c 128 then 1 else if ltb c 2048 then 2 else if ltb c 65536 then 3 else 4

unfoldable pub byte_length : String → ℕ
byte_length Native.String.[] = 0
byte_length (Native.String.◌∷◌ c s) = byte_count (code c) + byte_length s

abbrev pub onto_line : Char → List String → List String
onto_line c [] = Native.String.◌∷◌ c "" ∷ []
onto_line c (line ∷ lines) = Native.String.◌∷◌ c line ∷ lines

-- What stands between the line breaks; the last line may have none behind it.
unfoldable pub break_lines : String → List String
break_lines Native.String.[] = []
break_lines (Native.String.◌∷◌ c s) =
    let lines = break_lines s in if code c == b'\n' then "" ∷ lines else onto_line c lines

-- `dropCR` of the scanner.
abbrev pub drop_cr : String → String
drop_cr line = if ends_with 13 line then without_last line else line

-- The size that the program gives the buffer of the scanner, in bytes. A line has to fit into it with one
-- byte to spare, for its line break or for the end of the text to be seen.
abbrev pub max_token_size : ℕ
max_token_size = 1_048_576

abbrev pub fits_buffer : String → Bool
fits_buffer line = ltb (byte_length line) max_token_size

-- The lines of `scanner.Scan`, and `scanner.Err`.
pub record Scanned : Type 0 where
  pub lines : List String
  pub error : Option String

unfoldable pub scan : Option String → List String → Scanned
unfolding ends_with without_last byte_length
scan read_error [] = record { lines = []; error = read_error }
scan read_error (line ∷ more) =
    let rest = scan read_error more in
    if fits_buffer line
    then record { lines = drop_cr line ∷ rest.lines; error = rest.error }
    else record { lines = []; error = some "bufio.Scanner: token too long" }

pub data EnvError : Type 0 where
  open_env_file : String → EnvError
  read_env_file : String → EnvError
  inspect_container : String → EnvError

pub data Result (A : Type 0) : Type 0 where
  ok : A → Result A
  err : EnvError → Result A

-- After the loop.
abbrev pub after_scan : Scanned → Option String → Result (List String)
after_scan scanned none = ok (parse_lines scanned.lines)
after_scan scanned (some e) = err (read_env_file e)

unfoldable pub parse_env_file : FileRead → Result (List String)
unfolding parse_lines scan break_lines
parse_env_file (not_opened e) = err (open_env_file e)
parse_env_file (has_text text read_error) =
    let scanned = scan read_error (break_lines text) in after_scan scanned scanned.error

-- What Docker tells of a container: its variables, `none` without a configuration.
pub data Inspected : Type 0 where
  not_inspected : String → Inspected
  inspected : Option (List String) → Inspected

unfoldable pub resolve_env_from : Inspected → Result (List String)
resolve_env_from (not_inspected e) = err (inspect_container e)
resolve_env_from (inspected none) = ok []
resolve_env_from (inspected (some env)) = ok env

abbrev pub append_ok : Result (List String) → Result (List String) → Result (List String)
append_ok (err e) later = err e
append_ok (ok vars) (err e) = err e
append_ok (ok vars) (ok more) = ok (vars ++ more)

-- The two loops of `ResolveJobEnvironment`, which end at the first error.
unfoldable pub read_all : {A : Type 0} → (A → Result (List String)) → List A → Result (List String)
read_all read [] = ok []
read_all read (x ∷ xs) = append_ok (read x) (read_all read xs)

abbrev pub merge_ok :
    Result (List String) → Result (List String) → List String → Result (List String)
merge_ok (err e) from explicit = err e
merge_ok (ok files) (err e) explicit = err e
merge_ok (ok files) (ok from) explicit = ok (merge_environments files from explicit)

-- Without a provider the containers are passed over.
unfoldable pub resolve_job_environment :
    Bool → List FileRead → List Inspected → List String → Result (List String)
unfolding read_all parse_env_file resolve_env_from merge_environments
resolve_job_environment has_provider env_files env_from explicit =
    merge_ok (read_all parse_env_file env_files)
      (if has_provider then read_all resolve_env_from env_from else ok []) explicit
