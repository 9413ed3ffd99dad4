-- ===== src/ServiceJob/Mounts.antt =====
-- core/runservice.go, `parseVolumeMount`: the mount that a volume of a service job stands for.
use Prim.Native.Char.{Char, code}
use Prim.Native.String as Native
use ofelia.Common.{
  ℕ, String, Bool, false, not, ◌&&◌, ◌||◌, Option, none, some, List, [], ◌∷◌, ◌==◌, if◌then◌else◌,
  ◌is◌,
}
use ofelia.Environment.Files.{is_empty, cut_at}

pub data MountType : Type 0 where
  bind : MountType
  volume : MountType

pub record ServiceMount : Type 0 where
  pub kind : MountType
  pub source : String
  pub target : String
  pub read_only : Bool

abbrev pub onto_first : Char → List String → List String
onto_first c [] = Native.String.◌∷◌ c "" ∷ []
onto_first c (part ∷ parts) = Native.String.◌∷◌ c part ∷ parts

-- `strings.Split` at one character.
unfoldable pub split_text : ℕ → String → List String
split_text q Native.String.[] = "" ∷ []
split_text q (Native.String.◌∷◌ c s) =
    let parts = split_text q s in if code c == q then "" ∷ parts else onto_first c parts

unfoldable pub has_option : String → List String → Bool
unfolding ◌is◌
has_option option [] = false
has_option option (o ∷ options) = (o is option) || has_option option options

-- Whether the first character is this one.
abbrev pub begins_with : ℕ → String → Bool
begins_with q Native.String.[] = false
begins_with q (Native.String.◌∷◌ c s) = code c == q

-- `none` is the error for an invalid volume.
unfoldable pub to_mount : String → String → List String → Option ServiceMount
unfolding has_option
to_mount source target options =
    if is_empty source || is_empty target
    then none
    else some (record {
      kind =
          if not (begins_with b'/' source) && not (begins_with b'.' source) then volume else bind;
      source = source;
      target = target;
      read_only = has_option "ro" options;
    })

abbrev pub with_options : String → String → Option (String × String) → Option ServiceMount
with_options source rest none = to_mount source rest []
with_options source rest (some (target, options)) = to_mount source target (split_text b',' options)

abbrev pub with_target : Option (String × String) → Option ServiceMount
with_target none = none
with_target (some (source, rest)) = with_options source rest (cut_at b':' rest)

unfoldable pub parse_volume_mount : String → Option ServiceMount
unfolding cut_at split_text to_mount
parse_volume_mount text = with_target (cut_at b':' text)
