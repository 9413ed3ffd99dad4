-- ===== src/ServiceJob/Printing.antt =====
-- Volumes as they are written, and the mounts that they are read as.
use Prim.Native.Char.{Char, code}
use Prim.Native.String as Native
use ofelia.Common.{
  ℕ, String, Bool, true, not, ◌&&◌, ◌||◌, some, List, [], ◌∷◌, ◌==◌, ◌≡◌, refl, ap, ◌∙◌,
  if◌then◌else◌, if-true, if-false, arith, concat, concat-nil, concat-cons,
}
use ofelia.Environment.Files.{is_empty, cut_at}
use ofelia.Environment.Texts.{lacks, behind, cut_at-none, cut_at-first}
use ofelia.ServiceJob.Mounts.{
  MountType, bind, volume, has_option, begins_with, ServiceMount, onto_first, split_text, to_mount,
  with_options, with_target, parse_volume_mount,
}

-- A volume with its options, if it has any.
pub record Volume : Type 0 where
  pub source : String
  pub target : String
  pub options : List String

-- The parts with a comma between them.
unfoldable pub joined : String → List String → String
unfolding concat
joined part [] = part
joined part (p ∷ parts) = concat part (concat "," (joined p parts))

abbrev pub options_text : String → List String → String
options_text target [] = target
options_text target (o ∷ options) = concat target (concat ":" (joined o options))

abbrev pub printed : Volume → String
printed v = concat v.source (concat ":" (options_text v.target v.options))

unfoldable pub all_lack : ℕ → List String → Bool
unfolding lacks
all_lack q [] = true
all_lack q (p ∷ parts) = lacks q p && all_lack q parts

-- Source and target are there, without a colon, and the options have no comma.
abbrev pub is_printable : Volume → Bool
is_printable v =
    not (is_empty v.source)
    && lacks b':' v.source
    && not (is_empty v.target)
    && lacks b':' v.target
    && all_lack b',' v.options

split_text-none : (q : ℕ) (s : String) → lacks q s ≡ true → split_text q s ≡ s ∷ []
unfolding split_text lacks
split_text-none q Native.String.[] h = refl
split_text-none q (Native.String.◌∷◌ c s) h =
    if-false {b = code c == q} (ground arith) _ _
    ∙ ap (onto_first c) (split_text-none q s (ground arith))

split_text-first :
    (q : Char) (s t : String)
    → lacks (code q) s ≡ true
    → split_text (code q) (concat s (behind q t)) ≡ s ∷ split_text (code q) t
unfolding split_text lacks
split_text-first q Native.String.[] t h =
    rw (concat-nil (behind q t)) (if-true {b = code q == code q} (ground arith) _ _)
split_text-first q (Native.String.◌∷◌ c s) t h = rw (concat-cons c s (behind q t)) (
    if-false {b = code c == code q} (ground arith) _ _
    ∙ ap (onto_first c) (split_text-first q s t (ground arith)))

comma_first : (s : String) → concat "," s ≡ behind "," s
comma_first s = concat-cons "," "" s ∙ ap (behind ",") (concat-nil s)

colon_first : (s : String) → concat ":" s ≡ behind ":" s
colon_first s = concat-cons ":" "" s ∙ ap (behind ":") (concat-nil s)

split_text-joined :
    (part : String) (parts : List String)
    → lacks b',' part ≡ true
    → all_lack b',' parts ≡ true
    → split_text b',' (joined part parts) ≡ part ∷ parts
unfolding joined all_lack
split_text-joined part [] h k = split_text-none b',' part h
split_text-joined part (p ∷ parts) h k = rw (comma_first (joined p parts)) (
    split_text-first "," part (joined p parts) h
    ∙ ap (λ (l : List String). part ∷ l) (split_text-joined p parts (ground arith) (ground arith)))

with_options-text :
    (source target : String) (options : List String)
    → lacks b':' target ≡ true
    → all_lack b',' options ≡ true
    → with_options source (options_text target options) (cut_at b':' (options_text target options))
      ≡ to_mount source target options
unfolding all_lack
with_options-text source target [] h k = ap (with_options source target) (cut_at-none b':' target h)
with_options-text source target (o ∷ options) h k =
    let text = joined o options in
    rw (colon_first text) (
      ap (with_options source (concat target (behind ":" text))) (cut_at-first ":" target text h)
      ∙ ap (to_mount source target) (split_text-joined o options (ground arith) (ground arith)))

parse_volume_mount-to_mount :
    (v : Volume)
    → is_printable v ≡ true
    → parse_volume_mount (printed v) ≡ to_mount v.source v.target v.options
unfolding parse_volume_mount
parse_volume_mount-to_mount v h =
    let rest = options_text v.target v.options in
    rw (colon_first rest) (
      ap with_target (cut_at-first ":" v.source rest (ground arith))
      ∙ with_options-text v.source v.target v.options (ground arith) (ground arith))

-- Whether one of the options is `ro`, and what the source says of the type.
abbrev pub mount_of : Volume → ServiceMount
mount_of v = record {
  kind = if begins_with b'/' v.source || begins_with b'.' v.source then bind else volume;
  source = v.source;
  target = v.target;
  read_only = has_option "ro" v.options;
}

-- A volume that is written with its options between commas is read as the mount of these.
pub parse_volume_mount-printed :
    (v : Volume) → is_printable v ≡ true → parse_volume_mount (printed v) ≡ some (mount_of v)
unfolding to_mount
parse_volume_mount-printed v h =
    parse_volume_mount-to_mount v h
    ∙ if-false {b = is_empty v.source || is_empty v.target} (ground arith) _ _
    ∙ ap
        (λ (k : MountType). some (record {
          kind = k;
          source = v.source;
          target = v.target;
          read_only = has_option "ro" v.options;
        }))
        (ground arith)
