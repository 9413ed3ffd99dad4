-- ===== src/Annotations/Merging.antt =====
-- Which value a key has in the merged annotations.
use ofelia.Common.{
  String, true, Option, none, some, List, [], ◌∷◌, ◌≡◌, refl, ap, ◌∙◌, ◌is◌, is_iff, if◌then◌else◌,
  arith, lookup, assign, has_key, has_distinct, lookup-assign, lookup-absent, has_distinct-assign,
}
use ofelia.Environment.Files.{is_empty, trim_space, cut_at}
use ofelia.Annotations.{
  annotate, annotate_all, copy_into, get_default_annotations, merge_annotations, Surroundings,
}

-- The first of two values that is there.
abbrev pub or_else : Option String → Option String → Option String
or_else none v = v
or_else (some w) v = some w

-- The value that an annotation has for the key, if it is one for it.
abbrev value_at : String → Option (String × String) → Option String
value_at k none = none
value_at k (some (key, value)) =
    if is_empty (trim_space key) then none else if trim_space key is k then some value else none

-- The value of the last annotation for the key.
unfoldable pub last_annotation : String → List String → Option String
last_annotation k [] = none
last_annotation k (ann ∷ annotations) =
    or_else (last_annotation k annotations) (value_at k (cut_at b'=' ann))

lookup-annotate :
    (k : String) (entry : Option (String × String)) (result : List (String × String))
    → lookup k (annotate entry result) ≡ or_else (value_at k entry) (lookup k result)
lookup-annotate k none result = refl
lookup-annotate k (some (key, value)) result =
    ground (arith, lookup-assign (trim_space key) k value result)

or_else_assoc : (u v w : Option String) → or_else u (or_else v w) ≡ or_else (or_else u v) w
or_else_assoc none v w = refl
or_else_assoc (some x) v w = refl

lookup-annotate_all :
    (k : String) (annotations : List String) (result : List (String × String))
    → lookup k (annotate_all annotations result)
      ≡ or_else (last_annotation k annotations) (lookup k result)
unfolding annotate_all last_annotation
lookup-annotate_all k [] result = refl
lookup-annotate_all k (ann ∷ annotations) result =
    lookup-annotate_all k annotations (annotate (cut_at b'=' ann) result)
    ∙ ap (or_else (last_annotation k annotations)) (lookup-annotate k (cut_at b'=' ann) result)
    ∙ or_else_assoc (last_annotation k annotations) (value_at k (cut_at b'=' ann)) (lookup k result)

annotate-has_distinct :
    (entry : Option (String × String)) (result : List (String × String))
    → has_distinct result ≡ true
    → has_distinct (annotate entry result) ≡ true
annotate-has_distinct none result h = h
annotate-has_distinct (some (key, value)) result h =
    ground (arith, has_distinct-assign (trim_space key) value result h)

annotate_all-has_distinct :
    (annotations : List String) (result : List (String × String))
    → has_distinct result ≡ true
    → has_distinct (annotate_all annotations result) ≡ true
unfolding annotate_all
annotate_all-has_distinct [] result h = h
annotate_all-has_distinct (ann ∷ annotations) result h =
    annotate_all-has_distinct annotations (annotate (cut_at b'=' ann) result)
      (annotate-has_distinct (cut_at b'=' ann) result h)

lookup-copy_into :
    (k : String) (result entries : List (String × String))
    → has_distinct entries ≡ true
    → lookup k (copy_into result entries) ≡ or_else (lookup k entries) (lookup k result)
unfolding copy_into lookup has_distinct
lookup-copy_into k result [] h = refl
lookup-copy_into k result ((key, value) ∷ entries) h = ground (
  arith,
  lookup-copy_into k (assign key value result) entries,
  lookup-assign key k value result,
  lookup-absent k entries,
  is_iff key k,
  ap (λ (j : String). has_key j entries),
)

defaults-has_distinct :
    (name kind : String) (around : Surroundings)
    → has_distinct (get_default_annotations name kind around) ≡ true
unfolding get_default_annotations has_distinct has_key ◌is◌
defaults-has_distinct name kind around = refl

-- A key has the value of the last annotation of the user for it, and else its default.
pub merge_annotations-last :
    (k name kind : String) (around : Surroundings) (annotations : List String)
    → lookup k (merge_annotations annotations (get_default_annotations name kind around))
      ≡ or_else
          (last_annotation k annotations)
          (lookup k (get_default_annotations name kind around))
unfolding merge_annotations lookup has_distinct
merge_annotations-last k name kind around annotations =
    let defaults = get_default_annotations name kind around in
    let parsed = annotate_all annotations [] in
    ground (
      arith,
      lookup-copy_into k (copy_into [] defaults) parsed
          (annotate_all-has_distinct annotations [] refl),
      lookup-copy_into k [] defaults (defaults-has_distinct name kind around),
      lookup-annotate_all k annotations [],
    )
