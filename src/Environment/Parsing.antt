-- ===== src/Environment/Parsing.antt =====
-- That a line with a quoted assignment is read as it was written.
use Prim.Native.Char.{Char, code}
use Prim.Native.String as Native
use ofelia.Common.{
  String, Bool, true, false, not, ◌≡◌, refl, ap, ◌∙◌, ◌&&◌, ◌||◌, Option, none, some, List, [], ◌∷◌,
  ◌==◌, if◌then◌else◌, if-true, if-false, arith, concat, concat-cons, inl, inr, Bool-cases, map,
}
use ofelia.Environment.Files.{
  is_space, is_empty, trim_left, trim_right, trim_space, after_prefix, or_itself, trim_prefix,
  cut_at, is_quote, is_comment, entry_of, parse_line, with_entry, parse_lines,
}
use ofelia.Environment.Texts.{
  only, quoted, lacks, is_there, is_empty-concat, is_empty-end, trim_right-concat, trim_right-only,
  cut_at-key, unquote-quoted, after_prefix-key, after_prefix-concat,
}

-- Whether a key is read as it is written: it is not empty, begins with neither white space nor `#`,
-- has no `=`, and does not begin with "export ".
abbrev pub begins_plain : String → Bool
begins_plain Native.String.[] = false
begins_plain (Native.String.◌∷◌ c s) = not (is_space (code c)) && not (code c == b'#')

abbrev pub is_plain_key : String → Bool
is_plain_key key = begins_plain key && lacks b'=' key && not (is_there (after_prefix "export " key))

pub record Assignment : Type 0 where
  pub exported : Bool
  pub quote : Char
  pub key : String
  pub value : String

-- The line of a file, and the entry of the environment.
abbrev pub written : Assignment → String
written a = concat a.key (concat "=" (quoted a.quote a.value))

abbrev pub line_of : Assignment → String
line_of a = if a.exported then concat "export " (written a) else written a

abbrev pub env_entry : Assignment → String
env_entry a = concat a.key (concat "=" a.value)

abbrev pub is_plain : Assignment → Bool
is_plain a = is_quote (code a.quote) && is_plain_key a.key

quote-dark : (q : Char) → is_quote (code q) ≡ true → is_space (code q) ≡ false
unfolding is_space
quote-dark q h = ground arith

trim_right-cons :
    (c : Char) (r : String)
    → is_empty r ≡ false
    → trim_right r ≡ r
    → trim_right (Native.String.◌∷◌ c r) ≡ Native.String.◌∷◌ c r
unfolding trim_right
trim_right-cons c r filled same =
    if-false
      (ap (λ t. is_empty t && is_space (code c)) same ∙ ap (λ b. b && is_space (code c)) filled) _ _
    ∙ ap (λ t. Native.String.◌∷◌ c t) same

trim_right-written : (a : Assignment) → is_plain a ≡ true → trim_right (written a) ≡ written a
trim_right-written a h =
    let q = a.quote in
    let end = trim_right-only q (quote-dark q (ground arith)) in
    let inside = trim_right-concat a.value (only q) refl end in
    let value = trim_right-cons q (concat a.value (only q)) (is_empty-end a.value q) inside in
    trim_right-concat a.key (concat "=" (quoted q a.value))
      (is_empty-concat "=" (quoted q a.value) refl)
      (trim_right-concat "=" (quoted q a.value) refl value)

abbrev begins_dark : String → Bool
begins_dark Native.String.[] = false
begins_dark (Native.String.◌∷◌ c s) = not (is_space (code c))

trim_left-concat : (s t : String) → begins_dark s ≡ true → trim_left (concat s t) ≡ concat s t
unfolding trim_left
trim_left-concat Native.String.[] t h = absurd (ground arith)
trim_left-concat (Native.String.◌∷◌ c s) t h =
    rw (concat-cons c s t) (if-false {b = is_space (code c)} (ground arith) _ _)

not_comment-concat :
    (s t : String)
    → begins_plain s ≡ true
    → (is_empty (concat s t) || is_comment (concat s t)) ≡ false
not_comment-concat Native.String.[] t h = absurd (ground arith)
not_comment-concat (Native.String.◌∷◌ c s) t h = rw (concat-cons c s t) (ground arith)

plain-dark : (s : String) → begins_plain s ≡ true → begins_dark s ≡ true
plain-dark Native.String.[] h = h
plain-dark (Native.String.◌∷◌ c s) h = ground arith

plain-filled : (s : String) → begins_plain s ≡ true → is_empty s ≡ false
plain-filled Native.String.[] h = absurd (ground arith)
plain-filled (Native.String.◌∷◌ c s) h = refl

absent : (o : Option String) → not (is_there o) ≡ true → o ≡ none
absent none h = refl
absent (some s) h = absurd (ground arith)

export_plain : begins_plain "export " ≡ true
unfolding is_space
export_plain = refl

export_key : lacks b'=' "export " ≡ true
unfolding lacks
export_key = refl

-- A line that begins plainly and is, without "export ", the assignment.
parse_line-concat :
    (s t : String) (a : Assignment)
    → begins_plain s ≡ true
    → trim_right (concat s t) ≡ concat s t
    → trim_prefix "export " (concat s t) ≡ written a
    → is_plain a ≡ true
    → parse_line (concat s t) ≡ some (env_entry a)
unfolding parse_line trim_space
parse_line-concat s t a plain right rest h =
    let line = concat s t in
    let trimmed = ap trim_right (trim_left-concat s t (plain-dark s plain)) ∙ right in
    let parse : String → Option String = λ l.
      if is_empty l || is_comment l
      then none
      else entry_of (cut_at b'=' (trim_prefix "export " l)) in
    ap parse trimmed
    ∙ if-false (not_comment-concat s t plain) _ _
    ∙ ap (λ l. entry_of (cut_at b'=' l)) rest
    ∙ ap entry_of (cut_at-key a.key (quoted a.quote a.value) (ground arith))
    ∙ if-false (plain-filled a.key (ground arith)) _ _
    ∙ ap (λ v. some (concat a.key (concat "=" v))) (unquote-quoted a.quote a.value (ground arith))

parse_line-line_of :
    (a : Assignment) → is_plain a ≡ true → parse_line (line_of a) ≡ some (env_entry a)
unfolding trim_prefix
parse_line-line_of a h = elim (Bool-cases a.exported) [
  | inl e ↦
      let right =
        trim_right-concat "export " (written a)
          (is_empty-concat a.key (concat "=" (quoted a.quote a.value))
            (is_empty-concat "=" (quoted a.quote a.value) refl))
          (trim_right-written a h) in
      ap parse_line (if-true e _ _)
      ∙ parse_line-concat "export " (written a) a export_plain right
          (ap (or_itself (concat "export " (written a)))
            (after_prefix-concat "export " (written a)))
          h
  | inr e ↦
      let no_export : after_prefix "export " a.key ≡ none =
        absent (after_prefix "export " a.key) (ground arith) in
      let unprefixed : after_prefix "export " (written a) ≡ none =
        after_prefix-key "export " a.key (quoted a.quote a.value) export_key no_export in
      ap parse_line (if-false e _ _)
      ∙ parse_line-concat a.key (concat "=" (quoted a.quote a.value)) a (ground arith)
          (trim_right-written a h) (ap (or_itself (written a)) unprefixed) h
]

unfoldable pub all_plain : List Assignment → Bool
all_plain [] = true
all_plain (a ∷ xs) = is_plain a && all_plain xs

pub parse_lines-lines :
    (xs : List Assignment) → all_plain xs ≡ true → parse_lines (map line_of xs) ≡ map env_entry xs
unfolding parse_lines all_plain
parse_lines-lines [] h = refl
parse_lines-lines (a ∷ xs) h =
    ap (λ o. with_entry o (parse_lines (map line_of xs))) (parse_line-line_of a (ground arith))
    ∙ ap (λ es. env_entry a ∷ es) (parse_lines-lines xs (ground arith))
