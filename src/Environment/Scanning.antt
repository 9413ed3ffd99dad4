-- ===== src/Environment/Scanning.antt =====
-- That a file of quoted assignments is read as they were written.
use Prim.Native.Char.{code}
use Prim.Native.String as Native
use ofelia.Common.{
  ℕ, String, Bool, true, false, ◌≡◌, refl, ap, ◌∙◌, ◌&&◌, none, List, [], ◌∷◌, ◌==◌, if-true,
  if-false, arith, concat, concat-nil, concat-cons, inl, inr, Bool-cases, map,
}
use ofelia.Environment.Files.{
  is_empty, is_quote, ends_with, onto_line, break_lines, drop_cr, fits_buffer, Scanned, scan,
  has_text, ok, after_scan, parse_env_file,
}
use ofelia.Environment.Texts.{only, quoted, lacks, behind, is_empty-concat, is_empty-end}
use ofelia.Environment.Parsing.{
  Assignment, written, line_of, env_entry, is_plain, all_plain, parse_lines-lines,
}

-- Lines as they stand in a file, each with a line break behind it.
unfoldable pub text_of : List String → String
unfolding concat
text_of [] = ""
text_of (line ∷ lines) = concat line (concat "\n" (text_of lines))

break_first : (s : String) → concat "\n" s ≡ behind "\n" s
break_first s = concat-cons "\n" "" s ∙ ap (behind "\n") (concat-nil s)

break_lines-first :
    (line rest : String)
    → lacks b'\n' line ≡ true
    → break_lines (concat line (behind "\n" rest)) ≡ line ∷ break_lines rest
unfolding break_lines lacks
break_lines-first Native.String.[] rest h = rw (concat-nil (behind "\n" rest)) refl
break_lines-first (Native.String.◌∷◌ c line) rest h = rw (concat-cons c line (behind "\n" rest)) (
    if-false {b = code c == b'\n'} (ground arith) _ _
    ∙ ap (onto_line c) (break_lines-first line rest (ground arith)))

lacks-concat : (q : ℕ) (s t : String) → lacks q (concat s t) ≡ (lacks q s && lacks q t)
unfolding lacks
lacks-concat q Native.String.[] t = ap (lacks q) (concat-nil t)
lacks-concat q (Native.String.◌∷◌ c s) t =
    ap (lacks q) (concat-cons c s t) ∙ ground (arith, lacks-concat q s t)

ends_with-concat :
    (q : ℕ) (s t : String) → is_empty t ≡ false → ends_with q (concat s t) ≡ ends_with q t
unfolding ends_with
ends_with-concat q Native.String.[] t h = ap (ends_with q) (concat-nil t)
ends_with-concat q (Native.String.◌∷◌ c s) t h =
    ap (ends_with q) (concat-cons c s t)
    ∙ if-false (is_empty-concat s t h) _ _
    ∙ ends_with-concat q s t h

-- Whether neither key nor value has a line break, and the line fits into the buffer.
abbrev pub is_scannable : Assignment → Bool
is_scannable a = lacks b'\n' a.key && lacks b'\n' a.value && fits_buffer (line_of a)

lacks-written :
    (a : Assignment)
    → is_quote (code a.quote) ≡ true
    → lacks b'\n' a.key ≡ true
    → lacks b'\n' a.value ≡ true
    → lacks b'\n' (written a) ≡ true
unfolding lacks
lacks-written a q k v = ground (
  arith,
  lacks-concat b'\n' a.key (concat "=" (quoted a.quote a.value)),
  lacks-concat b'\n' "=" (quoted a.quote a.value),
  lacks-concat b'\n' a.value (only a.quote),
)

lacks-line_of :
    (a : Assignment) → is_plain a ≡ true → is_scannable a ≡ true → lacks b'\n' (line_of a) ≡ true
unfolding lacks
lacks-line_of a h k =
    let w = lacks-written a (ground arith) (ground arith) (ground arith) in
    elim (Bool-cases a.exported) [
      | inl e ↦ ap (lacks b'\n') (if-true e _ _) ∙ lacks-concat b'\n' "export " (written a) ∙ w
      | inr e ↦ ap (lacks b'\n') (if-false e _ _) ∙ w
    ]

ends_with-written :
    (a : Assignment) → is_quote (code a.quote) ≡ true → ends_with 13 (written a) ≡ false
unfolding ends_with
ends_with-written a h =
    let q = quoted a.quote a.value in
    ends_with-concat 13 a.key (concat "=" q) (is_empty-concat "=" q refl)
    ∙ ends_with-concat 13 "=" q refl
    ∙ if-false (is_empty-end a.value a.quote) _ _
    ∙ ends_with-concat 13 a.value (only a.quote) refl
    ∙ ground arith

drop_cr-line_of : (a : Assignment) → is_plain a ≡ true → drop_cr (line_of a) ≡ line_of a
drop_cr-line_of a h =
    let w = ends_with-written a (ground arith) in
    let filled =
      is_empty-concat a.key (concat "=" (quoted a.quote a.value))
        (is_empty-concat "=" (quoted a.quote a.value) refl) in
    if-false {b = ends_with 13 (line_of a)}
      (elim (Bool-cases a.exported) [
        | inl e ↦
            ap (ends_with 13) (if-true e _ _) ∙ ends_with-concat 13 "export " (written a) filled ∙ w
        | inr e ↦ ap (ends_with 13) (if-false e _ _) ∙ w
      ])
      _ _

unfoldable pub all_scannable : List Assignment → Bool
all_scannable [] = true
all_scannable (a ∷ xs) = is_scannable a && all_scannable xs

break_lines-text_of :
    (xs : List Assignment)
    → all_plain xs ≡ true
    → all_scannable xs ≡ true
    → break_lines (text_of (map line_of xs)) ≡ map line_of xs
unfolding break_lines text_of all_plain all_scannable
break_lines-text_of [] h k = refl
break_lines-text_of (a ∷ xs) h k =
    let rest = text_of (map line_of xs) in
    ap (λ t. break_lines (concat (line_of a) t)) (break_first rest)
    ∙ break_lines-first (line_of a) rest (lacks-line_of a (ground arith) (ground arith))
    ∙ ap (λ (l : List String). line_of a ∷ l) (break_lines-text_of xs (ground arith) (ground arith))

scan-lines :
    (xs : List Assignment)
    → all_plain xs ≡ true
    → all_scannable xs ≡ true
    → scan none (map line_of xs) ≡ record { lines = map line_of xs; error = none }
unfolding scan all_plain all_scannable
scan-lines [] h k = refl
scan-lines (a ∷ xs) h k =
    if-true {b = fits_buffer (line_of a)} (ground arith) _ _
    ∙ ap (λ (r : Scanned). record { lines = drop_cr (line_of a) ∷ r.lines; error = r.error })
        (scan-lines xs (ground arith) (ground arith))
    ∙ ap (λ (l : String). record { lines = l ∷ map line_of xs; error = none })
        (drop_cr-line_of a (ground arith))

-- A file of assignments, one on each line and each line with a line break behind it, each with its
-- value in single or double quotes and with or without "export ": where the keys are not empty, begin
-- with neither white space nor `#`, have no `=` and do not begin with "export ", no key or value has
-- a line break, and each line is shorter than 1 MiB, it is read as the entries, each with its value
-- as it was written.
pub parse_env_file-text_of :
    (xs : List Assignment)
    → all_plain xs ≡ true
    → all_scannable xs ≡ true
    → parse_env_file (has_text (text_of (map line_of xs)) none) ≡ ok (map env_entry xs)
unfolding parse_env_file
parse_env_file-text_of xs h k =
    ap (λ ls. after_scan (scan none ls) (scan none ls).error) (break_lines-text_of xs h k)
    ∙ ap (λ (r : Scanned). after_scan r r.error) (scan-lines xs h k)
    ∙ ap ok (parse_lines-lines xs h)
