-- ===== src/Environment/Texts.antt =====
-- Texts that are put together: trimming, cutting and unquoting them.
use Prim.Native.Char.{Char, code}
use Prim.Native.String as Native
use ofelia.Common.{
  ℕ, String, Bool, true, false, not, ◌≡◌, refl, sym, ap, ◌∙◌, ◌&&◌, Option, none, some, ◌==◌,
  if-true, if-false, arith, concat, concat-nil, concat-cons, inl, inr, Bool-cases,
}
use ofelia.Environment.Files.{
  is_space, is_empty, trim_right, after_prefix, in_key, cut_at, ends_with, without_last, is_quote,
  unquote,
}

-- A text of one character.
abbrev pub only : Char → String
only c = Native.String.◌∷◌ c ""

pub is_empty-concat : (a s : String) → is_empty s ≡ false → is_empty (concat a s) ≡ false
is_empty-concat Native.String.[] s h = ap is_empty (concat-nil s) ∙ h
is_empty-concat (Native.String.◌∷◌ c a) s h = ap is_empty (concat-cons c a s)

pub is_empty-end : (s : String) (q : Char) → is_empty (concat s (only q)) ≡ false
is_empty-end s q = is_empty-concat s (only q) refl

pub trim_right-concat :
    (a s : String) → is_empty s ≡ false → trim_right s ≡ s → trim_right (concat a s) ≡ concat a s
unfolding trim_right
trim_right-concat Native.String.[] s h same = rw (concat-nil s) same
trim_right-concat (Native.String.◌∷◌ c a) s h same =
    let rest = trim_right-concat a s h same in
    let filled = ap is_empty rest ∙ is_empty-concat a s h in
    rw (concat-cons c a s) (
      if-false (ap (λ b. b && is_space (code c)) filled) _ _ ∙ ap (λ r. Native.String.◌∷◌ c r) rest)

pub trim_right-only : (q : Char) → is_space (code q) ≡ false → trim_right (only q) ≡ only q
unfolding trim_right
trim_right-only q h = if-false h _ _

-- Whether the text has no such character.
unfoldable pub lacks : ℕ → String → Bool
lacks q Native.String.[] = true
lacks q (Native.String.◌∷◌ c s) = not (code c == q) && lacks q s

pub cut_at-none : (q : ℕ) (s : String) → lacks q s ≡ true → cut_at q s ≡ none
unfolding cut_at lacks
cut_at-none q Native.String.[] h = refl
cut_at-none q (Native.String.◌∷◌ c s) h =
    if-false {b = code c == q} (ground arith) _ _ ∙ ap (in_key c) (cut_at-none q s (ground arith))

-- A text that begins with the separator.
abbrev pub behind : Char → String → String
behind q s = Native.String.◌∷◌ q s

pub cut_at-first :
    (q : Char) (s t : String)
    → lacks (code q) s ≡ true
    → cut_at (code q) (concat s (behind q t)) ≡ some (s, t)
unfolding cut_at lacks
cut_at-first q Native.String.[] t h =
    rw (concat-nil (behind q t)) (if-true {b = code q == code q} (ground arith) _ _)
cut_at-first q (Native.String.◌∷◌ c s) t h = rw (concat-cons c s (behind q t)) (
    if-false {b = code c == code q} (ground arith) _ _
    ∙ ap (in_key c) (cut_at-first q s t (ground arith)))

equals_first : (s : String) → concat "=" s ≡ behind "=" s
equals_first s = concat-cons "=" "" s ∙ ap (λ t. Native.String.◌∷◌ "=" t) (concat-nil s)

pub cut_at-key :
    (key value : String)
    → lacks b'=' key ≡ true
    → cut_at b'=' (concat key (concat "=" value)) ≡ some (key, value)
cut_at-key key value h = rw (equals_first value) (cut_at-first "=" key value h)

ends_with-end : (s : String) (q : Char) → ends_with (code q) (concat s (only q)) ≡ true
unfolding ends_with
ends_with-end Native.String.[] q = rw (concat-nil (only q)) (ground arith)
ends_with-end (Native.String.◌∷◌ c s) q =
    rw (concat-cons c s (only q)) (if-false (is_empty-end s q) _ _ ∙ ends_with-end s q)

without_last-end : (s : String) (q : Char) → without_last (concat s (only q)) ≡ s
unfolding without_last
without_last-end Native.String.[] q = rw (concat-nil (only q)) refl
without_last-end (Native.String.◌∷◌ c s) q =
    rw (concat-cons c s (only q))
      (if-false (is_empty-end s q) _ _ ∙ ap (λ r. Native.String.◌∷◌ c r) (without_last-end s q))

-- A text between two quotes.
abbrev pub quoted : Char → String → String
quoted q s = Native.String.◌∷◌ q (concat s (only q))

pub unquote-quoted : (q : Char) (s : String) → is_quote (code q) ≡ true → unquote (quoted q s) ≡ s
unfolding unquote
unquote-quoted q s h =
    if-true (ap (λ b. b && ends_with (code q) (concat s (only q))) h ∙ ends_with-end s q) _ _
    ∙ without_last-end s q

abbrev pub is_there : Option String → Bool
is_there none = false
is_there (some s) = true

-- A prefix without `=` of an assignment is a prefix of its key.
pub after_prefix-key :
    (start key rest : String)
    → lacks b'=' start ≡ true
    → after_prefix start key ≡ none
    → after_prefix start (concat key (concat "=" rest)) ≡ none
unfolding after_prefix lacks
after_prefix-key Native.String.[] key rest plain h = absurd (ground (arith, ap is_there h))
after_prefix-key (Native.String.◌∷◌ p start) Native.String.[] rest plain h =
    rw (concat-nil (concat "=" rest), equals_first rest)
      (if-false {b = code p == b'='} (ground arith) _ _)
after_prefix-key (Native.String.◌∷◌ p start) (Native.String.◌∷◌ c key) rest plain h =
    rw (concat-cons c key (concat "=" rest)) (elim (Bool-cases (code p == code c)) [
      | inl e ↦
          if-true e _ _ ∙ after_prefix-key start key rest (ground arith) (sym (if-true e _ _) ∙ h)
      | inr e ↦ if-false e _ _
    ])

pub after_prefix-concat : (start s : String) → after_prefix start (concat start s) ≡ some s
unfolding after_prefix
after_prefix-concat Native.String.[] s = ap some (concat-nil s)
after_prefix-concat (Native.String.◌∷◌ p start) s =
    rw (concat-cons p start s)
      (if-true {b = code p == code p} (ground arith) _ _ ∙ after_prefix-concat start s)
