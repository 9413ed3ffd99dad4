-- ===== src/Common/Text.antt =====
-- Texts as keys: the Boolean test, and what `ground` needs of it.
use Prim.Native.Nat.{ℕ}
use Prim.Native.Char.{Char}
use Prim.Native.String.compare
use Prim.Native.String.append
use Prim.Native.String.{String, ◌++◌, len, find, slice, compare}
use mathlib.Core.Option.{Option, none, some}
use ofelia.Common.Tests.{ltb, if◌then◌else◌}
use mathlib.Core.Path.{◌≡◌}
use mathlib.Core.Logic.{◌↔◌}
use mathlib.Core.Bool.{Bool, true, false}
use native.Mathlib.Omega.{arith}
use text.Mathlib.Text
use text.Mathlib.TextEquality
use text.Mathlib.TextPositions

infix 50 ◌is◌
-- Go's `==` on two strings.
unfoldable pub ◌is◌ : String → String → Bool
s is t = Text.◌==◌ s t

pub is_iff : (s t : String) → ((s is t) ≡ true) ↔ (s ≡ t)
unfolding ◌is◌
is_iff s t = TextEquality.eq_iff s t

pub is_refl : (s : String) → (s is s) ≡ true
unfolding ◌is◌
is_refl s = TextPositions.eq_refl s

-- `s` and behind it `t`.
unfoldable pub concat : String → String → String
concat s t = s ++ t

pub concat-nil : (t : String) → concat "" t ≡ t
unfolding concat
concat-nil t = append.nil t

pub concat-cons : (c : Char) (s t : String) → concat (String.◌∷◌ c s) t ≡ String.◌∷◌ c (concat s t)
unfolding concat
concat-cons c s t = append.cons c s t

-- `strings.IndexByte(s, b)` for the text `b` of one byte, `none` being -1.
unfoldable pub index_byte : String → String → Option ℕ
index_byte s b = if ltb (find s b) (len s) then some (find s b) else none

-- `s[:i]`
unfoldable pub prefix : String → ℕ → String
prefix s i = slice s 0 i

-- `strings.Compare(s, t) < 0`
unfoldable pub text_lt : String → String → Bool
text_lt s t = Text.is_lt (compare s t)

-- If `s` is not before `t`, nor `t` before `u`, then `s` is not before `u`.
pub text_lt_cotrans :
    (s t u : String) → text_lt s t ≡ false → text_lt t u ≡ false → text_lt s u ≡ false
unfolding text_lt
text_lt_cotrans s String.[] String.[] h k = h
text_lt_cotrans String.[] String.[] (String.◌∷◌ c u) h k = k
text_lt_cotrans (String.◌∷◌ a s) String.[] (String.◌∷◌ c u) h k =
    ground (arith, compare.nil-cons c u)
text_lt_cotrans String.[] (String.◌∷◌ b t) u h k = ground (arith, compare.nil-cons b t)
text_lt_cotrans (String.◌∷◌ a s) (String.◌∷◌ b t) String.[] h k =
    ground (arith, compare.cons-nil a s)
text_lt_cotrans (String.◌∷◌ a s) (String.◌∷◌ b t) (String.◌∷◌ c u) h k = ground (
  arith,
  text_lt_cotrans s t u,
  compare.cons-cons a b s t,
  compare.cons-cons b c t u,
  compare.cons-cons a c s u,
)

pub text_lt_asymm : (s t : String) → text_lt s t ≡ true → text_lt t s ≡ false
unfolding text_lt
text_lt_asymm String.[] String.[] h = ground (arith, compare.nil-nil)
text_lt_asymm String.[] (String.◌∷◌ d t) h = ground (arith, compare.cons-nil d t)
text_lt_asymm (String.◌∷◌ c s) String.[] h = ground (arith, compare.cons-nil c s)
text_lt_asymm (String.◌∷◌ c s) (String.◌∷◌ d t) h =
    ground (arith, text_lt_asymm s t, compare.cons-cons c d s t, compare.cons-cons d c t s)
