-- ===== src/Common/Int.antt =====
-- Go's signed `int`, as far as the program compares it: signs and orders.
use Prim.Native.Nat.{ℕ}
use mathlib.Core.Path.{◌≡◌, refl, ap}
use mathlib.Core.Bool.{Bool, true, false}
use native.Mathlib.Omega.{arith}
use ofelia.Common.Tests.{ltb, ◌==◌}

-- `negsuc n` is -(n + 1).
pub data ℤ : Type 0 where
  pos : ℕ → ℤ
  negsuc : ℕ → ℤ

abbrev pub ltb_ℤ : ℤ → ℤ → Bool
ltb_ℤ (pos a) (pos b) = ltb a b
ltb_ℤ (pos a) (negsuc b) = false
ltb_ℤ (negsuc a) (pos b) = true
ltb_ℤ (negsuc a) (negsuc b) = ltb b a

-- The value of a positive integer, and 0 for the others.
abbrev pub pos_part : ℤ → ℕ
pos_part (pos n) = n
pos_part (negsuc n) = 0

abbrev pub eq_ℤ : ℤ → ℤ → Bool
eq_ℤ (pos a) (pos b) = a == b
eq_ℤ (pos a) (negsuc b) = false
eq_ℤ (negsuc a) (pos b) = false
eq_ℤ (negsuc a) (negsuc b) = a == b

pub eq_ℤ-refl : (a : ℤ) → eq_ℤ a a ≡ true
eq_ℤ-refl (pos a) = ground arith
eq_ℤ-refl (negsuc a) = ground arith

pub eq_ℤ-eq : (a b : ℤ) → eq_ℤ a b ≡ true → a ≡ b
eq_ℤ-eq (pos a) (pos b) h = ap pos (ground arith)
eq_ℤ-eq (pos a) (negsuc b) h = ground arith
eq_ℤ-eq (negsuc a) (pos b) h = ground arith
eq_ℤ-eq (negsuc a) (negsuc b) h = ap negsuc (ground arith)

pub ltb_ℤ-irrefl : (a : ℤ) → ltb_ℤ a a ≡ false
ltb_ℤ-irrefl (pos a) = ground arith
ltb_ℤ-irrefl (negsuc a) = ground arith

pub ltb_ℤ_asymm : (a b : ℤ) → ltb_ℤ a b ≡ true → ltb_ℤ b a ≡ false
ltb_ℤ_asymm (pos a) (pos b) h = ground arith
ltb_ℤ_asymm (pos a) (negsuc b) h = ground arith
ltb_ℤ_asymm (negsuc a) (pos b) h = refl
ltb_ℤ_asymm (negsuc a) (negsuc b) h = ground arith

pub ltb_ℤ_cotrans : (x q p : ℤ) → ltb_ℤ x q ≡ false → ltb_ℤ q p ≡ false → ltb_ℤ x p ≡ false
ltb_ℤ_cotrans (pos x) (pos q) (pos p) h k = ground arith
ltb_ℤ_cotrans (pos x) (pos q) (negsuc p) h k = refl
ltb_ℤ_cotrans (pos x) (negsuc q) (pos p) h k = ground arith
ltb_ℤ_cotrans (pos x) (negsuc q) (negsuc p) h k = refl
ltb_ℤ_cotrans (negsuc x) (pos q) (pos p) h k = ground arith
ltb_ℤ_cotrans (negsuc x) (pos q) (negsuc p) h k = ground arith
ltb_ℤ_cotrans (negsuc x) (negsuc q) (pos p) h k = ground arith
ltb_ℤ_cotrans (negsuc x) (negsuc q) (negsuc p) h k = ground arith

pub ltb_ℤ_connex : (p q : ℤ) → ltb_ℤ q p ≡ false → eq_ℤ p q ≡ false → ltb_ℤ p q ≡ true
ltb_ℤ_connex (pos p) (pos q) h k = ground arith
ltb_ℤ_connex (pos p) (negsuc q) h k = ground arith
ltb_ℤ_connex (negsuc p) (pos q) h k = refl
ltb_ℤ_connex (negsuc p) (negsuc q) h k = ground arith
