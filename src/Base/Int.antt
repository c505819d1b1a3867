-- ===== src/Base/Int.antt =====
-- Python's `int` where it can be negative.
use Prim.Native.Nat.{ℕ, suc, ◌+◌, ◌-◌, min}
use native.Mathlib.Decide.{ℕ_discrete}
use slopsentinel.Base.Tests.{leb, if◌then◌else◌, Eq}

-- `negsuc n` is -(n + 1).
pub data ℤ : Type 0 where
  pos : ℕ → ℤ
  negsuc : ℕ → ℤ

abbrev pub pos_part : ℤ → ℕ
pos_part (pos n) = n
pos_part (negsuc n) = 0

abbrev pub neg_part : ℤ → ℕ
neg_part (pos n) = 0
neg_part (negsuc n) = suc n

-- a - b, as an integer.
abbrev pub sub_ℕ : ℕ → ℕ → ℤ
sub_ℕ a b = if leb b a then pos (a - b) else negsuc (b - a - 1)

infixl 65 ◌+ℤ◌
unfoldable pub ◌+ℤ◌ : ℤ → ℤ → ℤ
a +ℤ b = sub_ℕ (pos_part a + pos_part b) (neg_part a + neg_part b)

-- `min(k, a)`
abbrev pub min_ℤ : ℕ → ℤ → ℤ
min_ℤ k (pos n) = pos (min k n)
min_ℤ k (negsuc n) = negsuc n

-- `max(0, min(k, a))`
abbrev pub clamp_ℤ : ℕ → ℤ → ℕ
clamp_ℤ k a = min k (pos_part a)

ℤ_dec : Discrete ℤ
ℤ_dec = hlevel ℕ_discrete

instance unfoldable pub int_eq : Eq ℤ
unfolding ℤ_dec
int_eq = record { dec = ℤ_dec }
