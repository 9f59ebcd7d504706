-- ===== src/Base/Int.antt =====
-- Go's int64: integers over the native numbers, and sums that wrap at 64 bits.
use Prim.Native.Nat.{ℕ, suc, ◌+◌, ◌-◌, ◌%◌, ◌≤◌, ◌<◌}
use mathlib.Core.Path.{◌≡◌}
use mathlib.Core.Bool.{Bool, true, false}
use native.Mathlib.Omega.{arith}
use polaris_go.Base.Tests.{ltb, leb, if◌then◌else◌}

-- `negsuc n` is -(n + 1).
pub data ℤ : Type 0 where
  pos : ℕ → ℤ
  negsuc : ℕ → ℤ

abbrev pub pos_part : ℤ → ℕ
pos_part (pos n) = n
pos_part (negsuc n) = 0

abbrev pub neg_part : ℤ → ℕ
neg_part (pos n) = 0
neg_part (negsuc n) = suc n

-- a - b, as an integer.
abbrev pub sub_ℕ : ℕ → ℕ → ℤ
sub_ℕ a b = if leb b a then pos (a - b) else negsuc (b - a - 1)

infixl 65 ◌+ℤ◌ ◌-ℤ◌
unfoldable pub ◌+ℤ◌ : ℤ → ℤ → ℤ
a +ℤ b = sub_ℕ (pos_part a + pos_part b) (neg_part a + neg_part b)

unfoldable pub ◌-ℤ◌ : ℤ → ℤ → ℤ
a -ℤ b = sub_ℕ (pos_part a + neg_part b) (neg_part a + pos_part b)

infix 50 ◌≤ℤ◌ ◌<ℤ◌
abbrev pub ◌≤ℤ◌ : ℤ → ℤ → Type 0
a ≤ℤ b = pos_part a + neg_part b ≤ pos_part b + neg_part a

abbrev pub ◌<ℤ◌ : ℤ → ℤ → Type 0
a <ℤ b = pos_part a + neg_part b < pos_part b + neg_part a

-- The sign test `x < 0`.
abbrev pub is_neg : ℤ → Bool
is_neg (pos n) = false
is_neg (negsuc n) = true

abbrev pub ltb_ℤ : ℤ → ℤ → Bool
ltb_ℤ a b = ltb (pos_part a + neg_part b) (pos_part b + neg_part a)

abbrev pub leb_ℤ : ℤ → ℤ → Bool
leb_ℤ a b = leb (pos_part a + neg_part b) (pos_part b + neg_part a)

abbrev pub i64_half : ℕ
i64_half = 0x8000_0000_0000_0000

abbrev pub i64_mod : ℕ
i64_mod = 0x1_0000_0000_0000_0000

abbrev pub u32_mod : ℕ
u32_mod = 0x1_0000_0000

-- The bit pattern of an integer, and the int64 with a given bit pattern.
abbrev pub to_bits64 : ℤ → ℕ
to_bits64 (pos n) = n % i64_mod
to_bits64 (negsuc n) = i64_mod - 1 - n % i64_mod

abbrev pub of_bits64 : ℕ → ℤ
of_bits64 n = if ltb n i64_half then pos n else negsuc (i64_mod - 1 - n)

unfoldable pub wrap64 : ℤ → ℤ
wrap64 a = of_bits64 (to_bits64 a)

-- `atomic.AddInt64` and `+` on int64.
unfoldable pub add64 : ℤ → ℤ → ℤ
add64 a b = wrap64 (a +ℤ b)

unfoldable pub sub64 : ℤ → ℤ → ℤ
sub64 a b = wrap64 (a -ℤ b)

-- The values that an int64 takes.
abbrev pub Fits64 : ℤ → Type 0
Fits64 a = (pos_part a < i64_half) × (neg_part a ≤ i64_half)

pub wrap64-id : (a : ℤ) → Fits64 a → wrap64 a ≡ a
unfolding wrap64
wrap64-id (pos n) h = ground arith
wrap64-id (negsuc n) h = ground arith

pub wrap64-Fits64 : (a : ℤ) → Fits64 (wrap64 a)
unfolding wrap64
wrap64-Fits64 (pos n) = ground arith
wrap64-Fits64 (negsuc n) = ground arith

pub +ℤ_parts :
    (a b : ℤ)
    → pos_part (a +ℤ b) + neg_part a + neg_part b ≡ neg_part (a +ℤ b) + pos_part a + pos_part b
unfolding ◌+ℤ◌
+ℤ_parts a b = ground arith

pub eq_of_parts : (a b : ℤ) → pos_part a + neg_part b ≡ pos_part b + neg_part a → a ≡ b
eq_of_parts a b h = ground arith

pub add64-Fits : (a b : ℤ) → Fits64 (a +ℤ b) → add64 a b ≡ a +ℤ b
unfolding add64
add64-Fits a b h = wrap64-id (a +ℤ b) h

-- One less, and one more again.
unfoldable pub pred_ℤ : ℤ → ℤ
pred_ℤ a = a -ℤ pos 1

pub add64_pred :
    (a : ℤ) → pos_part a < i64_half → neg_part a < i64_half → add64 a (negsuc 0) ≡ pred_ℤ a
unfolding add64 pred_ℤ ◌+ℤ◌ ◌-ℤ◌ wrap64
add64_pred (pos n) h k = ground arith
add64_pred (negsuc n) h k = ground arith

pub add64_succ-pred :
    (a : ℤ) → pos_part a < i64_half → neg_part a < i64_half → add64 (pred_ℤ a) (pos 1) ≡ a
unfolding add64 pred_ℤ ◌+ℤ◌ ◌-ℤ◌ wrap64
add64_succ-pred (pos n) h k = ground arith
add64_succ-pred (negsuc n) h k = ground arith

pub is_neg-pred : (a : ℤ) → is_neg (pred_ℤ a) ≡ leb_ℤ a (pos 0)
unfolding pred_ℤ ◌-ℤ◌
is_neg-pred (pos n) = ground arith
is_neg-pred (negsuc n) = ground arith

pub pred_parts :
    (a : ℤ) → (pos_part (pred_ℤ a) ≡ pos_part a - 1) × (neg_part (pred_ℤ a) ≤ neg_part a + 1)
unfolding pred_ℤ ◌-ℤ◌
pred_parts (pos n) = ground arith
pred_parts (negsuc n) = ground arith

pub is_neg-pred_pos : (a : ℤ) → is_neg (pred_ℤ a) ≡ (if ltb 0 (pos_part a) then false else true)
unfolding pred_ℤ ◌-ℤ◌
is_neg-pred_pos (pos n) = ground arith
is_neg-pred_pos (negsuc n) = ground arith

-- The int32 with a given bit pattern.
abbrev pub of_bits32 : ℕ → ℤ
of_bits32 n = if ltb n 0x8000_0000 then pos n else negsuc (u32_mod - 1 - n)
