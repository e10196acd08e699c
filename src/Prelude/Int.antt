-- ===== src/Prelude/Int.antt =====
-- Signed integers over the native numbers, and the casts of C++ between the signed widths.
use Prim.Native.Nat.{ℕ, suc, ◌+◌, ◌-◌, ◌*◌, ◌/◌, ◌%◌, ◌^◌, ◌≤◌, ◌<◌}
use mathlib.Core.Path.{◌≡◌}
use mathlib.Core.Bool.{Bool}
use native.Mathlib.Omega.{arith}
use pinusdb.Prelude.Tests.{ltb, leb, if◌then◌else◌}

-- `negsuc n` is -(n + 1).
pub data ℤ : Type 0 where
  pos : ℕ → ℤ
  negsuc : ℕ → ℤ

abbrev pub pos_part : ℤ → ℕ
pos_part (pos n) = n
pos_part (negsuc n) = 0

abbrev pub neg_part : ℤ → ℕ
neg_part (pos n) = 0
neg_part (negsuc n) = suc n

-- a - b, as an integer.
abbrev pub sub_ℕ : ℕ → ℕ → ℤ
sub_ℕ a b = if leb b a then pos (a - b) else negsuc (b - a - 1)

infixl 65 ◌+ℤ◌
infix 50 ◌≤ℤ◌ ◌<ℤ◌
unfoldable pub ◌+ℤ◌ : ℤ → ℤ → ℤ
a +ℤ b = sub_ℕ (pos_part a + pos_part b) (neg_part a + neg_part b)

abbrev pub ◌≤ℤ◌ : ℤ → ℤ → Type 0
a ≤ℤ b = pos_part a + neg_part b ≤ pos_part b + neg_part a

abbrev pub ◌<ℤ◌ : ℤ → ℤ → Type 0
a <ℤ b = pos_part a + neg_part b < pos_part b + neg_part a

abbrev pub ltb_ℤ : ℤ → ℤ → Bool
ltb_ℤ a b = ltb (pos_part a + neg_part b) (pos_part b + neg_part a)

abbrev pub leb_ℤ : ℤ → ℤ → Bool
leb_ℤ a b = leb (pos_part a + neg_part b) (pos_part b + neg_part a)

-- The C++ quotient by a positive number, which rounds towards zero.
unfoldable pub tdiv : ℤ → ℕ → ℤ
tdiv (pos n) k = pos (n / k)
tdiv (negsuc n) k = sub_ℕ 0 (suc n / k)

-- The two's complement word of `a` modulo `m`.
unfoldable pub to_word : ℕ → ℤ → ℕ
to_word m a = (pos_part a + (m - neg_part a % m)) % m

-- The signed number that a word of 2 * h values stands for.
unfoldable pub of_word : ℕ → ℕ → ℤ
of_word h w = if ltb w h then pos w else negsuc (2 * h - w - 1)

-- static_cast to the signed width of 2 * h values.
unfoldable pub cast : ℕ → ℤ → ℤ
unfolding to_word of_word
cast h a = of_word h (to_word (2 * h) a)

abbrev pub cast8 : ℤ → ℤ
cast8 = cast (2 ^ 7)

abbrev pub cast16 : ℤ → ℤ
cast16 = cast (2 ^ 15)

abbrev pub cast32 : ℤ → ℤ
cast32 = cast (2 ^ 31)

abbrev pub cast64 : ℤ → ℤ
cast64 = cast (2 ^ 63)

-- Adding after a wrap is wrapping the exact sum.
pub cast64-+ℤ : (a b : ℤ) → cast64 (cast64 a +ℤ b) ≡ cast64 (a +ℤ b)
unfolding cast ◌+ℤ◌
cast64-+ℤ a b = ground arith

pub +ℤ_assoc : (a b c : ℤ) → (a +ℤ b) +ℤ c ≡ a +ℤ (b +ℤ c)
unfolding ◌+ℤ◌
+ℤ_assoc a b c = ground arith
