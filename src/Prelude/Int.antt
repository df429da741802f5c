-- ===== src/Prelude/Int.antt =====
-- `i64` values over the native numbers. A sum of two wraps around as in a release build.
use Prim.Native.Nat.{ℕ, suc, ◌%◌, ◌+◌, ◌-◌, ◌<◌, ◌≤◌}
use mathlib.Core.Path.{◌≡◌}
use mathlib.Core.Bool.{Bool}
use native.Mathlib.Omega.{arith}
use overacp.Prelude.Tests.{if◌then◌else◌, leb, ltb}

-- `negsuc n` is -(n + 1).
pub data ℤ : Type 0 where
  pos : ℕ → ℤ
  negsuc : ℕ → ℤ

abbrev pub pos_part : ℤ → ℕ
pos_part (pos n) = n
pos_part (negsuc n) = 0

abbrev pub neg_part : ℤ → ℕ
neg_part (pos n) = 0
neg_part (negsuc n) = suc n

abbrev pub sub_ℕ : ℕ → ℕ → ℤ
sub_ℕ a b = if leb b a then pos (a - b) else negsuc (b - a - 1)

infixl 65 ◌+ℤ◌
infix 50 ◌≤ℤ◌
abbrev pub ◌+ℤ◌ : ℤ → ℤ → ℤ
a +ℤ b = sub_ℕ (pos_part a + pos_part b) (neg_part a + neg_part b)

abbrev pub ◌≤ℤ◌ : ℤ → ℤ → Type 0
a ≤ℤ b = pos_part a + neg_part b ≤ pos_part b + neg_part a

abbrev pub leb_ℤ : ℤ → ℤ → Bool
leb_ℤ a b = leb (pos_part a + neg_part b) (pos_part b + neg_part a)

-- The bounds 2^63 and 2^64.
abbrev pub i64_end : ℕ
i64_end = 9223372036854775808

abbrev pub u64_end : ℕ
u64_end = 18446744073709551616

-- The value of an `i64` that is `a` modulo 2^64.
abbrev pub wrap_i64 : ℤ → ℤ
wrap_i64 (pos n) =
    if ltb (n % u64_end) i64_end then pos (n % u64_end) else negsuc (u64_end - 1 - n % u64_end)
wrap_i64 (negsuc n) =
    if ltb (n % u64_end) i64_end then negsuc (n % u64_end) else pos (u64_end - 1 - n % u64_end)

abbrev pub add_i64 : ℤ → ℤ → ℤ
add_i64 a b = wrap_i64 (a +ℤ b)

-- The values of an `i64`.
abbrev pub IsI64 : ℤ → Type 0
IsI64 (pos n) = n < i64_end
IsI64 (negsuc n) = n < i64_end

small_mod : (n : ℕ) → n < i64_end → n % u64_end ≡ n
small_mod n h = omega arith

large_mod : (n : ℕ) → n < u64_end → n % u64_end ≡ n
large_mod n h = omega arith

pub wrap_i64-id : (a : ℤ) → IsI64 a → wrap_i64 a ≡ a
wrap_i64-id (pos n) h = rw (small_mod n h) (ground arith)
wrap_i64-id (negsuc n) h = rw (small_mod n h) (ground arith)

-- A sum of two that is past the largest value comes out negative.
pub wrap_i64-over :
    (n : ℕ) → i64_end ≤ n → n < u64_end → wrap_i64 (pos n) ≡ negsuc (u64_end - 1 - n)
wrap_i64-over n h k = rw (large_mod n k) (ground arith)
