-- ===== src/Base/Word.antt =====
-- Go's `int` and `int64`: 64-bit two's complement, with the wrap-around written out.
use Prim.Native.Nat.{ℕ, ◌+◌, ◌-◌, ◌%◌, ◌^◌, ◌<◌}
use mathlib.Core.Path.{◌≡◌}
use native.Mathlib.Omega.{arith}
use raider_worker.Base.Tests.{ltb, if◌then◌else◌}
use raider_worker.Base.Int.{ℤ, pos, negsuc, ◌+ℤ◌, ◌-ℤ◌, ◌≤ℤ◌}

abbrev pub min_int64 : ℤ
min_int64 = negsuc 0x7fffffffffffffff

abbrev pub max_int64 : ℤ
max_int64 = pos 0x7fffffffffffffff

-- The integer that the low 64 bits stand for.
wrap_pos : ℕ → ℤ
wrap_pos r = if ltb r (2 ^ 63) then pos r else negsuc (2 ^ 64 - 1 - r)

wrap_neg : ℕ → ℤ
wrap_neg r = if ltb r (2 ^ 63) then negsuc r else pos (2 ^ 64 - 1 - r)

unfoldable pub wrap64 : ℤ → ℤ
unfolding wrap_pos wrap_neg
wrap64 (pos n) = wrap_pos (n % 2 ^ 64)
wrap64 (negsuc n) = wrap_neg (n % 2 ^ 64)

unfoldable pub add64 : ℤ → ℤ → ℤ
unfolding wrap64 ◌+ℤ◌
add64 a b = wrap64 (a +ℤ b)

unfoldable pub sub64 : ℤ → ℤ → ℤ
unfolding wrap64 ◌-ℤ◌
sub64 a b = wrap64 (a -ℤ b)

abbrev pub InInt64 : ℤ → Type 0
InInt64 a = (min_int64 ≤ℤ a) × (a ≤ℤ max_int64)

wrap64-eq : (a : ℤ) → InInt64 a → wrap64 a ≡ a
unfolding wrap64
wrap64-eq (pos n) h = ground arith
wrap64-eq (negsuc n) h = ground arith

pub add64-eq : (a b : ℤ) → InInt64 (a +ℤ b) → add64 a b ≡ a +ℤ b
unfolding add64
add64-eq a b h = wrap64-eq (a +ℤ b) h

pub sub64-eq : (a b : ℤ) → InInt64 (a -ℤ b) → sub64 a b ≡ a -ℤ b
unfolding sub64
sub64-eq a b h = wrap64-eq (a -ℤ b) h

-- A counter that stays clear of the ends of its range does not wrap.
pub add64-suc : (n : ℕ) → n < 0x7fffffffffffffff → add64 (pos n) (pos 1) ≡ pos (n + 1)
unfolding add64
add64-suc n h = ground arith

pub sub64-pred : (n : ℕ) → n < 0x7fffffffffffffff → sub64 (pos (n + 1)) (pos 1) ≡ pos n
unfolding sub64
sub64-pred n h = ground arith
