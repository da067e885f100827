-- ===== src/Prelude/Int64.antt =====
-- Go's int64: an integer that wraps around.
use Prim.Native.Nat.{ℕ, ◌+◌, ◌-◌, ◌/◌, ◌%◌, ◌^◌, ◌<◌}
use mathlib.Core.Path.{◌≡◌}
use native.Mathlib.Omega.{arith}
use fraud_detection_scoring.Prelude.Tests.{ltb, if◌then◌else◌}
use fraud_detection_scoring.Prelude.Int.{ℤ, pos, negsuc, pos_part, neg_part, sub_ℕ, ◌+ℤ◌}

-- The word of an integer, and the integer of a word.
abbrev to_word : ℤ → ℕ
to_word (pos n) = n % 2 ^ 64
to_word (negsuc n) = 2 ^ 64 - 1 - n % 2 ^ 64

abbrev signed : ℕ → ℤ
signed w = if ltb w (2 ^ 63) then pos w else negsuc (2 ^ 64 - 1 - w)

unfoldable pub wrap64 : ℤ → ℤ
wrap64 a = signed (to_word a)

-- The quotient by a count, rounded toward zero.
unfoldable pub quot : ℤ → ℕ → ℤ
quot (pos n) k = pos (n / k)
quot (negsuc n) k = sub_ℕ 0 ((n + 1) / k)

-- The integers that an int64 holds.
abbrev pub IsInt64 : ℤ → Type 0
IsInt64 a = (pos_part a < 2 ^ 63) × (neg_part a < 2 ^ 63 + 1)

pub wrap64-exact : (a : ℤ) → IsInt64 a → wrap64 a ≡ a
unfolding wrap64
wrap64-exact (pos n) h = ground arith
wrap64-exact (negsuc n) h = ground arith

pub wrap64-add : (a b : ℤ) → wrap64 (wrap64 a +ℤ b) ≡ wrap64 (a +ℤ b)
unfolding wrap64 ◌+ℤ◌
wrap64-add (pos n) (pos m) = ground arith
wrap64-add (pos n) (negsuc m) = ground arith
wrap64-add (negsuc n) (pos m) = ground arith
wrap64-add (negsuc n) (negsuc m) = ground arith
