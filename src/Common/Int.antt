-- ===== src/Common/Int.antt =====
-- Go's `int` where it may be negative, and its order.
use Prim.Native.Nat.{ℕ, zero, suc, ◌+◌, ◌-◌, ◌*◌, ◌/◌, ◌%◌, ◌^◌}
use mathlib.Core.Bool.{Bool}
use waffynx.Common.Tests.{ltb, if◌then◌else◌}

-- `negsuc n` is -(n + 1).
pub data ℤ : Type 0 where
  pos : ℕ → ℤ
  negsuc : ℕ → ℤ

abbrev pub pos_part : ℤ → ℕ
pos_part (pos n) = n
pos_part (negsuc n) = 0

abbrev pub neg_part : ℤ → ℕ
neg_part (pos n) = 0
neg_part (negsuc n) = suc n

-- a < b.
abbrev pub lt_int : ℤ → ℤ → Bool
lt_int a b = ltb (pos_part a + neg_part b) (pos_part b + neg_part a)

-- -n.
abbrev pub negated : ℕ → ℤ
negated zero = pos 0
negated (suc n) = negsuc n

-- The number of 64 bits that is left of an integer: its remainder by 2^64, between -2^63 and 2^63 - 1.
abbrev pub residue : ℤ → ℕ
residue (pos n) = n % 2 ^ 64
residue (negsuc n) = (2 ^ 64 - suc n % 2 ^ 64) % 2 ^ 64

abbrev pub int64 : ℤ → ℤ
int64 n = if ltb (residue n) (2 ^ 63) then pos (residue n) else negated (2 ^ 64 - residue n)

abbrev pub scaled : ℤ → ℕ → ℤ
scaled (pos n) k = pos (n * k)
scaled (negsuc n) k = negated (suc n * k)

-- time.Duration(n) * time.Second, which wraps.
abbrev pub seconds : ℤ → ℤ
seconds n = int64 (scaled n 1000000000)

-- A time and a duration: t.Add(d).
abbrev pub add_duration : ℕ → ℤ → ℤ
add_duration t (pos d) = pos (t + d)
add_duration t (negsuc d) = if ltb d t then pos (t - suc d) else negsuc (d - t)

abbrev pub opposite : ℤ → ℤ
opposite (pos n) = negated n
opposite (negsuc n) = pos (suc n)

-- n / 2, which rounds towards 0.
abbrev pub half : ℤ → ℤ
half (pos n) = pos (n / 2)
half (negsuc n) = negated (suc n / 2)
