-- ===== src/Prelude/Int.antt =====
-- The C++ `int`: an integer, with the range of 32 bits as a predicate.
use Prim.Native.Nat.{ℕ, ◌<◌}

-- `negsuc n` is -(n + 1).
pub data ℤ : Type 0 where
  pos : ℕ → ℤ
  negsuc : ℕ → ℤ

abbrev pub pos_part : ℤ → ℕ
pos_part (pos n) = n
pos_part (negsuc n) = 0

-- Both signs have 2 ^ 31 values.
abbrev pub magnitude : ℤ → ℕ
magnitude (pos n) = n
magnitude (negsuc n) = n

abbrev pub IsInt32 : ℤ → Type 0
IsInt32 z = magnitude z < 2147483648
