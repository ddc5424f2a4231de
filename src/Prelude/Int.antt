-- ===== src/Prelude/Int.antt =====
-- `i64`, as the integer that it stands for. `negsuc n` is -(n + 1).
use Prim.Native.Nat.{ℕ, ◌-◌, ◌%◌, ◌^◌}
use pi_piper.Prelude.Tests.{leb, if◌then◌else◌}

pub data ℤ : Type 0 where
  pos : ℕ → ℤ
  negsuc : ℕ → ℤ

-- `n as i64` for an unsigned `n`: the low 64 bits, read in two's complement.
unfoldable pub as_i64 : ℕ → ℤ
as_i64 n = let w = n % 2 ^ 64 in if leb (2 ^ 63) w then negsuc (2 ^ 64 - w - 1) else pos w
