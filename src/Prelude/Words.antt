-- ===== src/Prelude/Words.antt =====
-- Machine integers as bit patterns: each operation writes its wrap-around out.
use Prim.Native.Nat.{ℕ, ◌+◌, ◌-◌, ◌%◌, ◌^◌}
use mathlib.Core.Bool.{Bool, ◌&&◌}
use linux_c_study.Prelude.Tests.{ltb}

-- `++n` and `--n` on an `int`, as the pattern below 2 ^ 32.
abbrev pub inc32 : ℕ → ℕ
inc32 n = (n + 1) % 2 ^ 32

abbrev pub dec32 : ℕ → ℕ
dec32 n = (n + 2 ^ 32 - 1) % 2 ^ 32

-- `n > 0` on an `int`.
abbrev pub pos32 : ℕ → Bool
pos32 n = ltb 0 n && ltb n (2 ^ 31)

-- `++n` on a `uint64_t`.
abbrev pub inc64 : ℕ → ℕ
inc64 n = (n + 1) % 2 ^ 64

-- Signed values, such as what a system call returns: `negsuc n` is -(n + 1).
pub data ℤ : Type 0 where
  pos : ℕ → ℤ
  negsuc : ℕ → ℤ
