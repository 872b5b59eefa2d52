-- ===== src/Base/Mem.antt =====
-- The flat memory of a 32-bit machine: a byte for each address, with the accesses of C.
use Prim.Native.Nat.{ℕ, ◌+◌, ◌*◌, ◌%◌, ◌^◌, ◌<◌}
use mathlib.Core.Path.{◌≡◌}
use mathlib.Core.Logic.{◌≢◌}
use native.Mathlib.Omega.{arith}
use frod.Base.Tests.{◌==◌, if◌then◌else◌}

-- The casts to the fixed widths.
abbrev pub u8 : ℕ → ℕ
u8 n = n % 2 ^ 8

abbrev pub u16 : ℕ → ℕ
u16 n = n % 2 ^ 16

abbrev pub u32 : ℕ → ℕ
u32 n = n % 2 ^ 32

abbrev pub Memory : Type 0
Memory = ℕ → ℕ

-- `*(uint8_t*)a = v`; it is used for a table of entries of any width too.
unfoldable pub write : Memory → ℕ → ℕ → Memory
write m a v = λ b. if b == a then v else m b

abbrev pub IsBytes : Memory → Type 0
IsBytes m = (a : ℕ) → m a < 256

-- A little-endian `uint32_t` at `a`.
unfoldable pub read32 : Memory → ℕ → ℕ
read32 m a = m a + m (a + 1) * 2 ^ 8 + m (a + 2) * 2 ^ 16 + m (a + 3) * 2 ^ 24

pub write_same : (m : Memory) (a v : ℕ) → write m a v a ≡ v
unfolding write
write_same m a v = ground arith

pub write_other : (m : Memory) (a v b : ℕ) → b ≢ a → write m a v b ≡ m b
unfolding write
write_other m a v b h = ground arith

pub write-IsBytes : (m : Memory) (a v : ℕ) → v < 256 → IsBytes m → IsBytes (write m a v)
unfolding write
write-IsBytes m a v h k b = ground (arith, k b)
