-- ===== src/Kernel.antt =====
-- The utilities of src/sys/kernel.c: checksums, the search for a signature, and the test runner.
pub mod Sums
pub mod Signature
pub mod Stack
pub mod Moved
mod Runs
mod Tests
use frod.Base.{
  ℕ, zero, suc, ◌+◌, ◌-◌, ◌*◌, ◌%◌, ◌^◌, ◌==◌, ltb, ◌&&◌, not, if◌then◌else◌, Bool, true, false,
  List, [], ◌∷◌, Option, none, some, Memory, write, u8, u32,
}

-- A little-endian word of `width` bytes at `a`.
unfoldable pub read_le : Memory → ℕ → ℕ → ℕ
read_le m a zero = 0
read_le m a (suc width) = m a + 2 ^ 8 * read_le m (a + 1) width

-- The loop of `checksum_x` for words of `width` bytes, at index `i` with `left` rounds to go.
unfoldable pub checksum_from : ℕ → ℕ → ℕ → ℕ → Memory → ℕ → ℕ
checksum_from width zero i data_ptr m ret = ret
checksum_from width (suc left) i data_ptr m ret =
    checksum_from width left (i + 1) data_ptr m
      ((ret + read_le m (data_ptr + width * i) width) % 2 ^ (8 * width))

unfoldable pub checksum_8 : ℕ → ℕ → Memory → ℕ
checksum_8 data_ptr len m = checksum_from 1 len 0 data_ptr m 0

unfoldable pub checksum_16 : ℕ → ℕ → Memory → ℕ
checksum_16 data_ptr len m = checksum_from 2 len 0 data_ptr m 0

unfoldable pub checksum_32 : ℕ → ℕ → Memory → ℕ
checksum_32 data_ptr len m = checksum_from 4 len 0 data_ptr m 0

unfoldable pub checksum_64 : ℕ → ℕ → Memory → ℕ
checksum_64 data_ptr len m = checksum_from 8 len 0 data_ptr m 0

-- The comparison of `find_signature`, which knows four widths.
unfoldable pub is_signature : Memory → ℕ → ℕ → ℕ → Bool
is_signature m a bytes sig =
    if bytes == 1
    then read_le m a 1 == sig % 2 ^ 8
    else if bytes == 2
    then read_le m a 2 == sig % 2 ^ 16
    else if bytes == 4
    then read_le m a 4 == sig % 2 ^ 32
    else (bytes == 8) && (read_le m a 8 == sig % 2 ^ 64)

-- The loop at `i`; `none` means that the fuel ran out.
unfoldable pub signature_from : ℕ → ℕ → ℕ → ℕ → ℕ → ℕ → ℕ → Memory → Option ℕ
signature_from zero i data_ptr len bytes sig align m = none
signature_from (suc fuel) i data_ptr len bytes sig align m =
    let rest = signature_from fuel (i + align) data_ptr len bytes sig align m in
    if not (ltb i len)
    then some 0
    else if is_signature m (data_ptr + i) bytes sig
    then some (u32 (data_ptr + i))
    else rest

unfoldable pub find_signature : ℕ → ℕ → ℕ → ℕ → ℕ → ℕ → Memory → Option ℕ
find_signature fuel data_ptr len bytes sig align m =
    signature_from fuel 0 data_ptr len bytes sig align m

-- The data of the first test, and of the second.
unfoldable pub fill_up : ℕ → ℕ → ℕ → Memory → Memory
fill_up zero i data_ptr m = m
fill_up (suc left) i data_ptr m = fill_up left (i + 1) data_ptr (write m (data_ptr + i) i)

unfoldable pub fill_down : ℕ → ℕ → ℕ → Memory → Memory
fill_down zero i data_ptr m = m
fill_down (suc left) i data_ptr m =
    fill_down left (i + 1) data_ptr (write m (data_ptr + i) (0xFF - i))

-- `data_ptr` is where the array of 10 bytes stands.
unfoldable pub kernel_test_checksum : ℕ → Memory → ℕ
kernel_test_checksum data_ptr m =
    let first = fill_up 10 0 data_ptr m in
    let second = fill_down 10 0 data_ptr first in
    if not (checksum_8 data_ptr 10 first == 45)
    then 1
    else if not (checksum_8 data_ptr 10 second == 0xC9)
    then 2
    else 0

-- The results of the tests from the first to the one before the null pointer.
unfoldable pub kernel_generic_unit_test : List ℕ → Bool
kernel_generic_unit_test [] = true
kernel_generic_unit_test (res ∷ rest) =
    let others = kernel_generic_unit_test rest in if not (res == 0) then false else others
