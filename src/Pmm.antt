-- ===== src/Pmm.antt =====
-- The physical memory manager, src/sys/pmm.c: the bitmap macros, the alignment macros and the
-- operations on single blocks and runs of blocks. `Pmm.Init` has the start-up code.
pub mod Bitmap
pub mod Alloc
pub mod Blocks
pub mod Mark
pub mod Init
pub mod Regions
pub mod Requests
mod Tests
use frod.Base.{ℕ, zero, suc, ◌+◌, ◌-◌, ◌*◌, ◌/◌, ◌%◌, Bool, true, false, not, ◌==◌, if◌then◌else◌}
use frod.Base.{Memory, write, u8, u32}
use frod.Base.Bytes.{bit, put_bit, drop_bit}

-- `PMM_BLK_SZ`.
abbrev pub blk_sz : ℕ
blk_sz = 4096

-- The globals `pmm_bitmap` and `pmm_bitmap_sz`, and the memory that the bitmap stands in.
pub record Pmm : Type 0 where
  pub mem : Memory
  pub pmm_bitmap : ℕ
  pub pmm_bitmap_sz : ℕ

unfoldable pub bitmap_set : Pmm → ℕ → Pmm
bitmap_set s b =
    let a = s.pmm_bitmap + b / 8 in
    record s { mem = write s.mem a (u8 (put_bit (s.mem a) (b % 8))) }

unfoldable pub bitmap_unset : Pmm → ℕ → Pmm
bitmap_unset s b =
    let a = s.pmm_bitmap + b / 8 in
    record s { mem = write s.mem a (u8 (drop_bit (s.mem a) (b % 8))) }

unfoldable pub bitmap_is_set : Pmm → ℕ → Bool
bitmap_is_set s b = bit (s.mem (s.pmm_bitmap + b / 8)) (b % 8)

unfoldable pub align_downwards : ℕ → ℕ → ℕ
align_downwards a b = a - a % b

unfoldable pub align_upwards : ℕ → ℕ → ℕ
align_upwards a b = if a % b == 0 then a else u32 (a / b * b + b)

unfoldable pub pmm_is_taken : Pmm → ℕ → Bool
pmm_is_taken s block = bitmap_is_set s block

-- `for(; i < j; i++) bitmap_set(pmm_bitmap, i)` with `j - i` rounds left.
unfoldable pub set_range : ℕ → ℕ → Pmm → Pmm
set_range zero i s = s
set_range (suc left) i s = set_range left (i + 1) (bitmap_set s i)

unfoldable pub pmm_mark_mem_taken : ℕ → ℕ → Pmm → Pmm
pmm_mark_mem_taken start end s =
    let i = align_downwards start blk_sz / blk_sz in
    let j = align_upwards end blk_sz / blk_sz in set_range (j - i) i s

-- The loop of `pmm_alloc_first` at block `i`, with `pmm_bitmap_sz - i` rounds left.
unfoldable pub alloc_from : ℕ → ℕ → Pmm → Pmm × ℕ
alloc_from zero i s = (s, 0)
alloc_from (suc left) i s =
    let rest = alloc_from left (i + 1) s in
    if not (bitmap_is_set s i) then (bitmap_set s i, u32 (i * blk_sz)) else rest

unfoldable pub pmm_alloc_first : Pmm → Pmm × ℕ
pmm_alloc_first s = alloc_from (s.pmm_bitmap_sz - 1) 1 s

unfoldable pub pmm_free : ℕ → Pmm → Pmm
pmm_free block s = bitmap_unset s (block / blk_sz)

-- `for(; found > 0; found--) bitmap_set(pmm_bitmap, i-(found-1))`. Block numbers count from 1, so
-- `found <= i` and the subtraction does not wrap.
unfoldable pub set_run : ℕ → ℕ → Pmm → Pmm
set_run zero i s = s
set_run (suc found) i s = set_run found i (bitmap_set s (i - found))

-- The loop of `pmm_alloc_first_n_blocks`: `found` free blocks end just below block `i`.
unfoldable pub alloc_run_from : ℕ → ℕ → ℕ → ℕ → Pmm → Pmm × ℕ
alloc_run_from n zero i found s = (s, 0)
alloc_run_from n (suc left) i found s =
    let grow = alloc_run_from n left (i + 1) (found + 1) s in
    let restart = alloc_run_from n left (i + 1) 0 s in
    if not (bitmap_is_set s i)
    then if (found + 1) == n then (set_run (found + 1) i s, u32 ((i - (n - 1)) * blk_sz)) else grow
    else restart

unfoldable pub pmm_alloc_first_n_blocks : ℕ → Pmm → Pmm × ℕ
pmm_alloc_first_n_blocks n s = alloc_run_from n (s.pmm_bitmap_sz - 1) 1 0 s
