-- ===== src/Pmm/Mark.antt =====
-- `set_range` and `pmm_mark_mem_taken`, src/sys/pmm.c.
use frod.Base.{ℕ, zero, suc, ◌+◌, ◌-◌, ◌*◌, ◌/◌, ◌%◌, ◌^◌, ◌≤◌, ◌<◌, ◌≡◌, ◌∙◌, refl}
use frod.Base.{Bool, true, ◌&&◌, ◌==◌, leb, ltb, if◌then◌else◌, arith, IsBytes, u32}
use frod.Pmm.{Pmm, blk_sz, bitmap_set, bitmap_is_set, set_range, set_run, pmm_mark_mem_taken}
use frod.Pmm.{align_downwards, align_upwards}
use frod.Pmm.Bitmap.{is_set-set, set-IsBytes, set_frame}

-- `b` is a block of `lo..hi)`.
abbrev pub within : ℕ → ℕ → ℕ → Bool
within lo hi b = leb lo b && ltb b hi

pub is_set-set_range :
    (left i j : ℕ) (s : Pmm)
    → IsBytes s.mem
    → bitmap_is_set (set_range left i s) j
      ≡ (if within i (i + left) j then true else bitmap_is_set s j)
unfolding set_range
is_set-set_range zero i j s bytes = ground arith
is_set-set_range (suc left) i j s bytes = ground (
  arith,
  is_set-set_range left (i + 1) j (bitmap_set s i) (set-IsBytes s i bytes),
  is_set-set s i j bytes,
)

pub set_range-IsBytes : (left i : ℕ) (s : Pmm) → IsBytes s.mem → IsBytes (set_range left i s).mem
unfolding set_range
set_range-IsBytes zero i s bytes = bytes
set_range-IsBytes (suc left) i s bytes =
    set_range-IsBytes left (i + 1) (bitmap_set s i) (set-IsBytes s i bytes)

pub is_set-set_run :
    (found i j : ℕ) (s : Pmm)
    → IsBytes s.mem
    → found ≤ i + 1
    → bitmap_is_set (set_run found i s) j
      ≡ (if within (i + 1 - found) (i + 1) j then true else bitmap_is_set s j)
unfolding set_run
is_set-set_run zero i j s bytes h = ground arith
is_set-set_run (suc found) i j s bytes h = ground (
  arith,
  is_set-set_run found i j (bitmap_set s (i - found)) (set-IsBytes s (i - found) bytes),
  is_set-set s (i - found) j bytes,
)

-- `pmm_mark_mem_taken(start, end)` takes exactly the blocks that overlap the bytes
-- `start..end)`, rounded outwards to blocks, and leaves every other block as it was. The bound
-- keeps the rounded end below 2 ^ 32.
pub is_set-pmm_mark_mem_taken :
    (start end j : ℕ) (s : Pmm)
    → IsBytes s.mem
    → start ≤ end
    → end ≤ 2 ^ 32 - blk_sz
    → bitmap_is_set (pmm_mark_mem_taken start end s) j
      ≡ (if ltb start ((j + 1) * blk_sz) && ltb (j * blk_sz) end then true else bitmap_is_set s j)
unfolding pmm_mark_mem_taken align_downwards align_upwards
is_set-pmm_mark_mem_taken start end j s bytes le small =
    let lo : ℕ = (start - start % blk_sz) / blk_sz in
    let hi : ℕ =
      (if end % blk_sz == 0 then end else u32 (end / blk_sz * blk_sz + blk_sz)) / blk_sz in
    ground (arith, is_set-set_range (hi - lo) lo j s bytes)

pub pmm_mark_mem_taken-IsBytes :
    (start end : ℕ) (s : Pmm) → IsBytes s.mem → IsBytes (pmm_mark_mem_taken start end s).mem
unfolding pmm_mark_mem_taken
pmm_mark_mem_taken-IsBytes start end s bytes = set_range-IsBytes _ _ s bytes

-- What stands below the bitmap stays.
set_range_below : (left i a : ℕ) (s : Pmm) → a < s.pmm_bitmap → (set_range left i s).mem a ≡ s.mem a
unfolding set_range
set_range_below zero i a s lt = refl
set_range_below (suc left) i a s lt =
    set_range_below left (i + 1) a (bitmap_set s i) (unfold bitmap_set in lt)
    ∙ set_frame s i a (λ e. omega arith)

pub pmm_mark_mem_taken_below :
    (start end a : ℕ) (s : Pmm)
    → a < s.pmm_bitmap
    → (pmm_mark_mem_taken start end s).mem a ≡ s.mem a
unfolding pmm_mark_mem_taken
pmm_mark_mem_taken_below start end a s lt = set_range_below _ _ a s lt
