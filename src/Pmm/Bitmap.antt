-- ===== src/Pmm/Bitmap.antt =====
-- The bitmap macros of src/sys/pmm.c as operations on a set of blocks.
use frod.Base.{ℕ, ◌+◌, ◌/◌, ◌%◌, ◌≡◌, ◌≢◌, true, false}
use frod.Base.{◌==◌, if◌then◌else◌, arith, IsBytes, write, write-IsBytes}
use frod.Base.Bytes.{bit-put_bit, bit-drop_bit, put_bit-lt, drop_bit-lt}
use frod.Pmm.{Pmm, bitmap_set, bitmap_unset, bitmap_is_set}

-- After a set, exactly the block itself has changed.
pub is_set-set :
    (s : Pmm) (i j : ℕ)
    → IsBytes s.mem
    → bitmap_is_set (bitmap_set s i) j ≡ (if j == i then true else bitmap_is_set s j)
unfolding bitmap_set bitmap_is_set write
is_set-set s i j bytes = ground (
  arith,
  bytes (s.pmm_bitmap + i / 8),
  bit-put_bit (s.mem (s.pmm_bitmap + i / 8)) (i % 8) (j % 8),
  put_bit-lt (s.mem (s.pmm_bitmap + i / 8)) (i % 8),
)

pub is_set-unset :
    (s : Pmm) (i j : ℕ)
    → IsBytes s.mem
    → bitmap_is_set (bitmap_unset s i) j ≡ (if j == i then false else bitmap_is_set s j)
unfolding bitmap_unset bitmap_is_set write
is_set-unset s i j bytes = ground (
  arith,
  bytes (s.pmm_bitmap + i / 8),
  bit-drop_bit (s.mem (s.pmm_bitmap + i / 8)) (i % 8) (j % 8),
  drop_bit-lt (s.mem (s.pmm_bitmap + i / 8)) (i % 8),
)

pub set-IsBytes : (s : Pmm) (i : ℕ) → IsBytes s.mem → IsBytes (bitmap_set s i).mem
unfolding bitmap_set
set-IsBytes s i bytes = write-IsBytes _ _ _ (omega arith) bytes

pub unset-IsBytes : (s : Pmm) (i : ℕ) → IsBytes s.mem → IsBytes (bitmap_unset s i).mem
unfolding bitmap_unset
unset-IsBytes s i bytes = write-IsBytes _ _ _ (omega arith) bytes

-- A set writes only the byte that holds the block's bit.
pub set_frame : (s : Pmm) (i a : ℕ) → a ≢ s.pmm_bitmap + i / 8 → (bitmap_set s i).mem a ≡ s.mem a
unfolding bitmap_set write
set_frame s i a ne = ground arith
