-- ===== src/Pmm/Init.antt =====
-- `init_pmm` and `pmm_get_max_space`, src/sys/pmm.c: the walks over the memory map that the boot
-- loader left at `mmap`. A walk has fuel, and `none` means that the fuel ran out.
use frod.Base.{ℕ, zero, suc, ◌+◌, ◌-◌, ◌*◌, ◌/◌, ◌%◌, ◌^◌, Option, none, some, ◌&&◌, not}
use frod.Base.{◌==◌, ltb, leb, if◌then◌else◌, Memory, read32, write, u32}
use frod.Pmm.{Pmm, blk_sz, bitmap_set, set_range, align_downwards, align_upwards}

-- The fields of the `multiboot_mmap` at `p`.
unfoldable pub size : Memory → ℕ → ℕ
size m p = read32 m p

unfoldable pub base_addr_l : Memory → ℕ → ℕ
base_addr_l m p = read32 m (p + 4)

unfoldable pub length_l : Memory → ℕ → ℕ
length_l m p = read32 m (p + 12)

unfoldable pub type : Memory → ℕ → ℕ
type m p = read32 m (p + 20)

-- `copy->base_addr_l + copy->length_l`.
unfoldable pub region_end : Memory → ℕ → ℕ
region_end m p = u32 (base_addr_l m p + length_l m p)

-- `(multiboot_mmap*)((uint32_t)mmap + (mmap->size + 4))`.
unfoldable pub next_entry : Memory → ℕ → ℕ
next_entry m p = u32 (p + size m p + 4)

unfoldable pub max_from : ℕ → Memory → ℕ → ℕ → ℕ → Option ℕ
max_from zero m stop p max = none
max_from (suc fuel) m stop p max =
    let rest =
      max_from fuel m stop (next_entry m p) (if type m p == 1 then region_end m p else max) in
    if ltb p stop then rest else some max

-- An entry takes four bytes or more, so `len + 1` rounds are enough for a map of `len` bytes.
unfoldable pub pmm_get_max_space : Memory → ℕ → ℕ → Option ℕ
pmm_get_max_space m mmap len = max_from (len + 1) m (u32 (mmap + len)) mmap 0

-- `for(i = 0; i < pmm_bytes; i++) *(pmm_bitmap+i) = 0x00`.
unfoldable pub zero_bytes : ℕ → ℕ → Memory → Memory
zero_bytes zero a m = m
zero_bytes (suc left) a m = zero_bytes left (a + 1) (write m a 0)

-- `pmm_bytes` and `blocks_bitmap`.
unfoldable pub bytes_needed : ℕ → ℕ
bytes_needed sz = sz / 8 + (if sz % 8 == 0 then 0 else 1)

unfoldable pub blocks_needed : ℕ → ℕ
blocks_needed sz = bytes_needed sz / blk_sz + (if sz % (blk_sz * 8) == 0 then 0 else 1)

-- The loop that finds room for the bitmap, clears it there and takes its own blocks.
unfoldable pub place_bitmap : ℕ → ℕ → ℕ → Pmm → Option Pmm
place_bitmap zero stop p s = none
place_bitmap (suc fuel) stop p s =
    let rest = place_bitmap fuel stop (next_entry s.mem p) s in
    let bytes = bytes_needed s.pmm_bitmap_sz in
    let blocks = blocks_needed s.pmm_bitmap_sz in
    let end = region_end s.mem p in
    let base = align_downwards (align_upwards (base_addr_l s.mem p) blk_sz) blk_sz in
    if ltb p stop
    then if (type s.mem p == 1) && leb blocks (length_l s.mem p / blk_sz)
      then if leb blocks (u32 (end + 2 ^ 32 - base) / blk_sz)
        then some (
            set_range blocks (base / blk_sz)
              (record s { mem = zero_bytes bytes base s.mem; pmm_bitmap = base }))
        else rest
      else rest
    else some s

-- `while(expected < copy->base_addr_l)`: the blocks of a gap before the entry at `p`.
unfoldable pub mark_gap : ℕ → ℕ → ℕ → Pmm → Option Pmm
mark_gap zero p expected s = none
mark_gap (suc fuel) p expected s =
    let rest = mark_gap fuel p (u32 (expected + blk_sz)) (bitmap_set s (expected / blk_sz)) in
    if ltb expected (base_addr_l s.mem p) then rest else some s

-- `while(base < (copy->base_addr_l + copy->length_l))`: the blocks of the entry at `p`.
unfoldable pub mark_region : ℕ → ℕ → ℕ → Pmm → Option Pmm
mark_region zero p base s = none
mark_region (suc fuel) p base s =
    let rest = mark_region fuel p (u32 (base + blk_sz)) (bitmap_set s (base / blk_sz)) in
    if ltb base (region_end s.mem p) then rest else some s

infixl 5 ◌>>=◌
abbrev pub ◌>>=◌ : {A B : Type 0} → Option A → (A → Option B) → Option B
none >>= f = none
some a >>= f = f a

-- There are 2 ^ 20 blocks below 2 ^ 32, so more rounds than this would go round the address space.
abbrev pub block_rounds : ℕ
block_rounds = 2 ^ 20 + 1

-- The body of the loop that takes all reserved memory, for the entry at `p`.
unfoldable pub reserve_entry : ℕ → ℕ → ℕ → Pmm → Option Pmm
reserve_entry max p expected s = do
  s1 ←
      if ltb expected (base_addr_l s.mem p)
      then mark_gap block_rounds p (align_downwards expected blk_sz) s
      else some s
  if not (type s1.mem p == 1) && ltb (region_end s1.mem p) (u32 (max + 2 ^ 32 - 1))
      then mark_region block_rounds p (align_downwards (base_addr_l s1.mem p) blk_sz) s1
      else some s1

unfoldable pub reserve_from : ℕ → ℕ → ℕ → ℕ → ℕ → Pmm → Option Pmm
reserve_from zero max stop p expected s = none
reserve_from (suc fuel) max stop p expected s =
    let body = (do
      s' ← reserve_entry max p expected s
      reserve_from fuel max stop (next_entry s'.mem p) (region_end s'.mem p) s') in
    if ltb p stop && ltb (base_addr_l s.mem p) (u32 (max + 2 ^ 32 - 1)) then body else some s

-- The result is the state and the number of bytes managed.
unfoldable pub init_pmm : ℕ → ℕ → Pmm → Option (Pmm × ℕ)
init_pmm mmap len s = do
  max ← pmm_get_max_space s.mem mmap len
  s1 ← place_bitmap (len + 1) (u32 (mmap + len)) mmap (record s { pmm_bitmap_sz = max / blk_sz })
  s2 ← reserve_from (len + 1) max (u32 (mmap + len)) mmap 0 s1
  some (bitmap_set s2 0, max)
