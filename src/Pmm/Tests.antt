-- ===== src/Pmm/Tests.antt =====
-- Runs of src/sys/pmm.c on a bitmap at 0x1000 of 16 blocks, of which 0, 1, 2 and 4 are taken.
use frod.Base.{◌+◌, ◌≡◌, refl, ◌==◌, if◌then◌else◌, true, arith, IsBytes, write, read32}
use mathlib.Core.Option
use frod.Base.{ℕ, Memory, Bool, Option, false, some, [], ◌∷◌, List}
use frod.Pmm.{Pmm, bitmap_set, bitmap_is_set, pmm_alloc_first, pmm_alloc_first_n_blocks}
use frod.Pmm.{pmm_mark_mem_taken, set_range, set_run, alloc_from, alloc_run_from, align_upwards}
use frod.Pmm.{align_downwards}
use frod.Pmm.Alloc.{Allocated, pmm_alloc_first-Allocated}
use frod.Pmm.Blocks.{RunAllocated, pmm_alloc_first_n_blocks-RunAllocated}
use frod.Pmm.Mark.{is_set-pmm_mark_mem_taken}
use frod.Pmm.Init.{
  pmm_get_max_space, max_from, next_entry, region_end, type, size, base_addr_l, length_l,
}
use frod.Pmm.Init.{init_pmm, place_bitmap, zero_bytes, bytes_needed, blocks_needed, reserve_from}
use frod.Pmm.Init.{reserve_entry, mark_gap, mark_region}
use frod.Pmm.Requests.{allocate, give_back, Blocks, update, call_all, HoldsSet, call_all-HoldsSet}
use frod.Pmm.Regions.{Region, Holds, nil, cons}

abbrev mem : Memory
mem a = if a == 0x1000 then 0x17 else 0

abbrev small : Pmm
small = record { mem = mem; pmm_bitmap = 0x1000; pmm_bitmap_sz = 16 }

small-IsBytes : IsBytes small.mem
small-IsBytes a = ground arith

alloc_run : (pmm_alloc_first small).1 ≡ 0x3000
unfolding pmm_alloc_first alloc_from bitmap_is_set bitmap_set write
alloc_run = refl

alloc_two_run : (pmm_alloc_first_n_blocks 2 small).1 ≡ 0x5000
unfolding pmm_alloc_first_n_blocks alloc_run_from bitmap_is_set bitmap_set write set_run
alloc_two_run = refl

pmm_alloc_first-Allocated_example : Allocated small 1 16 (pmm_alloc_first small)
pmm_alloc_first-Allocated_example = pmm_alloc_first-Allocated small (omega arith)

pmm_alloc_first_n_blocks-RunAllocated_example :
    RunAllocated small 2 16 (pmm_alloc_first_n_blocks 2 small)
pmm_alloc_first_n_blocks-RunAllocated_example =
    pmm_alloc_first_n_blocks-RunAllocated 2 small small-IsBytes (omega arith) (omega arith)

is_set-pmm_mark_mem_taken_example : bitmap_is_set (pmm_mark_mem_taken 0x5800 0x6001 small) 6 ≡ true
is_set-pmm_mark_mem_taken_example =
    is_set-pmm_mark_mem_taken 0x5800 0x6001 6 small small-IsBytes (omega arith) (omega arith)

-- A map of two entries at 0x500: 64 KB of memory at 0, and 16 bytes of another type behind it.
abbrev boot_map : Memory
boot_map =
    write
      (write (write (write (write (write (write mem 0x500 20) 0x50e 1) 0x514 1) 0x518 20) 0x51e 1)
        0x524 16)
      0x52c 2

abbrev regions : List Region
regions =
    record { base = 0; span = 0x10000; kind = 1 }
    ∷ record { base = 0x10000; span = 16; kind = 2 }
    ∷ []

boot_map-Holds : Holds boot_map (0x500 + 48) 0x500 regions
unfolding write read32 base_addr_l length_l type size
boot_map-Holds =
    cons (omega arith) refl refl refl (omega arith)
      (cons (omega arith) refl refl refl (omega arith) (nil refl))

abbrev booted : Option (Pmm × ℕ)
booted = init_pmm 0x500 48 (record { mem = boot_map; pmm_bitmap = 0; pmm_bitmap_sz = 0 })

-- The bitmap goes to block 0, and that block is all that is taken below the end.
booted_run :
    Option.map {B = ℕ × ℕ × Bool × Bool × ℕ}
      (λ (s, max). (s.pmm_bitmap, s.pmm_bitmap_sz, bitmap_is_set s 0, bitmap_is_set s 1, max))
      booted
    ≡ some (0, 16, true, false, 0x10000)
unfolding init_pmm pmm_get_max_space max_from next_entry region_end write read32 base_addr_l
    length_l type size place_bitmap zero_bytes bytes_needed blocks_needed reserve_from reserve_entry
    mark_gap mark_region align_upwards align_downwards set_range bitmap_set bitmap_is_set
booted_run = refl

-- The set of the blocks that the bitmap of `small` holds.
abbrev small_taken : Blocks
small_taken j = bitmap_is_set small j

call_all-HoldsSet_example :
    let (t, answers) = call_all (allocate ∷ allocate ∷ give_back 0x3000 ∷ allocate ∷ []) small in
    (answers ≡ 0x3000 ∷ 0x5000 ∷ 0 ∷ 0x3000 ∷ [])
    × HoldsSet 16 t (update 3 true (update 3 false (update 5 true (update 3 true small_taken))))
unfolding bitmap_is_set
call_all-HoldsSet_example =
    call_all-HoldsSet 16 (allocate ∷ allocate ∷ give_back 0x3000 ∷ allocate ∷ []) small small_taken
      (omega arith) (omega arith) (record { size = refl; bytes = small-IsBytes; bits = λ j. refl })
