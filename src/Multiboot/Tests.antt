-- ===== src/Multiboot/Tests.antt =====
-- Runs of src/sys/multiboot1.c: two modules, "a" and "b", of which "b" is moved, and a memory map of
-- two regions.
use frod.Base.{ℕ, ◌≡◌, refl, arith, some, List, [], ◌∷◌, ◌==◌, if◌then◌else◌, Memory, read32}
use frod.Pmm.{Pmm}
use frod.Multiboot.Print.{Call, num, str, field, types, print_mb_mmap, print_mb_memory}
use frod.Multiboot.Printed.{
  Entry, HoldsEntries, no_more, entry, listing, print_mb_mmap-listing, InUnits,
  print_mb_memory-InUnits,
}

abbrev byte_at : List (ℕ × ℕ) → ℕ → ℕ
byte_at [] a = 0
byte_at ((k, v) ∷ l) a = if a == k then v else byte_at l a

-- The modules' records at 0x200, their names at 0x300, and the bytes of "b" at 0x2000.
abbrev modules : Memory
modules = byte_at (
    (0x114, 2)
    ∷ (0x119, 2)
    ∷ (0x201, 0x10)
    ∷ (0x204, 2)
    ∷ (0x205, 0x10)
    ∷ (0x209, 3)
    ∷ (0x211, 0x20)
    ∷ (0x214, 3)
    ∷ (0x215, 0x20)
    ∷ (0x218, 0x10)
    ∷ (0x219, 3)
    ∷ (0x300, 97)
    ∷ (0x310, 98)
    ∷ (0x320, 98)
    ∷ (0x2000, 7)
    ∷ (0x2001, 8)
    ∷ (0x2002, 9)
    ∷ [])

abbrev booted : Pmm
booted = record { mem = modules; pmm_bitmap = 0x8000; pmm_bitmap_sz = 16 }

-- A map of two entries at 0x400, for the `multiboot_info` at 0x100.
abbrev map_bytes : Memory
map_bytes = byte_at (
    (0x12C, 48)
    ∷ (0x131, 4)
    ∷ (0x400, 20)
    ∷ (0x40D, 0x10)
    ∷ (0x414, 1)
    ∷ (0x418, 20)
    ∷ (0x41D, 0x20)
    ∷ (0x425, 0x30)
    ∷ (0x42C, 9)
    ∷ [])

abbrev two_entries : List Entry
two_entries =
    record { base_low = 0; base_high = 0; length_low = 0x1000; length_high = 0; kind = 1 }
    ∷ record { base_low = 0x2000; base_high = 0; length_low = 0x3000; length_high = 0; kind = 9 }
    ∷ []

two_entries-HoldsEntries : HoldsEntries map_bytes 0x430 0x400 two_entries
unfolding read32
two_entries-HoldsEntries =
    entry _ (omega arith)
      (record { base_l = refl; base_h = refl; len_l = refl; len_h = refl; kind = refl })
      (omega arith)
      (entry _ (omega arith)
        (record { base_l = refl; base_h = refl; len_l = refl; len_h = refl; kind = refl })
        (omega arith) (no_more (omega arith)))

print_mb_mmap-listing_example :
    print_mb_mmap map_bytes 0x100
    ≡ some (
        record { fmt = "Mmap @0x%X, length = %i\n"; args = num 0x400 ∷ num 48 ∷ [] }
        ∷ listing two_entries)
unfolding read32
print_mb_mmap-listing_example =
    print_mb_mmap-listing map_bytes 0x100 two_entries two_entries-HoldsEntries (omega arith)

-- 640 KB, and 3 GB in units of KB.
abbrev sizes : Memory
sizes = byte_at ((0x104, 0x80) ∷ (0x105, 2) ∷ (0x10A, 0x30) ∷ [])

print_mb_memory_run :
    (low : ℕ) × (l : ℕ) × (upper : ℕ) × (h : ℕ) × (x : Call) × (print_mb_memory sizes 0x100
      ≡ x ∷ [])
    × (x.args ≡ num low ∷ str (types l) ∷ num upper ∷ str (types h) ∷ [])
    × InUnits 2 (field sizes 0x100 4) low l
    × InUnits 2 (field sizes 0x100 8) upper h
print_mb_memory_run = print_mb_memory-InUnits sizes 0x100
