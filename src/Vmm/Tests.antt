-- ===== src/Vmm/Tests.antt =====
-- Runs of src/sys/vmm.c on two address spaces with the directory at 0x1000: one without a page
-- table, and one with a page table at 0x2000 that maps 0x400000 to 0x8000.
use frod.Base.{ℕ, ◌/◌, ◌%◌, ◌<◌, ◌≡◌, refl, ◌⊎◌, arith, true, false, Bool, IsBytes}
use frod.Base.{some, none, ◌==◌, if◌then◌else◌, Memory, write, ◌≢◌}
use frod.Pmm.{Pmm, bitmap_is_set, bitmap_set, pmm_alloc_first, alloc_from}
use frod.Vmm.{Vmm, translate, vmm_map_page, vmm_unmap_page, vmm_success, vmm_err_no_pagedir_entry}
use frod.Vmm.Inv.{IsSelfMapped, IsValid, dir_entry}
use frod.Vmm.Map.{HasFree}
use frod.Vmm.Pages.{IsMapped, vmm_map_page-IsMapped}
use frod.Vmm.Gone.{IsUnmapped, vmm_unmap_page-IsUnmapped}
use frod.Vmm.Start.{Boot, vmm_init}
use frod.Vmm.Boot.{first_address, vmm_init-first_address}

abbrev bitmap : Memory
bitmap a = if a == 0x500 then 0x07 else 0

abbrev pmm : Pmm
pmm = record { mem = bitmap; pmm_bitmap = 0x500; pmm_bitmap_sz = 16 }

bitmap-IsBytes : IsBytes bitmap
bitmap-IsBytes a = ground arith

abbrev plain : Vmm
plain = record {
  words = λ a. if a == 0x1FFC then 0x1003 else 0;
  pmm = pmm;
  kernel_dir = 0x1000;
  current_dir = 0x1000;
  cr3 = 0x1000;
}

plain-IsSelfMapped : IsSelfMapped plain
plain-IsSelfMapped = record { aligned = refl; self = refl; self_present = refl }

taken_run : (bitmap_is_set pmm 1 ≡ true) × (bitmap_is_set pmm 2 ≡ true)
unfolding bitmap_is_set
taken_run = (refl, refl)

plain-IsValid : IsValid plain
plain-IsValid = record {
  self_mapped = plain-IsSelfMapped;
  bytes = bitmap-IsBytes;
  dir_taken = taken_run.0;
  taken = λ d lt on. absurd (ground arith);
  not_dir = λ d lt on. absurd (ground arith);
  apart = λ d e lt lt' ne on. absurd (ground arith);
}

plain-HasFree : HasFree pmm
unfolding pmm_alloc_first alloc_from bitmap_is_set bitmap_set
plain-HasFree = record { pos = omega arith; small = omega arith; free = λ e. absurd (ground arith) }

vmm_map_page-IsMapped_example :
    (t : Vmm) × (vmm_map_page 0x8000 0x400000 3 plain ≡ some (t, vmm_success))
    × IsMapped plain t 0x400000 0x8000
vmm_map_page-IsMapped_example =
    vmm_map_page-IsMapped plain 0x8000 0x400000 3 plain-IsValid (omega arith) plain-HasFree
      (omega arith) (omega arith) (unfold translate in refl)

abbrev one_page : Vmm
one_page = record {
  words = λ a.
      if a == 0x1FFC
      then 0x1003
      else if a == 0x1004
      then 0x2003
      else if a == 0x2000
      then 0x8003
      else 0;
  pmm = pmm;
  kernel_dir = 0x1000;
  current_dir = 0x1000;
  cr3 = 0x1000;
}

one_table : (d : ℕ) → d < 1023 → dir_entry one_page d % 2 ≡ 1 → d ≡ 1
one_table d lt on = ground arith

one_page-IsValid : IsValid one_page
one_page-IsValid = record {
  self_mapped = record { aligned = refl; self = refl; self_present = refl };
  bytes = bitmap-IsBytes;
  dir_taken = taken_run.0;
  taken = λ d lt on. rw (one_table d lt on) taken_run.1;
  not_dir = λ d lt on. rw (one_table d lt on) (λ e. omega arith);
  apart =
      λ d e lt lt' ne on on'. absurd (ne (omega (arith, one_table d lt on, one_table e lt' on')));
}

mapped_run : translate one_page 0x400000 ≡ some 0x8000
unfolding translate
mapped_run = refl

vmm_unmap_page-IsUnmapped_example :
    ((vmm_unmap_page 0x400123 one_page ≡ some (one_page, vmm_err_no_pagedir_entry))
      × (translate one_page 0x400123 ≡ none))
    ⊎ ((t : Vmm) × (vmm_unmap_page 0x400123 one_page ≡ some (t, vmm_success))
        × IsUnmapped one_page t 0x400123)
vmm_unmap_page-IsUnmapped_example =
    vmm_unmap_page-IsUnmapped one_page one_page-IsValid 0x400123 (omega arith) (omega arith)

-- Before paging is on.
abbrev raw : Boot Bool
raw = record { vmm = plain; local_apic = 0; handlers = λ n. false }

two_free : ((pmm_alloc_first pmm).1 ≢ 0) × ((pmm_alloc_first (pmm_alloc_first pmm).0).1 ≢ 0)
unfolding pmm_alloc_first alloc_from bitmap_is_set bitmap_set write
two_free = ((λ e. absurd (ground arith)), (λ e. absurd (ground arith)))

vmm_init-first_address_example :
    IsValid (vmm_init true raw).vmm
    × ((v : ℕ) → v / 4194304 < 1023 → translate (vmm_init true raw).vmm v ≡ first_address v)
vmm_init-first_address_example =
    vmm_init-first_address true raw (omega arith) (omega arith) bitmap-IsBytes two_free.0 two_free.1
