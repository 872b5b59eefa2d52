-- ===== src/Vmm.antt =====
-- The virtual memory manager, src/sys/vmm.c, on the page tables of x86. `words` holds the 32-bit
-- words of the page directories and page tables, which stand in blocks of their own, by their
-- physical addresses. The code reaches them through the directory's entry for itself, so each
-- access goes through `translate`, and `none` is a page fault.
pub mod Mmu
pub mod Inv
pub mod Map
pub mod View
pub mod Pages
pub mod Unmap
pub mod Gone
pub mod Start
pub mod Boot
pub mod Backed
pub mod Copy
mod Tests
use frod.Base.Options.{◌>>=◌}
use frod.Base.{
  ℕ, zero, suc, ◌+◌, ◌-◌, ◌*◌, ◌/◌, ◌%◌, ◌^◌, Option, none, some, not, Bool, true, false,
}
use frod.Base.{◌==◌, if◌then◌else◌, Memory, write, bit_and, bit_or}
use frod.Base.Int.{ℤ, pos, negsuc}
use frod.Pmm.{Pmm, pmm_alloc_first, pmm_free, pmm_mark_mem_taken}

-- `X86_PAGE_PRESENT`, `X86_PAGE_WRITABLE`, `X86_PAGE_USER` and `X86_PAGE_CACHE_DIS`; the
-- `X86_PAGEDIR` flags of the same names have the same values.
abbrev pub page_present : ℕ
page_present = 1

abbrev pub page_writable : ℕ
page_writable = 2

abbrev pub page_user : ℕ
page_user = 4

abbrev pub page_cache_dis : ℕ
page_cache_dis = 16

-- `VMM_ERR_PAGE_IN_USE`, `VMM_ERR_NO_PAGEDIR_ENTRY`, `VMM_SUCCESS`.
abbrev pub vmm_err_page_in_use : ℤ
vmm_err_page_in_use = negsuc 0

abbrev pub vmm_err_no_pagedir_entry : ℤ
vmm_err_no_pagedir_entry = negsuc 1

abbrev pub vmm_success : ℤ
vmm_success = pos 0

-- The globals of vmm.c, the physical memory manager, and the processor's register `cr3`.
pub record Vmm : Type 0 where
  pub words : Memory
  pub pmm : Pmm
  pub kernel_dir : ℕ
  pub current_dir : ℕ
  pub cr3 : ℕ

-- `dir_virtual`, and the window through which the page tables are seen.
abbrev pub dir_virtual : ℕ
dir_virtual = 0xFFFFF000

abbrev pub table_window : ℕ
table_window = 0xFFC00000

abbrev pub frame : ℕ → ℕ
frame e = e / 4096 * 4096

abbrev pub present : ℕ → Bool
present e = e % 2 == 1

-- What the processor makes of the virtual address `v`: the entry of the directory, then the entry
-- of the page table; an entry that is not present is a page fault.
unfoldable pub translate : Vmm → ℕ → Option ℕ
translate s v =
    let pde = s.words (s.cr3 + 4 * (v / 2 ^ 22)) in
    let pte = s.words (frame pde + 4 * (v / 4096 % 1024)) in
    if present pde then (if present pte then some (frame pte + v % 4096) else none) else none

unfoldable pub load : Vmm → ℕ → Option ℕ
load s v = do a ← translate s v; some (s.words a)

unfoldable pub store : Vmm → ℕ → ℕ → Option Vmm
store s v x = do a ← translate s v; some (record s { words = write s.words a x })

-- `ADDR2INDEX`.
unfoldable pub page_of : ℕ → ℕ
page_of addr = bit_and addr 0xFFFFF000

unfoldable pub diri : ℕ → ℕ
diri addr = page_of addr / 2 ^ 22

unfoldable pub pagei : ℕ → ℕ
pagei addr = page_of addr % 2 ^ 22 / 4096

unfoldable pub is_present : ℕ → Bool
is_present e = not (bit_and e page_present == 0)

-- `memset(ptable, 0x00, KB4)`, a word at a time, with `left` words to go.
unfoldable pub zero_table : ℕ → ℕ → ℕ → Vmm → Option Vmm
zero_table zero i ptable s = some s
zero_table (suc left) i ptable s = do
  s' ← store s (ptable + 4 * i) 0
  zero_table left (i + 1) ptable s'

unfoldable pub entry : ℕ → ℕ → ℕ
entry addr flags = bit_or (bit_or addr page_present) flags

unfoldable pub map_old : ℕ → ℕ → ℕ → ℕ → Vmm → Option (Vmm × ℤ)
map_old phys acl d p s = do
  let ptable = table_window + d * 4096
  pte ← load s (ptable + 4 * p)
  if is_present pte
      then some (s, vmm_err_page_in_use)
      else (do s' ← store s (ptable + 4 * p) (entry phys acl); some (s', vmm_success))

unfoldable pub map_new : ℕ → ℕ → ℕ → ℕ → Vmm → Option (Vmm × ℤ)
map_new phys acl d p s = do
  let ptable = table_window + d * 4096
  let (pmm', new_ptable) = pmm_alloc_first s.pmm
  s1 ← store (record s { pmm = pmm' }) (dir_virtual + 4 * d) (entry new_ptable acl)
  s2 ← zero_table 1024 0 ptable s1
  s3 ← store s2 (ptable + 4 * p) (entry phys acl)
  some (s3, vmm_success)

unfoldable pub vmm_map_page : ℕ → ℕ → ℕ → Vmm → Option (Vmm × ℤ)
vmm_map_page phys_addr virt_addr acl s = do
  let d = diri virt_addr
  let p = pagei virt_addr
  pde ← load s (dir_virtual + 4 * d)
  if is_present pde then map_old phys_addr acl d p s else map_new phys_addr acl d p s

-- The loop that looks for a present entry, with `left` entries to go.
unfoldable pub table_is_empty : ℕ → ℕ → ℕ → Vmm → Option Bool
table_is_empty zero i ptable s = some true
table_is_empty (suc left) i ptable s = do
  e ← load s (ptable + 4 * i)
  let rest = table_is_empty left (i + 1) ptable s in if is_present e then some false else rest

-- The directory entry of an empty table is given up, and the table's block is freed.
unfoldable pub drop_table : ℕ → Vmm → Option Vmm
drop_table d s = do
  empty ← table_is_empty 1024 0 (table_window + d * 4096) s
  pde ← load s (dir_virtual + 4 * d)
  if empty
      then store (record s { pmm = pmm_free (page_of pde) s.pmm }) (dir_virtual + 4 * d) 0
      else some s

unfoldable pub clear_entry : ℕ → ℕ → Vmm → Option Vmm
clear_entry d p s = do
  pte ← load s (table_window + d * 4096 + 4 * p)
  if is_present pte then store s (table_window + d * 4096 + 4 * p) 0 else some s

-- The flush of the address's TLB entry is the processor's; `translate` has no cache to flush.
unfoldable pub vmm_unmap_page : ℕ → Vmm → Option (Vmm × ℤ)
vmm_unmap_page vaddr s = do
  let d = diri vaddr
  let p = pagei vaddr
  pde ← load s (dir_virtual + 4 * d)
  if is_present pde
      then (do s1 ← clear_entry d p s; s2 ← drop_table d s1; some (s2, vmm_success))
      else some (s, vmm_err_no_pagedir_entry)

unfoldable pub vmm_return_kernel_dir : Vmm → ℕ
vmm_return_kernel_dir s = s.kernel_dir

unfoldable pub vmm_switch_pdir : ℕ → Vmm → Vmm
vmm_switch_pdir pdir s = record s { current_dir = pdir; cr3 = pdir }

unfoldable pub vmm_switch_kernel : Vmm → Vmm
vmm_switch_kernel s = record s { current_dir = s.kernel_dir; cr3 = s.kernel_dir }
