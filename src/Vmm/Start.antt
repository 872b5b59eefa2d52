-- ===== src/Vmm/Start.antt =====
-- `vmm_init` and `vmm_create_address_space`, src/sys/vmm.c. Paging is off while `vmm_init` runs, so
-- that its accesses are to physical addresses.
use frod.Base.Options.{◌>>=◌}
use frod.Base.{
  ℕ, zero, suc, ◌+◌, ◌*◌, ◌/◌, Option, none, some, Memory, write, bit_or, ◌==◌, if◌then◌else◌,
}
use frod.Pmm.{pmm_alloc_first, pmm_mark_mem_taken}
use frod.Vmm.{
  Vmm, page_present, page_writable, page_user, page_cache_dis, load, store, zero_table,
  vmm_map_page, dir_virtual,
}

-- What `vmm_init` sets up: the virtual memory manager, the address of the local APIC in lapic.c,
-- and the handlers of the interrupts in isr.c; `H` is the type of the handlers.
pub record Boot (H : Type 0) : Type 0 where
  pub vmm : Vmm
  pub local_apic : ℕ
  pub handlers : ℕ → H

unfoldable pub zero_words : ℕ → ℕ → Memory → Memory
zero_words zero a w = w
zero_words (suc left) a w = zero_words left (a + 4) (write w a 0)

unfoldable pub vmm_get_physical_page : Vmm → Vmm × ℕ
vmm_get_physical_page s =
    let (pmm', ret) = pmm_alloc_first s.pmm in
    (record s { pmm = pmm'; words = zero_words 1024 ret s.words }, ret)

-- The loop of `vmm_init` that maps each of the first `left` pages from `i` on to itself.
unfoldable pub identity_map : ℕ → ℕ → ℕ → Memory → Memory
identity_map zero i ptable w = w
identity_map (suc left) i ptable w = identity_map left (i + 1) ptable (
    write w (ptable + 4 * i)
      (bit_or (i * 4096) (bit_or (bit_or page_present page_writable) page_user)))

abbrev pub kb4 : ℕ
kb4 = 4096

abbrev pub mb4 : ℕ
mb4 = 0x400000

-- `LAPIC_PHYS_VIRT_ADDR`.
abbrev pub lapic_phys_virt_addr : ℕ
lapic_phys_virt_addr = 0x3EF000

abbrev pub lapic_phys : ℕ
lapic_phys = 0xFEE00000

-- The words that `vmm_init` writes after it has its two blocks.
unfoldable pub first_tables : ℕ → ℕ → Memory → Memory
first_tables kernel_dir ptable w =
    let w1 = identity_map 1024 0 ptable w in
    let w2 = write w1 (ptable + 4 * (lapic_phys_virt_addr / kb4)) (
      bit_or (bit_or (bit_or (bit_or lapic_phys page_present) page_writable) page_cache_dis)
        page_user) in
    let w3 =
      write w2 (kernel_dir + 4 * 0)
        (bit_or (bit_or (bit_or ptable page_present) page_writable) page_user) in
    write w3 (kernel_dir + 4 * 1023)
      (bit_or (bit_or (bit_or kernel_dir page_present) page_writable) page_user)

unfoldable pub vmm_init : {H : Type 0} → H → Boot H → Boot H
vmm_init vmm_handle_page_fault b =
    let (s1, dir) = vmm_get_physical_page b.vmm in
    let (s2, ptable) = vmm_get_physical_page s1 in
    record {
      vmm = record {
        words = first_tables dir ptable s2.words;
        pmm = pmm_mark_mem_taken 0 mb4 s2.pmm;
        kernel_dir = dir;
        current_dir = dir;
        cr3 = dir;
      };
      local_apic = lapic_phys_virt_addr;
      handlers = λ n. if n == 14 then vmm_handle_page_fault else b.handlers n;
    }

-- The copy of the directory in use, through its window.
unfoldable pub copy_dir : ℕ → ℕ → ℕ → Vmm → Option Vmm
copy_dir zero i virt s = some s
copy_dir (suc left) i virt s = do
  pde ← load s (dir_virtual + 4 * i)
  s' ← store s (virt + 4 * i) pde
  copy_dir left (i + 1) virt s'

-- `pmm_alloc_first` stands without a call in the source, so that the new address space gets the
-- address of that function's code: an argument here, since the linker chooses it.
unfoldable pub vmm_create_address_space : ℕ → ℕ → Vmm → Option (Vmm × ℕ)
vmm_create_address_space pmm_alloc_first_address virt s = do
  let addr_space = pmm_alloc_first_address
  (s1, result) ← vmm_map_page addr_space virt page_writable s
  s2 ← zero_table 1024 0 virt s1
  s3 ← copy_dir 1024 0 virt s2
  s4 ← store s3 (virt + 4 * 1023) (bit_or (bit_or addr_space page_present) page_writable)
  some (s4, addr_space)

-- The first panic stops the machine, and what stands behind it is never reached.
unfoldable pub vmm_handle_page_fault : {S : Type 0} → ℕ → S → Option (S × ℕ)
vmm_handle_page_fault regs s = none
