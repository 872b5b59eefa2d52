-- ===== src/Kernel/Stack.antt =====
-- `move_stack`, src/sys/kernel.c. Memory is by virtual address; the stacks' pages are present once
-- the first loop has ended.
use frod.Base.{
  ℕ, zero, suc, ◌+◌, ◌-◌, ◌^◌, if◌then◌else◌, leb, ltb, ◌&&◌, Option, none, some, Memory, read32,
  u32,
}
use frod.Pmm.{pmm_alloc_first}
use frod.Vmm.{Vmm, vmm_map_page, page_writable}
use frod.Heap.{Outcome, done, page_fault, out_of_fuel, ◌>>=◌}
use frod.Strings.{memcpy}
use frod.Cpu.{write32}
use frod.Base.Int.{ℤ}

-- The page tables, the memory, and the registers of the running code.
pub record Running : Type 0 where
  pub vmm : Vmm
  pub mem : Memory
  pub esp : ℕ
  pub ebp : ℕ

-- What `vmm_map_page` returns is not looked at.
unfoldable pub then_mapped : Option (Vmm × ℤ) → Outcome Vmm
then_mapped none = page_fault
then_mapped (some (v, result)) = done v

-- The first loop, at `i`, down to `bottom`.
unfoldable pub map_pages : ℕ → ℕ → ℕ → Vmm → Outcome Vmm
map_pages zero bottom i v = out_of_fuel
map_pages (suc fuel) bottom i v =
    let rest = map_pages fuel bottom (u32 (i + 2 ^ 32 - 4096)) in
    let (pmm', phys) = pmm_alloc_first v.pmm in
    if leb bottom i
    then then_mapped (vmm_map_page phys i page_writable (record v { pmm = pmm' })) >>= rest
    else done v

-- A word that points into the old stack points into the new one.
unfoldable pub shift : ℕ → ℕ → ℕ → ℕ → ℕ
shift old_stack init_esp offset tmp =
    if ltb old_stack tmp && ltb tmp init_esp then u32 (tmp + offset) else tmp

unfoldable pub shift_word : ℕ → ℕ → ℕ → ℕ → Memory → Memory
shift_word old_stack init_esp offset i m =
    let tmp = read32 m i in
    if ltb old_stack tmp && ltb tmp init_esp then write32 m i (u32 (tmp + offset)) else m

-- The last loop, at `i`, down to `bottom`.
unfoldable pub shift_words : ℕ → ℕ → ℕ → ℕ → ℕ → ℕ → Memory → Outcome Memory
shift_words zero old_stack init_esp offset bottom i m = out_of_fuel
shift_words (suc fuel) old_stack init_esp offset bottom i m =
    let m' = shift_word old_stack init_esp offset i m in
    let rest = shift_words fuel old_stack init_esp offset bottom (u32 (i + 2 ^ 32 - 4)) m' in
    if leb bottom i then rest else done m

unfoldable pub move_stack : ℕ → ℕ → ℕ → ℕ → Running → Outcome Running
move_stack fuel new_stack sz init_esp s = do
  let bottom = u32 (new_stack + 2 ^ 32 - sz)
  v ← map_pages fuel bottom new_stack s.vmm
  let old_stack = s.esp
  let offset = u32 (new_stack + 2 ^ 32 - init_esp)
  let new_stack_ptr = u32 (old_stack + offset)
  let copied = (memcpy new_stack_ptr old_stack (u32 (init_esp + 2 ^ 32 - old_stack)) s.mem).0
  m ← shift_words fuel old_stack init_esp offset bottom new_stack copied
  done (record { vmm = v; mem = m; esp = new_stack_ptr; ebp = u32 (s.ebp + offset) })
