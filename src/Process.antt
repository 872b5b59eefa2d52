-- ===== src/Process.antt =====
-- Processes, src/sys/process.c, and `change_tss` of src/arch/x86/gdt.c. `pcbs` holds the process
-- control blocks by the addresses that the heap gives, `frames` the saved registers and `stacks`
-- the other words of the kernel stacks, both by their virtual addresses. The lines written to the
-- debug port are left out.
pub mod Switch
pub mod Alloc
pub mod Fork
pub mod Forked
pub mod Tests
mod Spaces
use frod.Base.{ℕ, zero, suc, ◌+◌, ◌-◌, ◌*◌, ◌^◌, ◌==◌, if◌then◌else◌, leb, Memory, write, u32}
use frod.Base.{Option, none, some}
use frod.Base.Int.{ℤ, pos, negsuc}
use frod.Pmm.{pmm_alloc_first}
use frod.Vmm.{Vmm, vmm_map_page, page_writable, vmm_switch_pdir}
use frod.Heap.{Outcome, done, panic, page_fault, out_of_fuel, ◌>>=◌, Heap, heap_malloc}

-- `Registers` of the header hal/isr.h, in the order of the stack.
pub record Registers : Type 0 where
  pub gs : ℕ
  pub fs : ℕ
  pub es : ℕ
  pub ds : ℕ
  pub edi : ℕ
  pub esi : ℕ
  pub ebp : ℕ
  pub tampered_esp : ℕ
  pub ebx : ℕ
  pub edx : ℕ
  pub ecx : ℕ
  pub eax : ℕ
  pub int_no : ℕ
  pub err_code : ℕ
  pub eip : ℕ
  pub cs : ℕ
  pub eflags : ℕ

abbrev pub sizeof_registers : ℕ
sizeof_registers = 68

-- `PROC_RUNNING` and `PROC_READY`.
abbrev pub proc_running : ℕ
proc_running = 1

abbrev pub proc_ready : ℕ
proc_ready = 2

-- `KSTACKSZ`, `PROC_MAX_PID` and `PROC_VMM_START`.
abbrev pub kstacksz : ℕ
kstacksz = 4096

abbrev pub proc_max_pid : ℕ
proc_max_pid = 1024

abbrev pub proc_vmm_start : ℕ
proc_vmm_start = 0x10000000

-- The field `cont` is never used.
pub record Pcb : Type 0 where
  pub pid : ℕ
  pub dirtable : ℕ
  pub kstack : ℕ
  pub regs : ℕ
  pub state : ℕ
  pub next : ℕ

abbrev pub sizeof_pcb : ℕ
sizeof_pcb = 28

-- The globals of process.c, the field `esp0` of the processor's task state segment, and the heap,
-- with the virtual memory manager that it stands on.
pub record Processes : Type 0 where
  pub heap : Heap
  pub pcbs : ℕ → Pcb
  pub frames : ℕ → Registers
  pub stacks : Memory
  pub proc_list : ℕ
  pub proc_current : ℕ
  pub last_pid : ℕ
  pub esp0 : ℕ

unfoldable pub put_pcb : ℕ → Pcb → Processes → Processes
put_pcb a p s = record s { pcbs = λ b. if b == a then p else s.pcbs b }

unfoldable pub put_frame : ℕ → Registers → Processes → Processes
put_frame a r s = record s { frames = λ b. if b == a then r else s.frames b }

-- `memset(regs, 0x00, sizeof(*regs))`.
abbrev pub clear_registers : Registers
clear_registers = record {
  gs = 0;
  fs = 0;
  es = 0;
  ds = 0;
  edi = 0;
  esi = 0;
  ebp = 0;
  tampered_esp = 0;
  ebx = 0;
  edx = 0;
  ecx = 0;
  eax = 0;
  int_no = 0;
  err_code = 0;
  eip = 0;
  cs = 0;
  eflags = 0;
}

unfoldable pub change_tss : ℕ → Processes → Processes
change_tss p s = record s { esp0 = u32 ((s.pcbs p).kstack + kstacksz) }

unfoldable pub stack_mapped : Option (Vmm × ℤ) → Outcome Vmm
stack_mapped none = page_fault
stack_mapped (some (v, pos zero)) = done v
stack_mapped (some (v, pos (suc n))) = panic
stack_mapped (some (v, negsuc n)) = panic

unfoldable pub got_frame : ℕ → Outcome ℕ
got_frame zero = panic
got_frame (suc n) = done (suc n)

-- The words above the registers, `ret2` and `ret_stack`, and the registers, with `exit` in EIP.
unfoldable pub set_stack : ℕ → ℕ → ℕ → ℕ → Processes → Processes
set_stack p exit ret2 ret_stack s =
    let top = u32 ((s.pcbs p).kstack + kstacksz) in
    let words = write (write s.stacks (top - 4) ret2) (top - 8) ret_stack in
    let regs = top - 8 - sizeof_registers in
    let s1 = put_pcb p (record (s.pcbs p) { regs = regs }) (record s { stacks = words }) in
    put_frame regs (record clear_registers { eip = exit }) s1

-- `fuel` is that of `heap_malloc`.
unfoldable pub alloc_proc : ℕ → ℕ → ℕ → ℕ → Processes → Outcome (Processes × ℕ)
alloc_proc fuel exit ret2 ret_stack s = do
  (h, p) ← heap_malloc fuel sizeof_pcb s.heap
  let pid = s.last_pid + 1
  if leb proc_max_pid pid then panic else (do
    let virt_addr = u32 (proc_vmm_start + pid * kstacksz)
    let (pmm', block) = pmm_alloc_first h.vmm.pmm
    phys_addr ← got_frame block
    v ← stack_mapped (vmm_map_page phys_addr virt_addr page_writable (record h.vmm { pmm = pmm' }))
    let x = record (s.pcbs p) { pid = pid; state = proc_ready; kstack = virt_addr }
    let s1 = put_pcb p x (record s { heap = record h { vmm = v }; last_pid = pid })
    done (set_stack p exit ret2 ret_stack s1, p))

-- What `process_init` sets once it has the process at `p`.
unfoldable pub set_first : ℕ → Processes → Processes
set_first p s =
    let x = s.pcbs p in
    let r = record (s.frames x.regs) {
      ds = 0x10;
      es = 0x10;
      fs = 0x10;
      gs = 0x10;
      eflags = 0x202;
      cs = 0x08;
    } in
    let x' = record x { state = proc_running; dirtable = s.heap.vmm.cr3; next = p } in
    change_tss p (record (put_pcb p x' (put_frame x.regs r s)) { proc_current = p })

-- `process_dummy` is the address of the function of this name.
unfoldable pub process_init : ℕ → ℕ → Processes → Outcome (Processes × ℕ)
process_init fuel process_dummy s = do
  (s1, p) ← alloc_proc fuel process_dummy 0 0 s
  let s2 = set_first p s1
  done (s2, (s2.pcbs p).pid)

-- The registers of the interrupted process are kept, and the process of `proc_list` goes on.
unfoldable pub exchange : Registers → Processes → Processes × ℕ
exchange regs s =
    let old = s.proc_current in
    let new = s.proc_list in
    let s1 = put_frame (s.pcbs old).regs regs s in
    let s2 = put_pcb old (record (s1.pcbs old) { state = proc_ready }) s1 in
    let s3 = change_tss new (record s2 { proc_current = new; proc_list = old }) in
    let v = vmm_switch_pdir (s3.pcbs new).dirtable s3.heap.vmm in
    let s4 = record s3 { heap = record s3.heap { vmm = v } } in
    let s5 = put_pcb new (record (s4.pcbs new) { state = proc_running }) s4 in
    (s5, u32 ((s5.pcbs new).kstack + kstacksz + 2 ^ 32 - sizeof_registers - 8))

unfoldable pub switch_task : Registers → Processes → Processes × ℕ
switch_task regs s = if s.proc_list == 0 then (s, 0) else exchange regs s
