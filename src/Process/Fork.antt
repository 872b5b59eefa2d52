-- ===== src/Process/Fork.antt =====
-- The processes that get an address space of their own, src/sys/process.c: `real_fork` and
-- `process_start_usermode`. The address space is made in the page of the kernel stack, so what the
-- stack holds afterwards is read from the words behind that page.
use frod.Base.{ℕ, ◌+◌, ◌*◌, ◌/◌, ◌==◌, if◌then◌else◌, Option, none, some, u32, bit_or}
use frod.Vmm.{Vmm, load}
use frod.Vmm.Start.{vmm_create_address_space}
use frod.Heap.{Outcome, done, page_fault, ◌>>=◌}
use frod.Process.{Registers, Processes, proc_ready, put_pcb, put_frame, alloc_proc}

-- The word at the virtual address `v`, where its page is present.
abbrev pub word_of : Option ℕ → ℕ
word_of none = 0
word_of (some w) = w

abbrev pub seen : Vmm → ℕ → ℕ
seen v a = word_of (load v a)

abbrev pub registers_at : Vmm → ℕ → Registers
registers_at v a = record {
  gs = seen v a;
  fs = seen v (a + 4);
  es = seen v (a + 8);
  ds = seen v (a + 12);
  edi = seen v (a + 16);
  esi = seen v (a + 20);
  ebp = seen v (a + 24);
  tampered_esp = seen v (a + 28);
  ebx = seen v (a + 32);
  edx = seen v (a + 36);
  ecx = seen v (a + 40);
  eax = seen v (a + 44);
  int_no = seen v (a + 48);
  err_code = seen v (a + 52);
  eip = seen v (a + 56);
  cs = seen v (a + 60);
  eflags = seen v (a + 64);
}

-- The words of the stack in the page at `virt`, and the registers there, are those of `v`.
unfoldable pub shares : ℕ → Vmm → Processes → Processes
shares virt v s = record s {
  heap = record s.heap { vmm = v };
  stacks = λ a. if a / 4096 == virt / 4096 then seen v a else s.stacks a;
  frames = λ a. if a / 4096 == virt / 4096 then registers_at v a else s.frames a;
}

-- `vmm_create_address_space(virt)`; `code` is the address of `pmm_alloc_first`.
unfoldable pub new_space : ℕ → ℕ → Processes → Outcome (Processes × ℕ)
new_space code virt s = made (vmm_create_address_space code virt s.heap.vmm)
  where
    made : Option (Vmm × ℕ) → Outcome (Processes × ℕ)
    made none = page_fault
    made (some (v, phys_addr)) = done (shares virt v s, phys_addr)

-- The process at `p` gets its directory and its place behind the current one.
unfoldable pub link_behind : ℕ → ℕ → Processes → Processes
link_behind p phys_addr s =
    let current = s.pcbs s.proc_current in
    let s1 = put_pcb p (record (s.pcbs p) { dirtable = phys_addr; next = current.next }) s in
    put_pcb s1.proc_current (record (s1.pcbs s1.proc_current) { next = p }) s1

-- `return_fork` is the address of this label, `ret2` and `ret_stack` the addresses to which the
-- function and its caller return, `ebp` the register. What is returned is the number of the process.
unfoldable pub real_fork : ℕ → ℕ → ℕ → ℕ → ℕ → ℕ → Processes → Outcome (Processes × ℕ)
real_fork fuel code return_fork ret2 ret_stack ebp s = do
  (s1, p) ← alloc_proc fuel return_fork ret2 ret_stack s
  let saved = record (s1.frames (s1.pcbs s1.proc_current).regs) { eip = return_fork; ebp = ebp }
  let s2 = put_frame (s1.pcbs p).regs saved s1
  (s3, phys_addr) ← new_space code (u32 (0x10000000 + s2.last_pid * 4096)) s2
  done (link_behind p phys_addr s3, (s3.pcbs p).pid)

-- The segments and the flags of the user's process.
unfoldable pub set_user_frame : ℕ → Processes → Processes
set_user_frame p s =
    let regs = (s.pcbs p).regs in
    put_frame regs
      (record (s.frames regs) {
        ds = bit_or 0x20 0x03;
        es = bit_or 0x20 0x03;
        fs = bit_or 0x20 0x03;
        gs = bit_or 0x20 0x03;
        eflags = 0x200;
        cs = bit_or 0x18 0x03;
      })
      s

-- The process at `p` gets its directory, is its own successor and waits.
unfoldable pub wait_alone : ℕ → ℕ → Processes → Processes
wait_alone p phys_addr s =
    record (put_pcb p (record (s.pcbs p) { dirtable = phys_addr; next = p }) s) { proc_list = p }

-- `usermode` is the address of the function of this name.
unfoldable pub process_start_usermode : ℕ → ℕ → ℕ → Processes → Outcome Processes
process_start_usermode fuel code usermode s = do
  (s1, p) ← alloc_proc fuel usermode 0 0 s
  let s2 = set_user_frame p (put_pcb p (record (s1.pcbs p) { state = proc_ready }) s1)
  (s3, phys_addr) ← new_space code (u32 (0x10000000 + s2.last_pid * 4096)) s2
  done (wait_alone p phys_addr s3)
