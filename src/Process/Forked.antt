-- ===== src/Process/Forked.antt =====
-- What `real_fork` and `process_start_usermode`, src/sys/process.c, leave of the saved registers.
use frod.Base.{==_refl, ℕ, ◌+◌, ◌*◌, ◌/◌, ◌<◌, ◌≡◌, ◌≢◌, refl, ap, arith, u32}
use frod.Vmm.{Vmm, load}
use frod.Vmm.Inv.{dir_entry, IsValid}
use frod.Vmm.Backed.{IsBacked, translate_backed}
use frod.Vmm.Copy.{IsCopied, vmm_create_address_space-IsCopied}
use frod.Heap.{done}
use frod.Process.{Registers, Processes, proc_max_pid, proc_ready, put_pcb, put_frame, alloc_proc}
use frod.Process.Alloc.{IsNew, stack_of}
use frod.Process.Fork.{
  seen, registers_at, shares, link_behind, new_space, set_user_frame, wait_alone, real_fork,
  process_start_usermode,
}

-- The entries of the directory that lie where the registers are saved.
pub entries_as_registers : Vmm → Registers
entries_as_registers v = record {
  gs = dir_entry v 1005;
  fs = dir_entry v 1006;
  es = dir_entry v 1007;
  ds = dir_entry v 1008;
  edi = dir_entry v 1009;
  esi = dir_entry v 1010;
  ebp = dir_entry v 1011;
  tampered_esp = dir_entry v 1012;
  ebx = dir_entry v 1013;
  edx = dir_entry v 1014;
  ecx = dir_entry v 1015;
  eax = dir_entry v 1016;
  int_no = dir_entry v 1017;
  err_code = dir_entry v 1018;
  eip = dir_entry v 1019;
  cs = dir_entry v 1020;
  eflags = dir_entry v 1021;
}

module _ {s t : Vmm} {code virt f : ℕ} (c : IsCopied s t code virt f) where
  seen_entry : (a k : ℕ) → a ≡ virt + 4 * k → k < 1023 → seen t a ≡ dir_entry s k
  unfolding load
  seen_entry a k e lt = rw (e, translate_backed c.backed (4 * k) (omega arith)) (c.entries k lt)

  registers_at_entries : (a : ℕ) → a ≡ virt + 4 * 1005 → registers_at t a ≡ entries_as_registers s
  unfolding entries_as_registers
  registers_at_entries a e =
      rw
        (
          seen_entry a 1005 e (omega arith),
          seen_entry (a + 4) 1006 (omega arith) (omega arith),
          seen_entry (a + 8) 1007 (omega arith) (omega arith),
          seen_entry (a + 12) 1008 (omega arith) (omega arith),
          seen_entry (a + 16) 1009 (omega arith) (omega arith),
          seen_entry (a + 20) 1010 (omega arith) (omega arith),
          seen_entry (a + 24) 1011 (omega arith) (omega arith),
          seen_entry (a + 28) 1012 (omega arith) (omega arith),
          seen_entry (a + 32) 1013 (omega arith) (omega arith),
          seen_entry (a + 36) 1014 (omega arith) (omega arith),
          seen_entry (a + 40) 1015 (omega arith) (omega arith),
          seen_entry (a + 44) 1016 (omega arith) (omega arith),
          seen_entry (a + 48) 1017 (omega arith) (omega arith),
          seen_entry (a + 52) 1018 (omega arith) (omega arith),
          seen_entry (a + 56) 1019 (omega arith) (omega arith),
          seen_entry (a + 60) 1020 (omega arith) (omega arith),
          seen_entry (a + 64) 1021 (omega arith) (omega arith),
        )
        refl

module _ (code virt f : ℕ) (s : Processes) (valid : IsValid s.heap.vmm)
    (k : IsBacked s.heap.vmm virt f) where
  -- The registers that lie in the page of the new address space are entries of the directory.
  new_space-entries :
      (v : Vmm) × (new_space code virt s ≡ done (shares virt v s, code))
      × ((a : ℕ)
          → a ≡ virt + 4 * 1005
          → (shares virt v s).frames a ≡ entries_as_registers s.heap.vmm)
  unfolding new_space shares
  new_space-entries =
      let (v, e, c) = vmm_create_address_space-IsCopied code virt f s.heap.vmm valid k in
      (
        v,
        rw e refl,
        λ a here.
            let inside : a / 4096 ≡ virt / 4096 = omega (arith, here, k.whole_page) in
            rw (inside, ==_refl (virt / 4096)) (registers_at_entries c a here),
      )

module _ (p phys_addr : ℕ) (s : Processes) (other : s.proc_current ≢ p) where
  link_behind-linked :
      (link_behind p phys_addr s).pcbs p
      ≡ record (s.pcbs p) { dirtable = phys_addr; next = (s.pcbs s.proc_current).next }
  unfolding link_behind put_pcb
  link_behind-linked = ground arith

  link_behind-current : ((link_behind p phys_addr s).pcbs s.proc_current).next ≡ p
  unfolding link_behind put_pcb
  link_behind-current = ground arith

link_behind-frames :
    (p phys_addr : ℕ) (s : Processes) → (link_behind p phys_addr s).frames ≡ s.frames
unfolding link_behind put_pcb
link_behind-frames p phys_addr s = refl

-- The process at `p` of `t` is new on the address space `code`, and its saved registers are the
-- directory's entries of `v` that lie at the same place.
pub record HasEntries (t : Processes) (v : Vmm) (p pid code : ℕ) : Type 0 where
  pub number : (t.pcbs p).pid ≡ pid
  pub space : (t.pcbs p).dirtable ≡ code
  pub registers : t.frames (t.pcbs p).regs ≡ entries_as_registers v

module _ (fuel code exit ret2 ret_stack f p : ℕ) (s u : Processes)
    (made : alloc_proc fuel exit ret2 ret_stack s ≡ done (u, p))
    (new : IsNew s u p exit ret2 ret_stack) (below : s.last_pid + 1 < proc_max_pid)
    (valid : IsValid u.heap.vmm) (k : IsBacked u.heap.vmm (stack_of (s.last_pid + 1)) f) where
  frame_place : (u.pcbs p).regs ≡ stack_of (s.last_pid + 1) + 4 * 1005
  frame_place = omega (arith, new.stack.regs_place, new.kstack)

  space_place : u32 (0x10000000 + u.last_pid * 4096) ≡ stack_of (s.last_pid + 1)
  space_place = omega (arith, new.counted)

  -- Where `alloc_proc` has made a new process at `p`, not the current one, with a number below the
  -- highest, the page tables are well formed and the page of its stack has a block apart from those
  -- that translate it, `real_fork` returns the number of the process and puts it behind the current
  -- one; but its saved registers, the program counter too, are then entries of the page directory,
  -- since the address space is made in the page of the stack.
  pub real_fork-HasEntries :
      (ebp : ℕ)
      → u.proc_current ≢ p
      → (t : Processes) × (real_fork fuel code exit ret2 ret_stack ebp s ≡ done (t, s.last_pid + 1))
        × HasEntries t u.heap.vmm p (s.last_pid + 1) code
        × ((t.pcbs u.proc_current).next ≡ p)
        × ((t.pcbs p).next ≡ (u.pcbs u.proc_current).next)
  unfolding real_fork put_frame
  real_fork-HasEntries ebp other =
      let saved = record (u.frames (u.pcbs u.proc_current).regs) { eip = exit; ebp = ebp } in
      let (v, e, entries) =
        new_space-entries code (stack_of (s.last_pid + 1)) f (put_frame (u.pcbs p).regs saved u)
          valid k in
      let s3 = shares (stack_of (s.last_pid + 1)) v (put_frame (u.pcbs p).regs saved u) in
      let linked : (link_behind p code s3).pcbs p
          ≡ record (u.pcbs p) { dirtable = code; next = (u.pcbs u.proc_current).next } =
        unfold shares in link_behind-linked p code s3 other in
      (
        link_behind p code s3,
        rw made (
            rw space_place
              (rw e (unfold shares in ap (λ n. done (link_behind p code s3, n)) new.pid))),
        record {
          number = rw linked new.pid;
          space = rw linked refl;
          registers =
              rw (linked, link_behind-frames p code s3) (entries (u.pcbs p).regs frame_place);
        },
        (unfold shares in link_behind-current p code s3 other),
        rw linked refl,
      )

module _ (fuel code usermode f p : ℕ) (s u : Processes)
    (made : alloc_proc fuel usermode 0 0 s ≡ done (u, p)) (new : IsNew s u p usermode 0 0)
    (below : s.last_pid + 1 < proc_max_pid) (valid : IsValid u.heap.vmm)
    (k : IsBacked u.heap.vmm (stack_of (s.last_pid + 1)) f) where
  -- On the same conditions `process_start_usermode` makes the process the one that waits, and its
  -- saved registers, the user's segments too, are entries of the page directory.
  pub process_start_usermode-HasEntries :
      (t : Processes) × (process_start_usermode fuel code usermode s ≡ done t)
      × HasEntries t u.heap.vmm p (s.last_pid + 1) code
      × (t.proc_list ≡ p)
  unfolding process_start_usermode
  process_start_usermode-HasEntries =
      let s2 = set_user_frame p (put_pcb p (record (u.pcbs p) { state = proc_ready }) u) in
      let (v, e, entries) =
        new_space-entries code (stack_of (s.last_pid + 1)) f s2
          (unfold set_user_frame put_pcb put_frame in valid)
          (unfold set_user_frame put_pcb put_frame in k) in
      let s3 = shares (stack_of (s.last_pid + 1)) v s2 in
      let space : u32 (0x10000000 + s2.last_pid * 4096) ≡ stack_of (s.last_pid + 1) =
        unfold set_user_frame put_pcb put_frame in omega (arith, new.counted) in
      let place : (u.pcbs p).regs ≡ stack_of (s.last_pid + 1) + 4 * 1005 =
        omega (arith, new.stack.regs_place, new.kstack) in
      let kept : s3.pcbs p ≡ record (u.pcbs p) { state = proc_ready } =
        unfold shares set_user_frame put_pcb put_frame in ground arith in
      let alone : (wait_alone p code s3).pcbs p ≡ record (s3.pcbs p) { dirtable = code; next = p } =
        unfold wait_alone put_pcb in ground arith in
      let same : (wait_alone p code s3).frames ≡ s3.frames = unfold wait_alone put_pcb in refl in
      (
        wait_alone p code s3,
        rw made (rw space (rw e refl)),
        record {
          number = rw (alone, kept) new.pid;
          space = rw alone refl;
          registers =
              rw (alone, kept, same)
                (unfold set_user_frame put_pcb put_frame in entries (u.pcbs p).regs place);
        },
        unfold wait_alone in refl,
      )
