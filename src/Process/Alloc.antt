-- ===== src/Process/Alloc.antt =====
-- What `alloc_proc` makes, src/sys/process.c.
use frod.Base.{
  ℕ, zero, suc, write, ◌+◌, ◌*◌, ◌%◌, ◌<◌, ◌≡◌, refl, ◌≢◌, arith, ap, some, none, u32, leb, false,
}
use frod.Pmm.{Pmm, pmm_alloc_first}
use frod.Vmm.{Vmm, translate, vmm_map_page, vmm_success, page_writable}
use frod.Vmm.Inv.{IsValid}
use frod.Vmm.Map.{HasFree}
use frod.Vmm.Pages.{IsMapped, vmm_map_page-IsMapped}
use frod.Heap.{Heap, done, heap_malloc}
use frod.Process.{
  Processes, proc_ready, proc_max_pid, proc_vmm_start, kstacksz, sizeof_pcb, clear_registers,
  put_pcb, put_frame, stack_mapped, got_frame, set_stack, set_first, alloc_proc, process_init,
  change_tss, proc_running,
}
use frod.Process.Switch.{HasStack}

abbrev pub stack_of : ℕ → ℕ
stack_of pid = proc_vmm_start + pid * kstacksz

-- The process at `p` of `t` is new: it has the next number, a kernel stack of its own, and waits
-- to go on at `exit`, with all other registers clear.
pub record IsNew (s t : Processes) (p exit ret2 ret_stack : ℕ) : Type 0 where
  pub pid : (t.pcbs p).pid ≡ s.last_pid + 1
  pub counted : t.last_pid ≡ s.last_pid + 1
  pub state : (t.pcbs p).state ≡ proc_ready
  pub kstack : (t.pcbs p).kstack ≡ stack_of (s.last_pid + 1)
  pub stack : HasStack t p
  pub frame : t.frames (t.pcbs p).regs ≡ record clear_registers { eip = exit }
  pub returns : t.stacks ((t.pcbs p).kstack + 4092) ≡ ret2
  pub stays : t.stacks ((t.pcbs p).kstack + 4088) ≡ ret_stack
  pub others : (a : ℕ) → a ≢ p → t.pcbs a ≡ s.pcbs a

got_frame_some : (n : ℕ) → n ≢ 0 → got_frame n ≡ done n
unfolding got_frame
got_frame_some zero ne = absurd (ne refl)
got_frame_some (suc n) ne = refl

-- The process at `p`, before its stack is set.
abbrev started : ℕ → Heap → Vmm → Processes → Processes
started p h v s =
    let x = record (s.pcbs p) {
      pid = s.last_pid + 1;
      state = proc_ready;
      kstack = stack_of (s.last_pid + 1);
    } in
    put_pcb p x (record s { heap = record h { vmm = v }; last_pid = s.last_pid + 1 })

set_stack-IsNew :
    (exit ret2 ret_stack : ℕ) (s : Processes) (h : Heap) (p : ℕ) (v : Vmm)
    → s.last_pid + 1 < proc_max_pid
    → IsNew s (set_stack p exit ret2 ret_stack (started p h v s)) p exit ret2 ret_stack
unfolding set_stack put_pcb put_frame write
set_stack-IsNew exit ret2 ret_stack s h p v below = record {
  pid = ground arith;
  counted = refl;
  state = ground arith;
  kstack = ground arith;
  stack = record { below = ground arith; regs_place = ground arith };
  frame = ground arith;
  returns = ground arith;
  stays = ground arith;
  others = λ a ne. ground arith;
}

set_stack_vmm :
    (exit ret2 ret_stack : ℕ) (s : Processes) (h : Heap) (p : ℕ) (v : Vmm)
    → (set_stack p exit ret2 ret_stack (started p h v s)).heap.vmm ≡ v
unfolding set_stack put_pcb put_frame
set_stack_vmm exit ret2 ret_stack s h p v = refl

alloc_proc_lem :
    (fuel exit ret2 ret_stack : ℕ) (s : Processes) (h : Heap) (p : ℕ) (pmm' : Pmm) (phys : ℕ)
    (v : Vmm)
    → heap_malloc fuel sizeof_pcb s.heap ≡ done (h, p)
    → s.last_pid + 1 < proc_max_pid
    → pmm_alloc_first h.vmm.pmm ≡ (pmm', phys)
    → phys ≢ 0
    → vmm_map_page phys (stack_of (s.last_pid + 1)) page_writable (record h.vmm { pmm = pmm' })
      ≡ some (v, vmm_success)
    → alloc_proc fuel exit ret2 ret_stack s
      ≡ done (set_stack p exit ret2 ret_stack (started p h v s), p)
unfolding alloc_proc stack_mapped
alloc_proc_lem fuel exit ret2 ret_stack s h p pmm' phys v given below taken some_block m =
    let low : u32 (stack_of (s.last_pid + 1)) ≡ stack_of (s.last_pid + 1) = omega arith in
    let few : leb proc_max_pid (s.last_pid + 1) ≡ false = ground arith in
    rw given (rw few (rw taken (rw (got_frame_some phys some_block) (rw low (rw m refl)))))

-- The process at `p` runs, for itself: at `eip`, with the kernel's segments, on the page directory
-- in force and with its own kernel stack.
pub record IsFirst (s t : Processes) (p eip : ℕ) : Type 0 where
  pub current : t.proc_current ≡ p
  pub state : (t.pcbs p).state ≡ proc_running
  pub alone : (t.pcbs p).next ≡ p
  pub pid : (t.pcbs p).pid ≡ s.last_pid + 1
  pub dirtable : (t.pcbs p).dirtable ≡ t.heap.vmm.cr3
  pub stack : HasStack t p
  pub own_stack : t.esp0 ≡ (t.pcbs p).kstack + kstacksz
  pub goes_on : (t.frames (t.pcbs p).regs).eip ≡ eip
  pub code : (t.frames (t.pcbs p).regs).cs ≡ 0x08
  pub data_segment : (t.frames (t.pcbs p).regs).ds ≡ 0x10
  pub flags : (t.frames (t.pcbs p).regs).eflags ≡ 0x202
  pub others : (a : ℕ) → a ≢ p → t.pcbs a ≡ s.pcbs a

module _ (fuel : ℕ) (s : Processes) (h : Heap) (p : ℕ) (pmm' : Pmm) (phys : ℕ)
    (given : heap_malloc fuel sizeof_pcb s.heap ≡ done (h, p))
    (below : s.last_pid + 1 < proc_max_pid) (taken : pmm_alloc_first h.vmm.pmm ≡ (pmm', phys))
    (some_block : phys ≢ 0) (aligned : phys % 4096 ≡ 0)
    (valid : IsValid (record h.vmm { pmm = pmm' })) (room : HasFree pmm')
    (fresh : translate (record h.vmm { pmm = pmm' }) (stack_of (s.last_pid + 1)) ≡ none) where
  -- Where the heap gives `p`, the number is below the highest, an aligned block that is not the
  -- first is free for the stack and another for a page table, the page tables are well formed and
  -- the stack's page is not mapped, `alloc_proc` returns: the process at `p` is new, and the page
  -- of its kernel stack is mapped to the block, with no other change to what the addresses below
  -- the window of the page tables translate to.
  pub alloc_proc-IsNew :
      (exit ret2 ret_stack : ℕ)
      → (t : Processes) × (alloc_proc fuel exit ret2 ret_stack s ≡ done (t, p))
        × IsNew s t p exit ret2 ret_stack
        × IsMapped (record h.vmm { pmm = pmm' }) t.heap.vmm (stack_of (s.last_pid + 1)) phys
  alloc_proc-IsNew exit ret2 ret_stack =
      let (v, m, is_mapped) =
        vmm_map_page-IsMapped (record h.vmm { pmm = pmm' }) phys (stack_of (s.last_pid + 1))
          page_writable valid (omega arith) room aligned (omega arith) fresh in
      (
        set_stack p exit ret2 ret_stack (started p h v s),
        alloc_proc_lem fuel exit ret2 ret_stack s h p pmm' phys v given below taken some_block m,
        set_stack-IsNew exit ret2 ret_stack s h p v below,
        rw (set_stack_vmm exit ret2 ret_stack s h p v) is_mapped,
      )

  -- On the conditions of `alloc_proc-IsNew`, `process_init` returns the next number: the process at
  -- `p` runs at `process_dummy`, with the kernel's segments, on the page directory in force and
  -- with its own kernel stack, it is its own successor, and no other control block changes.
  pub process_init-IsFirst :
      (process_dummy : ℕ)
      → (t : Processes) × (process_init fuel process_dummy s ≡ done (t, s.last_pid + 1))
        × IsFirst s t p process_dummy
  unfolding process_init set_first put_pcb put_frame change_tss
  process_init-IsFirst process_dummy =
      let (t, e, n, is_mapped) = alloc_proc-IsNew process_dummy 0 0 in
      let pid_same : ((set_first p t).pcbs p).pid ≡ s.last_pid + 1 = ground (arith, n.pid) in
      let eip_same : (t.frames (t.pcbs p).regs).eip ≡ process_dummy = ap (λ r. r.eip) n.frame in
      (
        set_first p t,
        rw e (ap (λ n. done (set_first p t, n)) pid_same),
        record {
          current = refl;
          state = ground arith;
          alone = ground arith;
          pid = pid_same;
          dirtable = ground arith;
          stack = record {
            below = ground (arith, n.stack.below);
            regs_place = ground (arith, n.stack.regs_place);
          };
          own_stack = ground (arith, n.stack.below);
          goes_on = ground (arith, eip_same);
          code = ground arith;
          data_segment = ground arith;
          flags = ground arith;
          others = λ a ne. ground (arith, n.others a ne);
        },
      )
