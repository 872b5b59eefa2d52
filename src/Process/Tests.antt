-- ===== src/Process/Tests.antt =====
-- Runs of src/sys/process.c: two processes that take turns, and a process on a heap of one free
-- block of 4 MB, in an address space without a page table.
use frod.Base.{ℕ, ◌+◌, ◌*◌, write, ◌≡◌, refl, arith, ◌==◌, if◌then◌else◌, IsBytes}
use frod.Pmm.{Pmm, pmm_alloc_first, alloc_from, bitmap_is_set, bitmap_set}
use frod.Pmm.Bitmap.{set-IsBytes}
use frod.Vmm.{Vmm, translate}
use frod.Vmm.Inv.{IsValid}
use frod.Vmm.Map.{HasFree}
use frod.Vmm.Pages.{IsMapped}
use frod.Heap.{
  Heap, LlMalloc, done, heap_malloc, heap_start, find_from, fits, take_block, put, set_used,
  set_size, set_next, set_prev,
}
use frod.Process.{Registers, Pcb, Processes, clear_registers, alloc_proc, switch_task}
use frod.Process.Switch.{IsScheduled, IsSwitched, switch_task-IsSwitched}
use frod.Process.Alloc.{IsNew, stack_of, alloc_proc-IsNew}

abbrev pmm : Pmm
pmm = record { mem = λ a. if a == 0x500 then 0x03 else 0; pmm_bitmap = 0x500; pmm_bitmap_sz = 16 }

abbrev vmm : Vmm
vmm = record {
  words = λ a. if a == 0x1FFC then 0x1003 else 0;
  pmm = pmm;
  kernel_dir = 0x1000;
  current_dir = 0x1000;
  cr3 = 0x1000;
}

abbrev free_block : LlMalloc
free_block = record {
  next = heap_start;
  prev = heap_start;
  size = 0x3FFFF0;
  used = 0;
  magic1 = 0xabcd;
  magic2 = 0xef;
}

abbrev heap : Heap
heap = record {
  blocks = λ a. free_block;
  kern_heap = heap_start;
  blocks_allocked = 1024;
  vmm = vmm;
}

abbrev process : ℕ → ℕ → Pcb
process n st = record {
  pid = n;
  dirtable = 0x1000 * n;
  kstack = stack_of n;
  regs = stack_of n + 4020;
  state = st;
  next = 0;
}

-- The first process runs, the second one waits.
abbrev pub two : Processes
two = record {
  heap = heap;
  pcbs = λ a. if a == 0x20000010 then process 1 1 else process 2 2;
  frames = λ a. clear_registers;
  stacks = λ a. 0;
  proc_list = 0x20000040;
  proc_current = 0x20000010;
  last_pid = 2;
  esp0 = stack_of 2;
}

pub two-IsScheduled : IsScheduled two
two-IsScheduled = record {
  waits = λ e. omega arith;
  runs = λ e. omega arith;
  apart = λ e. omega arith;
  apart_regs = λ e. omega arith;
  stack_runs = record { below = omega arith; regs_place = refl };
  stack_waits = record { below = omega arith; regs_place = refl };
  running = refl;
  ready = refl;
  own_stack = refl;
  own_dir = refl;
}

abbrev busy : ℕ → Registers
busy n = record clear_registers { eip = n; eax = n + 1; eflags = 0x202 }

switch_task-IsSwitched_example :
    IsSwitched (busy 9) two (switch_task (busy 9) two).0 (switch_task (busy 9) two).1
switch_task-IsSwitched_example = switch_task-IsSwitched (busy 9) two two-IsScheduled

malloc_run : heap_malloc 3 28 heap ≡ done (take_block 28 heap_start heap, 0x20000010)
unfolding heap_malloc find_from fits
malloc_run = refl

alloc_run : pmm_alloc_first pmm ≡ (bitmap_set pmm 2, 0x2000)
unfolding pmm_alloc_first alloc_from bitmap_is_set
alloc_run = refl

abbrev given : Vmm
given = record vmm { pmm = bitmap_set pmm 2 }

pmm-IsBytes : IsBytes pmm.mem
pmm-IsBytes a = ground arith

given-IsValid : IsValid given
given-IsValid = record {
  self_mapped = record { aligned = refl; self = refl; self_present = refl };
  bytes = set-IsBytes pmm 2 pmm-IsBytes;
  dir_taken = unfold bitmap_is_set bitmap_set write in refl;
  taken = λ d lt on. absurd (ground arith);
  not_dir = λ d lt on. absurd (ground arith);
  apart = λ d e lt lt' ne on. absurd (ground arith);
}

given-HasFree : HasFree given.pmm
unfolding pmm_alloc_first alloc_from bitmap_is_set bitmap_set write
given-HasFree = record { pos = omega arith; small = omega arith; free = λ e. absurd (ground arith) }

alloc_proc-IsNew_example :
    (t : Processes) × (alloc_proc 3 0x1234 5 6 two ≡ done (t, 0x20000010))
    × IsNew two t 0x20000010 0x1234 5 6
    × IsMapped given t.heap.vmm (stack_of 3) 0x2000
unfolding take_block put set_used set_size set_next set_prev
alloc_proc-IsNew_example =
    alloc_proc-IsNew 3 two (take_block 28 heap_start heap) 0x20000010 (bitmap_set pmm 2) 0x2000
      malloc_run (omega arith) alloc_run (λ e. omega arith) refl given-IsValid given-HasFree
      (unfold translate in refl) 0x1234 5 6
