-- ===== src/Process/Spaces.antt =====
-- Runs of `real_fork`, src/sys/process.c, in an address space that has a page table for the kernel
-- stacks.
use frod.Base.{ℕ, ◌+◌, write, ◌≡◌, ◌≢◌, refl, arith, some, ◌==◌, if◌then◌else◌, IsBytes}
use frod.Pmm.{Pmm, pmm_alloc_first, alloc_from, bitmap_is_set, bitmap_set}
use frod.Pmm.Bitmap.{set-IsBytes}
use frod.Vmm.{
  Vmm, translate, load, store, vmm_map_page, map_old, entry, diri, pagei, page_of, is_present,
}
use frod.Vmm.Inv.{IsValid}
use frod.Vmm.Start.{vmm_create_address_space}
use frod.Vmm.Backed.{IsBacked}
use frod.Vmm.Copy.{IsCopied, vmm_create_address_space-IsCopied}
use frod.Heap.{
  Outcome, done, heap_malloc, find_from, fits, take_block, put, set_used, set_size, set_next,
  set_prev,
}
use frod.Process.{Processes, alloc_proc, set_stack, stack_mapped, got_frame, put_pcb, put_frame}
use frod.Process.Alloc.{IsNew, stack_of}
use frod.Process.Fork.{real_fork}
use frod.Process.Forked.{HasEntries, real_fork-HasEntries}
use frod.Process.Tests.{two}

-- The directory is in block 1, a table in block 3.
abbrev pmm : Pmm
pmm = record { mem = λ a. if a == 0x500 then 0x0B else 0; pmm_bitmap = 0x500; pmm_bitmap_sz = 16 }

abbrev vmm : Vmm
vmm = record {
  words = λ a. if a == 0x1FFC then 0x1003 else if a == 0x1100 then 0x3003 else 0;
  pmm = pmm;
  kernel_dir = 0x1000;
  current_dir = 0x1000;
  cr3 = 0x1000;
}

abbrev before : Processes
before = record two { heap = record two.heap { vmm = vmm }; proc_current = 0x20000040 }

abbrev got : Outcome (Processes × ℕ) → Processes
got (done (t, p)) = t
got _ = before

abbrev after : Processes
after = got (alloc_proc 3 0x1234 5 6 before)

after_run : alloc_proc 3 0x1234 5 6 before ≡ done (after, 0x20000010)
unfolding alloc_proc heap_malloc find_from fits take_block put set_used set_size set_next set_prev
    pmm_alloc_first alloc_from bitmap_is_set bitmap_set vmm_map_page map_old load store translate
    is_present diri pagei page_of stack_mapped got_frame set_stack put_pcb put_frame
after_run = refl

abbrev mapped : Vmm
mapped = record vmm { pmm = bitmap_set pmm 2; words = write vmm.words 0x300C 0x2003 }

after_vmm : after.heap.vmm ≡ mapped
unfolding alloc_proc heap_malloc find_from fits take_block put set_used set_size set_next set_prev
    pmm_alloc_first alloc_from bitmap_is_set vmm_map_page map_old load store translate is_present
    diri pagei page_of stack_mapped got_frame set_stack put_pcb put_frame entry
after_vmm = refl

after-IsNew : IsNew before after 0x20000010 0x1234 5 6
unfolding alloc_proc heap_malloc find_from fits take_block put set_used set_size set_next set_prev
    pmm_alloc_first alloc_from bitmap_is_set bitmap_set vmm_map_page map_old load store translate
    is_present diri pagei page_of stack_mapped got_frame set_stack put_pcb put_frame write
after-IsNew = record {
  pid = refl;
  counted = refl;
  state = refl;
  kstack = refl;
  stack = record { below = omega arith; regs_place = refl };
  frame = refl;
  returns = refl;
  stays = refl;
  others = λ a ne. ground arith;
}

pmm-IsBytes : IsBytes pmm.mem
pmm-IsBytes a = ground arith

mapped-IsValid : IsValid mapped
unfolding write
mapped-IsValid = record {
  self_mapped = record { aligned = refl; self = refl; self_present = refl };
  bytes = set-IsBytes pmm 2 pmm-IsBytes;
  dir_taken = unfold bitmap_is_set bitmap_set in refl;
  taken =
      λ d lt on. let e : d ≡ 64 = ground arith in rw e (unfold bitmap_is_set bitmap_set in refl);
  not_dir = λ d lt on e. ground arith;
  apart = λ d c lt lt' ne on on' e. ne (ground arith);
}

mapped-IsBacked : IsBacked mapped (stack_of 3) 0x2000
unfolding write
mapped-IsBacked = record {
  self_mapped = mapped-IsValid.self_mapped;
  low = omega arith;
  whole_page = refl;
  dir_present = refl;
  page_present = refl;
  block = refl;
  not_dir = λ e. omega arith;
  not_table = λ e. omega arith;
}

after_other : after.proc_current ≢ 0x20000010
unfolding alloc_proc heap_malloc find_from fits take_block put set_used set_size set_next set_prev
    pmm_alloc_first alloc_from bitmap_is_set vmm_map_page map_old load store translate is_present
    diri pagei page_of stack_mapped got_frame set_stack put_pcb put_frame
after_other e = omega (arith, e)

real_fork-HasEntries_example :
    (t : Processes) × (real_fork 3 0x101500 0x1234 5 6 0x3F0 before ≡ done (t, before.last_pid + 1))
    × HasEntries t after.heap.vmm 0x20000010 (before.last_pid + 1) 0x101500
    × ((t.pcbs after.proc_current).next ≡ 0x20000010)
    × ((t.pcbs 0x20000010).next ≡ (after.pcbs after.proc_current).next)
real_fork-HasEntries_example =
    real_fork-HasEntries 3 0x101500 0x1234 5 6 0x2000 0x20000010 before after after_run after-IsNew
      (omega arith) (rw after_vmm mapped-IsValid) (rw after_vmm mapped-IsBacked) 0x3F0 after_other

vmm_create_address_space-IsCopied_example :
    (t : Vmm) × (vmm_create_address_space 0x101500 (stack_of 3) mapped ≡ some (t, 0x101500))
    × IsCopied mapped t 0x101500 (stack_of 3) 0x2000
vmm_create_address_space-IsCopied_example =
    vmm_create_address_space-IsCopied 0x101500 (stack_of 3) 0x2000 mapped mapped-IsValid
      mapped-IsBacked
