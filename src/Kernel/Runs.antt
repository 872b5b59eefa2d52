-- ===== src/Kernel/Runs.antt =====
-- A run of `move_stack`, src/sys/kernel.c, on a stack of four words.
use frod.Base.{
  ℕ, ◌+◌, ◌-◌, ◌*◌, ◌^◌, u32, ◌<◌, ◌≤◌, ◌≡◌, ◌⊎◌, inl, refl, arith, ◌==◌, if◌then◌else◌, read32,
  write,
}
use frod.Pmm.{pmm_alloc_first, alloc_from, bitmap_is_set, bitmap_set}
use frod.Vmm.{Vmm, translate, load, store, vmm_map_page, map_old, diri, pagei, page_of, is_present}
use frod.Heap.{Outcome, done}
use frod.Kernel.Stack.{Running, map_pages, then_mapped, move_stack}
use frod.Kernel.Moved.{follows, move_stack-IsMoved}

-- The directory is in block 1, a table for the new stack in block 3.
abbrev vmm : Vmm
vmm = record {
  words = λ a. if a == 0x1FFC then 0x1003 else if a == 0x1100 then 0x3003 else 0;
  pmm = record {
    mem = λ a. if a == 0x500 then 0x0B else 0;
    pmm_bitmap = 0x500;
    pmm_bitmap_sz = 16;
  };
  kernel_dir = 0x1000;
  current_dir = 0x1000;
  cr3 = 0x1000;
}

-- The second word of the stack points to the third.
abbrev running : Running
running = record {
  vmm = vmm;
  mem = λ a. if a == 0x5004 then 0x08 else if a == 0x5005 then 0x50 else 7;
  esp = 0x5000;
  ebp = 0x5008;
}

abbrev got : Outcome Vmm → Vmm
got (done v) = v
got _ = vmm

abbrev mapped : Vmm
mapped = got (map_pages 1026 0x10002000 0x10003000 vmm)

mapped_run : map_pages 1026 (0x10003000 - 4096) 0x10003000 vmm ≡ done mapped
unfolding map_pages then_mapped pmm_alloc_first alloc_from bitmap_is_set bitmap_set vmm_map_page
    map_old load store translate is_present diri pagei page_of write
mapped_run = refl

move_stack-IsMoved_example :
    (t : Running) × (move_stack 1026 0x10003000 4096 0x5010 running ≡ done t)
    × (t.vmm ≡ mapped)
    × (t.esp ≡ 0x10003000 - (0x5010 - running.esp))
    × (t.ebp ≡ u32 (running.ebp + u32 (0x10003000 + 2 ^ 32 - 0x5010)))
    × ((j : ℕ)
        → 4 * j < 0x5010 - running.esp
        → read32 t.mem (t.esp + 4 * j)
          ≡ follows 0x10003000 running.esp 0x5010 (read32 running.mem (running.esp + 4 * j)))
    × ((j : ℕ)
        → 0x10003000 - 4096 + 4 * j < t.esp
        → read32 t.mem (0x10003000 - 4096 + 4 * j)
          ≡ follows 0x10003000 running.esp 0x5010 (read32 running.mem (0x10003000 - 4096 + 4 * j)))
    × (read32 t.mem 0x10003000
        ≡ follows 0x10003000 running.esp 0x5010 (read32 running.mem 0x10003000))
    × ((b : ℕ) → (b < 0x10003000 - 4096) ⊎ (0x10003000 + 4 ≤ b) → t.mem b ≡ running.mem b)
move_stack-IsMoved_example =
    move_stack-IsMoved 1026 0x10003000 4096 0x5010 running mapped mapped_run (omega arith) refl
      (omega arith) (omega arith) (omega arith) refl (omega arith) (λ e. absurd (omega arith))
      (omega arith) (inl (omega arith))
