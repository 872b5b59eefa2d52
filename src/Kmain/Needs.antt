-- ===== src/Kmain/Needs.antt =====
-- What each part of the kernel uses that another part has set up, for the order in which kmain of
-- src/sys/kmain.c calls them.
use Prim.Native.String.{String, compare}
use text.Mathlib.Text.{is_eq}
use frod.Base.{◌||◌, ◌&&◌, ◌==◌, ℕ, Bool, true, false, List, [], ◌∷◌}
use frod.Cpu.{kernel_stack_top}
use frod.Kmain.{
  Call, calls_vga_init, calls_check_necessary_flags, calls_init_pmm, calls_pmm_mark_mem_taken,
  calls_move_module, calls_kbd_init, calls_cpu_supported, calls_apic_init, calls_apic_find_info,
  calls_apic_find_cpus, calls_lapic_install, calls_lapic_read_version, calls_gdt_install,
  calls_pic_init, calls_ioapic_install, calls_idt_install, calls_isr_install, calls_ps2_init,
  calls_ps2kbd_init, calls_uart_init, calls_syscall_init, calls_vmm_init, calls_move_stack,
  calls_heap_init, calls_process_init, calls_cpu_start_aps, calls_kprintf, MultibootInfo,
  kernel_stack_sz,
}

-- One of the calls, the latest first.
unfoldable pub has : (Call → Bool) → List Call → Bool
has p [] = false
has p (c ∷ calls) = p c || has p calls

-- Which function a call is of.
pub data Part : Type 0 where
  screen : Part
  processor : Part
  firmware : Part
  system_info : Part
  cpu_list : Part
  local_apic : Part
  segments : Part
  pic : Part
  io_apic : Part
  gates : Part
  handlers : Part
  ps2 : Part
  ps2_keyboard : Part
  serial : Part
  system_calls : Part
  paging : Part
  heap : Part
  processes : Part
  further_cpus : Part

unfoldable pub starts : Part → Call → Bool
starts screen (calls_vga_init fg bg) = true
starts processor calls_cpu_supported = true
starts firmware calls_apic_init = true
starts system_info calls_apic_find_info = true
starts cpu_list calls_apic_find_cpus = true
starts local_apic calls_lapic_install = true
starts segments calls_gdt_install = true
starts pic calls_pic_init = true
starts io_apic calls_ioapic_install = true
starts gates calls_idt_install = true
starts handlers calls_isr_install = true
starts ps2 calls_ps2_init = true
starts ps2_keyboard calls_ps2kbd_init = true
starts serial calls_uart_init = true
starts system_calls calls_syscall_init = true
starts paging calls_vmm_init = true
starts heap calls_heap_init = true
starts processes calls_process_init = true
starts further_cpus calls_cpu_start_aps = true
starts _ _ = false

abbrev pub done : Part → List Call → Bool
done p calls = has (starts p) calls

-- The calls that get what the loader has left and `kmain` was given.
module _ (info : MultibootInfo) (mem_start mem_end stack : ℕ) where
  unfoldable pub checks_flags : Call → Bool
  checks_flags (calls_check_necessary_flags flags) = flags == info.flags
  checks_flags _ = false

  unfoldable pub finds_blocks : Call → Bool
  finds_blocks (calls_init_pmm map length) = (map == info.mmap_addr) && (length == info.mmap_length)
  finds_blocks _ = false

  unfoldable pub takes_kernel : Call → Bool
  takes_kernel (calls_pmm_mark_mem_taken from to) = (from == mem_start) && (to == mem_end)
  takes_kernel _ = false

  unfoldable pub moves : String → ℕ → Call → Bool
  moves name to (calls_move_module p n a) =
      (p == info.mboot_ptr) && (is_eq (compare n name) && (a == to))
  moves name to _ = false

  unfoldable pub reads_keys : Call → Bool
  reads_keys (calls_kbd_init keys) = true
  reads_keys _ = false

  unfoldable pub moves_stack : Call → Bool
  moves_stack (calls_move_stack new sz from) =
      (new == kernel_stack_top) && ((sz == kernel_stack_sz) && (from == stack))
  moves_stack _ = false

  -- Whether the calls `before` have set up what the call uses: the screen for messages; the blocks
  -- of memory for what allocates or takes them, the kernel's own being taken before the first is
  -- given out; the modules that are read or run; the firmware's tables and the list of processors;
  -- the local APIC for what asks for its number, its version or its highest interrupt; the tables
  -- of the processor and of the handlers, which the further processors share; and the paging.
  unfoldable pub ready : Call → List Call → Bool
  ready (calls_kprintf kl fmt args) before = done screen before
  ready (calls_init_pmm map length) before = has checks_flags before
  ready (calls_pmm_mark_mem_taken from to) before = has finds_blocks before
  ready (calls_move_module p name to) before = has checks_flags before && has finds_blocks before
  ready (calls_kbd_init keys) before = has (moves "sc2.bin" keys) before
  ready calls_apic_find_info before = done firmware before
  ready calls_apic_find_cpus before = done firmware before
  ready calls_lapic_install before = done cpu_list before
  ready calls_lapic_read_version before = done local_apic before
  ready calls_gdt_install before = done cpu_list before && done local_apic before
  ready calls_ioapic_install before = done cpu_list before && done local_apic before
  ready calls_idt_install before = done segments before
  ready calls_ps2_init before = done handlers before && done pic before
  ready calls_ps2kbd_init before = has reads_keys before && done ps2 before
  ready calls_uart_init before = done handlers before && done pic before
  ready calls_syscall_init before = done handlers before
  ready calls_vmm_init before = has takes_kernel before && done handlers before
  ready (calls_move_stack new sz from) before = done paging before
  ready calls_heap_init before = done paging before
  ready calls_process_init before = done heap before
  ready calls_cpu_start_aps before =
      has (moves "bootap.bin" 0x7000) before
      && (done cpu_list before
          && (done local_apic before
              && (done segments before
                  && (done gates before && (done serial before && done processes before)))))
  ready _ before = true

  -- Each call is made behind those that set up what it uses.
  unfoldable pub in_order : List Call → Bool
  in_order [] = true
  in_order (c ∷ calls) = ready c calls && in_order calls

  -- All parts are started.
  abbrev pub all_started : List Call → Bool
  all_started calls =
      done further_cpus calls
      && (done system_calls calls
          && (done ps2_keyboard calls
              && (done io_apic calls
                  && (has moves_stack calls && (done system_info calls && done processor calls)))))
