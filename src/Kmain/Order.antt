-- ===== src/Kmain/Order.antt =====
-- The order of the calls of kmain, src/sys/kmain.c, and what it asks of their results.
use Prim.Native.String.{String}
use frod.Base.{ℕ, ◌≤◌, ◌≡◌, true, List}
use frod.Kmain.{Call, Answers, MultibootInfo, max_kernel_mem}
use frod.Kmain.Needs.{
  has, screen, processor, system_info, cpu_list, local_apic, segments, io_apic, gates, handlers,
  ps2_keyboard, serial, system_calls, done, takes_kernel, moves, reads_keys, all_started,
}
use frod.Kmain.Ends.{Ends}

module _ (answers : Answers) (info : MultibootInfo) (mem_start mem_end stack : ℕ) where
  -- What `kmain` has done behind each of its parts.
  record IsTaken (calls : List Call) : Type 0 where
    screened : done screen calls ≡ true
    kernel : has (takes_kernel info mem_start mem_end stack) calls ≡ true
    keys : has (reads_keys info mem_start mem_end stack) calls ≡ true
    boot : has (moves info mem_start mem_end stack "bootap.bin" 0x7000) calls ≡ true

  record IsFound (calls : List Call) : Type 0 where
    taken : IsTaken calls
    processors : done processor calls ≡ true
    described : done system_info calls ≡ true
    cpus : done cpu_list calls ≡ true
    apic : done local_apic calls ≡ true

  record IsServed (calls : List Call) : Type 0 where
    found : IsFound calls
    flat : done segments calls ≡ true
    vectors : done gates calls ≡ true
    table : done handlers calls ≡ true
    routed : done io_apic calls ≡ true
    keyboard : done ps2_keyboard calls ≡ true
    console : done serial calls ≡ true

  record IsDriven (calls : List Call) : Type 0 where
    served : IsServed calls
    called : done system_calls calls ≡ true

  -- All parts are started, and the kernel ends below its limit.
  abbrev pub IsUp : List Call → Type 0
  IsUp calls = (mem_end ≤ max_kernel_mem) × (all_started info mem_start mem_end stack calls ≡ true)
