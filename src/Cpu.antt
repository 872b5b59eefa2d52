-- ===== src/Cpu.antt =====
-- The start of the further processors, src/sys/cpu.c. Each one reads its stack, its entry point and
-- its page directory from the words behind 0x7000. `starts` is what they read, in order: which one
-- reads is decided by the commands that the local APIC was given.
pub mod Area
pub mod Stacks
mod Tests
use frod.Base.Options.{◌>>=◌}
use frod.Base.{
  ℕ, zero, suc, ◌+◌, ◌-◌, ◌*◌, ◌/◌, ◌%◌, ◌^◌, ◌==◌, ◌||◌, ◌&&◌, not, false, if◌then◌else◌, Bool,
  Option, none, some, List, [], ◌∷◌, ◌++◌, Memory, read32, write, u8, u32,
}
use frod.Ports.{Trace, Device}
use frod.Acpi.{CpuInfo}
use frod.Lapic.{lapic_start_ap, commands}

-- `KERNEL_STACK_TOP`, and `KB4*2`.
abbrev pub kernel_stack_top : ℕ
kernel_stack_top = 0x400000

abbrev pub stack_sz : ℕ
stack_sz = 8192

abbrev pub code : ℕ
code = 0x7000

-- `*(uint32_t*)a = v`.
unfoldable pub write32 : Memory → ℕ → ℕ → Memory
write32 m a v =
    write (write (write (write m a (u8 v)) (a + 1) (u8 (v / 2 ^ 8))) (a + 2) (u8 (v / 2 ^ 16)))
      (a + 3) (u8 (v / 2 ^ 24))

pub record ApStart : Type 0 where
  pub id : ℕ
  pub stack : ℕ
  pub entry : ℕ
  pub pdir : ℕ

-- `cpus`, the memory, the trace of accesses to the local APIC, and the starts so far.
pub record Aps : Type 0 where
  pub cpus : ℕ → CpuInfo
  pub mem : Memory
  pub trace : Trace
  pub starts : List ApStart

-- What the processor `id` reads.
abbrev pub reads : ℕ → Memory → ApStart
reads id m = record {
  id = id;
  stack = read32 m (code + 4);
  entry = read32 m (code + 8);
  pdir = read32 m (code + 12);
}

-- Of the commands, the latest first, the last one for the processors `dest` that does not start them
-- puts them into INIT; they wait for a start behind it.
unfoldable pub in_init : ℕ → List (ℕ × ℕ) → Bool
in_init dest [] = false
in_init dest ((d, command) ∷ l) =
    let mode = command / 2 ^ 8 % 8 in
    if (d == dest) && not (mode == 6) then mode == 5 else in_init dest l

-- What is read behind the commands: if the last one is the start at the page of `code`, for a
-- processor in INIT, that processor reads. Its number is the upper 8 bits of the high word.
unfoldable pub wakes : List (ℕ × ℕ) → Memory → List ApStart
wakes [] m = []
wakes ((dest, command) ∷ l) m =
    if (command == 0x600 + code / 2 ^ 12) && in_init dest l
    then reads (dest / 2 ^ 24) m ∷ []
    else []

-- `dev` and `local_apic` are the local APIC, `fuel` is that of its waits, `cpu_ap_enter` and `pdir`
-- are the address of the function and of the kernel's page directory, and `reaches` says which
-- processors get to `cpu_common_main`.
module _ (dev : Device) (local_apic fuel cpu_ap_enter pdir : ℕ) (reaches : ℕ → Bool) where
  -- `while(cpus[i].started != 1)`; `none` means that the wait has no end.
  unfoldable pub wait_started : ℕ → Aps → Option Aps
  wait_started i s =
      let c = record (s.cpus i) { started = 1 } in
      if ((s.cpus i).started == 1) || reaches i
      then some (record s { cpus = λ j. if j == i then c else s.cpus j })
      else none

  unfoldable pub start_ap : ℕ → ℕ → Aps → Option Aps
  start_ap i curr_stack s = do
    let m1 = write32 s.mem (code + 4) curr_stack
    let m2 = write32 m1 (code + 8) cpu_ap_enter
    let m3 = write32 m2 (code + 12) pdir
    (tr, m4) ← lapic_start_ap dev local_apic fuel (s.cpus i).id code (s.trace, m3)
    let woken = wakes (commands local_apic tr) m4
    wait_started i (record s { mem = m4; trace = tr; starts = s.starts ++ woken })

  -- The loop, at processor `i`, with `left` of them to go.
  unfoldable pub start_from : ℕ → ℕ → ℕ → Aps → Option Aps
  start_from zero i curr_stack s = some s
  start_from (suc left) i curr_stack s =
      let skip = start_from left (i + 1) curr_stack s in
      let lower = u32 (curr_stack + 2 ^ 32 - stack_sz) in
      let go = (do s' ← start_ap i lower s; start_from left (i + 1) lower s') in
      if (s.cpus i).boot_cpu then skip else go

  -- Up to the call of `cpu_common_main`.
  unfoldable pub cpu_start_aps : ℕ → Aps → Option Aps
  cpu_start_aps num_cpus s = start_from num_cpus 0 kernel_stack_top s
