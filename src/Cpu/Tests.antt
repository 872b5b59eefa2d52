-- ===== src/Cpu/Tests.antt =====
-- A run of src/sys/cpu.c on three processors, with a local APIC that is never pending.
use frod.Base.{◌%◌, ◌==◌, ◌≡◌, refl, arith, [], true, false, some}
use frod.Ports.{Device}
use frod.Cpu.{Aps, cpu_start_aps}
use frod.Cpu.Area.{others, stacked, AreInArea}
use frod.Cpu.Stacks.{cpu_start_aps-AreInArea}

abbrev idle : Device
idle tr a = 0

abbrev three : Aps
three = record {
  cpus = λ i. record {
    id = i % 256;
    boot_cpu = i == 0;
    started = 0;
    num_cli = 0;
    int_enabled = false;
  };
  mem = λ a. 0;
  trace = [];
  starts = [];
}

cpu_start_aps-AreInArea_example :
    (t : Aps) × (cpu_start_aps idle 0xFEE00000 2 0x101000 0x200000 (λ i. true) 3 three ≡ some t)
    × (t.starts ≡ stacked three.cpus 0x101000 0x200000 0 (others 3 0 three.cpus))
    × AreInArea t.starts
cpu_start_aps-AreInArea_example =
    cpu_start_aps-AreInArea idle 0xFEE00000 0x101000 0x200000 (λ i. true) (λ tr v. refl)
      (omega arith) (omega arith) (λ i. refl) 3 three (omega arith) (λ i. omega arith) refl refl
