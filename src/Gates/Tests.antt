-- ===== src/Gates/Tests.antt =====
-- Runs of the packing of descriptors on the kernel's code segment and a gate for interrupt 14.
use frod.Base.{ℕ, ◌+◌, ◌*◌, ◌%◌, ◌^◌, ◌<◌, ◌≤◌, refl, ◌≡◌, arith}
use frod.Gates.Interrupts.{Stubs, Idt, IdtPointer, idt_install, idt_enable}
use frod.Gates.Interrupts.Vectors.{handler_of, stub_of, idt_install-reaches}
use frod.Gates.Segments.{Place, Segments, clear_tss, gdt_install, write_tss}
use frod.Gates.Segments.Install.{IsInstalled, gdt_install-IsInstalled}
use frod.Gates.{GdtEntry, IdtEntry, gdt_set_gate}
use frod.Gates.Fields.{limit_of}

abbrev no_segments : ℕ → GdtEntry
no_segments n = record {
  limit_low = 0;
  base_low = 0;
  base_middle = 0;
  access = 0;
  granularity = 0;
  base_high = 0;
}

abbrev no_gates : ℕ → IdtEntry
no_gates n = record { base_low = 0; selector = 0; zero_byte = 0; flags = 0; base_high = 0 }

abbrev no_table : IdtPointer
no_table = record { limit = 0; base = 0 }

abbrev cold : Idt
cold = record { idt_entries = no_gates; idt_ptr = no_table; idtr = no_table }

abbrev stubs : Stubs
stubs = record {
  idt_none = 0x100000;
  isr = λ n. 0x100100 + 16 * n % 0x1000;
  irq = λ n. 0x102000 + 16 * n % 0x1000;
  intr63 = 0x103000;
  intr64 = 0x103010;
  isr128 = 0x103020;
}

stub_low : (n : ℕ) → stub_of stubs n < 2 ^ 32
stub_low n = ground arith

idt_install-reaches_example :
    let t = idt_enable (idt_install stubs 0x110000 cold) in
    ((n : ℕ)
      → n < 256
      → (handler_of (t.idt_entries n) ≡ stub_of stubs n)
        × ((t.idt_entries n).selector ≡ 8)
        × ((t.idt_entries n).flags ≡ 0xEE))
    × ((n : ℕ) → 256 ≤ n → t.idt_entries n ≡ no_gates n)
    × (t.idtr.base ≡ 0x110000)
    × (t.idtr.limit + 1 ≡ 8 * 256)
idt_install-reaches_example = idt_install-reaches stubs 0x110000 cold stub_low

abbrev at : Place
at = record { info = 0x120000; gdt_entries = 0x12000E; tss = 0x12004C; cpu = 0x1200B4 }

abbrev reset : Segments
reset = record {
  gdt_entries = no_segments;
  gdt_ptr = record { limit = 0; base = 0 };
  tss = clear_tss;
  cpu = 0;
  gdtr = record { limit = 0; base = 0 };
  cs = 8;
  ds = 16;
  gs = 16;
  tr = 0;
}

gdt_install-IsInstalled_example : IsInstalled at reset (gdt_install at reset)
gdt_install-IsInstalled_example = gdt_install-IsInstalled at reset (omega arith) (omega arith)

-- Where the task state segment reaches over a multiple of 1 MB, its descriptor's limit is below the
-- 103 bytes behind its start that the processor asks for.
short_task :
    limit_of ((write_tss (record at { tss = 0x1FFFC0 }) 5 0x10 0 reset).gdt_entries 5) ≡ 0x28
unfolding write_tss gdt_set_gate
short_task = refl
