-- ===== src/Gates/Segments.antt =====
-- The table of segments and the task state segment of a processor, `gdt_install`, `write_tss` and
-- `set_kernel_stack` of src/arch/x86/gdt.c.
pub mod Install
use frod.Base.{ℕ, ◌+◌, ◌-◌, ◌*◌, u16, u32, bit_or}
use frod.Gates.{GdtEntry, gdt_set_gate}

-- `tss_entry`.
pub record TssEntry : Type 0 where
  pub prev_tss : ℕ
  pub esp0 : ℕ
  pub ss0 : ℕ
  pub esp1 : ℕ
  pub ss1 : ℕ
  pub esp2 : ℕ
  pub ss2 : ℕ
  pub cr3 : ℕ
  pub eip : ℕ
  pub eflags : ℕ
  pub eax : ℕ
  pub ecx : ℕ
  pub edx : ℕ
  pub ebx : ℕ
  pub esp : ℕ
  pub ebp : ℕ
  pub esi : ℕ
  pub edi : ℕ
  pub es : ℕ
  pub cs : ℕ
  pub ss : ℕ
  pub ds : ℕ
  pub fs : ℕ
  pub gs : ℕ
  pub ldt : ℕ
  pub trap : ℕ
  pub iomap_base : ℕ

abbrev pub sizeof_tss_entry : ℕ
sizeof_tss_entry = 104

-- `gdt_pointer`.
pub record GdtPointer : Type 0 where
  pub limit : ℕ
  pub base : ℕ

abbrev pub sizeof_gdt_entry : ℕ
sizeof_gdt_entry = 8

abbrev pub num_gdt_entries : ℕ
num_gdt_entries = 7

-- The fields of `cpu_info` that gdt.c writes, for the processor that runs, and its registers; `cpu`
-- is the word that the kernel reads as `%gs:0`.
pub record Segments : Type 0 where
  pub gdt_entries : ℕ → GdtEntry
  pub gdt_ptr : GdtPointer
  pub tss : TssEntry
  pub cpu : ℕ
  pub gdtr : GdtPointer
  pub cs : ℕ
  pub ds : ℕ
  pub gs : ℕ
  pub tr : ℕ

-- Where the compiler and the linker put a `cpu_info` and three of its fields.
pub record Place : Type 0 where
  pub info : ℕ
  pub gdt_entries : ℕ
  pub tss : ℕ
  pub cpu : ℕ

-- `memset(&c->tss, 0x00, sizeof(c->tss))`.
abbrev pub clear_tss : TssEntry
clear_tss = record {
  prev_tss = 0;
  esp0 = 0;
  ss0 = 0;
  esp1 = 0;
  ss1 = 0;
  esp2 = 0;
  ss2 = 0;
  cr3 = 0;
  eip = 0;
  eflags = 0;
  eax = 0;
  ecx = 0;
  edx = 0;
  ebx = 0;
  esp = 0;
  ebp = 0;
  esi = 0;
  edi = 0;
  es = 0;
  cs = 0;
  ss = 0;
  ds = 0;
  fs = 0;
  gs = 0;
  ldt = 0;
  trap = 0;
  iomap_base = 0;
}

abbrev pub set_gate : ℕ → ℕ → ℕ → ℕ → ℕ → Segments → Segments
set_gate num base limit access gran s = record s {
  gdt_entries = gdt_set_gate num base limit access gran s.gdt_entries;
}

unfoldable pub write_tss : Place → ℕ → ℕ → ℕ → Segments → Segments
write_tss at num ss0 esp0 s =
    let base = at.tss in
    let limit = u32 (base + sizeof_tss_entry) in
    record (set_gate num base limit 0xE9 0x00 s) {
      tss = record clear_tss {
        eflags = 0x0002;
        ss0 = u16 ss0;
        esp0 = esp0;
        cs = 0x0B;
        ss = 0x13;
        ds = 0x13;
        es = 0x13;
        fs = 0x13;
        gs = 0x33;
      };
    }

-- The stubs of flush.s: the table and the segment registers, and the task register.
unfoldable pub gdt_flush : Segments → Segments
gdt_flush s = record s { gdtr = s.gdt_ptr; cs = 0x08; ds = 0x10; gs = 0x10 }

unfoldable pub tss_flush : ℕ → Segments → Segments
tss_flush selector s = record s { tr = u16 (bit_or selector 0x03) }

unfoldable pub gdt_install : Place → Segments → Segments
gdt_install at s =
    let ptr : GdtPointer = record {
      limit = sizeof_gdt_entry * num_gdt_entries - 1;
      base = at.gdt_entries;
    } in
    let s0 = set_gate 0 0 0 0 0 (record s { gdt_ptr = ptr }) in
    let s1 = set_gate 1 0 0xFFFFFFFF 0x9A 0xCF s0 in
    let s2 = set_gate 2 0 0xFFFFFFFF 0x92 0xCF s1 in
    let s3 = set_gate 3 0 0xFFFFFFFF 0xFA 0xCF s2 in
    let s4 = set_gate 4 0 0xFFFFFFFF 0xF2 0xCF s3 in
    let s5 = write_tss at 5 0x10 0 s4 in
    let s6 = set_gate 6 at.cpu (u32 (at.cpu + 4 * 4)) 0x92 0xCF s5 in
    let s7 = gdt_flush s6 in tss_flush 0x28 (record s7 { gs = 6 * 8; cpu = at.info })

unfoldable pub set_kernel_stack : ℕ → Segments → Segments
set_kernel_stack stack s = record s { tss = record s.tss { esp0 = stack } }
