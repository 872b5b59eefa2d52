-- ===== src/Gates/Segments/Install.antt =====
-- What the processor finds after `gdt_install`, src/arch/x86/gdt.c.
use frod.Base.{
  ℕ, ◌+◌, ◌*◌, ◌/◌, ◌%◌, ◌^◌, ◌<◌, ◌≤◌, ◌≡◌, refl, arith, ◌==◌, if◌then◌else◌, bit_and, bit_or, u8,
  u32,
}
use frod.Gates.{GdtEntry, gdt_set_gate}
use frod.Gates.Fields.{base_of, limit_of, gdt_set_gate_lem}
use frod.Gates.Segments.{Place, Segments, gdt_install, write_tss, gdt_flush, tss_flush}

segment : ℕ → ℕ → ℕ → ℕ → GdtEntry
segment base limit access gran = record {
  base_low = bit_and base 0xFFFF;
  base_middle = bit_and (base / 2 ^ 16) 0xFF;
  base_high = bit_and (base / 2 ^ 24) 0xFF;
  limit_low = bit_and limit 0xFFFF;
  granularity = u8 (bit_or (bit_and (limit / 2 ^ 16) 0x0F) (bit_and gran 0xF0));
  access = u8 access;
}

-- The descriptor `e` stands for `base`, for the low 20 bits of `limit`, with the given access byte
-- and the high four bits of the granularity.
pub record Describes (e : GdtEntry) (base limit access gran : ℕ) : Type 0 where
  pub base_is : base_of e ≡ base
  pub limit_is : limit_of e ≡ limit % 2 ^ 20
  pub access_is : e.access ≡ access
  pub granularity_is : e.granularity / 16 ≡ gran / 16

segment-Describes :
    (base limit access gran : ℕ)
    → base < 2 ^ 32
    → access < 256
    → gran < 256
    → Describes (segment base limit access gran) base limit access gran
unfolding gdt_set_gate segment
segment-Describes base limit access gran hb ha hg =
    let f = gdt_set_gate_lem 0 base limit access gran (λ n. segment 0 0 0 0) hb ha hg in
    record { base_is = f.0; limit_is = f.1; access_is = f.3; granularity_is = f.2 }

flat-Describes :
    (access : ℕ)
    → access < 256
    → Describes (segment 0 0xFFFFFFFF access 0xCF) 0 0xFFFFFFFF access 0xCF
flat-Describes access lt = segment-Describes 0 0xFFFFFFFF access 0xCF (omega arith) lt (omega arith)

set_gate-segment :
    (num base limit access gran : ℕ) (entries : ℕ → GdtEntry) (n : ℕ)
    → gdt_set_gate num base limit access gran entries n
      ≡ (if n == num then segment base limit access gran else entries n)
unfolding gdt_set_gate segment
set_gate-segment num base limit access gran entries n = refl

-- The segments that the kernel's selectors name, the task state segment, and the word behind
-- `%gs:0`.
pub record IsInstalled (at : Place) (s t : Segments) : Type 0 where
  pub null_entry : Describes (t.gdt_entries 0) 0 0 0 0
  pub kernel_code : Describes (t.gdt_entries (t.cs / 8)) 0 0xFFFFFFFF 0x9A 0xCF
  pub kernel_data : Describes (t.gdt_entries (t.ds / 8)) 0 0xFFFFFFFF 0x92 0xCF
  pub user_code : Describes (t.gdt_entries 3) 0 0xFFFFFFFF 0xFA 0xCF
  pub user_data : Describes (t.gdt_entries 4) 0 0xFFFFFFFF 0xF2 0xCF
  pub task : Describes (t.gdt_entries (t.tr / 8)) at.tss (u32 (at.tss + 104)) 0xE9 0x00
  pub own_word : base_of (t.gdt_entries (t.gs / 8)) ≡ at.cpu
  pub own_info : t.cpu ≡ at.info
  pub kernel_stack : t.gdt_entries (t.tss.ss0 / 8) ≡ t.gdt_entries (t.ds / 8)
  pub table : t.gdtr.base ≡ at.gdt_entries
  pub whole : t.gdtr.limit + 1 ≡ 7 * 8
  pub others : (n : ℕ) → 7 ≤ n → t.gdt_entries n ≡ s.gdt_entries n

-- For a `cpu_info` within the address space, `gdt_install` leaves flat segments of 4 GB behind the
-- kernel's code and data selectors and behind the user's, the task register at a descriptor of the
-- task state segment, `%gs:0` at the processor's own field `cpu` with the address of its `cpu_info`,
-- and the table register at the seven entries; no entry behind them changes.
pub gdt_install-IsInstalled :
    (at : Place) (s : Segments)
    → at.tss < 2 ^ 32
    → at.cpu < 2 ^ 32
    → IsInstalled at s (gdt_install at s)
unfolding gdt_install write_tss gdt_flush tss_flush
gdt_install-IsInstalled at s lt lt' = record {
  null_entry =
      simp set_gate-segment (segment-Describes 0 0 0 0 (omega arith) (omega arith) (omega arith));
  kernel_code = simp set_gate-segment (flat-Describes 0x9A (omega arith));
  kernel_data = simp set_gate-segment (flat-Describes 0x92 (omega arith));
  user_code = simp set_gate-segment (flat-Describes 0xFA (omega arith));
  user_data = simp set_gate-segment (flat-Describes 0xF2 (omega arith));
  task =
      simp set_gate-segment
        (segment-Describes at.tss (u32 (at.tss + 104)) 0xE9 0x00 lt (omega arith) (omega arith));
  own_word =
      simp set_gate-segment
        (segment-Describes at.cpu (u32 (at.cpu + 16)) 0x92 0xCF lt' (omega arith)
          (omega arith)).base_is;
  own_info = refl;
  kernel_stack = refl;
  table = refl;
  whole = refl;
  others = λ n ge. simp set_gate-segment (ground arith);
}
