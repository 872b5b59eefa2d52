-- ===== src/Gates.antt =====
-- The packing of descriptors: `gdt_set_gate`, arch/x86/gdt.c, and `idt_set_gate`, arch/x86/idt.c.
pub mod Fields
pub mod Interrupts
pub mod Segments
mod Tests
use frod.Base.{ℕ, ◌*◌, ◌/◌, ◌^◌, ◌==◌, if◌then◌else◌, bit_and, bit_or, u8, u16}

pub record GdtEntry : Type 0 where
  pub limit_low : ℕ
  pub base_low : ℕ
  pub base_middle : ℕ
  pub access : ℕ
  pub granularity : ℕ
  pub base_high : ℕ

unfoldable pub gdt_set_gate : ℕ → ℕ → ℕ → ℕ → ℕ → (ℕ → GdtEntry) → ℕ → GdtEntry
gdt_set_gate num base limit access gran entries n =
    if n == num
    then record {
      base_low = bit_and base 0xFFFF;
      base_middle = bit_and (base / 2 ^ 16) 0xFF;
      base_high = bit_and (base / 2 ^ 24) 0xFF;
      limit_low = bit_and limit 0xFFFF;
      granularity = u8 (bit_or (bit_and (limit / 2 ^ 16) 0x0F) (bit_and gran 0xF0));
      access = u8 access;
    }
    else entries n

pub record IdtEntry : Type 0 where
  pub base_low : ℕ
  pub selector : ℕ
  pub zero_byte : ℕ
  pub flags : ℕ
  pub base_high : ℕ

unfoldable pub idt_set_gate : ℕ → ℕ → ℕ → ℕ → (ℕ → IdtEntry) → ℕ → IdtEntry
idt_set_gate num base sel flags entries n =
    if n == num
    then record {
      base_low = bit_and base 0xFFFF;
      base_high = bit_and (base / 2 ^ 16) 0xFFFF;
      selector = u16 sel;
      zero_byte = 0;
      flags = u8 (bit_or flags 0x60);
    }
    else entries n
