-- ===== src/Ioapic.antt =====
-- The I/O APIC, src/arch/x86/ioapic.c, over a trace of accesses to its two words of memory.
pub mod Entries
mod Tests
use frod.Base.{ℕ, zero, suc, ◌+◌, ◌*◌, ◌^◌, bit_and, bit_or, Bool, false, ◌∷◌, u32}
use frod.Ports.{Trace, Device, read, written}

abbrev pub ioapic_redir_tab_off : ℕ
ioapic_redir_tab_off = 0x10

abbrev pub ioapic_int_disabled : ℕ
ioapic_int_disabled = 0x10000

abbrev pub irq0 : ℕ
irq0 = 32

-- The words `a[0]`, which selects a register, and `a[4]`, its window.
abbrev pub select_of : ℕ → ℕ
select_of addr = addr

abbrev pub window_of : ℕ → ℕ
window_of addr = addr + 16

unfoldable pub ioapic_write : ℕ → ℕ → ℕ → Trace → Trace
ioapic_write addr reg val tr =
    written (window_of addr) (u32 val) ∷ written (select_of addr) (bit_and reg 0xFF) ∷ tr

-- The trace and the word.
unfoldable pub ioapic_read : Device → ℕ → ℕ → Trace → Trace × ℕ
ioapic_read dev addr reg tr =
    let tr1 : Trace = written (select_of addr) (bit_and reg 0xFF) ∷ tr in
    let value = u32 (dev tr1 (window_of addr)) in (read (window_of addr) value ∷ tr1, value)

-- The loop of `ioapic_install` at `i`, with `left` rounds to go.
unfoldable pub disable_from : ℕ → ℕ → ℕ → Trace → Trace
disable_from zero i addr tr = tr
disable_from (suc left) i addr tr = disable_from left (i + 1) addr (
    ioapic_write addr (ioapic_redir_tab_off + 2 * i + 1) 0
      (ioapic_write addr (ioapic_redir_tab_off + 2 * i) (bit_or ioapic_int_disabled (irq0 + i)) tr))

-- `addr` and `max_interr` are those of `io_apic`.
unfoldable pub ioapic_install : ℕ → ℕ → Trace → Trace × Bool
ioapic_install addr max_interr tr = (disable_from max_interr 0 addr tr, false)

unfoldable pub ioapic_enable_irq : ℕ → ℕ → ℕ → Trace → Trace
ioapic_enable_irq addr irq cpu_id tr =
    ioapic_write addr (ioapic_redir_tab_off + 2 * irq + 1) (cpu_id * 2 ^ 24)
      (ioapic_write addr (ioapic_redir_tab_off + 2 * irq) (irq0 + irq) tr)
