-- ===== src/Isr.antt =====
-- The dispatch of interrupts, src/arch/x86/isr.c, over handlers of a type `H`, which `run` calls on
-- the registers at an address and on the state `S` of the rest of the kernel.
pub mod Dispatch
pub mod Switching
mod Tests
use frod.Base.{ℕ, ◌%◌, ◌^◌, ◌==◌, leb, if◌then◌else◌, bit_and, Option, none, some, u8}
use frod.Ports.{Trace, outb}
use frod.Pic.{pic_port_master_cmd, pic_port_slave_cmd}

abbrev pub pic_data_eoi : ℕ
pic_data_eoi = 0x20

abbrev pub irq_spurious_no : ℕ
irq_spurious_no = 63

-- `interrupt_handlers`; `none` is the null pointer.
abbrev pub Handlers : Type 0 → Type 0
Handlers H = ℕ → Option H

module _ {H : Type 0} where
  unfoldable pub isr_install : H → H → Handlers H
  isr_install dummy_int_handler irq_spurious n =
      if n == irq_spurious_no then some irq_spurious else some dummy_int_handler

  unfoldable pub register_interrupt_handler : ℕ → H → Handlers H → Handlers H
  register_interrupt_handler n handler handlers i = if i == u8 n then some handler else handlers i

module _ {H S : Type 0} (run : H → ℕ → S → S × ℕ) where
  -- The call of a handler; for the null pointer what is returned without a call.
  unfoldable pub call_or : Option H → ℕ → S × ℕ → S → S × ℕ
  call_or none regs otherwise s = otherwise
  call_or (some handler) regs otherwise s = run handler regs s

  -- `none` is the panic about an interrupt without a handler.
  unfoldable pub call_or_panic : Option H → ℕ → S → Option (S × ℕ)
  call_or_panic none regs s = none
  call_or_panic (some handler) regs s = some (run handler regs s)

  unfoldable pub isr_handler : Handlers H → ℕ → ℕ → S → Option (S × ℕ)
  isr_handler handlers int_no regs s = call_or_panic (handlers (bit_and int_no 0xFF)) regs s

  -- `regs` is the address of the registers, and `int_no` what they hold.
  unfoldable pub irq_handler : Handlers H → ℕ → ℕ → Trace × S → Trace × (S × ℕ)
  irq_handler handlers int_no regs (tr, s) =
      let tr1 = if leb 40 int_no then outb pic_port_slave_cmd pic_data_eoi tr else tr in
      (outb pic_port_master_cmd pic_data_eoi tr1, call_or (handlers int_no) regs (s, regs) s)
