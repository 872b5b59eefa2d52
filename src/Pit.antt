-- ===== src/Pit.antt =====
-- The timer, src/sys/pit.c.
pub mod Waits
pub mod Divisor
mod Tests
use frod.Base.{
  ℕ, zero, suc, ◌+◌, ◌/◌, ◌^◌, ltb, if◌then◌else◌, Bool, true, false, bit_and, Option, none, some,
  u32,
}
use frod.Ports.{Trace, Device, outb}
use frod.Pic.{pic_enable_irq, pic_disable_irq}
use frod.Isr.{Handlers, register_interrupt_handler}

abbrev pub pit_data_channel0 : ℕ
pit_data_channel0 = 0x40

abbrev pub pit_cmd_port : ℕ
pit_cmd_port = 0x43

abbrev pub pit_val_repeater : ℕ
pit_val_repeater = 0x36

abbrev pub irq_pit : ℕ
irq_pit = 32

module _ (dev : Device) where
  unfoldable pub pit_install :
      {H : Type 0} → H → ℕ → Trace × Handlers H → (Trace × Handlers H) × Bool
  pit_install increment_tick freq (tr, handlers) =
      let div = 1193180 / freq in
      let tr1 = outb pit_cmd_port pit_val_repeater tr in
      let tr2 = outb pit_data_channel0 (bit_and div 0xFF) tr1 in
      let tr3 = outb pit_data_channel0 (bit_and (div / 2 ^ 8) 0xFF) tr2 in
      if ltb freq 19 then ((tr, handlers), false) else (
        (pic_enable_irq dev 0 tr3, register_interrupt_handler irq_pit increment_tick handlers),
        true,
      )

  unfoldable pub pit_disable : Trace → Trace
  pit_disable tr = pic_disable_irq dev 0 tr

-- The counter behind one interrupt.
unfoldable pub increment_tick : ℕ → ℕ
increment_tick ticks = u32 (ticks + 1)

-- The loop of `kwait`, for a timer that ticks once in each of at most `fuel` rounds: the counter at
-- its end. `none` means that the fuel ran out.
unfoldable pub wait_until : ℕ → ℕ → ℕ → Option ℕ
wait_until zero end ticks = none
wait_until (suc fuel) end ticks =
    let rest = wait_until fuel end (increment_tick ticks) in
    if ltb ticks end then rest else some ticks

unfoldable pub kwait : ℕ → ℕ → ℕ → Option ℕ
kwait fuel nticks ticks = wait_until fuel (u32 (ticks + nticks)) ticks
