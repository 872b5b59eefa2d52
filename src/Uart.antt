-- ===== src/Uart.antt =====
-- The serial port, drv/uart.c.
pub mod Putc
pub mod Start
mod Tests
use frod.Base.{
  ℕ, zero, suc, ◌+◌, ◌-◌, ◌*◌, ◌/◌, ◌^◌, ◌==◌, not, if◌then◌else◌, Bool, true, false, bit_and,
  bit_or,
}
use frod.Base.Int.{ℤ, pos, negsuc}
use frod.Ports.{Trace, Device, inb, outb, is_set}
use frod.Pic.{pic_enable_irq}

abbrev pub uart_com1 : ℕ
uart_com1 = 0x3F8

-- The offsets of the registers.
abbrev pub uart_offset_thr : ℕ
uart_offset_thr = 0

abbrev pub uart_offset_rbr : ℕ
uart_offset_rbr = 0

abbrev pub uart_offset_dll : ℕ
uart_offset_dll = 0

abbrev pub uart_offset_ier : ℕ
uart_offset_ier = 1

abbrev pub uart_offset_dlh : ℕ
uart_offset_dlh = 1

abbrev pub uart_offset_iir : ℕ
uart_offset_iir = 2

abbrev pub uart_offset_fcr : ℕ
uart_offset_fcr = 2

abbrev pub uart_offset_lcr : ℕ
uart_offset_lcr = 3

abbrev pub uart_offset_mcr : ℕ
uart_offset_mcr = 4

abbrev pub uart_offset_lsr : ℕ
uart_offset_lsr = 5

-- `FCR_MASK_ENABLE | FCR_MASK_CLR_REC | FCR_MASK_CLR_TRANS | FCR_MASK_TRG_LEV4`.
abbrev pub fcr_start : ℕ
fcr_start = bit_or (bit_or (bit_or 0x01 0x02) 0x04) 0xC0

-- `MCR_MASK_TERM_RDY | MCR_MASK_REQ_SEND | MCR_MASK_AUX2`.
abbrev pub mcr_start : ℕ
mcr_start = bit_or (bit_or 0x01 0x02) 0x08

abbrev pub ier_mask_rdai : ℕ
ier_mask_rdai = 0x01

abbrev pub lsr_mask_no_uart : ℕ
lsr_mask_no_uart = 0xFF

abbrev pub lsr_mask_data_rdy : ℕ
lsr_mask_data_rdy = 0x01

abbrev pub lsr_mask_empty_thr : ℕ
lsr_mask_empty_thr = 0x20

abbrev pub lcr_mask_word_len8 : ℕ
lcr_mask_word_len8 = 0x03

abbrev pub lcr_mask_dlab : ℕ
lcr_mask_dlab = 0x80

abbrev pub uart_com1_irq : ℕ
uart_com1_irq = 36

abbrev pub uart_err_not_present : ℤ
uart_err_not_present = negsuc 0

abbrev pub uart_err_not_ready : ℤ
uart_err_not_ready = negsuc 1

abbrev pub uart_success : ℤ
uart_success = pos 0

-- `uart_present`, the port accesses, and the interrupt handlers of isr.c, of a type `H`.
pub record Uart (H : Type 0) : Type 0 where
  pub uart_present : Bool
  pub trace : Trace
  pub handlers : ℕ → H

module _ (dev : Device) where
  unfoldable pub uart_set_baud_rate : ℕ → Trace → Trace
  uart_set_baud_rate baud_rate tr =
      let dlv = 115200 / baud_rate in
      let (tr1, l1) = inb dev (uart_com1 + uart_offset_lcr) tr in
      let tr2 = outb (uart_com1 + uart_offset_lcr) (bit_or l1 lcr_mask_dlab) tr1 in
      let tr3 = outb (uart_com1 + uart_offset_dll) (bit_and dlv 0xFF) tr2 in
      let tr4 = outb (uart_com1 + uart_offset_dlh) (bit_and dlv 0xFF00 / 2 ^ 8) tr3 in
      let (tr5, l2) = inb dev (uart_com1 + uart_offset_lcr) tr4 in
      outb (uart_com1 + uart_offset_lcr) (bit_and l2 (2 ^ 32 - 1 - lcr_mask_dlab)) tr5

  -- The loop of `uart_putc` that waits for the transmitter, with `left` reads to go.
  unfoldable pub wait_empty : ℕ → Trace → Trace
  wait_empty zero tr = tr
  wait_empty (suc left) tr =
      let (tr1, lsr) = inb dev (uart_com1 + uart_offset_lsr) tr in
      let rest = wait_empty left tr1 in if is_set lsr lsr_mask_empty_thr then tr1 else rest

  -- What `uart_init` writes before it looks for the port; `UART_BAUD_RATE` is 9600.
  unfoldable pub set_up : Trace → Trace
  set_up tr =
      let tr1 = outb (uart_com1 + uart_offset_ier) 0 tr in
      let tr2 = uart_set_baud_rate 9600 tr1 in
      outb (uart_com1 + uart_offset_ier) ier_mask_rdai (
        outb (uart_com1 + uart_offset_mcr) mcr_start
          (outb (uart_com1 + uart_offset_fcr) fcr_start tr2))

  module _ {H : Type 0} where
    unfoldable pub uart_putc : ℕ → Uart H → Uart H × ℤ
    uart_putc c u =
        let tr1 = wait_empty (1024 * 16) u.trace in
        let (tr2, lsr) = inb dev (uart_com1 + uart_offset_lsr) tr1 in
        if not u.uart_present
        then (u, uart_err_not_present)
        else if is_set lsr lsr_mask_empty_thr
        then (record u { trace = outb (uart_com1 + uart_offset_thr) c tr2 }, uart_success)
        else (record u { trace = tr2 }, uart_err_not_ready)

    unfoldable pub uart_getc : Uart H → Uart H × ℤ
    uart_getc u =
        let (tr1, lsr) = inb dev (uart_com1 + uart_offset_lsr) u.trace in
        let (tr2, c) = inb dev (uart_com1 + uart_offset_rbr) tr1 in
        if not u.uart_present
        then (u, uart_err_not_present)
        else if is_set lsr lsr_mask_data_rdy
        then (record u { trace = tr2 }, pos c)
        else (record u { trace = tr1 }, uart_err_not_ready)

    -- What it does when the port is there.
    unfoldable pub enable : H → Uart H → Uart H
    enable uart_interrupt_com1 u =
        let (tr1, lcr) = inb dev (uart_com1 + uart_offset_lcr) u.trace in
        let tr2 = outb (uart_com1 + uart_offset_lcr) (bit_or lcr lcr_mask_word_len8) tr1 in
        let (tr3, iir) = inb dev (uart_com1 + uart_offset_iir) tr2 in
        let (tr4, rbr) = inb dev (uart_com1 + uart_offset_rbr) tr3 in
        record {
          uart_present = true;
          trace = pic_enable_irq dev (uart_com1_irq - 32) tr4;
          handlers = λ n. if n == uart_com1_irq then uart_interrupt_com1 else u.handlers n;
        }

    unfoldable pub uart_init : H → Uart H → Uart H × ℤ
    uart_init uart_interrupt_com1 u =
        let (tr1, lsr) = inb dev (uart_com1 + uart_offset_lsr) (set_up u.trace) in
        if lsr == lsr_mask_no_uart
        then (record u { trace = tr1; uart_present = false }, uart_err_not_present)
        else (enable uart_interrupt_com1 (record u { trace = tr1 }), uart_success)
