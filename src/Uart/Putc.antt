-- ===== src/Uart/Putc.antt =====
-- The contract of `uart_putc` and `uart_getc`, drv/uart.c.
use frod.Base.{ℕ, ◌<◌, ◌≡◌, refl, arith, true, false, Bool-cases, inl, inr, ◌⊎◌, ◌∷◌, u8}
use frod.Base.Int.{pos}
use frod.Ports.{Trace, Device, read, written, inb, sent, is_set}
use frod.Uart.{Uart, uart_getc, uart_err_not_ready}

module _ (dev : Device) where
  module _ {H : Type 0} (c : ℕ) (u : Uart H) where
    -- The byte was sent behind a line status that showed an empty transmitter.
    pub record IsSent (t : Uart H) : Type 0 where
      pub before : Trace
      pub status : ℕ
      pub last : t.trace ≡ written 0x3F8 (u8 c) ∷ read 0x3FD status ∷ before
      pub ready : is_set status 0x20 ≡ true
      pub one : sent 0x3F8 t.trace ≡ u8 c ∷ sent 0x3F8 u.trace

  -- `uart_getc` writes to no port; on a port that is there it returns the byte that it read right
  -- after a line status with data ready, or reports that there is none and reads nothing more.
  pub uart_getc-read :
      {H : Type 0} (u : Uart H)
      → u.uart_present ≡ true
      → let (t, r) = uart_getc dev u in
        (status : ℕ) × (((is_set status 0x01 ≡ true)
            × ((c : ℕ) × (r ≡ pos c)
                × (c < 256)
                × (t.trace ≡ read 0x3F8 c ∷ read 0x3FD status ∷ u.trace)))
          ⊎ ((is_set status 0x01 ≡ false)
              × (r ≡ uart_err_not_ready)
              × (t.trace ≡ read 0x3FD status ∷ u.trace)))
  unfolding uart_getc inb
  uart_getc-read u here =
      let v : ℕ = u8 (dev u.trace 0x3FD) in
      let c : ℕ = u8 (dev (read 0x3FD v ∷ u.trace) 0x3F8) in
      elim (Bool-cases (is_set v 0x01)) [
        | inl ready ↦ rw (here, ready) (v, inl (ready, (c, refl, omega arith, refl)))
        | inr not_ready ↦ rw (here, not_ready) (v, inr (not_ready, refl, refl))
      ]
