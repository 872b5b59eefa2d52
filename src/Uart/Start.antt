-- ===== src/Uart/Start.antt =====
-- The contract of `uart_init`, drv/uart.c.
use frod.Base.{
  ℕ, ◌≡◌, refl, arith, if◌then◌else◌, ◌==◌, true, false, Bool-cases, inl, inr, ◌⊎◌, ◌∷◌, u8,
}
use frod.Ports.{Device, read, inb, outb, sent}
use frod.Uart.{
  Uart, uart_init, set_up, enable, uart_set_baud_rate, uart_success, uart_err_not_present,
}

module _ (dev : Device) {H : Type 0} (h : H) (u : Uart H) where
  -- `uart_init` sends the divisor 12 of 9600 baud with the divisor latch open, and turns on the
  -- receive interrupt. A line status of 0xFF means that there is no port: it reports so and leaves
  -- the handlers and the interrupt controllers alone; else the port counts as there and exactly
  -- the handler of interrupt 36 is new.
  pub uart_init-set_up :
      let (t, r) = uart_init dev h u in
      (sent 0x3F8 (set_up dev u.trace) ≡ 12 ∷ sent 0x3F8 u.trace)
      × (sent 0x3F9 (set_up dev u.trace) ≡ 1 ∷ 0 ∷ 0 ∷ sent 0x3F9 u.trace)
      × (((u8 (dev (set_up dev u.trace) 0x3FD) ≡ 0xFF)
            × (r ≡ uart_err_not_present)
            × (t.uart_present ≡ false)
            × (t.handlers ≡ u.handlers)
            × (t.trace ≡ read 0x3FD 0xFF ∷ set_up dev u.trace))
          ⊎ ((r ≡ uart_success)
              × (t.uart_present ≡ true)
              × ((n : ℕ) → t.handlers n ≡ (if n == 36 then h else u.handlers n))))
  unfolding uart_init enable inb
  uart_init-set_up =
      let v : ℕ = u8 (dev (set_up dev u.trace) 0x3FD) in
      (
        unfold set_up uart_set_baud_rate inb outb sent in refl,
        unfold set_up uart_set_baud_rate inb outb sent in refl,
        elim (Bool-cases (v == 0xFF)) [
          | inl gone ↦
              let e : v ≡ 0xFF = ground arith in rw gone (inl (e, refl, refl, refl, rw e refl))
          | inr there ↦ rw there (inr (refl, refl, λ n. refl))
        ],
      )
