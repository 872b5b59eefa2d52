-- ===== src/Isr/Dispatch.antt =====
-- What an interrupt of the controllers does, src/arch/x86/isr.c.
use frod.Base.{
  ℕ, ◌<◌, ◌==◌, leb, ◌≡◌, refl, ◌∙◌, arith, Bool-cases, inl, inr, if◌then◌else◌, some, ◌∷◌, u8,
  bit_and,
}
use frod.Base.Bits.{bit_and_mask}
use frod.Ports.{Trace, outb, sent}
use frod.Isr.{
  isr_install, register_interrupt_handler, call_or, call_or_panic, isr_handler, irq_handler,
}

module _ {H S : Type 0} (run : H → ℕ → S → S × ℕ) (dummy spurious h : H) where
  handler_of :
      (n int_no : ℕ)
      → n < 256
      → register_interrupt_handler n h (isr_install dummy spurious) int_no
        ≡ some (if int_no == n then h else if int_no == 63 then spurious else dummy)
  unfolding register_interrupt_handler isr_install
  handler_of n int_no lt =
      let e : u8 n ≡ n = omega arith in
      rw e (elim (Bool-cases (int_no == n)) [
        | inl own ↦ rw own refl
        | inr other ↦ elim (Bool-cases (int_no == 63)) [
          | inl spur ↦ rw (other, spur) refl
          | inr usual ↦ rw (other, usual) refl
        ]
      ])

  -- Behind `isr_install` and one `register_interrupt_handler`, an interrupt of the controllers is
  -- acknowledged once at the master, and once at the slave if it comes from there, and then runs one
  -- handler: the registered one for its own number, the one for spurious interrupts for 63, and the
  -- dummy for each other. An exception runs the same handler, without an acknowledgement and without
  -- a panic.
  pub irq_handler-registered :
      (n int_no regs : ℕ) (tr : Trace) (s : S)
      → n < 256
      → int_no < 256
      → let handlers = register_interrupt_handler n h (isr_install dummy spurious) in
        let chosen = if int_no == n then h else if int_no == 63 then spurious else dummy in
        let (t, rest) = irq_handler run handlers int_no regs (tr, s) in
        (rest ≡ run chosen regs s)
        × (isr_handler run handlers int_no regs s ≡ some (run chosen regs s))
        × (sent 0x20 t ≡ 0x20 ∷ sent 0x20 tr)
        × (sent 0xA0 t ≡ (if leb 40 int_no then 0x20 ∷ sent 0xA0 tr else sent 0xA0 tr))
  unfolding irq_handler isr_handler call_or call_or_panic outb
  irq_handler-registered n int_no regs tr s lt lt2 =
      let low : bit_and int_no 0xFF ≡ int_no = bit_and_mask 8 int_no ∙ omega arith in
      (
        rw (handler_of n int_no lt) refl,
        rw (low, handler_of n int_no lt) refl,
        unfold sent in
            (elim (Bool-cases (leb 40 int_no)) [
              | inl slave ↦ rw slave refl
              | inr master ↦ rw master refl
            ]),
        unfold sent in
            (elim (Bool-cases (leb 40 int_no)) [
              | inl slave ↦ rw slave refl
              | inr master ↦ rw master refl
            ]),
      )
