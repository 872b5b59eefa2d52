-- ===== src/Pit/Divisor.antt =====
-- The divisor that `pit_install` of src/sys/pit.c sends.
use frod.Base.{
  ℕ, ◌+◌, ◌*◌, ◌/◌, ◌%◌, ◌^◌, ◌≤◌, ◌<◌, ltb, ◌≡◌, refl, arith, true, false, some, ◌∷◌, bit_and,
}
use frod.Base.Bits.{bit_and_mask}
use native.Mathlib.Nat.{div-lt_iff_lt-mul}
use frod.Ports.{Trace, Device, inb, outb, sent}
use frod.Pic.{pic_enable_irq}
use frod.Isr.{Handlers, register_interrupt_handler}
use frod.Pit.{pit_install}

-- From 19 Hz on, `pit_install` succeeds: it sends the two bytes, the low one first, whose number is
-- the whole 1193180 / freq, which fits into them, and puts its handler in place of the timer's.
pub pit_install-divisor :
    {H : Type 0} (dev : Device) (h : H) (freq : ℕ) (tr : Trace) (handlers : Handlers H)
    → 19 ≤ freq
    → let ((t, installed), r) = pit_install dev h freq (tr, handlers) in
      (r ≡ true)
      × (low : ℕ) × (high : ℕ) × (sent 0x40 t ≡ high ∷ low ∷ sent 0x40 tr)
      × (low < 256)
      × (high < 256)
      × (high * 2 ^ 8 + low ≡ 1193180 / freq)
      × (installed 32 ≡ some h)
unfolding pit_install pic_enable_irq inb outb register_interrupt_handler sent
pit_install-divisor dev h freq tr handlers fast =
    let div : ℕ = 1193180 / freq in
    let enough : ltb freq 19 ≡ false = ground arith in
    let some_rate : 0 < freq = omega arith in
    let below : 1193180 < 65536 * freq = omega arith in
    let fits : div < 65536 = (div-lt_iff_lt-mul some_rate).1 below in
    let low : bit_and div 0xFF ≡ div % 2 ^ 8 = bit_and_mask 8 div in
    let high : bit_and (div / 2 ^ 8) 0xFF ≡ div / 2 ^ 8 % 2 ^ 8 = bit_and_mask 8 (div / 2 ^ 8) in
    let sum_of : div / 2 ^ 8 % 2 ^ 8 % 2 ^ 8 * 2 ^ 8 + div % 2 ^ 8 % 2 ^ 8 ≡ div =
      omega (arith, fits) in
    rw (enough, low, high) (refl, _, _, refl, omega arith, omega arith, sum_of, refl)
