-- ===== src/Pit/Tests.antt =====
-- Runs of src/sys/pit.c.
use frod.Base.{ℕ, ◌-◌, ◌^◌, ◌≡◌, refl, arith, some, true, [], ◌∷◌}
use frod.Ports.{Trace, Device, sent}
use frod.Isr.{Handlers, isr_install}
use frod.Pit.{pit_install, kwait}
use frod.Pit.Waits.{kwait-ticks}

abbrev masks : Device
masks tr port = 0xFF

abbrev handlers : Handlers ℕ
handlers = isr_install 1 2

-- 100 Hz, with the divisor 11931.
hundred :
    let ((t, installed), r) = pit_install masks 7 100 ([], handlers) in
    (sent 0x40 t ≡ 0x2E ∷ 0x9B ∷ []) × (installed 32 ≡ some 7) × (r ≡ true)
unfolding pit_install sent frod.Ports.outb frod.Ports.inb frod.Pic.pic_enable_irq
    frod.Isr.register_interrupt_handler
hundred = (refl, refl, refl)

kwait-ticks_example : kwait 11 10 (2 ^ 32 - 5) ≡ some (2 ^ 32 - 5)
kwait-ticks_example = kwait-ticks 10 (2 ^ 32 - 5) (omega arith) (omega arith)
