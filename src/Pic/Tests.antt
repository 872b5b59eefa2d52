-- ===== src/Pic/Tests.antt =====
-- Runs of arch/x86/pic.c on controllers whose data ports read back.
use frod.Base.{ℕ, refl, arith, false, [], ◌∷◌, Option, none, some}
use frod.Ports.{Trace, Device, written, latest}
use frod.Pic.{pic_enable_irq}
use frod.Pic.Masks.{ReadsMasks, HasMasks, SetsMask, pic_enable_irq-SetsMask}

abbrev or_zero : Option ℕ → ℕ
or_zero none = 0
or_zero (some v) = v

abbrev controllers : Device
controllers tr port = or_zero (latest port tr)

abbrev started : Trace
started = written 0xA1 0xFF ∷ written 0x21 0xFB ∷ []

started-HasMasks : HasMasks started 0xFB 0xFF
unfolding latest
started-HasMasks = record {
  master = refl;
  slave = refl;
  master_byte = omega arith;
  slave_byte = omega arith;
}

started-ReadsMasks : ReadsMasks controllers started 0xFB 0xFF
unfolding latest
started-ReadsMasks = record { first = refl; second = refl }

pic_enable_irq-SetsMask_example :
    SetsMask 0xFB 0xFF 12 false (pic_enable_irq controllers 12 started)
pic_enable_irq-SetsMask_example =
    pic_enable_irq-SetsMask controllers 12 0xFB 0xFF started started-ReadsMasks started-HasMasks
      (omega arith)
