-- ===== src/Ioapic/Tests.antt =====
-- Runs of src/arch/x86/ioapic.c on a controller whose window shows the selected register.
use frod.Base.{ℕ, ◌≡◌, arith, []}
use frod.Ports.{Device}
use frod.Ioapic.{ioapic_install, ioapic_enable_irq}
use frod.Ioapic.Entries.{low_word, high_word, register, selected, ioapic_enable_irq-words}

abbrev zeros : ℕ → ℕ
zeros n = 0

abbrev chip : Device
chip tr a = register 0xFEC00000 zeros tr (selected 0xFEC00000 tr)

ioapic_enable_irq-words_example :
    let (t, r) = ioapic_install 0xFEC00000 23 [] in
    let u = ioapic_enable_irq 0xFEC00000 4 1 t in
    (low_word 0xFEC00000 zeros u 4 ≡ 36) × (high_word 0xFEC00000 zeros u 4 ≡ 0x1000000)
ioapic_enable_irq-words_example =
    ioapic_enable_irq-words 0xFEC00000 zeros 23 4 1 4 [] (omega arith) (omega arith) (omega arith)
      (omega arith)
