-- ===== src/Isr/Tests.antt =====
-- Runs of src/arch/x86/isr.c with handlers that add to a counter.
use frod.Base.{ℕ, ◌+◌, ◌≡◌, [], ◌∷◌}
use frod.Ports.{sent}
use frod.Process.{clear_registers}
use frod.Process.Switch.{IsSwitched}
use frod.Process.Tests.{two, two-IsScheduled}
use frod.Isr.Switching.{intr_handler, intr_handler-IsSwitched}

abbrev add : ℕ → ℕ → ℕ → ℕ × ℕ
add amount regs count = (count + amount, 0)

-- Interrupt 64 on the second of two processes, with a local APIC that answers with its number.
intr_handler-IsSwitched_example :
    let out = intr_handler (λ tr a. 0x01000000) 0xFEE00000 clear_registers ([], two) in
    (esp : ℕ) × IsSwitched clear_registers two out.0.1 esp
    × (sent 0xFEE000B0 out.0.0 ≡ 0 ∷ [])
    × (out.1 ≡ 0)
unfolding sent
intr_handler-IsSwitched_example =
    intr_handler-IsSwitched (λ tr a. 0x01000000) 0xFEE00000 clear_registers [] two two-IsScheduled
