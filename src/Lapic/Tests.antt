-- ===== src/Lapic/Tests.antt =====
-- Runs of src/arch/x86/lapic.c on a controller that is never pending.
use frod.Base.{◌+◌, ◌*◌, ◌^◌, ◌<◌, ◌⊎◌, ℕ, ◌≡◌, refl, [], ◌∷◌, some, Memory, false}
use frod.Ports.{Trace, Device, paired}
use frod.Lapic.{lapic_start_ap, lapic_cpuid, lapic_install, load32, commands}
use frod.Lapic.Startup.{lapic_start_ap-sent}

abbrev idle : Device
idle tr a = 0x05000000

number : (lapic_cpuid idle 0xFEE00000 []).1 ≡ 5
unfolding lapic_cpuid load32
number = refl

without_address : lapic_install idle 0 2 7 [] ≡ some (([], 7), false)
unfolding lapic_install
without_address = refl

lapic_start_ap-sent_example :
    (t : Trace) × (m1 : Memory) × (lapic_start_ap idle 0xFEE00000 2 1 0x8000 ([], λ a. 0)
      ≡ some (t, m1))
    × (commands 0xFEE00000 t
        ≡ (0x1000000, 0x608) ∷ (0x1000000, 0x608) ∷ (0x1000000, 0x8500) ∷ (0x1000000, 0xC500) ∷ [])
    × (paired 0x70 0x71 t ≡ (0x0F, 0x0A) ∷ [])
    × (m1 0x467 + m1 0x468 * 2 ^ 8 ≡ 0)
    × (m1 0x469 + m1 0x46A * 2 ^ 8 ≡ 0x800)
    × ((a : ℕ) → (a < 0x467) ⊎ (0x46A < a) → m1 a ≡ 0)
unfolding paired
lapic_start_ap-sent_example =
    lapic_start_ap-sent idle 0xFEE00000 (λ tr v. refl) 1 0x8000 [] (λ a. 0)
