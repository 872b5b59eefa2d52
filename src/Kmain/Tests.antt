-- ===== src/Kmain/Tests.antt =====
-- Runs of src/sys/kmain.c: on a machine where all is well, and on one without an APIC.
use frod.Base.{◌≡◌, refl, none, some, [], ◌∷◌}
use frod.Base.Int.{ℤ, pos}
use frod.Multiboot.{check_necessary_flags}
use frod.Kmain.{
  Call, calls_apic_find_info, calls_apic_init, Answers, MultibootInfo, kmain, panic_if, takes_over,
  call, says, flags_checked, finds_machine, starts_drivers, says_ps2, says_uart, starts_memory,
}
use frod.Kmain.Ends.{Ends}

abbrev info : MultibootInfo
info = record { mboot_ptr = 0x9500; flags = 0x49; mmap_addr = 0x9000; mmap_length = 48 }

-- The only call that has to return 0 is that of `apic_find_info`.
abbrev returned : Call → ℤ
returned calls_apic_find_info = pos 0
returned _ = pos 1

abbrev well : Answers
well [] = none
well (c ∷ calls) = some (returned c)

gets_to_end : (kmain well info 0x100000 0x120000 0x5000 []).1 ≡ some tt
unfolding kmain panic_if takes_over call says flags_checked check_necessary_flags finds_machine
    starts_drivers says_ps2 says_uart starts_memory
gets_to_end = refl

-- No APIC is found.
abbrev answered : Call → ℤ
answered calls_apic_init = pos 0
answered c = returned c

abbrev without_apic : Answers
without_apic [] = none
without_apic (c ∷ calls) = some (answered c)

-- Nine calls are made, the last to `apic_init`.
stops_without_apic : (kmain without_apic info 0x100000 0x120000 0x5000 []).1 ≡ none
unfolding kmain panic_if takes_over call says flags_checked check_necessary_flags finds_machine
stops_without_apic = refl
