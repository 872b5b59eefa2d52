-- ===== src/Acpi/Tests.antt =====
-- Runs of src/arch/x86/apic.c on a table with one processor and one I/O APIC.
use frod.Base.{ℕ, ◌≤◌, ◌<◌, ◌≡◌, refl, arith, false, [], ◌∷◌, ◌==◌, if◌then◌else◌, Memory, some}
use frod.Base.Int.{negsuc}
use frod.Kernel.{read_le}
use frod.Acpi.{
  Apic, CpuInfo, AcpiInfo, info_of, find_cpus_in, length_of, find_sdt_entry, entry_from,
}
use frod.Acpi.Cpus.{one_entry, no_more, find_cpus_in_lem, cpu_of}

-- The MADT at 0x2000: its length, a processor with the id 5, and an I/O APIC.
abbrev tables : Memory
tables a =
    if a == 0x2004
    then 64
    else if a == 0x202D
    then 8
    else if a == 0x202F
    then 5
    else if a == 0x2034
    then 1
    else if a == 0x2035
    then 12
    else 0

abbrev none_yet : Apic
none_yet = record {
  local_apic = 0;
  num_cpus = 0;
  cpus = λ i. record { id = 0; boot_cpu = false; started = 0; num_cli = 0; int_enabled = false };
  io_id = 0;
  io_addr = 0;
}

no_fadt :
    info_of 0 tables (record { pm_preferred = 0; boot_flags = 0 })
    ≡ (record { pm_preferred = 0; boot_flags = 0 }, negsuc 0)
unfolding info_of
no_fadt = refl

find_cpus_in_lem_example :
    (b : Apic) × (n : ℕ) × (find_cpus_in 3 0x2000 tables none_yet ≡ some (b, n))
    × (b.num_cpus ≡ 1)
    × (n ≡ 1)
    × ((i : ℕ) → i < 1 → b.cpus i ≡ cpu_of i (frod.Acpi.Rsdp.nth (5 ∷ []) i))
    × ((i : ℕ) → 1 ≤ i → b.cpus i ≡ none_yet.cpus i)
unfolding read_le
find_cpus_in_lem_example =
    find_cpus_in_lem tables 0x2000 3 (0x202C ∷ 0x2034 ∷ []) none_yet
      (one_entry (omega arith) (omega arith) (one_entry (omega arith) (omega arith) no_more))
      (omega arith) (omega arith) (omega arith)
