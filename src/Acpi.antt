-- ===== src/Acpi.antt =====
-- The tables of the firmware that describe the APICs, src/arch/x86/apic.c, in flat memory.
pub mod Rsdp
pub mod Cpus
mod Tests
use frod.Base.{
  ℕ, zero, suc, ◌+◌, ◌-◌, ◌*◌, ◌%◌, ◌^◌, ◌==◌, ltb, not, if◌then◌else◌, Bool, true, false, bit_and,
  bit_or, Option, none, some, ◌⊎◌, inl, inr, Memory, u8, u16, u32,
}
use frod.Base.Int.{ℤ, pos, negsuc}
use frod.Base.Options.{◌>>=◌}
use frod.Strings.{memcpy}
use frod.Kernel.{read_le, checksum_8}

abbrev pub rsdp_signature : ℕ
rsdp_signature = 0x2052545020445352

abbrev pub fadt_signature : ℕ
fadt_signature = 0x50434146

abbrev pub apic_signature : ℕ
apic_signature = 0x43495041

abbrev pub madt_type_lapic : ℕ
madt_type_lapic = 0

abbrev pub madt_type_ioapic : ℕ
madt_type_ioapic = 1

abbrev pub apic_error_fadt_unavailable : ℤ
apic_error_fadt_unavailable = negsuc 0

abbrev pub apic_error_checksum : ℤ
apic_error_checksum = negsuc 1

abbrev pub apic_success : ℤ
apic_success = pos 0

abbrev pub bios_data_addr : ℕ
bios_data_addr = 0x400

abbrev pub main_bios_start : ℕ
main_bios_start = 0xE0000

abbrev pub main_bios_end : ℕ
main_bios_end = 0xFFFFF

abbrev pub max_cpus : ℕ
max_cpus = 8

-- `sizeof(rsdp_descriptor)`, and the offset of its `rsdt_addr`.
abbrev pub sizeof_rsdp_descriptor : ℕ
sizeof_rsdp_descriptor = 24

abbrev pub rsdt_addr_of : Memory → ℕ → ℕ
rsdt_addr_of m rsdp = read_le m (rsdp + 16) 4

-- The header of a table, and the header of the MADT with its two words.
abbrev pub sizeof_sdth : ℕ
sizeof_sdth = 36

abbrev pub sizeof_madt : ℕ
sizeof_madt = 44

abbrev pub sig_of : Memory → ℕ → ℕ
sig_of m table = read_le m table 4

abbrev pub length_of : Memory → ℕ → ℕ
length_of m table = read_le m (table + 4) 4

-- A loop of `find_rsdp` at `i`: the address of the match that comes behind `ignore` others, or the
-- number of matches so far.
unfoldable pub scan : ℕ → ℕ → ℕ → ℕ → ℕ → ℕ → Memory → ℕ ⊎ ℕ
scan zero i start sig found ignore m = inr found
scan (suc left) i start sig found ignore m =
    let skip = scan left (i + 1) start sig found ignore m in
    let next = scan left (i + 1) start sig (found + 1) ignore m in
    if read_le m (start + i) 8 == sig
    then (if found == ignore then inl (u32 (start + i)) else next)
    else skip

-- The second loop, behind the first one.
unfoldable pub scan_bios : ℕ → Memory → ℕ ⊎ ℕ → ℕ
scan_bios ignore m (inl address) = address
scan_bios ignore m (inr found) =
    elim (scan (main_bios_end - main_bios_start) 0 main_bios_start rsdp_signature found ignore m) [
      | inl address ↦ address
      | inr total ↦ 0
    ]

-- `(uint8_t)((uint8_t*)(bda[7] << 4))`.
abbrev pub ebda_of : Memory → ℕ
ebda_of m = u8 (read_le m (bios_data_addr + 14) 2 * 2 ^ 4)

unfoldable pub find_rsdp : ℕ → Memory → ℕ
find_rsdp ignore m = scan_bios ignore m (scan 1024 0 (ebda_of m) (u16 rsdp_signature) 0 ignore m)

-- The loop of `apic_init`; `rsdp` is the address of the copy. `none` means that the fuel ran out.
unfoldable pub init_from : ℕ → ℕ → ℕ → Memory → Option (Memory × Bool)
init_from zero matches rsdp m = none
init_from (suc fuel) matches rsdp m =
    let trsdp = find_rsdp matches m in
    let rest = init_from fuel (matches + 1) rsdp m in
    let (copied, dst) = memcpy rsdp trsdp sizeof_rsdp_descriptor m in
    if trsdp == 0
    then some (m, false)
    else if not (checksum_8 trsdp 20 m == 0)
    then rest
    else some (copied, true)

unfoldable pub apic_init : ℕ → ℕ → Memory → Option (Memory × Bool)
apic_init fuel rsdp m = init_from fuel 0 rsdp m

-- The loop of `find_sdt_entry` at `ptr_start`, below the end of the table.
unfoldable pub entry_from : ℕ → ℕ → ℕ → ℕ → Memory → Option ℕ
entry_from zero ptr_start end sig m = none
entry_from (suc fuel) ptr_start end sig m =
    let tmp = read_le m ptr_start 4 in
    let rest = entry_from fuel (u32 (ptr_start + 4)) end sig m in
    if not (ltb ptr_start end) then some 0 else if sig_of m tmp == sig then some tmp else rest

unfoldable pub find_sdt_entry : ℕ → ℕ → ℕ → Memory → Option ℕ
find_sdt_entry fuel rsdp sig m =
    let rsdt = rsdt_addr_of m rsdp in
    entry_from fuel (u32 (rsdt + sizeof_sdth)) (u32 (rsdt + length_of m rsdt)) sig m

-- A length as the `int` that `checksum_8` takes, whose loop does nothing for a negative one.
abbrev pub as_len : ℕ → ℕ
as_len n = if ltb n (2 ^ 31) then n else 0

-- What `apic_find_info` stores.
pub record AcpiInfo : Type 0 where
  pub pm_preferred : ℕ
  pub boot_flags : ℕ

-- The table at `fadt`, or the null pointer.
unfoldable pub info_of : ℕ → Memory → AcpiInfo → AcpiInfo × ℤ
info_of fadt m info =
    if fadt == 0
    then (info, apic_error_fadt_unavailable)
    else if not (checksum_8 fadt (as_len (length_of m fadt)) m == 0)
    then (info, apic_error_checksum)
    else (
      record { pm_preferred = m (fadt + 45); boot_flags = read_le m (fadt + 109) 2 },
      apic_success,
    )

unfoldable pub apic_find_info : ℕ → ℕ → Memory → AcpiInfo → Option (AcpiInfo × ℤ)
apic_find_info fuel rsdp m info = do
  fadt ← find_sdt_entry fuel rsdp fadt_signature m
  some (info_of fadt m info)

pub record CpuInfo : Type 0 where
  pub id : ℕ
  pub boot_cpu : Bool
  pub started : ℕ
  pub num_cli : ℕ
  pub int_enabled : Bool

-- `cpus` as a function: an index of MAX_CPUS or more is a write behind the array. `ret`, `id` and
-- `addr` of the I/O APIC, and the two flags of what was found.
pub record Found : Type 0 where
  pub cpus : ℕ → CpuInfo
  pub ret : ℕ
  pub io_id : ℕ
  pub io_addr : ℕ
  pub found_lapic : Bool
  pub found_ioapic : Bool

unfoldable pub add_cpu : ℕ → Memory → Found → Found
add_cpu entry m f = record f {
  cpus = λ i.
      if i == f.ret
      then record {
        id = m (entry + 3);
        boot_cpu = f.ret == 0;
        started = if f.ret == 0 then 1 else 0;
        num_cli = 0;
        int_enabled = false;
      }
      else f.cpus i;
  found_lapic = true;
  ret = f.ret + 1;
}

unfoldable pub set_ioapic : ℕ → Memory → Found → Found
set_ioapic entry m f = record f {
  io_id = m (entry + 2);
  io_addr = read_le m (entry + 4) 4;
  found_ioapic = true;
}

-- One entry of the MADT.
unfoldable pub add_entry : ℕ → Memory → Found → Found
add_entry entry m f =
    if m entry == madt_type_lapic
    then add_cpu entry m f
    else if m entry == madt_type_ioapic
    then set_ioapic entry m f
    else f

-- The loop over the entries.
unfoldable pub add_entries : ℕ → ℕ → ℕ → Memory → Found → Option Found
add_entries zero tmp end m f = none
add_entries (suc fuel) tmp end m f =
    let rest = add_entries fuel (u32 (tmp + m (tmp + 1))) end m (add_entry tmp m f) in
    if ltb tmp end then rest else some f

-- `local_apic`, the processors and `num_cpus`.
pub record Apic : Type 0 where
  pub local_apic : ℕ
  pub num_cpus : ℕ
  pub cpus : ℕ → CpuInfo
  pub io_id : ℕ
  pub io_addr : ℕ

unfoldable pub start_found : Apic → Found
start_found a = record {
  cpus = a.cpus;
  ret = 0;
  io_id = a.io_id;
  io_addr = a.io_addr;
  found_lapic = false;
  found_ioapic = false;
}

-- The table at `madt` that is there.
unfoldable pub end_find : ℕ → Memory → Found → Apic × ℕ
end_find madt m f = (
  record {
    local_apic = read_le m (madt + 36) 4;
    num_cpus = f.ret;
    cpus = f.cpus;
    io_id = f.io_id;
    io_addr = f.io_addr;
  },
  (if not f.found_lapic then 0 else if f.found_ioapic then f.ret else 0),
)

unfoldable pub find_cpus_in : ℕ → ℕ → Memory → Apic → Option (Apic × ℕ)
find_cpus_in fuel madt m a = do
  f ← add_entries fuel (u32 (madt + sizeof_madt)) (u32 (madt + length_of m madt)) m (start_found a)
  some (end_find madt m f)

unfoldable pub apic_find_cpus : ℕ → ℕ → Memory → Apic → Option (Apic × ℕ)
apic_find_cpus fuel rsdp m a = do
  madt ← find_sdt_entry fuel rsdp apic_signature m
  let found = find_cpus_in fuel madt m a
  if madt == 0 then some (a, 0) else found
