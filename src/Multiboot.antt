-- ===== src/Multiboot.antt =====
-- What the boot loader hands over, src/sys/multiboot1.c: the move of a module and the check of the
-- flags; `Print` has what is printed of it.
pub mod Modules
pub mod Print
pub mod Printed
mod Tests
use frod.Base.Options.{◌>>=◌}
use frod.Base.{
  ℕ, zero, suc, ◌+◌, ◌-◌, ◌*◌, ◌/◌, ◌^◌, ◌==◌, ltb, if◌then◌else◌, bit_and, Bool, true, false, not,
  Option, none, some, List, [], ◌∷◌, ◌++◌, ◌&&◌,
}
use frod.Base.{Memory, read32, u32}
use frod.Base.Int.{ℤ, pos, negsuc}
use frod.Pmm.{Pmm, pmm_mark_mem_taken}
use frod.Strings.{strcmp, memcpy}

-- `MULTIBOOT_INFO_MEM`, `MULTIBOOT_INFO_MODS` and `MULTIBOOT_INFO_MMAP`.
abbrev pub multiboot_info_mem : ℕ
multiboot_info_mem = 1

abbrev pub multiboot_info_mods : ℕ
multiboot_info_mods = 8

abbrev pub multiboot_info_mmap : ℕ
multiboot_info_mmap = 64

abbrev pub sizeof_module : ℕ
sizeof_module = 16

-- The fields of `multiboot_info` and `multiboot_module` that the code reads, by their offsets.
abbrev pub mods_count : Memory → ℕ → ℕ
mods_count m info = read32 m (info + 20)

abbrev pub mods_addr : Memory → ℕ → ℕ
mods_addr m info = read32 m (info + 24)

abbrev pub mod_start : Memory → ℕ → ℕ
mod_start m mm = read32 m mm

abbrev pub mod_end : Memory → ℕ → ℕ
mod_end m mm = read32 m (mm + 4)

abbrev pub mod_name : Memory → ℕ → ℕ
mod_name m mm = read32 m (mm + 8)

abbrev pub is_equal : ℤ → Bool
is_equal (pos zero) = true
is_equal (pos (suc n)) = false
is_equal (negsuc n) = false

-- The module at `mm` is moved to `to`; its record is read again behind the copy.
unfoldable pub take_module : ℕ → ℕ → Pmm → Pmm
take_module mm to s =
    let start = mod_start s.mem mm in
    let m = (memcpy to start (u32 (mod_end s.mem mm + 2 ^ 32 - start)) s.mem).0 in
    pmm_mark_mem_taken (mod_start m mm) (mod_end m mm) (record s { mem = m })

-- The loop of `move_module`, with `left` modules to look at; `fuel` is that of `strcmp`.
unfoldable pub move_from : ℕ → ℕ → ℕ → ℕ → ℕ → Pmm → Option (Pmm × Bool)
move_from zero fuel mm name to s = some (s, false)
move_from (suc left) fuel mm name to s =
    let rest = move_from left fuel (u32 (mm + sizeof_module)) name to s in
    do
      d ← strcmp fuel (mod_name s.mem mm) name s.mem
      if is_equal d then some (take_module mm to s, true) else rest

unfoldable pub move_module : ℕ → ℕ → ℕ → ℕ → Pmm → Option (Pmm × Bool)
move_module fuel info name to s =
    move_from (mods_count s.mem info) fuel (mods_addr s.mem info) name to s

-- `none` is the panic about what is missing; the flag of the memory map only leads to a message.
unfoldable pub check_necessary_flags : ℕ → Option (Unit {0})
check_necessary_flags flags =
    if bit_and flags multiboot_info_mem == 0
    then none
    else if bit_and flags multiboot_info_mods == 0
    then none
    else some tt
