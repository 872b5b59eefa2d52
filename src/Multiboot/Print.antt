-- ===== src/Multiboot/Print.antt =====
-- What src/sys/multiboot1.c prints. A call of printf or kprintf is an entry of a list, in the order
-- of the calls, with its format and its arguments.
use Prim.Native.String.{String}
use frod.Base.{
  ℕ, zero, suc, ◌+◌, ◌/◌, ◌^◌, ◌==◌, ltb, if◌then◌else◌, bit_and, not, Option, none, some, List, [],
  ◌∷◌, ◌++◌, Memory, read32, u32,
}
use frod.Base.Options.{◌>>=◌}
use frod.Pmm.Init.{next_entry, type}
use frod.Multiboot.{mods_count, mods_addr, mod_start, mod_end, mod_name, sizeof_module}

-- An argument: a number or a pointer, or a string of the kernel's own.
pub data Arg : Type 0 where
  num : ℕ → Arg
  str : String → Arg

pub record Call : Type 0 where
  pub fmt : String
  pub args : List Arg

abbrev pub print : String → List Arg → List Call
print f l = record { fmt = f; args = l } ∷ []

-- The `uint32_t` at byte `k` of the `multiboot_info`.
abbrev pub field : Memory → ℕ → ℕ → ℕ
field m info k = read32 m (info + k)

-- `while(v > 1024 && l < 2)`, with `left` more units to go; the result is the value and `l`.
unfoldable pub scale : ℕ → ℕ → ℕ → ℕ × ℕ
scale zero v l = (v, l)
scale (suc left) v l = if ltb 1024 v then scale left (v / 1024) (l + 1) else (v, l)

abbrev pub types : ℕ → String
types l = if l == 0 then "KB" else if l == 1 then "MB" else "GB"

unfoldable pub print_mb_memory : Memory → ℕ → List Call
print_mb_memory m info =
    let (low, l) = scale 2 (field m info 4) 0 in
    let (upper, h) = scale 2 (field m info 8) 0 in
    print "Memory:\n\tStart: %i %s\n\tUpper: %i %s\n"
      (num low ∷ str (types l) ∷ num upper ∷ str (types h) ∷ [])

unfoldable pub print_mb_boot_device : Memory → ℕ → List Call
print_mb_boot_device m info =
    let d = field m info 12 in
    print "Boot dev:\n\tPart3: %i, Part2: %i, Part1: %i, Drive: %i\n" (
      num (bit_and d 0xFF)
      ∷ num (bit_and d 0xFF00 / 2 ^ 8)
      ∷ num (bit_and d 0xFF0000 / 2 ^ 16)
      ∷ num (bit_and d 0xFF000000 / 2 ^ 24)
      ∷ [])

unfoldable pub print_mb_cmdline : Memory → ℕ → List Call
print_mb_cmdline m info =
    print "CMD line(0x%p): %s\n" (num (field m info 16) ∷ num (field m info 16) ∷ [])

-- The loop over the modules, at number `i`, with `left` of them to go.
unfoldable pub print_modules : ℕ → ℕ → ℕ → Memory → List Call
print_modules zero i mm m = []
print_modules (suc left) i mm m =
    print "\tModule %i loaded at: %p\n" (num i ∷ num mm ∷ [])
    ++ print "\t\t%s: %x -> %x\n"
        (num (mod_name m mm) ∷ num (mod_start m mm) ∷ num (mod_end m mm) ∷ [])
    ++ print_modules left (i + 1) (u32 (mm + sizeof_module)) m

unfoldable pub print_mb_modules : Memory → ℕ → List Call
print_mb_modules m info =
    print "Modules loaded: %i\n" (num (mods_count m info) ∷ [])
    ++ print_modules (mods_count m info) 0 (mods_addr m info) m

unfoldable pub print_mb_sym_elf : Memory → ℕ → List Call
print_mb_sym_elf m info =
    print "ELF kernel section header\n\tNum: %i, Size: %i, Addr: 0x%X, Shndx: %i\n" (
      num (field m info 28)
      ∷ num (field m info 32)
      ∷ num (field m info 36)
      ∷ num (field m info 40)
      ∷ [])

abbrev pub mem_type_str : ℕ → String
mem_type_str n =
    if n == 0
    then "unknown"
    else if n == 1
    then "available"
    else if n == 2
    then "reserved"
    else if n == 3
    then "acpi"
    else if n == 4
    then "reserve preserve"
    else "defective"

-- The two calls about the entry of the memory map at `p`, which make one line.
unfoldable pub print_region : Memory → ℕ → List Call
print_region m p =
    print "\tMap @0x%X+0x%X, Len: %X+%X, Type: 0x%X " (
      num (read32 m (p + 8))
      ∷ num (read32 m (p + 4))
      ∷ num (read32 m (p + 16))
      ∷ num (read32 m (p + 12))
      ∷ num (type m p)
      ∷ [])
    ++ (if ltb (type m p) 6
        then print "(%s)\n" (str (mem_type_str (type m p)) ∷ [])
        else print "(unknown)\n" [])

abbrev pub prepend : List Call → Option (List Call) → Option (List Call)
prepend l none = none
prepend l (some r) = some (l ++ r)

-- The walk over the memory map; `none` means that the fuel ran out.
unfoldable pub print_regions : ℕ → ℕ → ℕ → Memory → Option (List Call)
print_regions zero stop p m = none
print_regions (suc fuel) stop p m =
    let rest = prepend (print_region m p) (print_regions fuel stop (next_entry m p) m) in
    if ltb p stop then rest else some []

-- An entry takes four bytes or more, so one round more than there are bytes is enough.
unfoldable pub print_mb_mmap : Memory → ℕ → Option (List Call)
print_mb_mmap m info =
    let addr = field m info 48 in
    let len = field m info 44 in
    prepend (print "Mmap @0x%X, length = %i\n" (num addr ∷ num len ∷ []))
      (print_regions (len + 1) (u32 (addr + len)) addr m)

unfoldable pub print_mb_drives : Memory → ℕ → List Call
print_mb_drives m info =
    print "Drive @0x%X, length = %i\n" (num (field m info 56) ∷ num (field m info 52) ∷ [])

unfoldable pub print_mb_config : Memory → ℕ → List Call
print_mb_config m info = print "Config table @0x%X\n" (num (field m info 60) ∷ [])

unfoldable pub print_mb_boot_name : Memory → ℕ → List Call
print_mb_boot_name m info = print "Boot loader name: %s\n" (num (field m info 64) ∷ [])

unfoldable pub print_mb_apm : Memory → ℕ → List Call
print_mb_apm m info = print "APM table @0x%X\n" (num (field m info 68) ∷ [])

unfoldable pub print_mb_vbe : Memory → ℕ → List Call
print_mb_vbe m info =
    print "VBE control @0x%X, VBE mode @0x%X\n\tVideo mode: 0x%X\n"
      (num (field m info 72) ∷ num (field m info 76) ∷ num (field m info 80) ∷ [])

-- One of the twelve flags, its name and its function; `flags_int[i]` is 2 ^ i.
pub record Part : Type 0 where
  pub bit : ℕ
  pub name : String
  pub func : Memory → ℕ → Option (List Call)

abbrev pub plain : (Memory → ℕ → List Call) → Memory → ℕ → Option (List Call)
plain f m info = some (f m info)

unfoldable pub parts : List Part
parts =
    record { bit = 1; name = "MEM"; func = plain print_mb_memory }
    ∷ record { bit = 2; name = "BOOT_DEV"; func = plain print_mb_boot_device }
    ∷ record { bit = 4; name = "CMDLINE"; func = plain print_mb_cmdline }
    ∷ record { bit = 8; name = "MODS"; func = plain print_mb_modules }
    ∷ record { bit = 16; name = "AOUT"; func = plain (λ m info. []) }
    ∷ record { bit = 32; name = "ELF"; func = plain print_mb_sym_elf }
    ∷ record { bit = 64; name = "MMAP"; func = print_mb_mmap }
    ∷ record { bit = 128; name = "DRIVES"; func = plain print_mb_drives }
    ∷ record { bit = 256; name = "CONFIG"; func = plain print_mb_config }
    ∷ record { bit = 512; name = "BOOT_NAME"; func = plain print_mb_boot_name }
    ∷ record { bit = 1024; name = "APM"; func = plain print_mb_apm }
    ∷ record { bit = 2048; name = "VBE"; func = plain print_mb_vbe }
    ∷ []

-- The first loop of `print_mb_info`, which lists the flags, and the second one, which prints what
-- they stand for.
unfoldable pub print_flags : ℕ → List Part → List Call
print_flags flags [] = []
print_flags flags (p ∷ ps) =
    (if not (bit_and flags p.bit == 0) then print "%s " (str p.name ∷ []) else [])
    ++ print_flags flags ps

unfoldable pub print_parts : ℕ → List Part → Memory → ℕ → Option (List Call)
print_parts flags [] m info = some []
print_parts flags (p ∷ ps) m info = do
  here ← if not (bit_and flags p.bit == 0) then p.func m info else some []
  rest ← print_parts flags ps m info
  some (here ++ rest)

unfoldable pub print_mb_info : Memory → ℕ → Option (List Call)
print_mb_info m info = do
  let flags = field m info 0
  rest ← print_parts flags parts m info
  some (print "Flags set: " [] ++ print_flags flags parts ++ print "\n" [] ++ rest)
