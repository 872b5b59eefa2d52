-- ===== src/Acpi/Rsdp.antt =====
-- Which descriptor `apic_init` of src/arch/x86/apic.c finds.
use frod.Base.{
  ℕ, zero, suc, ◌+◌, ◌-◌, ◌==◌, not, if◌then◌else◌, Bool, true, false, List, [], ◌∷◌, ◌++◌, Option,
  none, some, ◌⊎◌, inl, inr, Memory, u16, u32,
}
use frod.Strings.{memcpy}
use frod.Kernel.{read_le, checksum_8}
use frod.Acpi.{ebda_of, rsdp_signature, main_bios_start, main_bios_end, sizeof_rsdp_descriptor}

-- The addresses that match, among the `left` ones from index `i` on.
unfoldable pub matching : ℕ → ℕ → ℕ → ℕ → Memory → List ℕ
matching zero i start sig m = []
matching (suc left) i start sig m =
    let rest = matching left (i + 1) start sig m in
    if read_le m (start + i) 8 == sig then u32 (start + i) ∷ rest else rest

-- The one that comes behind the others that are ignored.
abbrev pick : List ℕ → ℕ → ℕ → ℕ ⊎ ℕ
pick [] found ignore = inr found
pick (a ∷ xs) found ignore = if found == ignore then inl a else pick xs (found + 1) ignore

-- The element with a number, or 0.
abbrev pub nth : List ℕ → ℕ → ℕ
nth [] k = 0
nth (a ∷ xs) zero = a
nth (a ∷ xs) (suc k) = nth xs k

abbrev or_null : ℕ ⊎ ℕ → ℕ
or_null (inl address) = address
or_null (inr found) = 0

-- The second list, behind the first one.
abbrev continue : List ℕ → ℕ → ℕ ⊎ ℕ → ℕ
continue ys ignore (inl address) = address
continue ys ignore (inr found) = or_null (pick ys found ignore)

-- The candidates: 8-byte words that are the low 16 bits of the signature in the extended area of the
-- firmware's data, and then the signature in the main area.
abbrev pub candidates : Memory → List ℕ
candidates m =
    matching 1024 0 (ebda_of m) (u16 rsdp_signature) m
    ++ matching (main_bios_end - main_bios_start) 0 main_bios_start rsdp_signature m

-- The first candidate with a checksum of 0; a candidate at address 0 ends the search.
abbrev pub first_valid : List ℕ → Memory → Option ℕ
first_valid [] m = none
first_valid (a ∷ xs) m =
    let rest = first_valid xs m in
    if a == 0 then none else if not (checksum_8 a 20 m == 0) then rest else some a

-- What `apic_init` leaves and returns.
abbrev pub stored : ℕ → Memory → Option ℕ → Memory × Bool
stored rsdp m none = (m, false)
stored rsdp m (some a) = ((memcpy rsdp a sizeof_rsdp_descriptor m).0, true)
