-- ===== src/Kernel/Tests.antt =====
-- Runs of src/sys/kernel.c, its own test of the checksum among them.
use frod.Base.{
  ℕ, ◌+◌, ◌*◌, ◌%◌, ◌^◌, ◌≡◌, ◌⊎◌, refl, arith, true, ◌==◌, if◌then◌else◌, Memory, some, [], ◌∷◌,
}
use frod.Kernel.{
  read_le, checksum_8, checksum_from, is_signature, signature_from, find_signature, fill_up,
  fill_down, kernel_test_checksum, kernel_generic_unit_test,
}

-- The bytes 0, 1, 2 and so on, and 0 again behind 255.
abbrev counting : Memory
counting a = a % 256

kernel_tests : kernel_generic_unit_test (kernel_test_checksum 0x100 counting ∷ []) ≡ true
unfolding kernel_generic_unit_test kernel_test_checksum fill_up fill_down checksum_8 checksum_from
    read_le frod.Base.write
kernel_tests = refl

found : find_signature 17 0x100 16 2 0x0504 2 counting ≡ some 0x104
unfolding find_signature signature_from is_signature read_le
found = refl
