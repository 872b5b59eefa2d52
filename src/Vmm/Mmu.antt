-- ===== src/Vmm/Mmu.antt =====
-- The bit arithmetic of src/sys/vmm.c as division and remainder.
use frod.Base.{ℕ, ◌-◌, ◌*◌, ◌/◌, ◌%◌, ◌^◌, ◌<◌, ◌≡◌, refl, arith, bit_or}
use frod.Base.Bits.{
  bit_and_high, bit_and_mask, bit_and-one, div-bit_or, bit_or-zero, mod_two-bit_or,
}
use frod.Vmm.{page_of, diri, pagei, is_present, present, entry, frame}

pub page_of_lem : (a : ℕ) → a < 2 ^ 32 → page_of a ≡ a / 4096 * 4096
unfolding page_of
page_of_lem a h = omega (arith, bit_and_high 12 a (2 ^ 20 - 1), bit_and_mask 20 (a / 2 ^ 12))

pub diri_lem : (a : ℕ) → a < 2 ^ 32 → diri a ≡ a / 2 ^ 22
unfolding diri
diri_lem a h = omega (arith, page_of_lem a h)

pub pagei_lem : (a : ℕ) → a < 2 ^ 32 → pagei a ≡ a / 4096 % 1024
unfolding pagei
pagei_lem a h = omega (arith, page_of_lem a h)

pub is_present_lem : (e : ℕ) → is_present e ≡ present e
unfolding is_present
is_present_lem e = ground (arith, bit_and-one e)

-- An entry for a frame is present and points to the frame.
pub entry_present : (a flags : ℕ) → a % 4096 ≡ 0 → entry a flags % 2 ≡ 1
unfolding entry
entry_present a flags h = omega (arith, mod_two-bit_or (bit_or a 1) flags, mod_two-bit_or a 1)

pub frame-entry : (a flags : ℕ) → a % 4096 ≡ 0 → flags < 4096 → frame (entry a flags) ≡ a
unfolding entry
frame-entry a flags h lt =
    let low : flags / 2 ^ 12 ≡ 0 = omega arith in
    let one : ◌/◌ 1 (2 ^ 12) ≡ 0 = refl in
    let e : bit_or (bit_or a 1) flags / 2 ^ 12 ≡ a / 2 ^ 12 =
      rw (div-bit_or 12 (bit_or a 1) flags, div-bit_or 12 a 1, low, one, bit_or-zero, bit_or-zero)
        refl in
    omega (arith, e)
