-- ===== src/Gates/Fields.antt =====
-- What the processor reads from the descriptors of arch/x86/gdt.c and arch/x86/idt.c.
use frod.Base.{
  ℕ, ◌+◌, ◌*◌, ◌/◌, ◌%◌, ◌^◌, ◌<◌, ◌≡◌, refl, ◌∙◌, true, ◌≢◌, arith, ◌==◌, bit_and, bit_or, u8,
}
use frod.Base.Bits.{bit_and_mask, bit_and_high, or_disjoint, bit_or_comm}
use frod.Base.Bytes.{each_below, test_of_each_below}
use frod.Gates.{GdtEntry, IdtEntry, gdt_set_gate, idt_set_gate}

-- The base and the 20 bits of the limit that a descriptor stands for.
abbrev pub base_of : GdtEntry → ℕ
base_of e = e.base_low + e.base_middle * 2 ^ 16 + e.base_high * 2 ^ 24

abbrev pub limit_of : GdtEntry → ℕ
limit_of e = e.limit_low + e.granularity % 16 * 2 ^ 16

-- The descriptor that `gdt_set_gate` writes for a 32-bit base stands for that base, for the low 20
-- bits of the limit and for the high 4 bits of the granularity; no other descriptor changes.
pub gdt_set_gate_lem :
    (num base limit access gran : ℕ) (entries : ℕ → GdtEntry)
    → base < 2 ^ 32
    → access < 256
    → gran < 256
    → let e = gdt_set_gate num base limit access gran entries in
      (base_of (e num) ≡ base)
      × (limit_of (e num) ≡ limit % 2 ^ 20)
      × ((e num).granularity / 16 ≡ gran / 16)
      × ((e num).access ≡ access)
      × ((n : ℕ) → n ≢ num → e n ≡ entries n)
unfolding gdt_set_gate
gdt_set_gate_lem num base limit access gran entries hb ha hg =
    let b0 = bit_and_mask 16 base in
    let b1 = bit_and_mask 8 (base / 2 ^ 16) in
    let b2 = bit_and_mask 8 (base / 2 ^ 24) in
    let l0 = bit_and_mask 16 limit in
    let l1 = bit_and_mask 4 (limit / 2 ^ 16) in
    let g0 = bit_and_high 4 gran 15 in
    let g1 = bit_and_mask 4 (gran / 2 ^ 4) in
    let lo : ℕ = bit_and (limit / 2 ^ 16) 0x0F in
    let hi : ℕ = bit_and gran 0xF0 in
    let h : hi ≡ gran / 16 % 16 * 2 ^ 4 = omega (arith, g0, g1) in
    let o : bit_or lo hi ≡ gran / 16 % 16 * 2 ^ 4 + lo =
      bit_or_comm lo hi ∙ rw h (or_disjoint (gran / 16 % 16) lo 4 (omega (arith, l1))) in
    let here : (num == num) ≡ true = ground arith in
    rw here (
      omega (arith, b0, b1, b2),
      omega (arith, l0, l1, o),
      omega (arith, l1, o),
      omega arith,
      λ n ne. ground arith,
    )

user_table : each_below (λ f. (u8 (bit_or f 0x60) / 2 ^ 5 % 4) == 3) 256 ≡ true
unfolding each_below
user_table = refl

user_gate : (f : ℕ) → f < 256 → u8 (bit_or f 0x60) / 2 ^ 5 % 4 ≡ 3
user_gate f lt =
    let t = test_of_each_below (λ g. (u8 (bit_or g 0x60) / 2 ^ 5 % 4) == 3) 256 f lt user_table in
    ground (arith, t)

-- The gate that `idt_set_gate` writes for a 32-bit handler points to the handler with the given
-- selector and zero byte, for privilege level 3; no other gate changes.
pub idt_set_gate_lem :
    (num base sel flags : ℕ) (entries : ℕ → IdtEntry)
    → base < 2 ^ 32
    → sel < 2 ^ 16
    → flags < 256
    → let e = idt_set_gate num base sel flags entries in
      ((e num).base_low + (e num).base_high * 2 ^ 16 ≡ base)
      × ((e num).selector ≡ sel)
      × ((e num).zero_byte ≡ 0)
      × ((e num).flags / 2 ^ 5 % 4 ≡ 3)
      × ((n : ℕ) → n ≢ num → e n ≡ entries n)
unfolding idt_set_gate
idt_set_gate_lem num base sel flags entries hb hs hf =
    let b0 = bit_and_mask 16 base in
    let b1 = bit_and_mask 16 (base / 2 ^ 16) in
    let here : (num == num) ≡ true = ground arith in
    rw here (omega (arith, b0, b1), omega arith, refl, user_gate flags hf, λ n ne. ground arith)
