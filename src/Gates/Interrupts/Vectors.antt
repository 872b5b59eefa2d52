-- ===== src/Gates/Interrupts/Vectors.antt =====
-- Where the gates of src/arch/x86/idt.c lead.
use frod.Base.{
  ℕ, zero, suc, ◌+◌, ◌-◌, ◌*◌, ◌/◌, inl, inr, Bool-cases, ◌^◌, ◌<◌, ◌≤◌, ◌≡◌, refl, ◌∙◌, arith, ltb,
  leb, ◌&&◌, ◌==◌, if◌then◌else◌, bit_and,
}
use frod.Base.Bits.{bit_and_mask}
use frod.Gates.{IdtEntry, idt_set_gate}
use frod.Gates.Interrupts.{
  Stubs, Idt, set_gates, idt_install, idt_enable, kernel_code, interrupt_gate,
}

-- The address that a gate leads to.
abbrev pub handler_of : IdtEntry → ℕ
handler_of e = e.base_low + e.base_high * 2 ^ 16

-- The 32-bit interrupt gate to `base`, which any privilege level may call.
gate : ℕ → IdtEntry
gate base = record {
  base_low = bit_and base 0xFFFF;
  base_high = bit_and (base / 2 ^ 16) 0xFFFF;
  selector = 8;
  zero_byte = 0;
  flags = 0xEE;
}

gate_fields :
    (base : ℕ)
    → base < 2 ^ 32
    → (handler_of (gate base) ≡ base)
      × ((gate base).selector ≡ kernel_code)
      × ((gate base).flags ≡ 0xEE)
unfolding gate
gate_fields base lt =
    (omega (arith, bit_and_mask 16 base, bit_and_mask 16 (base / 2 ^ 16)), refl, refl)

set_gate-gate :
    (num base : ℕ) (entries : ℕ → IdtEntry) (n : ℕ)
    → idt_set_gate num base kernel_code interrupt_gate entries n
      ≡ (if n == num then gate base else entries n)
unfolding idt_set_gate gate
set_gate-gate num base entries n = refl

set_gates-gate :
    (left i : ℕ) (address : ℕ → ℕ) (entries : ℕ → IdtEntry) (n : ℕ)
    → set_gates left i address entries n
      ≡ (if leb i n && ltb n (i + left) then gate (address n) else entries n)
unfolding set_gates
set_gates-gate zero i address entries n = ground arith
set_gates-gate (suc left) i address entries n =
    set_gates-gate left (i + 1) address _ n
    ∙ rw (set_gate-gate i (address i) entries n) (elim (Bool-cases (n == i)) [
      | inl here ↦ let e : n ≡ i = ground arith in rw e (ground arith)
      | inr other ↦ ground arith
    ])

-- The stub that interrupt `n` is meant to reach.
abbrev pub stub_of : Stubs → ℕ → ℕ
stub_of st n =
    if ltb n 32
    then st.isr n
    else if ltb n 48
    then st.irq (n - 32)
    else if n == 63
    then st.intr63
    else if n == 64
    then st.intr64
    else if n == 128
    then st.isr128
    else st.idt_none

entry_of :
    (st : Stubs) (table : ℕ) (s : Idt) (n : ℕ)
    → (idt_install st table s).idt_entries n
      ≡ (if ltb n 256 then gate (stub_of st n) else s.idt_entries n)
unfolding idt_install
entry_of st table s n = simp (set_gate-gate, set_gates-gate) (ground arith)

-- For stubs within the address space, after `idt_install` and `idt_enable` each of the 256 entries
-- leads, in the kernel's code segment and with the flags of a present gate that a user's process may
-- call, to the stub that its number is meant to reach; what stands behind the table does not
-- change, and the processor's register gives the table and its length.
pub idt_install-reaches :
    (st : Stubs) (table : ℕ) (s : Idt)
    → ((n : ℕ) → stub_of st n < 2 ^ 32)
    → let t = idt_enable (idt_install st table s) in
      ((n : ℕ)
        → n < 256
        → (handler_of (t.idt_entries n) ≡ stub_of st n)
          × ((t.idt_entries n).selector ≡ kernel_code)
          × ((t.idt_entries n).flags ≡ 0xEE))
      × ((n : ℕ) → 256 ≤ n → t.idt_entries n ≡ s.idt_entries n)
      × (t.idtr.base ≡ table)
      × (t.idtr.limit + 1 ≡ 8 * 256)
unfolding idt_enable
idt_install-reaches st table s low = (
  λ n lt.
      let e : (idt_install st table s).idt_entries n ≡ gate (stub_of st n) =
        ground (arith, entry_of st table s n) in
      rw e (gate_fields (stub_of st n) (low n)),
  λ n ge. ground (arith, entry_of st table s n),
  unfold idt_install in refl,
  unfold idt_install in refl,
)
