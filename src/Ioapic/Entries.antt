-- ===== src/Ioapic/Entries.antt =====
-- The registers behind the two words of the I/O APIC of src/arch/x86/ioapic.c, and its redirection
-- entries. The window shows the register that was selected last.
use frod.Base.{
  ℕ, zero, suc, ◌+◌, ◌*◌, ◌%◌, ◌^◌, ◌≤◌, ◌<◌, ◌==◌, ltb, leb, ◌&&◌, ◌≡◌, ◌≢◌, refl, ◌∙◌, ap, arith,
  if◌then◌else◌, true, false, [], ◌∷◌, bit_and, bit_or, u32,
}
use frod.Base.Bits.{bit_and_mask, or_disjoint}
use frod.Ports.{Trace, Device, read, written}
use frod.Ioapic.{ioapic_write, ioapic_read, disable_from, ioapic_install, ioapic_enable_irq}

-- The selected register behind a trace, from 0 on.
abbrev pub selected : ℕ → Trace → ℕ
selected addr [] = 0
selected addr (read a v ∷ tr) = selected addr tr
selected addr (written a v ∷ tr) = if a == addr then v else selected addr tr

-- The register with a number, which held `old` in the beginning.
abbrev pub register : ℕ → (ℕ → ℕ) → Trace → ℕ → ℕ
register addr old [] n = old n
register addr old (read a v ∷ tr) n = register addr old tr n
register addr old (written a v ∷ tr) n =
    let rest = register addr old tr n in
    if a == addr + 16 then (if n == selected addr tr then v else rest) else rest

register-ioapic_write :
    (addr reg val : ℕ) (old : ℕ → ℕ) (tr : Trace) (n : ℕ)
    → register addr old (ioapic_write addr reg val tr) n
      ≡ (if n == reg % 2 ^ 8 then u32 val else register addr old tr n)
unfolding ioapic_write
register-ioapic_write addr reg val old tr n =
    let select : (addr == addr + 16) ≡ false = ground arith in
    let window : (addr + 16 == addr + 16) ≡ true = ground arith in
    let same : (addr == addr) ≡ true = ground arith in
    rw (select, window, same, bit_and_mask 8 reg) refl

-- The two words of a redirection entry.
abbrev pub low_word : ℕ → (ℕ → ℕ) → Trace → ℕ → ℕ
low_word addr old tr k = register addr old tr (0x10 + 2 * k)

abbrev pub high_word : ℕ → (ℕ → ℕ) → Trace → ℕ → ℕ
high_word addr old tr k = register addr old tr (0x11 + 2 * k)

masked_sum : (i : ℕ) → i < 120 → bit_or 0x10000 (32 + i) ≡ 0x10020 + i
masked_sum i lt = or_disjoint 1 (32 + i) 16 (omega arith) ∙ omega arith

one_more :
    (i k left x w v v2 o : ℕ)
    → x ≡ (if leb (i + 1) k && ltb k (i + 1 + left) then v else w)
    → w ≡ (if k == i then v2 else o)
    → (k ≡ i → v2 ≡ v)
    → x ≡ (if leb i k && ltb k (i + suc left) then v else o)
one_more i k left x w v v2 o e1 e2 same = ground (arith, e1, e2, same)

from_zero :
    (k max x v o : ℕ)
    → x ≡ (if leb 0 k && ltb k (0 + max) then v else o)
    → x ≡ (if ltb k max then v else o)
from_zero k max x v o e = ground (arith, e)

module _ (addr : ℕ) (old : ℕ → ℕ) where
  -- What a write of both words leaves of an entry.
  write_entry :
      (i k low high : ℕ) (tr : Trace)
      → i < 120
      → k < 120
      → let t =
          ioapic_write addr (0x10 + 2 * i + 1) high (ioapic_write addr (0x10 + 2 * i) low tr) in
        (low_word addr old t k ≡ (if k == i then u32 low else low_word addr old tr k))
        × (high_word addr old t k ≡ (if k == i then u32 high else high_word addr old tr k))
  write_entry i k low high tr lt_i lt_k =
      let t1 : Trace = ioapic_write addr (0x10 + 2 * i) low tr in
      let a1 = register-ioapic_write addr (0x10 + 2 * i + 1) high old t1 (0x10 + 2 * k) in
      let a2 = register-ioapic_write addr (0x10 + 2 * i) low old tr (0x10 + 2 * k) in
      let b1 = register-ioapic_write addr (0x10 + 2 * i + 1) high old t1 (0x11 + 2 * k) in
      let b2 = register-ioapic_write addr (0x10 + 2 * i) low old tr (0x11 + 2 * k) in
      (ground (arith, a1, a2), ground (arith, b1, b2))

  disable_from-words :
      (left i k : ℕ) (tr : Trace)
      → i + left ≤ 120
      → k < 120
      → let t = disable_from left i addr tr in
        let hit = leb i k && ltb k (i + left) in
        (low_word addr old t k ≡ (if hit then 0x10020 + k else low_word addr old tr k))
        × (high_word addr old t k ≡ (if hit then 0 else high_word addr old tr k))
  unfolding disable_from
  disable_from-words zero i k tr le lt =
      let miss : (leb i k && ltb k (i + 0)) ≡ false = ground arith in rw miss (refl, refl)
  disable_from-words (suc left) i k tr le lt =
      let low : ℕ = bit_or 0x10000 (32 + i) in
      let t : Trace =
        ioapic_write addr (0x10 + 2 * i + 1) 0 (ioapic_write addr (0x10 + 2 * i) low tr) in
      let (w1, w2) = write_entry i k low 0 tr (omega arith) lt in
      let (d1, d2) = disable_from-words left (i + 1) k t (omega arith) lt in
      let e : u32 low ≡ 0x10020 + i = rw (masked_sum i (omega arith)) (omega arith) in
      (
        one_more i k left _ _ (0x10020 + k) (u32 low) _ d1 w1 (λ same. rw same e),
        one_more i k left _ _ 0 0 _ d2 w2 (λ same. refl),
      )

  -- `ioapic_install` masks every entry below `max_interr`, with the vector of its interrupt and
  -- without a processor, and leaves the others as they are; its result is false.
  pub ioapic_install-words :
      (max_interr k : ℕ) (tr : Trace)
      → max_interr ≤ 120
      → k < 120
      → let (t, r) = ioapic_install addr max_interr tr in
        (r ≡ false)
        × (low_word addr old t k
            ≡ (if ltb k max_interr then 0x10020 + k else low_word addr old tr k))
        × (high_word addr old t k ≡ (if ltb k max_interr then 0 else high_word addr old tr k))
  unfolding ioapic_install
  ioapic_install-words max_interr k tr le lt =
      let (d1, d2) = disable_from-words max_interr 0 k tr (omega arith) lt in
      (refl, from_zero k max_interr _ _ _ d1, from_zero k max_interr _ _ _ d2)

  -- Behind an `ioapic_install`, `ioapic_enable_irq` opens exactly the entry of the request: its
  -- words are then the vector, with the mask cleared, and the processor in the highest byte; every
  -- other entry below `max_interr` stays masked.
  pub ioapic_enable_irq-words :
      (max_interr irq cpu_id k : ℕ) (tr : Trace)
      → max_interr ≤ 120
      → irq < max_interr
      → cpu_id < 256
      → k < max_interr
      → let (t, r) = ioapic_install addr max_interr tr in
        let u = ioapic_enable_irq addr irq cpu_id t in
        (low_word addr old u k ≡ (if k == irq then 32 + irq else 0x10020 + k))
        × (high_word addr old u k ≡ (if k == irq then cpu_id * 2 ^ 24 else 0))
  unfolding ioapic_enable_irq
  ioapic_enable_irq-words max_interr irq cpu_id k tr le lt_irq lt_cpu lt_k =
      let t : Trace = (ioapic_install addr max_interr tr).0 in
      let (r, i1, i2) = ioapic_install-words max_interr k tr le (omega arith) in
      let (w1, w2) = write_entry irq k (32 + irq) (cpu_id * 2 ^ 24) t (omega arith) (omega arith) in
      (ground (arith, w1, i1), ground (arith, w2, i2))

-- The window reads as the register that is selected.
abbrev pub ShowsRegisters : Device → ℕ → (ℕ → ℕ) → Type 0
ShowsRegisters dev addr old =
    (tr : Trace) → dev tr (addr + 16) ≡ register addr old tr (selected addr tr)

-- On a controller whose window shows the selected register, `ioapic_read` returns what
-- `ioapic_write` last wrote to the register, in 32 bits, whatever was written to another register in
-- between.
pub ioapic_read-write :
    (dev : Device) (addr reg other val val2 : ℕ) (old : ℕ → ℕ) (tr : Trace)
    → ShowsRegisters dev addr old
    → reg % 2 ^ 8 ≢ other % 2 ^ 8
    → let (t, v) =
        ioapic_read dev addr reg (ioapic_write addr other val2 (ioapic_write addr reg val tr)) in
      v ≡ u32 val
unfolding ioapic_read
ioapic_read-write dev addr reg other val val2 old tr shows apart =
    let t1 : Trace = ioapic_write addr reg val tr in
    let t2 : Trace = ioapic_write addr other val2 t1 in
    let t3 : Trace = written addr (bit_and reg 0xFF) ∷ t2 in
    let not_window : (addr == addr + 16) ≡ false = ground arith in
    let same : (addr == addr) ≡ true = ground arith in
    let sel : selected addr t3 ≡ reg % 2 ^ 8 = rw same (bit_and_mask 8 reg) in
    let reg3 : register addr old t3 (reg % 2 ^ 8) ≡ register addr old t2 (reg % 2 ^ 8) =
      rw not_window refl in
    let w1 = register-ioapic_write addr reg val old tr (reg % 2 ^ 8) in
    let w2 = register-ioapic_write addr other val2 old t1 (reg % 2 ^ 8) in
    let answer : dev t3 (addr + 16) ≡ register addr old t3 (reg % 2 ^ 8) =
      shows t3 ∙ ap (register addr old t3) sel in
    let value : dev t3 (addr + 16) ≡ u32 val = ground (arith, answer, reg3, w1, w2) in
    omega (arith, value)
