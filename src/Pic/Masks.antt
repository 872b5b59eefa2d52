-- ===== src/Pic/Masks.antt =====
-- The masks of the interrupt controllers under arch/x86/pic.c, where their data ports read as the
-- masks that were written last.
use frod.Base.{
  ℕ, ◌-◌, ◌^◌, ◌<◌, ◌≡◌, refl, arith, ltb, ◌==◌, if◌then◌else◌, bit_and, bit_or, some, Bool, true,
  false, Bool-cases, inl, inr, u8, ◌∷◌,
}
use frod.Base.Bytes.{bit, bit-put_bit, bit-drop_bit, put_bit-lt, drop_bit-lt}
use frod.Ports.{Trace, Device, read, inb, outb, latest, sent}
use frod.Pic.{pic_enable_irq, pic_disable_irq, pic_disable, pic_remap, pic_init}

-- The masks of the two controllers.
pub record HasMasks (tr : Trace) (m1 m2 : ℕ) : Type 0 where
  pub master : latest 0x21 tr ≡ some m1
  pub slave : latest 0xA1 tr ≡ some m2
  pub master_byte : m1 < 256
  pub slave_byte : m2 < 256

-- When it is read now, the data port of the master gives `m1`, and then that of the slave `m2`.
pub record ReadsMasks (dev : Device) (tr : Trace) (m1 m2 : ℕ) : Type 0 where
  pub first : dev tr 0x21 ≡ m1
  pub second : dev (read 0x21 m1 ∷ tr) 0xA1 ≡ m2

-- Interrupt request `q` is masked.
abbrev pub masked : ℕ → ℕ → ℕ → Bool
masked m1 m2 q = if ltb q 8 then bit m1 q else bit m2 (q - 8)

-- What the data ports hold, and that no other request than `irq` has changed.
abbrev pub SetsMask : ℕ → ℕ → ℕ → Bool → Trace → Type 0
SetsMask m1 m2 irq b t =
    (n1 : ℕ) × (n2 : ℕ) × HasMasks t n1 n2
    × ((q : ℕ) → q < 16 → masked n1 n2 q ≡ (if q == irq then b else masked m1 m2 q))

module _ (dev : Device) (irq m1 m2 : ℕ) (tr : Trace) (back : ReadsMasks dev tr m1 m2)
    (k : HasMasks tr m1 m2) (lt : irq < 16) where
  first_read : u8 (dev tr 0x21) ≡ m1
  first_read = omega (arith, back.first, k.master_byte)

  second_read : u8 (dev (read 0x21 m1 ∷ tr) 0xA1) ≡ m2
  second_read = omega (arith, back.second, k.slave_byte)

  -- Where the data ports read as the masks that were written to them last, `pic_enable_irq` of one of
  -- the 16 requests leaves masks in which that request is clear and the others are as before.
  pub pic_enable_irq-SetsMask : SetsMask m1 m2 irq false (pic_enable_irq dev irq tr)
  unfolding pic_enable_irq inb outb
  pic_enable_irq-SetsMask =
      rw (first_read, second_read)
        (elim (Bool-cases (ltb irq 8)) [
          | inl low ↦
              let v : ℕ = bit_and m1 (2 ^ 8 - 1 - 2 ^ irq) in
              let b : v < 256 = drop_bit-lt m1 irq k.master_byte (ground arith) in
              let u : u8 v ≡ v = omega arith in
              rw (low, u)
                (
                  v,
                  m2,
                  record {
                    master = unfold latest in refl;
                    slave = unfold latest in k.slave;
                    master_byte = b;
                    slave_byte = k.slave_byte;
                  },
                  λ q h. ground (arith, bit-drop_bit m1 irq q),
                )
          | inr high ↦
              let v : ℕ = bit_and m2 (2 ^ 8 - 1 - 2 ^ (irq - 8)) in
              let b : v < 256 = drop_bit-lt m2 (irq - 8) k.slave_byte (ground arith) in
              let u : u8 v ≡ v = omega arith in
              rw (high, u)
                (
                  m1,
                  v,
                  record {
                    master = unfold latest in k.master;
                    slave = unfold latest in refl;
                    master_byte = k.master_byte;
                    slave_byte = b;
                  },
                  λ q h. ground (arith, bit-drop_bit m2 (irq - 8) (q - 8)),
                )
        ])

  -- On the same condition `pic_disable_irq` of one of the 16 requests leaves masks in which that
  -- request is set and the others are as before.
  pub pic_disable_irq-SetsMask : SetsMask m1 m2 irq true (pic_disable_irq dev irq tr)
  unfolding pic_disable_irq inb outb
  pic_disable_irq-SetsMask =
      rw (first_read, second_read)
        (elim (Bool-cases (ltb irq 8)) [
          | inl low ↦
              let v : ℕ = bit_or m1 (2 ^ irq) in
              let b : v < 256 = put_bit-lt m1 irq k.master_byte (ground arith) in
              let u : u8 v ≡ v = omega arith in
              rw (low, u)
                (
                  v,
                  m2,
                  record {
                    master = unfold latest in refl;
                    slave = unfold latest in k.slave;
                    master_byte = b;
                    slave_byte = k.slave_byte;
                  },
                  λ q h. ground (arith, bit-put_bit m1 irq q),
                )
          | inr high ↦
              let v : ℕ = bit_or m2 (2 ^ (irq - 8)) in
              let b : v < 256 = put_bit-lt m2 (irq - 8) k.slave_byte (ground arith) in
              let u : u8 v ≡ v = omega arith in
              rw (high, u)
                (
                  m1,
                  v,
                  record {
                    master = unfold latest in k.master;
                    slave = unfold latest in refl;
                    master_byte = k.master_byte;
                    slave_byte = b;
                  },
                  λ q h. ground (arith, bit-put_bit m2 (irq - 8) (q - 8)),
                )
        ])

-- After `pic_init`, where the data ports read as the two masks that it writes first, the controllers
-- hold these start masks, every request masked but number 2, and got the command, the vector
-- offset, the wiring and the mode before, in this order.
pub pic_init-HasMasks :
    (dev : Device) (tr : Trace)
    → ReadsMasks dev (pic_disable tr) 0xFB 0xFF
    → HasMasks (pic_init dev tr) 0xFB 0xFF
      × (sent 0x21 (pic_init dev tr) ≡ 0xFB ∷ 1 ∷ 4 ∷ 32 ∷ 0xFB ∷ sent 0x21 tr)
      × (sent 0xA1 (pic_init dev tr) ≡ 0xFF ∷ 1 ∷ 2 ∷ 40 ∷ 0xFF ∷ sent 0xA1 tr)
unfolding pic_init pic_remap pic_disable inb outb
pic_init-HasMasks dev tr back =
    rw (back.first, back.second)
      (
        record {
          master = unfold latest in refl;
          slave = unfold latest in refl;
          master_byte = omega arith;
          slave_byte = omega arith;
        },
        unfold sent in refl,
        unfold sent in refl,
      )
