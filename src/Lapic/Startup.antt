-- ===== src/Lapic/Startup.antt =====
-- The start of a further processor, `lapic_start_ap` of src/arch/x86/lapic.c.
use frod.Base.{
  ℕ, ◌+◌, ◌*◌, ◌/◌, ◌^◌, ◌<◌, ◌==◌, ◌≡◌, ◌⊎◌, refl, ◌∙◌, ap, arith, true, false, Bool-cases, inl,
  inr, some, [], ◌∷◌, ◌++◌, List, bit_or, Memory, write, u16, u32,
}
use frod.Ports.{Trace, Device, read, written, outb, selected, paired, is_set}
use frod.Lapic.{
  load32, lapic_write, wait_idle, send_command, send_command_to, lapic_start_ap, write16, commands,
}

-- The command register is pending for one read at most.
abbrev pub IsQuick : Device → ℕ → Type 0
IsQuick dev local_apic =
    (tr : Trace) (v : ℕ)
    → is_set (u32 (dev (read (local_apic + 0x300) v ∷ tr) (local_apic + 0x300))) 0x1000 ≡ false

after : {A : Type 0} {x y z : List A} (l : List A) → x ≡ l ++ y → y ≡ z → x ≡ l ++ z
after l e f = e ∙ ap (λ r. l ++ r) f

module _ (dev : Device) (base : ℕ) (quick : IsQuick dev base) where
  -- `t` ends a wait, behind `tr`, and nothing was written in between.
  record IsWaited (tr t : Trace) : Type 0 where
    pub same_commands : commands base t ≡ commands base tr
    pub same_selected : selected (base + 0x310) t ≡ selected (base + 0x310) tr
    pub same_cmos : paired 0x70 0x71 t ≡ paired 0x70 0x71 tr

  wait_idle-IsWaited :
      (tr : Trace) → (t : Trace) × (wait_idle dev base 2 tr ≡ some t) × IsWaited tr t
  unfolding wait_idle load32 paired selected
  wait_idle-IsWaited tr =
      let v : ℕ = u32 (dev tr (base + 0x300)) in
      let same : IsWaited tr (read (base + 0x300) v ∷ tr) = record {
        same_commands = refl;
        same_selected = refl;
        same_cmos = refl;
      } in
      elim (Bool-cases (is_set v 0x1000)) [
        | inl pending ↦
            rw (pending, quick tr v)
              (_, refl, record { same_commands = refl; same_selected = refl; same_cmos = refl })
        | inr idle ↦ rw idle (_, refl, same)
      ]

  -- One command was given, for the processors of the high word `dest`.
  record Sends (dest command : ℕ) (tr t : Trace) : Type 0 where
    pub given : commands base t ≡ (dest, command) ∷ commands base tr
    pub kept : selected (base + 0x310) t ≡ dest
    pub cmos : paired 0x70 0x71 t ≡ paired 0x70 0x71 tr

  send_command-Sends :
      (value : ℕ) (tr : Trace)
      → (t : Trace) × (send_command dev base 2 value tr ≡ some t)
        × Sends (selected (base + 0x310) tr) (u32 value) tr t
  unfolding send_command lapic_write load32
  send_command-Sends value tr =
      let (t, e, w) = wait_idle-IsWaited (lapic_write dev base 0x300 value tr) in
      let own : (base + 0x300 == base + 0x300) ≡ true = ground arith in
      let other : (base + 0x300 == base + 0x310) ≡ false = ground arith in
      let port : (base + 0x300 == 0x71) ≡ false = ground arith in
      (
        t,
        e,
        record {
          given = w.same_commands ∙ unfold paired selected in (rw own refl);
          kept = w.same_selected ∙ unfold selected in (rw other refl);
          cmos = w.same_cmos ∙ unfold paired in (rw port refl);
        },
      )

  send_send_command_to-Sends :
      (id value : ℕ) (tr : Trace)
      → (t : Trace) × (send_command_to dev base 2 id value tr ≡ some t)
        × Sends (u32 (u32 (id * 2 ^ 24))) (u32 value) tr t
  unfolding send_command_to lapic_write load32
  send_send_command_to-Sends id value tr =
      let word : ℕ = u32 (id * 2 ^ 24) in
      let tr1 : Trace = lapic_write dev base 0x310 word tr in
      let (t, e, s) = send_command-Sends value tr1 in
      let own : (base + 0x310 == base + 0x310) ≡ true = ground arith in
      let other : (base + 0x310 == base + 0x300) ≡ false = ground arith in
      let port : (base + 0x310 == 0x71) ≡ false = ground arith in
      let dest : selected (base + 0x310) tr1 ≡ u32 word = unfold selected in (rw own refl) in
      let none_given : commands base tr1 ≡ commands base tr = unfold paired in (rw other refl) in
      (
        t,
        e,
        record {
          given =
              s.given
              ∙ ap (λ d. (d, u32 value) ∷ commands base tr1) dest
              ∙ ap (λ l. (u32 word, u32 value) ∷ l) none_given;
          kept = s.kept ∙ dest;
          cmos = s.cmos ∙ unfold paired in (rw port refl);
        },
      )

  -- The commands of `lapic_start_ap`, and the byte for the register of the clock's memory.
  pub record Starts (id addr : ℕ) (tr t : Trace) : Type 0 where
    pub given :
        let start : ℕ = u32 (bit_or 0x600 (addr / 2 ^ 12)) in
        let word : ℕ = u32 (u32 (id * 2 ^ 24)) in
        commands base t
        ≡ (word, start) ∷ (word, start) ∷ (word, 0x8500) ∷ (word, 0xC500) ∷ commands base tr
    pub cmos : paired 0x70 0x71 t ≡ (0x0F, 0x0A) ∷ paired 0x70 0x71 tr

  pub lapic_start_ap-Starts :
      (id addr : ℕ) (tr : Trace) (m : Memory)
      → (t : Trace) × (lapic_start_ap dev base 2 id addr (tr, m)
          ≡ some (t, write16 (write16 m 0x467 0) 0x469 (addr / 2 ^ 4)))
        × Starts id addr tr t
  unfolding lapic_start_ap outb
  lapic_start_ap-Starts id addr tr m =
      let start : ℕ = bit_or 0x600 (addr / 2 ^ 12) in
      let word : ℕ = u32 (u32 (id * 2 ^ 24)) in
      let tr1 : Trace = written 0x71 0x0A ∷ written 0x70 0x0F ∷ tr in
      let port0 : (0x70 == base + 0x300) ≡ false = ground arith in
      let port1 : (0x71 == base + 0x300) ≡ false = ground arith in
      let none_given : commands base tr1 ≡ commands base tr =
        unfold paired in (rw (port0, port1) refl) in
      let (tr2, e2, s2) = send_send_command_to-Sends id 0xC500 tr1 in
      let (tr3, e3, s3) = send_command-Sends 0x8500 tr2 in
      let (tr4, e4, s4) = send_send_command_to-Sends id start tr3 in
      let (tr5, e5, s5) = send_send_command_to-Sends id start tr4 in
      let second : commands base tr3 ≡ (word, 0x8500) ∷ commands base tr2 =
        s3.given ∙ ap (λ d. (d, 0x8500) ∷ commands base tr2) s2.kept in
      (
        tr5,
        rw (e2, e3, e4, e5) refl,
        record {
          given = after (_ ∷ []) s5.given (
              after (_ ∷ []) s4.given (after (_ ∷ []) second (after (_ ∷ []) s2.given none_given)));
          cmos = s5.cmos ∙ s4.cmos ∙ s3.cmos ∙ s2.cmos ∙ unfold paired selected in refl;
        },
      )

  -- On a controller whose command register is pending for one read at most, two rounds are enough
  -- for each wait of `lapic_start_ap`. It gives four commands, each while the high word of the
  -- register holds the processor's number in its upper 8 bits: the two of INIT, with and without
  -- the level, and twice the one of the start at the address's page. It writes 0x0A to register
  -- 0x0F of the clock's memory, and points the warm reset vector to the address, whose upper 16
  -- bits of 20 are its segment; no other byte of the memory changes.
  pub lapic_start_ap-sent :
      (id addr : ℕ) (tr : Trace) (m : Memory)
      → let init : ℕ = 0x8500 in
        let start : ℕ = u32 (bit_or 0x600 (addr / 2 ^ 12)) in
        let word : ℕ = u32 (u32 (id * 2 ^ 24)) in
        (t : Trace) × (m1 : Memory) × (lapic_start_ap dev base 2 id addr (tr, m) ≡ some (t, m1))
        × (commands base t
            ≡ (word, start)
              ∷ (word, start)
              ∷ (word, init)
              ∷ (word, u32 (bit_or init 0x4000))
              ∷ commands base tr)
        × (paired 0x70 0x71 t ≡ (0x0F, 0x0A) ∷ paired 0x70 0x71 tr)
        × (m1 0x467 + m1 0x468 * 2 ^ 8 ≡ 0)
        × (m1 0x469 + m1 0x46A * 2 ^ 8 ≡ u16 (addr / 2 ^ 4))
        × ((a : ℕ) → (a < 0x467) ⊎ (0x46A < a) → m1 a ≡ m a)
  unfolding write16 write
  lapic_start_ap-sent id addr tr m =
      let (t, e, s) = lapic_start_ap-Starts id addr tr m in
      (
        t,
        write16 (write16 m 0x467 0) 0x469 (addr / 2 ^ 4),
        e,
        s.given,
        s.cmos,
        refl,
        omega arith,
        λ a far. elim far [ inl low ↦ ground arith | inr high ↦ ground arith ],
      )
