-- ===== src/Kbd/Driver.antt =====
-- The keyboard behind the PS/2 controller: src/drv/ps2kbd.c registers src/sys/kbd.c for the first
-- channel of src/drv/ps2.c, whose interrupts then bring the scan codes.
use frod.Base.{ℕ, zero, suc, ◌≡◌, refl, arith, true, false, List, [], ◌∷◌, Memory, Option, some, u8}
use frod.Base.Options.{◌>>=◌}
use frod.Ports.{Trace, Device, read, inb}
use frod.Ps2.{first_off}
use frod.Ps2.Devices.{
  Ps2, ps2_register, register_at, ps2_handle_interrupt_1st, handle_interrupt, call, with_state,
}
use frod.Kbd.{Kbd, kbd_init, kbd_add_scancode, ps2kbd_init}
use frod.Kbd.Keys.{
  KeyTree, Typing, press, type_all, Shows, kbd_add_scancode-Shows, IsMap, kbd_init-Shows,
}

-- The bytes that the device gives to the next `n` interrupts.
abbrev pub scancodes : Device → ℕ → Trace → List ℕ
scancodes dev zero tr = []
scancodes dev (suc n) tr =
    let byte = u8 (dev tr 0x60) in byte ∷ scancodes dev n (read 0x60 byte ∷ tr)

module _ {H : Type 0} (dev : Device) where
  -- `n` interrupts of the first channel.
  unfoldable pub interrupts : ℕ → Ps2 Kbd H × Kbd → Option (Ps2 Kbd H × Kbd)
  interrupts zero sk = some sk
  interrupts (suc n) sk = do sk1 ← ps2_handle_interrupt_1st dev sk; interrupts n sk1

  module _ (m : Memory) (root : ℕ → KeyTree) where
    -- The keyboard driver has the first channel, and the keyboard stands at `typing`.
    pub record IsTyping (s : Ps2 Kbd H) (k : Kbd) (typing : Typing) : Type 0 where
      pub active : s.active 0 ≡ true
      pub callback : s.callback 0 ≡ some (kbd_add_scancode m)
      pub shows : Shows m root k typing

    interrupt-IsTyping :
        (s : Ps2 Kbd H) (k : Kbd) (typing : Typing)
        → IsTyping s k typing
        → let byte = u8 (dev s.trace 0x60) in
          let t : Ps2 Kbd H = record s { trace = read 0x60 byte ∷ s.trace } in
          let k1 = kbd_add_scancode m byte k in
          (ps2_handle_interrupt_1st dev (s, k) ≡ some (t, k1))
          × IsTyping t k1 (press root byte typing)
    unfolding ps2_handle_interrupt_1st handle_interrupt inb call with_state
    interrupt-IsTyping s k typing i =
        let byte : ℕ = u8 (dev s.trace 0x60) in
        (
          rw (i.active, i.callback) refl,
          record {
            active = i.active;
            callback = i.callback;
            shows = kbd_add_scancode-Shows m root byte k typing (omega arith) i.shows;
          },
        )

    pub interrupts-IsTyping :
        (n : ℕ) (s : Ps2 Kbd H) (k : Kbd) (typing : Typing)
        → IsTyping s k typing
        → (t : Ps2 Kbd H) × (k1 : Kbd) × (interrupts n (s, k) ≡ some (t, k1))
          × IsTyping t k1 (type_all root (scancodes dev n s.trace) typing)
    unfolding interrupts
    interrupts-IsTyping zero s k typing i = (s, k, refl, i)
    interrupts-IsTyping (suc n) s k typing i =
        let (e, i1) = interrupt-IsTyping s k typing i in
        let (t, k1, rest, i2) = interrupts-IsTyping n _ _ _ i1 in (t, k1, rw e rest, i2)

    -- On a first channel that works and is free, with a keymap in memory that holds a tree of maps:
    -- after `kbd_init` and `ps2kbd_init`, any number of interrupts of the channel reads one byte
    -- each, calls the keyboard each time, and leaves it where these bytes lead in the tree, with the
    -- codes of the keys printed in order.
    pub ps2kbd_init-interrupts :
        (registered name keymap n : ℕ) (s : Ps2 Kbd H) (k : Kbd)
        → first_off s.channel_status ≡ false
        → s.active 0 ≡ false
        → IsMap m keymap root keymap
        → let (s1, r) = ps2kbd_init registered name m s in
          (t : Ps2 Kbd H) × (k1 : Kbd) × (interrupts n (s1, kbd_init keymap k) ≡ some (t, k1))
          × Shows m root k1 (type_all root (scancodes dev n s.trace) (root, k.printed))
    unfolding ps2kbd_init ps2_register register_at
    ps2kbd_init-interrupts registered name keymap n s k works idle stored =
        rw (works, idle)
          (let (t, k1, e, i) =
              interrupts-IsTyping n _ (kbd_init keymap k) (root, k.printed)
                (record {
                  active = refl;
                  callback = refl;
                  shows = kbd_init-Shows m root keymap k stored;
                }) in
            (t, k1, e, i.shows))
