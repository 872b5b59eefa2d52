-- ===== src/Kbd/Tests.antt =====
-- Runs of src/sys/kbd.c on a keymap with an extended key.
use frod.Base.{
  ℕ, ◌+◌, ◌*◌, ◌/◌, ◌%◌, ◌≡◌, refl, arith, false, [], ◌∷◌, ◌==◌, ltb, if◌then◌else◌, none, Memory,
  Bool-cases, inl, inr,
}
use frod.Ports.{Device}
use frod.Ps2.Devices.{Ps2}
use frod.Kbd.{Kbd, kbd_init, kbd_add_scancode}
use frod.Kbd.Keys.{
  KeyTree, key, more, IsEntry, IsMap, Shows, add_scancodes, kbd_init-Shows, add_scancodes-Shows,
}

-- The map at 0x1000 has the scan codes for key codes; its entry 0xE0 leads to the map behind it, in
-- which every key has the code 7.
abbrev keymap : Memory
keymap a =
    if a % 2 == 1
    then (if a == 0x11C1 then 0x80 else 0)
    else if ltb a 0x1200
    then (if a == 0x11C0 then 1 else a / 2 % 256)
    else 7

abbrev us : ℕ → KeyTree
us sc = if sc == 0xE0 then more (λ s. key 7) else key sc

keymap-IsMap : IsMap keymap 0x1000 us 0x1000
unfolding IsEntry
keymap-IsMap sc lt = elim (Bool-cases (sc == 0xE0)) [
  | inl extended ↦
      let e : sc ≡ 0xE0 = ground arith in
      rw e (
        refl,
        λ s lt2.
            let kc : keymap (0x1200 + 2 * s) ≡ 7 = ground arith in
            let flag : keymap (0x1200 + 2 * s + 1) ≡ 0 = ground arith in (kc, rw flag refl),
      )
  | inr plain ↦
      let kc : keymap (0x1000 + 2 * sc) ≡ sc = ground arith in
      let flag : keymap (0x1000 + 2 * sc + 1) ≡ 0 = ground arith in rw plain (kc, rw flag refl)
]

abbrev idle : Kbd
idle = record { orig_map = 0; curr_map = 0; printed = [] }

types :
    (add_scancodes keymap (0x1E ∷ 0xE0 ∷ 0x1C ∷ []) (kbd_init 0x1000 idle)).printed ≡ 7 ∷ 0x1E ∷ []
unfolding kbd_init kbd_add_scancode
types = refl

add_scancodes-Shows_example :
    Shows keymap us
      (add_scancodes keymap (0x1E ∷ 0xE0 ∷ 0x1C ∷ 0xE0 ∷ []) (kbd_init 0x1000 idle))
      (λ s. key 7, 7 ∷ 0x1E ∷ [])
add_scancodes-Shows_example =
    add_scancodes-Shows keymap us (0x1E ∷ 0xE0 ∷ 0x1C ∷ 0xE0 ∷ []) (kbd_init 0x1000 idle) (us, [])
      (kbd_init-Shows keymap us 0x1000 idle keymap-IsMap)

-- A keyboard that sends 0xE0 first, and then 0x1C each time.
abbrev keyboard : Device
keyboard [] port = 0xE0
keyboard (a ∷ tr) port = 0x1C

abbrev fresh : Ps2 Kbd ℕ
fresh = record {
  trace = [];
  channel_status = 0;
  active = λ n. false;
  callback = λ n. none;
  mem = λ a. 0;
  handlers = λ n. 0;
}
