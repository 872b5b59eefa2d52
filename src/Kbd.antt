-- ===== src/Kbd.antt =====
-- The generic keyboard, sys/kbd.c, and its driver for the PS/2 port, drv/ps2kbd.c.
pub mod Keys
pub mod Driver
mod Tests
use frod.Base.{ℕ, ◌+◌, ◌*◌, List, [], ◌∷◌, if◌then◌else◌, Memory, u32}
use frod.Base.Int.{ℤ, pos}
use frod.Ports.{is_set}
use frod.Ps2.Devices.{Ps2, ps2_register}

abbrev pub kbd_flag_mask_pend_more : ℕ
kbd_flag_mask_pend_more = 0x80

abbrev pub sizeof_sc_kc : ℕ
sizeof_sc_kc = 2

-- The addresses of the two maps, and the key codes that were printed, the latest first.
pub record Kbd : Type 0 where
  pub orig_map : ℕ
  pub curr_map : ℕ
  pub printed : List ℕ

unfoldable pub kbd_init : ℕ → Kbd → Kbd
kbd_init keymap k = record k { orig_map = keymap; curr_map = keymap }

-- The fields `kc` and `flag` of `curr_map->map[sc]`.
abbrev pub kc : Memory → ℕ → ℕ → ℕ
kc m map sc = m (map + sizeof_sc_kc * sc)

abbrev pub flag_of : Memory → ℕ → ℕ → ℕ
flag_of m map sc = m (map + sizeof_sc_kc * sc + 1)

-- The address of the map that an entry with `KBD_FLAG_MASK_PEND_MORE` leads to.
abbrev pub next_map : Memory → ℕ → ℕ → ℕ → ℕ
next_map m orig map sc = u32 (orig + kc m map sc * 256 * sizeof_sc_kc)

unfoldable pub kbd_add_scancode : Memory → ℕ → Kbd → Kbd
kbd_add_scancode m sc k =
    if is_set (flag_of m k.curr_map sc) kbd_flag_mask_pend_more
    then record k { curr_map = next_map m k.orig_map k.curr_map sc }
    else record k { curr_map = k.orig_map; printed = kc m k.curr_map sc ∷ k.printed }

-- `name` is the address of the string "PS/2 Keyboard Driver", and `registered` of the PS/2 devices.
unfoldable pub ps2kbd_init : {H : Type 0} → ℕ → ℕ → Memory → Ps2 Kbd H → Ps2 Kbd H × ℤ
ps2kbd_init registered name m s =
    let (t, r) = ps2_register registered (kbd_add_scancode m) name (pos 1) s in (t, pos 0)
