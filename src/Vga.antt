-- ===== src/Vga.antt =====
-- The text screen, drv/vga.c. `mem` holds the 16-bit cells of the screen by their index, and
-- `ports` the bytes that were sent to the ports, the latest first.
pub mod Scroll
pub mod Cursor
pub mod Putc
mod Tests
use frod.Base.{
  ℕ, zero, suc, ◌+◌, ◌-◌, ◌*◌, ◌/◌, ◌%◌, ◌^◌, Bool, ◌==◌, ◌&&◌, ltb, leb, if◌then◌else◌,
}
use frod.Base.{u8, u16, List, [], ◌∷◌}

abbrev pub screen_length : ℕ
screen_length = 80

abbrev pub screen_height : ℕ
screen_height = 25

-- The lock of the screen, which only `vga_init` takes, and the address of the cells are left out.
pub record VgaScreen : Type 0 where
  pub x : ℕ
  pub y : ℕ
  pub tab_sz : ℕ
  pub color : ℕ
  pub mem : ℕ → ℕ
  pub ports : List (ℕ × ℕ)

unfoldable pub outb : ℕ → ℕ → VgaScreen → VgaScreen
outb port value s = record s { ports = (port, u8 value) ∷ s.ports }

unfoldable pub set_cell : ℕ → ℕ → VgaScreen → VgaScreen
set_cell i val s = record s { mem = λ j. if j == i then val else s.mem j }

unfoldable pub vga_write_mem : ℕ → ℕ → ℕ → VgaScreen → VgaScreen
vga_write_mem x y val s = set_cell (y * screen_length + x) val s

unfoldable pub write_blank : ℕ → ℕ → VgaScreen → VgaScreen
write_blank x y s = vga_write_mem x y 32 s

-- The colour in the high byte, and a character in the low byte.
unfoldable pub cell : ℕ → ℕ → ℕ
cell color ch = u16 (ch + u16 (color * 2 ^ 8))

-- The loop of `vga_clear`, and the second loop of `vga_scroll`.
unfoldable pub fill_cells : ℕ → ℕ → ℕ → VgaScreen → VgaScreen
fill_cells zero i fill s = s
fill_cells (suc left) i fill s = fill_cells left (i + 1) fill (set_cell i fill s)

unfoldable pub vga_clear : VgaScreen → VgaScreen
vga_clear s = fill_cells (screen_length * screen_height) 0 (cell s.color 32) s

unfoldable pub shift_cells : ℕ → ℕ → VgaScreen → VgaScreen
shift_cells zero i s = s
shift_cells (suc left) i s = shift_cells left (i + 1) (set_cell i (s.mem (i + screen_length)) s)

unfoldable pub vga_scroll : VgaScreen → VgaScreen
vga_scroll s =
    let s1 = shift_cells ((screen_height - 1) * screen_length) 0 s in
    let s2 = fill_cells screen_length ((screen_height - 1) * screen_length) (cell s.color 32) s1 in
    if leb screen_height s.y then record s2 { y = u8 (s2.y + 255) } else s

unfoldable pub vga_update_cursor : VgaScreen → VgaScreen
vga_update_cursor s =
    let loc = u16 (s.y * screen_length + s.x) in
    outb 0x3D5 loc (outb 0x3D4 15 (outb 0x3D5 (loc / 2 ^ 8) (outb 0x3D4 14 s)))

-- The start of the next line.
unfoldable pub new_line : VgaScreen → VgaScreen
new_line s =
    let s1 = record s { x = 0; y = u8 (s.y + 1) } in
    if leb screen_height s1.y then vga_scroll s1 else s1

-- What follows the branches of `vga_putc` that do not return.
unfoldable pub end_putc : VgaScreen → VgaScreen
end_putc s = vga_update_cursor (if leb screen_length s.x then new_line s else s)

unfoldable pub vga_putc : ℕ → VgaScreen → VgaScreen
vga_putc ch s =
    if (ch == 0x08) && ltb 0 s.x
    then (let s1 = write_blank s.x s.y s in end_putc (record s1 { x = u8 (s1.x + 255) }))
    else if ch == 0x09
    then end_putc (record s { x = u8 (s.x + (s.tab_sz - (s.x + s.tab_sz) % s.tab_sz)) })
    else if ch == 13
    then end_putc (record s { x = 0 })
    else if ch == 10
    then end_putc (new_line s)
    else if leb 32 ch && leb ch 126
    then (let s1 = vga_write_mem s.x s.y (cell s.color ch) s in
        end_putc (record s1 { x = u8 (s1.x + 1) }))
    else s

-- The bytes of the string before its null byte.
unfoldable pub vga_write : List ℕ → VgaScreen → VgaScreen
vga_write [] s = s
vga_write (ch ∷ str) s = vga_write str (vga_putc ch s)

unfoldable pub vga_init : ℕ → ℕ → VgaScreen → VgaScreen
vga_init fg bg s = vga_clear (record s { x = 0; y = 0; tab_sz = 4; color = u8 (bg * 2 ^ 4 + fg) })
