-- ===== src/Vga/Cursor.antt =====
-- The cursor and the cells after `vga_putc`, drv/vga.c.
use frod.Base.{
  ℕ, ◌+◌, ◌*◌, ◌/◌, ◌%◌, ◌^◌, ◌≤◌, ◌<◌, ◌≡◌, refl, arith, true, false, inl, inr, ◌⊎◌, ltb, leb,
  if◌then◌else◌,
}
use frod.Base.{u8, u16, List, ◌∷◌}
use native.Mathlib.Decide.{dec_lt}
use frod.Vga.{VgaScreen, end_putc, new_line, vga_update_cursor, cell, outb}
use frod.Vga.Scroll.{vga_scroll-IsScrolled}

-- The cursor is on the screen, and a tab is at least a column and at most a line.
pub record IsOnScreen (s : VgaScreen) : Type 0 where
  pub x_below : s.x < 80
  pub y_below : s.y < 25
  pub tab_pos : 1 ≤ s.tab_sz
  pub tab_below : s.tab_sz ≤ 80

-- What a new line does: one line down, or the screen moves up.
pub record IsNextLine (s t : VgaScreen) : Type 0 where
  pub x_start : t.x ≡ 0
  pub tab_kept : t.tab_sz ≡ s.tab_sz
  pub color_kept : t.color ≡ s.color
  pub line :
      ((s.y < 24) × (t.y ≡ s.y + 1) × ((j : ℕ) → t.mem j ≡ s.mem j))
      ⊎ ((s.y ≡ 24)
          × (t.y ≡ 24)
          × ((j : ℕ)
              → t.mem j ≡ (
                  if ltb j 1920
                  then s.mem (j + 80)
                  else (if ltb j 2000 then cell s.color 32 else s.mem j))))

pub new_line-IsNextLine : (s : VgaScreen) → s.y < 25 → IsNextLine s (new_line s)
unfolding new_line
new_line-IsNextLine s lt = elim (dec_lt s.y 24) [
  | yes above ↦
      let off : leb 25 (u8 (s.y + 1)) ≡ false = ground arith in
      rw off (record {
        x_start = refl;
        tab_kept = refl;
        color_kept = refl;
        line = inl (above, omega arith, λ j. refl);
      })
  | no last ↦
      let on : leb 25 (u8 (s.y + 1)) ≡ true = ground arith in
      let k = vga_scroll-IsScrolled (record s { x = 0; y = u8 (s.y + 1) }) (omega arith) in
      rw on (record {
        x_start = k.x_kept;
        tab_kept = k.tab_kept;
        color_kept = k.color_kept;
        line = inr (omega arith, k.y_last, k.moved);
      })
]

-- The latest port accesses put the cell's index into the cursor registers 14 and 15.
pub record ShowsCursor (s : VgaScreen) : Type 0 where
  pub before : List (ℕ × ℕ)
  pub sent :
      let loc = s.y * 80 + s.x in
      s.ports ≡ (0x3D5, loc % 256) ∷ (0x3D4, 15) ∷ (0x3D5, loc / 256) ∷ (0x3D4, 14) ∷ before

vga_update_cursor-ShowsCursor :
    (s : VgaScreen) → s.x < 80 → s.y < 25 → ShowsCursor (vga_update_cursor s)
unfolding vga_update_cursor outb
vga_update_cursor-ShowsCursor s hx hy =
    let loc : ℕ = s.y * 80 + s.x in
    let a : u8 (u16 loc) ≡ loc % 256 = omega arith in
    let b : u8 (u16 loc / 2 ^ 8) ≡ loc / 256 = omega arith in
    record { before = s.ports; sent = rw (a, b) refl }

pub end_putc-IsOnScreen :
    (s : VgaScreen)
    → s.y < 25
    → 1 ≤ s.tab_sz
    → s.tab_sz ≤ 80
    → IsOnScreen (end_putc s) × ShowsCursor (end_putc s)
unfolding end_putc
end_putc-IsOnScreen s lt pos small = elim (dec_lt s.x 80) [
  | yes inside ↦
      let off : leb 80 s.x ≡ false = ground arith in
      rw off (
        unfold vga_update_cursor outb in
            (record { x_below = inside; y_below = lt; tab_pos = pos; tab_below = small }),
        vga_update_cursor-ShowsCursor s inside lt,
      )
  | no beyond ↦
      let on : leb 80 s.x ≡ true = ground arith in
      let k = new_line-IsNextLine s lt in
      let y : (new_line s).y < 25 = ground (arith, k.line) in
      rw on (
        unfold vga_update_cursor outb in
            (record {
              x_below = omega (arith, k.x_start);
              y_below = y;
              tab_pos = omega (arith, k.tab_kept);
              tab_below = omega (arith, k.tab_kept);
            }),
        vga_update_cursor-ShowsCursor (new_line s) (omega (arith, k.x_start)) y,
      )
]
