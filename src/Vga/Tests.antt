-- ===== src/Vga/Tests.antt =====
-- Runs of drv/vga.c with the cursor in the last cell of the screen.
use frod.Base.{ℕ, ◌+◌, ◌<◌, ◌≡◌, refl, arith, ◌⊎◌, [], ◌==◌, if◌then◌else◌, ltb}
use frod.Vga.{VgaScreen, vga_putc, cell}
use frod.Vga.Cursor.{IsOnScreen}
use frod.Vga.Putc.{vga_putc_printed, position}

abbrev at_end : VgaScreen
at_end = record { x = 79; y = 24; tab_sz = 4; color = 7; mem = λ j. j; ports = [] }

at_end-IsOnScreen : IsOnScreen at_end
at_end-IsOnScreen = record {
  x_below = omega arith;
  y_below = omega arith;
  tab_pos = omega arith;
  tab_below = omega arith;
}

vga_putc_printed_example :
    let t = vga_putc 65 at_end in
    let written = λ (j : ℕ). if j == 1999 then cell 7 65 else j in
    ((position at_end < 1999)
      × (position t ≡ position at_end + 1)
      × ((j : ℕ) → t.mem j ≡ written j))
    ⊎ ((position at_end ≡ 1999)
        × (position t ≡ 1920)
        × ((j : ℕ)
            → t.mem j ≡ (
                if ltb j 1920
                then written (j + 80)
                else (if ltb j 2000 then cell 7 32 else written j))))
vga_putc_printed_example = vga_putc_printed 65 at_end at_end-IsOnScreen (omega arith) (omega arith)

colour_run : (cell 0x17 65 ≡ 0x1741) × (cell 7 32 ≡ 0x0720)
unfolding cell
colour_run = (refl, refl)
