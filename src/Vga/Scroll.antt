-- ===== src/Vga/Scroll.antt =====
-- The loops of drv/vga.c over the cells of the screen.
use frod.Base.{ℕ, zero, suc, ◌+◌, ◌≡◌, refl, ap, ◌∙◌, arith, true, ◌&&◌, ltb, leb, if◌then◌else◌}
use frod.Vga.{VgaScreen, set_cell, fill_cells, shift_cells, vga_scroll, cell}

pub mem-fill_cells :
    (left i fill j : ℕ) (s : VgaScreen)
    → (fill_cells left i fill s).mem j ≡ (if leb i j && ltb j (i + left) then fill else s.mem j)
unfolding fill_cells set_cell
mem-fill_cells zero i fill j s = ground arith
mem-fill_cells (suc left) i fill j s =
    ground (arith, mem-fill_cells left (i + 1) fill j (set_cell i fill s))

pub mem-shift_cells :
    (left i j : ℕ) (s : VgaScreen)
    → (shift_cells left i s).mem j
      ≡ (if leb i j && ltb j (i + left) then s.mem (j + 80) else s.mem j)
unfolding shift_cells set_cell
mem-shift_cells zero i j s = ground arith
mem-shift_cells (suc left) i j s =
    ground (arith, mem-shift_cells left (i + 1) j (set_cell i (s.mem (i + 80)) s))

-- The loops change the cells only.
pub fill_cells_frame :
    (left i fill : ℕ) (s : VgaScreen)
    → fill_cells left i fill s ≡ record s { mem = (fill_cells left i fill s).mem }
unfolding fill_cells set_cell
fill_cells_frame zero i fill s = refl
fill_cells_frame (suc left) i fill s = fill_cells_frame left (i + 1) fill (set_cell i fill s)

pub shift_cells_frame :
    (left i : ℕ) (s : VgaScreen)
    → shift_cells left i s ≡ record s { mem = (shift_cells left i s).mem }
unfolding shift_cells set_cell
shift_cells_frame zero i s = refl
shift_cells_frame (suc left) i s = shift_cells_frame left (i + 1) (set_cell i (s.mem (i + 80)) s)

-- `t` is `s` with each line moved up by one, the last line blank in the screen's colour, the
-- cells outside of the screen as they were, and the cursor in the last line.
pub record IsScrolled (s t : VgaScreen) : Type 0 where
  pub x_kept : t.x ≡ s.x
  pub y_last : t.y ≡ 24
  pub tab_kept : t.tab_sz ≡ s.tab_sz
  pub color_kept : t.color ≡ s.color
  pub moved :
      (j : ℕ)
      → t.mem j
        ≡ (if ltb j 1920 then s.mem (j + 80) else (if ltb j 2000 then cell s.color 32 else s.mem j))

-- `vga_scroll` from below the screen's last line scrolls by one line.
pub vga_scroll-IsScrolled : (s : VgaScreen) → s.y ≡ 25 → IsScrolled s (vga_scroll s)
unfolding vga_scroll
vga_scroll-IsScrolled s at_end =
    let s1 : VgaScreen = shift_cells 1920 0 s in
    let c : ℕ = cell s.color 32 in
    let f = fill_cells_frame 80 1920 c s1 in
    let g = shift_cells_frame 1920 0 s in
    let on : leb 25 s.y ≡ true = ground (arith, at_end) in
    let y : (fill_cells 80 1920 c s1).y ≡ 25 = ap VgaScreen.y f ∙ ap VgaScreen.y g ∙ at_end in
    rw on (record {
      x_kept = ap VgaScreen.x f ∙ ap VgaScreen.x g;
      y_last = omega (arith, y);
      tab_kept = ap VgaScreen.tab_sz f ∙ ap VgaScreen.tab_sz g;
      color_kept = ap VgaScreen.color f ∙ ap VgaScreen.color g;
      moved = λ j. ground (arith, mem-fill_cells 80 1920 c j s1, mem-shift_cells 1920 0 j s);
    })
