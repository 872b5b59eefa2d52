-- ===== src/Vga/Putc.antt =====
-- The contract of `vga_putc`, drv/vga.c.
use frod.Base.{
  ℕ, ◌+◌, ◌*◌, ◌≤◌, ◌<◌, ◌≡◌, refl, arith, true, false, Bool-cases, inl, inr, ◌⊎◌, ◌==◌, ◌&&◌, ltb,
  leb, if◌then◌else◌,
}
use frod.Base.{u8}
use native.Mathlib.Decide.{dec_lt}
use frod.Vga.{
  VgaScreen, vga_putc, end_putc, new_line, vga_update_cursor, vga_write_mem, write_blank, set_cell,
  cell, outb,
}
use frod.Vga.Cursor.{IsOnScreen, new_line-IsNextLine, ShowsCursor, end_putc-IsOnScreen}

-- `vga_putc` of any byte keeps the cursor on the screen; it leaves the screen alone, or it ends
-- with the cursor registers at the cursor.
pub vga_putc-IsOnScreen :
    (ch : ℕ) (s : VgaScreen)
    → IsOnScreen s
    → (vga_putc ch s ≡ s) ⊎ (IsOnScreen (vga_putc ch s) × ShowsCursor (vga_putc ch s))
unfolding vga_putc
vga_putc-IsOnScreen ch s k = elim (Bool-cases ((ch == 0x08) && ltb 0 s.x)) [
  | inl back ↦ rw back (
      inr (
        unfold write_blank vga_write_mem set_cell in
        (end_putc-IsOnScreen (record s { x = u8 (s.x + 255); mem = _ }) k.y_below k.tab_pos
          k.tab_below)))
  | inr b1 ↦ rw b1 (elim (Bool-cases (ch == 0x09)) [
    | inl tab ↦
        rw tab (inr (end_putc-IsOnScreen (record s { x = _ }) k.y_below k.tab_pos k.tab_below))
    | inr b2 ↦ rw b2 (elim (Bool-cases (ch == 13)) [
      | inl ret ↦
          rw ret (inr (end_putc-IsOnScreen (record s { x = 0 }) k.y_below k.tab_pos k.tab_below))
      | inr b3 ↦ rw b3 (elim (Bool-cases (ch == 10)) [
        | inl line ↦
            let n = new_line-IsNextLine s k.y_below in
            rw line (
              inr (
                end_putc-IsOnScreen (new_line s) (ground (arith, n.line, k.y_below))
                  (omega (arith, n.tab_kept, k.tab_pos)) (omega (arith, n.tab_kept, k.tab_below))))
        | inr b4 ↦ rw b4 (elim (Bool-cases (leb 32 ch && leb ch 126)) [
          | inl print ↦ rw print (
              inr (
                unfold vga_write_mem set_cell in
                (end_putc-IsOnScreen (record s { x = u8 (s.x + 1); mem = _ }) k.y_below k.tab_pos
                  k.tab_below)))
          | inr b5 ↦ rw b5 (inl refl)
        ])
      ])
    ])
  ])
]

-- The cursor as the index of a cell.
abbrev pub position : VgaScreen → ℕ
position s = s.y * 80 + s.x

-- A printable character goes into the cursor's cell in the screen's colours and the cursor moves
-- on by one cell; behind the last cell the screen moves up by one line first, so that the character
-- stands at the end of the last but one line, and the cursor at the start of the last.
pub vga_putc_printed :
    (ch : ℕ) (s : VgaScreen)
    → IsOnScreen s
    → 32 ≤ ch
    → ch ≤ 126
    → let t = vga_putc ch s in
      let written = λ (j : ℕ). if j == position s then cell s.color ch else s.mem j in
      ((position s < 1999) × (position t ≡ position s + 1) × ((j : ℕ) → t.mem j ≡ written j))
      ⊎ ((position s ≡ 1999)
          × (position t ≡ 1920)
          × ((j : ℕ)
              → t.mem j ≡ (
                  if ltb j 1920
                  then written (j + 80)
                  else (if ltb j 2000 then cell s.color 32 else written j))))
unfolding vga_putc end_putc vga_update_cursor outb vga_write_mem set_cell
vga_putc_printed ch s k lo hi =
    let b1 : ((ch == 0x08) && ltb 0 s.x) ≡ false = ground arith in
    let b2 : (ch == 0x09) ≡ false = ground arith in
    let b3 : (ch == 13) ≡ false = ground arith in
    let b4 : (ch == 10) ≡ false = ground arith in
    let b5 : (leb 32 ch && leb ch 126) ≡ true = ground arith in
    let x : u8 (s.x + 1) ≡ s.x + 1 = omega (arith, k.x_below) in
    let w : VgaScreen = record s {
      x = s.x + 1;
      mem = λ j. if j == position s then cell s.color ch else s.mem j;
    } in
    rw (b1, b2, b3, b4, b5, x)
      (elim (dec_lt (s.x + 1) 80) [
        | yes inside ↦
            let off : leb 80 (s.x + 1) ≡ false = ground arith in
            rw off (inl (omega (arith, k.y_below), omega arith, λ j. refl))
        | no edge ↦
            let on : leb 80 (s.x + 1) ≡ true = ground arith in
            let n = new_line-IsNextLine w k.y_below in
            rw on (elim n.line [
              | inl (above, y, same) ↦
                  inl (omega (arith, k.x_below), omega (arith, n.x_start, y, k.x_below), same)
              | inr (last, y, moved) ↦
                  inr (omega (arith, k.x_below), omega (arith, n.x_start, y), moved)
            ])
      ])
