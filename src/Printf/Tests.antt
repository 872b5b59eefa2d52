-- ===== src/Printf/Tests.antt =====
-- Runs of `do_printf`, lib/stdio.c.
use frod.Base.{ℕ, ◌≡◌, refl, arith, inl, inr, List, [], ◌∷◌, some, true, false}
use frod.Printf.{
  Printer, Flags, word, text, do_printf, do_num, run, step, flag, width, modifier, conversion,
  convert, convert_num, convert_text, word_arg, text_arg, start, reset, emit, emit_all, pad,
  emit_field, emit_text, digits, digit, take_sign, signed,
}
use frod.Printf.Digits.{number_from}
use frod.Printf.Fields.{field, out-do_num}
use frod.Printf.Output.{kprintf, console, kprintf-IsPlain}
use frod.Vga.{VgaScreen}
use frod.Vga.Cursor.{IsOnScreen}

-- "%5d|%s" of -42 and "ab".
print_run :
    do_printf (37 ∷ 53 ∷ 100 ∷ 124 ∷ 37 ∷ 115 ∷ []) (word 0xFFFFFFD6 ∷ text (97 ∷ 98 ∷ []) ∷ [])
    ≡ some (32 ∷ 32 ∷ 45 ∷ 52 ∷ 50 ∷ 124 ∷ 97 ∷ 98 ∷ [], 8)
unfolding do_printf do_num run step flag width modifier conversion convert convert_num convert_text
    word_arg text_arg start reset emit emit_all pad emit_field emit_text digits digit take_sign
    signed
print_run = refl

abbrev zero_filled : Printer
zero_filled = record {
  state = 4;
  flags = record {
    lj = false;
    ca = false;
    sg = true;
    l32 = false;
    l16 = false;
    ws = false;
    lz = true;
    fp = false;
  };
  given_wd = 6;
  count = 0;
  args = [];
  out = [];
  unchecked = false;
}

out-do_num_example :
    (f : Flags) × (digs : List ℕ) × ((do_num 10 0xFFFFFFD6 zero_filled).out ≡ field f 6 digs)
    × (number_from 10 0 digs ≡ 42)
    × (f.ws ≡ true)
    × ((f.lj ≡ false) × (f.lz ≡ true))
out-do_num_example = out-do_num 10 0xFFFFFFD6 zero_filled (inr (inl refl)) (omega arith) refl

abbrev screen : VgaScreen
screen = record { x = 3; y = 2; tab_sz = 4; color = 7; mem = λ j. 0; ports = [] }

screen-IsOnScreen : IsOnScreen screen
screen-IsOnScreen = record {
  x_below = omega arith;
  y_below = omega arith;
  tab_pos = omega arith;
  tab_below = omega arith;
}

-- "hi" to the emulator's console.
kprintf-IsPlain_example :
    (t : VgaScreen) × (rv : ℕ) × (kprintf 0 0 (104 ∷ 105 ∷ []) [] screen ≡ some (t, rv))
    × (rv ≡ 2)
    × (t ≡ record screen { ports = (0xE9, 105) ∷ (0xE9, 104) ∷ [] })
    × IsOnScreen t
unfolding console
kprintf-IsPlain_example =
    kprintf-IsPlain 0 0 (104 ∷ 105 ∷ []) [] screen ((λ e. omega arith), ((λ e. omega arith), tt))
      screen-IsOnScreen
