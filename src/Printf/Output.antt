-- ===== src/Printf/Output.antt =====
-- Where formatted output goes, lib/stdio.c: printf to the screen, and kprintf to the screen or to
-- the console of the emulator, by the level of the message.
use frod.Base.Options.{◌>>=◌}
use frod.Base.{
  ℕ, ◌≡◌, refl, sym, Bool-cases, inl, inr, ◌∙◌, ap, leb, ◌==◌, if◌then◌else◌, Option, some, List,
  [], ◌∷◌, length, u8, u32,
}
use frod.Printf.{Arg, do_printf}
use frod.Printf.Plain.{IsPlain, do_printf-IsPlain}
use frod.Vga.{VgaScreen, vga_putc, vga_write, outb}
use frod.Vga.Cursor.{IsOnScreen}
use frod.Vga.Putc.{vga_putc-IsOnScreen}
use mathlib.Core.List.{append-nil}

-- `K_BOCHS_OUT`, and the port of the emulator's console.
abbrev pub k_bochs_out : ℕ
k_bochs_out = 0

abbrev pub bochs_port : ℕ
bochs_port = 0xE9

unfoldable pub vprintf_help : ℕ → VgaScreen → VgaScreen
vprintf_help c s = vga_putc c s

unfoldable pub vprintf_bochs : ℕ → VgaScreen → VgaScreen
vprintf_bochs c s = outb bochs_port c s

-- The calls of `fn`, one for each byte of the output.
unfoldable pub call_each : (ℕ → VgaScreen → VgaScreen) → List ℕ → VgaScreen → VgaScreen
call_each fn [] s = s
call_each fn (c ∷ out) s = call_each fn out (fn c s)

unfoldable pub printf_with :
    (ℕ → VgaScreen → VgaScreen) → List ℕ → List Arg → VgaScreen → Option (VgaScreen × ℕ)
printf_with fn fmt args s = do (out, rv) ← do_printf fmt args; some (call_each fn out s, rv)

unfoldable pub printf : List ℕ → List Arg → VgaScreen → Option (VgaScreen × ℕ)
printf fmt args s = printf_with vprintf_help fmt args s

-- `debug` is the level that the kernel is compiled with.
unfoldable pub kprintf : ℕ → ℕ → List ℕ → List Arg → VgaScreen → Option (VgaScreen × ℕ)
kprintf debug kl fmt args s =
    if leb debug kl
    then (if kl == k_bochs_out
        then printf_with vprintf_bochs fmt args s
        else printf_with vprintf_help fmt args s)
    else some (s, 0)

-- The bytes for the emulator's console, the latest first, behind those that were sent before.
unfoldable pub console : List ℕ → List (ℕ × ℕ) → List (ℕ × ℕ)
console [] ports = ports
console (c ∷ out) ports = console out ((bochs_port, u8 c) ∷ ports)

call_each-bochs :
    (out : List ℕ) (s : VgaScreen)
    → call_each vprintf_bochs out s ≡ record s { ports = console out s.ports }
unfolding call_each vprintf_bochs console outb
call_each-bochs [] s = refl
call_each-bochs (c ∷ out) s = call_each-bochs out _

call_each-vga : (out : List ℕ) (s : VgaScreen) → call_each vprintf_help out s ≡ vga_write out s
unfolding call_each vprintf_help vga_write
call_each-vga [] s = refl
call_each-vga (c ∷ out) s = call_each-vga out _

vga_write-IsOnScreen : (out : List ℕ) (s : VgaScreen) → IsOnScreen s → IsOnScreen (vga_write out s)
unfolding vga_write
vga_write-IsOnScreen [] s k = k
vga_write-IsOnScreen (c ∷ out) s k =
    let stays : IsOnScreen (vga_putc c s) = elim (vga_putc-IsOnScreen c s k) [
      | inl same ↦ rw same k
      | inr (on, shown) ↦ on
    ] in
    vga_write-IsOnScreen out (vga_putc c s) stays

-- A format without percent signs is printed whatever the arguments: not at all below the level
-- that the kernel is compiled with; at the lowest level to the emulator's console, byte by byte,
-- with no change to the screen; else to the screen, as by `vga_write`. The cursor stays on the
-- screen.
pub kprintf-IsPlain :
    (debug kl : ℕ) (fmt : List ℕ) (args : List Arg) (s : VgaScreen)
    → IsPlain fmt
    → IsOnScreen s
    → (t : VgaScreen) × (rv : ℕ) × (kprintf debug kl fmt args s ≡ some (t, rv))
      × (rv ≡ (if leb debug kl then u32 (length fmt) else 0))
      × (t ≡ (
          if leb debug kl
          then (if kl == 0 then record s { ports = console fmt s.ports } else vga_write fmt s)
          else s))
      × IsOnScreen t
unfolding kprintf printf_with
kprintf-IsPlain debug kl fmt args s plain k =
    let e : do_printf fmt args ≡ some (fmt, u32 (length fmt)) =
      ap (λ f. do_printf f args) (sym (append-nil fmt)) ∙ (do_printf-IsPlain fmt args plain).0 in
    elim (Bool-cases (leb debug kl)) [
      | inr below ↦ rw below (s, 0, refl, refl, refl, k)
      | inl above ↦ rw above (
          rw e (elim (Bool-cases (kl == 0)) [
            | inl bochs ↦ rw bochs (
              call_each vprintf_bochs fmt s,
              _,
              refl,
              refl,
              call_each-bochs fmt s,
              rw (call_each-bochs fmt s) record {
                x_below = k.x_below;
                y_below = k.y_below;
                tab_pos = k.tab_pos;
                tab_below = k.tab_below;
              },
            )
            | inr vga ↦ rw vga (
              call_each vprintf_help fmt s,
              _,
              refl,
              refl,
              call_each-vga fmt s,
              rw (call_each-vga fmt s) (vga_write-IsOnScreen fmt s k),
            )
          ]))
    ]
