-- ===== src/Ps2/Agreement.antt =====
-- The two ways to send of src/drv/ps2.c agree on a channel that works.
use frod.Base.{
  ℕ, ◌+◌, ◌*◌, ◌/◌, ◌%◌, ◌^◌, ◌<◌, ◌≡◌, refl, sym, ◌∙◌, ap, arith, Bool, true, false, if◌then◌else◌,
  ◌&&◌, bit_and, bit_or, u8, u16,
}
use frod.Base.Bits.{or_disjoint, bit_and_mask, bit_and_high}
use frod.Base.Int.{ℤ, pos, negsuc}
use frod.Ports.{Trace, Device}
use frod.Ps2.{
  first_off, second_off, time_out, write_data, send_data, send_cmd, wait_buffer_ready,
  ps2_send_internal, two_bytes,
}
use frod.Ps2.Internal.{response_of, ps2_send_cmd_internal, ps2_send_data_internal}

two_bytes-sum : (c d : ℕ) → c < 256 → d < 256 → two_bytes c d ≡ d * 2 ^ 8 + c
unfolding two_bytes
two_bytes-sum c d lt ld =
    let e : u16 (d * 2 ^ 8) ≡ d * 2 ^ 8 = omega arith in rw e (or_disjoint d c 8 lt)

pub low-two_bytes : (c d : ℕ) → c < 256 → d < 256 → bit_and (two_bytes c d) 0xFF ≡ c
low-two_bytes c d lt ld =
    rw (two_bytes-sum c d lt ld) (bit_and_mask 8 (d * 2 ^ 8 + c) ∙ omega arith)

pub high-two_bytes : (c d : ℕ) → c < 256 → d < 256 → bit_and (two_bytes c d) 0xFF00 / 2 ^ 8 ≡ d
high-two_bytes c d lt ld =
    let w : ℕ = d * 2 ^ 8 + c in
    let e : bit_and w (0xFF * 2 ^ 8) ≡ bit_and (w / 2 ^ 8) 0xFF * 2 ^ 8 = bit_and_high 8 w 0xFF in
    let f : bit_and (w / 2 ^ 8) 0xFF ≡ w / 2 ^ 8 % 2 ^ 8 = bit_and_mask 8 (w / 2 ^ 8) in
    rw (two_bytes-sum c d lt ld) (ap (λ t. t / 2 ^ 8) (e ∙ ap (λ t. t * 2 ^ 8) f) ∙ omega arith)

-- The flags of `ps2_send_internal`.
abbrev pub data_flags : Bool → Bool → ℕ
data_flags first resp = bit_or (bit_or 0x01 (if resp then 0x02 else 0)) (if first then 0 else 0x04)

abbrev pub cmd_flags : Bool → Bool → ℕ
cmd_flags double resp = bit_or (if resp then 0x02 else 0) (if double then 0x08 else 0)

module _ (dev : Device) where
  -- With a time limit that is known.
  send_data-within :
      (byte : ℕ) (ms to : ℤ) (first resp : Bool) (status : ℕ) (tr : Trace)
      → time_out ms ≡ to
      → u8 byte ≡ byte
      → (if first then first_off status else second_off status) ≡ false
      → ps2_send_data_internal dev byte ms first resp tr
        ≡ ps2_send_internal dev byte ms (data_flags first resp) status tr
  unfolding ps2_send_data_internal ps2_send_internal send_data response_of write_data
      wait_buffer_ready
  send_data-within byte ms (pos to) true true status tr t e works = rw (t, e, works) refl
  send_data-within byte ms (pos to) true false status tr t e works = rw (t, e, works) refl
  send_data-within byte ms (pos to) false true status tr t e works = rw (t, e, works) refl
  send_data-within byte ms (pos to) false false status tr t e works = rw (t, e, works) refl
  send_data-within byte ms (negsuc to) true true status tr t e works = rw (t, works) refl
  send_data-within byte ms (negsuc to) true false status tr t e works = rw (t, works) refl
  send_data-within byte ms (negsuc to) false true status tr t e works = rw (t, works) refl
  send_data-within byte ms (negsuc to) false false status tr t e works = rw (t, works) refl

  -- On a channel that works, `ps2_send_data_internal` and `ps2_send_internal` with the flags of the
  -- same channel and response make the same port accesses and return the same, for any time, a
  -- negative one included.
  pub ps2_send_data_internal-agrees :
      (byte : ℕ) (ms : ℤ) (first resp : Bool) (status : ℕ) (tr : Trace)
      → byte < 256
      → (if first then first_off status else second_off status) ≡ false
      → ps2_send_data_internal dev byte ms first resp tr
        ≡ ps2_send_internal dev byte ms (data_flags first resp) status tr
  ps2_send_data_internal-agrees byte ms first resp status tr lt works =
      send_data-within byte ms (time_out ms) first resp status tr refl (omega arith) works

  send_cmd-within :
      (cmd cmd2 k : ℕ) (ms to : ℤ) (double resp : Bool) (status : ℕ) (tr : Trace)
      → time_out ms ≡ to
      → bit_and (if double then two_bytes cmd cmd2 else cmd) 0xFF ≡ cmd
      → (double ≡ true → bit_and (two_bytes cmd cmd2) 0xFF00 / 2 ^ 8 ≡ bit_and cmd2 0xFF)
      → (first_off status && second_off status) ≡ false
      → ps2_send_cmd_internal dev cmd ms (if double then pos cmd2 else negsuc k) resp tr
        ≡ ps2_send_internal dev
            (if double then two_bytes cmd cmd2 else cmd)
            ms
            (cmd_flags double resp)
            status
            tr
  unfolding ps2_send_cmd_internal ps2_send_internal send_cmd response_of write_data
      wait_buffer_ready
  send_cmd-within c d k ms (pos to) true true status tr t e f on = rw (t, e, f refl, on) refl
  send_cmd-within c d k ms (pos to) true false status tr t e f on = rw (t, e, f refl, on) refl
  send_cmd-within c d k ms to false true status tr t e f on = rw (e, on) refl
  send_cmd-within c d k ms to false false status tr t e f on = rw (e, on) refl
  send_cmd-within c d k ms (negsuc to) true true status tr t e f on = rw (t, e, on) refl
  send_cmd-within c d k ms (negsuc to) true false status tr t e f on = rw (t, e, on) refl

  -- As long as one of the two channels works, `ps2_send_cmd_internal` and `ps2_send_internal` make
  -- the same port accesses and return the same, for any time and with or without a response: a
  -- command of one byte, which the first of them takes with any negative `next`, and a command of two
  -- bytes, which the second of them takes as one word with the flag for two bytes.
  pub ps2_send_cmd_internal-agrees :
      (cmd cmd2 k : ℕ) (ms : ℤ) (double resp : Bool) (status : ℕ) (tr : Trace)
      → cmd < 256
      → cmd2 < 256
      → (first_off status && second_off status) ≡ false
      → ps2_send_cmd_internal dev cmd ms (if double then pos cmd2 else negsuc k) resp tr
        ≡ ps2_send_internal dev
            (if double then two_bytes cmd cmd2 else cmd)
            ms
            (cmd_flags double resp)
            status
            tr
  ps2_send_cmd_internal-agrees cmd cmd2 k ms double resp status tr lt lt2 on =
      send_cmd-within cmd cmd2 k ms (time_out ms) double resp status tr refl (low_of double)
        (λ e. high-two_bytes cmd cmd2 lt lt2 ∙ sym (bit_and_mask 8 cmd2 ∙ omega arith)) on
    where
      low_of : (b : Bool) → bit_and (if b then two_bytes cmd cmd2 else cmd) 0xFF ≡ cmd
      low_of true = low-two_bytes cmd cmd2 lt lt2
      low_of false = bit_and_mask 8 cmd ∙ omega arith
