-- ===== src/Ps2/Setup/Talk.antt =====
-- What the driver of src/drv/ps2.c says to the controller and reads from it.
use frod.Base.{
  ℕ, zero, suc, ◌<◌, ◌≡◌, refl, ◌∙◌, ap, arith, false, Bool-cases, inl, inr, [], ◌∷◌, ◌==◌, ◌&&◌,
  ◌||◌, if◌then◌else◌, ltb, u8, bit_and,
}
use frod.Base.Int.{ℤ, pos}
use frod.Base.Bits.{bit_and_mask}
use frod.Ports.{Trace, Device, read, written, inb, outb, is_set}
use frod.Pic.{pic_enable_irq}
use frod.Ps2.{
  first_off, second_off, time_out, poll_output, poll_input, wait_data_ready, wait_buffer_ready,
  write_data, read_data, send_data, send_cmd, ps2_send_internal, two_bytes,
}
use frod.Ps2.Agreement.{low-two_bytes, high-two_bytes}

-- The accesses without those to other ports and without the reads of the status.
unfoldable pub talk : Trace → Trace
talk [] = []
talk (read p v ∷ tr) = if p == 0x60 then read p v ∷ talk tr else talk tr
talk (written p v ∷ tr) = if (p == 0x60) || (p == 0x64) then written p v ∷ talk tr else talk tr

-- A byte came back, behind the accesses `said`.
pub record IsReply (said tr t : Trace) (r : ℤ) : Type 0 where
  pub byte : ℕ
  pub is_byte : byte < 256
  pub result : r ≡ pos byte
  pub heard : talk t ≡ read 0x60 byte ∷ said

u8-small : (v : ℕ) → u8 v < 256
u8-small v = omega arith

module _ (dev : Device) where
  talk-poll_output : (ms : ℕ) (tr : Trace) → talk (poll_output dev ms tr).0 ≡ talk tr
  unfolding poll_output inb talk
  talk-poll_output zero tr = refl
  talk-poll_output (suc ms) tr =
      let v : ℕ = u8 (dev tr 0x64) in
      elim (Bool-cases (is_set v 0x01)) [
        | inl ready ↦ rw ready refl
        | inr empty ↦ rw empty (talk-poll_output ms (read 0x64 v ∷ tr))
      ]

  talk-poll_input : (ms : ℕ) (tr : Trace) → talk (poll_input dev ms tr).0 ≡ talk tr
  unfolding poll_input inb talk
  talk-poll_input zero tr = refl
  talk-poll_input (suc ms) tr =
      let v : ℕ = u8 (dev tr 0x64) in
      elim (Bool-cases (is_set v 0x02)) [
        | inl full ↦ rw full (talk-poll_input ms (read 0x64 v ∷ tr))
        | inr ready ↦ rw ready refl
      ]

  read_data-IsReply :
      (n : ℕ) (tr : Trace) → let (t, r) = read_data dev (pos n) tr in IsReply (talk tr) tr t r
  unfolding read_data wait_data_ready inb
  read_data-IsReply n tr =
      let tr1 : Trace = (poll_output dev n tr).0 in
      record {
        byte = u8 (dev tr1 0x60);
        is_byte = u8-small (dev tr1 0x60);
        result = refl;
        heard = unfold talk in ap (λ l. read 0x60 (u8 (dev tr1 0x60)) ∷ l) (talk-poll_output n tr);
      }

  write_data-talk :
      (b n : ℕ) (tr : Trace)
      → let (t, r) = write_data dev b (pos n) tr in
        (talk t ≡ written 0x60 (u8 b) ∷ talk tr) × (r ≡ pos 0)
  unfolding write_data wait_buffer_ready outb
  write_data-talk b n tr =
      (unfold talk in ap (λ l. written 0x60 (u8 b) ∷ l) (talk-poll_input n tr), refl)

  -- A command without a response.
  pub command-talk :
      (cmd status : ℕ) (tr : Trace)
      → cmd < 256
      → (first_off status && second_off status) ≡ false
      → let (t, r) = ps2_send_internal dev cmd (pos 0) 0 status tr in
        talk t ≡ written 0x64 cmd ∷ talk tr
  unfolding ps2_send_internal send_cmd outb
  command-talk cmd status tr small on =
      let low : bit_and cmd 0xFF ≡ cmd = bit_and_mask 8 cmd ∙ omega arith in
      let whole : u8 cmd ≡ cmd = omega arith in rw (on, low, whole) (unfold talk in refl)

  pub ask-IsReply :
      (cmd status n : ℕ) (tr : Trace)
      → time_out (pos 0) ≡ pos n
      → cmd < 256
      → (first_off status && second_off status) ≡ false
      → let (t, r) = ps2_send_internal dev cmd (pos 0) 2 status tr in
        IsReply (written 0x64 cmd ∷ talk tr) tr t r
  unfolding ps2_send_internal send_cmd outb
  ask-IsReply cmd status n tr e small on =
      let low : bit_and cmd 0xFF ≡ cmd = bit_and_mask 8 cmd ∙ omega arith in
      let whole : u8 cmd ≡ cmd = omega arith in
      let a = read_data-IsReply n (written 0x64 cmd ∷ tr) in
      rw (e, on, low, whole)
        (record {
          byte = a.byte;
          is_byte = a.is_byte;
          result = a.result;
          heard = a.heard ∙ unfold talk in refl;
        })

  -- A command of two bytes.
  pub double-talk :
      (cmd cmd2 status n : ℕ) (tr : Trace)
      → time_out (pos 0) ≡ pos n
      → cmd < 256
      → cmd2 < 256
      → (first_off status && second_off status) ≡ false
      → let (t, r) = ps2_send_internal dev (two_bytes cmd cmd2) (pos 0) 8 status tr in
        talk t ≡ written 0x60 cmd2 ∷ written 0x64 cmd ∷ talk tr
  unfolding ps2_send_internal send_cmd outb
  double-talk cmd cmd2 status n tr e small small2 on =
      let low = low-two_bytes cmd cmd2 small small2 in
      let high = high-two_bytes cmd cmd2 small small2 in
      let whole : u8 cmd ≡ cmd = omega arith in
      let whole2 : u8 cmd2 ≡ cmd2 = omega arith in
      let w = write_data-talk cmd2 n (written 0x64 cmd ∷ tr) in
      rw (e, on, low, high, whole, w.1) (w.0 ∙ unfold talk in (rw whole2 refl))

  -- A byte for the first device, and for the second one, and its response.
  pub first-IsReply :
      (byte status n : ℕ) (tr : Trace)
      → time_out (pos 0) ≡ pos n
      → byte < 256
      → first_off status ≡ false
      → let (t, r) = ps2_send_internal dev byte (pos 0) 3 status tr in
        IsReply (written 0x60 byte ∷ talk tr) tr t r
  unfolding ps2_send_internal send_data
  first-IsReply byte status n tr e small on =
      let whole : u8 byte ≡ byte = omega arith in
      let w = write_data-talk byte n tr in
      let a = read_data-IsReply n (write_data dev byte (pos n) tr).0 in
      rw (e, on, whole, w.1)
        (record {
          byte = a.byte;
          is_byte = a.is_byte;
          result = a.result;
          heard = a.heard ∙ ap (λ l. read 0x60 a.byte ∷ l) (w.0 ∙ rw whole refl);
        })

  pub second-IsReply :
      (byte status n : ℕ) (tr : Trace)
      → time_out (pos 0) ≡ pos n
      → byte < 256
      → second_off status ≡ false
      → let (t, r) = ps2_send_internal dev byte (pos 0) 7 status tr in
        IsReply (written 0x60 byte ∷ written 0x64 0xD4 ∷ talk tr) tr t r
  unfolding ps2_send_internal send_data outb
  second-IsReply byte status n tr e small on =
      let whole : u8 byte ≡ byte = omega arith in
      let tr1 : Trace = written 0x64 0xD4 ∷ tr in
      let w = write_data-talk byte n tr1 in
      let a = read_data-IsReply n (write_data dev byte (pos n) tr1).0 in
      rw (e, on, whole, w.1)
        (record {
          byte = a.byte;
          is_byte = a.is_byte;
          result = a.result;
          heard = a.heard ∙ ap (λ l. read 0x60 a.byte ∷ l) (w.0 ∙ unfold talk in (rw whole refl));
        })

  -- The interrupt controllers are behind other ports.
  pub pic_enable_irq-talk : (irq : ℕ) (tr : Trace) → talk (pic_enable_irq dev irq tr) ≡ talk tr
  unfolding pic_enable_irq inb outb talk
  pic_enable_irq-talk irq tr = elim (Bool-cases (ltb irq 8)) [
    | inl master ↦ rw master refl
    | inr slave ↦ rw slave refl
  ]
