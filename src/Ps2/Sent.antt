-- ===== src/Ps2/Sent.antt =====
-- Which bytes `ps2_send_internal` of src/drv/ps2.c sends.
use frod.Base.{
  ℕ, zero, suc, ◌/◌, ◌^◌, ◌≡◌, refl, Bool, true, false, Bool-cases, inl, inr, ◌∷◌, u8, ◌&&◌,
  if◌then◌else◌, bit_and,
}
use frod.Base.Int.{ℤ, pos, negsuc, is_neg}
use frod.Ports.{Trace, Device, read, written, inb, outb, sent, is_set}
use frod.Ps2.{
  poll_output, poll_input, wait_data_ready, wait_buffer_ready, time_out, write_data, read_data,
  send_data, send_cmd, ps2_send_internal, first_off, second_off,
}
use frod.Ps2.Send.{reads, time_out-reads, blocked}

module _ (dev : Device) where
  pub sent-poll_output :
      (ms port : ℕ) (tr : Trace)
      → let (t, left) = poll_output dev ms tr in sent port t ≡ sent port tr
  unfolding poll_output inb sent
  sent-poll_output zero port tr = refl
  sent-poll_output (suc ms) port tr =
      let v : ℕ = u8 (dev tr 0x64) in
      elim (Bool-cases (is_set v 0x01)) [
        | inl ready ↦ rw ready refl
        | inr empty ↦ rw empty (sent-poll_output ms port (read 0x64 v ∷ tr))
      ]

  pub sent-poll_input :
      (ms port : ℕ) (tr : Trace)
      → let (t, left) = poll_input dev ms tr in sent port t ≡ sent port tr
  unfolding poll_input inb sent
  sent-poll_input zero port tr = refl
  sent-poll_input (suc ms) port tr =
      let v : ℕ = u8 (dev tr 0x64) in
      elim (Bool-cases (is_set v 0x02)) [
        | inl full ↦ rw full (sent-poll_input ms port (read 0x64 v ∷ tr))
        | inr ready ↦ rw ready refl
      ]

  -- The response is only read.
  sent-respond :
      (wanted : Bool) (n port : ℕ) (t : Trace) (r : ℤ)
      → let (u, q) =
          (if is_neg r then (t, r) else if wanted then read_data dev (pos n) t else (t, r)) in
        sent port u ≡ sent port t
  unfolding read_data wait_data_ready inb
  sent-respond wanted n port t (negsuc r) = refl
  sent-respond true n port t (pos r) = unfold sent in (sent-poll_output n port t)
  sent-respond false n port t (pos r) = refl

  -- What the two ports got of `write_data`.
  sent-write_data :
      (b n : ℕ) (tr : Trace)
      → let (t, r) = write_data dev b (pos n) tr in
        (sent 0x60 t ≡ u8 b ∷ sent 0x60 tr) × (sent 0x64 t ≡ sent 0x64 tr)
  unfolding write_data wait_buffer_ready outb
  sent-write_data b n tr =
      unfold sent in (rw (sent-poll_input n 0x60 tr) refl, rw (sent-poll_input n 0x64 tr) refl)

  sent-send_data :
      (send n flags status : ℕ) (tr : Trace)
      → (if is_set flags 0x04 then second_off status else first_off status) ≡ false
      → let (t, r) = send_data dev send (pos n) flags status tr in
        (sent 0x60 t ≡ u8 (u8 send) ∷ sent 0x60 tr)
        × (sent 0x64 t ≡ (if is_set flags 0x04 then 0xD4 ∷ sent 0x64 tr else sent 0x64 tr))
  unfolding send_data outb
  sent-send_data send n flags status tr free = elim (Bool-cases (is_set flags 0x04)) [
    | inl second ↦
        let off : second_off status ≡ false = rw second at free in
        let (a, b) = sent-write_data (u8 send) n (written 0x64 0xD4 ∷ tr) in
        rw (second, off, a, b) (unfold sent in (refl, refl))
    | inr first ↦
        let off : first_off status ≡ false = rw first at free in
        rw (first, off) (sent-write_data (u8 send) n tr)
  ]

  sent-send_cmd :
      (send n flags status : ℕ) (tr : Trace)
      → (first_off status && second_off status) ≡ false
      → let (t, r) = send_cmd dev send (pos n) flags status tr in
        (sent 0x60 t ≡ (
          if is_set flags 0x08
          then u8 (bit_and send 0xFF00 / 2 ^ 8) ∷ sent 0x60 tr
          else sent 0x60 tr))
        × (sent 0x64 t ≡ u8 (bit_and send 0xFF) ∷ sent 0x64 tr)
  unfolding send_cmd outb
  sent-send_cmd send n flags status tr free =
      let tr1 : Trace = written 0x64 (u8 (bit_and send 0xFF)) ∷ tr in
      let (a, b) = sent-write_data (bit_and send 0xFF00 / 2 ^ 8) n tr1 in
      elim (Bool-cases (is_set flags 0x08)) [
        | inl double ↦ rw (free, double, a, b) (unfold sent in (refl, refl))
        | inr single ↦ rw (free, single) (unfold sent in (refl, refl))
      ]

  -- Unless it is refused, `ps2_send_internal` sends to the devices: the low byte to the data port,
  -- behind the command that selects the second channel if that is asked for; or to the controller:
  -- the low byte to the command port and, for a command of two bytes, the high one to the data port.
  pub sent-ps2_send_internal :
      (send ms flags status : ℕ) (tr : Trace)
      → blocked flags status ≡ false
      → let (t, r) = ps2_send_internal dev send (pos ms) flags status tr in
        let low = u8 (bit_and send 0xFF) in
        let high = u8 (bit_and send 0xFF00 / 2 ^ 8) in
        (sent 0x60 t ≡ (
          if is_set flags 0x01
          then u8 (u8 send) ∷ sent 0x60 tr
          else if is_set flags 0x08
          then high ∷ sent 0x60 tr
          else sent 0x60 tr))
        × (sent 0x64 t ≡ (
            if is_set flags 0x01
            then (if is_set flags 0x04 then 0xD4 ∷ sent 0x64 tr else sent 0x64 tr)
            else low ∷ sent 0x64 tr))
  unfolding ps2_send_internal
  sent-ps2_send_internal send ms flags status tr free =
      let n : ℕ = reads ms in
      let e : time_out (pos ms) ≡ pos n = time_out-reads ms in
      let respond = sent-respond (is_set flags 0x02) n in
      rw e (elim (Bool-cases (is_set flags 0x01)) [
        | inl data_flag ↦ rw data_flag (
            rw (respond 0x60 _ _, respond 0x64 _ _)
              (sent-send_data send n flags status tr (rw data_flag at free)))
        | inr command ↦ rw command (
            rw (respond 0x60 _ _, respond 0x64 _ _)
              (sent-send_cmd send n flags status tr (rw command at free)))
      ])
