-- ===== src/Ps2/Setup/Steps.antt =====
-- What each step of `ps2_init`, src/drv/ps2.c, says and hears, and the channel status it leaves.
use frod.Base.{
  ℕ, zero, suc, ◌/◌, ◌^◌, ◌<◌, ◌≡◌, ◌≢◌, refl, ◌∙◌, ap, arith, true, false, Bool-cases, inl, inr,
  ◌⊎◌, ◌&&◌, ◌==◌, ◌∷◌, bit_and, bit_or, u8, if◌then◌else◌,
}
use native.Mathlib.Nat.{pow-suc}
use frod.Base.Bits.{bit_and_mask, bit_and_step, bit_or_step, bit_and-zero}
use frod.Base.Int.{ℤ, pos, negsuc}
use frod.Ports.{Device, read, written, inb, is_set}
use frod.Ps2.{
  first_off, second_off, ps2_send_cmd, ps2_send_cmd_resp, ps2_send_cmd_double,
  ps2_send_data_response, ps2_send_data_response_second, ps2_err_self_test_failure,
}
use frod.Ps2.Send.{reads, time_out-reads}
use frod.Ps2.Devices.{Ps2}
use frod.Ps2.Setup.{
  and_then, low_byte, ask, send, command, write_ccb, with_status, clear_devices, clear_device,
  disable_both, configure, self_test, find_second, test_channel, test_channels, enable_channel,
  enable_channels, reset_first, reset_second,
}
use frod.Ps2.Setup.Talk.{
  talk, IsReply, command-talk, ask-IsReply, double-talk, first-IsReply, second-IsReply,
}

pub and_then-on :
    {S : Type 0} (p : S × ℤ) (f : S → S × ℤ) (n : ℕ) → p.1 ≡ pos n → and_then p f ≡ f (p.0)
and_then-on (s, r) f n e = rw e refl

pub and_then-off :
    {S : Type 0} (p : S × ℤ) (f : S → S × ℤ) (n : ℕ) → p.1 ≡ negsuc n → and_then p f ≡ p
and_then-off (s, r) f n e = rw e refl

bit_and-below : (k a b : ℕ) → b < 2 ^ k → bit_and a b < 2 ^ k
bit_and-below zero a b lt =
    let none_set : b ≡ 0 = omega arith in rw none_set (rw (bit_and-zero a) (omega arith))
bit_and-below (suc k) a b lt =
    let half = bit_and-below k (a / 2) (b / 2) (omega (arith, pow-suc 2 k)) in
    ground (arith, bit_and_step a b, pow-suc 2 k, half)

bit_or-below : (k a b : ℕ) → a < 2 ^ k → b < 2 ^ k → bit_or a b < 2 ^ k
bit_or-below zero a b lt lt2 =
    let first : a ≡ 0 = omega arith in
    let second : b ≡ 0 = omega arith in rw (first, second) (omega arith)
bit_or-below (suc k) a b lt lt2 =
    let half =
      bit_or-below k (a / 2) (b / 2) (omega (arith, pow-suc 2 k)) (omega (arith, pow-suc 2 k)) in
    ground (arith, bit_or_step a b, pow-suc 2 k, half)

-- The configuration byte without interrupts and translation.
abbrev pub quiet : ℕ → ℕ
quiet c = bit_and (bit_and (bit_and c 0xFE) 0xFD) 0xBF

low_byte-byte : (n : ℕ) → n < 256 → low_byte (pos n) ≡ n
low_byte-byte n lt = bit_and_mask 8 n ∙ omega arith

module _ {K H : Type 0} (dev : Device) where
  -- Not both channels are out of use.
  abbrev IsOn : Ps2 K H → Type 0
  IsOn s = (first_off s.channel_status && second_off s.channel_status) ≡ false

  command-said :
      (cmd : ℕ) (s : Ps2 K H)
      → cmd < 256
      → IsOn s
      → talk (command dev cmd s).trace ≡ written 0x64 cmd ∷ talk s.trace
  unfolding command send ps2_send_cmd
  command-said cmd s small on = command-talk dev cmd s.channel_status s.trace small on

  ask-said :
      (cmd : ℕ) (s : Ps2 K H)
      → cmd < 256
      → IsOn s
      → let (t, r) = ask dev cmd s in IsReply (written 0x64 cmd ∷ talk s.trace) s.trace t.trace r
  unfolding ask send ps2_send_cmd_resp
  ask-said cmd s small on =
      ask-IsReply dev cmd s.channel_status (reads 0) s.trace (time_out-reads 0) small on

  write_ccb-said :
      (ccb : ℕ) (s : Ps2 K H)
      → ccb < 256
      → IsOn s
      → talk (write_ccb dev ccb s).trace ≡ written 0x60 ccb ∷ written 0x64 0x60 ∷ talk s.trace
  unfolding write_ccb send ps2_send_cmd_double
  write_ccb-said ccb s small on =
      double-talk dev 0x60 ccb s.channel_status (reads 0) s.trace (time_out-reads 0) (omega arith)
        small on

  channel_status-ask : (cmd : ℕ) (s : Ps2 K H) → (ask dev cmd s).0.channel_status ≡ s.channel_status
  unfolding ask send
  channel_status-ask cmd s = refl

  channel_status-command :
      (cmd : ℕ) (s : Ps2 K H) → (command dev cmd s).channel_status ≡ s.channel_status
  unfolding command send
  channel_status-command cmd s = refl

  channel_status-write_ccb :
      (ccb : ℕ) (s : Ps2 K H) → (write_ccb dev ccb s).channel_status ≡ s.channel_status
  unfolding write_ccb send
  channel_status-write_ccb ccb s = refl

  pub disable_both-said :
      (registered : ℕ) (s : Ps2 K H)
      → s.channel_status ≡ 0
      → let t = disable_both dev (clear_devices registered s) in
        (t.channel_status ≡ 0)
        × ((d : ℕ) × (talk t.trace
              ≡ read 0x60 d ∷ written 0x64 0xA7 ∷ written 0x64 0xAD ∷ talk s.trace))
  unfolding disable_both clear_devices clear_device inb
  disable_both-said registered s e =
      let s1 : Ps2 K H = clear_device registered 1 (clear_device registered 0 s) in
      let s2 : Ps2 K H = command dev 0xAD s1 in
      let e2 : s2.channel_status ≡ 0 = channel_status-command 0xAD s1 ∙ e in
      let a = command-said 0xAD s1 (omega arith) (rw e refl) in
      let b = command-said 0xA7 s2 (omega arith) (rw e2 refl) in
      let d : ℕ = u8 (dev (command dev 0xA7 s2).trace 0x60) in
      (
        channel_status-command 0xA7 s2 ∙ e2,
        (d, unfold talk in ap (λ l. read 0x60 d ∷ l) (b ∙ ap (λ l. written 0x64 0xA7 ∷ l) a)),
      )

  pub configure-said :
      (s : Ps2 K H)
      → s.channel_status ≡ 0
      → let (t, r) = configure dev s in
        (r ≡ pos 0)
        × (t.channel_status ≡ 0)
        × ((c : ℕ) × (talk t.trace
              ≡ written 0x60 (quiet c)
                ∷ written 0x64 0x60
                ∷ read 0x60 c
                ∷ written 0x64 0x20
                ∷ talk s.trace))
  unfolding configure
  configure-said s e =
      let a = ask-said 0x20 s (omega arith) (rw e refl) in
      let t : Ps2 K H = (ask dev 0x20 s).0 in
      let e2 : t.channel_status ≡ 0 = channel_status-ask 0x20 s ∙ e in
      let w = write_ccb-said (quiet a.byte) t (bit_and-below 8 _ 0xBF (omega arith)) (rw e2 refl) in
      rw (a.result, low_byte-byte a.byte a.is_byte)
        (
          refl,
          channel_status-write_ccb (quiet a.byte) t ∙ e2,
          (a.byte, w ∙ ap (λ l. written 0x60 (quiet a.byte) ∷ written 0x64 0x60 ∷ l) a.heard),
        )

  -- The self test passes with 0x55 only.
  pub self_test-said :
      (s : Ps2 K H)
      → s.channel_status ≡ 0
      → let (t, r) = self_test dev s in
        (a : ℕ) × (talk t.trace ≡ read 0x60 a ∷ written 0x64 0xAA ∷ talk s.trace)
        × (((a ≡ 0x55) × (r ≡ pos 0) × (t.channel_status ≡ 0))
            ⊎ ((a ≢ 0x55) × (r ≡ ps2_err_self_test_failure) × (t.channel_status ≡ 0x0101)))
  unfolding self_test
  self_test-said s e =
      let a = ask-said 0xAA s (omega arith) (rw e refl) in
      let e2 : (ask dev 0xAA s).0.channel_status ≡ 0 = channel_status-ask 0xAA s ∙ e in
      rw (a.result, low_byte-byte a.byte a.is_byte)
        (elim (Bool-cases (a.byte == 0x55)) [
          | inl passed ↦ rw passed (a.byte, a.heard, inl (ground arith, refl, e2))
          | inr failed ↦
              rw failed (a.byte, a.heard, inr (λ q. absurd (ground (arith, q)), refl, refl))
        ])

  -- The second channel is given up where bit 5 of the configuration byte is set.
  pub find_second-said :
      (s : Ps2 K H)
      → s.channel_status ≡ 0
      → let (t, r) = find_second dev s in
        (r ≡ pos 0)
        × ((e : ℕ) × (((is_set e 0x20 ≡ true)
                × (t.channel_status ≡ 0x0400)
                × (talk t.trace
                    ≡ read 0x60 e ∷ written 0x64 0x20 ∷ written 0x64 0xA8 ∷ talk s.trace))
              ⊎ ((is_set e 0x20 ≡ false)
                  × (t.channel_status ≡ 0)
                  × (talk t.trace
                      ≡ written 0x64 0xA7
                        ∷ read 0x60 e
                        ∷ written 0x64 0x20
                        ∷ written 0x64 0xA8
                        ∷ talk s.trace))))
  unfolding find_second
  find_second-said s e =
      let s1 : Ps2 K H = command dev 0xA8 s in
      let e1 : s1.channel_status ≡ 0 = channel_status-command 0xA8 s ∙ e in
      let b = command-said 0xA8 s (omega arith) (rw e refl) in
      let a = ask-said 0x20 s1 (omega arith) (rw e1 refl) in
      let t : Ps2 K H = (ask dev 0x20 s1).0 in
      let e2 : t.channel_status ≡ 0 = channel_status-ask 0x20 s1 ∙ e1 in
      let heard = a.heard ∙ ap (λ l. read 0x60 a.byte ∷ written 0x64 0x20 ∷ l) b in
      rw (a.result, low_byte-byte a.byte a.is_byte)
        (elim (Bool-cases (is_set a.byte 0x20)) [
          | inl single ↦ rw single (refl, (a.byte, inl (single, refl, heard)))
          | inr dual ↦
              let c = command-said 0xA7 t (omega arith) (rw e2 refl) in
              rw dual (
                refl,
                (
                  a.byte,
                  inr (
                    dual,
                    channel_status-command 0xA7 t ∙ e2,
                    c ∙ ap (λ l. written 0x64 0xA7 ∷ l) heard,
                  ),
                ),
              )
        ])

  test_channel-said :
      (cmd mark : ℕ) (s : Ps2 K H)
      → cmd < 256
      → IsOn s
      → let t = test_channel dev cmd mark s in
        (t.channel_status ≡ s.channel_status)
        × ((k : ℕ) × (talk t.trace ≡ read 0x60 k ∷ written 0x64 cmd ∷ talk s.trace))
  unfolding test_channel
  test_channel-said cmd mark s small on =
      let a = ask-said cmd s small on in rw a.result (channel_status-ask cmd s, (a.byte, a.heard))

  -- With one channel only the first one is tested, and with two both.
  pub test_single-said :
      (s : Ps2 K H)
      → s.channel_status ≡ 0x0400
      → let (t, r) = test_channels dev s in
        (r ≡ pos 0)
        × (t.channel_status ≡ 0x0400)
        × ((k : ℕ) × (talk t.trace ≡ read 0x60 k ∷ written 0x64 0xAB ∷ talk s.trace))
  unfolding test_channels
  test_single-said s e =
      let (same, heard) = test_channel-said 0xAB 0x08 s (omega arith) (rw e refl) in
      let off = ap second_off (same ∙ e) in
      let on = ap first_off (same ∙ e) in rw (off, off, on) (refl, same ∙ e, heard)

  pub test_dual-said :
      (s : Ps2 K H)
      → s.channel_status ≡ 0
      → let (t, r) = test_channels dev s in
        (r ≡ pos 0)
        × (t.channel_status ≡ 0)
        × ((k1 : ℕ) × (k2 : ℕ) × (talk t.trace
              ≡ read 0x60 k2 ∷ written 0x64 0xA9 ∷ read 0x60 k1 ∷ written 0x64 0xAB ∷ talk s.trace))
  unfolding test_channels
  test_dual-said s e =
      let t : Ps2 K H = test_channel dev 0xAB 0x08 s in
      let (same, (k1, heard)) = test_channel-said 0xAB 0x08 s (omega arith) (rw e refl) in
      let et : t.channel_status ≡ 0 = same ∙ e in
      let (same2, (k2, heard2)) = test_channel-said 0xA9 0x0800 t (omega arith) (rw et refl) in
      let on = ap second_off et in
      let on2 = ap second_off (same2 ∙ et) in
      rw (on, on2)
        (refl, same2 ∙ et, (k1, k2, heard2 ∙ ap (λ l. read 0x60 k2 ∷ written 0x64 0xA9 ∷ l) heard))

  pub enable_single-said :
      (s : Ps2 K H)
      → s.channel_status ≡ 0x0400
      → let (t, r) = enable_channels dev s in
        (r ≡ pos 0)
        × (t.channel_status ≡ 0x0400)
        × ((f : ℕ) × (talk t.trace
              ≡ written 0x60 (bit_or f 1)
                ∷ written 0x64 0x60
                ∷ written 0x64 0xAE
                ∷ read 0x60 f
                ∷ written 0x64 0x20
                ∷ talk s.trace))
  unfolding enable_channels enable_channel
  enable_single-said s e =
      let a = ask-said 0x20 s (omega arith) (rw e refl) in
      let t : Ps2 K H = (ask dev 0x20 s).0 in
      let et : t.channel_status ≡ 0x0400 = channel_status-ask 0x20 s ∙ e in
      let u : Ps2 K H = command dev 0xAE t in
      let eu : u.channel_status ≡ 0x0400 = channel_status-command 0xAE t ∙ et in
      let b = command-said 0xAE t (omega arith) (rw et refl) in
      let ccb : ℕ = bit_or a.byte 1 in
      let w = write_ccb-said ccb u (bit_or-below 8 a.byte 1 a.is_byte (omega arith)) (rw eu refl) in
      let on1 = ap first_off et in
      let off2 = ap second_off eu in
      rw (a.result, low_byte-byte a.byte a.is_byte, on1, off2)
        (
          refl,
          channel_status-write_ccb ccb u ∙ eu,
          (
            a.byte,
            w
                ∙ ap (λ l. written 0x60 ccb ∷ written 0x64 0x60 ∷ l)
                    (b ∙ ap (λ l. written 0x64 0xAE ∷ l) a.heard),
          ),
        )

  pub enable_dual-said :
      (s : Ps2 K H)
      → s.channel_status ≡ 0
      → let (t, r) = enable_channels dev s in
        (r ≡ pos 0)
        × (t.channel_status ≡ 0)
        × ((f : ℕ) × (talk t.trace
              ≡ written 0x60 (bit_or (bit_or f 1) 2)
                ∷ written 0x64 0x60
                ∷ written 0x64 0xA8
                ∷ written 0x64 0xAE
                ∷ read 0x60 f
                ∷ written 0x64 0x20
                ∷ talk s.trace))
  unfolding enable_channels enable_channel
  enable_dual-said s e =
      let a = ask-said 0x20 s (omega arith) (rw e refl) in
      let t : Ps2 K H = (ask dev 0x20 s).0 in
      let et : t.channel_status ≡ 0 = channel_status-ask 0x20 s ∙ e in
      let u : Ps2 K H = command dev 0xAE t in
      let eu : u.channel_status ≡ 0 = channel_status-command 0xAE t ∙ et in
      let b = command-said 0xAE t (omega arith) (rw et refl) in
      let v : Ps2 K H = command dev 0xA8 u in
      let ev : v.channel_status ≡ 0 = channel_status-command 0xA8 u ∙ eu in
      let b2 = command-said 0xA8 u (omega arith) (rw eu refl) in
      let ccb : ℕ = bit_or (bit_or a.byte 1) 2 in
      let low = bit_or-below 8 a.byte 1 a.is_byte (omega arith) in
      let w = write_ccb-said ccb v (bit_or-below 8 _ 2 low (omega arith)) (rw ev refl) in
      let on1 = ap first_off et in
      let on2 = ap second_off eu in
      rw (a.result, low_byte-byte a.byte a.is_byte, on1, on2)
        (
          refl,
          channel_status-write_ccb ccb v ∙ ev,
          (
            a.byte,
            w
                ∙ ap (λ l. written 0x60 ccb ∷ written 0x64 0x60 ∷ l)
                    (b2
                      ∙ ap (λ l. written 0x64 0xA8 ∷ l)
                          (b ∙ ap (λ l. written 0x64 0xAE ∷ l) a.heard)),
          ),
        )

  -- A channel whose device does not acknowledge its reset with 0xFA is marked.
  pub reset_first-said :
      (s : Ps2 K H)
      → first_off s.channel_status ≡ false
      → let t = reset_first dev s in
        (q : ℕ) × (t.channel_status
          ≡ (if q == 0xFA then s.channel_status else bit_or s.channel_status 0x04))
        × (talk t.trace ≡ read 0x60 q ∷ written 0x60 0xFF ∷ talk s.trace)
  unfolding reset_first send with_status ps2_send_data_response
  reset_first-said s on =
      let a =
        first-IsReply dev 0xFF s.channel_status (reads 0) s.trace (time_out-reads 0) (omega arith)
          on in
      rw (on, a.result, low_byte-byte a.byte a.is_byte)
        (elim (Bool-cases (a.byte == 0xFA)) [
          | inl ok ↦ rw ok (a.byte, rw ok refl, a.heard)
          | inr bad ↦ rw bad (a.byte, rw bad refl, a.heard)
        ])

  pub reset_second-said :
      (s : Ps2 K H)
      → second_off s.channel_status ≡ false
      → let t = reset_second dev s in
        (q : ℕ) × (t.channel_status
          ≡ (if q == 0xFA then s.channel_status else bit_or s.channel_status 0x0400))
        × (talk t.trace ≡ read 0x60 q ∷ written 0x60 0xFF ∷ written 0x64 0xD4 ∷ talk s.trace)
  unfolding reset_second send with_status ps2_send_data_response_second
  reset_second-said s on =
      let a =
        second-IsReply dev 0xFF s.channel_status (reads 0) s.trace (time_out-reads 0) (omega arith)
          on in
      rw (on, a.result, low_byte-byte a.byte a.is_byte)
        (elim (Bool-cases (a.byte == 0xFA)) [
          | inl ok ↦ rw ok (a.byte, rw ok refl, a.heard)
          | inr bad ↦ rw bad (a.byte, rw bad refl, a.heard)
        ])

  pub reset_second-off : (s : Ps2 K H) → second_off s.channel_status ≡ true → reset_second dev s ≡ s
  unfolding reset_second
  reset_second-off s off = rw off refl
