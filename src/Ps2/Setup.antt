-- ===== src/Ps2/Setup.antt =====
-- The start of the controller, `ps2_init` of src/drv/ps2.c, without its two lines of output.
pub mod Talk
pub mod Steps
pub mod Outcome
use frod.Base.{ℕ, ◌+◌, ◌-◌, ◌*◌, ◌%◌, ◌==◌, ◌&&◌, if◌then◌else◌, Bool, false, none, bit_and, bit_or}
use frod.Base.Int.{ℤ, pos, negsuc, is_neg}
use frod.Ports.{Trace, Device, inb, is_set}
use frod.Pic.{pic_enable_irq}
use frod.Strings.{memset}
use frod.Ps2.{
  ps2_port_data, first_off, second_off, ps2_err_self_test_failure, ps2_err_no_usable_channel,
  ps2_success, ps2_send_cmd, ps2_send_cmd_resp, ps2_send_cmd_double, ps2_send_data_response,
  ps2_send_data_response_second,
}
use frod.Ps2.Devices.{Ps2, set_at, sizeof_ps2_devices}

abbrev pub irq_keyboard : ℕ
irq_keyboard = 33

abbrev pub irq_ps2 : ℕ
irq_ps2 = 44

-- `resp & 0x00FF` for a 16-bit `resp`.
abbrev pub low_byte : ℤ → ℕ
low_byte (pos n) = bit_and n 0xFF
low_byte (negsuc n) = 255 - n % 256

-- The early returns: the next step, unless the result is an error.
abbrev pub and_then : {S : Type 0} → S × ℤ → (S → S × ℤ) → S × ℤ
and_then (s, r) next = if is_neg r then (s, r) else next s

module _ {K H : Type 0} where
  -- The loop over `registered`.
  unfoldable pub clear_device : ℕ → ℕ → Ps2 K H → Ps2 K H
  clear_device registered i s =
      let (mem, p) = memset (registered + sizeof_ps2_devices * i) 0 sizeof_ps2_devices s.mem in
      record s { active = set_at i false s.active; callback = set_at i none s.callback; mem = mem }

  unfoldable pub clear_devices : ℕ → Ps2 K H → Ps2 K H
  clear_devices registered s = clear_device registered 1 (clear_device registered 0 s)

module _ {K H : Type 0} (dev : Device) where
  -- A `ps2_send_...` at the state's channel status.
  unfoldable pub send : (ℕ → Trace → Trace × ℤ) → Ps2 K H → Ps2 K H × ℤ
  send op s = let (tr, r) = op s.channel_status s.trace in (record s { trace = tr }, r)

  -- `ps2_send_cmd(cmd, 0)` with its result dropped.
  unfoldable pub command : ℕ → Ps2 K H → Ps2 K H
  command cmd s = let (t, r) = send (ps2_send_cmd dev cmd (pos 0)) s in t

  unfoldable pub ask : ℕ → Ps2 K H → Ps2 K H × ℤ
  ask cmd s = send (ps2_send_cmd_resp dev cmd (pos 0)) s

  -- `ps2_send_cmd_double(PS2_CMD_WRITE_CCB, 0, ccb)`.
  unfoldable pub write_ccb : ℕ → Ps2 K H → Ps2 K H
  write_ccb ccb s = let (t, r) = send (ps2_send_cmd_double dev 0x60 (pos 0) ccb) s in t

  unfoldable pub with_status : ℕ → Ps2 K H → Ps2 K H
  with_status bits s = record s { channel_status = bit_or s.channel_status bits }

  -- Steps 1 and 2.
  unfoldable pub disable_both : Ps2 K H → Ps2 K H
  disable_both s =
      let t = command 0xA7 (command 0xAD s) in
      let (tr, byte) = inb dev ps2_port_data t.trace in record t { trace = tr }

  -- Step 3: no interrupts and no translation.
  unfoldable pub configure : Ps2 K H → Ps2 K H × ℤ
  configure s =
      let (t, resp) = ask 0x20 s in
      let ccb = bit_and (bit_and (bit_and (low_byte resp) 0xFE) 0xFD) 0xBF in
      if is_neg resp then (t, resp) else (write_ccb ccb t, ps2_success)

  -- Step 4.
  unfoldable pub self_test : Ps2 K H → Ps2 K H × ℤ
  self_test s =
      let (t, resp) = ask 0xAA s in
      if is_neg resp
      then (t, resp)
      else if low_byte resp == 0x55
      then (t, ps2_success)
      else (record t { channel_status = 0x0101 }, ps2_err_self_test_failure)

  -- Step 5.
  unfoldable pub find_second : Ps2 K H → Ps2 K H × ℤ
  find_second s =
      let (t, resp) = ask 0x20 (command 0xA8 s) in
      if is_neg resp
      then (record t { channel_status = 0x0202 }, resp)
      else if is_set (low_byte resp) 0x20
      then (record t { channel_status = 0x0400 }, ps2_success)
      else (command 0xA7 t, ps2_success)

  -- A test of step 6: only an error of the sending marks the channel.
  unfoldable pub test_channel : ℕ → ℕ → Ps2 K H → Ps2 K H
  test_channel cmd mark s =
      let (t, resp) = ask cmd s in if is_neg resp then with_status mark t else t

  unfoldable pub test_channels : Ps2 K H → Ps2 K H × ℤ
  test_channels s =
      let t = test_channel 0xAB 0x08 s in
      let u = if second_off t.channel_status then t else test_channel 0xA9 0x0800 t in
      if second_off u.channel_status && first_off u.channel_status
      then (u, ps2_err_no_usable_channel)
      else (u, ps2_success)

  -- A channel that works is enabled, and so is its interrupt in the configuration byte.
  unfoldable pub enable_channel : ℕ → ℕ → Bool → Ps2 K H × ℕ → Ps2 K H × ℕ
  enable_channel cmd mask broken (s, ccb) =
      if broken then (s, ccb) else (command cmd s, bit_or ccb mask)

  -- Step 7.
  unfoldable pub enable_channels : Ps2 K H → Ps2 K H × ℤ
  enable_channels s =
      let (t, resp) = ask 0x20 s in
      let (u, ccb1) = enable_channel 0xAE 0x01 (first_off t.channel_status) (t, low_byte resp) in
      let (v, ccb2) = enable_channel 0xA8 0x02 (second_off u.channel_status) (u, ccb1) in
      if is_neg resp then (t, resp) else (write_ccb ccb2 v, ps2_success)

  -- Step 8, for one channel.
  unfoldable pub reset_first : Ps2 K H → Ps2 K H
  reset_first s =
      let (t, resp) = send (ps2_send_data_response dev 0xFF (pos 0)) s in
      if first_off s.channel_status
      then s
      else if low_byte resp == 0xFA
      then t
      else with_status 0x04 t

  unfoldable pub reset_second : Ps2 K H → Ps2 K H
  reset_second s =
      let (t, resp) = send (ps2_send_data_response_second dev 0xFF (pos 0)) s in
      if second_off s.channel_status
      then s
      else if low_byte resp == 0xFA
      then t
      else with_status 0x0400 t

  unfoldable pub install_handlers : H → H → Ps2 K H → Ps2 K H × ℤ
  install_handlers handle_1st handle_2nd s = (
    record s {
      handlers = set_at irq_ps2 handle_2nd (set_at irq_keyboard handle_1st s.handlers);
      trace = pic_enable_irq dev (irq_ps2 - 32) (pic_enable_irq dev 1 s.trace);
    },
    pos s.channel_status,
  )

  unfoldable pub ps2_init : ℕ → H → H → Ps2 K H → Ps2 K H × ℤ
  ps2_init registered handle_1st handle_2nd s =
      let s4 = and_then (configure (disable_both (clear_devices registered s))) self_test in
      let s7 = and_then (and_then (and_then s4 find_second) test_channels) enable_channels in
      and_then s7 (λ t. install_handlers handle_1st handle_2nd (reset_second (reset_first t)))
