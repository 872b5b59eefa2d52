-- ===== src/Ps2.antt =====
-- The PS/2 controller, src/drv/ps2.c, over a trace of port accesses.
pub mod Devices
pub mod Send
pub mod Sent
pub mod Register
pub mod Setup
pub mod Internal
pub mod Agreement
mod Tests
use frod.Base.{
  ℕ, zero, suc, ◌+◌, ◌-◌, ◌*◌, ◌/◌, ◌^◌, ◌==◌, ◌&&◌, not, if◌then◌else◌, Bool, true, false,
}
use frod.Base.{bit_and, bit_or, u8, u16}
use frod.Base.Int.{ℤ, pos, negsuc, is_neg}
use frod.Ports.{Trace, Device, inb, outb, is_set}

abbrev pub ps2_port_data : ℕ
ps2_port_data = 0x60

abbrev pub ps2_port_status : ℕ
ps2_port_status = 0x64

abbrev pub ps2_status_output_buff_full : ℕ
ps2_status_output_buff_full = 0x01

abbrev pub ps2_status_input_buff_full : ℕ
ps2_status_input_buff_full = 0x02

abbrev pub ps2_cmd_sel_2nd : ℕ
ps2_cmd_sel_2nd = 0xD4

abbrev pub ps2_to_default : ℤ
ps2_to_default = pos 10000

abbrev pub ps2_send_mask_data : ℕ
ps2_send_mask_data = 0x01

abbrev pub ps2_send_mask_response : ℕ
ps2_send_mask_response = 0x02

abbrev pub ps2_send_mask_second : ℕ
ps2_send_mask_second = 0x04

abbrev pub ps2_send_mask_double : ℕ
ps2_send_mask_double = 0x08

abbrev pub ps2_err_input_buffer_full : ℤ
ps2_err_input_buffer_full = negsuc 0

abbrev pub ps2_err_output_buffer_empty : ℤ
ps2_err_output_buffer_empty = negsuc 1

abbrev pub ps2_err_self_test_failure : ℤ
ps2_err_self_test_failure = negsuc 2

abbrev pub ps2_err_no_usable_channel : ℤ
ps2_err_no_usable_channel = negsuc 3

abbrev pub ps2_err_invalid_param : ℤ
ps2_err_invalid_param = negsuc 4

abbrev pub ps2_err_channel_broken : ℤ
ps2_err_channel_broken = negsuc 5

abbrev pub ps2_err_channel_active : ℤ
ps2_err_channel_active = negsuc 6

abbrev pub ps2_success : ℤ
ps2_success = pos 0

-- The two halves of `channel_status`: the first and the second channel is out of use.
abbrev pub first_off : ℕ → Bool
first_off status = is_set status 0xFF

abbrev pub second_off : ℕ → Bool
second_off status = is_set status 0xFF00

-- `if(ms == 0) ms = PS2_TO_DEFAULT`.
unfoldable pub time_out : ℤ → ℤ
time_out (pos zero) = ps2_to_default
time_out (pos (suc ms)) = pos (suc ms)
time_out (negsuc ms) = negsuc ms

-- Two bytes as the word that `ps2_send_internal` takes.
unfoldable pub two_bytes : ℕ → ℕ → ℕ
two_bytes cmd cmd2 = bit_or (u16 (cmd2 * 2 ^ 8)) cmd

module _ (dev : Device) where
  -- The loop of `wait_data_ready` from a count of `ms`, and the count at its end.
  unfoldable pub poll_output : ℕ → Trace → Trace × ℕ
  poll_output zero tr = (tr, 0)
  poll_output (suc ms) tr =
      let (tr1, status) = inb dev ps2_port_status tr in
      let rest = poll_output ms tr1 in
      if is_set status ps2_status_output_buff_full then (tr1, suc ms) else rest

  -- The loop of `wait_buffer_ready`.
  unfoldable pub poll_input : ℕ → Trace → Trace × ℕ
  poll_input zero tr = (tr, 0)
  poll_input (suc ms) tr =
      let (tr1, status) = inb dev ps2_port_status tr in
      let rest = poll_input ms tr1 in
      if is_set status ps2_status_input_buff_full then rest else (tr1, suc ms)

  unfoldable pub wait_data_ready : ℤ → Trace → Trace × Bool
  wait_data_ready (pos ms) tr =
      let (tr1, left) = poll_output ms tr in (tr1, not (is_neg (pos left)))
  wait_data_ready (negsuc ms) tr = (tr, not (is_neg (negsuc ms)))

  unfoldable pub wait_buffer_ready : ℤ → Trace → Trace × Bool
  wait_buffer_ready (pos ms) tr =
      let (tr1, left) = poll_input ms tr in (tr1, not (is_neg (pos left)))
  wait_buffer_ready (negsuc ms) tr = (tr, not (is_neg (negsuc ms)))

  -- The byte that goes to the data port once the controller takes one, or the error.
  unfoldable pub write_data : ℕ → ℤ → Trace → Trace × ℤ
  write_data byte ms tr =
      let (tr1, ready) = wait_buffer_ready ms tr in
      if ready then (outb ps2_port_data byte tr1, ps2_success) else (tr1, ps2_err_input_buffer_full)

  unfoldable pub read_data : ℤ → Trace → Trace × ℤ
  read_data ms tr =
      let (tr1, ready) = wait_data_ready ms tr in
      let (tr2, byte) = inb dev ps2_port_data tr1 in
      if ready then (tr2, pos byte) else (tr1, ps2_err_output_buffer_empty)

  -- The part of `ps2_send_internal` under `PS2_SEND_MASK_DATA`.
  unfoldable pub send_data : ℕ → ℤ → ℕ → ℕ → Trace → Trace × ℤ
  send_data send ms flags status tr =
      if is_set flags ps2_send_mask_second
      then (if second_off status
          then (tr, ps2_err_no_usable_channel)
          else write_data (u8 send) ms (outb ps2_port_status ps2_cmd_sel_2nd tr))
      else (if first_off status
          then (tr, ps2_err_no_usable_channel)
          else write_data (u8 send) ms tr)

  -- The other part, for commands.
  unfoldable pub send_cmd : ℕ → ℤ → ℕ → ℕ → Trace → Trace × ℤ
  send_cmd send ms flags status tr =
      let tr1 = outb ps2_port_status (bit_and send 0xFF) tr in
      if first_off status && second_off status
      then (tr, ps2_err_no_usable_channel)
      else if is_set flags ps2_send_mask_double
      then write_data (bit_and send 0xFF00 / 2 ^ 8) ms tr1
      else (tr1, ps2_success)

  unfoldable pub ps2_send_internal : ℕ → ℤ → ℕ → ℕ → Trace → Trace × ℤ
  ps2_send_internal send ms flags status tr =
      let to = time_out ms in
      let (tr1, ret) =
        if is_set flags ps2_send_mask_data
        then send_data send to flags status tr
        else send_cmd send to flags status tr in
      if is_neg ret
      then (tr1, ret)
      else if is_set flags ps2_send_mask_response
      then read_data to tr1
      else (tr1, ret)

  unfoldable pub ps2_send_cmd : ℕ → ℤ → ℕ → Trace → Trace × ℤ
  ps2_send_cmd cmd to_ms status tr = ps2_send_internal cmd to_ms 0 status tr

  unfoldable pub ps2_send_cmd_resp : ℕ → ℤ → ℕ → Trace → Trace × ℤ
  ps2_send_cmd_resp cmd to_ms status tr =
      ps2_send_internal cmd to_ms ps2_send_mask_response status tr

  unfoldable pub ps2_send_cmd_double : ℕ → ℤ → ℕ → ℕ → Trace → Trace × ℤ
  ps2_send_cmd_double cmd to_ms cmd2 status tr =
      ps2_send_internal (two_bytes cmd cmd2) to_ms ps2_send_mask_double status tr

  unfoldable pub ps2_send_cmd_resp_double : ℕ → ℤ → ℕ → ℕ → Trace → Trace × ℤ
  ps2_send_cmd_resp_double cmd to_ms cmd2 status tr =
      ps2_send_internal (two_bytes cmd cmd2) to_ms
        (bit_or ps2_send_mask_response ps2_send_mask_double) status tr

  unfoldable pub ps2_send_data : ℕ → ℤ → ℕ → Trace → Trace × ℤ
  ps2_send_data byte to_ms status tr = ps2_send_internal byte to_ms ps2_send_mask_data status tr

  unfoldable pub ps2_send_data_second : ℕ → ℤ → ℕ → Trace → Trace × ℤ
  ps2_send_data_second byte to_ms status tr =
      ps2_send_internal byte to_ms (bit_or ps2_send_mask_data ps2_send_mask_second) status tr

  unfoldable pub ps2_send_data_response : ℕ → ℤ → ℕ → Trace → Trace × ℤ
  ps2_send_data_response byte to_ms status tr =
      ps2_send_internal byte to_ms (bit_or ps2_send_mask_data ps2_send_mask_response) status tr

  unfoldable pub ps2_send_data_response_second : ℕ → ℤ → ℕ → Trace → Trace × ℤ
  ps2_send_data_response_second byte to_ms status tr =
      ps2_send_internal byte to_ms
        (bit_or (bit_or ps2_send_mask_data ps2_send_mask_response) ps2_send_mask_second) status tr
