-- ===== src/Ps2/Internal.antt =====
-- The two functions of src/drv/ps2.c that send without a look at the channel status.
use frod.Base.{ℕ, Bool, if◌then◌else◌}
use frod.Base.Int.{ℤ, is_neg}
use frod.Ports.{Trace, Device, outb}
use frod.Ps2.{ps2_port_status, ps2_cmd_sel_2nd, ps2_success, time_out, write_data, read_data}
use frod.Ps2.Setup.{and_then, low_byte}

module _ (dev : Device) where
  -- The end of both.
  unfoldable pub response_of : Bool → ℤ → Trace → Trace × ℤ
  response_of resp to tr = if resp then read_data dev to tr else (tr, ps2_success)

  -- A negative `next` stands for a command of one byte.
  unfoldable pub ps2_send_cmd_internal : ℕ → ℤ → ℤ → Bool → Trace → Trace × ℤ
  ps2_send_cmd_internal cmd ms next response tr =
      let to = time_out ms in
      let tr1 = outb ps2_port_status cmd tr in
      and_then (if is_neg next then (tr1, ps2_success) else write_data dev (low_byte next) to tr1)
        (response_of response to)

  unfoldable pub ps2_send_data_internal : ℕ → ℤ → Bool → Bool → Trace → Trace × ℤ
  ps2_send_data_internal byte ms first resp tr =
      let to = time_out ms in
      let tr1 = if first then tr else outb ps2_port_status ps2_cmd_sel_2nd tr in
      and_then (write_data dev byte to tr1) (response_of resp to)
