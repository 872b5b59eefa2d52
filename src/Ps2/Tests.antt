-- ===== src/Ps2/Tests.antt =====
-- Runs of src/drv/ps2.c on controllers that answer, and on one that never does.
use frod.Base.{ℕ, ◌≡◌, ◌≢◌, ◌⊎◌, refl, arith, true, false, [], ◌∷◌, ◌==◌, if◌then◌else◌, none}
use frod.Base.Int.{pos, negsuc}
use frod.Ports.{Trace, Device, read, written, sent, latest}
use frod.Ps2.{
  poll_output, poll_input, time_out, ps2_send_internal, wait_data_ready, wait_buffer_ready,
  write_data, read_data, send_data, two_bytes,
}
use frod.Ps2.Devices.{Ps2}
use frod.Ps2.Setup.{ps2_init}
use frod.Ps2.Setup.Talk.{talk}
use frod.Ps2.Setup.Outcome.{opened, HasFailed, HasStarted, ps2_init-HasStarted}
use frod.Ps2.Internal.{ps2_send_data_internal, ps2_send_cmd_internal}
use frod.Ps2.Agreement.{ps2_send_data_internal-agrees, ps2_send_cmd_internal-agrees}

-- A controller that is always ready, with the acknowledgement 0xFA.
abbrev ready : Device
ready tr port = if port == 0x64 then 0x01 else 0xFA

-- One that is always ready and passes its self test, but whose devices do not reset.
abbrev tested : Device
tested tr port = if port == 0x64 then 0x01 else 0x55

abbrev fresh : Ps2 ℕ ℕ
fresh = record {
  trace = [];
  channel_status = 0;
  active = λ n. false;
  callback = λ n. none;
  mem = λ a. 0;
  handlers = λ n. 0;
}

second_channel : ps2_send_internal ready 0xF4 (pos 5) 7 0 [] ≡ (
  read 0x60 0xFA ∷ read 0x64 1 ∷ written 0x60 0xF4 ∷ read 0x64 1 ∷ written 0x64 0xD4 ∷ [],
  pos 0xFA,
)
unfolding ps2_send_internal time_out send_data write_data read_data wait_data_ready
    wait_buffer_ready poll_output poll_input frod.Ports.inb frod.Ports.outb
second_channel = refl

ps2_send_data_internal_run :
    ps2_send_data_internal ready 0xF4 (negsuc 0) false true []
    ≡ ps2_send_internal ready 0xF4 (negsuc 0) 7 0 []
ps2_send_data_internal_run =
    ps2_send_data_internal-agrees ready 0xF4 (negsuc 0) false true 0 [] (omega arith) refl

ps2_send_cmd_internal-agrees_example :
    ps2_send_cmd_internal ready 0x60 (pos 0) (pos 0x47) false []
    ≡ ps2_send_internal ready (two_bytes 0x60 0x47) (pos 0) 8 0x0400 []
ps2_send_cmd_internal-agrees_example =
    ps2_send_cmd_internal-agrees ready 0x60 0x47 0 (pos 0) true false 0x0400 [] (omega arith)
      (omega arith) refl

ps2_init-HasStarted_example :
    (d : ℕ) × (c : ℕ) × (a : ℕ) × (((a ≢ 0x55)
        × HasFailed tested (opened d c a []) (ps2_init tested 0x9000 1 2 fresh))
      ⊎ ((a ≡ 0x55) × HasStarted tested 1 2 (opened d c a []) (ps2_init tested 0x9000 1 2 fresh)))
unfolding talk
ps2_init-HasStarted_example = ps2_init-HasStarted tested 0x9000 1 2 fresh refl
