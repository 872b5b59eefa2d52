-- ===== src/Uart/Tests.antt =====
-- Runs of drv/uart.c on a port that is always ready and holds the byte 0x21.
use frod.Base.{Bool, true, false, []}
use frod.Ports.{Device}
use frod.Uart.{Uart}

abbrev line : Device
line tr port = 0x21

abbrev com1 : Uart Bool
com1 = record { uart_present = true; trace = []; handlers = λ n. false }
