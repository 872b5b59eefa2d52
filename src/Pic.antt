-- ===== src/Pic.antt =====
-- The interrupt controllers, arch/x86/pic.c.
pub mod Masks
mod Tests
use frod.Base.{ℕ, ◌+◌, ◌-◌, ◌^◌, ltb, if◌then◌else◌, bit_and, bit_or}
use frod.Ports.{Trace, Device, inb, outb}

abbrev pub pic_port_master_cmd : ℕ
pic_port_master_cmd = 0x20

abbrev pub pic_port_master_data : ℕ
pic_port_master_data = 0x21

abbrev pub pic_port_slave_cmd : ℕ
pic_port_slave_cmd = 0xA0

abbrev pub pic_port_slave_data : ℕ
pic_port_slave_data = 0xA1

-- All interrupts but the one that joins the two controllers.
abbrev pub pic_enable_mask_master : ℕ
pic_enable_mask_master = 0xFB

abbrev pub pic_enable_mask_slave : ℕ
pic_enable_mask_slave = 0xFF

-- `PIC_ICW1_INIT + PIC_ICW1_ICW4`, the vectors of the two controllers, and `PIC_IVW4_8086`.
abbrev pub pic_icw1 : ℕ
pic_icw1 = 0x10 + 0x01

abbrev pub pic_master_vector_offset : ℕ
pic_master_vector_offset = 32

abbrev pub pic_slave_vector_offset : ℕ
pic_slave_vector_offset = pic_master_vector_offset + 8

abbrev pub pic_ivw4_8086 : ℕ
pic_ivw4_8086 = 0x01

unfoldable pub pic_disable : Trace → Trace
pic_disable tr =
    outb pic_port_slave_data pic_enable_mask_slave
      (outb pic_port_master_data pic_enable_mask_master tr)

module _ (dev : Device) where
  unfoldable pub pic_remap : Trace → Trace
  pic_remap tr =
      let (tr1, m1) = inb dev pic_port_master_data tr in
      let (tr2, m2) = inb dev pic_port_slave_data tr1 in
      let tr3 = outb pic_port_slave_cmd pic_icw1 (outb pic_port_master_cmd pic_icw1 tr2) in
      let tr4 =
        outb pic_port_slave_data pic_slave_vector_offset
          (outb pic_port_master_data pic_master_vector_offset tr3) in
      let tr5 = outb pic_port_slave_data 2 (outb pic_port_master_data 4 tr4) in
      let tr6 =
        outb pic_port_slave_data pic_ivw4_8086 (outb pic_port_master_data pic_ivw4_8086 tr5) in
      outb pic_port_slave_data m2 (outb pic_port_master_data m1 tr6)

  unfoldable pub pic_init : Trace → Trace
  pic_init tr = pic_remap (pic_disable tr)

  -- `m & ~(1 << irq)`, and `m | (1 << irq)`, on a byte.
  unfoldable pub pic_enable_irq : ℕ → Trace → Trace
  pic_enable_irq irq tr =
      let (tr1, m1) = inb dev pic_port_master_data tr in
      let (tr2, m2) = inb dev pic_port_slave_data tr1 in
      if ltb irq 8
      then outb pic_port_master_data (bit_and m1 (2 ^ 8 - 1 - 2 ^ irq)) tr2
      else outb pic_port_slave_data (bit_and m2 (2 ^ 8 - 1 - 2 ^ (irq - 8))) tr2

  unfoldable pub pic_disable_irq : ℕ → Trace → Trace
  pic_disable_irq irq tr =
      let (tr1, m1) = inb dev pic_port_master_data tr in
      let (tr2, m2) = inb dev pic_port_slave_data tr1 in
      if ltb irq 8
      then outb pic_port_master_data (bit_or m1 (2 ^ irq)) tr2
      else outb pic_port_slave_data (bit_or m2 (2 ^ (irq - 8))) tr2
