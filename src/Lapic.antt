-- ===== src/Lapic.antt =====
-- The local APIC, src/arch/x86/lapic.c, over a trace of accesses to ports and to its registers,
-- whose base address is `local_apic`.
pub mod Startup
mod Tests
use frod.Base.{
  ℕ, zero, suc, ◌+◌, ◌*◌, ◌/◌, ◌%◌, ◌^◌, ◌==◌, ◌∷◌, if◌then◌else◌, Bool, true, false, bit_and,
  bit_or, List, Option, none, some, Memory, write, u8, u16, u32,
}
use frod.Base.Options.{◌>>=◌}
use frod.Ports.{Trace, Device, read, written, outb, is_set, paired}

-- The offsets of the registers.
abbrev pub lapic_id : ℕ
lapic_id = 0x20

abbrev pub lapic_version : ℕ
lapic_version = 0x30

abbrev pub lapic_tpr : ℕ
lapic_tpr = 0x80

abbrev pub lapic_eoi : ℕ
lapic_eoi = 0xB0

abbrev pub lapic_spur_intr : ℕ
lapic_spur_intr = 0xF0

abbrev pub lapic_error_status : ℕ
lapic_error_status = 0x280

abbrev pub lapic_icr_cmd_lo : ℕ
lapic_icr_cmd_lo = 0x300

abbrev pub lapic_icr_cmd_hi : ℕ
lapic_icr_cmd_hi = 0x310

abbrev pub lapic_lvt_timer : ℕ
lapic_lvt_timer = 0x320

abbrev pub lapic_lvt_lint0 : ℕ
lapic_lvt_lint0 = 0x350

abbrev pub lapic_lvt_lint1 : ℕ
lapic_lvt_lint1 = 0x360

abbrev pub lapic_lvt_error : ℕ
lapic_lvt_error = 0x370

abbrev pub lapic_timer_init_cnt : ℕ
lapic_timer_init_cnt = 0x380

abbrev pub lapic_timer_divide_reg : ℕ
lapic_timer_divide_reg = 0x3E0

abbrev pub timer_divide_1 : ℕ
timer_divide_1 = 8 + 3

abbrev pub icr_delivery_mode_init : ℕ
icr_delivery_mode_init = 5 * 2 ^ 8

abbrev pub icr_delivery_mode_start : ℕ
icr_delivery_mode_start = 6 * 2 ^ 8

abbrev pub icr_delivery_stat_pend : ℕ
icr_delivery_stat_pend = 2 ^ 12

abbrev pub icr_level_assert : ℕ
icr_level_assert = 2 ^ 14

abbrev pub icr_trigger_mode_level : ℕ
icr_trigger_mode_level = 2 ^ 15

abbrev pub icr_dest_shorthand_all : ℕ
icr_dest_shorthand_all = 2 * 2 ^ 18

abbrev pub lvt_timer_periodic : ℕ
lvt_timer_periodic = 2 ^ 17

abbrev pub lvt_mask_masked : ℕ
lvt_mask_masked = 2 ^ 16

abbrev pub lapic_enable : ℕ
lapic_enable = 0x100

-- `IRQ_SPURIOUS`, `IRQ_TIMER` and `IRQ_ERROR`.
abbrev pub lapic_vector_spurious : ℕ
lapic_vector_spurious = 63

abbrev pub lapic_vector_timer : ℕ
lapic_vector_timer = 64

abbrev pub lapic_vector_error : ℕ
lapic_vector_error = 65

abbrev pub cmos_port : ℕ
cmos_port = 0x70

abbrev pub warm_reset_vect : ℕ
warm_reset_vect = 0x467

-- The commands that were given, the latest first: the high word of the register and the low one.
abbrev pub commands : ℕ → Trace → List (ℕ × ℕ)
commands local_apic tr = paired (local_apic + lapic_icr_cmd_hi) (local_apic + lapic_icr_cmd_lo) tr

-- `*(uint16_t*)a = v`.
unfoldable pub write16 : Memory → ℕ → ℕ → Memory
write16 m a v = write (write m a (u8 v)) (a + 1) (u16 v / 2 ^ 8)

module _ (dev : Device) (local_apic : ℕ) where
  unfoldable pub load32 : ℕ → Trace → Trace × ℕ
  load32 offset tr =
      let value = u32 (dev tr (local_apic + offset)) in
      (read (local_apic + offset) value ∷ tr, value)

  unfoldable pub lapic_write : ℕ → ℕ → Trace → Trace
  lapic_write offset value tr =
      let (tr1, id) = load32 lapic_id (written (local_apic + offset) (u32 value) ∷ tr) in tr1

  unfoldable pub lapic_send_eoi : Trace → Trace
  lapic_send_eoi tr = lapic_write lapic_eoi 0 tr

  -- The loop that waits until the command register is idle; `none` means that the fuel ran out.
  unfoldable pub wait_idle : ℕ → Trace → Option Trace
  wait_idle zero tr = none
  wait_idle (suc fuel) tr =
      let (tr1, status) = load32 lapic_icr_cmd_lo tr in
      let rest = wait_idle fuel tr1 in
      if is_set status icr_delivery_stat_pend then rest else some tr1

  -- A command for the low word of the register, and the wait behind it.
  unfoldable pub send_command : ℕ → ℕ → Trace → Option Trace
  send_command fuel value tr = wait_idle fuel (lapic_write lapic_icr_cmd_lo value tr)

  -- The registers that `lapic_install` writes before its command.
  unfoldable pub set_registers : Trace → Trace
  set_registers tr =
      let tr1 = lapic_write lapic_spur_intr (bit_or lapic_enable lapic_vector_spurious) tr in
      let tr2 = lapic_write lapic_timer_divide_reg timer_divide_1 tr1 in
      let tr3 = lapic_write lapic_lvt_timer (bit_or lvt_timer_periodic lapic_vector_timer) tr2 in
      let tr4 = lapic_write lapic_timer_init_cnt 10000000 tr3 in
      let tr5 =
        lapic_write lapic_lvt_lint1 lvt_mask_masked
          (lapic_write lapic_lvt_lint0 lvt_mask_masked tr4) in
      let tr6 = lapic_write lapic_lvt_error lapic_vector_error tr5 in
      let tr7 = lapic_write lapic_error_status 0 (lapic_write lapic_error_status 0 tr6) in
      lapic_write lapic_icr_cmd_hi 0 (lapic_write lapic_eoi 0 tr7)

  -- The rest of it; the number is the new `io_apic.max_interr`.
  unfoldable pub enable_interrupts : Trace → Trace × ℕ
  enable_interrupts tr =
      let (tr1, version) = load32 lapic_version (lapic_write lapic_tpr 0 tr) in
      (tr1, bit_and (version / 2 ^ 16) 0xFF)

  -- The body of `lapic_install` with an address.
  unfoldable pub install : ℕ → Trace → Option ((Trace × ℕ) × Bool)
  install fuel tr = do
    let to_all = bit_or icr_dest_shorthand_all icr_delivery_mode_init
    tr1 ← send_command fuel (bit_or to_all icr_trigger_mode_level) (set_registers tr)
    some (enable_interrupts tr1, true)

  -- `max_interr` is the one of `io_apic`.
  unfoldable pub lapic_install : ℕ → ℕ → Trace → Option ((Trace × ℕ) × Bool)
  lapic_install fuel max_interr tr =
      if local_apic == 0 then some ((tr, max_interr), false) else install fuel tr

  unfoldable pub lapic_cpuid : Trace → Trace × ℕ
  lapic_cpuid tr =
      let (tr1, id) = load32 lapic_id tr in if local_apic == 0 then (tr, 0) else (tr1, id / 2 ^ 24)

  unfoldable pub lapic_read_version : Trace → Trace × ℕ
  lapic_read_version tr = load32 lapic_version tr

  -- A command for the processor `id`.
  unfoldable pub send_command_to : ℕ → ℕ → ℕ → Trace → Option Trace
  send_command_to fuel id value tr =
      send_command fuel value (lapic_write lapic_icr_cmd_hi (u32 (id * 2 ^ 24)) tr)

  unfoldable pub lapic_start_ap : ℕ → ℕ → ℕ → Trace × Memory → Option (Trace × Memory)
  lapic_start_ap fuel id addr (tr, m) = do
    let tr1 = outb (cmos_port + 1) 0x0A (outb cmos_port 0x0F tr)
    let m1 = write16 (write16 m warm_reset_vect 0) (warm_reset_vect + 2) (addr / 2 ^ 4)
    let init = bit_or icr_delivery_mode_init icr_trigger_mode_level
    let start = bit_or icr_delivery_mode_start (addr / 2 ^ 12)
    tr2 ← send_command_to fuel id (bit_or init icr_level_assert) tr1
    tr3 ← send_command fuel init tr2
    tr4 ← send_command_to fuel id start tr3
    tr5 ← send_command_to fuel id start tr4
    some (tr5, m1)
