-- ===== src/Isr/Switching.antt =====
-- The handlers of src/arch/x86/isr.c itself, with the one that switches between processes, and the
-- system call of src/sys/syscall.c. The lines written to the debug port are left out.
use frod.Base.{ℕ, ◌+◌, ◌==◌, ◌≡◌, refl, ◌∙◌, ap, inl, inr, Bool-cases, ==_refl, ◌∷◌, Option, none}
use frod.Ports.{Trace, Device, sent}
use frod.Lapic.{lapic_cpuid, lapic_send_eoi, lapic_write, load32}
use frod.Process.{Registers, Processes, switch_task}
use frod.Process.Switch.{IsScheduled, IsSwitched, switch_task-IsSwitched}
use frod.Isr.{Handlers, register_interrupt_handler}

unfoldable pub irq_spurious : {S : Type 0} → ℕ → S → S × ℕ
irq_spurious regs s = (s, 0)

-- The panic about an exception without a handler.
unfoldable pub dummy_int_handler : {S : Type 0} → ℕ → S → Option (S × ℕ)
dummy_int_handler regs s = none

unfoldable pub syscall_handler : {S : Type 0} → ℕ → S → S × ℕ
syscall_handler regs s = (s, 0)

unfoldable pub syscall_init : {H : Type 0} → H → Handlers H → Handlers H
syscall_init handler handlers = register_interrupt_handler 0x80 handler handlers

-- The number of the processor is read for the debug port; what `switch_task` returns is dropped.
unfoldable pub intr_handler : Device → ℕ → Registers → Trace × Processes → (Trace × Processes) × ℕ
intr_handler dev local_apic regs (tr, s) =
    let (tr1, cpuid) = lapic_cpuid dev local_apic tr in
    let (s1, esp) = switch_task regs s in ((lapic_send_eoi dev local_apic tr1, s1), 0)

cpuid-sent :
    (dev : Device) (local_apic a : ℕ) (tr : Trace)
    → sent a (lapic_cpuid dev local_apic tr).0 ≡ sent a tr
unfolding lapic_cpuid load32 sent
cpuid-sent dev local_apic a tr = elim (Bool-cases (local_apic == 0)) [
  | inl absent ↦ rw absent refl
  | inr present ↦ rw present refl
]

eoi-sent :
    (dev : Device) (local_apic : ℕ) (tr : Trace)
    → sent (local_apic + 0xB0) (lapic_send_eoi dev local_apic tr) ≡ 0 ∷ sent (local_apic + 0xB0) tr
unfolding lapic_send_eoi lapic_write load32 sent
eoi-sent dev local_apic tr = rw (==_refl (local_apic + 0xB0)) refl

-- Where one process runs and another waits, an interrupt switches between them and is acknowledged
-- once at the local APIC; what it returns is 0, not the stack pointer of the process that goes on.
pub intr_handler-IsSwitched :
    (dev : Device) (local_apic : ℕ) (r : Registers) (tr : Trace) (s : Processes)
    → IsScheduled s
    → let out = intr_handler dev local_apic r (tr, s) in
      (esp : ℕ) × IsSwitched r s out.0.1 esp
      × (sent (local_apic + 0xB0) out.0.0 ≡ 0 ∷ sent (local_apic + 0xB0) tr)
      × (out.1 ≡ 0)
unfolding intr_handler
intr_handler-IsSwitched dev local_apic r tr s k = (
  (switch_task r s).1,
  switch_task-IsSwitched r s k,
  eoi-sent dev local_apic (lapic_cpuid dev local_apic tr).0
      ∙ ap (λ l. 0 ∷ l) (cpuid-sent dev local_apic (local_apic + 0xB0) tr),
  refl,
)
