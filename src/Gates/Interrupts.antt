-- ===== src/Gates/Interrupts.antt =====
-- The table of interrupt gates, `idt_install` and `idt_enable` of src/arch/x86/idt.c. The addresses
-- of the assembly stubs and of the table are parameters.
pub mod Vectors
use frod.Base.{ℕ, zero, suc, ◌+◌, ◌-◌, ◌*◌, ltb, if◌then◌else◌}
use frod.Gates.{IdtEntry, idt_set_gate}

-- The addresses of `idt_none` and of the stubs; `isr` and `irq` are those of the numbered families.
pub record Stubs : Type 0 where
  pub idt_none : ℕ
  pub isr : ℕ → ℕ
  pub irq : ℕ → ℕ
  pub intr63 : ℕ
  pub intr64 : ℕ
  pub isr128 : ℕ

-- `idt_pointer`.
pub record IdtPointer : Type 0 where
  pub limit : ℕ
  pub base : ℕ

-- The globals of idt.c, and the register that `idt_flush` loads.
pub record Idt : Type 0 where
  pub idt_entries : ℕ → IdtEntry
  pub idt_ptr : IdtPointer
  pub idtr : IdtPointer

abbrev pub sizeof_idt_entry : ℕ
sizeof_idt_entry = 8

abbrev pub kernel_code : ℕ
kernel_code = 0x08

abbrev pub interrupt_gate : ℕ
interrupt_gate = 0x8E

abbrev pub no_gate : IdtEntry
no_gate = record { base_low = 0; selector = 0; zero_byte = 0; flags = 0; base_high = 0 }

-- The gates from `i` on, `left` of them, in ascending order; gate `n` leads to `address n`.
unfoldable pub set_gates : ℕ → ℕ → (ℕ → ℕ) → (ℕ → IdtEntry) → ℕ → IdtEntry
set_gates zero i address entries = entries
set_gates (suc left) i address entries =
    set_gates left (i + 1) address (idt_set_gate i (address i) kernel_code interrupt_gate entries)

unfoldable pub idt_install : Stubs → ℕ → Idt → Idt
idt_install st table s =
    let e0 : ℕ → IdtEntry = λ n. if ltb n 256 then no_gate else s.idt_entries n in
    let e1 = set_gates 256 0 (λ n. st.idt_none) e0 in
    let e2 = set_gates 32 0 st.isr e1 in
    let e3 = set_gates 16 32 (λ n. st.irq (n - 32)) e2 in
    let e4 = idt_set_gate 63 st.intr63 kernel_code interrupt_gate e3 in
    let e5 = idt_set_gate 64 st.intr64 kernel_code interrupt_gate e4 in
    record s {
      idt_entries = idt_set_gate 128 st.isr128 kernel_code interrupt_gate e5;
      idt_ptr = record { limit = sizeof_idt_entry * 256 - 1; base = table };
    }

unfoldable pub idt_enable : Idt → Idt
idt_enable s = record s { idtr = s.idt_ptr }
