-- ===== src/Kmain.antt =====
-- The start of the kernel, src/sys/kmain.c, as the calls that it makes. What a call returns is an
-- answer from the calls so far, the latest first; `none` is a call that does not come back.
mod Ends
mod Needs
pub mod Order
mod Tests
use Prim.Native.String.{String}
use frod.Base.{
  ℕ, zero, suc, ◌+◌, ◌-◌, ◌*◌, ◌/◌, ◌^◌, ◌==◌, ltb, leb, not, if◌then◌else◌, bit_and, Bool, true,
  false, Option, none, some, List, [], ◌∷◌, u32,
}
use frod.Base.Int.{ℤ, pos, negsuc, is_neg}
use frod.Acpi.{max_cpus}
use frod.Cpu.{kernel_stack_top}
use frod.Vmm.Start.{kb4}
use frod.Process.{proc_vmm_start}
use frod.Multiboot.{check_necessary_flags}
use frod.Multiboot.Print.{Arg, num, str}

-- vmlayout.h.
abbrev pub kernel_stack_sz : ℕ
kernel_stack_sz = kb4 * 2

abbrev pub module1_location : ℕ
module1_location = kernel_stack_top - kernel_stack_sz * max_cpus - kb4 - kb4

abbrev pub max_kernel_mem : ℕ
max_kernel_mem = module1_location - kb4

abbrev mb256 : ℕ
mb256 = 0x10000000

abbrev kernel_max_vm : ℕ
kernel_max_vm = proc_vmm_start + mb256 + mb256

abbrev usermode_start : ℕ
usermode_start = 0x40000000

abbrev vm_valid : Bool
vm_valid = if ltb usermode_start kernel_max_vm then false else true

-- The fields of the `multiboot_info` at `mboot_ptr` that `kmain` reads.
pub record MultibootInfo : Type 0 where
  pub mboot_ptr : ℕ
  pub flags : ℕ
  pub mmap_addr : ℕ
  pub mmap_length : ℕ

pub data Call : Type 0 where
  calls_vga_init : (fg bg : ℕ) → Call
  calls_check_necessary_flags : (flags : ℕ) → Call
  calls_init_pmm : (map length : ℕ) → Call
  calls_pmm_mark_mem_taken : (mem_start mem_end : ℕ) → Call
  calls_move_module : (mboot_ptr : ℕ) (name : String) (to : ℕ) → Call
  calls_kbd_init : (keys : ℕ) → Call
  calls_cpu_supported : Call
  calls_apic_init : Call
  calls_apic_find_info : Call
  calls_apic_find_cpus : Call
  calls_lapic_install : Call
  calls_lapic_read_version : Call
  calls_gdt_install : Call
  calls_pic_init : Call
  calls_ioapic_install : Call
  calls_idt_install : Call
  calls_isr_install : Call
  calls_ps2_init : Call
  calls_ps2kbd_init : Call
  calls_uart_init : Call
  calls_syscall_init : Call
  calls_vmm_init : Call
  calls_move_stack : (new_stack sz init_esp : ℕ) → Call
  calls_heap_init : Call
  calls_process_init : Call
  calls_cpu_start_aps : Call
  calls_kprintf : (kl : ℕ) (fmt : String) (args : List Arg) → Call
  calls_panic : (msg : String) → Call

abbrev pub Answers : Type 0
Answers = List Call → Option ℤ

-- The calls so far, and what comes after them; `none` where the machine has stopped.
abbrev pub Run : Type 0 → Type 0
Run A = List Call → List Call × Option A

abbrev pub next : {A B : Type 0} → List Call × Option A → (A → Run B) → List Call × Option B
next (calls, none) f = (calls, none)
next (calls, some a) f = f a calls

infixl 5 ◌>>=◌
abbrev pub ◌>>=◌ : {A B : Type 0} → Run A → (A → Run B) → Run B
m >>= f = λ calls. next (m calls) f

unfoldable pub call : Answers → Call → Run ℤ
call answers c calls = (c ∷ calls, answers (c ∷ calls))

unfoldable pub flags_checked : ℕ → Run Unit
flags_checked flags calls = (calls_check_necessary_flags flags ∷ calls, check_necessary_flags flags)

unfoldable pub says : ℕ → String → List Arg → Run Unit
says kl fmt args calls = (calls_kprintf kl fmt args ∷ calls, some tt)

-- `if(wrong) PANIC(msg)`.
unfoldable pub panic_if : Bool → String → Run Unit
panic_if wrong msg calls = if wrong then (calls_panic msg ∷ calls, none) else (calls, some tt)

abbrev pub is_zero : ℤ → Bool
is_zero (pos n) = n == 0
is_zero (negsuc n) = false

-- The argument that carries an `int`.
abbrev pub word : ℤ → ℕ
word (pos n) = u32 n
word (negsuc n) = u32 (2 ^ 32 - 1 - n)

abbrev pub int : ℤ → Arg
int r = num (word r)

-- `K_LOW_INFO` and `K_HIGH_INFO`.
abbrev pub low_info : ℕ
low_info = 2

abbrev pub high_info : ℕ
high_info = 3

-- What is said about the result of `ps2_init`.
unfoldable pub says_ps2 : ℤ → Run Unit
says_ps2 res =
    if is_neg res
    then says high_info "[INFO] No PS/2 controller found: %i\n" (int res ∷ [])
    else if not (is_zero res)
    then says high_info "[INFO] 1 PS/2 device found\n" []
    else says high_info "[INFO] 2 PS/2 devices found\n" []

unfoldable pub says_uart : ℤ → Run Unit
says_uart nn =
    if is_zero nn
    then (λ calls. (calls, some tt))
    else says high_info "UART NOT initialized: %i\n" (int nn ∷ [])

-- From the check of the processor to the descriptor tables.
unfoldable pub finds_machine : Answers → Run Unit
finds_machine answers = do
  supported ← call answers calls_cpu_supported
  _ ← panic_if (is_zero supported) "CPU not supported"
  found ← call answers calls_apic_init
  _ ← panic_if (is_zero found) "APIC NOT found\n"
  stored ← call answers calls_apic_find_info
  _ ← panic_if (not (is_zero stored)) "Unable to store information about system\n"
  n ← call answers calls_apic_find_cpus
  _ ← panic_if (is_zero n) "0 CPUs\n"
  _ ← says low_info "[INFO] Found %i CPUs\n" (int n ∷ [])
  installed ← call answers calls_lapic_install
  _ ← panic_if (is_zero installed) "Unable to install local APIC\n"
  _ ← says high_info "[INIT] APIC found %i CPUs\n" (int n ∷ [])
  ver ← call answers calls_lapic_read_version
  says low_info "[INFO] LAPIC version: %i, max LVT %i\n"
      (num (bit_and (word ver) 0xFF) ∷ num (bit_and (word ver) 0x00FF0000 / 2 ^ 16) ∷ [])

-- The drivers, whose handlers go into the table that `isr_install` clears.
unfoldable pub starts_drivers : Answers → Run Unit
starts_drivers answers = do
  _ ← call answers calls_gdt_install
  _ ← says high_info "[INIT] GDT initialized\n" []
  _ ← call answers calls_pic_init
  _ ← says high_info "[INIT] PIC initialized\n" []
  _ ← call answers calls_ioapic_install
  _ ← says high_info "[INIT] IOAPIC initialized\n" []
  _ ← call answers calls_idt_install
  _ ← says high_info "[INIT] IDT initialized\n" []
  _ ← call answers calls_isr_install
  _ ← says high_info "[INIT] ISR initialized\n" []
  res ← call answers calls_ps2_init
  _ ← says_ps2 res
  _ ← call answers calls_ps2kbd_init
  nn ← call answers calls_uart_init
  _ ← says_uart nn
  _ ← call answers calls_syscall_init
  says high_info "[INIT] Syscalls\n" []

unfoldable pub starts_memory : Answers → ℕ → Run Unit
starts_memory answers stack = do
  _ ← call answers calls_vmm_init
  _ ← says high_info "[INIT] Paging\n" []
  _ ← call answers (calls_move_stack kernel_stack_top kernel_stack_sz stack)
  _ ← says low_info "[INFO] Moved stack to VM 0x%x\n" (num kernel_stack_top ∷ [])
  _ ← call answers calls_heap_init
  _ ← says high_info "[INIT] Kernel Heap\n" []
  nn ← call answers calls_process_init
  _ ← says high_info "[INIT] Configured kernel process: %i\n" (int nn ∷ [])
  _ ← says high_info "[INFO] Starting APs\n" []
  _ ← call answers calls_cpu_start_aps
  (λ calls. (calls, some tt))

-- From the screen to the code of the further processors.
unfoldable pub takes_over : Answers → MultibootInfo → ℕ → ℕ → Run Unit
takes_over answers info mem_start mem_end = do
  _ ← call answers (calls_vga_init 15 0)
  _ ← says high_info "[INIT] Screen\n" []
  _ ← flags_checked info.flags
  _ ← call answers (calls_init_pmm info.mmap_addr info.mmap_length)
  _ ← says high_info "[INIT] Physical Memory Manager\n" []
  _ ← call answers (calls_pmm_mark_mem_taken mem_start mem_end)
  keys ← call answers (calls_move_module info.mboot_ptr "sc2.bin" module1_location)
  _ ← panic_if (is_zero keys) "Unable to move sc2.bin"
  _ ← call answers (calls_kbd_init module1_location)
  boot ← call answers (calls_move_module info.mboot_ptr "bootap.bin" 0x7000)
  panic_if (is_zero boot) "Unable to move bootapp.bin"

-- The end, `some`, is the loop behind the last call.
unfoldable pub kmain : Answers → MultibootInfo → ℕ → ℕ → ℕ → Run Unit
kmain answers info mem_start mem_end stack = do
  _ ← panic_if (ltb max_kernel_mem mem_end) "Kernel is too large\n"
  _ ← panic_if (not vm_valid) "Virtual memory is NOT valid\n"
  _ ← takes_over answers info mem_start mem_end
  _ ← finds_machine answers
  _ ← starts_drivers answers
  starts_memory answers stack
