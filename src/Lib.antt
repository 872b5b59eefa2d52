-- ===== src/Lib.antt =====
-- frod, a toy operating system kernel for 32-bit x86: its memory management, its processes,
-- its C library, its spinlocks, and the drivers of its interrupts and its console, with what makes
-- them correct.
--
-- The parts and their files. Paths are from the repository's root.
--   Pmm      src/sys/pmm.c: the bitmap of physical blocks and the walk over the memory map.
--   Vmm      src/sys/vmm.c: page directories and page tables, which it reaches through the last
--            entry of the directory. It takes the blocks of its tables from Pmm.
--   Heap     src/sys/heap.c: the ring of blocks of kernel memory. It takes blocks from Pmm and
--            maps them with Vmm.
--   Strings  src/lib/string.c: the C string functions.
--   Printf   src/lib/stdio.c: do_printf and vsprintf, and printf and kprintf, which give each byte
--            to Vga or to the console of the emulator.
--   Lock     src/sys/lock.c: the spinlock among processors.
--   Vga      src/drv/vga.c: the text screen.
--   Ports    src/include/hal/hal.h: inb and outb, as a trace of accesses.
--   Pic      src/arch/x86/pic.c: the interrupt controllers.
--   Uart     src/drv/uart.c: the serial port, which enables its interrupt through Pic.
--   Ps2      src/drv/ps2.c: the PS/2 controller, its start and the devices of its two channels.
--   Kbd      src/sys/kbd.c and src/drv/ps2kbd.c: the keyboard, which gets its scan codes from the
--            interrupts of Ps2.
--   Kernel   src/sys/kernel.c: checksums, the search for a signature, the test runner, and the move
--            of the running stack, with the pages of Vmm.
--   Acpi     src/arch/x86/apic.c: the tables of the firmware, with the checksums of Kernel.
--   Ioapic   src/arch/x86/ioapic.c: the redirection entries of the I/O APIC.
--   Isr      src/arch/x86/isr.c: the table of interrupt handlers and their dispatch, the handler
--            that switches between processes, over Process and Lapic, and the system call of
--            src/sys/syscall.c.
--   Pit      src/sys/pit.c: the timer, whose handler is in the table of Isr.
--   Lapic    src/arch/x86/lapic.c: the local APIC and the start of further processors.
--   Process  src/sys/process.c: processes, their kernel stacks and the switch between two of them,
--            with memory from Heap and pages from Vmm.
--   Dllist   src/sys/dllist.c: the doubly linked list, whose elements are on Heap.
--   Gates    src/arch/x86/gdt.c and src/arch/x86/idt.c: the packing of descriptors, the tables that
--            are installed and the task state segment.
--   Multiboot  src/sys/multiboot1.c: what the boot loader tells, the move of a module, with Strings
--            and Pmm, and what is printed of it.
--   Cpu      src/sys/cpu.c: the stacks and the start of the further processors, with Lapic and the
--            table that Acpi fills.
--   Kmain    src/sys/kmain.c: the calls that the start of the kernel makes, with a table of what
--            each uses, and what it asks of their results.
--   Base     numbers, bits, lists and flat memory that the others share.
--
-- How code becomes definitions. A function of the source is a function of the same name, with the
-- globals that it uses as a record that it takes and returns. Words are natural numbers and the
-- wrap of uint8_t, uint16_t and uint32_t is written out, as u8, u16 and u32. A loop is a function
-- by recursion on the rounds that are left; a loop without such a bound takes fuel: the searches
-- for a null byte, where a string of length n needs n + 1; find_signature, where len + 1 is enough;
-- print_mb_mmap, with one round more than the map has bytes; the waits of cpu_start_aps, where a
-- quick local APIC needs 2; move_stack, where a stack of sz bytes needs sz / 4 + 2; dllist_find,
-- with one round for each element up to the one that ends it; apic_init, with one round more than
-- there are addresses to look at; the walk over the MADT, with one more than its entries; and the
-- search of heap_malloc, where a ring of n blocks needs n + 1, and heap_malloc itself one round
-- more for its own call, as alloc_proc and real_fork pass it on. Results that stop
-- the machine, faults and missing fuel are values of their own.
--
-- Memory. Pmm and Strings stand on a flat memory of bytes. Vmm keeps the words of page directories
-- and tables by physical address, apart from the bytes of the bitmap, which lies in blocks that
-- are never given out; its accesses go through the translation that the processor makes, and a
-- page that is not present is a fault. Heap keeps the headers of its blocks by virtual address,
-- apart from what the owners of the blocks write; Process keeps the control blocks that lie in them
-- and the words of the kernel stacks by virtual address too. Where the address space of a process is
-- made in the page of its kernel stack, the stack is read from the words of that page again.
-- move_stack has the memory of the stacks by virtual address, next to the page tables.
--
-- Hardware. The translation of addresses follows the architecture's manual, without a cache of
-- translations, so that the flush of an entry does nothing. A device behind a port is an argument:
-- what it answers to a read, from the accesses before. Where a theorem needs its behaviour, as
-- that a mask reads back, it is a hypothesis. A further processor starts by the commands that the
-- local APIC was given. The exchange of the spinlock is one step, and the
-- processors take their steps in any order.
--
-- Not modelled: the assembly stubs, with the return to a process; what a further
-- processor does behind its start, cpu_common_main; what only prints about the machine, as
-- print_regs; and delay, which spends time.
pub mod Base
pub mod Pmm
pub mod Process
pub mod Dllist
pub mod Multiboot
pub mod Strings
pub mod Vmm
pub mod Heap
pub mod Printf
pub mod Vga
pub mod Ports
pub mod Pic
pub mod Uart
pub mod Kbd
pub mod Ps2
pub mod Kernel
pub mod Acpi
pub mod Ioapic
pub mod Isr
pub mod Pit
pub mod Lapic
pub mod Cpu
pub mod Lock
pub mod Gates
pub mod Kmain
