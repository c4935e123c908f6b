-- ===== src/Lib.antt =====
-- just_kernel: a 32-bit x86 kernel in C. This library models the parts of it that can be
-- checked without the machine, and proves what makes them correct. Paths below are those of the
-- repository.
--
-- Files. Base has the shared names, 32-bit words and bit masks. Pmm models src/mm/pmm.c: the
-- record Pmm holds the globals, a function is a function of the same name on that state, and
-- `none` is the `hlt` loop. Its children prove facts on bits (Bits), ranges (Ranges), the
-- search (Search), the calls (Alloc, Accounting) and the boot memory map (Setup). Vmm models
-- src/mm/vmm.c: memory is read by frame number and entry index, and the two windows `_dir` and
-- `_table` are read through the entries of `_base_table` as the code does. Its children treat
-- the parts of an address (Offsets), the windows (Windows), the walk of the processor (Walk),
-- the order of an address space (Space), missing tables (Tables, Grow, Enter), the mapping loop
-- (Map, MapPages, MapStuck) and directories (Directories).
--
-- Sched models src/proc/sched.c, with isr_handler of src/int/isr.c and vmm_page_fault of
-- src/mm/vmm.c: the record Machine has the threads by address, the list of threads in order,
-- and the locals of each core; a call that panics is `none`. Its children are the choice of a
-- thread (Pick), the invariant (Inv), a run of _sched (Turn), sequences of calls (Reach),
-- sleeping (Sleep), page faults (Fault), and the turns of two threads of one priority (Pair,
-- Alternate). A Call of Reach is one call that runs to its end, since the code holds
-- _sched_lock or has interrupts off; sched_thread_exit and sched_thread_sleep take no lock, and
-- what another core does in the middle of them is not modelled. Page faults are no Call. The
-- states of threads outside of sched.c are not changed by the model: a thread that is created
-- is a stopped thread of Machine before it is listed.
--
-- Klibc models the strings and blocks of src/klibc/string.c over a memory of bytes: the
-- contents of copies (Copy) and comparison (Compare). Klibc/Numbers has the conversions of
-- numbers and the other functions of the file; Digits, Turned and Printed follow what utoa and
-- itoa write, and ReadBack reads it back.
--
-- Tables models the descriptor tables of src/int/idt.c and src/int/gdt.c: the parts of a
-- segment descriptor (Fields) and the interrupt gates (Gates). The assembly entry points of
-- interrupts are a parameter.
--
-- Apic models the I/O interrupt controllers of src/sys/apic.c, whose registers are a value for
-- each number and keep what is written to them: the redirection table (Redirect) and the choice
-- of a controller (Find). Madt models the table of the firmware and Parse says what is read
-- from it; Configure models the set-up, and Legacy its last loop. Registers that a device
-- changes by itself are not modelled.
--
-- V86 models the monitor of src/proc/v86.c: the record Cpu has the registers of the interrupted
-- real-mode program, its virtual interrupt flag and memory by bytes. Its children are the stack
-- and the flags (Stack), the loop over prefixes (Decode) and interrupts (Interrupt). The
-- interrupt vector table is memory, and the addresses of the exit stubs are parameters.
--
-- Heap models src/mm/heap.c over the two memory managers: the record Heap has the fields of
-- Heap_t, the two words of each chunk as functions of its address, and the free list as the
-- sequence of its entries, since the intrusive list of include/klibc/llist.h is code of the
-- Linux kernel. Heap/Results says how a call ends: with a result, a panic, a halt of the page
-- allocator, a fault, when set_inuse writes to the word behind the heap, where no page is
-- mapped by the heap, or with stale links, when a chunk is removed that is not on the list.
-- Heap/Release has free, contract and palignedAlloc. alloc calls itself after it has grown the
-- heap, for which the model gives two rounds (Rounds). The other children read the words as a
-- row of blocks (Chain), the list as sorted by size (Order), and follow alloc (Alloc, Take,
-- Split, Serve, Fit) and free (Free, GiveBack), and the growth (Grow) on such a heap (Inv).
--
-- Screen models src/drivers/early_screen.c and the drawing of src/drivers/vesa.c: the record
-- Screen has the cursor, all of memory by bytes, with the frame buffer in it, and the bytes
-- sent to ports. The current mode is an argument. Its children follow what is drawn (Frame) and
-- where the cursor goes (Place, Cursor), and choose a mode from the list (Modes). The loop that
-- clears rows has one more round than there are bytes in the rows, and a mode whose depth is 0
-- would use them up.
--
-- Acpi models the checksum and the search for a table of src/sys/acpi/acpi.c over memory by
-- bytes, with the address of the root pointer as an argument, and Acpi/Search says what they
-- compute.
--
-- Syscalls models src/proc/syscalls.c, with memory from the table of calls on, the registers of
-- interrupted programs by address, and the Machine of Sched as the state. A call may change the
-- registers that its core points to; the three calls that sched_init sets are those of Sched,
-- and all others a parameter. Syscalls/Dispatch is on the table, and Syscalls/Yield on the call
-- that gives up the core. The code of the handler names no register that a call changes but
-- eax, and what a compiler makes of that is not modelled.
--
-- Elf models src/fs/elf/elf.c over memory by bytes, with 0 as the null pointer: the record Elf
-- is ELF32Obj_t, and Elf/Nearest is on the search for the symbol of an address.
--
-- Stdio models _vprintf of src/klibc/stdio.c, with the arguments as a list and the output as a
-- list of bytes; the locals buf and the literal for a null pointer are addresses of the model.
-- Stdio/Pieces has the formats of characters and numbers, Digits and Output what is printed of
-- them, and Unknown the conversions that it does not know.
--
-- Threads models src/proc/thread.c, with the registers of a new thread as words on its kernel
-- stack, and the interrupt return of src/int/int.s that pops them. The calls of the heap and of
-- the address spaces are the record Calls, an argument of the functions; Threads/Managers fills
-- it from Heap and Vmm, and Threads/Start says where a new thread begins.
--
-- The virtual memory manager asks the physical one for the frames of missing tables; the two
-- meet in the field pmm of Vmm, and IsSpace says that no frame in use by the tables is free in
-- the bitmap.
--
-- Bounds. Values are natural numbers, and wrap-around is written out where the C type wraps.
-- The loops run over counts that the code computes or over lists. Some loops run on fuel. Those
-- of alloc and of the clearing of rows are described above. The loops over strings end at a
-- zero byte: one unit for each byte and one for the terminator is enough, and a string that
-- does not end within the address space has no bound in the code either. The loop of the
-- monitor takes one unit for each prefix and one for the instruction, and a segment full of
-- prefixes has no bound in the code either. The conversions of numbers have more rounds than a
-- 32-bit number has digits. _vprintf needs a unit for each byte of the format and for the
-- digits of a number, and parse_madt one for each entry; on some inputs these two do not end.
--
-- Not modelled: what a write beyond the end of the bitmap destroys (the bitmap is a total
-- function), the TLB (each entry that the code changes is followed by `invlpg`), the messages
-- to the serial port, and that the kernel's first 4 MiB stay mapped by `_base_table` in every
-- directory, which the code arranges by copying entry 0. The start of the other cores, the
-- timer and serial port, the task state and the order of the boot are port and register I/O and
-- calls of the modelled functions in a row; processes are modelled only as far as their threads
-- need.
pub mod Base
pub mod Pmm
pub mod Samples
pub mod Vmm
pub mod Sched
pub mod Klibc
pub mod Tables
pub mod Apic
pub mod V86
pub mod Heap
pub mod Screen
pub mod Acpi
pub mod Syscalls
pub mod Elf
pub mod Stdio
pub mod Threads
