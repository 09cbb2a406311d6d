-- ===== src/Lib.antt =====
-- A model of kronosos, a small 64-bit kernel, with the properties of its memory management, its
-- scheduler, its program loader, its ext2 file system, its keyboard and mouse drivers and its string
-- library.
--
-- The physical allocator hands out 4 KiB pages of one region of memory. The virtual memory manager
-- takes pages from it for page tables, which it reads and writes through the direct mapping that
-- the boot loader sets up. The keyboard driver turns scan codes into events for one callback.
-- The scheduler takes an address space and a stack from the memory managers for each new task, and
-- the timer gives the processor to the ready tasks in turn. The file system takes pages from the
-- allocator for its tables and its cache, and reads and writes the sectors of a drive.
--
-- Base: C arrays as lists over the native naturals, Boolean tests, 64-bit arithmetic with its
--   wrap-around written out, bits of naturals, and objects of bytes with the numbers stored in them.
-- Pmm: kernel/src/memory/pmm.c. The static variables are the record Pmm, the bitmap is a list of
--   bytes, and each function pmm_x is the definition x. Pmm.Boot is pmm_init over the entries of
--   the boot loader's memory map, and the reports. NULL is 0.
-- Vmm: kernel/src/memory/vmm.c. Memory is a function of a table's virtual address and an index.
--   vmm_x is the definition x; the levels of the walk, which the code writes out one after the
--   other, are one definition where they do the same. A function that may return early returns an
--   Option and the state at that point. Vmm.Translate holds virt_to_phys and vmm_is_mapped,
--   Vmm.Ranges the functions on ranges of pages, and Vmm.Areas the areas of addresses that
--   vmm_allocate hands out, and Vmm.Spaces the address spaces.
-- Scheduler: kernel/src/core/exec/scheduler.c. The static variables are the record Scheduler, a
--   pointer to a task is its index in the task table, and none is NULL. Scheduler.Calls and
--   Scheduler.Create hold what the rest of the kernel calls: scheduler_x is the definition x, and
--   it gives none when it waits for a lock that is never released. context_switch gives the state in
--   which the next task goes on. The loader is an argument of create_task.
-- Keyboard: kernel/src/drivers/keyboard/keyboard.c. The static variables are the record Keyboard,
--   and keyboard_handle_keypress gives the new state and the event for the callback.
-- Mouse: kernel/src/drivers/mouse/mouse.c. mouse_interrupt_handler takes the byte that it reads, and
--   gives the event for the callback and the new state; an int8_t is its byte.
-- Elf: kernel/src/core/exec/elf.c. elf_x is the definition x; Elf is the parsing of a file in memory,
--   and Elf.Loading works on the state of the memory managers, the bytes behind pointers and the
--   parsed file.
-- Ext2: kernel/src/fs/ext2.c. The static variables, fs and the drives are the record Fs, over a
--   record of what the driver of the drives does (kernel/src/drivers/ata/ata.c, for a drive that
--   answers). The theorems assume of it that a sector that has been written is read back and the
--   others stay, only for sector numbers below 2^28, since the driver sends 28 bits of a number
--   to the drive, and they say only something about blocks whose sectors have such numbers.
--   Structures of the disk are their bytes, paths and names lists of characters. Ext2 holds the
--   blocks and their cache, and below it are Inodes, Bitmaps, BlockMap, Directories,
--   DirectoryBlocks, Paths, Files, Create, Remove and Mount; ext2_x is the definition x, or
--   x_file for the functions on open files. A block is at most a page of 4096 bytes, as its place
--   in the cache is, which the theorems on the cache assume and ext2_mount does not check.
--   Ext2.Directories.Layout says what the entries of a directory's block are, and
--   Ext2.Paths.Described which path a path stands for, apart from the code.
-- Strings: kernel/src/lib/string.c. Memory is a function from addresses to bytes.
--
-- Loops are structural recursion on the number of steps that remain, so they need no fuel. A loop
-- of Strings that ends at a byte of memory has fuel, which is enough when it is above the length of
-- the string that the loop runs over, and so has the comparison of names in the search for a symbol.
-- A loop over the entries of a directory's block has a round for each byte of it, which is enough
-- since an entry has at least one; a loop over the blocks of a directory has one more than it has
-- blocks, and a transfer of a file a round for each byte. The search of the blocked queue has a round
-- for each slot of the task table and one more. Calls of the log, TLB flushes and port input and
-- output are left out: they do not change the modelled state.
--
-- Not modelled: of vmm.c, vmm_init, the page fault handler and the dump of the tables, which set
-- processor registers or print; of scheduler.c, init_task_context with its loops over the arguments
-- of a new task, which fills the processor context and the stack that only the assembly of the
-- context switch and the task itself read, and is assumed to return; of elf.c, the reading of a
-- file; the system calls, which use what is modelled here; the drivers of the drives, the PCI bus, the
-- interrupt controller, the serial port and the timer, the descriptor tables and the log, which are
-- port input and output, instructions of the processor and text; stdio.c, which formats text.
pub mod Base
pub mod Pmm
pub mod Vmm
pub mod Keyboard
pub mod Mouse
pub mod Strings
pub mod Scheduler
pub mod Elf
pub mod Ext2
