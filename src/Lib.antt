-- ===== src/Lib.antt =====
-- The JOS kernel (x86-64): physical memory and page tables, environments, the scheduler and the
-- system calls, with parts of its user library and file server.
--
-- kern/pmap.c hands out physical pages and builds four-level page tables; kern/env.c creates
-- environments, each with a table of its own; kern/sched.c picks the environment that a CPU runs;
-- kern/syscall.c lets an environment create others, change their mappings and send messages. The
-- kernel runs under one lock, so an operation is a function from a state to a state. Above it,
-- lib/fork.c copies address spaces by system calls, lib/pipe.c passes bytes through a shared page,
-- fs/fs.c keeps files in the blocks of a disk, fs/bc.c caches the blocks, and lib/file.c is the client
-- of the file server. kern/console.c is the keyboard, the serial line and the screen, and user/sh.c
-- reads command lines from them. kern/trap.c is the kernel's entry: it saves the
-- registers, dispatches to the system calls, the scheduler or the page fault upcall, and goes back.
--
--   Base       Boolean tests, words, results: Ret is an `int` result (ok n, or err for -E), M a
--              state monad in which `none` is a call of panic.
--   Pmap       kern/pmap.c, kern/pmap.h, inc/mmu.h. Machine is the `pages` array, the free list and
--              the words of physical memory. A pointer to a page is its index, one to a page table
--              entry a Slot (table's page, index). Mem, Alloc, Walk, Check and Mmio define;
--              FreeList, Init, Allocator and Release are about the allocator, Table, Level and Walked
--              about the walk, Mapping and Remap about page_insert, page_lookup and page_remove, Pool
--              about a client of the allocator.
--   Env        kern/env.c and kern/sched.c. Kernel is Machine with `envs`, the list of free ones and
--              each CPU's `curenv`. State, Alloc, Sched and Free define (free_env is env_free of the
--              source); Ids, Create, Running, Exclusive and Region prove.
--   Syscall    kern/syscall.c, lib/fork.c and lib/pgfault.c. Calls, Destroy, Dispatch, Duppage and
--              Pgfault define, Ipc, Fork, Duppage and Copied (the loop of fork) prove.
--   Trap       kern/trap.c, on Kernel and one CPU. Push (stores through the page tables) and Handler
--              define; Timer is about a timer interrupt, Bytes, Fault and Upcall about a page fault.
--   Lock       kern/spinlock.c. Spin defines the steps of the CPUs on one lock as a relation, Mutual
--              proves the invariant.
--   Fs         fs/fs.c. Disk is the words of the disk's blocks. Disk (bitmap and block pointers),
--              Content (file_read, file_write), Dir (directories, paths), Files and Server (fs/serv.c:
--              the disk with the table of open files) define; Bits and Bitmap are about the block
--              bitmap, Spread, Loops and Stored about the bytes of a file, Direct, Search and Created
--              about directories, Walked about paths, Opened and Served about open files. Requests is
--              serve with the client's calls in lib/file.c, and Asserted about both. Cache is fs/bc.c
--              over any disk that keeps what is written (fs/ide.c is port I/O), Cached about it.
--   Fd         lib/fd.c. Table is the pages of the descriptors and what they hold; the devices are a
--              parameter. Table defines, Shared proves.
--   Libc       lib/string.c on a memory of bytes, lib/printfmt.c and strtol on lists of bytes. Bytes,
--              Strings, Number, Messages, Format, Cstrings (the loops that end at a null) and Printbuf
--              (lib/printf.c, lib/fprintf.c) define; Move, Fill, Strings, RoundTrip, Printed, Joined,
--              Flushed and Fprintf prove. Text is the strings in memory as lists.
--   Pipe       lib/pipe.c. Ring defines, Window and Order prove. The call of sys_yield is the outcome `waiting`.
--              Shares has the reference counts of a pipe's pages, with each system call of dup and
--              devpipe_close, and of a fork whose mapping fails, as a step of some environment, Closed the theorem on _pipeisclosed.
--   Console    kern/console.c, kern/printf.c and lib/readline.c. Input, Keys, Screen, Kprintf and
--              Readline define; Queue is about the input buffer, Typing about the keyboard, Scroll and
--              Kprintf about the screen, Edit about the line editor. The ports are a parameter.
--   Shell      The tokens of user/sh.c (Token), the options of lib/args.c (Args) and the command line of
--              kern/monitor.c (Monitor), on a memory of bytes; Split and Tokens, Options, and Words and
--              Parsed prove.
--   Smp        kern/mpconfig.c on physical memory. Config defines, Cpus proves.
--
-- Each part has a module Tests with concrete states on which the theorems are run (Clients in Pmap
-- and Volume, Clients and Ram in Fs, Outputs in Libc and Visits in Syscall are more).
--
-- Loops over a range known at the start are recursions on the number of rounds, which the source's
-- bounds give: the 1024 slots of `envs`, the pages of a region, the entries of a table, the bytes of
-- a copy. vprintfmt gets one round for each character of its format and one more; every round takes a
-- character or more, and a theorem says that the loop then ends. The loops of file_read and
-- file_write get a round for each byte, walk_path one for each byte of the path (a theorem says that
-- this is enough), and printnum one more than its number.
-- Loops that end where memory holds a null, and those of the devices, run on fuel; their theorems say
-- which fuel is enough. fork gets a round for each page below USTACKTOP.
--
-- Not modelled: the set-up of the devices, kern/lapic.c and the boot code (I/O); the DWARF reader (a
-- vendored library); the TLB, segment registers and the return to user mode (no effect on the state
-- kept here); the assembly entries of the traps; spawn, and what the shell does with the tokens of a
-- line.
pub mod Base
pub mod Pmap
pub mod Env
pub mod Syscall
pub mod Lock
pub mod Libc
pub mod Pipe
pub mod Fs
pub mod Fd
pub mod Trap
pub mod Console
pub mod Shell
pub mod Smp
