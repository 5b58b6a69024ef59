-- ===== src/Lib.antt =====
-- A model of parts of the xv6 kernel and of its user library, extended by signals, kernel threads and
-- binary semaphores, with proofs of what makes these parts correct.
--
-- The parts, and how they interact:
-- - The write-ahead log, kernel/log.c. System calls that write the file system bracket themselves by
--   `begin_op` and `end_op`; the blocks they change are listed by `log_write`, and the last call to
--   end commits them all, through the buffer cache.
-- - The buffer cache, kernel/bio.c: one buffer for each block in use, locked by whoever uses it, kept
--   by reference counts, and recycled in the order of last use. The log pins the blocks that it lists.
-- - Pipes, kernel/pipe.c. Threads that find the buffer full or empty sleep on one of the two
--   counters, and whoever changes the counter, or closes an end, wakes them.
-- - The process table, kernel/proc.c and kernel/proc.h: `wakeup` and `kill` scan it, `allocproc`,
--   `freeproc` and `freethread` give its slots out and take them back, and `fork`, `exit` and `wait` are
--   the life of a process.
-- - Signals, kernel/proc.c: `kill` makes a signal pending, and `handling_signals` acts on it when the
--   process returns to user space, by a default action or by entry to the user's handler, from which
--   `sigret` returns.
-- - Semaphores: binary ones in kernel/proc.c, and counting ones, of two binary ones each, in
--   user/Csemaphore.c.
-- - The allocator of physical pages, kernel/kalloc.c.
-- - Virtual memory, kernel/vm.c: page tables, which processes share with nobody, and the memory of
--   processes, which the kernel reads and writes through them.
-- - Spinlocks, kernel/spinlock.c, with the nesting of `push_off` and `pop_off`, which all parts of the
--   kernel take.
-- - The console, kernel/console.c: keys edit a line in a ring buffer, and readers take whole lines.
-- - Open files, kernel/file.c and kernel/sysfile.c: a table of files with reference counts, and the
--   descriptors of each process, which share them; pipes and the console are used through them.
-- - Path names, kernel/fs.c: `namex` finds the inode of a path, directory by directory.
-- - Sleeplocks, kernel/sleeplock.c, which buffers and inodes have: who waits for one sleeps.
-- - Memory and strings, kernel/string.c, which all other parts call.
-- - The shell's parser of command lines, user/sh.c, and the pattern matcher, user/grep.c: user programs
--   that run on the kernel's system calls.
--
-- The files:
-- - Prelude.antt and Prelude/: library names, Boolean tests and list operations on the native numbers,
--   the C `int`, and the result type `Outcome` of code that can call `panic`.
-- - Log.antt: `struct log` is `Log`, and `Machine` adds the disk, the buffers and their reference
--   counts. `write_head`, `read_head`, `install_trans`, `write_log`, `commit`, `recover_from_log`,
--   `begin_op` and `log_write` have the C names; `initlog` is `init_log`; `end_op` is its first critical
--   section, `finish_commit` the rest. A disk is the header, read as the list of block numbers that
--   count, and the contents of the other blocks; the trace of a machine has its disk writes in order,
--   and a crash keeps a prefix of them. Log/Writes, Log/Copy and Log/Runs follow the writes of the
--   loops; Log/Atomic and Log/Recovery have crash atomicity and what a commit and a recovery do;
--   Log/Transactions interleaves any number of calls, and Log/Ledger and Log/Reservation are about
--   the space that `begin_op` reserves.
-- - Cache.antt: `struct buf` is `Buf`, and `Cache` has the buffers by index and the list of them in
--   order of use as indices. `bget` is the function up to the release of the cache's lock,
--   `lock_buffer` its `acquiresleep`, `fill_buffer` the rest of `bread`, `unlock_buffer` and
--   `drop_buffer` the two halves of `brelse`. Cache/Users interleaves any number of users, by the
--   references that they have; Cache/Refs and Cache/Search count and search, Cache/Sound has the facts
--   that hold between steps, Cache/Steps and Cache/Safety take them through the steps, Cache/Oldest has the
--   cache at boot and the order of recycling.
-- - Pipe.antt: `struct pipe` is `Pipe`, with the counters as 32-bit numbers that wrap round.
--   `write_loop` is the loop of `pipewrite` from one point at which the lock is taken to the next at
--   which it is let go, `read_section` the same of `piperead`, with `read_loop` its copying loop;
--   `close` is `pipeclose`. Pipe/Fifo reads the ring buffer as a queue, Pipe/Calls says what one
--   stretch does to the queue, Pipe/RoundTrip composes a write and a read, Pipe/Threads interleaves
--   the stretches of any number of threads with sleep, wakeup and kill, Pipe/Order has the order of
--   bytes, and Pipe/Rests and Pipe/Wakeups are about who sleeps when.
-- - Process.antt: `struct proc`, `struct thread`, `wakeup` and `kill`; Process/Table: `allocproc`,
--   `freeproc`, `freethread`; Process/Tree: `fork`, `reparent`, `exit` and a round of `wait`, with the
--   addresses of processes and threads, which are channels, as parameters; Process/Lives: these calls in
--   any order by processes of one thread each, the three critical sections of a `fork` one by one. Process/Wakeup, Process/Kill and Process/Alloc have the properties of the scans,
--   Process/Nodes follows states and parents, and Process/Parents, Process/Family, Process/Cared and
--   Process/Orphans are about who can wait for whom.
-- - Signals.antt: `sigprocmask`, `sigaction`, `usersignal`, `sigret`, `sys_sigret`, `handling_signals`, with the
--   code between `start_ret` and `end_ret` as a parameter; Signals/Return,
--   Signals/Defaults, Signals/Stopped and Signals/Install have what they do.
-- - Semaphore.antt: `bsem_alloc`, `bsem_free`, `csem_alloc`, and a round of `bsem_down` and `bsem_up`;
--   Semaphore/Counting: the statements of `csem_down` and `csem_up` one at a time, in any number of
--   threads; Semaphore/Alloc, Semaphore/Weights, Semaphore/Sound and Semaphore/Tokens the properties.
-- - Spinlock.antt: `push_off`, `pop_off`, `holding`, and the statements of `acquire` and `release` one at a
--   time, on any number of CPUs; Spinlock/Nesting and Spinlock/Exclusion the properties.
-- - Sleeplock.antt: `holdingsleep`, `releasesleep` and a round of `acquiresleep`, in any number of threads;
--   Sleeplock/Exclusion the properties.
-- - Pages.antt: `kalloc`, `kfree`, `kinit` with the loop of `freerange`, and callers that allocate and give
--   back; Pages/Partition has who owns which page. The address at which the kernel ends is a parameter.
-- - Vm.antt: physical memory by pages, `walk`, `walkaddr`, `mappages`; Vm/Space: `uvmcreate`, `uvmclear`,
--   `uvmunmap`, `uvmdealloc`, `uvmalloc`, `uvmcopy`; Vm/User: `copyout`, `copyin`, `copyinstr`; Vm/Roots:
--   `freewalk`, `uvmfree`, and from kernel/proc.c `proc_pagetable` and `proc_freepagetable`; Vm/Processes:
--   these calls, after `kinit`, on the page tables of any number of processes. Vm/Tables says what each
--   page is used for, Vm/Changes how a write to a page table changes that, Vm/Walks, Vm/Calls, Vm/Frees,
--   Vm/Grows, Vm/Copies, Vm/Guards, Vm/KernelPages, Vm/Teardown, Vm/Freewalk, Vm/Lives and Vm/Births follow the
--   calls, Vm/Isolation and Vm/Safety compose them; Vm/Entries, Vm/Looks, Vm/Maps, Vm/Translations, Vm/Unmaps
--   and Vm/Growth read page tables as maps of addresses; Vm/Bytes, Vm/Reads, Vm/CStrings, Vm/Writes and Vm/Privacy are about copies between the
--   kernel and a process.
-- - Strings.antt: `memset`, `memcmp`, `memmove`, `strncmp`, `strncpy`, `safestrcpy` and `strlen` on a memory
--   that has a byte at each address; Strings/Memory and Strings/Copies have what they do.
-- - Console.antt: `consputc`, `consoleintr` and the stretches of `consoleread` between two points at which
--   the lock is let go, on the ring `cons`; Console/Readers interleaves keys and readers.
--   Console/Editor and Console/Session are the same on sequences of characters; Console/Ring reads the
--   ring as two sequences, Console/Keys, Console/Store and Console/Edits follow one key, Console/Reads one
--   read, Console/Refines and Console/Sleepers whole schedules.
-- - Files.antt: `filealloc`, `filedup`, `fileclose` and the ends of a pipe; Files/Descriptors: `argfd`,
--   `fdalloc`, `sys_dup`, `sys_close` and parts of `sys_pipe` and `sys_open`; Files/Processes: these two with
--   `pipealloc`, and the loops of `fork` and `exit`, a critical section at a time, in all processes, which
--   have one thread each. Files/Counts, Files/PipeFiles and Files/Calls take the counts through each
--   operation, Files/Refs, Files/Sections and Files/Shares through any order of critical sections, and Files/Races has two threads of one process.
-- - Paths.antt: `skipelem`, `dirlookup` and `namex`, with `namei` and `nameiparent`, on inodes by number. The
--   kinds of inodes and the entries of directories are parameters. Paths/Elements splits a path at its
--   slashes, Paths/Walk walks along the elements.
-- - Shell.antt: the tokens of user/sh.c, `gettoken` and `peek`; Shell/Parser: its parser, a function for
--   each of `parsecmd`, `parseline`, `parsepipe`, `parseexec`, `parseblock` and `parseredirs`; Shell/Fuel
--   bounds its calls, Shell/Printer has the grammar of command lines and what they stand for, and
--   Shell/RoundTrip, Shell/Grammar and Shell/Complete read back what the grammar writes.
-- - Grep.antt: `match`, `matchhere` and `matchstar` of user/grep.c, and `grep` on the pieces that `read`
--   returns; Grep/Language says what a pattern describes, Grep/Matcher and Grep/Lines compare.
-- - The Tests module of each part runs the definitions on small inputs.
--
-- Bounds and fuel: all loops are structural recursion, on the list that a loop scans or on the
-- number of rounds that its bound leaves (`n - i` in `pipewrite` and `piperead`, 32 in
-- `handling_signals`); only `strlen`, the shell's parser and `namex` run on fuel. Loops that sleep are one
-- round each, and a schedule says how the rounds interleave. `uint` counters of a pipe and user
-- addresses wrap round; pids, thread ids and the count of a counting semaphore are taken not to
-- overflow. Reference counts of buffers are 32-bit numbers that wrap round. Sets of signals,
-- 32-bit numbers in the code, are functions from bit numbers to Booleans. `freerange` has as many
-- rounds as pages fit. `strlen` runs on fuel, and one round more than the string has bytes is
-- enough. The shell's parser is called with five units of fuel for each character and five more,
-- which Shell/Fuel shows to be enough. `namex` has a round for each character of the path and
-- one more, and Paths/Walk shows that it ends. The line that control-u kills is at most as long as
-- the indices are apart, which bounds that loop. Counts of references to a file are taken not to overflow.
-- `walk` goes down by the level; `mappages` has a round for each page below MAXVA, where `walk` panics;
-- `uvmalloc` and `uvmcopy` have a round for each page and one more, and the loops of `copyout`, `copyin` and
-- `copyinstr`, of which each round copies a byte at least, one for each byte. `freewalk` is called three
-- deep, for the three levels; a fourth level is a panic. Sizes and physical addresses are taken not to
-- overflow. A page is read by its words where it is a page table's and by its bytes where it is not.
-- Addresses are numbers, and an area of memory is taken to end before the address space
-- does.
--
-- Not modelled: the kernel's own page table, `uvminit` and `exec`; outside Vm.antt and its modules the
-- memory of processes (`copyin` and `copyout` are parameters there), in `allocproc`
-- the allocation of pages (a Boolean says whether it succeeds); the file system above the log but for
-- path names, the drivers, traps and the boot code. A disk writes a block wholly or not at all, and in
-- the order of the calls, which is what the log itself relies on. Outside Spinlock.antt spinlocks are not
-- states of the model: a stretch of code under one is one step, and memory is sequentially
-- consistent.
pub mod Prelude
pub mod Pipe
pub mod Log
pub mod Process
pub mod Signals
pub mod Semaphore
pub mod Cache
pub mod Strings
pub mod Spinlock
pub mod Pages
pub mod Grep
pub mod Shell
pub mod Console
pub mod Files
pub mod Paths
pub mod Sleeplock
pub mod Vm
