-- ===== src/Lib.antt =====
-- Verification of the kernel: xv6 with signals.
--
-- A process is an entry of the table of proc.c. `fork` makes one, `exit` and `wait` end it, and the
-- scheduler runs it. `kill` turns on a bit of its pending set. On the way back to user mode
-- `check_kernel_sigs` (trap.c) looks at the pending signals: it kills, stops or continues the
-- process, or rewrites its trap frame and its stack so that it enters a user handler, which returns
-- through the system call `sigret` (proc.c, dispatched by syscall.c) to the saved frame. Both use
-- the memory routines of string.c.
--
-- Processes share pipes, open files and cached inodes, whose counts of references say when they end.
-- What the file system writes to the disk goes through the log, one transaction for several system
-- calls. The user programs are the shell and the tools, with the library of ulib.c and printf.c.
--
-- Files
-- - Prelude: Boolean tests, lists, tables, counts and bits of native numbers.
-- - Memory: bytes by address; `memset` and `memmove` of string.c, `stosb` and `stosl` of x86.h.
--   Memory/Words has words in memory, Memory/Fill and Memory/Move the two routines.
-- - Proc: `struct proc`, its states, the signal numbers and the limits of param.h.
-- - Signal: `hasSignal` to `check_kernel_sigs` of trap.c, `sigprocmask`, `signal` and `sigret` of
--   proc.c. The parts of `check_kernel_sigs` are functions of their own: `default_action` is the
--   first switch, `custom_action` what follows it, `deliver` the entry into a user handler,
--   `check_one` the body of the loop. Signal/Check is about a whole pass, Signal/Deliver and
--   Signal/Return about user handlers, Signal/Default, Signal/Stop and Signal/Kill about the actions,
--   Signal/Handlers about `signal`.
-- - Syscall: `fetchint` to `argstr` and `syscall` of syscall.c. Syscall/Fetch and Syscall/Dispatch.
-- - Ptable: the table, `wakeup1` and `kill`. Ptable/Fork has `allocpid`, `allocproc`, `fork` and
--   `safestrcpy`, Ptable/Fork/Built the stack and the files of a new process; Ptable/Exit has `exit` and `wait`; Ptable/System has the steps of `sleep`, `yield`
--   and `scheduler`, and the table under any sequence of steps.
-- - Pipe: pipe.c but for the files of `pipealloc`. Pipe/Contents is the list of bytes in a pipe,
--   Pipe/Write and Pipe/Read are about one run of the two operations, Pipe/Fifo about any sequence.
-- - Kalloc: `kfree` and `kalloc` of kalloc.c. Kalloc/Freelist is the chain of free pages in memory,
--   Kalloc/Owners who may use which page.
-- - Strings: `memcmp`, `strncmp`, `strncpy` and `strlen` of string.c. Strings/Compare, Strings/Copy.
-- - Log: log.c, and `bwrite` of bio.c. Log/Header is the block with the block numbers, Log/Commit what
--   `commit` writes, Log/Recover what a recovery makes of a disk, Log/Crash the two together, Log/Space
--   and Log/Ops the room that `begin_op` reserves.
-- - Bcache: `binit`, `bget` and `brelse` of bio.c. Bcache/Search is the two loops of `bget`,
--   Bcache/Blocks the users of buffers, Bcache/Steps and Bcache/Recycle what they keep.
-- - Spinlock: spinlock.c. Spinlock/System has the steps of the CPUs, Spinlock/Lock the fields of the
--   lock, Spinlock/Cpus the count of `pushcli`, Spinlock/Exclusion both together.
-- - Ftable: `filealloc`, `filedup` and `fileclose` of file.c. Ftable/Counts.
-- - Balloc: `balloc`, `bfree` and `bzero` of fs.c. Balloc/Bitmap is about `balloc`, Balloc/Free about
--   `bfree`.
-- - Content: `bmap`, `itrunc`, `readi`, `writei`, `iupdate` and the read of `ilock` (fs.c).
--   Content/Owned is the blocks of an inode, Content/Becomes what a new block must leave alone,
--   Content/Grow, Content/Place and Content/Map lead to `bmap`; Content/Block and Content/Write are
--   about `writei`, Content/Read about `readi`, Content/Store, Content/Dinode and Content/Save about
--   `iupdate`, Content/Freed, Content/Truncated and Content/Trunc about `itrunc`, Content/Device about devices.
-- - Directory: `dirlookup` and `dirlink` of fs.c. Directory/Entry and Directory/Found are about names
--   and entries, Directory/Reading and Directory/Lookup about its search, Directory/Get about `dirlookup` with `iget`, Directory/Vacant,
--   Directory/Written, Directory/Placed and Directory/Link about `dirlink`, Directory/After about both.
--   Directory/Tree is the directories as Names sees them.
-- - Icache: `iget`, `idup` and `iput` of fs.c. Icache/Scan is the loop of `iget`, Icache/System the
--   steps of the holders of inodes, Icache/Unique what they keep.
-- - Names: `skipelem`, `namex`, `namei` and `nameiparent` of fs.c. Names/Elements is a path as a list
--   of names, Names/Walk what it leads to, Names/Balance the references and locks of a lookup.
-- - Ulib: `strcmp`, `strchr` and `atoi` of ulib.c, `printint` of printf.c. Ulib/Number, Ulib/Compare.
-- - Shell: the parser of sh.c. Shell/Tokens is about `gettoken`, Shell/Ends about the end of the
--   parser, Shell/Args about the argument vectors.
-- - Grep: the matcher of grep.c. Grep/Language is what an expression means.
-- - A Tests module of each part runs it on concrete inputs.
--
-- State. A `World` is the current process and the memory that its page table maps, in which the
-- kernel's own addresses lie as well. A `Kernel` is the process table, `nextpid`, `initproc`, kernel
-- memory and the state of the page allocator, the page tables and the file system, whose operations
-- are the record `Services`. A pointer into the table is an index, and its number where the code
-- uses it as a sleep channel. Words are numbers below 2 ^ 32, with the wrap-around written out where
-- the code computes, `nextpid` included; an `int` argument is its bit pattern.
--
-- Loops over the table and over the signals run for their constant number of rounds. The loop of
-- `handle_SIGSTOP` runs over a list with what other processes send during each `yield`; the model
-- gives no result where the process is still stopped at the end of the list. `wait` is one round of
-- its loop, and the steps of the table repeat it. `pipewrite` and `piperead` run to their next sleep,
-- and a writer that slept goes on with the bytes that are left. `strlen` has fuel: one more than the
-- length of the string is enough. The parser of the shell and `namex` have fuel too, and one more than
-- the bytes of the input is enough. `balloc` has fuel for the blocks of the free map, of which one round
-- more is enough. The loops of `readi` and `writei` have fuel too, and one round more than the bytes
-- that are moved is enough; those of directories have one round more than the bytes of the
-- directory. `printint` has the 16 bytes of its buffer. The compare-and-swap loop of `allocpid` is the
-- one step in which it succeeds.
--
-- A disk is its blocks; it may stop at any write, and the writes before it are on it. What `namex` asks
-- of directories is the record `Dirs`, which Directory/Tree makes of the inodes, and its references and
-- locks are a list of events. `iput` is its critical sections, each a step. An inode whose content is
-- read or written is a value with the disk in it; its lock is held. Code that may panic is of type `Run`
-- (Prelude/Run).
--
-- The functions of fs.c that change blocks call `log_write` for each of them. That keeps the block in
-- the cache until the commit, and it panics outside a transaction and where the log has no room. Log
-- has `log_write` itself; Balloc, Content and Directory leave its calls out, with their panics.
--
-- Not modelled: reading buffers from the disk, `ialloc` and `stati` of fs.c, page tables, devices,
-- boot code, `runcmd`, the memory of user programs, and the test programs. But for spin locks themselves, a section under a spin lock is one step (Ptable says where
-- that is more than the code's locks give), and sleep locks are events at most.
pub mod Prelude
pub mod Memory
pub mod Proc
pub mod Signal
pub mod Syscall
pub mod Ptable
pub mod Pipe
pub mod Kalloc
pub mod Strings
pub mod Log
pub mod Grep
pub mod Shell
pub mod Ftable
pub mod Icache
pub mod Spinlock
pub mod Ulib
pub mod Names
pub mod Bcache
pub mod Balloc
pub mod Content
pub mod Directory
