-- ===== src/Lib.antt =====
-- Verification of the xv6 kernel in xv6-public/: the process table and the multi-level feedback
-- queue scheduler of project 2, the write-ahead log of the file system, pipes, the page allocator,
-- the buffer cache, the block bitmap, inodes and their table in memory, directories, path names,
-- the table of open files, system call arguments, spin locks, and the string routines.
--
-- Base: integers, arrays, sums and counts over them, memory and its words, searches and outcomes
-- that the other parts share.
--
-- Proc: the process table (xv6-public/proc.c, proc.h). Proc/Table has `struct proc` and the
-- globals as records; a pointer into `ptable.proc` is an index. Proc/Create has `allocproc`,
-- `userinit` and `fork`, Proc/Finish `exit` and `wait`, Proc/Sleep `sleep`, `wakeup`, `yield` and
-- `kill`. A section under `ptable.lock` is one function from a state to a state. A call that
-- switches to another process (`sched`) cuts a routine in two. `exit` is two functions,
-- `exit_begin` up to the change of `moq_cnt` and `exit_end` from the lock on, since the calls
-- between them sleep. Calls into the memory allocator and the file system are values of `Effect`,
-- listed in the order in which they are made.
--
-- Mlfq: the scheduler (proc.c) and the clock (xv6-public/trap.c). Mlfq/Queues has `can_mlfq` and
-- `next_proc`, Mlfq/Calls the system calls and `priority_boosting`, Mlfq/Scheduler a round of
-- `scheduler`, Mlfq/Trap the timer interrupt and the tests of the quantum, cut at each `yield`.
-- Mlfq/RoundRobin, Priority, Choice and Rounds say which process is picked. Mlfq/Counter compares
-- `moq_cnt` with the monopoly queue for each routine, Mlfq/Steps for all of them in any order, and
-- Mlfq/Leave draws the consequences. There `exit` and `setmonopoly` are two steps each,
-- `exit_begin` and `exit_end`, `enter_queue` and `count_entry`, with steps of other processes
-- between them; a record `Calls` says which processes are in `exit` and how many calls of
-- `setmonopoly` are halfway. Mlfq/Placed has the queue positions in the same way. Mlfq/Demotion
-- follows one process through a clock tick. The loops over the table run `NPROC` rounds, one for
-- each slot.
--
-- Log: the log (xv6-public/log.c). Log/Store is the disk under it, with a cache and with power for
-- a given number of block writes, so that a crash after any write is a run with less power.
-- Log/Commit has the routines that move blocks, Log/Calls has `begin_op`, `end_op` and
-- `log_write`. Log/View is the logical content of a disk; Log/Header, Writes, Install, Recovery,
-- Crash and Atomic follow a commit through a crash and a restart; Log/Budget is the admission
-- rule.
--
-- Pipe: the ring of bytes of a pipe (xv6-public/pipe.c). Pipe has the routines, where a pass of a
-- reader or a writer runs until it returns or sleeps; Pipe/Window has the queue of bytes that the
-- ring stands for, Pipe/Bytes one pass against that queue, Pipe/History all passes in any order.
--
-- Kalloc: the allocator of physical pages (xv6-public/kalloc.c). Kalloc has `freerange`, `kfree`
-- and `kalloc` over the words that link the free pages; Kalloc/Pages sees them as a list,
-- Kalloc/Owners has the steps of those who hold pages, Kalloc/Range the pages that boot puts on
-- the list. The loop of `freerange` runs on fuel, as many rounds as there are pages before its
-- end.
--
-- Bio: the buffer cache (xv6-public/bio.c) over the disk in memory of xv6-public/memide.c. Bio has
-- the routines on the array of buffers and its list; Bio/Chain, Ring and Start see the links as a
-- list of all buffers, most recently used first; Bio/Scan and Got say which buffer `bget` returns.
-- Bio/Coherent lets processes use the cache in any order and follows what each block was last
-- given; Bio/Coherent/Used draws the consequences. The loops over the list run one round more than
-- there are buffers. Locks has the sleep locks (xv6-public/sleeplock.c).
--
-- Spin: the spin locks of several CPUs (xv6-public/spinlock.c). Spin/Nesting follows the interrupt
-- flag through `pushcli` and `popcli`, Spin/Matched the count of each CPU through all steps in any
-- order, and Spin/Exclusion draws the consequences.
--
-- Fs: the file system (xv6-public/fs.c, fs.h) inside a transaction, on the blocks that the buffer
-- cache gives. Fs has the bitmap routines; Fs/Bits has the bits of a byte, Fs/Bitmap and Blocks
-- say what `balloc` and `bfree` do to the bitmap, Fs/Free counts the free blocks, Fs/Holders has
-- the steps of those who hold blocks. The loop of `balloc` runs as many rounds as the bitmap has
-- blocks, and one more.
--
-- Inode: the content of inodes (fs.c, fs.h, file.h), on the blocks of Fs. Inode has `bmap`,
-- `iupdate`, the read of an inode from the disk in `ilock`, `readi` and `writei`, and Inode/Trunc
-- has `itrunc`. Inode/Slots sees the direct blocks, the entries of the indirect block and the
-- indirect block as 141 slots; Map, Grow and Bmap follow them through `bmap`, Content, Wrote,
-- Chunk, Loop and Write through `writei`, Read through `readi`, Freed, FreeLoops and Truncated
-- through `itrunc`; Stored and Disk have the inodes on the disk. A loop over a file moves a byte
-- at least in a round, so that it runs one round more than bytes are asked for.
--
-- Icache: the table of inodes in memory (fs.c, file.h): `iget`, `idup`, `ilock`, `iput` and
-- `ialloc`. Icache/Find says what `iget` finds, Counts and Holders follow the references through
-- all calls in any order, Last has the end of an inode through `iput` and `itrunc`, Alloc a new
-- one. The loop of `iget` has `NINODE` rounds, that of `ialloc` one for each inode of the disk.
--
-- Dir: directories (fs.c, fs.h): `dirlookup` and `dirlink` over `readi` and `writei`. Dir/Lookup
-- and Named say what is found, Link and Linked what a new entry leaves. A loop moves on by an
-- entry in a round and has as many rounds as the directory has bytes, and one more.
--
-- Paths: path names (fs.c). Paths has `skipelem` and `namex` over what the directories hold, a
-- parameter; Paths/Names has the names between the slashes of a path, Paths/Walk the walk along
-- them. The loop of `namex` has a round for each byte of the path, and one more.
--
-- Files: the table of open files (xv6-public/file.c) and the descriptors of the processes
-- (xv6-public/sysfile.c, and the loops of `fork` and `exit`). Files/Pipes has `sys_pipe` with the
-- part of `pipealloc` that is on the table. Files/Counts counts the descriptors that name a file,
-- Files/Moves follows the count through each assignment, Files/Returns, Loops and PipeReturns
-- through each call, and Files/Used through all calls in any order. The loops run `NFILE` or
-- `NOFILE` rounds.
--
-- Syscall: the fetching of system call arguments (xv6-public/syscall.c). Syscall has the routines,
-- Syscall/Fetch what their checks let through. The loop of `fetchstr` runs to the end of the
-- memory of the process.
--
-- Strings: xv6-public/string.c on a memory of bytes. Strings/Move has `memmove`, Strings/Fill
-- `memset`, Strings/Text the routines on texts that end in a NUL. `strlen` runs on fuel, which is
-- enough where it is above the length of the text.
--
-- Assumptions: one CPU, on which `x++` and `x--` of a global are one instruction and whose
-- interrupts do not come between the tests of a round of `scheduler`; `int` counters do not
-- overflow; a page or page directory is its address, and what `kalloc`, `setupkvm` and `copyuvm`
-- return is an argument. The disk writes a block whole or not at all, and in Log what `bread`
-- returns is the last `bwrite` or change of the block.
--
-- Not modelled: the stacks and contexts that `swtch` exchanges, device drivers, boot, and
-- printing; virtual memory, reading and writing by descriptors, and the user programs.
pub mod Base
pub mod Proc
pub mod Mlfq
pub mod Log
pub mod Bio
pub mod Dir
pub mod Files
pub mod Fs
pub mod Icache
pub mod Inode
pub mod Kalloc
pub mod Locks
pub mod Paths
pub mod Pipe
pub mod Spin
pub mod Strings
pub mod Syscall
