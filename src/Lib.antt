-- ===== src/Lib.antt =====
-- A verification library for the xv6 kernel with a multi-level feedback queue, and for some of its
-- user programs.
--
-- The kernel keeps its processes in `ptable` (proc.c): 64 slots, and four queues of runnable
-- processes chained through `next`. Every call takes `ptable.lock` (spinlock.c), changes the table and
-- the queues, and lets go; the scheduler of each CPU sweeps the queues from level 0 on. The
-- file system writes the disk by transactions of the log (log.c); pipes (pipe.c) put a process to
-- sleep and wake it by the calls of proc.c; pages come from kalloc.c; and user programs enter by
-- the calls of syscall.c. Open files (file.c) refer to pipes and to inodes (fs.c).
--
-- The files, and the code that they model:
--   Base             the shared types, tests, lists and numbers. `Outcome` is the result of a kernel
--                    function that may panic, or do what C leaves undefined. ℤ is an `int` that
--                    does not overflow.
--   Proc.State       proc.h, and `ptable` of proc.c. A pointer to a process is its index.
--   Proc.Queue       proc.c: up, down, encolar, desencolar, make_runnable, make_running and
--                    set_priority. Proc.Queue.View has the invariant `IsValid t v`: the table `t` is
--                    well formed and its queues hold the lists of `v`.
--   Proc.Sched       proc.c: allocproc, wakeup1, kill, yield, sleep, exit, wait and the loop of
--                    scheduler. Each is its section under `ptable.lock`, up to its call of sched;
--                    the address of a process as a channel is a parameter.
--                    What userinit, fork and exec do to the table is there too; the pages come from
--                    outside, and `nextpid` does not overflow.
--   Proc.Reach       the steps that lead from the table at boot to all others.
--   Spinlock         spinlock.c and the locking fields of proc.h.
--   Kalloc           kalloc.c; `end`, which the linker sets, is a parameter.
--   Strings          string.c, but for strlen and memcpy.
--   Pipe             pipe.c; a call that sleeps returns what is left of it, and is called again.
--   Log              log.c, and of bio.c what a reader of a sector sees: that the
--                    cache has a buffer for it is assumed. The disk writes whole sectors,
--                    one after another; a crash keeps the first k writes.
--   Syscall          syscall.c and syscall.h; the memory of the process is a function.
--   File             file.c and the descriptors of sysfile.c; `writei` in its transaction is a parameter.
--   Icache           the inode cache of fs.c; `itrunc` is a parameter, and inodes on the disk are seen
--                    through bread and log_write.
--   Fs               fs.c above the log: the state is the bytes of each block, as `bread` shows them and
--                    `log_write` changes them. Fs.Alloc has balloc and bfree; Fs.Bmap has bmap and the loops of
--                    itrunc; Fs.Content has readi, writei and itrunc of an inode in use; Fs.Logging has log_write as
--                    writei sees it: the sectors of the open transaction, and the panics when it is full
--                    or closed (readi and itrunc do not track it, and in the loop of writei what bmap
--                    logs is logged after it has run); Fs.Dir has
--                    dirlookup and dirlink, which give and take numbers of inodes, and leave iget and iput
--                    to the caller; Fs.Path has skipelem; and Fs.Namex has namex, which composes them with
--                    the inode cache. A walk that has to sleep returns what is left of it.
--   Vm               vm.c: page directories and tables as words of memory, over the allocator of Kalloc.
--   Userlib          user/ulib.c (strcmp, strlen, strchr, atoi) and printint of user/printf.c.
--   Bcache           bio.c: binit, bget and brelse, over the list of the buffers.
--   Trap             trap.c and calls of sysproc.c; the drivers and the system call are parameters.
--   Grep             the matcher of user/grep.c.
--   Tests            the theorems at concrete inputs.
-- A file or folder below one of these holds the proofs about it.
--
-- Loops over an array recurse on the slots that are left, loops over a string on its bytes.
-- `write_chunks` of File stops at fuel: one more than the bytes left is enough.
-- `digits_from` of Userlib has as much fuel as the buffer has bytes, 16, and a number of 32 bits has ten
-- decimal digits.
-- `scan_blocks` of Fs.Alloc has one unit of fuel more than the bitmap has blocks, `read_loop` and
-- `write_loop` of Fs.Content have one for each byte, and `find_entry` of Fs.Dir has one more than there are
-- entries.
-- `walk` of Fs.Namex has one unit of fuel more than the path has bytes.
-- `map_pages` of Vm has one unit of fuel for each page, `drop_pages` and `add_pages` one more than there are
-- pages below the larger size.
-- `free_pages` of Kalloc has one unit of fuel for each page below `vend`, and one more.
--
-- Not modelled: ialloc and stati of fs.c and the file system calls; of vm.c, the kernel's part of
-- a page table, loaduvm, copyuvm and copyout; program loading, the console and the other devices, boot,
-- the image builder, the rest of the user library, the shell and the other user programs. Of
-- proc.c: growproc, the copy of memory, files and frames in fork, forkret, procdump and sizeLevels.
-- Machine registers are left out.

pub mod Base
pub mod Bcache
pub mod File
pub mod Fs
pub mod Grep
pub mod Icache
pub mod Kalloc
pub mod Log
pub mod Pipe
pub mod Proc
pub mod Spinlock
pub mod Strings
pub mod Syscall
pub mod Tests
pub mod Trap
pub mod Userlib
pub mod Vm
