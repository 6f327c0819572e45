-- ===== src/Lib.antt =====
-- Verification of the AuroraOS kernel (kernel/): executable models of its components in C, translated
-- function by function, with the theorems that make them correct.
--
-- How the parts interact. A task's descriptor table holds pointers to open file descriptions, whose
-- reference counts say how many descriptors, of this and of other tasks, hold them; closing the last
-- one calls the file system's `close` and frees the file. A pipe is such a pair of files over one
-- ring of bytes; its reader and writer sleep and wake one another through the scheduler's task states.
-- The system call filter is a field of a task. A capability entry stands in the descriptor table in
-- place of the pointer to a file and adds rights to it. TCP congestion control is a table that the
-- network stack calls for each acknowledgement and timeout. The clock counts timer interrupts and is
-- read by the system calls that ask for the time. A signal is marked in the target's signal state and
-- wakes it where it sleeps; on the way back to user mode it is delivered by a frame on the user stack,
-- which the return from the handler reads back through the checked copies from user memory. The
-- scheduler keeps its runnable tasks in a red-black tree. Pages come from a buddy allocator. A block
-- device checks the range of a call before it passes it to its driver, here the RAM disk. The journal
-- writes the blocks of a transaction to its own area of such a device, then to their places in the file
-- system, and after a crash reads its area to write them again.
--
-- Files:
--   Base          shared names, Boolean tests, lists, arrays with memcpy, bits of words, C's int
--   Vfs           kernel/vfs.c: vfs_open, vfs_close, vfs_file_dup on struct file (kernel/fs.h)
--   Vfs/Refs      their effect on the reference counts
--   Fd            kernel/file.c: fd_table_init, fd_alloc, fd_get, fd_close, fd_open_path,
--                 fd_close_all, fd_dup, fd_dup2
--   Fd/Slots      how often a file stands in a table; Fd/Alloc: the lowest free descriptor;
--   Fd/Refs       descriptors as references; Fd/CloseAll, Fd/Dup, Fd/Open: the other operations
--   Pipe          kernel/pipe.c: the stretches of pipe_read, pipe_write and pipe_close under the lock
--                 (read_locked, write_locked, close_end) and after it (read_sleep, write_sleep)
--   Pipe/Bytes    the ring as a queue, and reading; Pipe/Fill: writing
--   Pipe/Calls    pipe_read and pipe_write whole; Pipe/Stream: any interleaving of steps
--   Pipe/Wakeup   who is woken; Pipe/Create: sys_pipe
--   Seccomp       kernel/seccomp.c: seccomp_set_filter, seccomp_check; Seccomp/Policy: the bit map
--   TcpCong       kernel/net/tcp_cong.c: one function for each stage of tcp_cong_on_ack, the other
--                 functions on one socket's entry, and the table; TcpCong/Ack, Timeout, Slots
--   Capability    kernel/capability.c: every function; find_task_by_pid of kernel/sched.c
--   Capability/Rights: the masks as sets of rights; Entries, Confined, Steps: what any sequence of
--                 operations grants; Slots, Transfer, Derive: what fd_send and fd_derive write
--   Rtc           kernel/rtc.c: rtc_read_time, rtc_tick_update, rtc_get_timeval; Rtc/Ticks: the uptime;
--                 Rtc/Calendar: the day count
--   Sched         kernel/sched.h and sched.c: task states, find_task_by_pid; Sched/Pids: the process
--                 numbers; Sched/Pick: the walk of schedule over the ready tree; Sched/Tick:
--                 schedule_tick, preemption, and the virtual run time that schedule charges
--   User          kernel/include/userspace.h: the checks of user ranges, copy_from_user, copy_to_user;
--                 kernel/pagetable.c: user_page_present
--   User/Words    words in memory; User/Mapped: what the checks ensure
--   Signal        kernel/signal.h, signal.c (signal_alloc) and include/trapframe.h
--   Signal/Actions: do_sys_sigaction; Signal/Send: do_sys_kill, signal_child_event;
--                 Signal/Delivery: check_signals, do_signal_default, do_sys_sigreturn
--   Signal/Delivery/Restore: a handler and its return; Killable, Sigkill: the signal that can be
--                 neither caught nor blocked; Signal/Send/Wake: whom a signal wakes
--   RbTree        kernel/rbtree.c: rotations, rb_insert; RbTree/Erase: rb_erase; RbTree/Search:
--                 rb_find, rb_find_min, rb_first, rb_next; RbTree/Search/Walk: their order
--   RbTree/Order, Insertion, Erase/Removal: the nodes in order; RbTree/Balance, Balance/Insert,
--                 Erase/Rounds, Erase/Balance: colours and black heights
--   Memory        kernel/mem.c: the buddy allocator, from buddy_mark_reserved to free_page
--   Memory/Blocks, Ready: which blocks hold a page, and the invariant; Fields, Flags: descriptors;
--                 Split, Merge, Coalesce: buddy_split and buddy_merge; Take, Alloc, Free, Boot: the
--                 other operations
--   Block         kernel/block_dev.c, kernel/ramdisk.c; Block/RoundTrip: a read after a write
--   Block/Disjoint  the sectors that a write leaves alone
--   Text          kernel/string.c: snprintf, memcpy, memset; Text/Bounds, Digits, Copy, Fill;
--   Text/Format   the text that a format stands for; Text/Expand: the buffer that gets it
--   Journal       kernel/journal.c, journal.h: the blocks, journal_begin, journal_write, advance_head;
--                 Journal/Layout: the blocks as bytes; Commit: journal_commit, journal_rollback;
--                 Recovery: journal_recover, journal_init, journal_sync and the queries
--   Journal/Store the device as an array of blocks, an interface; OnRamdisk: the RAM disk has it
--   Journal/Effects, Logged, Durable, Transaction: what a transaction leaves on the device; Fields, Area,
--                 Replay, Recovered, Crash: what recovery finds and does; Kept, Ends, Scans: when the loops
--                 end; Reopen: journal_init on what is there
--   Log           the ring of kernel/log.c; Log/Ring: what it keeps
--
-- How the code is rendered. A pointer is its address and NULL is 0, except that a pointer tested once
-- for NULL and then only read is an option. Memory is a function from addresses; a call through a
-- freed struct file is a fault, the `none` of an option, and a theorem in the form `Ensures` says that
-- there is none. What kmalloc, copy_to_user, the path lookup and a file system's own open return is
-- an argument. unsigned arithmetic has its wrap-around written out; an int is a bit pattern or ℤ. A
-- spinlock is the atomicity of the stretch that it guards. Log output is left out.
--
-- Bounds. MAX_FDS is 16, PIPE_BUF_SIZE 4096, the congestion table has 16 entries. The loops of
-- pipe_read and pipe_write run over a list of turns, one for what the other tasks do in each round;
-- a list as long as the data suffices for a write whose reader keeps making space. The clock is polled
-- 10000 times at most, as in the code. The loop over the pages of a user range has one unit of fuel for
-- each byte and one more; User.Mapped shows that this is enough. The loop of buddy_merge is bounded by
-- MAX_ORDER less the order of the page, as in the code, and the repair loops of the red-black tree by
-- the number of ancestors. The loop of advance_head in kernel/journal.c has fuel for one round more than
-- the head is large, and the scan of journal_recover for a round at each position from the tail to the
-- head; Journal.Scans shows that this is enough, and Journal.Ends that it is where no descriptor on the
-- device claims 2 ^ 32 - 2 blocks, with which the loop of the code does not end either.
--
-- Not modelled: the rest of kernel/vfs.c (path lookup, dentries, mounts); the components that the
-- kernel has beside these (file systems, drivers, network protocols, shell); of kernel/mem.c the
-- slab lists, buddy_coalesce_all and the reading of the boot information; of kernel/sched.c the
-- creation and the end of tasks, waiting for children, and the queues of several processors; of
-- kernel/pagetable.c all but the walk to a page; strncpy_from_user; the formatting of messages in
-- kernel/log.c; the 64-bit length limit of a single read or write; a device
-- whose state a read or a failed write changes, or with sectors of 0 bytes; a NULL task pointer in kernel/file.c; the text that kernel/rtc.c formats; of kernel/string.c
-- the comparisons, strlen and the copies of strings, a NULL buffer or format of snprintf, and strings
-- that lie in its buffer.
pub mod Base
pub mod Sched
pub mod User
pub mod Vfs
pub mod Fd
pub mod Pipe
pub mod Seccomp
pub mod TcpCong
pub mod Block
pub mod Text
pub mod Journal
pub mod Log
pub mod Capability
pub mod Rtc
pub mod Signal
pub mod Memory
pub mod RbTree
