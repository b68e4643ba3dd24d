-- ===== src/Lib.antt =====
-- The kernel's lists, its threads and their scheduling, the primitives for synchronisation and
-- communication that stand on them, its heap and its page tables, and the functions on strings and
-- numbers of its C library.
--
-- src/core/kernel_list.c keeps doubly linked lists in order of priority. src/core/scheduler.c puts
-- threads in such lists: the table of active threads, and the waiting threads of each semaphore
-- (src/sync/semaphore.c), mutex (src/sync/mutex.c), mailbox (src/comm/mailbox.c) and queue
-- (src/comm/queue.c); beside them the tables of sleeping, of ended and of all threads, and the children
-- of each thread. A primitive locks its object, waits in a loop while it cannot go on
-- (`lock_thread`, `kernel_list_enlist_data`, `schedule`), changes the object, and wakes threads
-- (`kernel_list_delist_data`, `unlock_thread`).
--
-- Base: shared names, lists measured by native numbers. Run: commands over a state, with the faults
-- and panics of C code as results. Err: `OS_RETURN_E`. Samples: test data.
-- KernelList: core/kernel_list.c over an explicit heap of nodes and headers; in its child modules the
-- list that a heap holds (Chain), the walk and the writes of enlisting (Walk, Place, Splice, Enlist),
-- those of leaving a list (Unlink, Delist, Seek, Remove), Find, Nodes, and the order by priority (Order).
-- Kernel: the scheduler's variables, src/sync/lock.c and the nesting of disabled interrupts of
-- src/core/interrupts.c. Blocking: `lock_thread`, `unlock_thread`, and the loops that the primitives
-- share; its children say what blocking (Block), waking (Wake, WakeOne, Waiters, WakeAll) and a whole
-- waiting call (Call) come to, and from which state a call that waited goes on (Resume). Semaphore, Mutex, Mailbox, Queue: one function for each of the source's.
-- Scheduler: `select_thread`, `schedule_int` with the dynamic priorities, and `sleep` of
-- src/core/scheduler.c; its children treat the sleeping threads (Sleepers), the threads that entries
-- carry (Live), the choice (Select), the whole of `select_thread` (Next) and the dynamic priorities
-- (Aged, Aging, Round, Age). ThreadLife: `create_thread` (Create, Fail), `wait_thread` and `clean_joined_thread`
-- (Forget, Join). ThreadExit: `thread_exit` (Release, Orphan). ThreadInfo: `get_threads_info` (Fill). ThreadSamples: test data for these.
-- Interrupts: the table of handlers of src/core/interrupts.c (Register, Reach).
-- Allocator: src/memory/heap.c. Ring and Relink treat its circular lists, Members lists of chunks, Bins
-- the free lists by size, Chunks the chunks in the order of their addresses and the invariant; Slot and
-- Find the choice of a bin, Cut the cutting of a chunk, Kmalloc and Allocated the whole of `kmalloc`;
-- Absorb, JoinNext and JoinBefore the joining of free chunks, Between the neighbours of a chunk, Kfree the
-- whole of `kfree`; Setup `setup_kheap`, Calls calls one after another.
-- Paging: src/memory/paging.c. Bits treats the bits of an entry, View the entry that a page has, Map and
-- Unmap `kernel_mmap` and `kernel_munmap`, Start and Identity `init_paging`.
-- VgaText: the text screen of src/drivers/vga_text.c, with what printing writes (Writes) and where the
-- cursor can go (Bounds). An index behind the end of the array `last_columns` is an invalid access.
-- Bytes: a memory of characters. MemoryBlock: the functions mem* of src/lib/string, with `memset` (Fill),
-- `memcpy` and `memmove` (Copy) and `memmem` (Search). Strings: the functions str* of src/lib/string
-- (Length, Compare, Join, Span). Number: `uitoa` and `itoa` of src/lib/stdlib (Digits, Print).
-- Module names apart, a function has the source's name, less the prefix `kernel_list_`.
--
-- The state. An object lies at an address; a read or a write through `NULL` or at an address that
-- holds no object is a fault. `self` is the semaphore, mutex, mailbox, queue or table of interrupt
-- handlers that a call works on; its address is not modelled, a call with `NULL` has the argument `nothing`. The memory that a
-- queue's `container` points at is a list of as many slots as were allocated. An unsigned number of
-- 32 bits is a natural number with its wrap written out; the level of a semaphore, an `int32_t`, is
-- its bit pattern, negative from 2^31 on. An enlisting priority is cut to 16 bits, as the parameter
-- of `kernel_list_enlist_data` is.
--
-- Interleaving. What happens from a call of `schedule` until the calling thread runs again is any
-- function from kernel state to kernel state (`Switch`); a call of a waiting function is given the
-- list of those that happen to it, and stays blocked once the list is used up. Interrupts are
-- disabled while a lock is held, so nothing happens elsewhere.
--
-- Fuel. A walk along a list is given fuel; more fuel than the list has entries is enough, which the
-- theorems on the walks ask for and prove enough. The destroying functions' loops are given rounds
-- in the same way.
--
-- A walk along a text takes more fuel than the text has characters, `memmem` more than there are places
-- to try, and `uitoa` more than the 32 digits that a number of 32 bits can have.
--
-- The library works on one memory of bytes, where addresses do not wrap. Its assembly is written out as
-- the instructions do it: `rep stosl` and `rep movsl` a word at a time, the rest byte by byte.
--
-- The allocator is modelled on its own: the lists above it take the results of their calls of `kmalloc`
-- as a list of addresses. The `list_t` of a chunk is named by the chunk's address, in one map for the
-- list of all chunks and one for the free lists. A slot takes at most 32 rounds, as a number of 32 bits
-- does. The loops over pages take more fuel than the range has pages.
--
-- Not modelled: the registers, stacks, names, routines and times of threads, the start of the scheduler, the tick and
-- the end-of-interrupt signal; the choice of the interrupt controller, the reading of
-- the boot loader's memory map, the processor's control registers, start-up, the other drivers,
-- the graphical interface and formatted output. `get_current_uptime` is a parameter, `current_time`. Output for debugging is left
-- out, and so are the lock's own fields, which are not used when KERNEL_MONOCORE_SYNC is defined, as it is.
pub mod Base
pub mod Run
pub mod Err
pub mod KernelList
pub mod Kernel
pub mod Allocator
pub mod Blocking
pub mod Scheduler
pub mod ThreadLife
pub mod ThreadExit
pub mod Bytes
pub mod Number
pub mod MemoryBlock
pub mod Strings
pub mod Interrupts
pub mod ThreadSamples
pub mod ThreadInfo
pub mod Semaphore
pub mod Mutex
pub mod Mailbox
pub mod Paging
pub mod VgaText
pub mod Queue
pub mod Samples
