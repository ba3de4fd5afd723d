-- ===== src/Lib.antt =====
-- Verification of the Kalisto kernel, a small operating system for MIPS.
--
-- The parts and how they interact. The kernel keeps its queues in circular lists whose links stand
-- inside the items (LinkList.antt, kernel/adt/list.h). The heap (Malloc.antt, kernel/mm/malloc.c)
-- serves every other part; it takes frames from the frame allocator and tiles them with blocks. An
-- address space is a table of areas (Vmm.antt, kernel/mm/vmm.c), from which the processor's TLB is
-- filled (Tlb.antt, kernel/mm/tlb.c). Threads move between the list of runnable threads and sleep,
-- and timers wake them up (Threads.antt: kernel/proc/thread.c, kernel/sched/sched.c,
-- kernel/time/timer.c; Time.antt: kernel/time/time.h); a new thread takes its memory from the heap
-- (Threads/Create.antt), and a process is made of such a thread and its structures (Processes.antt,
-- kernel/proc/process.c). Words that processors share are changed by atomic operations (Atomic.antt,
-- kernel/adt/atomic.h). Memory is copied and cleared byte by byte (Strings.antt,
-- kernel/lib/string.c). The keyboard's interrupt fills a ring of keys that threads read
-- (Keyboard.antt, kernel/drivers/kbd.c); interrupts reach it and the scheduler through one handler
-- (Interrupts.antt, kernel/exc/int.c). Messages are formatted in a buffer of the
-- stack and printed (Print.antt, kernel/lib/print.c). Red-black trees (RbTree.antt,
-- kernel/adt/rbtree.h and kernel/adt/rbtree.c) order nodes by keys. Common.antt has the shared names:
-- tests on numbers, lists, commands over a state, 32-bit words, and bit operations as arithmetic
-- (Common/Bits.antt).
--
-- How code becomes definitions. A function of the code is a definition of the same name; a name
-- that the code uses as a macro or a local step has one of its own. A function that changes state
-- is a command from a state to a result with the new state, where `none` is a failed assertion, a
-- panic or an access through NULL. Integers of the machine are natural numbers with their
-- wrap-around written out (`add32`, `sub32`, `% 2 ^ 32`). Since the code disables interrupts around
-- each access to shared structures, a call on one processor is one step; a call that switches to
-- another thread is a step up to the switch and, where it has something left to do, another one from
-- there.
--
-- LinkList: the store maps an address to the links `prev` and `next`; LinkList/Ring says what a
-- well-formed list is, LinkList/Insert and LinkList/Remove treat the operations.
-- Malloc: memory maps the address of a field to its value. Malloc/Blocks has the well-formed blocks,
-- Malloc/Fit the walk for a block, Malloc/Merge what `free` does in a heap, Malloc/Settled free
-- blocks that are never side by side, Malloc/Sizes the sizes, Malloc/Heaps the search through all
-- heaps, Malloc/Setup a new heap, Malloc/Calls `malloc` and Malloc/FreeCall `free` as a whole, and
-- Malloc/Tidy the invariant of both; Malloc/RoundTrip puts one behind the other.
-- Vmm: Vmm/Find the translation, Vmm/Map the making and removing of areas, Vmm/Check the check of
-- user addresses.
-- Tlb: the registers and the buffer; Tlb/Refill is about what the buffer holds after each call.
-- Print: Print/Digits numbers as digits, Print/Writes the buffer, Print/Conversions all conversions.
-- Threads: Threads/Switch who runs after each call, Threads/Expiry the search for expired timers.
-- Threads/Queue says when the list of runnable threads is right, Threads/Data what the calls leave of
-- a thread's data, Threads/Leave treats threads that leave the list and come back, Threads/Turns and
-- Threads/Stops how the others come forward in it; Threads/Calls joins the calls of the running thread
-- and the scheduler's interrupt, and Threads/Reach their runs in any order. Sleeping and the handlers
-- of expired timers are not among these calls. Threads/Create has the creation of a thread over the
-- heap and the scheduler, with Threads/Create/Started for enough memory and Threads/Create/Refused
-- for a thread without memory for its stack.
-- Atomic: each processor's loop takes its steps between those of the others; Atomic/Order puts the
-- operations into an order, Atomic/Lock is about a lock.
-- Processes: definitions only. Strings: the loops on memory. Keyboard: Keyboard/Fifo relates the
-- ring to a queue; the code takes 0 for every key. Interrupts: Interrupts/Served is about the handler.
-- RbTree: the fields of all nodes in a store. RbTree/Shape says what tree they form, or what stands
-- above and beside a place in it; RbTree/Place moves between places, RbTree/Rotation,
-- RbTree/RotateLeft and RbTree/RotateRight treat links and rotations, RbTree/Colors the red-black
-- condition. Insertion is in RbTree/Insertion, and RbTree/Recolor, RbTree/Boundary, RbTree/Rebalance,
-- RbTree/Climb, RbTree/Fits and RbTree/Attach treat its steps. Deletion is in RbTree/Deletion;
-- RbTree/Sides has trees seen from one side, RbTree/Borrow, RbTree/Descend, RbTree/Round, RbTree/Lift
-- and RbTree/Sink the rounds of its rebalancing, RbTree/Settle the rebalancing as a whole, RbTree/Cut,
-- RbTree/Replace, RbTree/Ways and RbTree/Successor the cutting of the node, RbTree/Delete the call.
-- RbTree/Search is about search, and RbTree/Walk about the nodes in order.
-- The modules called Tests run the definitions on small states.
--
-- Fuel. The walk over the blocks of a heap has one more than the distance to its end, which is
-- enough since every block has at least the size of a header and a footer. The digits of a number
-- have 32, the size of the code's array, enough for 32 bits in base 2. The search through the timers
-- takes its fuel as an argument; any number above that of the timers is enough. The loops on trees
-- do so too; more than the number of nodes is enough.
--
-- Not modelled: the frame allocator, semaphores and the larger bitmap operations have no source and
-- are parameters where they are used, and so are what the processor's TLB instructions do and the
-- queue of threads that wait for a key. Left out are the other drivers, synchronisation, the stubs
-- that new threads of processes run, exceptions but interrupts, system calls, single bits of bitmaps,
-- `atomic_set`, start-up code and tests.
pub mod Common
pub mod LinkList
pub mod Malloc
pub mod Tlb
pub mod Vmm
pub mod Atomic
pub mod Strings
pub mod Keyboard
pub mod Processes
pub mod Interrupts
pub mod Print
pub mod Time
pub mod Threads
pub mod RbTree
