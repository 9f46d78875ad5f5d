-- ===== src/Lib.antt =====
-- disastrOS with blocking queues: a library about the code in coda-bloccante-implementata/, a small
-- operating system in one Unix process. Its processes are user contexts; a system call switches to the
-- kernel, which looks up the handler and changes the lists of processes; a timer signal does the same
-- with an interrupt handler. All objects come from static pools and are linked in intrusive lists.
--
-- Files:
--   Base.antt        names shared by all others; integers, machine integers and lists
--   Run.antt         runs of C code over a state: a value and a state, a fault, or no answer within
--                    the rounds that a loop is given
--   LinkedList.antt  linked_list.c: List_init, List_find, List_insert, List_detach, List_popFront,
--                    List_pushBack and List_pushFront over a memory of items
--   PoolAllocator.antt  pool_allocator.c: PoolAllocator_init, _getBlock and _releaseBlock
--   Kernel.antt      the globals of disastrOS.c and disastrOS_globals.h and the objects' records;
--                    Kernel/Lists.antt the insertions into and removals from the lists of processes
--   Pcb.antt, Timer.antt, Resource.antt, Descriptor.antt, BQueue.antt  the modules of the same names
--                    in C, disastrOS_pcb.c to bqueue.c: their pools, allocation, release and search
--   Syscall/*.antt   the handlers internal_... of the system calls, a file for each C file:
--                    Schedule (also disastrOS_preempt.c), Sleep, Fork (also disastrOS_spawn.c), Wait,
--                    Exit, Resources (open, close and destroy), BQueue and Shutdown
--   Interrupt.antt   timerInterrupt of disastrOS.c; Interrupt/Handler.antt timerHandler and the switches
--                    around the interrupt
--   Scan.antt        the scans of lists by a key, against one description
--   Trap.antt        disastrOS_syscall and disastrOS_trap of disastrOS.c; Trap/Table.antt the tables that
--                    disastrOS_start fills, Trap/Api.antt the functions that processes call
--   Start.antt       disastrOS_start of disastrOS.c
--   Constants/*.antt the error values and the numbers of system calls of disastrOS_constants.h
--   Tests/*.antt     runs on small inputs, and the theorems at concrete inputs
--
-- How the parts interact: the handlers work on one record, Kernel, that holds the pools, the memories
-- of objects by address and the lists. A list is the sequence of its items' addresses there;
-- LinkedList/Sequence.antt shows that the functions on linked items act on such sequences as append,
-- cons and erase. A pool's clients know it by its set of live blocks (PoolAllocator/Live.antt), and by
-- the blocks that they have given back (PoolAllocator/Frees.antt). A blocking queue is known as an
-- unbounded first-in first-out queue (Syscall/BQueue/Fifo.antt).
--
-- Bounds and rounds: an `int` is an integer between -2^31 and 2^31 - 1 and a conversion to `int` or to
-- a pointer wraps (Base/Word.antt); counters of pids, descriptors and list sizes are not wrapped. A
-- scan of a linked list takes a number of rounds, and one more than its length is enough; so does the
-- loop of internal_exit over children, and one more than there are children is enough for a process
-- other than the first one, for which the loop does not end. Every other loop is recursion on the list
-- that it runs through.
--
-- Not modelled: stacks, registers, the context of the first process, the set-up of signals
-- (sigaction), all printing, and the test programs. A process's saved processor state is known as one
-- that the machine has saved, or as the start of a function with an argument (makecontext in
-- internal_spawn). A switch of contexts is the context in which the machine goes on; of the log the
-- trap keeps that it reads the running process. An access that C leaves undefined is a fault: through
-- null, outside the free list's array, and on a list that an item is not on or is on already.
pub mod Base
pub mod Run
pub mod LinkedList
pub mod PoolAllocator
pub mod Constants
pub mod Kernel
pub mod Pcb
pub mod Timer
pub mod Resource
pub mod Descriptor
pub mod BQueue
pub mod Syscall
pub mod Scan
pub mod Interrupt
pub mod Trap
pub mod Start
pub mod Tests
