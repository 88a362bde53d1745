-- ===== src/Lib.antt =====
-- Pixy is a C library of cooperative fibers with blocking I/O, timers and semaphores. This library
-- models its data structures and its scheduling, and proves what makes them correct.
--
-- The parts, and the files that model them:
--   Source/List.h: intrusive circular lists. Links.antt has each function over a store of links;
--     Links/Ring.antt says which sequence of items a list head stands for.
--   Source/List.c: the sorting of a list. Links/Sort.antt; Links/Sorted.antt says what a sorted
--     list is, Links/Partition.antt is about the loop, Links/Quicksort.antt about the recursion.
--   Source/Scheduler.c, Source/Scheduler.h: fibers and the switch between them. Scheduler.antt.
--     Scheduler/Stack.antt has the block of a fiber and its stack.
--   Source/Semaphore.c, Include/Semaphore.h: Semaphore.antt, over the scheduler.
--   Source/Event.c, Include/Event.h: Event.antt, over the scheduler.
--   Source/Vector.c, Source/Vector.h: growing arrays. Vector.antt, over bytes; Vector/Size.antt
--     is about NextPowerOfTwo, Vector/Lengths.antt about Vector_SetLength; Vector/Words.antt reads
--     the pointers of a vector from its bytes.
--   Source/Heap.c, Source/Heap.h: a binary heap in segments of 256 slots. Heap.antt has the operations;
--     Heap/Stored.antt reads the slots as a sequence, Heap/Order.antt has the order of the heap,
--     Heap/Sift.antt and Heap/Down.antt the two loops, and Insert, Remove and Adjust the operations.
--   Source/Async.c, Source/Async.h: calls that wait. Async.antt.
--   Source/Timer.c, Source/Timer.h, Source/Utility.h: Timer.antt, over the heap and the calls.
--   Source/MemoryPool.c, Source/MemoryPool.h: MemoryPool.antt; MemoryPool/Prefix.antt
--     has the order of the chunk list, Slots the chain of free slots of a chunk, Chains the chains of a
--     pool, Blocks, Free, Fresh and Given are about the operations.
--   Source/IOPoller.c, Source/IOPoller.h: IoPoller.antt, over the pool, the vector and the calls;
--     IoPoller/Kept.antt has the invariant, Change, Begin, Fit, Set, Stored, Undone and Absent are about the
--     operations, Update, Round, Settle, Calls and Tick about the tick; Descriptor has the epoll
--     descriptor.
--   Source/ThreadPool.c, Source/ThreadPool.h: ThreadPool.antt has what a thread does with the mutex
--     held, ThreadPool/Steps.antt the steps of the threads in any order, ThreadPool/Setup.antt the pipe,
--     ThreadPool/Posix.antt the calls of POSIX threads.
--   Source/IO.c, Include/IO.h: Io.antt has the calls with their loops, over a record of what they
--     stand on; Io/Wait.antt has WaitForFD and its callbacks, over the poller, the timer and the
--     scheduler; Io/Work.antt the calls that the thread pool does.
--     Io/Woken.antt and Io/Limited.antt are about WaitForFD without and with a time limit, Io/Lost.antt
--     about the callback of the time limit.
--   Source/Runtime.c, Include/Runtime.h: Runtime.antt has the calls of the fibers and a turn of the
--     main loop, over the scheduler, the poller, the timer and the calls; Runtime/Main.antt has main
--     and its loop, Runtime/Start.antt is about the first fiber.
--   Source/Logging.c, Source/Logging.h, Source/Atomic.h: Logging.antt.
-- The scheduler, the semaphore, the event and the memory pool hold their lists as sequences, in
-- the way that Links.Ring relates sequences to links; an item that is unlinked must be in the
-- list, or the operation fails. A stack switch (inline assembly, setjmp, longjmp) is a value that
-- says where execution goes on, and an operation that suspends its caller is cut there in two. What is
-- stored in the stacks, the Valgrind hooks, and the null-pointer assertions are not modelled.
-- Counters of type int stay within the number of fibers, and a semaphore's value within its
-- bounds, so no wrap-around is modelled there. The loops of the heap run on fuel: the slot number
-- on the way up, which each round makes smaller, and the number of nodes on the way down, where
-- each round makes the slot number larger. The loop of Timer_Tick has the number of timeouts as
-- fuel, since each round removes one. So the fuel does not run out. malloc, posix_memalign,
-- realloc and the clock are parameters; a segment that malloc gives is assumed to be none of those
-- in use, and realloc to keep the bytes that the old and the new block both have. The comparer of
-- a heap is a parameter too, and is assumed to order the nodes by a number, as that of the timer
-- does by the due time. A system call of an I/O call is made again on fuel, `tries` while it is
-- interrupted and `rounds` while it would block; Io.Returns says how much is enough where the system
-- does not interrupt and block forever. A descriptor is below INT_MAX where the event vector grows, since the
-- code adds 1 to it in an int. The vectors of the heap and of the calls are grown as the code does it,
-- and their pointers are functions of the index, which the growth leaves as they are. The I/O calls see WaitForFD as a parameter, with all that the
-- other fibers do meanwhile; epoll is a parameter that keeps an interest list; where epoll_wait
-- fails with an error other than EINTR the program ends. The mutex
-- of the thread pool makes what a thread does with it held one step; which waiting threads a signal
-- wakes is open. The loop and the recursion of List_Sort run on fuel too, of which more than
-- the number of items is enough. The loop of main runs on fuel, one for each return of Scheduler_Tick;
-- it ends when no fiber is left, which depends on the fibers. Not modelled: the macros of
-- Source/Utility.h and Include/Noreturn.h, and the programs in Sample, which only use the library.
pub mod Base
pub mod Links
pub mod Scheduler
pub mod Semaphore
pub mod Vector
pub mod Heap
pub mod Event
pub mod Async
pub mod Timer
pub mod MemoryPool
pub mod IoPoller
pub mod ThreadPool
pub mod Io
pub mod Runtime
pub mod Logging
