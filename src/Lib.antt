-- ===== src/Lib.antt =====
-- The runtime of the Picasso language, the C library that compiled programs run on.
--
-- A program runs as tasks on a few scheduler threads. Each thread has an arena; `allocate` and `release`
-- cut memory from its heaps. The collector stops the tasks, marks the chunks that stacks and registers
-- point into and releases the others. Tasks wait in queues: the ready queue of a thread, the rings of
-- tasks that wait for input and output and of the roots of the collector, and the queues of the locks.
-- Programs reach the locks, the atomic cells and the strings directly.
--
-- The parts and where they are modelled:
-- - Alloc: runtime/src/alloc.c, runtime/headers/alloc.h. Memory is a function from addresses to 64-bit
--   words, and a chunk is two header words and its payload, as in the source. Alloc.State has the arena
--   (`Arena`) and the monad of its functions, Alloc.Sizes the size classes, Alloc.Chunk the headers and
--   links, Alloc.Bins the insertions, Alloc.Search the searches, `carve_from_top_chunk` and `grow_heap`,
--   Alloc.Api `allocate` (`_allocate`), `release` (`_release`) and coalescing, Alloc.Create
--   `arena_create`. Functions have the source's names. The laws are in Alloc.Sizes.Bounds, Alloc.Tiles,
--   Alloc.Search.Carve, Alloc.Bins.Insert, Alloc.Api.Fast, Alloc.Api.Both and Alloc.Api.Large.
-- - Gc: runtime/src/gc.c. Gc.Mark has the mark phase over the same memory, Gc.Sweep the sweep, which calls
--   `release`, and a whole collection, Gc.Roots the registration of arenas and roots. The laws are in
--   Gc.Mark.Find, Gc.Mark.Target, Gc.Mark.Exact, Gc.Mark.Pointed, Gc.Mark.Marks,
--   Gc.Sweep.Swept, Gc.Sweep.Heaps, Gc.Sweep.Collected and Gc.Roots.
--   Gc.World has the stopping of the world, as a machine of the collector and the scheduler threads
--   (`self_yield` and `scheduler_run` of runtime/src/scheduler.c, as far as they touch the counters of the
--   collector).
-- - TaskQueue: runtime/src/queue.c. TaskQueue.Fifo has `safe_q_*` over a store of nodes, and
--   TaskQueue.Fifo.Refine relates it to lists; TaskQueue.Ring has `unsafe_ioq_*` and `safe_gcq_*`, the
--   latter with the state of the mutex.
-- - Sync: runtime/src/sync.c. Sync.RwMutex, Sync.Mutex and Sync.WaitGroup are machines of tasks: a task is
--   at a point of a function, and a step is its next access to shared memory (`act`). `Reach` has every
--   interleaving of the steps of any number of tasks.
-- - Atomics: runtime/src/atomics.c. A cell of w bits, an operation for each function, and a definition for
--   each type; calls on a cell are a list, in the order in which they take effect.
-- - Text: runtime/src/strings.c. Text.Ops has the operations on strings, with reads past the bytes that
--   have been written as `none`; Text.Buffer has `buf_append` and the printers of numbers, and Text.Format
--   `strings_format`. Text.Format.Digits and Text.Format.Spec say what a number, and a format with its arguments, look
--   like, and Text.Format.Prints has the law.
-- - Disk: runtime/src/diskio.c. Disk has the synchronous functions (`__public__syncio_*`), Disk.Printf those that
--   print, with the format loop of Text.Format; the answers of the system are a list. Disk.Request has the requests
--   to io_uring, as a machine of the tasks of a scheduler thread, its scheduler and `diskio_worker`. An entry whose
--   submission is refused stays prepared, and the next submission sends it. The laws are in
--   Disk.Loops, Disk.Files, Disk.Request.Owed and Disk.Request.Stuck.
-- - Net: runtime/src/netio.c with the poller of runtime/src/platform/linux/epoll.c. Net has the requests, the
--   handlers of `netio_worker` and the one-shot registrations; Net.Sockets has `__public__net_listen` and
--   `__public__net_dial` with the descriptors that they open and close. The laws are in Net.Write, Net.Lost,
--   Net.Cared and Net.Sockets.Leaks.
-- - Arrays: runtime/src/array.c. Arrays has the allocation by dimensions, the access to sub-arrays and the
--   extension, with sizes that wrap as a size_t, and Arrays.Bytes the functions of runtime/src/strings.c between strings and arrays; the laws are in
--   Arrays.Shapes, Arrays.Extend and Arrays.Bytes.
-- - Scheduler: runtime/src/scheduler.c and `thread` of runtime/src/initutils.c. A machine of the scheduler threads,
--   each at a point of `scheduler_run` or of the task that it runs, with `task_count`, the tasks and the ready queues
--   as they share them. The laws are in Scheduler.Ends and Scheduler.Rest. The wait queue of a thread is in Net and
--   Disk, and the counters of the collector are in Gc.World.
-- - Environ: `__public__os_getenv`, `__public__os_setenv` and `__public__os_unsetenv` of
--   runtime/src/platform/linux/os.c, over the vector `environ`, with whether the vector and its strings are from
--   `malloc`; the loop that closes the gap in the vector is the removal of an entry from a list. The laws are in
--   Environ.Get.
-- - Hash: runtime/src/crypto.c. The law is in Hash.Change.
-- Base has the helpers: tests and conditionals, lists, bits, integers, sums over tasks.
--
-- The parts meet at these points: the collector reads the heaps and chunks of Alloc and sweeps through its
-- `release`; the rings and locks take addresses from `allocate`, which are arguments here; the locks put
-- tasks on queues, which are lists there.
--
-- Disk and Net rest on the wait queue and the ready queue as lists; the printing functions of Disk are the loop and
-- the buffer of Text with one case of their own.
--
-- Numbers are natural numbers, with the wrap-around of a machine word written out where it can happen. The
-- state of the locks is an `int64_t` in the source and is not bounded here: fewer than 2 ^ 62 tasks cannot
-- overflow it. Loops run on fuel: the walks round the bins of Alloc take a number of rounds from the
-- caller, and end in an outcome of their own when it is used up; `scan_heap` takes the bytes of the heap,
-- and each round moves on by a header at least; `double_until` takes the capacity that is wanted, and each
-- round doubles; `digits_loop` takes 20, the digits of a 64-bit number; the recursion of the collector
-- takes its fuel from the caller.
--
-- The loops of Disk take the list of the system's answers as their fuel, and wait where it is used up.
--
-- Parameters: what `mmap` returns is a list of answers, and `munmap` is a log; what `malloc` and `realloc` answer in
-- `setenv`; how a floating number is printed; what `fileno`, `fclose`, `fseek`, `fflush` and `getaddrinfo` return, and
-- what new memory holds in an array that is extended. A task of the program calls what it likes, in any order.
--
-- Not modelled: timers, stacks and context switches (runtime/src/scheduler.c, runtime/src/platform), the poller on
-- kqueue, the start of the other threads (runtime/src/initutils.c, main.c), the wrappers of system calls
-- (the rest of os.c), floating point, the compiler (irgen), the command line tool (cli) and the library declarations (libs).
-- They are system calls, code in other languages, or parts that the modelled ones do not rest on.
mod Base
pub mod Alloc
pub mod Arrays
pub mod Disk
pub mod Environ
pub mod Gc
pub mod Hash
pub mod TaskQueue
pub mod Atomics
pub mod Net
pub mod Scheduler
pub mod Sync
pub mod Text
