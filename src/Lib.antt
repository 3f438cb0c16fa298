-- ===== src/Lib.antt =====
-- schedi: a scheduler of jobs in C, with worker threads, an epoll loop and lock-free shared state.
--
-- The program. Jobs live in a static array of 256 slots. A free slot is taken from a table of
-- sections, a job that is ready to run is put into the ready jobs cache, workers pick it from there,
-- and a job that cannot be destroyed at once waits in the destroy queue. All threads share the
-- `meta_flag` word of each job, which packs its flags and four small counts and changes only by
-- compare-and-swap loops. All of this is src/jobs.c and include/schedi/jobs.h.
--
-- The files.
--   Prelude: Boolean tests, lists and bit operations on the native numbers, the integers.
--   Atomic: the compare-and-swap loops, over any values that other threads leave in the word.
--     A body maps the expected value to what the round decides: return, or write and return.
--     `atomic` runs a body in one step, and the other modules use it.
--   Meta: the `meta_flag` word. `mark_or`, `unmark_or`, `cas_update` and the marks are the bodies
--     of `schedi_job_mark_or`, `schedi_job_unmark_or`, `schedi_job_meta_flag_cas_update` and so on.
--     Meta.Flags has the record that a word packs, Meta.Protocol the steps of any threads.
--   Sections: `section_claim` and `section_release`; Sections.History is any sequence of them,
--     with a flag for a release of a slot that no job holds.
--   Queue: the destroy queue, `dq_push_atomic` and its kin, with `PACK_HTC` and the macros HTC_*.
--     Queue.Fifo says when a ring holds a list of jobs. Queue.Steps has the steps of any threads
--     between the compare-and-swaps and the stores, Queue.Tickets, Queue.Held and Queue.Swapped
--     what holds at each of them, Queue.InOrder and Queue.Overtaken what comes of it.
--   Cache: `schedi_cache_job_ready`, `schedi_cache_job_ready_pop` and the reorganization.
--     Cache.Inv has the invariant; Cache.Slots, Cache.Near and Cache.Packed are about lists of
--     slots. Cache.Reach has the histories of calls, Cache.Bag the cache without order, Cache.Steps
--     the compare-and-swaps of any threads, and Cache.Once where a job is at each of them.
--   Jobs: `schedi_job_create`, `schedi_job_setready`, `schedi_job_pickready`,
--     `schedi_job_destroy_now`, `schedi_job_destroy` and `schedi_job_destroy_queue_check`, over one
--     record of the static data. Jobs.Tools has the counted updates that call
--     `schedi_job_setready`, and the functions that make them. Jobs.Check is about the check of
--     the destroy queue, Jobs.End about a job from its destruction to that check, Jobs.Picked about
--     a job from `schedi_job_setready` to `schedi_job_pickready`. Jobs.Threads has the wrappers of
--     the mutex and the condition, `schedi_job_init` and `schedi_job_deinit`.
--   Kernel: what the code calls of the system and the C library, as a record of operations.
--     Kernel.Sample is one that runs, for the tests.
--   Epoll: src/epoll.c up to its handlers: `schedi_epoll_add` and its kin, `schedi_epoll_init_fds`
--     and the life of the epoll thread.
--   Socket: the packed state of an epoll socket, `schedi_job_epollsocket_avail_add`,
--     `schedi_job_epollsocket_count_add`, and what a death and the two ends do. Socket.Fields has
--     the record that a word packs, Socket.Buffer the byte rings as the job uses them.
--     Socket.Owner adds what each change of the word does to the job that owns the socket, and
--     Socket.Transfer the functions that call `send` and `recv`. Socket.Rings reads the rings as
--     queues of bytes. Socket.Timeout is the word in the build with SCHEDI_EXT_TIMEOUT,
--     Socket.Timed has the updates of its counts.
--   Machine: jobs, sockets, epoll requests and the memory of epoll events in one record:
--     `schedi_job_tool_epoll` and `schedi_job_epoll_request_return`, in Machine.Sockets the creation
--     and the end of a socket, in Machine.Loop the handlers and the loop of src/epoll.c,
--     in Machine.Timers the timers of the sockets and `schedi_job_epollsocket_epollagain`,
--     in Machine.Held what they register,
--     in Machine.Created the creation of a socket with its timer.
--   Worker: src/worker.c, with the completion indicator of src/jobs.c. A round of `worker_routine`
--     is `round`. Worker.Pool has the start and the end of the workers, Worker.Sleep the steps of
--     workers and `schedi_worker_deinit` around the mutex and the condition that they share,
--     Worker.Wakeup those of workers and `schedi_job_setready`.
--   Log: src/log.c, the rings of the last 4096 events and the order in which they are copied out.
--   Chain: src/list.c, the intrusive list, over a store of nodes.
--   The module Tests of each has runs at concrete inputs.
--
-- What the model takes. A job is the index of its slot; `address` is where the linker puts the
-- slots, which the labels of the destroy queue read. A destructor is any function on the data. A
-- word of w bits is a natural number, with its wrap-around written out. A function over several
-- shared words runs as one step, except at the destroy queue and the ready jobs cache, whose
-- modules Steps have the steps of any threads, and at the sleep of the workers. A compare-and-swap
-- sees any word that is equal to the one loaded as unchanged; in Queue.Steps a word that has come
-- back to its old value is left out. Loops over tables recurse on the table. `schedi_job_pickready`
-- has fuel for its `goto`: more than the number of cached jobs is enough, as each round takes one
-- out. The system is a state of its own type with the operations of Kernel; the theorems that rest
-- on its documented behaviour take it as a record of laws. The epoll loop and its drains have fuel,
-- and the result `none` where it runs out, since a kernel may deliver events for ever; so has the
-- loop of a worker. What other threads do while a function spins or waits is an argument: a list of
-- actions, or the fields of a round. `malloc` returns addresses, and each kind of struct has its
-- contents at an address. A function of a job is a parameter of the worker, any function on the
-- data.
--
-- What is not modelled: without SCHEDI_EXT_TIMEOUT `schedi_job_epollsocket_epollagain` only asserts
-- false. The memory orders of the atomic operations are not modelled, and the options
-- LOCKLESS_READYJOB and SCHEDI_LOG_NAMED_THREADS are off. The example programs use the library and
-- are not part of it.
pub mod Prelude
pub mod Atomic
pub mod Meta
pub mod Sections
pub mod Queue
pub mod Cache
pub mod Jobs
pub mod Kernel
pub mod Epoll
pub mod Socket
pub mod Machine
pub mod Worker
pub mod Log
pub mod Chain
