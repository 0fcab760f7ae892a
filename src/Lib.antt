-- ===== src/Lib.antt =====
-- libfly, a small library for parallel loops and tasks on a pool of worker threads.
--
-- A client cuts a loop into calls with an index (`fly_parallel_for`, `fly_parallel_for_arr`) or pushes
-- tasks. Each becomes a job, a job for a loop is cut into batches, one for each worker, and the
-- scheduler holds the jobs in three lists (ready, running, done), each under a lock for many readers
-- or one writer. A worker picks a job, runs a batch or the task, and the thread that finds the job
-- done completes it and posts the semaphore that the client waits on.
--
-- Files and the code they are about:
--   Prelude (Tests, Lists, Options, Totals, Int): shared names, integers, sums over families and lists
--   Errors: src/include/libfly/fly_error.h
--   Memory: cells of `struct fly_list` at addresses, and the commands that read and write them
--   Malloc: the allocator hooks of src/fly.c, as answers to come and a count of blocks in use
--   Memdebug: the table of blocks in use of src/fly_memdebug.h, and the default allocator of src/fly.c
--     Slots, Leaks, Full: the loops over its slots, what the report lists, and a table that is full
--   FlyList: src/fly_list.h, all functions, as commands over Memory
--     Segment, Cells, Around, View: segments of cells, single accesses, and the list of elements
--     Append, Remove, Search, Prepend: what the functions do to a list
--   Mrswlock: src/fly_mrswlock.h; a thread is a program counter with live locals, the sections under
--     the mutex are atomic steps, a semaphore is its count
--     System, Invariant, Safety, Progress: threads interleaved in any order, and what holds of them
--   Job: src/fly_job.h and src/fly_job.c (creation, batches, destruction)
--     Indices, Batches, Bounds, Lifetime: the indices that batches stand for, the cutting of a job, where
--       its batches begin and end, its memory
--   Thread: src/fly_thread.h and src/fly_thread.c, and what a tracked lock or semaphore does to the
--     state of a thread (src/fly_mrswlock.h, src/fly_sem.h)
--     Status, Blocked: the reader of the status file, and which threads are reported as blocked
--   Worker: src/fly_worker.h and src/fly_worker.c
--     Life, Exit: the memory of a worker, and the loop of its threads until they return
--     Update, Wake: the flags of a worker, and which of its threads a wake-up posts
--   Sched, Sched.Run: src/fly_sched.h and src/fly_sched.c
--     Adding, Running: jobs that enter the lists, and the choice of a running job
--     Drain, Calls, Complete, Parallel: one thread that runs all batches of a job
--     Workers (Invariant, Once): any number of threads that run one parallel for, in small steps
--     Pool: all worker threads on all jobs, with clients that add jobs, in small steps
--       Seen, Project, Once: what the threads do with one job, which is what Workers says
--       Turns, Counts, Parts, Each, Facts: the steps one by one, and what they count
--       Ready, Places, Kept: wake-ups, and where a job stands
--       Alert, Someone, Awake: the threads that will look for work again
--       Taken, Tasks, TaskCalls, TaskOnly, Quiet: tasks, and what is left when all threads sleep
--       Effort, Less, Drops, Leads, Onward, Settle: what is left to do, and that it can be done
--     Lists: the lists of jobs as lists of src/fly_list.h in memory
--     Start (Balance, Roundtrip, Unmade): the start and the stop of the scheduler, with
--       `fly_simple_init` and `fly_uninit` of src/fly.c
--     Update: the walks over all workers
--     Loop (Join): the scheduler's own thread, and the thread that starts and stops it
--   Client: src/fly.c, and `fly_wait_job` of src/fly_job.c
--     Recursion, Ending, Own, Whole: a worker that waits for its own loop, and its whole parallel for
--     Refused, Collect: a task without memory, and the collection of a job that is done
--   Examples under each part: the theorems at concrete inputs
--
-- Conventions. A C `int` is a ℤ where it can be negative and a ℕ where it is a count or an
-- address; the number of indices of a loop, end - start, is an `int` of 32 bits that wraps around
-- (int_sub), and the bounds of its batches then lie between start and end (Job.Bounds); no other
-- overflow is modelled. `none` where the C code divides by zero, `crashes` in Client. A function
-- and a pointer of the client are numbers; the calls of client functions are recorded in order,
-- and a client function that calls the library again is not followed. The two loops of
-- src/fly_list.h run on fuel, and more fuel than the list has cells is enough; so does the loop of
-- a worker that waits for its own job (Client), where one round more than the job has batches is
-- enough. All other loops run over a list or a fixed count. In Sched and Client the operations of
-- the scheduler are single steps. Interleavings are modelled for the lock (Mrswlock), for the
-- threads that run one parallel for (Sched.Workers: a step is one call of a client function, one
-- atomic operation on the job, or its completion), for all threads of the workers on all jobs
-- (Sched.Pool: a section under a lock of the scheduler is one step as well), for a thread that is
-- woken and asked to exit (Worker.Exit), and for the thread of the scheduler (Sched.Loop). What
-- the operating system answers (pthread_attr_init, pthread_create, sem_init, open, read,
-- pthread_equal) is an argument of the definitions. In the start and the stop of the scheduler
-- `none` is a pthread_join that does not return: of a thread that was not made, or that was asked
-- to exit in its first loop.
--
-- In Sched.Pool a job is a number that is used once, a parallel for enters as `fly_make_batches`
-- leaves it, its memory is not given back, a wake-up may post either thread of a worker (which of
-- the two, Worker.Wake says), the parts of a job that its creation fixes do not change, and its
-- field `state`, which nothing reads, is left out.
--
-- Not modelled: jobs that a client function adds from a worker, in small steps, src/fly_sem.h and
-- src/fly_atomic.h (wrappers of POSIX and of compiler builtins, which enter as counts and atomic
-- steps), `fly_simple_init` with the table of Memdebug (the other parts see the allocator only as
-- in Malloc), logging, and the test programs.
pub mod Prelude
pub mod Errors
pub mod Memory
pub mod FlyList
pub mod Malloc
pub mod Memdebug
pub mod Thread
pub mod Job
pub mod Worker
pub mod Sched
pub mod Mrswlock
pub mod Client
