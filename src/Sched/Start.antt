-- ===== src/Sched/Start.antt =====
-- The start and the stop of the scheduler: `fly_sched_init` and `fly_sched_uninit` of
-- src/fly_sched.c with their helpers. What the operating system answers is an argument.
pub mod Balance
pub mod Roundtrip
pub mod Unmade
mod Examples
use Prim.Native.Nat.{bit_or}
use libfly.Prelude.{
  ℕ, zero, suc, ◌+◌, Bool, true, false, Option, none, some, List, [], ◌∷◌, ◌++◌, ◌==◌,
  if◌then◌else◌, leb, length,
}
use libfly.Errors.{success, no_resources, code}
use libfly.Malloc.{Memory, malloc, free}
use libfly.Mrswlock
use libfly.Mrswlock.{Mrswlock}
use libfly.Thread.{Thread, thread_init, thread_uninit, thread_begin, thread_wait}
use libfly.Prelude.Options.{◌>>=◌}
use libfly.Worker.{Answers, Worker, WorkerThread, worker_init, worker_start, worker_uninit}

-- The three locks; `none` is a lock that is not initialised.
pub record Locks : Type 0 where
  pub ready : Option Mrswlock
  pub running : Option Mrswlock
  pub done : Option Mrswlock

-- FLY_SCHED_MAX_RLOCK
abbrev pub max_rlock : ℕ
max_rlock = 256

-- `struct fly_sched`, with the jobs of its lists by their addresses, and the allocator. A dangling
-- `thread` is kept as the code keeps it.
pub record SchedVar : Type 0 where
  pub workers : List Worker
  pub nbworkers : ℕ
  pub initialized : ℕ
  pub ready_jobs : List ℕ
  pub running_jobs : List ℕ
  pub done_jobs : List ℕ
  pub locks : Locks
  pub thread : Option Thread
  pub mem : Memory

-- What is answered for the main and the backup thread of each worker and for the thread of the
-- scheduler, whose status file gets the descriptor `fd`. `garbage` is what a block holds.
pub record SchedAnswers : Type 0 where
  pub workers : ℕ → Answers × Answers
  pub thread : Answers
  pub fd : Option ℕ
  pub garbage : Thread
  pub worker_func : ℕ
  pub sched_func : ℕ

-- `fly_sched_uninit_locks`
unfoldable pub uninit_locks : (nb : ℕ) → Locks → Locks
uninit_locks nb l = record {
  done = if leb 3 nb then none else l.done;
  running = if leb 2 nb then none else l.running;
  ready = if leb 1 nb then none else l.ready;
}

-- `fly_mrswlock_init`: the lock, and the 0 that it returns on its only path.
unfoldable pub lock_init : ℕ → ℕ × Mrswlock
unfolding Mrswlock.init
lock_init maxin = (0, Mrswlock.init maxin)

-- `fly_sched_init_locks`
unfoldable pub init_locks : Locks → ℕ × Locks
init_locks l =
    let (ready_err, ready) = lock_init max_rlock in
    let (running_err, running) = lock_init max_rlock in
    let (done_err, done) = lock_init max_rlock in
    let l1 = record l { ready = some ready } in
    let l2 = record l1 { running = some running } in
    let l3 = record l2 { done = some done } in
    if ready_err == 0
    then (if running_err == 0
        then (if done_err == 0 then (done_err, l3) else (code no_resources, uninit_locks 2 l3))
        else (code no_resources, uninit_locks 1 l2))
    else (ready_err, l1)

-- A loop of `fly_sched_uninit_lists`: each round takes the element of the tail and removes a cell
-- with that element, until the list is empty.
unfoldable pub clear_list : List ℕ → Memory → Memory
clear_list [] m = m
clear_list (j ∷ js) m = free (clear_list js m)

-- The worker that `memset` has cleared.
abbrev pub cleared : Worker
cleared =
    let thread : Thread = record { func = 0; param = 0; state = 0; fd = some 0 } in
    let wt : WorkerThread = record {
      thread = thread;
      sem = 0;
      tstate = libfly.Worker.idle;
      begun = false;
    } in
    record { mthread = wt; bthread = wt; mblocked = 0; bblocked = 0 }

-- The loop of `fly_sched_workers_init` at `i`, with `left` rounds to go and `ws` ready: the error, the
-- workers that are ready when the loop ends, and the memory. `none`, here and below: a join of a thread
-- does not return.
unfoldable pub start_workers :
    (left i : ℕ) → SchedAnswers → (ws : List Worker) → Memory → Option (ℕ × List Worker × Memory)
start_workers zero i os ws m = some (code success, ws, m)
start_workers (suc left) i os ws m =
    let (main, backup) = os.workers i in
    let (err, w, m1) = worker_init main backup os.worker_func i cleared m in
    let (err', w') = worker_start main backup w in
    let rest = start_workers left (i + 1) os (ws ++ w' ∷ []) m1 in
    if err == 0
    then (if err' == 0
        then rest
        else do (ignored, stopped, m2) ← worker_uninit w' m1; some (err', ws, m2))
    else some (err, ws, m1)

-- The loop of `fly_sched_workers_uninit`.
unfoldable pub stop_workers : (err : ℕ) → List Worker → Memory → Option (ℕ × Memory)
stop_workers err [] m = some (err, m)
stop_workers err (w ∷ ws) m = do
  (one, stopped, m1) ← worker_uninit w m
  stop_workers (bit_or err one) ws m1

-- `fly_sched_workers_uninit`
unfoldable pub workers_uninit : List Worker → Memory → Option (ℕ × Memory)
workers_uninit ws m = do (err, m1) ← stop_workers (code success) ws m; some (err, free m1)

-- `fly_sched_workers_init`
unfoldable pub workers_init :
    (nbworkers : ℕ) → SchedAnswers → Memory → Option (ℕ × List Worker × Memory)
workers_init nbworkers os m =
    let (got, m1) = malloc m in
    if got
    then (do
      (err, ws, m2) ← start_workers nbworkers 0 os [] m1
      if length ws == nbworkers
          then some (err, ws, m2)
          else (do (ignored, m3) ← workers_uninit ws m2; some (err, ws, m3)))
    else some (code no_resources, [], m1)

-- `fly_sched_thread_init`, which waits at its end until the thread runs.
unfoldable pub sched_thread_init : SchedAnswers → Memory → ℕ × Option Thread × Memory
sched_thread_init os m =
    let (got, m1) = malloc m in
    let (err, t, m2) = thread_init os.thread.attr_ok os.sched_func 0 os.garbage m1 in
    if got
    then (if err == 0
        then (if os.thread.create == 0
            then (0, some (thread_begin os.fd t), m2)
            else (os.thread.create, none, free (thread_uninit m2)))
        else (err, some t, free m2))
    else (code no_resources, none, m1)

-- `fly_sched_thread_uninit`. A thread that has begun ends once it is told to stop (Sched.Loop).
unfoldable pub sched_thread_uninit : Option Thread → Memory → Option Memory
unfolding thread_wait
sched_thread_uninit none m = some m
sched_thread_uninit (some t) m = do
  err ← thread_wait (t.state == libfly.Thread.running)
  some (free (thread_uninit m))

-- `fly_sched_init`
unfoldable pub sched_init : SchedAnswers → SchedVar → Option (ℕ × SchedVar)
sched_init os s =
    let (err1, locks) = init_locks s.locks in
    let s1 = record s { initialized = 0; thread = none; locks = locks } in
    let s2 = record s1 { ready_jobs = []; running_jobs = []; done_jobs = [] } in
    if err1 == 0
    then (do
      (err2, ws, m2) ← workers_init s.nbworkers os s.mem
      let (err3, thread, m3) = sched_thread_init os m2 in
          let s3 = record s2 { workers = ws } in
          if err2 == 0
          then (if err3 == 0
              then some (err3, record s3 { thread = thread; mem = m3; initialized = 1 })
              else (do
                (ignored, m4) ← workers_uninit ws m3
                some (err3, record s3 { thread = thread; mem = m4; locks = uninit_locks 3 locks })))
          else some (err2, record s3 { mem = m2; locks = uninit_locks 3 locks }))
    else some (err1, s1)

-- `fly_sched_uninit`
unfoldable pub sched_uninit : SchedVar → Option (ℕ × SchedVar)
sched_uninit s = do
  m1 ← sched_thread_uninit s.thread s.mem
  (ignored, m2) ← workers_uninit s.workers m1
  some (
    code success,
    record s {
      ready_jobs = [];
      running_jobs = [];
      done_jobs = [];
      locks = uninit_locks 3 s.locks;
      mem = clear_list s.done_jobs (clear_list s.running_jobs (clear_list s.ready_jobs m2));
    },
  )

-- `fly_set_nbworkers`
unfoldable pub set_nbworkers : ℕ → SchedVar → SchedVar
set_nbworkers nb s = record s { nbworkers = nb }

-- `fly_simple_init` and `fly_uninit` of src/fly.c in a build without FLY_MEMDEBUG, where the macros
-- of src/fly_memdebug.h are empty. The allocator that is set is that of the state.
unfoldable pub simple_init : (nbworkers : ℕ) → SchedAnswers → SchedVar → Option (ℕ × SchedVar)
unfolding set_nbworkers
simple_init nb os s = sched_init os (set_nbworkers nb s)

unfoldable pub fly_uninit : SchedVar → Option (ℕ × SchedVar)
fly_uninit s = sched_uninit s
