-- ===== src/Worker.antt =====
-- src/fly_worker.h and src/fly_worker.c: a worker has a main and a backup thread.
-- What pthread and the semaphores answer is an argument, as in Thread.
pub mod Wake
pub mod Life
pub mod Exit
pub mod Update
mod Examples
use Prim.Native.Nat.{bit_or}
use libfly.Prelude.{ℕ, ◌+◌, ◌%◌, Bool, false, Option, none, some, List, ◌==◌, if◌then◌else◌}
use libfly.Prelude.Options.{◌>>=◌}
use libfly.Malloc.{Memory}
use libfly.Thread.{Thread, thread_init, thread_uninit, thread_wait, is_client_block}

-- FLY_WORKER_IDLE, FLY_WORKER_RUNNING, FLY_WORKER_EXITING and FLY_WORKER_FINISHED
pub data ThreadState : Type 0 where
  idle running exiting finished : ThreadState

-- `struct fly_worker_thread`, less the pointer to its worker. `sem` is the count of its semaphore.
-- `begun` says whether there is a pthread that has left the first loop of `fly_worker_thread_func`: it
-- ends once it is asked to exit (Worker.Exit), and any other thread does not.
pub record WorkerThread : Type 0 where
  pub thread : Thread
  pub sem : ℕ
  pub tstate : ThreadState
  pub begun : Bool

-- `struct fly_worker`. `mblocked` and `bblocked` are the flags that `fly_worker_update` sets.
pub record Worker : Type 0 where
  pub mthread : WorkerThread
  pub bthread : WorkerThread
  pub mblocked : ℕ
  pub bblocked : ℕ

-- What the operating system answers while a thread is set up: whether `pthread_attr_init` succeeds,
-- what `sem_init` and `pthread_create` return, and whether the new thread reads FLY_WORKER_RUNNING
-- before it is asked to exit.
pub record Answers : Type 0 where
  pub attr_ok : Bool
  pub sem : ℕ
  pub create : ℕ
  pub begins : Bool

-- `fly_worker_thread_work_available`
unfoldable pub thread_work_available : WorkerThread → WorkerThread
thread_work_available t = record t { sem = t.sem + 1 }

-- `fly_worker_work_available`. `fly_atomic_and` keeps the lowest bit of the flag and returns it; the
-- second flag is read only where the first is set.
unfoldable pub work_available : Worker → Worker
unfolding thread_work_available
work_available w =
    if w.mblocked % 2 == 0
    then record w { mblocked = w.mblocked % 2; mthread = thread_work_available w.mthread }
    else (if w.bblocked % 2 == 0
        then record w {
          mblocked = w.mblocked % 2;
          bblocked = w.bblocked % 2;
          bthread = thread_work_available w.bthread;
        }
        else record w {
          mblocked = w.mblocked % 2;
          bblocked = w.bblocked % 2;
          mthread = thread_work_available w.mthread;
        })

-- `fly_worker_thread_init`; `func` and `param` are the function and the argument of the new thread.
unfoldable pub worker_thread_init :
    Answers → (func param : ℕ) → WorkerThread → Memory → ℕ × WorkerThread × Memory
worker_thread_init os func param t m =
    let (err, thread, m1) = thread_init os.attr_ok func param t.thread m in
    if err == 0
    then (if os.sem == 0
        then (0, record { thread = thread; sem = 0; tstate = idle; begun = false }, m1)
        else (os.sem, record t { thread = thread; tstate = idle }, thread_uninit m1))
    else (err, record t { thread = thread }, m1)

-- `fly_worker_thread_uninit`; the semaphore holds no memory of the library.
unfoldable pub worker_thread_uninit : Memory → Memory
worker_thread_uninit m = thread_uninit m

-- `fly_worker_thread_start`
unfoldable pub worker_thread_start : Answers → WorkerThread → ℕ × WorkerThread
worker_thread_start os t =
    (os.create, if os.create == 0 then record t { tstate = running; begun = os.begins } else t)

-- `fly_worker_thread_request_exit`
unfoldable pub worker_thread_request_exit : WorkerThread → WorkerThread
worker_thread_request_exit t = record t { tstate = exiting; sem = t.sem + 1 }

-- `fly_worker_init`, from a worker that `memset` has cleared.
unfoldable pub worker_init :
    (main backup : Answers) (func param : ℕ) → Worker → Memory → ℕ × Worker × Memory
worker_init main backup func param cleared m =
    let (err, mt, m1) = worker_thread_init main func param cleared.mthread m in
    let (err', bt, m2) = worker_thread_init backup func param cleared.bthread m1 in
    if err == 0
    then (
      err',
      record cleared { mthread = mt; bthread = bt },
      if err' == 0 then m2 else worker_thread_uninit m2,
    )
    else (err, record cleared { mthread = mt }, m1)

-- `fly_worker_start`
unfoldable pub worker_start : (main backup : Answers) → Worker → ℕ × Worker
worker_start main backup w =
    let (ret, mt) = worker_thread_start main w.mthread in
    let (ret', bt) = worker_thread_start backup w.bthread in
    if ret == 0
    then (ret', record w { mthread = mt; bthread = bt })
    else (ret, record w { mthread = mt })

-- `fly_worker_request_exit`
unfoldable pub request_exit : Worker → Worker
request_exit w = record w {
  mthread = worker_thread_request_exit w.mthread;
  bthread = worker_thread_request_exit w.bthread;
}

-- `fly_worker_thread_wait`
unfoldable pub worker_thread_wait : WorkerThread → Option ℕ
unfolding thread_wait
worker_thread_wait t = thread_wait t.begun

-- `fly_worker_wait`
unfoldable pub worker_wait : Worker → Option ℕ
worker_wait w = do
  err ← worker_thread_wait w.mthread
  err' ← worker_thread_wait w.bthread
  some (bit_or err err')

-- `fly_worker_uninit`. `none`: it does not return.
unfoldable pub worker_uninit : Worker → Memory → Option (ℕ × Worker × Memory)
worker_uninit w m = do
  err ← worker_wait (request_exit w)
  some (err, request_exit w, if err == 0 then worker_thread_uninit (worker_thread_uninit m) else m)

-- `fly_worker_update`; the two buffers are what the status files of the threads give (Thread). `none`:
-- a read behind the buffer.
unfoldable pub worker_update : (main backup : Option (List ℕ)) → Worker → Option Worker
worker_update main backup w = do
  (mblocked, mt) ← is_client_block main w.mthread.thread
  (bblocked, bt) ← is_client_block backup w.bthread.thread
  some (record {
    mthread = record w.mthread { thread = mt };
    bthread = record w.bthread { thread = bt };
    mblocked = mblocked;
    bblocked = bblocked;
  })
