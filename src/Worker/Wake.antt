-- ===== src/Worker/Wake.antt =====
-- What a wake-up of src/fly_worker.c does to the semaphores of a worker's two threads.
use libfly.Prelude.{ℕ, ◌+◌, ◌≡◌, arith}
use libfly.Worker.{Worker, work_available, thread_work_available}

-- The wake-ups that the threads of a worker have not yet taken.
abbrev pub pending : Worker → ℕ
pending w = w.mthread.sem + w.bthread.sem

-- `fly_worker_work_available` posts the semaphore of exactly one of the worker's two threads.
pub work_available-pending : (w : Worker) → pending (work_available w) ≡ pending w + 1
unfolding work_available thread_work_available
work_available-pending w = ground arith
