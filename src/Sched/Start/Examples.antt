-- ===== src/Sched/Start/Examples.antt =====
-- A scheduler of src/fly_sched.c with two workers that is started and stopped.
use mathlib.Core.Option
use libfly.Prelude.{ℕ, ◌≡◌, ◌≢◌, ◌⊎◌, refl, true, none, some, [], ◌∷◌, ◌==◌, if◌then◌else◌}
use libfly.Malloc.{malloc, free}
use libfly.Thread.{thread_init, thread_begin, thread_uninit, thread_wait}
use libfly.Worker.{
  Answers, worker_init, worker_start, worker_uninit, worker_wait, request_exit, worker_thread_init,
  worker_thread_start, worker_thread_wait, worker_thread_uninit, worker_thread_request_exit,
}
use libfly.Sched.Start.{
  SchedAnswers, SchedVar, lock_init, init_locks, start_workers, stop_workers, workers_init,
  workers_uninit, sched_thread_init, sched_init, simple_init, fly_uninit, set_nbworkers,
}
use libfly.Sched.Start.Balance.{Begins}
use libfly.Sched.Start.Roundtrip.{
  IsStarted, IsStopped, no_locks, returned, sched_init-cases, simple_init-fly_uninit,
}

abbrev good : Answers
good = record { attr_ok = true; sem = 0; create = 0; begins = true }

abbrev all_good : SchedAnswers
all_good = record {
  workers = λ _. (good, good);
  thread = good;
  fd = none;
  garbage = record { func = 0; param = 0; state = 0; fd = none };
  worker_func = 1;
  sched_func = 2;
}

-- The semaphore of the backup thread of the second worker cannot be had.
abbrev no_sem : SchedAnswers
no_sem = record all_good {
  workers = λ i.
      (good, record { attr_ok = true; sem = if i == 1 then 22 else 0; create = 0; begins = true });
}

all_begin : Begins all_good
all_begin i = (refl, refl, refl, refl)

no_sem-Begins : Begins no_sem
no_sem-Begins i = (refl, refl, refl, refl)

abbrev cold : (nbworkers : ℕ) → SchedVar
cold nbworkers = record {
  workers = [];
  nbworkers = nbworkers;
  initialized = 0;
  ready_jobs = [];
  running_jobs = [];
  done_jobs = [];
  locks = no_locks;
  thread = none;
  mem = record { answers = true ∷ true ∷ true ∷ true ∷ true ∷ true ∷ true ∷ []; live = 3 };
}

-- The first worker is started and stopped again.
test_no_sem :
    Option.map {B = ℕ × ℕ} (λ (err, t). (err, t.mem.live)) (sched_init no_sem (cold 2))
    ≡ some (22, 3)
unfolding sched_init init_locks lock_init workers_init start_workers stop_workers workers_uninit
    worker_init worker_start worker_thread_init worker_thread_start worker_uninit worker_wait
    worker_thread_wait worker_thread_uninit request_exit worker_thread_request_exit thread_wait
    thread_init thread_uninit malloc free
test_no_sem = refl

sched_init-cases_example :
    (err : ℕ) × (t : SchedVar) × (sched_init no_sem (cold 2) ≡ some (err, t))
    × (((err ≡ 0) × IsStarted (cold 2) t) ⊎ ((err ≢ 0) × IsStopped (cold 2) t))
sched_init-cases_example = sched_init-cases no_sem (cold 2) no_sem-Begins

-- Two workers run.
abbrev warm : SchedVar
warm = (returned 0 (cold 2) (simple_init 2 all_good (cold 0))).1

warm-started : simple_init 2 all_good (cold 0) ≡ some (0, warm)
unfolding simple_init set_nbworkers sched_init init_locks lock_init workers_init start_workers
    sched_thread_init worker_init worker_start worker_thread_init worker_thread_start thread_init
    thread_begin malloc
warm-started = refl

simple_init-fly_uninit_example :
    (t' : SchedVar) × (fly_uninit warm ≡ some (0, t')) × IsStopped (cold 0) t'
simple_init-fly_uninit_example =
    simple_init-fly_uninit 2 all_good (cold 0) warm all_begin warm-started

-- `pthread_create` makes the threads of worker 0, and not the backup thread of worker 1.
abbrev no_backup : SchedAnswers
no_backup = record all_good {
  workers = λ i.
      (good, record { attr_ok = true; sem = 0; create = if i == 1 then 11 else 0; begins = true });
}
