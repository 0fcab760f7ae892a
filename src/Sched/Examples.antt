-- ===== src/Sched/Examples.antt =====
-- A parallel for of five calls on a scheduler of src/fly_sched.c with two workers.
use libfly.Prelude.{ℕ, ◌+◌, ◌≡◌, refl, none, some, true, false, List, Bool, [], ◌∷◌, arith, change}
use libfly.Prelude.Int.{pos, ◌-ℤ◌, int_sub, to_int, ◌+ℤ◌, ◌*ℤ◌, mod_ℤ}
use libfly.Errors.{success, no_resources}
use libfly.Malloc.{Memory, malloc}
use libfly.Job.{
  Job, JobState, parallel_for_arr, task, make_batches, batches_loop, batch_size, add_batch,
  extend_last,
}
use libfly.Job.Examples.{calls_of, roomy}
use libfly.Worker.{Worker, WorkerThread, ThreadState}
use libfly.Sched.{Sched, add_job, nbworkers, task_call}
use libfly.Sched.Run.{schedule}
use libfly.Sched.Running.{schedule_again}
use libfly.Sched.Adding.{add_job-for_refused}
use libfly.Sched.Calls.{ptr_call, arr_call}
use libfly.Sched.Parallel.{Ran, parallel_for-runs, parallel_for_arr-runs}

abbrev pub cut_in_two : Job → Job
cut_in_two job = record job {
  batches =
      record { start = pos 0; end = pos 2; execed = false }
      ∷ record { start = pos 2; end = pos 5; execed = false }
      ∷ [];
  nbbatches = 2;
  state = JobState.ready;
}

abbrev array_job : Job
array_job = record (calls_of 5) { jtype = parallel_for_arr }

abbrev pub thread : WorkerThread
thread = record {
  thread = record { func = 0; param = 0; state = 1; fd = none };
  sem = 0;
  tstate = ThreadState.running;
  begun = true;
}

abbrev pub waiting : Worker
waiting = record { mthread = thread; bthread = thread; mblocked = 0; bblocked = 0 }

abbrev pub left : Memory
left = record { answers = true ∷ true ∷ []; live = 5 }

-- The job stands at address 7, in the running list.
abbrev pub sched_with : Job → Sched
sched_with job = record {
  workers = waiting ∷ waiting ∷ [];
  ready_jobs = [];
  running_jobs = 7 ∷ [];
  done_jobs = [];
  jobs = λ _. job;
  tasks = λ _. record { func = 0; param = 0; result = 0; sched_data = 0 };
  mem = left;
  calls = [];
}

abbrev pub sum : (func param : ℕ) → ℕ
sum func param = func + param

cut_pfor : make_batches (calls_of 5) 2 roomy ≡ some (success, cut_in_two (calls_of 5), left)
unfolding make_batches batches_loop batch_size add_batch extend_last malloc int_sub to_int ◌-ℤ◌
    mod_ℤ ◌+ℤ◌ ◌*ℤ◌
cut_pfor = refl

cut_pfarr : make_batches array_job 2 roomy ≡ some (success, cut_in_two array_job, left)
unfolding make_batches batches_loop batch_size add_batch extend_last malloc int_sub to_int ◌-ℤ◌
    mod_ℤ ◌+ℤ◌ ◌*ℤ◌
cut_pfarr = refl

parallel_for-runs_example :
    Ran sum (sched_with (cut_in_two (calls_of 5))) 7 5 2 (ptr_call (cut_in_two (calls_of 5)))
unfolding ◌-ℤ◌
parallel_for-runs_example =
    parallel_for-runs sum (sched_with (cut_in_two (calls_of 5))) 7 (calls_of 5) 5 2 roomy left
      cut_pfor refl refl (refl, omega arith) (omega arith) tt (omega arith) refl

parallel_for_arr-runs_example :
    Ran sum (sched_with (cut_in_two array_job)) 7 5 2 (arr_call (cut_in_two array_job))
unfolding ◌-ℤ◌
parallel_for_arr-runs_example =
    parallel_for_arr-runs sum (sched_with (cut_in_two array_job)) 7 array_job 5 2 roomy left
      cut_pfarr refl refl (refl, omega arith) (omega arith) tt (omega arith) refl

abbrev pub task_job : Job
task_job = record (calls_of 0) { jtype = task; nbbatches = 1 }

-- The task stands at address 7, not in a list, with memory that answers as given.
abbrev pub task_sched : List Bool → Sched
task_sched answers = record (sched_with task_job) {
  running_jobs = [];
  mem = record { answers = answers; live = 1 };
}

-- A parallel for of five calls, where only three blocks can be had.
abbrev tight_sched : Sched
tight_sched = record (sched_with (calls_of 5)) {
  running_jobs = [];
  mem = record { answers = true ∷ true ∷ true ∷ []; live = 1 };
}

add_job-for_refused_example :
    (t : Sched) × (add_job 7 tight_sched ≡ some (no_resources, t))
    × (t.ready_jobs ≡ [])
    × (t.workers ≡ waiting ∷ waiting ∷ [])
    × (t.mem.live ≡ 1)
unfolding nbworkers
add_job-for_refused_example =
    add_job-for_refused 7 tight_sched refl refl (omega arith) (λ enough. enough)

-- The task has run and is still in the running list.
abbrev task_done : Sched
task_done = sched_with (record task_job { batches_done = 1 })

schedule_again_example :
    (t : Sched) × (schedule sum 0 task_done ≡ (false, t))
    × (t.calls ≡ task_call 0 0 ∷ [])
    × ((t.jobs 7).sem ≡ 1)
schedule_again_example =
    schedule_again sum task_done 0 [] 7 refl refl (refl, tt) refl (omega arith) refl

-- A job in progress behind the finished task.
abbrev one_open : Sched
one_open = record task_done {
  running_jobs = 7 ∷ 8 ∷ [];
  jobs = change task_done.jobs 8 (cut_in_two (calls_of 5));
}
