-- ===== src/Sched/Adding.antt =====
-- `fly_sched_add_job` of src/fly_sched.c on a task, in both outcomes.
use libfly.Prelude.{
  ℕ, ◌+◌, ◌≡◌, refl, ap, true, false, some, List, [], ◌∷◌, ◌++◌, arith, length, ◌==◌, ◌<◌, change,
}
use libfly.Errors.{success, no_resources}
use libfly.Malloc.{Memory, malloc, Enough}
use libfly.Job.{Job, make_batches, task, parallel_for, parallel_for_arr}
use libfly.Job.Batches.{make_batches-short, given_up}
use libfly.Worker.{Worker}
use libfly.Worker.Wake.{pending, work_available-pending}
use libfly.Sched.{
  Sched, list_append, add_to_ready, wake_all, add_job, nbworkers, is_for, add_pfj, queue_pfj,
}

-- The wake-ups that are pending at all workers.
unfoldable pub all_pending : List Worker → ℕ
all_pending [] = 0
all_pending (w ∷ ws) = pending w + all_pending ws

wake_all-pending : (ws : List Worker) → all_pending (wake_all ws) ≡ all_pending ws + length ws
unfolding all_pending wake_all
wake_all-pending [] = refl
wake_all-pending (w ∷ ws) = omega (arith, work_available-pending w, wake_all-pending ws)

-- A task that is added where its cell can be had is the last ready job, the running list stays, and
-- one more wake-up is pending for each worker.
add_job-task :
    (j : ℕ) (s : Sched) (rest : List _)
    → (s.jobs j).jtype ≡ task
    → s.mem.answers ≡ true ∷ rest
    → (t : Sched) × (add_job j s ≡ some (success, t))
      × (t.ready_jobs ≡ s.ready_jobs ++ j ∷ [])
      × (t.running_jobs ≡ s.running_jobs)
      × (all_pending t.workers ≡ all_pending s.workers + nbworkers s)
unfolding add_job add_to_ready list_append malloc nbworkers
add_job-task j s rest e room =
    let not_ptr : ((s.jobs j).jtype == parallel_for) ≡ false = rw e in
    let not_arr : ((s.jobs j).jtype == parallel_for_arr) ≡ false = rw e in
    let is_task : ((s.jobs j).jtype == task) ≡ true = rw e in
    (
      record s {
        workers = wake_all s.workers;
        ready_jobs = s.ready_jobs ++ j ∷ [];
        mem = record { answers = rest; live = s.mem.live + 1 };
      },
      rw (not_ptr, not_arr, is_task, room),
      refl,
      refl,
      wake_all-pending s.workers,
    )

-- A task whose cell cannot be had is refused with `FLYENORES`, and nothing changes but that one
-- call of `fly_malloc` was made.
pub add_job-task_refused :
    (j : ℕ) (s : Sched) (rest : List _)
    → (s.jobs j).jtype ≡ task
    → s.mem.answers ≡ false ∷ rest
    → add_job j s ≡ some (no_resources, record s { mem = record s.mem { answers = rest } })
unfolding add_job add_to_ready list_append malloc
add_job-task_refused j s rest e room =
    let not_ptr : ((s.jobs j).jtype == parallel_for) ≡ false = rw e in
    let not_arr : ((s.jobs j).jtype == parallel_for_arr) ≡ false = rw e in
    let is_task : ((s.jobs j).jtype == task) ≡ true = rw e in rw (not_ptr, not_arr, is_task, room)

add_pfj-short :
    (j : ℕ) (s : Sched) (job : Job) (m : Memory)
    → make_batches (s.jobs j) (nbworkers s) s.mem ≡ some (no_resources, job, m)
    → add_pfj j s ≡ some (no_resources, record s { jobs = change s.jobs j job; mem = m })
unfolding add_pfj queue_pfj
add_pfj-short j s job m runs = ap (queue_pfj j s) runs

-- A parallel for without batches, on a scheduler with at least one worker, whose batches cannot all
-- be had is refused with `FLYENORES`: the ready list does not change, no worker is woken, and every
-- block that was taken for it is given back.
pub add_job-for_refused :
    (j : ℕ) (s : Sched)
    → is_for (s.jobs j) ≡ true
    → (s.jobs j).batches ≡ []
    → 0 < nbworkers s
    → ¬ Enough (nbworkers s + nbworkers s) s.mem.answers
    → (t : Sched) × (add_job j s ≡ some (no_resources, t))
      × (t.ready_jobs ≡ s.ready_jobs)
      × (t.workers ≡ s.workers)
      × (t.mem.live ≡ s.mem.live)
unfolding add_job
add_job-for_refused j s e none_yet some_worker short =
    let (m', runs, balance) =
      make_batches-short (s.jobs j) (nbworkers s) s.mem none_yet some_worker short in
    (
      record s { jobs = change s.jobs j (given_up (s.jobs j)); mem = m' },
      rw (e, add_pfj-short j s (given_up (s.jobs j)) m' runs),
      refl,
      refl,
      balance,
    )
