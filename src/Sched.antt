-- ===== src/Sched.antt =====
-- src/fly_sched.h and src/fly_sched.c: the scheduler's lists of jobs and its operations.
-- A job is named by a number, its address, and 0 is `NULL`. The lists hold such numbers, as the
-- elements of src/fly_list.h do (FlyList.View). Each operation is one atomic step: the lock around
-- each list is that of Mrswlock.
pub mod Run
pub mod Drain
pub mod Calls
pub mod Complete
pub mod Running
pub mod Adding
pub mod Parallel
pub mod Workers
pub mod Start
pub mod Lists
pub mod Update
pub mod Loop
pub mod Pool
pub mod Examples
use mathlib.Core.Option
use libfly.Prelude.{
  ℕ, zero, suc, ◌+◌, Bool, true, false, ◌||◌, Option, none, some, List, [], ◌∷◌, ◌++◌, ◌==◌,
  if◌then◌else◌, length, change,
}
use libfly.Prelude.Int.{ℤ, pos, ◌+ℤ◌, ◌-ℤ◌, ◌*ℤ◌, rounds}
use libfly.Errors.{Errcode, success, no_resources, not_implemented, succeeded}
use libfly.Malloc.{Memory, malloc, free}
use libfly.Memory.{null}
use libfly.FlyList.View.{erase, member, pop_back}
use libfly.Job.{
  Job, Batch, JobState, parallel_for, parallel_for_arr, task, is_done, make_batches, get_exec_batch,
  destroy_batches,
}
use libfly.Worker.{Worker, work_available}

-- `struct fly_task`
pub record Task : Type 0 where
  pub func : ℕ
  pub param : ℕ
  pub result : ℕ
  pub sched_data : ℕ

-- A call of a function of the client: of a parallel for, with the index and the address or the
-- pointer that it is given, or of a task.
pub data Call : Type 0 where
  for_call : (func : ℕ) (index : ℤ) (param : ℤ) → Call
  task_call : (func param : ℕ) → Call

-- `struct fly_sched` less its thread and locks, the jobs and tasks that its pointers lead to, the
-- allocator, and the calls of client functions so far, in their order.
pub record Sched : Type 0 where
  pub workers : List Worker
  pub ready_jobs : List ℕ
  pub running_jobs : List ℕ
  pub done_jobs : List ℕ
  pub jobs : ℕ → Job
  pub tasks : ℕ → Task
  pub mem : Memory
  pub calls : List Call

unfoldable pub nbworkers : Sched → ℕ
nbworkers s = length s.workers

-- `fly_list_append`, `fly_list_remove` and `fly_list_tail_remove` on a list of jobs.
unfoldable pub list_append : List ℕ → ℕ → Memory → Errcode × List ℕ × Memory
unfolding malloc
list_append xs j m =
    let (got, m') = malloc m in if got then (success, xs ++ j ∷ [], m') else (no_resources, xs, m')

unfoldable pub list_remove : List ℕ → ℕ → Memory → List ℕ × Memory
unfolding erase member free
list_remove xs j m = if member j xs then (erase j xs, free m) else (xs, m)

unfoldable pub list_tail_remove : List ℕ → Memory → ℕ × List ℕ × Memory
unfolding pop_back free
list_tail_remove [] m = (null, [], m)
list_tail_remove (x ∷ xs) m = let (j, rest) = pop_back (x ∷ xs) in (j, rest, free m)

unfoldable pub set_job : Sched → ℕ → Job → Sched
set_job s j job = record s { jobs = change s.jobs j job }

unfoldable pub add_to_ready : ℕ → Sched → Errcode × Sched
unfolding list_append
add_to_ready j s =
    let (err, ready, m) = list_append s.ready_jobs j s.mem in
    (err, record s { ready_jobs = ready; mem = m })

-- The rest of `fly_sched_add_pfj` behind `fly_make_batches`.
unfoldable pub queue_pfj : ℕ → Sched → Option (Errcode × Job × Memory) → Option (Errcode × Sched)
queue_pfj j s none = none
queue_pfj j s (some (err, job, m)) =
    let s1 : Sched = record s { jobs = change s.jobs j job; mem = m } in
    if succeeded err
    then (let (err', s2) = add_to_ready j s1 in
        let (job', m') = destroy_batches (s2.jobs j) s2.mem in
        let s3 : Sched = record s2 { jobs = change s2.jobs j job'; mem = m' } in
        some (err', if succeeded err' then s2 else s3))
    else some (err, s1)

-- `fly_sched_add_pfj`. `none`: a division by zero in `fly_make_batches`.
unfoldable pub add_pfj : ℕ → Sched → Option (Errcode × Sched)
add_pfj j s = queue_pfj j s (make_batches (s.jobs j) (nbworkers s) s.mem)

abbrev pub is_for : Job → Bool
is_for job = job.jtype == parallel_for || job.jtype == parallel_for_arr

unfoldable pub wake_all : List Worker → List Worker
unfolding work_available
wake_all [] = []
wake_all (w ∷ ws) = work_available w ∷ wake_all ws

-- All workers but the one that the calling thread belongs to.
unfoldable pub wake_others : ℕ → List Worker → List Worker
unfolding wake_all work_available
wake_others parent [] = []
wake_others zero (w ∷ ws) = w ∷ wake_all ws
wake_others (suc parent) (w ∷ ws) = work_available w ∷ wake_others parent ws

-- `fly_sched_add_job`
unfoldable pub add_job : ℕ → Sched → Option (Errcode × Sched)
add_job j s =
    let added : Option (Errcode × Sched) =
      if is_for (s.jobs j)
      then add_pfj j s
      else if (s.jobs j).jtype == task
      then some (add_to_ready j s)
      else some (not_implemented, s) in
    Option.map
      (λ (err, s').
        (err, if succeeded err then record s' { workers = wake_all s'.workers } else s'))
      added

-- `fly_sched_move_to_running`, which does not look at the error of `fly_list_append`.
unfoldable pub move_to_running : ℕ → Sched → Sched
unfolding list_append
move_to_running j s =
    let (err, running, m) = list_append s.running_jobs j s.mem in
    record s {
      jobs = change s.jobs j (record (s.jobs j) { state = JobState.running });
      running_jobs = running;
      mem = m;
    }

unfoldable pub remove_running : ℕ → Sched → Sched
unfolding list_remove
remove_running j s =
    let (running, m) = list_remove s.running_jobs j s.mem in
    record s { running_jobs = running; mem = m }

-- `fly_sched_move_to_done`, which does not look at the error either.
unfoldable pub move_to_done : ℕ → Sched → Sched
unfolding list_append
move_to_done j s =
    let (err, done, m) = list_append s.done_jobs j s.mem in record s { done_jobs = done; mem = m }

-- `fly_sched_job_collected`
unfoldable pub job_collected : ℕ → Sched → Errcode × Sched
unfolding list_remove
job_collected j s =
    let (done, m) = list_remove s.done_jobs j s.mem in
    (success, record s { done_jobs = done; mem = m })

-- What `fly_sched_add_job_from_worker` does with a parallel for behind `fly_make_batches`.
unfoldable pub start_pfj :
    ℕ → (parent : ℕ) → Sched → Option (Errcode × Job × Memory) → Option (Errcode × Sched)
start_pfj j parent s none = none
start_pfj j parent s (some (err, job, m)) =
    let s1 : Sched = record s { jobs = change s.jobs j job; mem = m } in
    let s2 = move_to_running j s1 in
    let (job', m') = destroy_batches job m in
    some (
      err,
      if succeeded err
          then record s2 { workers = wake_others parent s2.workers }
          else record s1 { jobs = change s1.jobs j job'; mem = m' },
    )

-- `fly_sched_add_job_from_worker`, from a thread of the worker `parent`.
unfoldable pub add_job_from_worker : ℕ → (parent : ℕ) → Sched → Option (Errcode × Sched)
add_job_from_worker j parent s =
    if is_for (s.jobs j)
    then start_pfj j parent s (make_batches (s.jobs j) (nbworkers s) s.mem)
    else (if (s.jobs j).jtype == task then some (add_to_ready j s) else some (success, s))
