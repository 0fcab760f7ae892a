-- ===== src/Sched/Running.antt =====
-- `fly_sched_get_running` of src/fly_sched.c, and what `fly_schedule` makes of the job that it gets.
use libfly.Prelude.{ℕ, ◌+◌, ◌≡◌, ◌≢◌, sym, ap, ◌∙◌, true, false, List, [], ◌∷◌, ◌++◌, arith, ◌==◌}
use libfly.Job.{Job, task, parallel_for, parallel_for_arr, is_done}
use libfly.Memory.{null}
use libfly.Sched.{Sched, task_call, list_tail_remove}
use libfly.Sched.Run.{
  get_ready, running_loop, get_running, get_job, complete, taskjob_exec, exec_by_type, exec_job,
  schedule,
}
use libfly.Sched.Complete.{complete_lem}

-- All jobs of the list are done.
abbrev pub AllDone : (ℕ → Job) → List ℕ → Type 0
AllDone jobs [] = Unit
AllDone jobs (j ∷ js) = ((jobs j).batches_done ≡ (jobs j).nbbatches) × AllDone jobs js

running_loop_done :
    (jobs : ℕ → Job) (job : ℕ) (xs : List ℕ) (j : ℕ)
    → AllDone jobs (xs ++ j ∷ [])
    → running_loop jobs job (xs ++ j ∷ []) ≡ j
unfolding running_loop
running_loop_done jobs job [] j done = ground (arith, done.0)
running_loop_done jobs job (x ∷ xs) j done =
    ground (arith, done.0, running_loop_done jobs x xs j done.1)

running_loop_open :
    (jobs : ℕ → Job) (job : ℕ) (xs : List ℕ) (j : ℕ) (ys : List ℕ)
    → AllDone jobs xs
    → (jobs j).batches_done ≢ (jobs j).nbbatches
    → running_loop jobs job (xs ++ j ∷ ys) ≡ j
unfolding running_loop
running_loop_open jobs job [] j ys done open_job = ground arith
running_loop_open jobs job (x ∷ xs) j ys done open_job =
    ground (arith, done.0, running_loop_open jobs x xs j ys done.1 open_job)

-- `fly_sched_get_running` gives the first running job that is not done.
get_running_open :
    (s : Sched) (xs : List ℕ) (j : ℕ) (ys : List ℕ)
    → s.running_jobs ≡ xs ++ j ∷ ys
    → AllDone s.jobs xs
    → (s.jobs j).batches_done ≢ (s.jobs j).nbbatches
    → get_running s ≡ j
unfolding get_running
get_running_open s xs j ys e done open_job =
    rw e (running_loop_open s.jobs null xs j ys done open_job)

exec_job-task :
    (apply : (func param : ℕ) → ℕ) (s : Sched) (j : ℕ)
    → (s.jobs j).jtype ≡ task
    → (s.jobs j).batches_done ≡ (s.jobs j).nbbatches
    → exec_job apply j s ≡ (0, complete j (taskjob_exec apply j s).1)
unfolding exec_job exec_by_type is_done taskjob_exec
exec_job-task apply s j e done =
    let not_ptr : ((s.jobs j).jtype == parallel_for) ≡ false = rw e in
    let not_arr : ((s.jobs j).jtype == parallel_for_arr) ≡ false = rw e in
    let is_task : ((s.jobs j).jtype == task) ≡ true = rw e in
    let all : ((s.jobs j).batches_done == (s.jobs j).nbbatches) ≡ true = ground arith in
    rw (not_ptr, not_arr, is_task, all)

get_ready-nil : (s : Sched) → s.ready_jobs ≡ [] → get_ready s ≡ (null, s)
unfolding get_ready list_tail_remove
get_ready-nil s none =
    ap
      (λ xs.
        let (j, ready, m) = list_tail_remove xs s.mem in
        (j, record s { ready_jobs = ready; mem = m }))
      none
    ∙ ap (λ xs. (null, record s { ready_jobs = xs })) (sym none)

get_job-running :
    (s : Sched) (parent j : ℕ) → s.ready_jobs ≡ [] → get_running s ≡ j → get_job parent s ≡ (j, s)
unfolding get_job
get_job-running s parent j none e = rw (get_ready-nil s none) (ap (λ k. (k, s)) e)

-- A thread that looks for work while no job is ready and all running jobs are done, the last of
-- them a task: `fly_schedule` runs that task again, posts its semaphore again and does not sleep.
pub schedule_again :
    (apply : (func param : ℕ) → ℕ) (s : Sched) (parent : ℕ) (xs : List ℕ) (j : ℕ)
    → s.ready_jobs ≡ []
    → s.running_jobs ≡ xs ++ j ∷ []
    → AllDone s.jobs (xs ++ j ∷ [])
    → (s.jobs j).batches_done ≡ (s.jobs j).nbbatches
    → j ≢ null
    → (s.jobs j).jtype ≡ task
    → (t : Sched) × (schedule apply parent s ≡ (false, t))
      × (t.calls
          ≡ s.calls ++ task_call (s.tasks (s.jobs j).arg).func (s.tasks (s.jobs j).arg).param ∷ [])
      × ((t.jobs j).sem ≡ (s.jobs j).sem + 1)
unfolding schedule taskjob_exec
schedule_again apply s parent xs j none e all done ne is_task =
    let last : get_running s ≡ j =
      unfold get_running in rw e (running_loop_done s.jobs null xs j all) in
    let ran = (taskjob_exec apply j s).1 in
    let found : (j == null) ≡ false = ground arith in
    let finished = complete_lem ran j done in
    (
      complete j ran,
      rw (get_job-running s parent j none last, exec_job-task apply s j is_task done, found),
      finished.1,
      finished.0.posted,
    )
