-- ===== src/Sched/Run.antt =====
-- The half of src/fly_sched.c that picks jobs and runs them.
-- The client's task functions enter as `apply`, from the function and its parameter to the result.
-- A client function that itself calls the library is not followed.
use libfly.Prelude.{
  ℕ, zero, suc, ◌+◌, Bool, true, not, Option, none, some, List, [], ◌∷◌, ◌++◌, ◌==◌, if◌then◌else◌,
  change,
}
use libfly.Prelude.Int.{ℤ, pos, ◌+ℤ◌, ◌-ℤ◌, ◌*ℤ◌, rounds}
use libfly.Memory.{null}
use libfly.Job.{Job, Batch, JobState, parallel_for, parallel_for_arr, task, is_done, get_exec_batch}
use libfly.Sched.{
  Sched, Call, for_call, task_call, is_for, set_job, list_tail_remove, wake_others, move_to_running,
  remove_running, move_to_done,
}

-- `fly_sched_get_ready`
unfoldable pub get_ready : Sched → ℕ × Sched
get_ready s =
    let (j, ready, m) = list_tail_remove s.ready_jobs s.mem in
    (j, record s { ready_jobs = ready; mem = m })

-- The loop of `fly_sched_get_running`; `job` is the last job that it looked at.
unfoldable pub running_loop : (ℕ → Job) → (job : ℕ) → List ℕ → ℕ
running_loop jobs job [] = job
running_loop jobs job (j ∷ js) =
    let rest = running_loop jobs j js in
    if (jobs j).batches_done == (jobs j).nbbatches then rest else j

-- `fly_sched_get_running`
unfoldable pub get_running : Sched → ℕ
get_running s = running_loop s.jobs null s.running_jobs

-- `fly_sched_get_job`, for a thread of the worker `parent`.
unfoldable pub get_job : (parent : ℕ) → Sched → ℕ × Sched
get_job parent s =
    let (j, s1) = get_ready s in
    if j == null
    then (get_running s1, s1)
    else if is_for (s1.jobs j)
    then (let s2 = move_to_running j s1 in
        (j, record s2 { workers = wake_others parent s2.workers }))
    else (if (s1.jobs j).jtype == task
        then (
          j,
          move_to_running j
              (set_job s1 j (record (s1.jobs j) { batches_done = (s1.jobs j).nbbatches })),
        )
        else (j, s1))

-- The loops of `fly_pfptrj_exec` and `fly_pfarrj_exec` at `i`, with `left` rounds to go.
unfoldable pub ptr_loop : (left i : ℕ) (func : ℕ) (start : ℤ) (param : ℕ) → List Call
ptr_loop zero i func start param = []
ptr_loop (suc left) i func start param =
    for_call func (start +ℤ pos i) (pos param) ∷ ptr_loop left (i + 1) func start param

unfoldable pub arr_loop : (left i : ℕ) (func : ℕ) (start param : ℤ) (elsize : ℕ) → List Call
arr_loop zero i func start param elsize = []
arr_loop (suc left) i func start param elsize =
    for_call func (start +ℤ pos i) param
    ∷ arr_loop left (i + 1) func start (param +ℤ pos elsize) elsize

unfoldable pub ptr_calls : Job → Batch → List Call
ptr_calls job b = ptr_loop (rounds (b.end -ℤ b.start)) 0 job.func b.start job.arg

unfoldable pub arr_calls : Job → Batch → List Call
arr_calls job b =
    arr_loop (rounds (b.end -ℤ b.start)) 0 job.func b.start
      (pos job.arg +ℤ (b.start *ℤ pos job.elsize)) job.elsize

-- What both do with the batch that they get: its calls, and one more batch done. The result is 1,
-- and nothing changes, where all batches are taken.
unfoldable pub exec_batch :
    (Job → Batch → List Call) → ℕ → Sched → Option (Batch × List Batch) → ℕ × Sched
exec_batch calls_of j s none = (1, s)
exec_batch calls_of j s (some (b, bs)) =
    let job = s.jobs j in
    (
      0,
      record s {
        jobs = change s.jobs j (record job { batches = bs; batches_done = job.batches_done + 1 });
        calls = s.calls ++ calls_of job b;
      },
    )

unfoldable pub batch_exec : (Job → Batch → List Call) → ℕ → Sched → ℕ × Sched
batch_exec calls_of j s = exec_batch calls_of j s (get_exec_batch (s.jobs j).batches)

unfoldable pub pfptrj_exec : ℕ → Sched → ℕ × Sched
pfptrj_exec = batch_exec ptr_calls

unfoldable pub pfarrj_exec : ℕ → Sched → ℕ × Sched
pfarrj_exec = batch_exec arr_calls

-- The end of `fly_sched_exec_job`, for a job that is done.
unfoldable pub complete : ℕ → Sched → Sched
complete j s =
    let s1 = set_job s j (record (s.jobs j) { state = JobState.done }) in
    let s2 = move_to_done j (remove_running j s1) in
    set_job s2 j (record (s2.jobs j) { sem = (s2.jobs j).sem + 1 })

module _ (apply : (func param : ℕ) → ℕ) where
  unfoldable pub taskjob_exec : ℕ → Sched → ℕ × Sched
  taskjob_exec j s =
      let t = (s.jobs j).arg in
      let tk = s.tasks t in
      (
        0,
        record s {
          tasks = change s.tasks t (record tk { result = apply tk.func tk.param });
          calls = s.calls ++ task_call tk.func tk.param ∷ [];
        },
      )

  -- The first part of `fly_sched_exec_job`, by the type of the job.
  unfoldable pub exec_by_type : ℕ → Sched → ℕ × Sched
  exec_by_type j s =
      if (s.jobs j).jtype == parallel_for
      then pfptrj_exec j s
      else if (s.jobs j).jtype == parallel_for_arr
      then pfarrj_exec j s
      else if (s.jobs j).jtype == task
      then taskjob_exec j s
      else (1, s)

  -- `fly_sched_exec_job`: whether the thread should sleep, and the new state.
  unfoldable pub exec_job : ℕ → Sched → ℕ × Sched
  exec_job j s =
      let (shouldsleep, s') = exec_by_type j s in
      (shouldsleep, if is_done (s'.jobs j) then complete j s' else s')

  -- `fly_schedule`; the Boolean says whether the thread goes to wait for work.
  unfoldable pub schedule : (parent : ℕ) → Sched → Bool × Sched
  schedule parent s =
      let (j, s1) = get_job parent s in
      let (shouldsleep, s2) = exec_job j s1 in
      if j == null then (true, s1) else (not (shouldsleep == 0), s2)

  -- `fly_schedule_for_job`
  unfoldable pub schedule_for_job : ℕ → Sched → Sched
  schedule_for_job j s = (exec_job j s).1
