-- ===== src/Sched/Pool.antt =====
-- All worker threads of src/fly_sched.c on all jobs: `fly_schedule` in small steps, interleaved in
-- any order with clients that add jobs. A section under a lock of the scheduler is one step, and so is
-- an atomic operation on a job, a call of a client function, and the post of a semaphore.
pub mod Seen
pub mod Project
pub mod Turns
pub mod Counts
pub mod Parts
pub mod Ready
pub mod Places
pub mod Kept
pub mod Alert
pub mod Each
pub mod Facts
pub mod Someone
pub mod Awake
pub mod Taken
pub mod Tasks
pub mod TaskCalls
pub mod TaskOnly
pub mod Once
pub mod Quiet
pub mod Effort
pub mod Less
pub mod Drops
pub mod Leads
pub mod Onward
pub mod Settle
mod Examples
use libfly.Prelude.{
  ℕ, zero, suc, ◌+◌, ◌-◌, ◌<◌, ◌≡◌, ◌≢◌, ◌⊎◌, Bool, true, false, ◌||◌, Option, none, some, List, [],
  ◌∷◌, ◌++◌, ◌==◌, if◌then◌else◌, change,
}
use libfly.Memory.{null}
use libfly.FlyList.View.{erase, pop_back}
use libfly.Job.{Job, task, get_exec_batch}
use libfly.Sched.{Task, Call, task_call, is_for}
use libfly.Sched.Run.{running_loop}
use libfly.Sched.Workers
use libfly.Sched.Workers.{Shared, Pc, outside, calling, checking, completing, turn}

-- Where a worker thread stands in `fly_schedule`. `sleepy` says that `fly_sched_exec_job` will return 1.
pub data PoolPc : Type 0 where
  searching : PoolPc  -- at `fly_sched_get_ready`
  moving : (j : ℕ) → PoolPc  -- at `fly_sched_move_to_running`, with the job from the ready list
  looking : PoolPc  -- at `fly_sched_get_running`
  executing : (sleepy : Bool) (j : ℕ) (p : Pc) → PoolPc  -- in `fly_sched_exec_job`
  removing : (sleepy : Bool) (j : ℕ) → PoolPc  -- at `fly_sched_remove_running`
  finishing : (sleepy : Bool) (j : ℕ) → PoolPc  -- at `fly_sched_move_to_done`
  posting : (sleepy : Bool) (j : ℕ) → PoolPc  -- at the `fly_sem_post` of the job
  waiting : PoolPc  -- at `fly_worker_thread_wait_work`

-- `shared j` is the part of job `j` that threads change. The threads of worker `w` are `w + w` and
-- `w + w + 1`, and `sem` counts their semaphores; `pending w` is the number of calls of
-- `fly_worker_work_available` that others have still to make for worker `w`. `added` are the jobs that
-- clients have added so far.
pub record Pool : Type 0 where
  pub ready_jobs : List ℕ
  pub running_jobs : List ℕ
  pub done_jobs : List ℕ
  pub shared : ℕ → Shared
  pub sem : ℕ → ℕ
  pub pending : ℕ → ℕ
  pub added : ℕ → Bool
  pub pc : ℕ → PoolPc

abbrev pub goto : Pool → ℕ → PoolPc → Pool
goto s i p = record s { pc = change s.pc i p }

-- The end of `fly_schedule`, and the next one.
abbrev pub leave : Bool → PoolPc
leave sleepy = if sleepy then waiting else searching

-- A task that is taken from the ready list counts as done at once.
abbrev pub claim : Job → Shared → Shared
claim job sh = if job.jtype == task then record sh { batches_done = job.nbbatches } else sh

abbrev pub is_none {ℓ} : {A : Type ℓ} → Option A → Bool
is_none none = true
is_none (some a) = false

-- The types that `fly_sched_add_job` puts into the ready list.
abbrev pub is_known : Job → Bool
is_known job = is_for job || job.jtype == task

-- The thread `i` belongs to the worker `w`.
abbrev pub belongs : (i w : ℕ) → Bool
belongs i w = i == w + w || i == w + w + 1

module _ (jobs : ℕ → Job) (tasks : ℕ → Task) where
  -- `fly_sched_get_ready`
  unfoldable pub search : ℕ → List ℕ → Pool → Pool
  search i [] s = goto s i looking
  search i (x ∷ xs) s =
      let (j, rest) = pop_back (x ∷ xs) in
      goto
        (record s { ready_jobs = rest; shared = change s.shared j (claim (jobs j) (s.shared j)) }) i
        (moving j)

  -- `fly_sched_move_to_running`, where `ok` says whether its cell can be had.
  abbrev pub put_running : (ok : Bool) → ℕ → Pool → Pool
  put_running ok j s = record s {
    running_jobs = if ok then s.running_jobs ++ j ∷ [] else s.running_jobs;
  }

  -- The rest of `fly_sched_get_job` for a job from the ready list.
  unfoldable pub move : (ok : Bool) (i j : ℕ) → Pool → Pool
  move ok i j s =
      if is_for (jobs j)
      then record (put_running ok j s) {
        pending = λ w. if belongs i w then s.pending w else s.pending w + 1;
      }
      else (if (jobs j).jtype == task then put_running ok j s else s)

  -- A job as it is at the moment.
  abbrev pub current : Pool → ℕ → Job
  current s j = record (jobs j) { batches_done = (s.shared j).batches_done }

  -- `fly_sched_get_running`
  unfoldable pub look : Pool → ℕ
  look s = running_loop (current s) null s.running_jobs

  -- The first part of `fly_sched_exec_job`, by the type of the job.
  unfoldable pub enter : (i j : ℕ) → Pool → Pool
  enter i j s =
      let out = turn (jobs j) (s.shared j) outside in
      let tk = tasks (jobs j).arg in
      let called = record (s.shared j) {
        calls = (s.shared j).calls ++ task_call tk.func tk.param ∷ [];
      } in
      if is_for (jobs j)
      then goto (record s { shared = change s.shared j out.0 }) i
          (executing (is_none (get_exec_batch (s.shared j).batches)) j out.1)
      else (if (jobs j).jtype == task
          then goto (record s { shared = change s.shared j called }) i (executing false j checking)
          else goto s i (executing true j checking))

  -- One more call, or the end of the loop over a batch.
  unfoldable pub call : (i : ℕ) (sleepy : Bool) (j : ℕ) → List Call → Pool → Pool
  call i sleepy j cs s =
      let out = turn (jobs j) (s.shared j) (calling cs) in
      goto (record s { shared = change s.shared j out.0 }) i (executing sleepy j out.1)

  -- `fly_job_is_done` in `fly_sched_exec_job`
  unfoldable pub check : (i : ℕ) (sleepy : Bool) (j : ℕ) → Pool → Pool
  check i sleepy j s =
      goto s i (
        if (s.shared j).batches_done == (jobs j).nbbatches then removing sleepy j else leave sleepy)

  unfoldable pub post : (i : ℕ) (sleepy : Bool) (j : ℕ) → Pool → Pool
  post i sleepy j s =
      goto
        (record s {
          shared = change s.shared j (record (s.shared j) { sem = (s.shared j).sem + 1 });
        })
        i (leave sleepy)

  -- `sem_wait`: without a post the thread stays where it is.
  unfoldable pub wake : ℕ → (count : ℕ) → Pool → Pool
  wake i zero s = s
  wake i (suc n) s = goto (record s { sem = change s.sem i n }) i searching

  -- The next step of thread `i`, where it stands.
  unfoldable pub act : (ok : Bool) (i : ℕ) → PoolPc → Pool → Pool
  act ok i searching s = search i s.ready_jobs s
  act ok i (moving j) s = goto (move ok i j s) i (executing false j outside)
  act ok i looking s =
      goto s i (if look s == null then waiting else executing false (look s) outside)
  act ok i (executing sleepy j outside) s = enter i j s
  act ok i (executing sleepy j (calling cs)) s = call i sleepy j cs s
  act ok i (executing sleepy j checking) s = check i sleepy j s
  act ok i (executing sleepy j completing) s = goto s i (removing sleepy j)
  act ok i (removing sleepy j) s =
      goto (record s { running_jobs = erase j s.running_jobs }) i (finishing sleepy j)
  act ok i (finishing sleepy j) s =
      goto (record s { done_jobs = if ok then s.done_jobs ++ j ∷ [] else s.done_jobs }) i
        (posting sleepy j)
  act ok i (posting sleepy j) s = post i sleepy j s
  act ok i waiting s = wake i (s.sem i) s

  -- One step with `nbworkers` workers. If `roomy`, every cell of the running list can be had.
  pub data Step (nbworkers : ℕ) (roomy : Bool) (s : Pool) : Pool → Type 0 where
    -- A client puts a job into the ready list, and has then to wake every worker.
    add :
        (j : ℕ)
        → j ≢ null
        → is_known (jobs j) ≡ true
        → s.added j ≡ false
        → Step nbworkers roomy s (record s {
          ready_jobs = s.ready_jobs ++ j ∷ [];
          added = change s.added j true;
          pending = λ w. s.pending w + 1;
        })
    -- `fly_worker_work_available` posts one of the two threads of a worker.
    wake_up :
        (w t : ℕ)
        → w < nbworkers
        → 0 < s.pending w
        → (t ≡ w + w) ⊎ (t ≡ w + w + 1)
        → Step nbworkers roomy s (record s {
          pending = change s.pending w (s.pending w - 1);
          sem = change s.sem t (s.sem t + 1);
        })
    run :
        (ok : Bool) (i : ℕ)
        → i < nbworkers + nbworkers
        → (roomy ≡ true → ok ≡ true)
        → Step nbworkers roomy s (act ok i (s.pc i) s)

  -- The workers have started, and no job has been added.
  abbrev pub start : Pool
  start = record {
    ready_jobs = [];
    running_jobs = [];
    done_jobs = [];
    shared = λ j. (Workers.start (jobs j)).shared;
    sem = λ _. 0;
    pending = λ _. 0;
    added = λ _. false;
    pc = λ _. searching;
  }

  pub data Reach (nbworkers : ℕ) (roomy : Bool) : Pool → Type 0 where
    here : Reach nbworkers roomy start
    later :
        {s t : Pool} → Reach nbworkers roomy s → Step nbworkers roomy s t → Reach nbworkers roomy t
