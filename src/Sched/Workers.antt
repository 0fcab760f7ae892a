-- ===== src/Sched/Workers.antt =====
-- Any number of worker threads that run one parallel for at the same time: `fly_sched_exec_job` of
-- src/fly_sched.c in small steps, interleaved in any order. A step is one call of a client function,
-- one atomic operation on the job, or the completion of the job.
pub mod Invariant
pub mod Once
pub mod Busy
mod Examples
use libfly.Prelude.{
  ℕ, ◌+◌, ◌<◌, ◌≡◌, Option, none, some, List, [], ◌∷◌, ◌++◌, ◌==◌, if◌then◌else◌, length, change,
}
use libfly.Job.{Job, Batch, get_exec_batch}
use libfly.Sched.{Call}
use libfly.Sched.Drain.{job_calls}

-- The part of the job that its threads change, and the calls so far.
pub record Shared : Type 0 where
  pub batches : List Batch
  pub batches_done : ℕ
  pub sem : ℕ
  pub calls : List Call

-- Where a thread stands.
pub data Pc : Type 0 where
  outside : Pc  -- not in `fly_sched_exec_job`
  calling : (left : List Call) → Pc  -- in the loop over its batch, with these calls to make
  checking : Pc  -- at `fly_job_is_done`
  completing : Pc  -- between `fly_job_is_done` and the end of `fly_sem_post`

-- `fly_get_exec_batch`, and the start of the loop where it gives a batch.
unfoldable pub take : Job → Shared → Option (Batch × List Batch) → Shared × Pc
take job s none = (s, checking)
take job s (some (b, bs)) = (record s { batches = bs }, calling (job_calls job b))

-- The next step of a thread; from outside, it calls `fly_sched_exec_job`.
unfoldable pub turn : Job → Shared → Pc → Shared × Pc
unfolding take
turn job s outside = take job s (get_exec_batch s.batches)
turn job s (calling []) = (record s { batches_done = s.batches_done + 1 }, checking)
turn job s (calling (c ∷ cs)) = (record s { calls = s.calls ++ c ∷ [] }, calling cs)
turn job s checking = (s, if s.batches_done == job.nbbatches then completing else outside)
turn job s completing = (record s { sem = s.sem + 1 }, outside)

pub record System : Type 0 where
  pub shared : Shared
  pub pc : ℕ → Pc

-- One of the threads 0, …, n - 1 makes its next step.
pub data Step (n : ℕ) (job : Job) (s : System) : System → Type 0 where
  run :
      (i : ℕ) {l : Shared} {p : Pc}
      → i < n
      → turn job s.shared (s.pc i) ≡ (l, p)
      → Step n job s (record { shared = l; pc = change s.pc i p })

-- The job is cut into batches and no thread has it yet.
abbrev pub start : Job → System
start job = record {
  shared = record { batches = job.batches; batches_done = 0; sem = 0; calls = [] };
  pc = λ _. outside;
}

pub data Reach (n : ℕ) (job : Job) : System → Type 0 where
  here : Reach n job (start job)
  later : {s t : System} → Reach n job s → Step n job s t → Reach n job t
