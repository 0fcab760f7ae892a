-- ===== src/Client.antt =====
-- src/fly.c: the functions that a client calls, and `fly_wait_job` of src/fly_job.c.
-- `caller` is the worker that the calling thread belongs to, as `fly_sched_get_wthread` finds it.
-- `fresh` is the address that `fly_malloc` returns where it succeeds; the block holds what is there.
-- `init_ok` and `sem_ok` say whether `sem_init` and `sem_wait` succeed.
pub mod Recursion
pub mod Refused
pub mod Collect
pub mod Ending
pub mod Own
pub mod Whole
mod Examples
use libfly.Prelude.{
  ℕ, zero, suc, ◌+◌, Bool, true, false, Option, none, some, List, [], ◌∷◌, ◌==◌, if◌then◌else◌,
  change, ltb,
}
use libfly.Prelude.Int.{ℤ}
use libfly.Errors.{Errcode, success, no_resources, bad_attribute, low_level, succeeded}
use libfly.Memory.{null}
use libfly.Malloc.{Memory, malloc, free}
use libfly.Job.{Job, create_job_pfor, create_job_pfarr, create_job_task, destroy_job, is_done}
use libfly.Sched.{Sched, Task, set_job, job_collected, add_job, add_job_from_worker}
use libfly.Sched.Run.{schedule_for_job}

-- What becomes of a call: it returns, it sleeps on a semaphore, it divides by zero or follows
-- `NULL`, or it used up its rounds.
pub data Outcome (A : Type 0) : Type 0 where
  returns : A → Outcome A
  sleeps : Outcome A
  crashes : Outcome A
  out_of_fuel : Outcome A

-- What the caller does with the result of a call that returns.
abbrev pub then_do : {A B : Type 0} → Outcome A → (A → Outcome B) → Outcome B
then_do (returns a) k = k a
then_do sleeps k = sleeps
then_do crashes k = crashes
then_do out_of_fuel k = out_of_fuel

abbrev added : Option (Errcode × Sched) → Outcome (Errcode × Sched)
added none = crashes
added (some out) = returns out

-- `fly_sem_notrack_wait` on a count, and the rest of `fly_wait_job` behind it.
unfoldable pub wait_on : (count j : ℕ) → Sched → Outcome (Errcode × Sched)
wait_on zero j s = sleeps
wait_on (suc n) j s = returns (job_collected j (set_job s j (record (s.jobs j) { sem = n })))

-- `fly_wait_job`
unfoldable pub wait_job : (sem_ok : Bool) (j : ℕ) → Sched → Outcome (Errcode × Sched)
wait_job sem_ok j s = if sem_ok then wait_on (s.jobs j).sem j s else returns (low_level, s)

-- `fly_destroy_job` on the job at an address.
unfoldable pub destroy_at : ℕ → Sched → Sched
destroy_at j s = record s { mem = destroy_job (s.jobs j) s.mem }

module _ (apply : (func param : ℕ) → ℕ) where
  -- `while (!fly_job_is_done(job)) fly_schedule_for_job(wthread, job);`
  unfoldable pub exec_until_done : (fuel j : ℕ) → Sched → Outcome Sched
  exec_until_done zero j s = out_of_fuel
  exec_until_done (suc k) j s =
      let rest = exec_until_done k j (schedule_for_job apply j s) in
      if is_done (s.jobs j) then returns s else rest

  -- The adding half of `fly_add_job_and_wait`.
  unfoldable pub add_from : (caller : Option ℕ) (j : ℕ) → Sched → Outcome (Errcode × Sched)
  add_from none j s = added (add_job j s)
  add_from (some parent) j s = added (
      add_job_from_worker j parent
        (set_job s j (record (s.jobs j) { recurse = (s.jobs j).recurse + 1 })))

  -- `fly_add_job_and_wait`
  unfoldable pub add_job_and_wait :
      (fuel : ℕ) (sem_ok : Bool) (caller : Option ℕ) (j : ℕ) (wait : Bool)
      → Sched
      → Outcome (Errcode × Sched)
  add_job_and_wait fuel sem_ok caller j wait s = then_do (add_from caller j s) (λ (err, s1).
      if succeeded err
      then (if wait
          then then_do (if ltb 0 (s1.jobs j).recurse then exec_until_done fuel j s1 else returns s1)
              (λ s2. wait_job sem_ok j s2)
          else returns (err, s1))
      else returns (err, s1))

  -- `fly_parallel_for` and `fly_parallel_for_arr` behind the creation of the job.
  unfoldable pub run_job :
      (fuel : ℕ) (sem_ok : Bool) (caller : Option ℕ) (fresh : ℕ)
      → Sched
      → Option Job × Memory
      → Outcome (Errcode × Sched)
  run_job fuel sem_ok caller fresh s (none, m) = returns (no_resources, record s { mem = m })
  run_job fuel sem_ok caller fresh s (some job, m) =
      then_do
        (add_job_and_wait fuel sem_ok caller fresh true (set_job (record s { mem = m }) fresh job))
        (λ (err, s'). returns (err, destroy_at fresh s'))

  unfoldable pub fly_parallel_for :
      (fuel : ℕ) (init_ok sem_ok : Bool) (caller : Option ℕ) (fresh : ℕ) (count : ℤ) (func ptr : ℕ)
      → Sched
      → Outcome (Errcode × Sched)
  fly_parallel_for fuel init_ok sem_ok caller fresh count func ptr s =
      run_job fuel sem_ok caller fresh s
        (create_job_pfor init_ok (s.jobs fresh) count func ptr s.mem)

  unfoldable pub fly_parallel_for_arr :
      (fuel : ℕ) (init_ok sem_ok : Bool) (caller : Option ℕ) (fresh : ℕ) (start end : ℤ)
      (func arr elsize : ℕ)
      → Sched
      → Outcome (Errcode × Sched)
  fly_parallel_for_arr fuel init_ok sem_ok caller fresh start end func arr elsize s =
      run_job fuel sem_ok caller fresh s
        (create_job_pfarr init_ok (s.jobs fresh) start end func arr elsize s.mem)

  -- `fly_push_task` behind the creation of the job.
  unfoldable pub push_job :
      (caller : Option ℕ) (fresh t : ℕ) → Sched → Option Job × Memory → Outcome (Errcode × Sched)
  push_job caller fresh t s (none, m) = returns (no_resources, record s { mem = m })
  push_job caller fresh t s (some job, m) =
      then_do
        (add_job_and_wait 0 true caller fresh false (
          set_job
            (record s {
              mem = m;
              tasks = change s.tasks t (record (s.tasks t) { sched_data = fresh });
            })
            fresh job))
        (λ (err, s'). returns (err, if succeeded err then s' else destroy_at fresh s'))

  unfoldable pub push_task :
      (init_ok : Bool) (caller : Option ℕ) (fresh t : ℕ) → Sched → Outcome (Errcode × Sched)
  push_task init_ok caller fresh t s =
      push_job caller fresh t s (create_job_task init_ok (s.jobs fresh) (s.tasks t).func t s.mem)

-- `fly_create_task`, which writes through `NULL` where `fly_malloc` fails.
unfoldable pub create_task : (fresh func param : ℕ) → Sched → Outcome (ℕ × Sched)
create_task fresh func param s =
    let (got, m) = malloc s.mem in
    let tk = record (s.tasks fresh) { func = func; param = param; sched_data = null } in
    if got then returns (fresh, record s { tasks = change s.tasks fresh tk; mem = m }) else crashes

unfoldable pub destroy_task : Sched → Sched
destroy_task s = record s { mem = free s.mem }

unfoldable pub wait_task : (sem_ok : Bool) (t : ℕ) → Sched → Outcome (Errcode × Sched)
wait_task sem_ok t s =
    let j = (s.tasks t).sched_data in
    if j == null
    then returns (bad_attribute, s)
    else then_do (wait_job sem_ok j s)
        (λ (err, s'). returns (err, if succeeded err then destroy_at j s' else s'))

-- The loop of `fly_wait_tasks`, with `err` so far.
unfoldable pub wait_tasks_loop :
    (sem_ok : Bool) (err : Errcode) → List ℕ → Sched → Outcome (Errcode × Sched)
wait_tasks_loop sem_ok err [] s = returns (err, s)
wait_tasks_loop sem_ok err (t ∷ ts) s =
    then_do (wait_task sem_ok t s)
      (λ (tmp, s'). wait_tasks_loop sem_ok (if succeeded tmp then err else tmp) ts s')

unfoldable pub wait_tasks : (sem_ok : Bool) → List ℕ → Sched → Outcome (Errcode × Sched)
wait_tasks sem_ok ts s = wait_tasks_loop sem_ok success ts s

unfoldable pub get_task_result : ℕ → Sched → ℕ
get_task_result t s = (s.tasks t).result
