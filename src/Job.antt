-- ===== src/Job.antt =====
-- src/fly_job.h and src/fly_job.c: jobs and their batches.
-- An `int` is a ℤ, a count that is never negative an ℕ. `fly_malloc` answers through `Memory`, and
-- `garbage` is what it leaves in a block. The list of batches is the sequence of its elements.
pub mod Indices
pub mod Batches
pub mod Bounds
pub mod Lifetime
pub mod Examples
use libfly.Prelude.{
  ℕ, zero, suc, ◌+◌, Bool, true, false, not, ◌&&◌, Option, none, some, List, [], ◌∷◌, ◌++◌, ◌==◌,
  if◌then◌else◌,
}
use libfly.Prelude.Int.{ℤ, pos, ◌+ℤ◌, ◌*ℤ◌, int_sub, ltb_ℤ, is_zero, div_ℤ, mod_ℤ}
use mathlib.Core.Option
use libfly.Errors.{Errcode, success, no_resources}
use libfly.Malloc.{Memory, malloc, free}

-- `enum fly_job_state`
pub data JobState : Type 0 where
  idle preparing ready running done : JobState

-- FLY_TASK_PARALLEL_FOR, FLY_TASK_PARALLEL_FOR_ARR and FLY_TASK_TASK of src/fly_sched.h
abbrev pub parallel_for : ℕ
parallel_for = 1

abbrev pub parallel_for_arr : ℕ
parallel_for_arr = 2

abbrev pub task : ℕ
task = 3

-- `struct fly_job_batch`, less the pointer to its job.
pub record Batch : Type 0 where
  pub start : ℤ
  pub end : ℤ
  pub execed : Bool

-- `struct fly_job`. `func` and `arg` are pointers of the client: the function, and the array, the
-- argument of all calls or the task. `sem` is the count of the semaphore.
pub record Job : Type 0 where
  pub batches : List Batch
  pub nbbatches : ℕ
  pub batches_done : ℕ
  pub func : ℕ
  pub arg : ℕ
  pub elsize : ℕ
  pub start : ℤ
  pub end : ℤ
  pub jtype : ℕ
  pub recurse : ℕ
  pub state : JobState
  pub sem : ℕ

-- `fly_malloc` of a job and `fly_sem_init` of its semaphore, which succeeds if `sem_ok`; the block
-- is given back where the semaphore fails.
unfoldable pub new_job : (sem_ok : Bool) → Memory → Job → Option Job × Memory
unfolding malloc free
new_job sem_ok m job =
    let (got, m') = malloc m in
    if got then (if sem_ok then (some job, m') else (none, free m')) else (none, m')

unfoldable pub create_job_pfor :
    (sem_ok : Bool) (garbage : Job) (count : ℤ) (func ptr : ℕ) → Memory → Option Job × Memory
unfolding new_job
create_job_pfor sem_ok garbage count func ptr m = new_job sem_ok m (record garbage {
  batches = [];
  nbbatches = 0;
  batches_done = 0;
  func = func;
  arg = ptr;
  start = pos 0;
  end = count;
  jtype = parallel_for;
  recurse = 0;
  state = idle;
  sem = 0;
})

unfoldable pub create_job_pfarr :
    (sem_ok : Bool) (garbage : Job) (start end : ℤ) (func arr elsize : ℕ)
    → Memory
    → Option Job × Memory
unfolding new_job
create_job_pfarr sem_ok garbage start end func arr elsize m =
    if ltb_ℤ (pos 0) (int_sub end start)
    then new_job sem_ok m (record garbage {
      batches = [];
      nbbatches = 0;
      batches_done = 0;
      func = func;
      arg = arr;
      elsize = elsize;
      start = start;
      end = end;
      jtype = parallel_for_arr;
      recurse = 0;
      state = idle;
      sem = 0;
    })
    else (none, m)

unfoldable pub create_job_task :
    (sem_ok : Bool) (garbage : Job) (task_func task_ptr : ℕ) → Memory → Option Job × Memory
unfolding new_job
create_job_task sem_ok garbage task_func task_ptr m = new_job sem_ok m (record garbage {
  batches = [];
  nbbatches = 1;
  batches_done = 0;
  func = task_func;
  arg = task_ptr;
  jtype = task;
  recurse = 0;
  state = idle;
  sem = 0;
})

-- `while (!fly_list_is_empty(&job->batches))`: each round takes the last batch out of the list,
-- which gives its cell back, and gives the batch back.
unfoldable pub free_batches : List Batch → Memory → Memory
unfolding free
free_batches [] m = m
free_batches (b ∷ bs) m = free (free (free_batches bs m))

unfoldable pub destroy_batches : Job → Memory → Job × Memory
unfolding free_batches
destroy_batches job m = (record job { batches = [] }, free_batches job.batches m)

unfoldable pub destroy_job : Job → Memory → Memory
unfolding free_batches free
destroy_job job m = free (free_batches job.batches m)

-- `fly_job_is_done`
unfoldable pub is_done : Job → Bool
is_done job = job.batches_done == job.nbbatches

-- `job_make_batch` and `job_add_batch` in a round of `fly_make_batches`: a block for the batch and
-- one for its cell in the list. A batch that cannot be added is given back.
unfoldable pub add_batch : List Batch → Batch → Memory → Bool × List Batch × Memory
unfolding malloc free
add_batch bs b m =
    let (made, m1) = malloc m in
    let (added, m2) = malloc m1 in
    if made
    then (if added then (true, bs ++ b ∷ [], m2) else (false, bs, free m2))
    else (false, bs, m1)

-- The `for` loop of `fly_make_batches` at `i`, with `left` rounds to go. The Boolean says whether
-- `i` came to `nbbatches`.
unfoldable pub batches_loop :
    (left i : ℕ) (job_start batchsize : ℤ) → List Batch → Memory → Bool × List Batch × Memory
batches_loop zero i job_start batchsize bs m = (true, bs, m)
batches_loop (suc left) i job_start batchsize bs m =
    let start = job_start +ℤ (pos i *ℤ batchsize) in
    let batch : Batch = record { start = start; end = start +ℤ batchsize; execed = false } in
    let (added, bs', m') = add_batch bs batch m in
    let rest = batches_loop left (i + 1) job_start batchsize bs' m' in
    if added then rest else (false, bs', m')

-- `batch->end += extra` on the last batch.
unfoldable pub extend_last : List Batch → ℤ → List Batch
extend_last [] extra = []
extend_last (b ∷ []) extra = record b { end = b.end +ℤ extra } ∷ []
extend_last (b ∷ c ∷ bs) extra = b ∷ extend_last (c ∷ bs) extra

-- `if (batchsize == 0) batchsize++;`
abbrev pub at_least_one : ℤ → ℤ
at_least_one (pos zero) = pos 1
at_least_one size = size

-- `batchsize`, from the number of calls and of batches.
unfoldable pub batch_size : ℤ → ℕ → ℤ
unfolding div_ℤ
batch_size funcscount nbbatches = at_least_one (div_ℤ funcscount nbbatches)

-- `none`: the division by `nbbatches` is one by zero.
unfoldable pub make_batches : Job → ℕ → Memory → Option (Errcode × Job × Memory)
make_batches job nbbatches m =
    if nbbatches == 0
    then none
    else let funcscount = int_sub job.end job.start in
      let extra = mod_ℤ funcscount nbbatches in
      let (all, bs, m') =
        batches_loop nbbatches 0 job.start (batch_size funcscount nbbatches) job.batches m in
      if all
      then some (
        success,
        record job {
          batches =
              if ltb_ℤ (pos nbbatches) funcscount && not (is_zero extra)
              then extend_last bs extra
              else bs;
          nbbatches = nbbatches;
          state = ready;
        },
        m',
      )
      else some (no_resources, record job { batches = []; state = idle }, free_batches bs m')

-- `fly_get_exec_batch`: the first batch that nobody has taken is marked as taken.
unfoldable pub get_exec_batch : List Batch → Option (Batch × List Batch)
get_exec_batch [] = none
get_exec_batch (b ∷ bs) =
    let taken = record b { execed = true } in
    elim b.execed [
      | false ↦ some (taken, taken ∷ bs)
      | true ↦ Option.map (λ (c, cs). (c, b ∷ cs)) (get_exec_batch bs)
    ]
