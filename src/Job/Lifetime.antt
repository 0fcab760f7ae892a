-- ===== src/Job/Lifetime.antt =====
-- A job of src/fly_job.c from its creation over its batches to `fly_destroy_job`.
use libfly.Prelude.{ℕ, ◌+◌, ◌≤◌, ◌<◌, ◌≡◌, refl, true, some, List, [], ◌∷◌, arith, length, Bool}
use libfly.Prelude.Int.{ℤ, pos, int_max, Spans, int_laws}
use native.Mathlib.Decide.{dec_lt}
use libfly.Errors.{success}
use libfly.Malloc.{Memory, malloc, free, Enough}
use libfly.Job.{Job, JobState, parallel_for, new_job, create_job_pfor, make_batches, destroy_job}
use libfly.Job.Batches.{Makes, made, memory, make_batches-even, make_batches-few, free_batches-live}

-- A job with its batches, and one block for itself, is given back whole.
destroy_job-made :
    {job : Job} {n : ℕ} {m : Memory} {is : List ℤ} (cut : Makes job n m is)
    → 0 < m.live
    → (destroy_job (made job n cut.bs) (memory cut.rest (m.live + (n + n)))).live + 1 ≡ m.live
unfolding destroy_job free
destroy_job-made {n} {m} cut held =
    let given : length cut.bs + length cut.bs ≤ m.live + (n + n) = omega (arith, cut.count) in
    omega (arith, cut.count, free_batches-live cut.bs (memory cut.rest (m.live + (n + n))) given)

-- A job for a parallel for of `c` calls, a number that an `int` holds, that is created, cut into any positive number of batches and
-- destroyed, where every block can be had: each step succeeds, and at the end as many blocks are in
-- use as before.
pub create-make-destroy :
    (garbage : Job) (c func ptr n : ℕ) (m : Memory) (rest : List Bool)
    → c ≤ int_max
    → m.answers ≡ true ∷ rest
    → 0 < n
    → Enough (n + n) rest
    → (job : Job) × (m1 : Memory) × (job' : Job) × (m' : Memory) × (create_job_pfor true garbage
          (pos c)
          func
          ptr
          m
        ≡ (some job, m1))
      × (make_batches job n m1 ≡ some (success, job', m'))
      × ((destroy_job job' m').live ≡ m.live)
unfolding create_job_pfor new_job malloc
create-make-destroy garbage c func ptr n m rest fits first some_batch enough =
    let job : Job = record garbage {
      batches = [];
      nbbatches = 0;
      batches_done = 0;
      func = func;
      arg = ptr;
      start = pos 0;
      end = pos c;
      jtype = parallel_for;
      recurse = 0;
      state = JobState.idle;
      sem = 0;
    } in
    let m1 = memory rest (m.live + 1) in
    let calls : Spans (pos 0) (pos c) c = (omega int_laws, fits) in
    elim (dec_lt c n) [
      | yes lt ↦
          let cut = make_batches-few job c n refl calls some_batch m1 enough lt in
          (
            job,
            m1,
            made job n cut.bs,
            memory cut.rest (m1.live + (n + n)),
            rw first,
            cut.runs,
            omega (arith, destroy_job-made cut (omega arith)),
          )
      | no ge ↦
          let cut = make_batches-even job c n refl calls some_batch m1 enough (omega arith) in
          (
            job,
            m1,
            made job n cut.bs,
            memory cut.rest (m1.live + (n + n)),
            rw first,
            cut.runs,
            omega (arith, destroy_job-made cut (omega arith)),
          )
    ]
