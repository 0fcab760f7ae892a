-- ===== src/Job/Examples.antt =====
-- Jobs of src/fly_job.c that are cut into batches: five calls for two workers, one call for three.
use libfly.Prelude.{ℕ, ◌≡◌, refl, some, true, false, List, [], ◌∷◌, arith}
use libfly.Prelude.Int.{pos, ◌-ℤ◌, range}
use libfly.Errors.{success, no_resources}
use libfly.Job.Lifetime.{create-make-destroy}
use libfly.Malloc.{Memory}
use libfly.Job.{Job, Batch, JobState, parallel_for, make_batches, create_job_pfor, destroy_job}
use libfly.Job.Bounds.{Tiles, AllWithin, make_batches-Tiles}
use libfly.Job.Batches.{made, Makes, make_batches-even, make_batches-short, given_up}

abbrev pub calls_of : ℕ → Job
calls_of count = record {
  batches = [];
  nbbatches = 0;
  batches_done = 0;
  func = 100;
  arg = 200;
  elsize = 8;
  start = pos 0;
  end = pos count;
  jtype = parallel_for;
  recurse = 0;
  state = JobState.idle;
  sem = 0;
}

abbrev pub roomy : Memory
roomy = record { answers = true ∷ true ∷ true ∷ true ∷ true ∷ true ∷ []; live = 1 }

make_batches-even_example : Makes (calls_of 5) 2 roomy (range (pos 0) 5)
unfolding ◌-ℤ◌
make_batches-even_example =
    make_batches-even (calls_of 5) 5 2 refl (refl, omega arith) (omega arith) roomy tt (omega arith)

-- The cell of the second batch cannot be had.
abbrev tight : Memory
tight = record { answers = true ∷ true ∷ true ∷ false ∷ []; live = 1 }

make_batches-short_example :
    (m' : Memory) × (make_batches (calls_of 5) 2 tight
      ≡ some (no_resources, given_up (calls_of 5), m'))
    × (m'.live ≡ 1)
make_batches-short_example =
    make_batches-short (calls_of 5) 2 tight refl (omega arith) (λ enough. enough)

create-make-destroy_example :
    (job : Job) × (m1 : Memory) × (job' : Job) × (m' : Memory) × (create_job_pfor true
        (calls_of 0)
        (pos 5)
        100
        200
        roomy
      ≡ (some job, m1))
    × (make_batches job 2 m1 ≡ some (success, job', m'))
    × ((destroy_job job' m').live ≡ 1)
create-make-destroy_example =
    create-make-destroy (calls_of 0) 5 100 200 2 roomy (true ∷ true ∷ true ∷ true ∷ true ∷ [])
      (omega arith) refl (omega arith) tt

make_batches-Tiles_example :
    (bs : List Batch) × (m' : Memory) × (make_batches (calls_of 5) 2 roomy
      ≡ some (success, made (calls_of 5) 2 bs, m'))
    × Tiles (pos 0) (pos 5) bs
    × AllWithin (pos 0) (pos 5) bs
unfolding ◌-ℤ◌
make_batches-Tiles_example =
    make_batches-Tiles (calls_of 5) 5 2 roomy refl (refl, omega arith) (omega arith) (omega arith)
      tt
