-- ===== src/Sched/Pool/Once.antt =====
-- The calls of the parallel fors of Sched.Pool.
use libfly.Prelude.{ℕ, ◌+◌, ◌≤◌, ◌<◌, ◌≡◌, ap, ◌∙◌, true, some, [], map, weigh, Bool, arith}
use libfly.Prelude.Int.{Spans, range}
use libfly.Errors.{success}
use libfly.Malloc.{Memory, Enough}
use libfly.Job.{Job, make_batches, parallel_for}
use libfly.Sched.{Task, Call, is_for}
use libfly.Sched.Calls.{ptr_call}
use libfly.Sched.Workers.Once.{is_made, parallel_for-exactly_once}
use libfly.Sched.Pool.{Pool, Reach}
use libfly.Sched.Pool.Project.{pool-Workers}

module _ (jobs : ℕ → Job) (tasks : ℕ → Task) (j : ℕ) (idle : Job) (c nbbatches : ℕ) (m m' : Memory)
    (cut : make_batches idle nbbatches m ≡ some (success, jobs j, m'))
    (none_yet : idle.batches ≡ []) (calls : Spans idle.start idle.end c)
    (some_batch : 0 < nbbatches) (enough : Enough (nbbatches + nbbatches) m.answers)
    (le : nbbatches ≤ c) (loops : idle.jtype ≡ parallel_for) where
  cut-is_for : is_for (jobs j) ≡ true
  cut-is_for =
      let made = is_made idle (jobs j) c nbbatches m m' cut none_yet calls some_batch enough le in
      let same : (jobs j).jtype ≡ parallel_for = ap (λ (x : Job). x.jtype) made ∙ loops in
      ground (arith, same)

  -- Any number of workers that run any jobs, and clients that add more. A job `j` of
  -- `fly_parallel_for` with `c` calls, a number that an `int` holds, and no batches yet is cut by `fly_make_batches` into between 1
  -- and `c` batches, where memory suffices for them. At every moment at which its semaphore has been
  -- posted, the client's function has been called for it exactly once for each of the `c` indices
  -- from `start` on, and for no other: under every weight, the calls weigh as much as those.
  pub pool-exactly_once :
      {nbworkers : ℕ} {roomy : Bool} {s : Pool} (w : Call → ℕ)
      → Reach jobs tasks nbworkers roomy s
      → 0 < (s.shared j).sem
      → weigh w (s.shared j).calls ≡ weigh w (map (ptr_call (jobs j)) (range idle.start c))
  pool-exactly_once w r posted =
      parallel_for-exactly_once idle (jobs j) c nbbatches m m' cut none_yet calls some_batch enough
        le w loops (pool-Workers jobs tasks j cut-is_for r) posted
