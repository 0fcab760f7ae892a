-- ===== src/Sched/Pool/Quiet.antt =====
-- What Sched.Pool leaves behind when all its threads sleep: no job that a client could still wait for.
use native.Mathlib.Decide.{dec_lt}
use libfly.Prelude.{ℕ, ◌+◌, ◌<◌, ◌≡◌, ◌≢◌, refl, ap, true, [], ◌==◌, arith, total, total-pos, weigh}
use libfly.Job.{Job, task}
use libfly.Sched.{Task, Call, is_for}
use libfly.Sched.Drain.{all_calls}
use libfly.Sched.Workers.Invariant.{tests}
use libfly.Sched.Workers.Busy.{done-posted}
use libfly.Sched.Workers.Once.{posted-done, done-all_called}
use libfly.Sched.Pool.{PoolPc, waiting, Pool, is_known, Reach}
use libfly.Sched.Pool.Seen.{seen, seen_all}
use libfly.Sched.Pool.Project.{pool-Workers}
use libfly.Sched.Pool.Counts.{times, moves, inside, ends}
use libfly.Sched.Pool.Ready.{IsAsleep, asleep-none_ready}
use libfly.Sched.Pool.Kept.{never_lost}
use libfly.Sched.Pool.Tasks.{task-never_lost}
use libfly.Sched.Pool.Someone.{IsCut}
use libfly.Sched.Pool.Awake.{open-somebody_awake}

-- Every thread sleeps, no post is left on its semaphore, and nobody has still to wake a worker.
pub record Quiet (nbworkers : ℕ) (s : Pool) : Type 0 where
  pub asleep : (i : ℕ) → i < nbworkers + nbworkers → IsAsleep s i
  pub no_pending : (w : ℕ) → w < nbworkers → s.pending w ≡ 0

module _ {nbworkers : ℕ} {s : Pool} (quiet : Quiet nbworkers s) where
  nobody : (w : PoolPc → ℕ) → w waiting ≡ 0 → total w (nbworkers + nbworkers) s.pc ≡ 0
  nobody w none_waits = elim (dec_lt 0 (total w (nbworkers + nbworkers) s.pc)) [
    | yes some_one ↦
        let (i, lt, pos) = total-pos w (nbworkers + nbworkers) s.pc some_one in
        absurd (omega (arith, pos, ap w (quiet.asleep i lt).0, none_waits))
    | no none_left ↦ omega (arith, none_left)
  ]

  nobody_seen : (j : ℕ) → total tests (nbworkers + nbworkers) (seen_all j s.pc) ≡ 0
  nobody_seen j = elim (dec_lt 0 (total tests (nbworkers + nbworkers) (seen_all j s.pc))) [
    | yes some_one ↦
        let (i, lt, pos) = total-pos tests (nbworkers + nbworkers) (seen_all j s.pc) some_one in
        absurd (omega (arith, pos, ap (λ p. tests (seen j p)) (quiet.asleep i lt).0))
    | no none_left ↦ omega (arith, none_left)
  ]

  quiet-none_ready :
      (jobs : ℕ → Job) (tasks : ℕ → Task) {roomy : _}
      → 0 < nbworkers
      → Reach jobs tasks nbworkers roomy s
      → s.ready_jobs ≡ []
  quiet-none_ready jobs tasks some_worker r =
      asleep-none_ready jobs tasks 0 some_worker r (quiet.asleep 0 (omega arith))
        (quiet.asleep 1 (omega arith)) (quiet.no_pending 0 some_worker)

module _ (jobs : ℕ → Job) (tasks : ℕ → Task) {nbworkers : ℕ} {s : Pool}
    (some_worker : 0 < nbworkers) (quiet : Quiet nbworkers s) where
  no_times : (k : ℕ) → s.ready_jobs ≡ [] → times k s.ready_jobs ≡ 0
  unfolding weigh
  no_times k none_ready = ap (times k) none_ready

  -- No client waits for ever for a parallel for: with at least one worker and any jobs, where the
  -- cells of the running list can be had and every parallel for comes with at least one batch, as many
  -- as `nbbatches` says and all unexecuted: as soon as every thread sleeps, with no post on its
  -- semaphore, and nobody has still to call `fly_worker_work_available`, each parallel for that a
  -- client has added has been posted, and each of its calls was made exactly once: under every
  -- weight, the calls weigh as much as those of its batches.
  pub quiet-all_run :
      (j : ℕ) (w : Call → ℕ)
      → ((j : ℕ) → is_for (jobs j) ≡ true → IsCut (jobs j))
      → is_for (jobs j) ≡ true
      → Reach jobs tasks nbworkers true s
      → s.added j ≡ true
      → (0 < (s.shared j).sem)
        × (weigh w (s.shared j).calls ≡ weigh w (all_calls (jobs j) (jobs j).batches))
  quiet-all_run j w cut loops r added =
      let (fresh, count, some_batch) = cut j loops in
      let runs = pool-Workers jobs tasks j loops r in
      let posted : 0 < (s.shared j).sem = elim (dec_lt 0 (s.shared j).sem) [
        | yes posted ↦ posted
        | no unposted ↦
            let known : is_known (jobs j) ≡ true = rw loops refl in
            let in_list : 0 < times j s.running_jobs = omega (
              arith,
              never_lost jobs tasks j known r added,
              no_times j (quiet-none_ready quiet jobs tasks some_worker r),
              nobody quiet (moves j) refl,
              nobody quiet (ends j) refl,
              unposted,
            ) in
            let not_done : (s.shared j).batches_done ≢ (jobs j).nbbatches = λ done.
              unposted (
                omega (arith, done-posted runs fresh count done some_batch, nobody_seen quiet j)) in
            let (i, lt, awake) = open-somebody_awake jobs tasks cut j loops r in_list not_done in
            absurd (awake (quiet.asleep i lt).0)
      ] in
      (posted, done-all_called runs fresh count w (posted-done runs fresh count posted))

  -- Nor for a task, whose type is the task's: with at least one worker and any jobs, also where a
  -- cell of the running list cannot be had, each task that a client has added has been posted as soon
  -- as every thread sleeps, with no post on its semaphore, and nobody has still to call
  -- `fly_worker_work_available`.
  pub quiet-task_posted :
      (j : ℕ) {roomy : _}
      → ((jobs j).jtype == task) ≡ true
      → Reach jobs tasks nbworkers roomy s
      → s.added j ≡ true
      → 0 < (s.shared j).sem
  quiet-task_posted j is_task r added = omega (
    arith,
    task-never_lost jobs tasks j is_task r added,
    no_times j (quiet-none_ready quiet jobs tasks some_worker r),
    nobody quiet (moves j) refl,
    nobody quiet (inside j) refl,
  )
