-- ===== src/Sched/Pool/Tasks.antt =====
-- The tasks of Sched.Pool: whoever takes one from the ready list posts it.
use libfly.Prelude.{
  ℕ, ◌+◌, ◌<◌, ◌≡◌, refl, ap, Bool, true, false, [], ◌==◌, arith, total, total-zero, weigh,
}
use libfly.Job.{Job, task}
use libfly.Sched.{Task}
use libfly.Sched.Pool.{PoolPc, searching, Pool, add, wake_up, run, Reach, here, later}
use libfly.Sched.Pool.Counts.{times, times-snoc, moves, inside, unadded, added-change}
use libfly.Sched.Pool.Turns.{act-Turn}
use libfly.Sched.Pool.Taken.{Taken, TaskInv, turn-TaskInv, loops_on}

start-Taken : (n k nb : ℕ) → Taken n k nb [] [] false (λ _. searching) 0 0
unfolding weigh
start-Taken n k nb = record {
  no_loop = none_of (loops_on k) refl;
  claimed = λ h. absurd (omega (arith, none_of (moves k) refl, none_of (inside k) refl));
  somewhere = omega arith;
}
  where
    none_of : (w : PoolPc → ℕ) → w searching ≡ 0 → total w n (λ _. searching) ≡ 0
    none_of w e = total-zero w (λ _. searching) (λ _. e) n

module _ (jobs : ℕ → Job) (tasks : ℕ → Task) {nbworkers : ℕ} {roomy : Bool} (k : ℕ)
    (is_task : ((jobs k).jtype == task) ≡ true) where
  Reach-TaskInv :
      {s : Pool}
      → Reach jobs tasks nbworkers roomy s
      → TaskInv jobs tasks (nbworkers + nbworkers) k is_task s
  Reach-TaskInv here = start-Taken (nbworkers + nbworkers) k (jobs k).nbbatches
  Reach-TaskInv (later {s} r (add j some_job known new)) =
      let inv = Reach-TaskInv r in
      record {
        no_loop = inv.no_loop;
        claimed = inv.claimed;
        somewhere =
            omega (arith, inv.somewhere, added-change s.added j k new, times-snoc k j s.ready_jobs);
      }
  Reach-TaskInv (later {s} r (wake_up w t lt left which)) = Reach-TaskInv r
  Reach-TaskInv (later {s} r (run ok i lt room)) =
      turn-TaskInv jobs tasks (nbworkers + nbworkers) k is_task ok i s (s.pc i) _ lt refl
        (act-Turn jobs tasks ok i s (s.pc i)) (Reach-TaskInv r)

  pub Reach-no_loop :
      {s : Pool}
      → Reach jobs tasks nbworkers roomy s
      → total (loops_on k) (nbworkers + nbworkers) s.pc ≡ 0
  Reach-no_loop r = (Reach-TaskInv r).no_loop

  pub Reach-claimed :
      {s : Pool}
      → Reach jobs tasks nbworkers roomy s
      → 0 < times k s.running_jobs
      → (s.shared k).batches_done ≡ (jobs k).nbbatches
  Reach-claimed r in_list = (Reach-TaskInv r).claimed (omega (arith, in_list))

  -- No task is lost, even where a cell of the running list cannot be had: with any number of workers
  -- and any jobs, a task that a client has added is at every moment in the ready list, with a thread
  -- that brings it to the running list or is in `fly_sched_exec_job` with it, or it has been posted.
  pub task-never_lost :
      {s : Pool}
      → Reach jobs tasks nbworkers roomy s
      → s.added k ≡ true
      → 0
        < times k s.ready_jobs
          + total (moves k) (nbworkers + nbworkers) s.pc
          + total (inside k) (nbworkers + nbworkers) s.pc
          + (s.shared k).sem
  task-never_lost r added = omega (arith, (Reach-TaskInv r).somewhere, ap unadded added)
