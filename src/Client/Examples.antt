-- ===== src/Client/Examples.antt =====
-- A worker that waits for its own parallel for, and a task that is refused (src/fly.c).
use libfly.Prelude.{some, map, arith, ◌≡◌, refl, true, false, none, [], ◌∷◌, inl}
use libfly.Errors.{success, no_resources}
use libfly.FlyList.View.{member}
use libfly.Client.Collect.{wait_job-complete}
use libfly.Job.{Batch}
use libfly.Job.Examples.{calls_of}
use libfly.Sched.{Sched, for_call}
use libfly.Sched.Run.{complete}
use libfly.Sched.Drain.{mid}
use libfly.Sched.Examples.{cut_in_two, sched_with, sum, task_sched}
use libfly.Client.{
  fly_parallel_for, fly_parallel_for_arr, returns, exec_until_done, push_task, wait_job,
}
use libfly.Client.Recursion.{exec_until_done-ends}
use libfly.Client.Own.{Whole}
use libfly.Client.Whole.{fly_parallel_for-Whole, fly_parallel_for_arr-Whole}
use libfly.Client.Refused.{push_task-refused}
use libfly.Prelude.Int.{pos, range, ◌-ℤ◌, ◌+ℤ◌, ◌*ℤ◌}

abbrev own_job : Sched
own_job = sched_with (cut_in_two (calls_of 5))

abbrev first_batch : Batch
first_batch = record { start = pos 0; end = pos 2; execed = false }

abbrev second_batch : Batch
second_batch = record { start = pos 2; end = pos 5; execed = false }

exec_until_done-ends_example :
    exec_until_done sum 3 7 own_job
    ≡ returns (complete 7 (mid sum own_job 7 (first_batch ∷ second_batch ∷ []) []))
exec_until_done-ends_example =
    exec_until_done-ends sum own_job 7 first_batch (second_batch ∷ []) refl (inl refl)
      (refl, (refl, tt)) refl refl

push_task-refused_example :
    (s' : Sched) × (push_task sum true none 9 4 (task_sched (true ∷ false ∷ []))
      ≡ returns (no_resources, s'))
    × (s'.ready_jobs ≡ [])
    × (s'.running_jobs ≡ [])
    × (s'.mem.live ≡ 1)
    × ((s'.tasks 4).sched_data ≡ 9)
push_task-refused_example = push_task-refused sum 9 4 (task_sched (true ∷ false ∷ [])) [] refl

-- The job at 7 has run all its batches.
abbrev all_run : Sched
all_run = sched_with (record (cut_in_two (calls_of 5)) { batches_done = 2 })

wait_job-complete_example :
    (t : Sched) × (wait_job true 7 (complete 7 all_run) ≡ returns (success, t))
    × (t.done_jobs ≡ [])
    × ((t.jobs 7).sem ≡ 0)
unfolding member
wait_job-complete_example = wait_job-complete all_run 7 (true ∷ []) refl refl refl refl

-- Two workers, another job that runs, and memory for all but the cell in the list of done jobs.
abbrev two_workers : Sched
two_workers = record own_job {
  mem = record { answers = true ∷ true ∷ true ∷ true ∷ true ∷ true ∷ false ∷ []; live = 3 };
}

fly_parallel_for-Whole_example :
    Whole two_workers
      (map (λ k. for_call 100 k (pos 200)) (range (pos 0) 5))
      (fly_parallel_for sum 3 true true (some 1) 9 (pos 5) 100 200 two_workers)
unfolding member
fly_parallel_for-Whole_example =
    fly_parallel_for-Whole sum 1 9 5 two_workers (true ∷ true ∷ true ∷ true ∷ true ∷ false ∷ [])
      refl tt (omega arith) (omega arith) (omega arith) refl refl 100 200

fly_parallel_for_arr-Whole_example :
    Whole two_workers
      (map (λ k. for_call 100 k (pos 200 +ℤ (k *ℤ pos 8))) (range (pos 3) 5))
      (fly_parallel_for_arr sum 3 true true (some 1) 9 (pos 3) (pos 8) 100 200 8 two_workers)
unfolding member ◌-ℤ◌
fly_parallel_for_arr-Whole_example =
    fly_parallel_for_arr-Whole sum 1 9 5 two_workers (true ∷ true ∷ true ∷ true ∷ true ∷ false ∷ [])
      refl tt (omega arith) (omega arith) (omega arith) refl refl (pos 3) (pos 8) 100 200 8 refl
