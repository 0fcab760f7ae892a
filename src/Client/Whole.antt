-- ===== src/Client/Whole.antt =====
-- `fly_parallel_for` and `fly_parallel_for_arr` of src/fly.c from a worker thread, as a whole.
use libfly.Prelude.{
  ℕ, suc, ◌+◌, ◌≤◌, ◌<◌, ◌≡◌, refl, inl, inr, true, false, Bool, some, List, ◌∷◌, map, arith,
  length,
}
use libfly.Prelude.Int.{ℤ, pos, ◌+ℤ◌, ◌-ℤ◌, ◌*ℤ◌, range, int_max, int_sub-Spans, int_laws, ltb_ℤ}
use libfly.FlyList.View.{member}
use libfly.Malloc.{malloc, Enough}
use libfly.Job.{Job, parallel_for, parallel_for_arr, create_job_pfor, create_job_pfarr, new_job}
use libfly.Sched.{Sched, for_call}
use libfly.Sched.Calls.{ptr_call, arr_call, all_calls-ptr, all_calls-arr}
use libfly.Client.{run_job, fly_parallel_for, fly_parallel_for_arr}
use libfly.Client.Own.{Whole, run_job-Whole}

-- A worker thread of the worker `parent` makes the call; the other conditions of a whole loop.
module _ (apply : (func param : ℕ) → ℕ) (parent fresh c : ℕ) (s : Sched) (rest : List Bool)
    (first : s.mem.answers ≡ true ∷ rest)
    (enough : Enough (length s.workers + length s.workers) rest) (fits : c ≤ int_max)
    (some_worker : 0 < length s.workers) (few : length s.workers ≤ c)
    (not_running : member fresh s.running_jobs ≡ false)
    (not_done : member fresh s.done_jobs ≡ false) where
  -- `fly_parallel_for` from a thread of the worker `parent`, which finds its own worker and so runs its
  -- batches itself, where no other thread takes one. There is at least one worker and at most as many
  -- as calls, whose number an `int` holds, the semaphore of the job is set up and waited on without an error, the block of the job
  -- and two blocks for each worker can be had, and the address of the job is in neither the running
  -- nor the done list. Whether or not the cells of those two lists can be had, and with one round more
  -- than there are workers, the call returns success without sleeping; the client's function has been
  -- called once for each index from 0 on, in order, with the client's pointer; the three lists are as
  -- before, and as many blocks are in use as before.
  pub fly_parallel_for-Whole :
      (func ptr : ℕ)
      → Whole s (map (λ k. for_call func k (pos ptr)) (range (pos 0) c)) (
          fly_parallel_for apply
            (suc (length s.workers))
            true
            true
            (some parent)
            fresh
            (pos c)
            func
            ptr
            s)
  unfolding fly_parallel_for create_job_pfor new_job malloc run_job
  fly_parallel_for-Whole func ptr =
      let base : Job = record (s.jobs fresh) {
        func = func;
        arg = ptr;
        start = pos 0;
        end = pos c;
      } in
      rw first (
        run_job-Whole apply parent fresh c parallel_for base s rest (inl refl)
          (omega int_laws, fits) enough some_worker few not_running not_done ptr_call
          (λ job bs e. all_calls-ptr job bs e))

  -- `fly_parallel_for_arr` from a thread of the worker `parent`, which finds its own worker and so runs
  -- its batches itself, where no other thread takes one. There is at least one worker and at most as
  -- many as the `c` indices from `start` to `end`, a number that an `int` holds, the semaphore of the job is set up and waited on
  -- without an error, the block of the job and two blocks for each worker can be had, and the address
  -- of the job is in neither the running nor the done list. With one round more than there are
  -- workers, the call returns success without sleeping; the client's function has been called once for
  -- each of those indices, in order, with the address of the element at that index; the three lists
  -- are as before, and as many blocks are in use as before.
  pub fly_parallel_for_arr-Whole :
      (start end : ℤ) (func arr elsize : ℕ)
      → end -ℤ start ≡ pos c
      → Whole s (map (λ k. for_call func k (pos arr +ℤ (k *ℤ pos elsize))) (range start c)) (
          fly_parallel_for_arr apply
            (suc (length s.workers))
            true
            true
            (some parent)
            fresh
            start
            end
            func
            arr
            elsize
            s)
  unfolding fly_parallel_for_arr create_job_pfarr new_job malloc run_job
  fly_parallel_for_arr-Whole start end func arr elsize calls =
      let base : Job = record (s.jobs fresh) {
        func = func;
        arg = arr;
        elsize = elsize;
        start = start;
        end = end;
      } in
      let some_call : ltb_ℤ (pos 0) (pos c) ≡ true = ground arith in
      rw (int_sub-Spans start end c (calls, fits), some_call, first)
        (run_job-Whole apply parent fresh c parallel_for_arr base s rest (inr refl) (calls, fits)
          enough some_worker few not_running not_done arr_call (λ job bs e. all_calls-arr job bs e))
