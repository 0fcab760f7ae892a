-- ===== src/Sched/Parallel.antt =====
-- `fly_parallel_for` and `fly_parallel_for_arr`, from `fly_make_batches` of src/fly_job.c to the last
-- call of `fly_sched_exec_job` of src/fly_sched.c, where one thread makes the calls.
use libfly.Prelude.{
  ℕ, ◌+◌, ◌<◌, ◌≤◌, ◌≡◌, sym, ap, ◌∙◌, List, [], ◌∷◌, ◌++◌, map, Option, none, some, arith, length,
  change_at, inl, inr,
}
use libfly.Prelude.Int.{ℤ, Spans, range}
use libfly.Errors.{Errcode, success}
use libfly.Job.{Job, Batch, make_batches, parallel_for, parallel_for_arr}
use libfly.Job.Indices.{Fresh, all_indices}
use libfly.Job.Batches.{make_batches-even, made}
use libfly.Malloc.{Memory, Enough}
use libfly.Sched.{Sched, Call}
use libfly.Sched.Run.{complete}
use libfly.Sched.Drain.{all_calls, exec_times, exec_times-mid, start-mid, zeros, ForType, mid}
use libfly.Sched.Calls.{ptr_call, arr_call, all_calls-ptr, all_calls-arr}
use libfly.Sched.Complete.{Finished, complete_lem}

module _ (apply : (func param : ℕ) → ℕ) (s : Sched) (j : ℕ) where
  exec_times-all :
      (bs : List Batch)
      → (s.jobs j).batches ≡ bs
      → 0 < length bs
      → Fresh bs
      → (s.jobs j).batches_done ≡ 0
      → (s.jobs j).nbbatches ≡ length bs
      → ForType apply s j (s.jobs j).jtype
      → exec_times apply (length bs) j s ≡ (zeros (length bs), complete j (mid apply s j bs []))
  exec_times-all [] e some_batch fresh none_done count is_for = elim some_batch [ ]
  exec_times-all (b ∷ left) e some_batch fresh none_done count is_for =
      let here : mid apply s j [] (b ∷ left) ≡ s = rw (sym e) (start-mid apply s j none_done) in
      rw here at (exec_times-mid apply s j [] b left is_for fresh (omega (arith, count)))

-- What is left of a job for `c` calls after `n` calls of `fly_sched_exec_job`, where `n` is the
-- number of its batches: each found a batch, the calls were made once each in the order of their
-- indices, and the job is finished.
pub record Ran (apply : (func param : ℕ) → ℕ) (s : Sched) (j c n : ℕ) (call : ℤ → Call)
    : Type 0 where
  pub kept_on : (exec_times apply n j s).0 ≡ zeros n
  pub calls : (exec_times apply n j s).1.calls ≡ s.calls ++ map call (range (s.jobs j).start c)
  pub finished : Finished (mid apply s j (s.jobs j).batches []) (exec_times apply n j s).1 j

Ran-all :
    (apply : (func param : ℕ) → ℕ) (s : Sched) (j c : ℕ) (call : ℤ → Call) (bs : List Batch)
    → (s.jobs j).batches ≡ bs
    → 0 < length bs
    → Fresh bs
    → (s.jobs j).batches_done ≡ 0
    → (s.jobs j).nbbatches ≡ length bs
    → ForType apply s j (s.jobs j).jtype
    → all_calls (s.jobs j) bs ≡ map call (range (s.jobs j).start c)
    → Ran apply s j c (length bs) call
Ran-all apply s j c call bs e some_batch fresh none_done count is_for calls =
    let runs = exec_times-all apply s j bs e some_batch fresh none_done count is_for in
    let all : ((mid apply s j bs []).jobs j).batches_done
        ≡ ((mid apply s j bs []).jobs j).nbbatches =
      ap (λ (x : Job). x.batches_done) (change_at s.jobs j _)
      ∙ sym count
      ∙ sym (ap (λ (x : Job). x.nbbatches) (change_at s.jobs j _)) in
    let done = complete_lem (mid apply s j bs []) j all in
    record {
      kept_on = ap (λ out. out.0) runs;
      calls = ap (λ out. out.1.calls) runs ∙ done.1 ∙ ap (λ cs. s.calls ++ cs) calls;
      finished = rw (runs, e) done.0;
    }

abbrev pub job_of : Job → Option (Errcode × Job × Memory) → Job
job_of job none = job
job_of job (some (err, job', m)) = job'

-- One thread that makes `n` calls of `fly_sched_exec_job` for a job that `fly_make_batches` cut.
module _ (apply : (func param : ℕ) → ℕ) (s : Sched) (j : ℕ) (idle : Job) (c n : ℕ) (m m' : Memory)
    (cut : make_batches idle n m ≡ some (success, s.jobs j, m')) (none_yet : idle.batches ≡ [])
    (none_done : idle.batches_done ≡ 0) (calls : Spans idle.start idle.end c) (some_batch : 0 < n)
    (enough : Enough (n + n) m.answers) (le : n ≤ c) where
  runs-IsFor :
      (call : ℤ → Call)
      → ForType apply s j idle.jtype
      → ((bs : List Batch) → all_calls (s.jobs j) bs ≡ map call (all_indices bs))
      → Ran apply s j c n call
  runs-IsFor call is_for all =
      let batches = make_batches-even idle c n none_yet calls some_batch m enough le in
      let here : s.jobs j ≡ made idle n batches.bs = ap (job_of idle) (sym cut ∙ batches.runs) in
      let more : 0 < length batches.bs = omega (arith, batches.count) in
      rw batches.count at (
        Ran-all apply s j c call batches.bs (ap (λ (x : Job). x.batches) here) more batches.fresh
          (ap (λ (x : Job). x.batches_done) here ∙ none_done)
          (ap (λ (x : Job). x.nbbatches) here ∙ sym batches.count)
          (rw (ap (λ (x : Job). x.jtype) here) is_for)
          (all batches.bs
            ∙ ap (map call) (batches.indices ∙ ap (λ (x : Job). range x.start c) (sym here))))

  -- A job of `fly_parallel_for` with `c` calls, a number that an `int` holds, and no batches yet, cut by `fly_make_batches` for
  -- `n` workers, where `n` is positive and at most `c` and memory suffices for two blocks a batch:
  -- `n` calls of `fly_sched_exec_job`, one after the other, each find a batch; after them the
  -- client's function has been called once for each of the `c` indices from `start` on, in order,
  -- with the client's pointer, the job is done and posted once, and its first entry has left the
  -- running list.
  pub parallel_for-runs : idle.jtype ≡ parallel_for → Ran apply s j c n (ptr_call (s.jobs j))
  parallel_for-runs e =
      let batches = make_batches-even idle c n none_yet calls some_batch m enough le in
      let here : s.jobs j ≡ made idle n batches.bs = ap (job_of idle) (sym cut ∙ batches.runs) in
      runs-IsFor (ptr_call (s.jobs j)) (inl e)
        (λ bs. all_calls-ptr (s.jobs j) bs (ap (λ (x : Job). x.jtype) here ∙ e))

  -- A job of `fly_parallel_for_arr` under the same conditions: `n` calls of `fly_sched_exec_job`
  -- each find a batch, and make one call for each of the `c` indices from `start` on, in order, the
  -- call for index `k` with the address `arr + k * elsize`; then the job is done and posted once,
  -- and its first entry has left the running list.
  pub parallel_for_arr-runs :
      idle.jtype ≡ parallel_for_arr → Ran apply s j c n (arr_call (s.jobs j))
  parallel_for_arr-runs e =
      let batches = make_batches-even idle c n none_yet calls some_batch m enough le in
      let here : s.jobs j ≡ made idle n batches.bs = ap (job_of idle) (sym cut ∙ batches.runs) in
      runs-IsFor (arr_call (s.jobs j)) (inr e)
        (λ bs. all_calls-arr (s.jobs j) bs (ap (λ (x : Job). x.jtype) here ∙ e))
