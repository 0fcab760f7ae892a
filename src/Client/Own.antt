-- ===== src/Client/Own.antt =====
-- A parallel for of src/fly.c from a worker thread, from the job that was created to its end, where
-- no other thread takes a batch.
use mathlib.Core.List.{append-nil}
use mathlib.Core.Path.{subst}
use libfly.Prelude.{
  ◌⊎◌, ◌==◌, ◌||◌, ℕ, suc, ◌+◌, ◌≤◌, ◌<◌, ◌≡◌, refl, sym, ap, ◌∙◌, Bool, true, false, some, List,
  [], ◌++◌, map, arith, length, length-map, change, change_at, change-change, ltb,
}
use libfly.Prelude.Int.{ℤ, Spans, range}
use libfly.Errors.{Errcode, success}
use libfly.FlyList.View.{member}
use libfly.Malloc.{Memory, free, Enough}
use libfly.Job.{Job, JobState, parallel_for, parallel_for_arr, Batch, destroy_job}
use libfly.Job.Indices.{all_indices}
use libfly.Job.Batches.{Makes, made, memory, make_batches-even, free_batches-live}
use libfly.Sched.{
  Sched, Call, set_job, list_append, move_to_running, wake_others, add_job_from_worker, start_pfj,
  nbworkers,
}
use libfly.Sched.Drain.{all_calls, mid, ForType, mark}
use libfly.Client.{
  Outcome, returns, then_do, exec_until_done, wait_job, destroy_at, add_from, add_job_and_wait,
  run_job,
}
use libfly.Client.Ending.{
  took, ended, list_append-live, after_all-running, after_all-done, after_all-live,
  after_all-batches, wait-runs, end-calls, end-ready,
}

-- A call that returns success: with these calls of client functions made in this order, with the
-- three lists as before, and with as many blocks in use as before.
abbrev pub Whole : Sched → List Call → Outcome (Errcode × Sched) → Type 0
Whole s calls out =
    (t : Sched) × (out ≡ returns (success, t))
    × (t.calls ≡ s.calls ++ calls)
    × (t.ready_jobs ≡ s.ready_jobs)
    × (t.running_jobs ≡ s.running_jobs)
    × (t.done_jobs ≡ s.done_jobs)
    × (t.mem.live ≡ s.mem.live)

is_loop :
    (jt : ℕ)
    → (jt ≡ parallel_for) ⊎ (jt ≡ parallel_for_arr)
    → (jt == parallel_for || jt == parallel_for_arr) ≡ true
is_loop jt kind = ground arith

-- A job for `c` calls as the code has just created it, of either of the two types of loops.
module _ (apply : (func param : ℕ) → ℕ) (parent fresh c jt : ℕ) (base : Job) (s : Sched)
    (rest : List Bool) (kind : (jt ≡ parallel_for) ⊎ (jt ≡ parallel_for_arr))
    (calls : Spans base.start base.end c)
    (enough : Enough (length s.workers + length s.workers) rest)
    (some_worker : 0 < length s.workers) (few : length s.workers ≤ c)
    (not_running : member fresh s.running_jobs ≡ false)
    (not_done : member fresh s.done_jobs ≡ false) where
  -- The job as it is created, and as the worker has then counted it.
  abbrev created : Job
  created = record base {
    batches = [];
    nbbatches = 0;
    batches_done = 0;
    jtype = jt;
    recurse = 0;
    state = JobState.idle;
    sem = 0;
  }

  abbrev own : Job
  own = record created { recurse = 1 }

  abbrev m1 : Memory
  m1 = memory rest (s.mem.live + 1)

  abbrev cut : Makes own (length s.workers) m1 (range base.start c)
  cut = make_batches-even own c (length s.workers) refl calls some_worker m1 enough few

  abbrev m2 : Memory
  m2 = memory cut.rest (m1.live + (length s.workers + length s.workers))

  abbrev queued : Sched
  queued = record s { mem = m1; jobs = change s.jobs fresh own }

  abbrev placed : Sched
  placed = record s {
    mem = m2;
    jobs = change (change s.jobs fresh own) fresh (made own (length s.workers) cut.bs);
  }

  abbrev started : Sched
  started = record (move_to_running fresh placed) { workers = wake_others parent s.workers }

  add_job_from_worker-runs : add_job_from_worker fresh parent queued ≡ some (success, started)
  unfolding add_job_from_worker start_pfj nbworkers move_to_running
  add_job_from_worker-runs =
      let loop : (jt == parallel_for || jt == parallel_for_arr) ≡ true = is_loop jt kind in
      rw (change_at s.jobs fresh own, loop, cut.runs) refl

  add_from-runs :
      add_from apply (some parent) fresh (set_job (record s { mem = m1 }) fresh created)
      ≡ returns (success, started)
  unfolding add_from set_job
  add_from-runs =
      rw
        (
          change_at s.jobs fresh created,
          change-change s.jobs fresh created own,
          add_job_from_worker-runs,
        )
        refl

  started-job :
      started.jobs fresh ≡ record (made own (length s.workers) cut.bs) { state = JobState.running }
  unfolding move_to_running
  started-job =
      change_at _ fresh _
      ∙ ap (λ (x : Job). record x { state = JobState.running }) (change_at _ fresh _)

  started-running : started.running_jobs ≡ (list_append s.running_jobs fresh m2).1
  unfolding move_to_running
  started-running = refl

  started-live : started.mem.live ≡ m2.live + took m2
  unfolding move_to_running
  started-live = list_append-live s.running_jobs fresh m2

  started-done : started.done_jobs ≡ s.done_jobs
  unfolding move_to_running
  started-done = refl

  abbrev has : (started.jobs fresh).batches ≡ cut.bs
  has = ap (λ (x : Job). x.batches) started-job

  abbrev some_batch : 0 < length cut.bs
  some_batch = omega (arith, cut.count)

  abbrev count : (started.jobs fresh).nbbatches ≡ length cut.bs
  count = ap (λ (x : Job). x.nbbatches) started-job ∙ sym cut.count

  abbrev none_done : (started.jobs fresh).batches_done ≡ 0
  none_done = ap (λ (x : Job). x.batches_done) started-job

  abbrev is_own : ForType apply started fresh (started.jobs fresh).jtype
  is_own =
      subst (λ t. (t ≡ parallel_for) ⊎ (t ≡ parallel_for_arr))
        (sym (ap (λ (x : Job). x.jtype) started-job)) kind

  abbrev left : Sched
  left = ended apply started fresh cut.bs

  add_job_and_wait-runs :
      add_job_and_wait apply
        (suc (length s.workers))
        true
        (some parent)
        fresh
        true
        (set_job (record s { mem = m1 }) fresh created)
      ≡ returns (success, left)
  unfolding add_job_and_wait
  add_job_and_wait-runs =
      let more : ltb 0 (started.jobs fresh).recurse ≡ true =
        ap (λ (x : Job). ltb 0 x.recurse) started-job in
      let runs =
        wait-runs apply started fresh cut.bs has some_batch cut.fresh none_done count is_own in
      rw (add_from-runs, more)
        (subst
          (λ n.
            then_do (exec_until_done apply (suc n) fresh started) (λ s2. wait_job true fresh s2)
            ≡ returns (success, left))
          cut.count runs)

  run_job-runs :
      run_job apply (suc (length s.workers)) true (some parent) fresh s (some created, m1)
      ≡ returns (success, destroy_at fresh left)
  unfolding run_job
  run_job-runs = rw add_job_and_wait-runs refl

  abbrev all_run : Sched
  all_run = mid apply started fresh cut.bs []

  still_not_done : member fresh all_run.done_jobs ≡ false
  unfolding move_to_running
  still_not_done = not_done

  left-running : left.running_jobs ≡ s.running_jobs
  left-running =
      after_all-running all_run fresh (all_run.jobs fresh).sem s.running_jobs m2 started-running
        not_running still_not_done

  left-done : left.done_jobs ≡ s.done_jobs
  unfolding move_to_running
  left-done =
      after_all-done all_run fresh (all_run.jobs fresh).sem s.running_jobs m2 started-running
        not_running still_not_done

  left-live : left.mem.live ≡ m2.live
  left-live = omega (
    arith,
    started-live,
    after_all-live all_run fresh (all_run.jobs fresh).sem s.running_jobs m2 started-running
        not_running still_not_done,
  )

  left-batches : (left.jobs fresh).batches ≡ map mark cut.bs
  left-batches =
      after_all-batches all_run fresh (all_run.jobs fresh).sem s.running_jobs m2 started-running
        not_running still_not_done
      ∙ ap (λ (x : Job). x.batches) (change_at started.jobs fresh _)
      ∙ append-nil (map mark cut.bs)

  left-calls : left.calls ≡ s.calls ++ all_calls (started.jobs fresh) cut.bs
  unfolding move_to_running
  left-calls = end-calls apply started fresh cut.bs has some_batch cut.fresh none_done count is_own

  destroyed : (destroy_at fresh left).mem.live ≡ s.mem.live
  unfolding destroy_at destroy_job free
  destroyed =
      let size : length (left.jobs fresh).batches ≡ length s.workers =
        ap length left-batches ∙ length-map mark cut.bs ∙ cut.count in
      omega (
        arith,
        size,
        left-live,
        free_batches-live (left.jobs fresh).batches left.mem (omega (arith, size, left-live)),
      )

  -- The job is added, run to its end, waited for and destroyed; `call` is the call for an index.
  pub run_job-Whole :
      (call : Job → ℤ → Call)
      → ((job : Job) (bs : List Batch)
          → job.jtype ≡ jt
          → all_calls job bs ≡ map (call job) (all_indices bs))
      → Whole s
          (map
            (call (record (made own (length s.workers) cut.bs) { state = JobState.running }))
            (range base.start c))
          (run_job apply (suc (length s.workers)) true (some parent) fresh s (some created, m1))
  unfolding destroy_at move_to_running
  run_job-Whole call each = (
    destroy_at fresh left,
    run_job-runs,
    left-calls
        ∙ ap (λ calls. s.calls ++ calls)
            (each (started.jobs fresh) cut.bs (ap (λ (x : Job). x.jtype) started-job)
              ∙ ap (λ (x : Job). map (call x) (all_indices cut.bs)) started-job
              ∙ ap
                  (map (
                    call
                      (record (made own (length s.workers) cut.bs) { state = JobState.running })))
                  cut.indices),
    end-ready apply started fresh cut.bs has some_batch cut.fresh none_done count is_own,
    left-running,
    left-done,
    destroyed,
  )
