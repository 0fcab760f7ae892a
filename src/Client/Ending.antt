-- ===== src/Client/Ending.antt =====
-- The end of a parallel for that a worker thread runs alone: its completion by `fly_sched_exec_job`
-- of src/fly_sched.c, and its collection by `fly_wait_job` of src/fly_job.c.
use libfly.Prelude.{
  ℕ, suc, ◌+◌, ◌-◌, ◌<◌, ◌≡◌, refl, sym, ap, ◌∙◌, inl, inr, true, false, List, [], ◌∷◌, ◌++◌, arith,
  length, if◌then◌else◌, change_at,
}
use libfly.Errors.{success}
use libfly.FlyList.View.{member}
use libfly.Malloc.{Memory, malloc, free}
use libfly.Worker.Life.{malloc-cases}
use libfly.Job.{Job, Batch}
use libfly.Job.Indices.{Fresh}
use libfly.Sched.{
  Sched, set_job, list_append, list_remove, remove_running, move_to_done, job_collected,
}
use libfly.Sched.Run.{complete}
use libfly.Sched.Drain.{all_calls, mid, ForType}
use libfly.Sched.Complete.{complete_lem}
use libfly.Client.{returns, then_do, exec_until_done, wait_job}
use libfly.Client.Collect.{erase-last, collected, wait_job-runs}
use libfly.Client.Recursion.{exec_until_done-ends}

-- The blocks that an append takes: its cell, or none where that cannot be had.
abbrev pub took : Memory → ℕ
took m = if (malloc m).0 then 1 else 0

pub list_append-live :
    (xs : List ℕ) (j : ℕ) (m : Memory) → (list_append xs j m).2.live ≡ m.live + took m
unfolding list_append
list_append-live xs j m = elim (malloc-cases m) [
  | inl (got, live) ↦ rw (got, live)
  | inr (refused, live) ↦ rw (refused, live) (omega arith)
]

member-last : (j : ℕ) (xs : List ℕ) → member j (xs ++ j ∷ []) ≡ true
unfolding member
member-last j [] = ground arith
member-last j (x ∷ xs) = ground (arith, member-last j xs)

-- What an append has put into a list, a removal takes out again, with the cell that was taken.
remove-append :
    (xs : List ℕ) (j : ℕ) (m m' : Memory)
    → member j xs ≡ false
    → ((list_remove (list_append xs j m).1 j m').0 ≡ xs)
      × ((list_remove (list_append xs j m).1 j m').1.live ≡ m'.live - took m)
unfolding list_append list_remove free
remove-append xs j m m' absent = elim (malloc-cases m) [
  | inl (got, live) ↦ rw (got, member-last j xs) (erase-last j xs absent, refl)
  | inr (refused, live) ↦ rw (refused, absent) (refl, omega arith)
]

-- The job `j` was put into the running list `before`, is then completed, and is collected with a
-- semaphore that is left at `k`.
module _ (s : Sched) (j k : ℕ) (before : List ℕ) (m : Memory)
    (running : s.running_jobs ≡ (list_append before j m).1) (not_before : member j before ≡ false)
    (not_done : member j s.done_jobs ≡ false) where
  abbrev after_all : Sched
  after_all = collected k j (complete j s)

  pub after_all-running : after_all.running_jobs ≡ before
  unfolding collected job_collected complete set_job remove_running move_to_done
  after_all-running =
      ap (λ xs. (list_remove xs j s.mem).0) running ∙ (remove-append before j m s.mem not_before).0

  pub after_all-done : after_all.done_jobs ≡ s.done_jobs
  unfolding collected job_collected complete set_job remove_running move_to_done
  after_all-done =
      let m1 = (list_remove s.running_jobs j s.mem).1 in
      (remove-append s.done_jobs j m1 (list_append s.done_jobs j m1).2 not_done).0

  pub after_all-live : after_all.mem.live ≡ s.mem.live - took m
  unfolding collected job_collected complete set_job remove_running move_to_done
  after_all-live =
      let m1 = (list_remove s.running_jobs j s.mem).1 in
      let m2 = (list_append s.done_jobs j m1).2 in
      let gone : m1.live ≡ s.mem.live - took m =
        ap (λ xs. (list_remove xs j s.mem).1.live) running
        ∙ (remove-append before j m s.mem not_before).1 in
      omega (
        arith,
        (remove-append s.done_jobs j m1 m2 not_done).1,
        list_append-live s.done_jobs j m1,
        gone,
      )

  pub after_all-batches : (after_all.jobs j).batches ≡ (s.jobs j).batches
  unfolding collected job_collected complete set_job remove_running move_to_done
  after_all-batches =
      ap (λ (x : Job). x.batches) (change_at _ j _)
      ∙ ap (λ (x : Job). x.batches) (change_at _ j _)
      ∙ ap (λ (x : Job). x.batches) (change_at s.jobs j _)

-- The state behind all batches `bs` of the job, its completion and its collection.
abbrev pub ended : ((func param : ℕ) → ℕ) → Sched → (j : ℕ) → List Batch → Sched
ended apply s j bs =
    collected ((mid apply s j bs []).jobs j).sem j (complete j (mid apply s j bs []))

-- The job has just been put into the running list, with all its batches.
module _ (apply : (func param : ℕ) → ℕ) (s : Sched) (j : ℕ) (bs : List Batch)
    (has : (s.jobs j).batches ≡ bs) (some_batch : 0 < length bs) (fresh : Fresh bs)
    (none_done : (s.jobs j).batches_done ≡ 0) (count : (s.jobs j).nbbatches ≡ length bs)
    (is_for : ForType apply s j (s.jobs j).jtype) where
  exec_until_done-all :
      exec_until_done apply (suc (length bs)) j s ≡ returns (complete j (mid apply s j bs []))
  exec_until_done-all = of_batches bs has some_batch fresh count
    where
      of_batches :
          (xs : List Batch)
          → (s.jobs j).batches ≡ xs
          → 0 < length xs
          → Fresh xs
          → (s.jobs j).nbbatches ≡ length xs
          → exec_until_done apply (suc (length xs)) j s ≡ returns (complete j (mid apply s j xs []))
      of_batches [] e more f n = elim more [ ]
      of_batches (b ∷ left) e more f n =
          exec_until_done-ends apply s j b left e is_for f none_done n

  mid_done : ((mid apply s j bs []).jobs j).batches_done ≡ ((mid apply s j bs []).jobs j).nbbatches
  mid_done =
      ap (λ (x : Job). x.batches_done) (change_at s.jobs j _)
      ∙ sym count
      ∙ sym (ap (λ (x : Job). x.nbbatches) (change_at s.jobs j _))

  abbrev end : Sched
  end = ended apply s j bs

  pub wait-runs :
      then_do (exec_until_done apply (suc (length bs)) j s) (λ s2. wait_job true j s2)
      ≡ returns (success, end)
  wait-runs =
      ap (λ out. then_do out (λ s2. wait_job true j s2)) exec_until_done-all
      ∙ wait_job-runs (complete j (mid apply s j bs [])) j ((mid apply s j bs []).jobs j).sem
          (omega (arith, (complete_lem (mid apply s j bs []) j mid_done).0.posted))

  pub end-calls : end.calls ≡ s.calls ++ all_calls (s.jobs j) bs
  unfolding collected job_collected set_job
  end-calls = (complete_lem (mid apply s j bs []) j mid_done).1

  pub end-ready : end.ready_jobs ≡ s.ready_jobs
  unfolding collected job_collected set_job
  end-ready = (complete_lem (mid apply s j bs []) j mid_done).0.ready
