-- ===== src/Client/Recursion.antt =====
-- The loop of `fly_add_job_and_wait` of src/fly.c by which a worker thread waits for a parallel for of
-- its own, where no other thread takes a batch.
use mathlib.Core.List.{append_assoc}
use libfly.Prelude.{
  ℕ, suc, ◌+◌, ◌≡◌, sym, ap, ◌∙◌, true, false, List, [], ◌∷◌, ◌++◌, arith, length, length-append,
  ◌==◌, change_at,
}
use libfly.Job.{Job, Batch, is_done}
use libfly.Job.Indices.{Fresh}
use libfly.Sched.{Sched}
use libfly.Sched.Run.{exec_job, schedule_for_job, complete}
use libfly.Sched.Drain.{ForType, mid, exec_job-mid, exec_job_last, start-mid}
use libfly.Sched.Complete.{complete_lem}
use libfly.Client.{returns, exec_until_done}

is_done_of :
    (s : Sched) (j : ℕ) → (s.jobs j).batches_done ≡ (s.jobs j).nbbatches → is_done (s.jobs j) ≡ true
unfolding is_done
is_done_of s j e = ground arith

module _ (apply : (func param : ℕ) → ℕ) where
  until-step :
      (k j : ℕ) (s t : Sched) (r : ℕ)
      → is_done (s.jobs j) ≡ false
      → exec_job apply j s ≡ (r, t)
      → exec_until_done apply (suc k) j s ≡ exec_until_done apply k j t
  unfolding exec_until_done schedule_for_job
  until-step k j s t r more runs = rw more (ap (λ out. exec_until_done apply k j out.1) runs)

  until_done :
      (k j : ℕ) (s : Sched)
      → is_done (s.jobs j) ≡ true
      → exec_until_done apply (suc k) j s ≡ returns s
  unfolding exec_until_done
  until_done k j s done = rw done

  module _ (s : Sched) (j : ℕ) where
    mid-is_done :
        (taken left : List Batch)
        → is_done ((mid apply s j taken left).jobs j) ≡ (length taken == (s.jobs j).nbbatches)
    unfolding is_done
    mid-is_done taken left = ap (λ (x : Job). x.batches_done == x.nbbatches) (change_at s.jobs j _)

    finished :
        (taken : List Batch) (b : Batch)
        → (s.jobs j).nbbatches ≡ length taken + 1
        → ((mid apply s j (taken ++ b ∷ []) []).jobs j).batches_done
          ≡ ((mid apply s j (taken ++ b ∷ []) []).jobs j).nbbatches
    finished taken b count =
        ap (λ (x : Job). x.batches_done) (change_at s.jobs j _)
        ∙ omega (arith, count, length-append taken (b ∷ []))
        ∙ sym (ap (λ (x : Job). x.nbbatches) (change_at s.jobs j _))

    exec_until_done-mid :
        (taken : List Batch) (b : Batch) (left : List Batch)
        → ForType apply s j (s.jobs j).jtype
        → Fresh (b ∷ left)
        → (s.jobs j).nbbatches ≡ length taken + length (b ∷ left)
        → exec_until_done apply (suc (length (b ∷ left))) j (mid apply s j taken (b ∷ left))
          ≡ returns (complete j (mid apply s j (taken ++ b ∷ left) []))
    exec_until_done-mid taken b [] is_for fresh count =
        let more : (length taken == (s.jobs j).nbbatches) ≡ false = ground arith in
        let all : (length (taken ++ b ∷ []) == (s.jobs j).nbbatches) ≡ true =
          ground (arith, length-append taken (b ∷ [])) in
        let last = mid apply s j (taken ++ b ∷ []) [] in
        let done = complete_lem last j (finished taken b (omega (arith, count))) in
        until-step 1 j (mid apply s j taken (b ∷ [])) _ 0 (mid-is_done taken (b ∷ []) ∙ more)
          (exec_job_last apply s j taken b is_for fresh.0 (omega (arith, count)))
        ∙ until_done 0 j (complete j last) (is_done_of (complete j last) j done.0.all_done)
    exec_until_done-mid taken b (c ∷ left) is_for fresh count =
        let more : (length taken == (s.jobs j).nbbatches) ≡ false = ground arith in
        until-step (suc (length (c ∷ left))) j (mid apply s j taken (b ∷ c ∷ left)) _ 0
          (mid-is_done taken (b ∷ c ∷ left) ∙ more)
          (exec_job-mid apply s j taken b c left is_for fresh.0 count)
        ∙ exec_until_done-mid (taken ++ b ∷ []) c left is_for fresh.1
            (omega (arith, count, length-append taken (b ∷ [])))
        ∙ ap (λ bs. returns (complete j (mid apply s j bs [])))
            (append_assoc taken (b ∷ []) (c ∷ left))

    -- A worker thread that waits for a parallel for of its own, which has at least one batch and
    -- none taken: without any help from other threads it comes out of its loop with the job
    -- complete and all batches run, when it is given one round more than the job has batches.
    pub exec_until_done-ends :
        (b : Batch) (left : List Batch)
        → (s.jobs j).batches ≡ b ∷ left
        → ForType apply s j (s.jobs j).jtype
        → Fresh (b ∷ left)
        → (s.jobs j).batches_done ≡ 0
        → (s.jobs j).nbbatches ≡ length (b ∷ left)
        → exec_until_done apply (suc (length (b ∷ left))) j s
          ≡ returns (complete j (mid apply s j (b ∷ left) []))
    exec_until_done-ends b left e is_for fresh none_done count =
        let here : mid apply s j [] (b ∷ left) ≡ s = rw (sym e) (start-mid apply s j none_done) in
        rw here at (exec_until_done-mid [] b left is_for fresh (omega (arith, count)))
