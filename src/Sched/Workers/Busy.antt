-- ===== src/Sched/Workers/Busy.antt =====
-- Who is still at work on a parallel for (Sched.Workers) that has no batch left.
use libfly.Prelude.{
  ℕ, ◌+◌, ◌<◌, ◌≡◌, sym, ap, ◌∙◌, false, none, some, ◌∷◌, ◌++◌, map, arith, length, ◌==◌, total,
  inl, inr,
}
use libfly.Job.{Job, get_exec_batch}
use libfly.Job.Indices.{Fresh}
use libfly.Sched.Drain.{mark, get_exec_batch-first}
use libfly.Sched.Workers.{System, Reach}
use libfly.Sched.Workers.Invariant.{busy, tests, posts, Reach-Divided, split_left}

some-ne-none {ℓ} : {A : Type ℓ} {a : A} → some a ≡ none → ⊥
some-ne-none e = cc

module _ {n : ℕ} {job : Job} {s : System} (r : Reach n job s) (fresh : Fresh job.batches)
    (count : length job.batches ≡ job.nbbatches) where
  -- While batches are missing and none is left, some thread has one in hand.
  pub open-busy :
      get_exec_batch s.shared.batches ≡ none
      → (s.shared.batches_done == job.nbbatches) ≡ false
      → 0 < total busy n s.pc
  open-busy none_free not_done =
      let (taken, left, inv) = Reach-Divided (λ _. 0) fresh count r in
      elim (split_left left) [
        | inl nil ↦
            let nothing : length left ≡ 0 = ap length nil in ground (arith, inv.in_hand, inv.count)
        | inr (b, bs, more) ↦
            let fresh' : Fresh (b ∷ bs) = rw more at inv.fresh in
            let first =
              ap get_exec_batch (inv.batches ∙ ap (λ left. map mark taken ++ left) more)
              ∙ get_exec_batch-first taken b bs fresh'.0 in
            absurd (some-ne-none (sym first ∙ none_free))
      ]

  -- Once all are done, the job has been posted, unless a thread has still to test it or to post it.
  pub done-posted :
      s.shared.batches_done ≡ job.nbbatches
      → 0 < job.nbbatches
      → 0 < s.shared.sem + total tests n s.pc
  done-posted done some_batch =
      let (taken, left, inv) = Reach-Divided (λ _. 0) fresh count r in inv.will_post done some_batch

  -- Whoever is about to post it has found it done.
  pub posting-done : 0 < s.shared.sem + total posts n s.pc → s.shared.batches_done ≡ job.nbbatches
  posting-done h = let (taken, left, inv) = Reach-Divided (λ _. 0) fresh count r in inv.posted h
