-- ===== src/Sched/Pool/Settle.antt =====
-- The workers of Sched.Pool can always run all jobs to their end.
use native.Mathlib.Decide.{dec_lt}
use libfly.Prelude.{
  ℕ, zero, suc, ◌+◌, ◌<◌, ◌≡◌, refl, ap, ◌∙◌, Bool, true, inl, inr, ◌⊎◌, Bool-cases, arith, total,
  total-pos, le-total,
}
use libfly.Job.{Job}
use libfly.Sched.{Task, is_for}
use libfly.Sched.Pool.{
  PoolPc, searching, moving, posting, looking, executing, removing, finishing, waiting, Pool, Reach,
}
use libfly.Sched.Pool.Facts.{Reach-Admitted}
use libfly.Sched.Pool.Someone.{IsCut}
use libfly.Sched.Pool.Effort.{left_to_do}
use libfly.Sched.Pool.Quiet.{Quiet, quiet-all_run, quiet-task_posted}
use libfly.Sched.Pool.Onward.{
  Steps, no_step, Steps-append, Steps-Reach, Onward, run-Onward, post-Onward,
}

module _ (jobs : ℕ → Job) (tasks : ℕ → Task) (nbworkers : ℕ) where
  module _ (cut : (j : ℕ) → is_for (jobs j) ≡ true → IsCut (jobs j)) where
    abbrev stirs : PoolPc → ℕ
    stirs waiting = 0
    stirs _ = 1

    stirs_awake : (p : PoolPc) → 0 < stirs p → p ≡ waiting → ⊥
    stirs_awake p pos e = omega (arith, pos, ap stirs e)

    sleeps : (p : PoolPc) → stirs p ≡ 0 → p ≡ waiting
    sleeps waiting e = refl
    sleeps searching e = absurd (omega arith)
    sleeps (moving j) e = absurd (omega arith)
    sleeps looking e = absurd (omega arith)
    sleeps (executing sl j p) e = absurd (omega arith)
    sleeps (removing sl j) e = absurd (omega arith)
    sleeps (finishing sl j) e = absurd (omega arith)
    sleeps (posting sl j) e = absurd (omega arith)

    abbrev count : ℕ → ℕ
    count k = k

    Quiet-or :
        (s : Pool)
        → Reach jobs tasks nbworkers true s
        → Quiet nbworkers s ⊎ Onward jobs tasks nbworkers s
    Quiet-or s r = elim (dec_lt 0 (total count nbworkers s.pending)) [
      | yes some_call ↦
          let (w, lt, left) = total-pos count nbworkers s.pending some_call in
          inr (post-Onward jobs tasks nbworkers cut s w lt left)
      | no no_call ↦ elim (dec_lt 0 (total stirs (nbworkers + nbworkers) s.pc)) [
        | yes some_thread ↦
            let (i, lt, pos) = total-pos stirs (nbworkers + nbworkers) s.pc some_thread in
            inr (
              run-Onward jobs tasks nbworkers cut s i lt r
                (λ e. absurd (stirs_awake (s.pc i) pos e)))
        | no no_thread ↦ elim (dec_lt 0 (total count (nbworkers + nbworkers) s.sem)) [
          | yes some_post ↦
              let (i, lt, pos) = total-pos count (nbworkers + nbworkers) s.sem some_post in
              inr (run-Onward jobs tasks nbworkers cut s i lt r (λ e. pos))
          | no no_post ↦ inl (record {
            asleep = λ i lt. (
              sleeps (s.pc i)
                  (omega (arith, le-total stirs (nbworkers + nbworkers) s.pc i lt, no_thread)),
              omega (arith, le-total count (nbworkers + nbworkers) s.sem i lt, no_post),
            );
            no_pending = λ w lt. omega (arith, le-total count nbworkers s.pending w lt, no_call);
          })
        ]
      ]
    ]

    abbrev Settled : Pool → Type 0
    Settled s =
        (t : Pool) × Steps jobs tasks nbworkers s t × Quiet nbworkers t × (t.added ≡ s.added)

    settle :
        (m : ℕ) (s : Pool)
        → left_to_do jobs nbworkers s < m
        → Reach jobs tasks nbworkers true s
        → Settled s
    settle zero s lt r = absurd (omega arith)
    settle (suc m) s lt r = elim (Quiet-or s r) [
      | inl quiet ↦ (s, no_step, quiet, refl)
      | inr (t, steps, less, same) ↦
          let (u, more, quiet, same') =
            settle m t (omega (arith, less, lt)) (Steps-Reach jobs tasks nbworkers r steps) in
          (u, Steps-append jobs tasks nbworkers steps more, quiet, same' ∙ same)
    ]

  -- The workers never get stuck: with at least one worker and any jobs, where the cells of the running
  -- list can be had and every parallel for comes with at least one batch, as many as `nbbatches` says
  -- and all unexecuted: from every state that can be reached, and for every job that has been added,
  -- some further steps, none of which adds a job, lead to a state in which every thread sleeps with
  -- no post on its semaphore, nobody has still to call `fly_worker_work_available`, and the job has
  -- been posted.
  pub settles :
      (s : Pool) (j : ℕ)
      → ((j : ℕ) → is_for (jobs j) ≡ true → IsCut (jobs j))
      → 0 < nbworkers
      → Reach jobs tasks nbworkers true s
      → s.added j ≡ true
      → (t : Pool) × Steps jobs tasks nbworkers s t
        × Quiet nbworkers t
        × (t.added ≡ s.added)
        × (0 < (t.shared j).sem)
  settles s j cut some_worker r added =
      let (t, steps, quiet, same) =
        settle cut (left_to_do jobs nbworkers s + 1) s (omega arith) r in
      let r' = Steps-Reach jobs tasks nbworkers r steps in
      let added' : t.added j ≡ true = ap (λ (f : ℕ → Bool). f j) same ∙ added in
      let known = (Reach-Admitted jobs tasks j r' added').0 in
      (
        t,
        steps,
        quiet,
        same,
        elim (Bool-cases (is_for (jobs j))) [
          | inl loops ↦
              (quiet-all_run jobs tasks some_worker quiet j (λ _. 0) cut loops r' added').0
          | inr no_loop ↦
              quiet-task_posted jobs tasks some_worker quiet j (rw no_loop at known) r' added'
        ],
      )
