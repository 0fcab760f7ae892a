-- ===== src/Sched/Pool/Drops.antt =====
-- The steps of Sched.Pool on the lists and the semaphores: what they leave to do.
use libfly.Prelude.{
  ℕ, suc, ◌+◌, ◌-◌, ◌*◌, ◌≤◌, ◌<◌, ◌≡◌, refl, ap, ◌∙◌, Bool, false, List, [], ◌∷◌, ◌++◌, ◌==◌,
  Bool-cases, inl, inr, ◌⊎◌, change, arith, weigh, weigh-append, total-change,
}
use libfly.FlyList.View.{erase, pop_back}
use libfly.Job.{Job, task}
use libfly.Sched.Workers.{Shared, outside}
use libfly.Sched.Pool.{PoolPc, searching, moving, looking, executing, waiting, Pool, goto, claim}
use libfly.Sched.Pool.Counts.{times, weigh-pop_back, shift}
use libfly.Sched.Pool.Effort.{
  weigh-le, weigh-erase, erase-drop, total-le, total-few, work, effort, ready_work, running_work,
  left_to_do,
}
use libfly.Sched.Pool.Less.{Less, effort-le, same_work}

module _ (jobs : ℕ → Job) (nbworkers : ℕ) where
  claim-batches : (job : Job) (sh : Shared) → (claim job sh).batches ≡ sh.batches
  claim-batches job sh = elim (Bool-cases (job.jtype == task)) [
    | inl is ↦ rw is refl
    | inr other ↦ rw other refl
  ]

  pub pops_one :
      (s : Pool) (i : ℕ) (rest : List ℕ) (j x : ℕ) (xs : List ℕ)
      → i < nbworkers + nbworkers
      → s.pc i ≡ searching
      → s.ready_jobs ≡ x ∷ xs
      → pop_back (x ∷ xs) ≡ (j, rest)
      → Less jobs nbworkers
          (goto
            (record s {
              ready_jobs = rest;
              shared = change s.shared j (claim (jobs j) (s.shared j));
            })
            i
            (moving j))
          s
  pops_one s i rest j x xs lt e ready popped =
      let shared = change s.shared j (claim (jobs j) (s.shared j)) in
      let w = ready_work jobs nbworkers s.shared in
      let le : (k : ℕ) → work jobs shared k ≤ work jobs s.shared k =
        same_work jobs nbworkers s.shared j (claim (jobs j) (s.shared j))
          (claim-batches (jobs j) (s.shared j)) in
      let one_less : weigh w s.ready_jobs ≡ w j + weigh w rest =
        ap (weigh w) ready
        ∙ weigh-pop_back w x xs
        ∙ ap (λ (out : ℕ × List ℕ). w out.0 + weigh w out.1) popped in
      omega (
        arith,
        one_less,
        weigh-le (ready_work jobs nbworkers shared) w (λ k. omega (arith, le k)) rest,
        weigh-le (running_work jobs shared) (running_work jobs s.shared) (λ k. omega (arith, le k))
            s.running_jobs,
        total-le (effort jobs nbworkers shared) (effort jobs nbworkers s.shared)
            (effort-le jobs nbworkers s.shared shared le) (nbworkers + nbworkers)
            (change s.pc i (moving j)),
        shift (effort jobs nbworkers s.shared) s.pc (moving j) lt e,
      )

  pub outside_effort :
      (shared : ℕ → Shared) (sl : Bool) (j : ℕ)
      → (effort jobs nbworkers shared (executing sl j outside) ≤ 12)
        × (5 ≤ effort jobs nbworkers shared (executing sl j outside))
  outside_effort shared sl j = elim (Bool-cases ((jobs j).jtype == task)) [
    | inl is ↦ rw is (omega arith, omega arith)
    | inr other ↦ rw other (omega arith, omega arith)
  ]

  pub puts :
      (s : Pool) (i j : ℕ) (running : List ℕ) (pending : ℕ → ℕ)
      → i < nbworkers + nbworkers
      → s.pc i ≡ moving j
      → (running ≡ s.running_jobs) ⊎ (running ≡ s.running_jobs ++ j ∷ [])
      → ((w : ℕ) → pending w ≤ s.pending w + 1)
      → Less jobs nbworkers
          (goto
            (record s { running_jobs = running; pending = pending })
            i
            (executing false j outside))
          s
  puts s i j running pending lt e cases few =
      let w = running_work jobs s.shared in
      let longer : weigh w running ≤ weigh w s.running_jobs + w j =
        unfold weigh in
        elim cases [
          | inl same ↦ omega (arith, ap (weigh w) same)
          | inr more ↦ omega (arith, ap (weigh w) more, weigh-append w s.running_jobs (j ∷ []))
        ] in
      omega (
        arith,
        longer,
        total-few nbworkers s.pending pending few,
        outside_effort s.shared false j,
        shift (effort jobs nbworkers s.shared) s.pc (executing false j outside) lt e,
      )

  pub wakes_up :
      (s : Pool) (i c : ℕ)
      → i < nbworkers + nbworkers
      → s.pc i ≡ waiting
      → s.sem i ≡ suc c
      → Less jobs nbworkers (goto (record s { sem = change s.sem i c }) i searching) s
  wakes_up s i c lt e post = omega (
    arith,
    post,
    total-change (λ x. 8 * x) (nbworkers + nbworkers) s.sem i c lt,
    shift (effort jobs nbworkers s.shared) s.pc searching lt e,
  )

  pub erases :
      (s : Pool) (i j : ℕ) {p : PoolPc} (q : PoolPc)
      → i < nbworkers + nbworkers
      → s.pc i ≡ p
      → effort jobs nbworkers s.shared q < effort jobs nbworkers s.shared p
      → Less jobs nbworkers (goto (record s { running_jobs = erase j s.running_jobs }) i q) s
  erases s i j q lt e drop = omega (
    arith,
    drop,
    weigh-erase (running_work jobs s.shared) j s.running_jobs,
    shift (effort jobs nbworkers s.shared) s.pc q lt e,
  )

  -- Where the job was still in the list, its place in it counts as well.
  pub erases_it :
      (s : Pool) (i j : ℕ) {p : PoolPc} (q : PoolPc)
      → i < nbworkers + nbworkers
      → s.pc i ≡ p
      → effort jobs nbworkers s.shared q < effort jobs nbworkers s.shared p
      → 0 < times j s.running_jobs
      → left_to_do jobs nbworkers (goto (record s { running_jobs = erase j s.running_jobs }) i q)
          + 5
        ≤ left_to_do jobs nbworkers s
  erases_it s i j q lt e drop in_list = omega (
    arith,
    drop,
    erase-drop (running_work jobs s.shared) j s.running_jobs in_list,
    shift (effort jobs nbworkers s.shared) s.pc q lt e,
  )

  -- A task is picked: its thread has more to do.
  pub picks_it :
      (s : Pool) (i j : ℕ)
      → i < nbworkers + nbworkers
      → s.pc i ≡ looking
      → left_to_do jobs nbworkers (goto s i (executing false j outside))
        ≤ left_to_do jobs nbworkers s + 6
  picks_it s i j lt e = omega (
    arith,
    outside_effort s.shared false j,
    shift (effort jobs nbworkers s.shared) s.pc (executing false j outside) lt e,
  )

  -- A call of `fly_worker_work_available` is made.
  pub posts_one :
      (s : Pool) (w t : ℕ)
      → w < nbworkers
      → t < nbworkers + nbworkers
      → 0 < s.pending w
      → Less jobs nbworkers
          (record s {
            pending = change s.pending w (s.pending w - 1);
            sem = change s.sem t (s.sem t + 1);
          })
          s
  posts_one s w t lt t_lt left = omega (
    arith,
    left,
    total-change (λ x. 9 * x) nbworkers s.pending w (s.pending w - 1) lt,
    total-change (λ x. 8 * x) (nbworkers + nbworkers) s.sem t (s.sem t + 1) t_lt,
  )
