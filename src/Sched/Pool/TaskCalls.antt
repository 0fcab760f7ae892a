-- ===== src/Sched/Pool/TaskCalls.antt =====
-- The calls of the tasks of Sched.Pool: none is posted before its function was called.
use native.Mathlib.Decide.{dec_lt}
use libfly.Prelude.{
  ℕ, ◌+◌, ◌≤◌, ◌<◌, ◌≡◌, refl, sym, ap, ◌∙◌, Bool, true, false, [], ◌∷◌, ◌++◌, ◌==◌, Bool-cases,
  inl, inr, change, arith, total, total-zero, length,
}
use libfly.Job.{Job, task}
use libfly.Sched.{Task}
use libfly.Sched.Pool.{
  PoolPc, searching, moving, executing, removing, finishing, posting, Pool, goto, leave, claim,
  is_known, add, wake_up, run, Reach, here, later,
}
use libfly.Sched.Workers.{Shared, calling, checking, completing}
use libfly.Sched.Drain.{job_calls}
use libfly.Sched.Pool.Counts.{is_it, shift, at_leave}
use libfly.Sched.Pool.Parts.{
  part-change, sem_of, sem-post, claim-sem, claim-calls, nb_calls, call-more,
}
use libfly.Sched.Pool.Turns.{
  Turn, act-Turn, nothing_ready, got_ready, moved, none_running, got_running, took, none_free,
  task_called, unknown, called, batch_ended, found_done, found_open, completed, removed, finished,
  posted, asleep, woken,
}
use libfly.Sched.Pool.Taken.{loops_on, not_it}
use libfly.Sched.Pool.Tasks.{Reach-no_loop}

-- The threads that have called the function of task `k`, and have still to post it.
abbrev after : ℕ → PoolPc → ℕ
after k (executing sleepy j checking) = is_it k j
after k (executing sleepy j completing) = is_it k j
after k (removing sleepy j) = is_it k j
after k (finishing sleepy j) = is_it k j
after k (posting sleepy j) = is_it k j
after k _ = 0

abbrev Called : (n k : ℕ) (pc : ℕ → PoolPc) (sem nb : ℕ) → Type 0
Called n k pc sem nb = 0 < total (after k) n pc + sem → 0 < nb

module _ (jobs : ℕ → Job) (tasks : ℕ → Task) (n k : ℕ)
    (is_task : ((jobs k).jtype == task) ≡ true) where
  abbrev CallInv : Pool → Type 0
  CallInv s = Called n k s.pc (s.shared k).sem (nb_calls (s.shared k))

  -- It is of a known type.
  known_it : (j : ℕ) → is_known (jobs j) ≡ false → is_it k j ≡ 0
  known_it j no_type = elim (Bool-cases (j == k)) [
    | inl same ↦
        let e : j ≡ k = ground arith in
        let no_type' : is_known (jobs k) ≡ false = ap (λ j. is_known (jobs j)) (sym e) ∙ no_type in
        absurd (ground arith)
    | inr other ↦ rw other refl
  ]

  module _ (s : Pool) (i : ℕ) {p : PoolPc} (lt : i < n) (e : s.pc i ≡ p) (inv : CallInv s) where
    steady :
        (q : PoolPc) (shared : ℕ → Shared)
        → after k q ≤ after k p
        → (shared k).sem ≡ (s.shared k).sem
        → nb_calls (shared k) ≡ nb_calls (s.shared k)
        → CallInv (goto (record s { shared = shared }) i q)
    steady q shared le sem calls h = omega (arith, inv, shift (after k) s.pc q lt e, sem, calls, h)

    steady_at :
        (q : PoolPc) (j : ℕ) (sh : Shared)
        → after k q ≤ after k p
        → sh.sem ≡ (s.shared j).sem
        → nb_calls sh ≡ nb_calls (s.shared j)
        → CallInv (goto (record s { shared = change s.shared j sh }) i q)
    steady_at q j sh le sem calls =
        steady q (change s.shared j sh) le (part-change sem_of s.shared j sh k sem)
          (part-change nb_calls s.shared j sh k calls)

  turn-CallInv :
      (ok : Bool) (i : ℕ) (s : Pool) (p : PoolPc) (t : Pool)
      → i < n
      → s.pc i ≡ p
      → total (loops_on k) n s.pc ≡ 0
      → Turn jobs tasks ok i s p t
      → CallInv s
      → CallInv t
  turn-CallInv ok i s p t lt e none_loops (nothing_ready none_left) inv =
      steady s i lt e inv _ s.shared (omega arith) refl refl
  turn-CallInv ok i s p t lt e none_loops (moved j running pending cases all more few) inv =
      steady s i lt e inv _ s.shared (omega arith) refl refl
  turn-CallInv ok i s p t lt e none_loops (none_running none_left) inv =
      steady s i lt e inv _ s.shared (omega arith) refl refl
  turn-CallInv ok i s p t lt e none_loops (got_running j found some) inv =
      steady s i lt e inv _ s.shared (omega arith) refl refl
  turn-CallInv ok i s p t lt e none_loops (found_done sl j done) inv =
      steady s i lt e inv _ s.shared (omega arith) refl refl
  turn-CallInv ok i s p t lt e none_loops (completed sl j) inv =
      steady s i lt e inv _ s.shared (omega arith) refl refl
  turn-CallInv ok i s p t lt e none_loops (removed sl j) inv =
      steady s i lt e inv _ s.shared (omega arith) refl refl
  turn-CallInv ok i s p t lt e none_loops (finished sl j l) inv =
      steady s i lt e inv _ s.shared (omega arith) refl refl
  turn-CallInv ok i s p t lt e none_loops (woken c post) inv =
      steady s i lt e inv _ s.shared (omega arith) refl refl
  turn-CallInv ok i s p t lt e none_loops (unknown sl j no_type) inv =
      steady s i lt e inv _ s.shared (omega (arith, known_it j no_type)) refl refl
  turn-CallInv ok i s p t lt e none_loops (found_open sl j more) inv =
      steady s i lt e inv (leave sl) s.shared (omega (arith, at_leave (after k) sl refl refl)) refl
        refl
  turn-CallInv ok i s p t lt e none_loops (got_ready rest j first) inv =
      steady_at s i lt e inv (moving j) j (claim (jobs j) (s.shared j)) (omega arith)
        (claim-sem (jobs j) (s.shared j)) (claim-calls (jobs j) (s.shared j))
  turn-CallInv ok i s p t lt e none_loops (took sl j b bs loops first) inv =
      steady_at s i lt e inv (executing false j (calling (job_calls (jobs j) b))) j
        (record (s.shared j) { batches = bs }) (omega arith) refl refl
  turn-CallInv ok i s p t lt e none_loops (none_free sl j loops none_left) inv =
      steady_at s i lt e inv (executing true j checking) j (s.shared j)
        (omega (arith, not_it jobs tasks n k is_task j loops)) refl refl
  turn-CallInv ok i s p t lt e none_loops (batch_ended sl j) inv =
      steady_at s i lt e inv (executing sl j checking) j
        (record (s.shared j) { batches_done = (s.shared j).batches_done + 1 })
        (omega (arith, none_loops, shift (loops_on k) s.pc searching lt e)) refl refl
  turn-CallInv ok i s p t lt e none_loops (task_called sl j c no_loop is its) inv =
      let sh = record (s.shared j) { calls = (s.shared j).calls ++ c ∷ [] } in
      let same : (change s.shared j sh k).sem ≡ (s.shared k).sem =
        part-change sem_of s.shared j sh k refl in
      let m = shift (after k) s.pc (executing false j checking) lt e in
      let more = call-more s.shared j k c in
      λ h. elim (dec_lt 0 (is_it k j)) [
        | yes it ↦ omega (arith, more, it)
        | no other ↦ omega (arith, inv, h, m, same, more, other)
      ]
  turn-CallInv ok i s p t lt e none_loops (called sl j c cs) inv =
      let sh = record (s.shared j) { calls = (s.shared j).calls ++ c ∷ [] } in
      let same : (change s.shared j sh k).sem ≡ (s.shared k).sem =
        part-change sem_of s.shared j sh k refl in
      λ h. omega (
        arith,
        inv,
        h,
        shift (after k) s.pc (executing sl j (calling cs)) lt e,
        same,
        call-more s.shared j k c,
      )
  turn-CallInv ok i s p t lt e none_loops (posted sl j) inv =
      let sh = record (s.shared j) { sem = (s.shared j).sem + 1 } in
      λ h. omega (
        arith,
        inv,
        h,
        shift (after k) s.pc (leave sl) lt e,
        at_leave (after k) sl refl refl,
        sem-post s.shared j k,
        part-change nb_calls s.shared j sh k refl,
      )
  turn-CallInv ok i s p t lt e none_loops (asleep no_post) inv = inv

module _ (jobs : ℕ → Job) (tasks : ℕ → Task) {nbworkers : ℕ} {roomy : Bool} (k : ℕ)
    (is_task : ((jobs k).jtype == task) ≡ true) where
  Reach-CallInv :
      {s : Pool}
      → Reach jobs tasks nbworkers roomy s
      → CallInv jobs tasks (nbworkers + nbworkers) k is_task s
  Reach-CallInv here = λ h.
      absurd (
        omega (arith, h, total-zero (after k) (λ _. searching) (λ _. refl) (nbworkers + nbworkers)))
  Reach-CallInv (later {s} r (add j some_job known new)) = Reach-CallInv r
  Reach-CallInv (later {s} r (wake_up w t lt left which)) = Reach-CallInv r
  Reach-CallInv (later {s} r (run ok i lt room)) =
      turn-CallInv jobs tasks (nbworkers + nbworkers) k is_task ok i s (s.pc i) _ lt refl
        (Reach-no_loop jobs tasks k is_task r) (act-Turn jobs tasks ok i s (s.pc i))
        (Reach-CallInv r)

  -- A task that is posted was called: with any number of workers and any jobs, at every moment, if the
  -- semaphore that `fly_wait_task` waits on has been posted, a call was made for the task.
  pub task_posted-called :
      {s : Pool}
      → Reach jobs tasks nbworkers roomy s
      → 0 < (s.shared k).sem
      → 0 < length (s.shared k).calls
  task_posted-called r has_post = omega (arith, Reach-CallInv r, has_post)
