-- ===== src/Sched/Pool/Kept.antt =====
-- No job of Sched.Pool is lost.
use mathlib.Core.Path.{subst}
use libfly.Prelude.{
  ℕ, ◌+◌, ◌≤◌, ◌<◌, ◌≡◌, refl, sym, ap, ◌∙◌, Bool, true, false, List, [], ◌∷◌, ◌++◌, ◌==◌,
  Bool-cases, inl, inr, ◌⊎◌, change, arith, total,
}
use libfly.Job.{Job}
use libfly.Sched.{Task}
use libfly.Sched.Pool.{
  PoolPc, searching, moving, executing, finishing, Pool, goto, leave, claim, is_known, act, add,
  wake_up, run, Reach, here, later,
}
use libfly.Sched.Workers.{Shared, outside, calling, checking}
use libfly.Sched.Drain.{job_calls}
use libfly.Sched.Pool.Counts.{
  is_it, times, times-snoc, weigh-pop_back, times-erase, shift, at_leave, moves, ends, unadded,
  added-change,
}
use libfly.Sched.Pool.Parts.{part-change, sem_of, sem-post, claim-sem}
use libfly.Sched.Pool.Turns.{
  Turn, act-Turn, nothing_ready, got_ready, moved, none_running, got_running, took, none_free,
  task_called, unknown, called, batch_ended, found_done, found_open, completed, removed, finished,
  posted, asleep, woken,
}

-- Where job `k` can be found: in a list, with a thread that moves it, or posted.
abbrev Found :
    (n k : ℕ) (ready running : List ℕ) (added : Bool) (pc : ℕ → PoolPc) (sem : ℕ) → Type 0
Found n k ready running added pc sem =
    1
    ≤ times k ready
      + total (moves k) n pc
      + times k running
      + total (ends k) n pc
      + sem
      + unadded added

abbrev Kept : (n k : ℕ) → Pool → Type 0
Kept n k s = Found n k s.ready_jobs s.running_jobs (s.added k) s.pc (s.shared k).sem

module _ (jobs : ℕ → Job) (tasks : ℕ → Task) (n k : ℕ) (known : is_known (jobs k) ≡ true) where
  -- A thread that neither comes from nor goes to a place where it moves a job.
  calm :
      (s : Pool) (i : ℕ) {p : PoolPc} (q : PoolPc) (shared : ℕ → Shared)
      → i < n
      → s.pc i ≡ p
      → moves k p ≡ 0
      → moves k q ≡ 0
      → ends k p ≤ ends k q
      → (shared k).sem ≡ (s.shared k).sem
      → Kept n k s
      → Kept n k (goto (record s { shared = shared }) i q)
  calm s i q shared lt e no_move no_move' le same inv =
      omega (arith, shift (moves k) s.pc q lt e, shift (ends k) s.pc q lt e, inv)

  calm_at :
      (s : Pool) (i : ℕ) {p : PoolPc} (q : PoolPc) (j : ℕ) (sh : Shared)
      → i < n
      → s.pc i ≡ p
      → moves k p ≡ 0
      → moves k q ≡ 0
      → ends k p ≤ ends k q
      → sh.sem ≡ (s.shared j).sem
      → Kept n k s
      → Kept n k (goto (record s { shared = change s.shared j sh }) i q)
  calm_at s i q j sh lt e no_move no_move' le same =
      calm s i q (change s.shared j sh) lt e no_move no_move' le
        (part-change sem_of s.shared j sh k same)

  -- With room, a job of a known type gets into the running list.
  moved-times :
      (s : Pool) (j : ℕ) (running : List ℕ)
      → (running ≡ s.running_jobs) ⊎ (running ≡ s.running_jobs ++ j ∷ [])
      → (is_known (jobs j) ≡ true → running ≡ s.running_jobs ++ j ∷ [])
      → times k s.running_jobs + is_it k j ≤ times k running
  moved-times s j running cases all = elim (Bool-cases (j == k)) [
    | inl it ↦
        let e : j ≡ k = ground arith in
        let longer = all (ap (λ j. is_known (jobs j)) e ∙ known) in
        omega (arith, ap (times k) longer, times-snoc k j s.running_jobs)
    | inr other ↦
        let none_of : is_it k j ≡ 0 = rw other refl in
        elim cases [
          | inl same ↦ omega (arith, ap (times k) same, none_of)
          | inr longer ↦ omega (arith, ap (times k) longer, times-snoc k j s.running_jobs, none_of)
        ]
  ]

  turn-Kept :
      (i : ℕ) (s : Pool) (p : PoolPc) (t : Pool)
      → i < n
      → s.pc i ≡ p
      → Turn jobs tasks true i s p t
      → Kept n k s
      → Kept n k t
  turn-Kept i s p t lt e (nothing_ready none_left) inv =
      calm s i _ s.shared lt e refl refl (omega arith) refl inv
  turn-Kept i s p t lt e (got_ready rest j (x, xs, ready, popped)) inv =
      let one_less : times k s.ready_jobs ≡ is_it k j + times k rest =
        ap (times k) ready
        ∙ weigh-pop_back (is_it k) x xs
        ∙ ap (λ (out : ℕ × List ℕ). is_it k out.0 + times k out.1) popped in
      omega (
        arith,
        inv,
        one_less,
        shift (moves k) s.pc (moving j) lt e,
        shift (ends k) s.pc (moving j) lt e,
        part-change sem_of s.shared j (claim (jobs j) (s.shared j)) k
            (claim-sem (jobs j) (s.shared j)),
      )
  turn-Kept i s p t lt e (moved j running pending cases all more few) inv = omega (
    arith,
    inv,
    moved-times s j running cases (λ known. all known refl),
    shift (moves k) s.pc (executing false j outside) lt e,
    shift (ends k) s.pc (executing false j outside) lt e,
  )
  turn-Kept i s p t lt e (got_running j found some) inv =
      calm s i _ s.shared lt e refl refl (omega arith) refl inv
  turn-Kept i s p t lt e (removed sl j) inv = omega (
    arith,
    inv,
    times-erase k j s.running_jobs,
    shift (moves k) s.pc (finishing sl j) lt e,
    shift (ends k) s.pc (finishing sl j) lt e,
  )
  turn-Kept i s p t lt e (found_open sl j more) inv =
      calm s i (leave sl) s.shared lt e refl (at_leave (moves k) sl refl refl) (omega arith) refl
        inv
  turn-Kept i s p t lt e (posted sl j) inv = omega (
    arith,
    inv,
    sem-post s.shared j k,
    at_leave (moves k) sl refl refl,
    at_leave (ends k) sl refl refl,
    shift (moves k) s.pc (leave sl) lt e,
    shift (ends k) s.pc (leave sl) lt e,
  )
  turn-Kept i s p t lt e (woken c post) inv =
      calm s i _ s.shared lt e refl refl (omega arith) refl inv
  turn-Kept i s p t lt e (asleep no_post) inv = inv
  turn-Kept i s p t lt e (none_running none_left) inv =
      calm s i _ s.shared lt e refl refl (omega arith) refl inv
  turn-Kept i s p t lt e (unknown sl j not) inv =
      calm s i _ s.shared lt e refl refl (omega arith) refl inv
  turn-Kept i s p t lt e (found_done sl j done) inv =
      calm s i _ s.shared lt e refl refl (omega arith) refl inv
  turn-Kept i s p t lt e (completed sl j) inv =
      calm s i _ s.shared lt e refl refl (omega arith) refl inv
  turn-Kept i s p t lt e (finished sl j l) inv =
      calm s i _ s.shared lt e refl refl (omega arith) refl inv
  turn-Kept i s p t lt e (took sl j b bs loops first) inv =
      calm_at s i (executing false j (calling (job_calls (jobs j) b))) j
        (record (s.shared j) { batches = bs }) lt e refl refl (omega arith) refl inv
  turn-Kept i s p t lt e (none_free sl j loops none_left) inv =
      calm_at s i (executing true j checking) j (s.shared j) lt e refl refl (omega arith) refl inv
  turn-Kept i s p t lt e (task_called sl j c no_loop is its) inv =
      calm_at s i (executing false j checking) j
        (record (s.shared j) { calls = (s.shared j).calls ++ c ∷ [] }) lt e refl refl (omega arith)
        refl inv
  turn-Kept i s p t lt e (called sl j c cs) inv =
      calm_at s i (executing sl j (calling cs)) j
        (record (s.shared j) { calls = (s.shared j).calls ++ c ∷ [] }) lt e refl refl (omega arith)
        refl inv
  turn-Kept i s p t lt e (batch_ended sl j) inv =
      calm_at s i (executing sl j checking) j
        (record (s.shared j) { batches_done = (s.shared j).batches_done + 1 }) lt e refl refl
        (omega arith) refl inv

start-Found : (n k : ℕ) → Found n k [] [] false (λ _. searching) 0
start-Found n k = omega arith

module _ (jobs : ℕ → Job) (tasks : ℕ → Task) {nbworkers : ℕ} (k : ℕ)
    (known : is_known (jobs k) ≡ true) where
  Reach-Kept : {s : Pool} → Reach jobs tasks nbworkers true s → Kept (nbworkers + nbworkers) k s
  Reach-Kept here = start-Found (nbworkers + nbworkers) k
  Reach-Kept (later {s} r (add j some_job known' new)) =
      omega (arith, Reach-Kept r, added-change s.added j k new, times-snoc k j s.ready_jobs)
  Reach-Kept (later {s} r (wake_up w t lt left which)) = Reach-Kept r
  Reach-Kept (later {s} r (run ok i lt room)) =
      turn-Kept jobs tasks (nbworkers + nbworkers) k known i s (s.pc i) _ lt refl
        (subst (λ ok. Turn jobs tasks true i s (s.pc i) (act jobs tasks ok i (s.pc i) s))
          (sym (room refl)) (act-Turn jobs tasks true i s (s.pc i)))
        (Reach-Kept r)

  -- No job is lost: with any number of workers and any jobs, where every cell of the running list can
  -- be had, a job of a known type that a client has added is at every moment in the ready list, with
  -- a thread on its way to `fly_sched_move_to_running`, in the running list, with a thread between
  -- `fly_sched_remove_running` and its post, or it has been posted.
  pub never_lost :
      {s : Pool}
      → Reach jobs tasks nbworkers true s
      → s.added k ≡ true
      → 0
        < times k s.ready_jobs
          + total (moves k) (nbworkers + nbworkers) s.pc
          + times k s.running_jobs
          + total (ends k) (nbworkers + nbworkers) s.pc
          + (s.shared k).sem
  never_lost r added = omega (arith, Reach-Kept r, ap unadded added)
