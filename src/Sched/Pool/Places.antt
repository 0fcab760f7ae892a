-- ===== src/Sched/Pool/Places.antt =====
-- Where the jobs of Sched.Pool stand: none is in two places at once.
use mathlib.Core.Path.{subst}
use libfly.Prelude.{
  ℕ, ◌+◌, ◌≤◌, ◌<◌, ◌≡◌, refl, sym, ap, ◌∙◌, Bool, false, List, [], ◌==◌, Bool-cases, inl, inr,
  arith, total, total-zero, weigh,
}
use libfly.Memory.{null}
use libfly.Job.{Job}
use libfly.Sched.{Task}
use libfly.Sched.Pool.{
  PoolPc, searching, moving, executing, finishing, Pool, goto, leave, current, look, add, wake_up,
  run, Reach, here, later,
}
use libfly.Sched.Workers.{outside}
use libfly.Sched.Pool.Counts.{
  is_it, times, times-snoc, weigh-pop_back, times-erase, running_loop-member, shift, at_leave,
  moves, inside, unadded, added-change,
}
use libfly.Sched.Pool.Turns.{
  Turn, act-Turn, nothing_ready, got_ready, moved, none_running, got_running, took, none_free,
  task_called, unknown, called, batch_ended, found_done, found_open, completed, removed, finished,
  posted, asleep, woken,
}

-- What holds of job `k` with `n` threads.
pub record Places (n k : ℕ) (ready running : List ℕ) (added : Bool) (pc : ℕ → PoolPc) : Type 0 where
  pub once : times k ready + total (moves k) n pc + times k running + unadded added ≤ 1
  -- Before it runs no thread has it in hand.
  pub before : 0 < times k ready + total (moves k) n pc + unadded added → total (inside k) n pc ≡ 0

abbrev pub Placed : (n k : ℕ) → Pool → Type 0
Placed n k s = Places n k s.ready_jobs s.running_jobs (s.added k) s.pc

-- The job that `fly_sched_get_running` picks is in the running list.
pub look-times :
    (jobs : ℕ → Job) (tasks : ℕ → Task) (s : Pool) (j k : ℕ)
    → j ≡ look jobs tasks s
    → (j == null) ≡ false
    → is_it k j ≤ times k s.running_jobs
unfolding look
look-times jobs tasks s j k found some =
    elim (running_loop-member (current jobs tasks s) null s.running_jobs) [
      | inl none_left ↦ absurd (ground (arith, found ∙ none_left))
      | inr found_it ↦
          let at_j : 0 < times j s.running_jobs =
            subst (λ j. 0 < times j s.running_jobs) (sym found) found_it in
          elim (Bool-cases (j == k)) [
            | inl same ↦
                let e : j ≡ k = ground arith in
                let at_k : 0 < times k s.running_jobs =
                  subst (λ j. 0 < times j s.running_jobs) e at_j in
                rw same (omega (arith, at_k))
            | inr other ↦ rw other (omega arith)
          ]
    ]

module _ (jobs : ℕ → Job) (tasks : ℕ → Task) (n k : ℕ) where
  -- A thread that does not come from or go to `fly_sched_move_to_running`.
  calm :
      (s : Pool) (i : ℕ) {p : PoolPc} (q : PoolPc)
      → i < n
      → s.pc i ≡ p
      → moves k p ≡ 0
      → moves k q ≡ 0
      → inside k q ≤ inside k p
      → Placed n k s
      → Placed n k (goto s i q)
  calm s i q lt e no_move no_move' le inv =
      let m = shift (moves k) s.pc q lt e in
      let r = shift (inside k) s.pc q lt e in
      record { once = omega (arith, m, inv.once); before = λ h. omega (arith, m, r, inv.before) }

  turn-Placed :
      (ok : Bool) (i : ℕ) (s : Pool) (p : PoolPc) (t : Pool)
      → i < n
      → s.pc i ≡ p
      → Turn jobs tasks ok i s p t
      → Placed n k s
      → Placed n k t
  turn-Placed ok i s p t lt e (nothing_ready none_left) inv =
      calm s i _ lt e refl refl (omega arith) inv
  turn-Placed ok i s p t lt e (got_ready rest j (x, xs, ready, popped)) inv =
      let m = shift (moves k) s.pc (moving j) lt e in
      let r = shift (inside k) s.pc (moving j) lt e in
      let one_less : times k s.ready_jobs ≡ is_it k j + times k rest =
        ap (times k) ready
        ∙ weigh-pop_back (is_it k) x xs
        ∙ ap (λ (out : ℕ × List ℕ). is_it k out.0 + times k out.1) popped in
      record {
        once = omega (arith, inv.once, m, one_less);
        before = λ h. omega (arith, inv.before, m, r, one_less);
      }
  turn-Placed ok i s p t lt e (moved j running pending cases all more few) inv =
      let m = shift (moves k) s.pc (executing false j outside) lt e in
      let r = shift (inside k) s.pc (executing false j outside) lt e in
      let added : times k running ≤ times k s.running_jobs + is_it k j = elim cases [
        | inl same ↦ omega (arith, ap (times k) same)
        | inr longer ↦ omega (arith, ap (times k) longer, times-snoc k j s.running_jobs)
      ] in
      record {
        once = omega (arith, inv.once, m, added);
        before = λ h. omega (arith, inv.once, inv.before, m, r);
      }
  turn-Placed ok i s p t lt e (got_running j found some) inv =
      let m = shift (moves k) s.pc (executing false j outside) lt e in
      let r = shift (inside k) s.pc (executing false j outside) lt e in
      record {
        once = omega (arith, inv.once, m);
        before =
            λ h. omega (arith, inv.once, inv.before, m, r, look-times jobs tasks s j k found some);
      }
  turn-Placed ok i s p t lt e (removed sl j) inv =
      let m = shift (moves k) s.pc (finishing sl j) lt e in
      let r = shift (inside k) s.pc (finishing sl j) lt e in
      let fewer = times-erase k j s.running_jobs in
      record {
        once = omega (arith, inv.once, m, fewer.0);
        before = λ h. omega (arith, inv.before, m, r);
      }
  turn-Placed ok i s p t lt e (found_open sl j more) inv =
      let no_move = at_leave (moves k) sl refl refl in
      let out = at_leave (inside k) sl refl refl in
      calm s i (leave sl) lt e refl no_move (omega (arith, out)) inv
  turn-Placed ok i s p t lt e (posted sl j) inv =
      let no_move = at_leave (moves k) sl refl refl in
      let out = at_leave (inside k) sl refl refl in
      calm s i (leave sl) lt e refl no_move (omega (arith, out)) inv
  turn-Placed ok i s p t lt e (woken c post) inv = calm s i _ lt e refl refl (omega arith) inv
  turn-Placed ok i s p t lt e (asleep no_post) inv = inv
  turn-Placed ok i s p t lt e (none_running none_left) inv =
      calm s i _ lt e refl refl (omega arith) inv
  turn-Placed ok i s p t lt e (took sl j b bs loops first) inv =
      calm s i _ lt e refl refl (omega arith) inv
  turn-Placed ok i s p t lt e (none_free sl j loops none_left) inv =
      calm s i _ lt e refl refl (omega arith) inv
  turn-Placed ok i s p t lt e (task_called sl j c no_loop is its) inv =
      calm s i _ lt e refl refl (omega arith) inv
  turn-Placed ok i s p t lt e (unknown sl j not) inv = calm s i _ lt e refl refl (omega arith) inv
  turn-Placed ok i s p t lt e (called sl j c cs) inv = calm s i _ lt e refl refl (omega arith) inv
  turn-Placed ok i s p t lt e (batch_ended sl j) inv = calm s i _ lt e refl refl (omega arith) inv
  turn-Placed ok i s p t lt e (found_done sl j done) inv =
      calm s i _ lt e refl refl (omega arith) inv
  turn-Placed ok i s p t lt e (completed sl j) inv = calm s i _ lt e refl refl (omega arith) inv
  turn-Placed ok i s p t lt e (finished sl j l) inv = calm s i _ lt e refl refl (omega arith) inv

start-Places : (n k : ℕ) → Places n k [] [] false (λ _. searching)
unfolding weigh
start-Places n k = record {
  once = omega (arith, none_of (moves k) refl);
  before = λ h. none_of (inside k) refl;
}
  where
    none_of : (w : PoolPc → ℕ) → w searching ≡ 0 → total w n (λ _. searching) ≡ 0
    none_of w e = total-zero w (λ _. searching) (λ _. e) n

module _ (jobs : ℕ → Job) (tasks : ℕ → Task) {nbworkers : ℕ} {roomy : Bool} (k : ℕ) where
  pub Reach-Placed :
      {s : Pool} → Reach jobs tasks nbworkers roomy s → Placed (nbworkers + nbworkers) k s
  Reach-Placed here = start-Places (nbworkers + nbworkers) k
  Reach-Placed (later {s} r (add j some_job known new)) =
      let inv = Reach-Placed r in
      let same = added-change s.added j k new in
      let longer = times-snoc k j s.ready_jobs in
      record {
        once = omega (arith, inv.once, same, longer);
        before = λ h. omega (arith, inv.before, same, longer);
      }
  Reach-Placed (later {s} r (wake_up w t lt left which)) = Reach-Placed r
  Reach-Placed (later {s} r (run ok i lt room)) =
      turn-Placed jobs tasks (nbworkers + nbworkers) k ok i s (s.pc i) _ lt refl
        (act-Turn jobs tasks ok i s (s.pc i)) (Reach-Placed r)

  -- No job is in two places: with any number of workers and any jobs, at every moment, a job occurs at
  -- most once in the ready list, in the hands of the threads on their way to
  -- `fly_sched_move_to_running`, and in the running list together. As long as it is in the ready list
  -- or on that way, or has not been added, no thread is in `fly_sched_exec_job` with it.
  pub one_place :
      {s : Pool}
      → Reach jobs tasks nbworkers roomy s
      → (times k s.ready_jobs
            + total (moves k) (nbworkers + nbworkers) s.pc
            + times k s.running_jobs
          ≤ 1)
        × (0 < times k s.ready_jobs + total (moves k) (nbworkers + nbworkers) s.pc
            → total (inside k) (nbworkers + nbworkers) s.pc ≡ 0)
        × (s.added k ≡ false → total (inside k) (nbworkers + nbworkers) s.pc ≡ 0)
  one_place {s} r =
      let inv = Reach-Placed r in
      (
        omega (arith, inv.once),
        λ h. omega (arith, inv.before),
        λ new. inv.before (omega (arith, ap unadded new)),
      )
