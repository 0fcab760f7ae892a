-- ===== src/Sched/Pool/Ready.antt =====
-- The wake-ups of Sched.Pool: a job in the ready list is matched, for every worker, by a post, by a
-- thread of the worker that is on its way to the list, or by a call that a client has still to make.
use libfly.Prelude.{
  ℕ, suc, ◌+◌, ◌-◌, ◌≤◌, ◌<◌, ◌≡◌, refl, ap, Bool, false, List, [], ◌∷◌, inl, inr, ◌⊎◌, change,
  arith, length, length-append,
}
use libfly.Job.{Job}
use libfly.Sched.{Task}
use libfly.Sched.Workers.{outside}
use libfly.Sched.Pool.{
  PoolPc, searching, moving, looking, executing, removing, finishing, posting, waiting, Pool, goto,
  add, wake_up, run, Reach, here, later,
}
use libfly.Sched.Pool.Counts.{length-pop_back}
use libfly.Sched.Pool.Turns.{
  Turn, act-Turn, nothing_ready, got_ready, moved, none_running, got_running, took, none_free,
  task_called, unknown, called, batch_ended, found_done, found_open, completed, removed, finished,
  posted, asleep, woken,
}

-- A thread that is about to take from the ready list.
abbrev pops : PoolPc → ℕ
pops searching = 1
pops _ = 0

-- What worker `w` can still take from the ready list.
abbrev credit : Pool → ℕ → ℕ
credit s w =
    s.sem (w + w) + s.sem (w + w + 1) + pops (s.pc (w + w)) + pops (s.pc (w + w + 1)) + s.pending w

abbrev Matched : Pool → ℕ → Type 0
Matched s w = length s.ready_jobs ≤ credit s w

-- Thread `i` moves on, to a place where it takes as much from the list.
pops-change :
    (pc : ℕ → PoolPc) (i : ℕ) (q : PoolPc) (k : ℕ)
    → pops (pc i) ≤ pops q
    → pops (pc k) ≤ pops (change pc i q k)
unfolding change
pops-change pc i q k le = ground arith

pops-le : (p : PoolPc) → pops p ≤ 1
pops-le searching = omega arith
pops-le (moving j) = omega arith
pops-le looking = omega arith
pops-le (executing sl j p) = omega arith
pops-le (removing sl j) = omega arith
pops-le (finishing sl j) = omega arith
pops-le (posting sl j) = omega arith
pops-le waiting = omega arith

pops-taken :
    (pc : ℕ → PoolPc) (i : ℕ) (q : PoolPc) (w : ℕ)
    → pops (pc (w + w)) + pops (pc (w + w + 1))
      ≤ suc (pops (change pc i q (w + w)) + pops (change pc i q (w + w + 1)))
unfolding change
pops-taken pc i q w = ground (arith, pops-le (pc (w + w)), pops-le (pc (w + w + 1)))

-- A thread that wakes up turns a post into a look at the list.
pops-woken :
    (sem : ℕ → ℕ) (pc : ℕ → PoolPc) (i c : ℕ) (k : ℕ)
    → sem i ≡ suc c
    → pops (pc i) ≡ 0
    → sem k + pops (pc k) ≤ change sem i c k + pops (change pc i searching k)
unfolding change
pops-woken sem pc i c k post none = ground arith

-- A call of `fly_worker_work_available` becomes a post of one of the threads.
wakes :
    (sem pending : ℕ → ℕ) (v t w : ℕ)
    → 0 < pending v
    → (t ≡ v + v) ⊎ (t ≡ v + v + 1)
    → sem (w + w) + sem (w + w + 1) + pending w
      ≤ change sem t (sem t + 1) (w + w)
        + change sem t (sem t + 1) (w + w + 1)
        + change pending v (pending v - 1) w
unfolding change
wakes sem pending v t w left (inl first) = ground arith
wakes sem pending v t w left (inr second) = ground arith

module _ (jobs : ℕ → Job) (tasks : ℕ → Task) (w : ℕ) where
  moves :
      (s : Pool) (i : ℕ) (q : PoolPc)
      → pops (s.pc i) ≤ pops q
      → Matched s w
      → Matched (goto s i q) w
  moves s i q le m =
      omega (arith, pops-change s.pc i q (w + w) le, pops-change s.pc i q (w + w + 1) le)

  calm :
      (s : Pool) (i : ℕ) {p : PoolPc} (q : PoolPc)
      → s.pc i ≡ p
      → pops p ≡ 0
      → Matched s w
      → Matched (goto s i q) w
  calm s i q e none m = moves s i q (omega (arith, ap pops e, none)) m

  turn-Matched :
      (ok : Bool) (i : ℕ) (s : Pool) (p : PoolPc) (t : Pool)
      → s.pc i ≡ p
      → Turn jobs tasks ok i s p t
      → Matched s w
      → Matched t w
  turn-Matched ok i s p t e (nothing_ready none_left) m = omega (arith, ap length none_left)
  turn-Matched ok i s p t e (got_ready rest j (x, xs, ready, popped)) m = omega (
    arith,
    ap length ready,
    length-pop_back x xs,
    ap (λ (out : ℕ × List ℕ). length out.1) popped,
    pops-taken s.pc i (moving j) w,
  )
  turn-Matched ok i s p t e (moved j running pending some all more few) m =
      omega (arith, more w, calm s i (executing false j outside) e refl m)
  turn-Matched ok i s p t e (woken c post) m = omega (
    arith,
    pops-woken s.sem s.pc i c (w + w) post (ap pops e),
    pops-woken s.sem s.pc i c (w + w + 1) post (ap pops e),
  )
  turn-Matched ok i s p t e (asleep no_post) m = m
  turn-Matched ok i s p t e (none_running none_left) m = calm s i _ e refl m
  turn-Matched ok i s p t e (got_running j found some) m = calm s i _ e refl m
  turn-Matched ok i s p t e (took sl j b bs loops first) m = calm s i _ e refl m
  turn-Matched ok i s p t e (none_free sl j loops none_left) m = calm s i _ e refl m
  turn-Matched ok i s p t e (task_called sl j c no_loop is its) m = calm s i _ e refl m
  turn-Matched ok i s p t e (unknown sl j not) m = calm s i _ e refl m
  turn-Matched ok i s p t e (called sl j c cs) m = calm s i _ e refl m
  turn-Matched ok i s p t e (batch_ended sl j) m = calm s i _ e refl m
  turn-Matched ok i s p t e (found_done sl j done) m = calm s i _ e refl m
  turn-Matched ok i s p t e (found_open sl j more) m = calm s i _ e refl m
  turn-Matched ok i s p t e (completed sl j) m = calm s i _ e refl m
  turn-Matched ok i s p t e (removed sl j) m = calm s i _ e refl m
  turn-Matched ok i s p t e (finished sl j l) m = calm s i _ e refl m
  turn-Matched ok i s p t e (posted sl j) m = calm s i _ e refl m

  Reach-Matched :
      {nbworkers : ℕ} {roomy : Bool} {s : Pool}
      → w < nbworkers
      → Reach jobs tasks nbworkers roomy s
      → Matched s w
  Reach-Matched lt here = omega arith
  Reach-Matched lt (later {s} r (add k some_job known new)) =
      omega (arith, Reach-Matched lt r, length-append s.ready_jobs (k ∷ []))
  Reach-Matched lt (later {s} r (wake_up v t v_lt left which)) =
      omega (arith, Reach-Matched lt r, wakes s.sem s.pending v t w left which)
  Reach-Matched lt (later {s} r (run ok i i_lt room)) =
      turn-Matched ok i s (s.pc i) _ refl (act-Turn jobs tasks ok i s (s.pc i)) (Reach-Matched lt r)

-- Thread `i` sleeps.
abbrev pub IsAsleep : Pool → ℕ → Type 0
IsAsleep s i = (s.pc i ≡ waiting) × (s.sem i ≡ 0)

-- No wake-up is lost: with any number of workers and any jobs, at every moment, as soon as some worker
-- has both its threads asleep with no post on their semaphores, and no call of
-- `fly_worker_work_available` for it is outstanding, the ready list is empty.
pub asleep-none_ready :
    (jobs : ℕ → Job) (tasks : ℕ → Task) {nbworkers : ℕ} {roomy : Bool} {s : Pool} (w : ℕ)
    → w < nbworkers
    → Reach jobs tasks nbworkers roomy s
    → IsAsleep s (w + w)
    → IsAsleep s (w + w + 1)
    → s.pending w ≡ 0
    → s.ready_jobs ≡ []
asleep-none_ready jobs tasks {s = s} w lt r (first, first_sem) (second, second_sem) none_left =
    length-none s.ready_jobs
      (omega (arith, Reach-Matched jobs tasks w lt r, ap pops first, ap pops second))
  where
    length-none : (xs : List ℕ) → length xs ≡ 0 → xs ≡ []
    length-none [] e = refl
    length-none (x ∷ xs) e = absurd (omega arith)
