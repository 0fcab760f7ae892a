-- ===== src/Sched/Pool/TaskOnly.antt =====
-- What is called for the tasks of Sched.Pool: the function of the task, with its parameter.
use mathlib.Core.Path.{subst}
use libfly.Prelude.{
  ℕ, ◌+◌, ◌<◌, ◌≡◌, refl, sym, ap, ◌∙◌, Bool, true, Bool-cases, List, [], ◌∷◌, ◌++◌, ◌==◌, inl, inr,
  change, arith, total, length,
}
use libfly.Job.{Job, task}
use libfly.Sched.{Task, Call, task_call}
use libfly.Sched.Pool.{PoolPc, Pool, claim, add, wake_up, run, Reach, here, later}
use libfly.Sched.Workers.{Shared}
use libfly.Sched.Pool.Counts.{is_it, shift}
use libfly.Sched.Pool.Parts.{part-change, part-other, part-of}
use libfly.Sched.Pool.Turns.{
  Turn, act-Turn, nothing_ready, got_ready, moved, none_running, got_running, took, none_free,
  task_called, unknown, called, batch_ended, found_done, found_open, completed, removed, finished,
  posted, asleep, woken,
}
use libfly.Sched.Pool.Taken.{loops_on}
use libfly.Sched.Pool.Tasks.{Reach-no_loop}
use libfly.Sched.Pool.TaskCalls.{task_posted-called}

-- All of these calls are `c`.
abbrev pub Only : Call → List Call → Type 0
Only c [] = Unit
Only c (d ∷ ds) = (d ≡ c) × Only c ds

Only-snoc : (c d : Call) (ds : List Call) → Only c ds → d ≡ c → Only c (ds ++ d ∷ [])
Only-snoc c d [] only same = (same, tt)
Only-snoc c d (x ∷ ds) only same = (only.0, Only-snoc c d ds only.1 same)

abbrev calls_of : Shared → List Call
calls_of sh = sh.calls

claim-calls_of : (job : Job) (sh : Shared) → calls_of (claim job sh) ≡ calls_of sh
claim-calls_of job sh = elim (Bool-cases (job.jtype == task)) [
  | inl is ↦ rw is refl
  | inr other ↦ rw other refl
]

module _ (jobs : ℕ → Job) (tasks : ℕ → Task) (n k : ℕ) where
  -- The call of the function of the task of job `j`.
  abbrev pub its_call : ℕ → Call
  its_call j = let t = tasks (jobs j).arg in task_call t.func t.param

  abbrev OnlyInv : (ℕ → Shared) → Type 0
  OnlyInv shared = Only (its_call k) (shared k).calls

  -- Job `j` has changed, and not its calls.
  calm :
      (shared : ℕ → Shared) (j : ℕ) (sh : Shared)
      → sh.calls ≡ (shared j).calls
      → OnlyInv shared
      → OnlyInv (change shared j sh)
  calm shared j sh same inv =
      subst (Only (its_call k)) (sym (part-change calls_of shared j sh k same)) inv

  -- Another job has changed.
  other_job :
      (shared : ℕ → Shared) (j : ℕ) (sh : Shared)
      → is_it k j ≡ 0
      → OnlyInv shared
      → OnlyInv (change shared j sh)
  other_job shared j sh other inv = elim (part-other calls_of shared j sh k) [
    | inl same ↦ subst (Only (its_call k)) (sym same) inv
    | inr it ↦ absurd (omega (arith, other, it))
  ]

  its_task :
      (shared : ℕ → Shared) (j : ℕ) (c : Call)
      → c ≡ its_call j
      → OnlyInv shared
      → OnlyInv (change shared j (record (shared j) { calls = (shared j).calls ++ c ∷ [] }))
  its_task shared j c its inv =
      let sh = record (shared j) { calls = (shared j).calls ++ c ∷ [] } in
      elim (part-other calls_of shared j sh k) [
        | inl same ↦ subst (Only (its_call k)) (sym same) inv
        | inr it ↦
            let e : j ≡ k = ground arith in
            let before : Only (its_call k) (shared j).calls =
              subst (λ j. Only (its_call k) (shared j).calls) (sym e) inv in
            subst (Only (its_call k)) (sym (part-of calls_of shared j sh k it))
              (Only-snoc (its_call k) c (shared j).calls before (its ∙ ap its_call e))
      ]

  turn-OnlyInv :
      (ok : Bool) (i : ℕ) (s : Pool) (p : PoolPc) (t : Pool)
      → i < n
      → s.pc i ≡ p
      → total (loops_on k) n s.pc ≡ 0
      → Turn jobs tasks ok i s p t
      → OnlyInv s.shared
      → OnlyInv t.shared
  turn-OnlyInv ok i s p t lt e none_loops (nothing_ready none_left) inv = inv
  turn-OnlyInv ok i s p t lt e none_loops (moved j running pending cases all more few) inv = inv
  turn-OnlyInv ok i s p t lt e none_loops (none_running none_left) inv = inv
  turn-OnlyInv ok i s p t lt e none_loops (got_running j found some) inv = inv
  turn-OnlyInv ok i s p t lt e none_loops (found_done sl j done) inv = inv
  turn-OnlyInv ok i s p t lt e none_loops (completed sl j) inv = inv
  turn-OnlyInv ok i s p t lt e none_loops (removed sl j) inv = inv
  turn-OnlyInv ok i s p t lt e none_loops (finished sl j l) inv = inv
  turn-OnlyInv ok i s p t lt e none_loops (woken c post) inv = inv
  turn-OnlyInv ok i s p t lt e none_loops (asleep no_post) inv = inv
  turn-OnlyInv ok i s p t lt e none_loops (unknown sl j no_type) inv = inv
  turn-OnlyInv ok i s p t lt e none_loops (found_open sl j more) inv = inv
  turn-OnlyInv ok i s p t lt e none_loops (got_ready rest j first) inv =
      calm s.shared j (claim (jobs j) (s.shared j)) (claim-calls_of (jobs j) (s.shared j)) inv
  turn-OnlyInv ok i s p t lt e none_loops (took sl j b bs loops first) inv =
      calm s.shared j (record (s.shared j) { batches = bs }) refl inv
  turn-OnlyInv ok i s p t lt e none_loops (none_free sl j loops none_left) inv =
      calm s.shared j (s.shared j) refl inv
  turn-OnlyInv ok i s p t lt e none_loops (batch_ended sl j) inv =
      calm s.shared j (record (s.shared j) { batches_done = (s.shared j).batches_done + 1 }) refl
        inv
  turn-OnlyInv ok i s p t lt e none_loops (posted sl j) inv =
      calm s.shared j (record (s.shared j) { sem = (s.shared j).sem + 1 }) refl inv
  turn-OnlyInv ok i s p t lt e none_loops (task_called sl j c no_loop is its) inv =
      its_task s.shared j c its inv
  turn-OnlyInv ok i s p t lt e none_loops (called sl j c cs) inv =
      let out : is_it k j ≡ 0 =
        omega (arith, none_loops, shift (loops_on k) s.pc PoolPc.searching lt e) in
      other_job s.shared j (record (s.shared j) { calls = (s.shared j).calls ++ c ∷ [] }) out inv

module _ (jobs : ℕ → Job) (tasks : ℕ → Task) {nbworkers : ℕ} {roomy : Bool} (k : ℕ)
    (is_task : ((jobs k).jtype == task) ≡ true) where
  Reach-OnlyInv :
      {s : Pool}
      → Reach jobs tasks nbworkers roomy s
      → OnlyInv jobs tasks (nbworkers + nbworkers) k s.shared
  Reach-OnlyInv here = tt
  Reach-OnlyInv (later {s} r (add j some_job known new)) = Reach-OnlyInv r
  Reach-OnlyInv (later {s} r (wake_up w t lt left which)) = Reach-OnlyInv r
  Reach-OnlyInv (later {s} r (run ok i lt room)) =
      turn-OnlyInv jobs tasks (nbworkers + nbworkers) k ok i s (s.pc i) _ lt refl
        (Reach-no_loop jobs tasks k is_task r) (act-Turn jobs tasks ok i s (s.pc i))
        (Reach-OnlyInv r)

  -- A task that is posted was run, and nothing else was run for it: with any number of workers and any
  -- jobs, at every moment at which the semaphore that `fly_wait_task` waits on has been posted, at
  -- least one call was made for the task, and every call that was made for it is one of the task's own
  -- function with the task's own parameter.
  pub task_posted-its_calls :
      {s : Pool}
      → Reach jobs tasks nbworkers roomy s
      → 0 < (s.shared k).sem
      → (0 < length (s.shared k).calls)
        × Only (task_call (tasks (jobs k).arg).func (tasks (jobs k).arg).param) (s.shared k).calls
  task_posted-its_calls r has_post =
      (task_posted-called jobs tasks k is_task r has_post, Reach-OnlyInv r)
