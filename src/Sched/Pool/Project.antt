-- ===== src/Sched/Pool/Project.antt =====
-- What the threads of Sched.Pool do with one job: every job of a pool is run as in Sched.Workers.
use mathlib.Core.Path.{subst}
use libfly.Prelude.{
  ℕ, zero, suc, ◌+◌, ◌<◌, ◌≡◌, refl, sym, ap, ◌∙◌, Bool, true, false, List, [], ◌∷◌, ◌++◌, ◌==◌,
  if◌then◌else◌, Bool-cases, inl, inr, change, change_same, change_at, arith,
}
use libfly.Memory.{null}
use libfly.FlyList.View.{erase, pop_back}
use libfly.Job.{Job, task, get_exec_batch}
use libfly.Sched.{Task, is_for}
use libfly.Sched.Workers
use libfly.Sched.Workers.{Shared, Pc, outside, calling, checking, completing, turn}
use libfly.Sched.Pool.Seen.{
  seen, seen_all, project, seen-leave, seen-executing, seen-completing, seen-change, change-other,
  is_for-task,
}
use libfly.Sched.Pool.{
  PoolPc, searching, moving, looking, executing, removing, finishing, posting, waiting, Pool, goto,
  leave, claim, is_none, search, move, look, enter, call, check, post, wake, act, add, run, wake_up,
  Reach, here, later,
}

module _ (jobs : ℕ → Job) (tasks : ℕ → Task) (n j : ℕ) (loops : is_for (jobs j) ≡ true) where
  abbrev Follows : Pool → Type 0
  Follows s = Workers.Reach n (jobs j) (project j s)

  pub claim-shared :
      (s : Pool) (k : ℕ) → change s.shared k (claim (jobs k) (s.shared k)) j ≡ s.shared j
  claim-shared s k = elim (Bool-cases (k == j)) [
    | inl same ↦
        let e : k ≡ j = ground arith in
        subst (λ k. change s.shared k (claim (jobs k) (s.shared k)) j ≡ s.shared j) (sym e)
          (change_at s.shared j _ ∙ rw (is_for-task (jobs j) loops) refl)
    | inr other ↦ change-other s.shared k _ j other
  ]

  module _ (s : Pool) (i : ℕ) (lt : i < n) (r : Follows s) where
    -- A step that does nothing in the job `j`.
    stays :
        (t : Pool) (p : PoolPc)
        → seen j p ≡ seen j (s.pc i)
        → t.shared j ≡ s.shared j
        → t.pc ≡ s.pc
        → Follows (goto t i p)
    stays t p same sh pcs =
        let pc_same : seen_all j (change t.pc i p) ≡ seen_all j s.pc =
          ap (λ (f : ℕ → PoolPc). seen_all j (change f i p)) pcs
          ∙ seen-change j s.pc i p
          ∙ change_same (seen_all j s.pc) i (seen j p) same in
        rw (sh, pc_same) r

    -- A step in the job `j`.
    goes :
        (sh : ℕ → Shared) (p : PoolPc) (q : Pc)
        → seen j (s.pc i) ≡ q
        → sh j ≡ (turn (jobs j) (s.shared j) q).0
        → seen j p ≡ (turn (jobs j) (s.shared j) q).1
        → Follows (goto (record s { shared = sh }) i p)
    goes sh p q e to_shared to_pc =
        rw (seen-change j s.pc i p, to_shared, to_pc)
          (Workers.later r (Workers.run i lt (ap (turn (jobs j) (s.shared j)) e)))

    stays_at :
        (k : ℕ) (sh : Shared) (p : PoolPc)
        → (k == j) ≡ false
        → seen j p ≡ seen j (s.pc i)
        → Follows (goto (record s { shared = change s.shared k sh }) i p)
    stays_at k sh p other e =
        stays (record s { shared = change s.shared k sh }) p e (change-other s.shared k sh j other)
          refl

    goes_at :
        (p : PoolPc) (q : Pc)
        → seen j (s.pc i) ≡ q
        → seen j p ≡ (turn (jobs j) (s.shared j) q).1
        → Follows
            (goto (record s { shared = change s.shared j (turn (jobs j) (s.shared j) q).0 }) i p)
    goes_at p q e to_pc =
        let sh = (turn (jobs j) (s.shared j) q).0 in
        goes (change s.shared j sh) p q e (change_at s.shared j sh) to_pc

    at_search : (xs : List ℕ) → seen j (s.pc i) ≡ outside → Follows (search jobs tasks i xs s)
    unfolding search
    at_search [] e = stays s looking (sym e) refl refl
    at_search (x ∷ xs) e =
        let (k, rest) = pop_back (x ∷ xs) in
        stays
          (record s { ready_jobs = rest; shared = change s.shared k (claim (jobs k) (s.shared k)) })
          (moving k) (sym e) (claim-shared s k) refl

    move-keeps :
        (ok : Bool) (k : ℕ)
        → ((move jobs tasks ok i k s).shared ≡ s.shared) × ((move jobs tasks ok i k s).pc ≡ s.pc)
    unfolding move
    move-keeps ok k = elim (Bool-cases (is_for (jobs k))) [
      | inl is ↦ rw is (refl, refl)
      | inr not ↦ elim (Bool-cases ((jobs k).jtype == task)) [
        | inl is ↦ rw (not, is) (refl, refl)
        | inr other ↦ rw (not, other) (refl, refl)
      ]
    ]

    at_wake : (count : ℕ) → seen j (s.pc i) ≡ outside → Follows (wake jobs tasks i count s)
    unfolding wake
    at_wake zero e = r
    at_wake (suc c) e = stays (record s { sem = change s.sem i c }) searching (sym e) refl refl

    -- In `fly_sched_exec_job` with another job.
    elsewhere :
        (ok sleepy : Bool) (k : ℕ) (p : Pc)
        → (k == j) ≡ false
        → outside ≡ seen j (s.pc i)
        → Follows (act jobs tasks ok i (executing sleepy k p) s)
    unfolding act enter call check
    elsewhere ok sleepy k outside other e = elim (Bool-cases (is_for (jobs k))) [
      | inl is ↦ rw is (stays_at k _ _ other (rw other e))
      | inr not ↦ elim (Bool-cases ((jobs k).jtype == task)) [
        | inl is ↦ rw (not, is) (stays_at k _ _ other (rw other e))
        | inr neither ↦ rw (not, neither) (stays s _ (rw other e) refl refl)
      ]
    ]
    elsewhere ok sleepy k (calling cs) other e = stays_at k _ _ other (rw other e)
    elsewhere ok sleepy k checking other e =
        elim (Bool-cases ((s.shared k).batches_done == (jobs k).nbbatches)) [
          | inl done ↦ rw done (stays s _ (rw other e) refl refl)
          | inr more ↦ rw more (stays s _ (seen-leave j sleepy ∙ e) refl refl)
        ]
    elsewhere ok sleepy k completing other e = stays s _ (rw other e) refl refl

    -- In `fly_sched_exec_job` with the job.
    within :
        (ok sleepy : Bool) (p : Pc)
        → seen j (s.pc i) ≡ p
        → Follows (act jobs tasks ok i (executing sleepy j p) s)
    unfolding act enter call check turn
    within ok sleepy outside e =
        let sl = is_none (get_exec_batch (s.shared j).batches) in
        rw loops (goes_at _ outside e (seen-executing j sl _))
    within ok sleepy (calling cs) e = goes_at _ (calling cs) e (seen-executing j sleepy _)
    within ok sleepy checking e =
        elim (Bool-cases ((s.shared j).batches_done == (jobs j).nbbatches)) [
          | inl done ↦
              rw done (goes s.shared _ checking e refl (rw done (seen-completing j sleepy).0))
          | inr more ↦ rw more (goes s.shared _ checking e refl (rw more (seen-leave j sleepy)))
        ]
    within ok sleepy completing e = stays s _ ((seen-completing j sleepy).0 ∙ sym e) refl refl

    -- What `act` does from a place in the job `k`: its step in the job `j` if that is `k`.
    by_job :
        (ok : Bool) (k : ℕ) (p : ℕ → PoolPc) (q : Pc)
        → ((k : ℕ) → (k == j) ≡ false → seen j (p k) ≡ outside)
        → seen j (p j) ≡ q
        → ((k : ℕ)
            → (k == j) ≡ false
            → outside ≡ seen j (s.pc i)
            → Follows (act jobs tasks ok i (p k) s))
        → (seen j (s.pc i) ≡ q → Follows (act jobs tasks ok i (p j) s))
        → s.pc i ≡ p k
        → Follows (act jobs tasks ok i (p k) s)
    by_job ok k p q off on other this e = elim (Bool-cases (k == j)) [
      | inl same ↦
          let eq : k ≡ j = ground arith in
          subst (λ k. s.pc i ≡ p k → Follows (act jobs tasks ok i (p k) s)) (sym eq)
            (λ e. this (ap (seen j) e ∙ on)) e
      | inr not ↦ other k not (sym (ap (seen j) e ∙ off k not))
    ]

    act-Follows : (ok : Bool) (p : PoolPc) → s.pc i ≡ p → Follows (act jobs tasks ok i p s)
    unfolding act post turn
    act-Follows ok searching e = at_search s.ready_jobs (ap (seen j) e)
    act-Follows ok (moving k) e =
        let keeps = move-keeps ok k in
        stays (move jobs tasks ok i k s) (executing false k outside) (ground arith)
          (ap (λ f. f j) keeps.0) keeps.1
    act-Follows ok looking e =
        let off : seen j (executing false (look jobs tasks s) outside) ≡ outside = ground arith in
        elim (Bool-cases (look jobs tasks s == null)) [
          | inl is ↦ rw is (stays s waiting (sym (ap (seen j) e)) refl refl)
          | inr not ↦ rw not (stays s _ (off ∙ sym (ap (seen j) e)) refl refl)
        ]
    act-Follows ok (executing sleepy k p) e =
        by_job ok k (λ k. executing sleepy k p) p (λ k other. rw other refl)
          (seen-executing j sleepy p) (λ k. elsewhere ok sleepy k p) (within ok sleepy p) e
    act-Follows ok (removing sleepy k) e =
        stays (record s { running_jobs = erase k s.running_jobs }) _ (sym (ap (seen j) e)) refl refl
    act-Follows ok (finishing sleepy k) e =
        stays (record s { done_jobs = if ok then s.done_jobs ++ k ∷ [] else s.done_jobs }) _
          (sym (ap (seen j) e)) refl refl
    act-Follows ok (posting sleepy k) e =
        by_job ok k (λ k. posting sleepy k) completing (λ k other. rw other refl)
          (seen-completing j sleepy).2
          (λ k other off. stays_at k _ _ other (seen-leave j sleepy ∙ off))
          (λ at. goes_at (leave sleepy) completing at (seen-leave j sleepy)) e
    act-Follows ok waiting e = at_wake (s.sem i) (ap (seen j) e)

module _ (jobs : ℕ → Job) (tasks : ℕ → Task) {nbworkers : ℕ} {roomy : Bool} where
  -- Any number of workers, whose threads run any number of jobs at the same time while clients add
  -- more: whatever they do, each job that is a parallel for is run as Sched.Workers says, by the same
  -- threads.
  pub pool-Workers :
      {s : Pool} (j : ℕ)
      → is_for (jobs j) ≡ true
      → Reach jobs tasks nbworkers roomy s
      → Workers.Reach (nbworkers + nbworkers) (jobs j) (project j s)
  pool-Workers j loops here = Workers.here
  pool-Workers j loops (later r (add k some_job known new)) = pool-Workers j loops r
  pool-Workers j loops (later r (wake_up w t lt left e)) = pool-Workers j loops r
  pool-Workers j loops (later {s} r (run ok i lt room)) =
      act-Follows jobs tasks (nbworkers + nbworkers) j loops s i lt (pool-Workers j loops r) ok
        (s.pc i) refl
