-- ===== src/Sched/Pool/Seen.antt =====
-- What a pool of threads (Sched.Pool) looks like to one of its jobs.
use mathlib.Core.Path.{fun_ext}
use libfly.Prelude.{
  ℕ, ◌≡◌, refl, Bool, true, false, ◌==◌, if◌then◌else◌, Bool-cases, inl, inr, change, arith,
}
use libfly.Job.{Job, task}
use libfly.Sched.{is_for}
use libfly.Sched.Workers
use libfly.Sched.Workers.{Pc, outside, completing}
use libfly.Sched.Pool.{PoolPc, executing, removing, finishing, posting, Pool, leave}

-- Where a thread stands in the job `j`.
abbrev pub seen : (j : ℕ) → PoolPc → Pc
seen j (executing sleepy k p) = if k == j then p else outside
seen j (removing sleepy k) = if k == j then completing else outside
seen j (finishing sleepy k) = if k == j then completing else outside
seen j (posting sleepy k) = if k == j then completing else outside
seen j _ = outside

abbrev pub seen_all : (j : ℕ) → (ℕ → PoolPc) → ℕ → Pc
seen_all j pc i = seen j (pc i)

abbrev pub project : (j : ℕ) → Pool → Workers.System
project j s = record { shared = s.shared j; pc = seen_all j s.pc }

pub seen-leave : (j : ℕ) (sleepy : Bool) → seen j (leave sleepy) ≡ outside
seen-leave j true = refl
seen-leave j false = refl

pub same_job : (j : ℕ) → (j == j) ≡ true
same_job j = ground arith

pub seen-executing : (j : ℕ) (sleepy : Bool) (p : Pc) → seen j (executing sleepy j p) ≡ p
seen-executing j sleepy p = rw (same_job j) refl

pub seen-completing :
    (j : ℕ) (sleepy : Bool)
    → (seen j (removing sleepy j) ≡ completing)
      × (seen j (finishing sleepy j) ≡ completing)
      × (seen j (posting sleepy j) ≡ completing)
seen-completing j sleepy = rw (same_job j) (refl, refl, refl)

pub seen-change :
    (j : ℕ) (pc : ℕ → PoolPc) (i : ℕ) (p : PoolPc)
    → seen_all j (change pc i p) ≡ change (seen_all j pc) i (seen j p)
unfolding change
seen-change j pc i p =
    fun_ext
      (λ k. elim (Bool-cases (i == k)) [ inl same ↦ rw same refl | inr other ↦ rw other refl ])

pub change-other {ℓ} :
    {A : Type ℓ} (f : ℕ → A) (k : ℕ) (a : A) (j : ℕ) → (k == j) ≡ false → change f k a j ≡ f j
unfolding change
change-other f k a j other = rw other refl

pub is_for-task : (job : Job) → is_for job ≡ true → (job.jtype == task) ≡ false
is_for-task job e = ground arith
