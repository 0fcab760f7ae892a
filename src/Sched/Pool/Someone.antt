-- ===== src/Sched/Pool/Someone.antt =====
-- How it passes from thread to thread of Sched.Pool that some thread will look for work again.
use libfly.Prelude.{
  ℕ, ◌<◌, ◌≡◌, refl, sym, ap, ◌∙◌, Bool, true, false, not, ◌==◌, if◌then◌else◌, Bool-cases, inl,
  inr, change, change_at, arith, total, le-total, length,
}
use libfly.Job.{Job}
use libfly.Job.Indices.{Fresh}
use libfly.Sched.{is_for}
use libfly.Sched.Pool.{PoolPc, executing, Pool, is_known}
use libfly.Sched.Workers.{Shared, outside}
use libfly.Sched.Pool.Seen.{change-other}
use libfly.Sched.Pool.Counts.{times}
use libfly.Sched.Pool.Alert.{dozing, is_done, alert, alert-same}

-- A parallel for as `fly_make_batches` leaves it: with at least one batch, and all of them free.
abbrev pub IsCut : Job → Type 0
IsCut job = Fresh job.batches × (length job.batches ≡ job.nbbatches) × (0 < job.nbbatches)

abbrev pub Someone : (ℕ → Job) → (n : ℕ) → (ℕ → Shared) → (ℕ → PoolPc) → Type 0
Someone jobs n shared pc = (i : ℕ) × (i < n) × (alert jobs shared (pc i) ≡ true)

abbrev pub Awake : (ℕ → Job) → (n : ℕ) → Pool → Type 0
Awake jobs n s =
    (j : ℕ)
    → is_for (jobs j) ≡ true
    → 0 < times j s.running_jobs
    → is_done jobs s.shared j ≡ false
    → Someone jobs n s.shared s.pc

pub true-ne-false : true ≡ false → ⊥
true-ne-false e = cc

module _ (jobs : ℕ → Job) (n : ℕ) (s : Pool) (i : ℕ) (lt : i < n) {p : PoolPc}
    (e : s.pc i ≡ p) where
  -- After its step thread `i` is alert itself.
  pub itself :
      (shared : ℕ → Shared) (q : PoolPc)
      → alert jobs shared q ≡ true
      → Someone jobs n shared (change s.pc i q)
  itself shared q awake = (i, lt, ap (alert jobs shared) (change_at s.pc i q) ∙ awake)

  -- Another one is.
  pub another :
      (shared : ℕ → Shared) (q : PoolPc) (k : ℕ)
      → ((j : ℕ) → (shared j).batches_done ≡ (s.shared j).batches_done)
      → (i == k) ≡ false
      → k < n
      → alert jobs s.shared (s.pc k) ≡ true
      → Someone jobs n shared (change s.pc i q)
  another shared q k same other k_lt awake = (
    k,
    k_lt,
    ap (alert jobs shared) (change-other s.pc i q k other)
        ∙ alert-same jobs s.shared shared same (s.pc k)
        ∙ awake,
  )

  pub still :
      (shared : ℕ → Shared) (q : PoolPc)
      → ((j : ℕ) → (shared j).batches_done ≡ (s.shared j).batches_done)
      → alert jobs s.shared p ≡ false
      → Someone jobs n s.shared s.pc
      → Someone jobs n shared (change s.pc i q)
  still shared q same drowsy (k, k_lt, awake) = elim (Bool-cases (i == k)) [
    | inl it ↦
        let eq : i ≡ k = ground arith in
        absurd (
          true-ne-false (
            sym awake
            ∙ ap (λ k. alert jobs s.shared (s.pc k)) (sym eq)
            ∙ ap (alert jobs s.shared) e
            ∙ drowsy))
    | inr other ↦ another shared q k same other k_lt awake
  ]

  -- The thread does not change its mind about whether it will sleep.
  pub alike :
      (sleepy : Bool) (shared : ℕ → Shared) (q : PoolPc)
      → ((j : ℕ) → (shared j).batches_done ≡ (s.shared j).batches_done)
      → alert jobs s.shared p ≡ not sleepy
      → alert jobs shared q ≡ not sleepy
      → Someone jobs n s.shared s.pc
      → Someone jobs n shared (change s.pc i q)
  alike true shared q same before after someone = still shared q same before someone
  alike false shared q same before after someone = itself shared q after

  -- A thread at its calls will not sleep.
  pub caller :
      (sleepy : Bool) (j : ℕ)
      → total dozing n s.pc ≡ 0
      → dozing (s.pc i) ≡ (if sleepy then 1 else 0)
      → not sleepy ≡ true
  caller true j none_dozes at = absurd (omega (arith, le-total dozing n s.pc i lt))
  caller false j none_dozes at = refl

-- A thread that is about to run a job of a known type that is not done.
pub alert-enter :
    (jobs : ℕ → Job) (shared : ℕ → Shared) (j : ℕ)
    → is_known (jobs j) ≡ true
    → (is_for (jobs j) ≡ true → is_done jobs shared j ≡ false)
    → alert jobs shared (executing false j outside) ≡ true
alert-enter jobs shared j known not_done = elim (Bool-cases (is_for (jobs j))) [
  | inl loops ↦ rw (loops, not_done loops) refl
  | inr no_loop ↦ rw no_loop (rw no_loop at known)
]

-- One that has no work for its thread.
pub alert-unknown :
    (jobs : ℕ → Job) (shared : ℕ → Shared) (sleepy : Bool) (j : ℕ)
    → is_known (jobs j) ≡ false
    → alert jobs shared (executing sleepy j outside) ≡ false
alert-unknown jobs shared true j no_type = refl
alert-unknown jobs shared false j no_type = elim (Bool-cases (is_for (jobs j))) [
  | inl loops ↦ absurd (true-ne-false (rw loops at no_type))
  | inr no_loop ↦ rw no_loop (rw no_loop at no_type)
]

pub alert-done :
    (jobs : ℕ → Job) (shared : ℕ → Shared) (sleepy : Bool) (j : ℕ)
    → is_for (jobs j) ≡ true
    → is_done jobs shared j ≡ true
    → alert jobs shared (executing sleepy j outside) ≡ false
alert-done jobs shared true j loops done = refl
alert-done jobs shared false j loops done = rw (loops, done) refl
