-- ===== src/Sched/Pool/Alert.antt =====
-- The threads of Sched.Pool that will look for work again, and the facts about jobs in the running list.
use libfly.Prelude.{ℕ, ◌<◌, ◌≡◌, refl, Bool, true, false, not, ◌&&◌, ◌==◌, if◌then◌else◌, arith}
use libfly.Job.{Job, task}
use libfly.Sched.{is_for}
use libfly.Sched.Pool.{
  PoolPc, searching, moving, looking, executing, removing, finishing, posting, waiting, leave,
}
use libfly.Sched.Workers.{Shared, outside, calling, checking, completing}
use libfly.Sched.Workers.Invariant.{busy}
use libfly.Sched.Pool.Seen.{seen}

-- A thread that is at its calls although it is to sleep.
abbrev pub dozing : PoolPc → ℕ
dozing (executing sleepy j (calling cs)) = if sleepy then 1 else 0
dozing _ = 0

module _ (jobs : ℕ → Job) where
  abbrev pub is_done : (ℕ → Shared) → ℕ → Bool
  is_done shared j = (shared j).batches_done == (jobs j).nbbatches

  -- A thread that will make a step other than to wait, and look at the lists again after it, unless
  -- the job that it is about to run has no work for it.
  abbrev pub alert : (ℕ → Shared) → PoolPc → Bool
  alert shared searching = true
  alert shared (moving j) = true
  alert shared looking = true
  alert shared (executing sleepy j outside) =
      not sleepy && (if is_for (jobs j) then not (is_done shared j) else (jobs j).jtype == task)
  alert shared (executing sleepy j (calling cs)) = not sleepy
  alert shared (executing sleepy j checking) = not sleepy
  alert shared (executing sleepy j completing) = not sleepy
  alert shared (removing sleepy j) = not sleepy
  alert shared (finishing sleepy j) = not sleepy
  alert shared (posting sleepy j) = not sleepy
  alert shared waiting = false

  pub alert-leave : (shared : ℕ → Shared) (sleepy : Bool) → alert shared (leave sleepy) ≡ not sleepy
  alert-leave shared true = refl
  alert-leave shared false = refl

  -- Only `batches_done` of the jobs matters for it.
  pub alert-same :
      (shared shared' : ℕ → Shared)
      → ((j : ℕ) → (shared' j).batches_done ≡ (shared j).batches_done)
      → (p : PoolPc) → alert shared' p ≡ alert shared p
  alert-same shared shared' same searching = refl
  alert-same shared shared' same (moving j) = refl
  alert-same shared shared' same looking = refl
  alert-same shared shared' same (executing sleepy j outside) = rw (same j) refl
  alert-same shared shared' same (executing sleepy j (calling cs)) = refl
  alert-same shared shared' same (executing sleepy j checking) = refl
  alert-same shared shared' same (executing sleepy j completing) = refl
  alert-same shared shared' same (removing sleepy j) = refl
  alert-same shared shared' same (finishing sleepy j) = refl
  alert-same shared shared' same (posting sleepy j) = refl
  alert-same shared shared' same waiting = refl

  pub busy-alert :
      (shared : ℕ → Shared) (k : ℕ) (p : PoolPc)
      → 0 < busy (seen k p)
      → dozing p ≡ 0
      → alert shared p ≡ true
  busy-alert shared k (executing false j (calling cs)) h awake = refl
  busy-alert shared k (executing true j (calling cs)) h awake = absurd (omega arith)
  busy-alert shared k searching h awake = refl
  busy-alert shared k (moving j) h awake = refl
  busy-alert shared k looking h awake = refl
  busy-alert shared k (executing sl j outside) h awake = absurd (ground arith)
  busy-alert shared k (executing sl j checking) h awake = absurd (ground arith)
  busy-alert shared k (executing sl j completing) h awake = absurd (ground arith)
  busy-alert shared k (removing sl j) h awake = absurd (ground arith)
  busy-alert shared k (finishing sl j) h awake = absurd (ground arith)
  busy-alert shared k (posting sl j) h awake = absurd (ground arith)
  busy-alert shared k waiting h awake = absurd (omega arith)
