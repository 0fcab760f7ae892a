-- ===== src/Sched/Pool/Effort.antt =====
-- How much the threads of Sched.Pool have still to do: a number that no new job makes larger.
use mathlib.Core.Path.{subst}
use mathlib.Core.Option
use libfly.Prelude.{
  ℕ, zero, suc, ◌+◌, ◌*◌, ◌≤◌, ◌<◌, ◌≡◌, ap, Bool, true, false, Option, none, some, List, [], ◌∷◌,
  ◌==◌, if◌then◌else◌, Bool-cases, inl, inr, arith, length, weigh, total,
}
use libfly.FlyList.View.{erase}
use libfly.Job.{Job, Batch, task, get_exec_batch}
use libfly.Sched.{is_for}
use libfly.Prelude.Int.{ℤ}
use libfly.Sched.Run.{ptr_calls, arr_calls}
use libfly.Sched.Drain.{job_calls}
use libfly.Sched.Workers.{Shared, outside, calling, checking, completing}
use libfly.Sched.Pool.{
  PoolPc, searching, moving, looking, executing, removing, finishing, posting, waiting, Pool,
}
use libfly.Sched.Pool.Counts.{times}

pub weigh-le : (v w : ℕ → ℕ) → ((k : ℕ) → v k ≤ w k) → (xs : List ℕ) → weigh v xs ≤ weigh w xs
unfolding weigh
weigh-le v w le [] = omega arith
weigh-le v w le (x ∷ xs) = omega (arith, le x, weigh-le v w le xs)

-- One member of the list weighs `d` less.
pub weigh-drop :
    (v w : ℕ → ℕ) (j d : ℕ)
    → ((k : ℕ) → v k ≤ w k)
    → v j + d ≤ w j
    → (xs : List ℕ) → 0 < times j xs
    → weigh v xs + d ≤ weigh w xs
unfolding weigh
weigh-drop v w j d le drop [] h = absurd (omega arith)
weigh-drop v w j d le drop (x ∷ xs) h = elim (Bool-cases (x == j)) [
  | inl same ↦
      let e : x ≡ j = ground arith in omega (arith, ap v e, ap w e, drop, weigh-le v w le xs)
  | inr other ↦
      let later : 0 < times j xs = ground arith in
      omega (arith, le x, weigh-drop v w j d le drop xs later)
]

pub weigh-erase : (w : ℕ → ℕ) (k : ℕ) (xs : List ℕ) → weigh w (erase k xs) ≤ weigh w xs
unfolding weigh erase
weigh-erase w k [] = omega arith
weigh-erase w k (x ∷ xs) = elim (Bool-cases (x == k)) [
  | inl same ↦ rw same (omega arith)
  | inr other ↦ rw other (omega (arith, weigh-erase w k xs))
]

pub erase-drop :
    (w : ℕ → ℕ) (k : ℕ) (xs : List ℕ) → 0 < times k xs → weigh w (erase k xs) + w k ≡ weigh w xs
unfolding weigh erase
erase-drop w k [] h = absurd (omega arith)
erase-drop w k (x ∷ xs) h = elim (Bool-cases (x == k)) [
  | inl same ↦ let e : x ≡ k = ground arith in rw same (omega (arith, ap w e))
  | inr other ↦
      let later : 0 < times k xs = ground arith in rw other (omega (arith, erase-drop w k xs later))
]

module _ {ℓ} {A : Type ℓ} where
  pub total-le :
      (v w : A → ℕ) → ((a : A) → v a ≤ w a) → (n : ℕ) (f : ℕ → A) → total v n f ≤ total w n f
  unfolding total
  total-le v w le zero f = omega arith
  total-le v w le (suc n) f = omega (arith, le (f n), total-le v w le n f)

-- Every member of the second family is at most by one larger.
pub total-few :
    (n : ℕ) (f g : ℕ → ℕ)
    → ((k : ℕ) → g k ≤ f k + 1)
    → total (λ x. 9 * x) n g ≤ total (λ x. 9 * x) n f + 9 * n
unfolding total
total-few zero f g le = omega arith
total-few (suc n) f g le = omega (arith, le n, total-few n f g le)

-- The calls of a batch that nobody has, and what a thread has to do around them.
abbrev pub batch_work : Job → Batch → ℕ
batch_work job b = if b.execed then 0 else 8 + length (job_calls job b)

module _ (jobs : ℕ → Job) where
  abbrev pub work : (ℕ → Shared) → ℕ → ℕ
  work shared j = if is_for (jobs j) then weigh (batch_work (jobs j)) (shared j).batches else 0

  abbrev pub awake_work : Bool → (when_sleepy when_not : ℕ) → ℕ
  awake_work sleepy a b = if sleepy then a else b

  -- What a thread has still to do until it sleeps, if nothing else happens.
  abbrev pub effort : (nbworkers : ℕ) → (ℕ → Shared) → PoolPc → ℕ
  effort nbworkers shared searching = 7
  effort nbworkers shared (moving j) = 17 + work shared j + 9 * nbworkers
  effort nbworkers shared looking = 6
  effort nbworkers shared (executing sleepy j outside) = if (jobs j).jtype == task then 12 else 5
  effort nbworkers shared (executing sleepy j (calling cs)) = awake_work sleepy 5 12 + length cs
  effort nbworkers shared (executing sleepy j checking) = awake_work sleepy 4 11
  effort nbworkers shared (executing sleepy j completing) = awake_work sleepy 4 11
  effort nbworkers shared (removing sleepy j) = awake_work sleepy 3 10
  effort nbworkers shared (finishing sleepy j) = awake_work sleepy 2 9
  effort nbworkers shared (posting sleepy j) = awake_work sleepy 1 8
  effort nbworkers shared waiting = 0

  abbrev pub ready_work : (nbworkers : ℕ) → (ℕ → Shared) → ℕ → ℕ
  ready_work nbworkers shared j = 11 + work shared j + 9 * nbworkers

  abbrev pub running_work : (ℕ → Shared) → ℕ → ℕ
  running_work shared j = 4 + work shared j

  abbrev pub left_to_do : (nbworkers : ℕ) → Pool → ℕ
  left_to_do nbworkers s =
      weigh (ready_work nbworkers s.shared) s.ready_jobs
      + total (effort nbworkers s.shared) (nbworkers + nbworkers) s.pc
      + weigh (running_work s.shared) s.running_jobs
      + total (λ x. 9 * x) nbworkers s.pending
      + total (λ x. 8 * x) (nbworkers + nbworkers) s.sem

-- `fly_get_exec_batch` takes the work of the batch away.
abbrev Took : Job → List Batch → Option (Batch × List Batch) → Type 0
Took job bs none = Unit
Took job bs (some (b, rest)) =
    weigh (batch_work job) rest + 8 + length (job_calls job b) ≤ weigh (batch_work job) bs

Took-later :
    (job : Job) (x : Batch) (bs : List Batch) (o : Option (Batch × List Batch))
    → Took job bs o
    → Took job (x ∷ bs) (Option.map (λ (c, cs). (c, x ∷ cs)) o)
unfolding weigh
Took-later job x bs none took = tt
Took-later job x bs (some (b, rest)) took = omega (arith, took)

first-Took :
    (job : Job) (start end : ℤ) (execed : Bool) (bs : List Batch)
    → Took job bs (get_exec_batch bs)
    → Took job
        (record { start = start; end = end; execed = execed } ∷ bs)
        (get_exec_batch (record { start = start; end = end; execed = execed } ∷ bs))
unfolding get_exec_batch weigh job_calls ptr_calls arr_calls
first-Took job start end false bs rest = omega arith
first-Took job start end true bs rest =
    Took-later job (record { start = start; end = end; execed = true }) bs (get_exec_batch bs) rest

get_exec_batch-Took : (job : Job) (bs : List Batch) → Took job bs (get_exec_batch bs)
get_exec_batch-Took job [] = unfold get_exec_batch in tt
get_exec_batch-Took job (x ∷ bs) =
    first-Took job x.start x.end x.execed bs (get_exec_batch-Took job bs)

pub take-work :
    (job : Job) (bs : List Batch) (b : Batch) (rest : List Batch)
    → get_exec_batch bs ≡ some (b, rest)
    → weigh (batch_work job) rest + 8 + length (job_calls job b) ≤ weigh (batch_work job) bs
take-work job bs b rest e = subst (Took job bs) e (get_exec_batch-Took job bs)
