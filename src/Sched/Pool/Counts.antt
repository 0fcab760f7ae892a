-- ===== src/Sched/Pool/Counts.antt =====
-- How often a job stands in the lists of Sched.Pool and in the hands of its threads, and which job
-- `fly_sched_get_running` picks.
use mathlib.Core.Path.{subst}
use libfly.Prelude.{
  sym, true, ℕ, suc, ◌+◌, ◌≤◌, ◌<◌, ◌≡◌, refl, ap, Bool, false, List, [], ◌∷◌, ◌++◌, ◌==◌,
  if◌then◌else◌, Bool-cases, ◌⊎◌, inl, inr, arith, length, weigh, weigh-append, total, total-change,
  le-total, change,
}
use libfly.FlyList.View.{erase, pop_back}
use libfly.Job.{Job}
use libfly.Sched.Pool.{
  PoolPc, searching, moving, executing, removing, finishing, posting, waiting, leave,
}
use libfly.Sched.Run.{running_loop}

-- 1 for the job `j` itself.
abbrev pub is_it : (j k : ℕ) → ℕ
is_it j k = if k == j then 1 else 0

abbrev pub times : ℕ → List ℕ → ℕ
times j = weigh (is_it j)

pub is_it_self : (j : ℕ) → is_it j j ≡ 1
is_it_self j = ground arith

pub times-snoc : (j k : ℕ) (xs : List ℕ) → times j (xs ++ k ∷ []) ≡ times j xs + is_it j k
unfolding weigh
times-snoc j k xs = omega (arith, weigh-append (is_it j) xs (k ∷ []))

pub weigh-pop_back :
    (w : ℕ → ℕ) (x : ℕ) (xs : List ℕ)
    → weigh w (x ∷ xs) ≡ w (pop_back (x ∷ xs)).0 + weigh w (pop_back (x ∷ xs)).1
unfolding weigh pop_back
weigh-pop_back w x [] = refl
weigh-pop_back w x (y ∷ ys) = omega (arith, weigh-pop_back w y ys)

pub length-pop_back : (x : ℕ) (xs : List ℕ) → length (x ∷ xs) ≡ suc (length (pop_back (x ∷ xs)).1)
unfolding pop_back
length-pop_back x [] = refl
length-pop_back x (y ∷ ys) = ap suc (length-pop_back y ys)

pub times-erase :
    (j k : ℕ) (xs : List ℕ)
    → (times j (erase k xs) ≤ times j xs) × (times j xs ≤ times j (erase k xs) + is_it j k)
unfolding weigh erase
times-erase j k [] = (omega arith, omega arith)
times-erase j k (x ∷ xs) = elim (Bool-cases (x == k)) [
  | inl same ↦ rw same (omega arith, ground arith)
  | inr other ↦ let (le, ge) = times-erase j k xs in rw other (omega (arith, le), omega (arith, ge))
]

pub times-pos : (j k : ℕ) (xs : List ℕ) → (j ≡ k) ⊎ (0 < times j xs) → 0 < times j (k ∷ xs)
unfolding weigh
times-pos j k xs (inl same) = ground arith
times-pos j k xs (inr inside) = omega arith

module _ (jobs : ℕ → Job) where
  abbrev IsOpen : ℕ → Type 0
  IsOpen j = ((jobs j).batches_done == (jobs j).nbbatches) ≡ false

  running_loop-skip :
      (job x : ℕ) (xs : List ℕ)
      → ((jobs x).batches_done == (jobs x).nbbatches) ≡ true
      → running_loop jobs job (x ∷ xs) ≡ running_loop jobs x xs
  unfolding running_loop
  running_loop-skip job x xs done = rw done refl

  running_loop-stop : (job x : ℕ) (xs : List ℕ) → IsOpen x → running_loop jobs job (x ∷ xs) ≡ x
  unfolding running_loop
  running_loop-stop job x xs not_done = rw not_done refl

  pub running_loop-member :
      (job : ℕ) (xs : List ℕ)
      → (running_loop jobs job xs ≡ job) ⊎ (0 < times (running_loop jobs job xs) xs)
  running_loop-member job [] = unfold running_loop in inl refl
  running_loop-member job (x ∷ xs) =
      elim (Bool-cases ((jobs x).batches_done == (jobs x).nbbatches)) [
        | inl done ↦
            subst (λ r. (r ≡ job) ⊎ (0 < times r (x ∷ xs))) (sym (running_loop-skip job x xs done))
              (inr (times-pos _ x xs (running_loop-member x xs)))
        | inr not_done ↦
            subst (λ r. (r ≡ job) ⊎ (0 < times r (x ∷ xs)))
              (sym (running_loop-stop job x xs not_done)) (inr (times-pos x x xs (inl refl)))
      ]

  -- Where a job of the list is not done, the one that is picked is not done either.
  pub running_loop-IsOpen :
      (job j : ℕ) (xs : List ℕ)
      → 0 < times j xs
      → IsOpen j
      → IsOpen (running_loop jobs job xs) × (0 < times (running_loop jobs job xs) xs)
  running_loop-IsOpen job j [] inside not_done = unfold weigh in absurd (omega arith)
  running_loop-IsOpen job j (x ∷ xs) inside not_done =
      elim (Bool-cases ((jobs x).batches_done == (jobs x).nbbatches)) [
        | inl done ↦
            let later : 0 < times j xs = unfold weigh in ground arith in
            let (open_one, found) = running_loop-IsOpen x j xs later not_done in
            subst (λ r. IsOpen r × (0 < times r (x ∷ xs))) (sym (running_loop-skip job x xs done))
              (open_one, times-pos _ x xs (inr found))
        | inr open_one ↦
            subst (λ r. IsOpen r × (0 < times r (x ∷ xs)))
              (sym (running_loop-stop job x xs open_one)) (open_one, times-pos x x xs (inl refl))
      ]

-- Thread `i` moves from `p` to `q`: how the sum of a weight over the threads changes.
pub shift :
    (w : PoolPc → ℕ) {n i : ℕ} (pc : ℕ → PoolPc) {p : PoolPc} (q : PoolPc)
    → i < n
    → pc i ≡ p
    → (total w n (change pc i q) + w p ≡ total w n pc + w q) × (w p ≤ total w n pc)
shift w {n} {i} pc q lt e =
    (omega (arith, total-change w n pc i q lt, ap w e), omega (arith, le-total w n pc i lt, ap w e))

pub at_leave :
    (w : PoolPc → ℕ) (sleepy : Bool) → w searching ≡ 0 → w waiting ≡ 0 → w (leave sleepy) ≡ 0
at_leave w true at_search at_wait = at_wait
at_leave w false at_search at_wait = at_search

-- The threads that bring job `j` to the running list, and those that have it after that.
abbrev pub moves : ℕ → PoolPc → ℕ
moves j (moving k) = is_it j k
moves j _ = 0

abbrev pub inside : ℕ → PoolPc → ℕ
inside j (executing sleepy k p) = is_it j k
inside j (removing sleepy k) = is_it j k
inside j (finishing sleepy k) = is_it j k
inside j (posting sleepy k) = is_it j k
inside j _ = 0

-- The threads that have taken job `j` from the running list and have still to post it.
abbrev pub ends : ℕ → PoolPc → ℕ
ends j (finishing sleepy k) = is_it j k
ends j (posting sleepy k) = is_it j k
ends j _ = 0

-- 1 as long as the job has not been added.
abbrev pub unadded : Bool → ℕ
unadded added = if added then 0 else 1

pub added-change :
    (added : ℕ → Bool) (j k : ℕ)
    → added j ≡ false
    → is_it k j + unadded (change added j true k) ≡ unadded (added k)
unfolding change
added-change added j k new = ground arith
