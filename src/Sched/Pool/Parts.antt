-- ===== src/Sched/Pool/Parts.antt =====
-- What becomes of a field of job `k` when the part of job `j` in Sched.Pool changes.
use libfly.Prelude.{
  ℕ, ◌+◌, ◌<◌, ◌≡◌, refl, ap, ◌∙◌, ◌==◌, Bool-cases, inl, inr, ◌⊎◌, change, arith, length,
  length-append, ◌++◌, ◌∷◌, [],
}
use libfly.Job.{Job, task}
use libfly.Sched.{Call}
use libfly.Sched.Pool.{claim}
use libfly.Sched.Pool.Counts.{is_it}
use libfly.Sched.Workers.{Shared}

-- A field that stays as it is.
pub part-change {ℓ} :
    {A : Type ℓ} (part : Shared → A) (shared : ℕ → Shared) (j : ℕ) (sh : Shared) (k : ℕ)
    → part sh ≡ part (shared j)
    → part (change shared j sh k) ≡ part (shared k)
unfolding change
part-change part shared j sh k same = elim (Bool-cases (j == k)) [
  | inl it ↦ let e : j ≡ k = ground arith in rw it (same ∙ ap (λ j. part (shared j)) e)
  | inr other ↦ rw other refl
]

-- A field of another job.
pub part-other {ℓ} :
    {A : Type ℓ} (part : Shared → A) (shared : ℕ → Shared) (j : ℕ) (sh : Shared) (k : ℕ)
    → (part (change shared j sh k) ≡ part (shared k)) ⊎ (0 < is_it k j)
unfolding change
part-other part shared j sh k = elim (Bool-cases (j == k)) [
  | inl it ↦ inr (rw it (omega arith))
  | inr other ↦ rw other (inl refl)
]

pub part-of {ℓ} :
    {A : Type ℓ} (part : Shared → A) (shared : ℕ → Shared) (j : ℕ) (sh : Shared) (k : ℕ)
    → 0 < is_it k j
    → part (change shared j sh k) ≡ part sh
unfolding change
part-of part shared j sh k it = elim (Bool-cases (j == k)) [
  | inl same ↦ rw same refl
  | inr other ↦ absurd (ground arith)
]

abbrev pub sem_of : Shared → ℕ
sem_of sh = sh.sem

abbrev pub done_of : Shared → ℕ
done_of sh = sh.batches_done

pub sem-post :
    (shared : ℕ → Shared) (j k : ℕ)
    → (change shared j (record (shared j) { sem = (shared j).sem + 1 }) k).sem
      ≡ (shared k).sem + is_it k j
unfolding change
sem-post shared j k = elim (Bool-cases (j == k)) [
  | inl it ↦ let e : j ≡ k = ground arith in rw it (ap (λ j. (shared j).sem + 1) e)
  | inr other ↦ rw other (omega arith)
]

pub claim-sem : (job : Job) (sh : Shared) → (claim job sh).sem ≡ sh.sem
claim-sem job sh = elim (Bool-cases (job.jtype == task)) [
  | inl is ↦ rw is refl
  | inr other ↦ rw other refl
]

abbrev pub nb_calls : Shared → ℕ
nb_calls sh = length sh.calls

pub claim-calls : (job : Job) (sh : Shared) → nb_calls (claim job sh) ≡ nb_calls sh
claim-calls job sh = elim (Bool-cases (job.jtype == task)) [
  | inl is ↦ rw is refl
  | inr other ↦ rw other refl
]

-- One call more of job `j`, and of no other.
pub call-more :
    (shared : ℕ → Shared) (j k : ℕ) (c : Call)
    → nb_calls (shared k) + is_it k j
      ≡ nb_calls (change shared j (record (shared j) { calls = (shared j).calls ++ c ∷ [] }) k)
unfolding change
call-more shared j k c = elim (Bool-cases (j == k)) [
  | inl it ↦
      let e : j ≡ k = ground arith in
      rw it
        (omega (arith, length-append (shared j).calls (c ∷ []), ap (λ j. nb_calls (shared j)) e))
  | inr other ↦ rw other (omega arith)
]
