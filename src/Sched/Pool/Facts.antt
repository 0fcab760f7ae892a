-- ===== src/Sched/Pool/Facts.antt =====
-- What holds of the jobs and the threads of Sched.Pool at every moment.
use mathlib.Core.Path.{subst}
use libfly.Prelude.{
  ℕ, ◌+◌, ◌<◌, ◌≡◌, ◌≢◌, refl, sym, ap, ◌∙◌, Bool, true, false, ◌==◌, Bool-cases, inl, inr, change,
  arith, total, total-zero, le-total,
}
use libfly.Memory.{null}
use libfly.Job.{Job}
use libfly.Sched.{Task, is_for}
use libfly.Sched.Pool.{searching, Pool, is_known, add, wake_up, run, Reach, here, later}
use libfly.Sched.Pool.Counts.{inside, unadded}
use libfly.Sched.Pool.Turns.{act-Turn}
use libfly.Sched.Pool.Alert.{dozing}
use libfly.Sched.Pool.Places.{Reach-Placed}
use libfly.Sched.Pool.Counts.{times-snoc, added-change}
use libfly.Sched.Pool.Each.{turn-added, turn-dozing, turn-waits, turn-done, waits}

false-ne-true : false ≡ true → ⊥
false-ne-true e = cc

abbrev pub Admitted : (ℕ → Job) → (ℕ → Bool) → ℕ → Type 0
Admitted jobs added k = added k ≡ true → (is_known (jobs k) ≡ true) × (k ≢ null)

added-Admitted :
    (jobs : ℕ → Job) (added : ℕ → Bool) (j k : ℕ)
    → j ≢ null
    → is_known (jobs j) ≡ true
    → Admitted jobs added k
    → Admitted jobs (change added j true) k
unfolding change
added-Admitted jobs added j k some_job known inv h = elim (Bool-cases (j == k)) [
  | inl it ↦
      let e : j ≡ k = ground arith in
      subst (λ k. (is_known (jobs k) ≡ true) × (k ≢ null)) e (known, some_job)
  | inr other ↦ inv (rw other at h)
]

module _ (jobs : ℕ → Job) (tasks : ℕ → Task) {nbworkers : ℕ} {roomy : Bool} where
  -- A job that has been added has a known type and is not `NULL`.
  pub Reach-Admitted :
      {s : Pool} (k : ℕ) → Reach jobs tasks nbworkers roomy s → Admitted jobs s.added k
  Reach-Admitted k here = λ h. absurd (false-ne-true h)
  Reach-Admitted k (later {s} r (add j some_job known new)) =
      added-Admitted jobs s.added j k some_job known (Reach-Admitted k r)
  Reach-Admitted k (later {s} r (wake_up w t lt left which)) = Reach-Admitted k r
  Reach-Admitted k (later {s} r (run ok i lt room)) =
      let same =
        turn-added jobs tasks (nbworkers + nbworkers) ok i s (s.pc i) _
          (act-Turn jobs tasks ok i s (s.pc i)) in
      subst (λ added. Admitted jobs added k) (sym same) (Reach-Admitted k r)

  -- No thread is at its calls although it is to sleep.
  pub Reach-dozing :
      {s : Pool}
      → Reach jobs tasks nbworkers roomy s
      → total dozing (nbworkers + nbworkers) s.pc ≡ 0
  Reach-dozing here = total-zero dozing (λ _. searching) (λ _. refl) (nbworkers + nbworkers)
  Reach-dozing (later {s} r (add j some_job known new)) = Reach-dozing r
  Reach-dozing (later {s} r (wake_up w t lt left which)) = Reach-dozing r
  Reach-dozing (later {s} r (run ok i lt room)) =
      turn-dozing jobs tasks (nbworkers + nbworkers) ok i s (s.pc i) _ lt refl
        (act-Turn jobs tasks ok i s (s.pc i)) (Reach-dozing r)

  -- A parallel for has no batch done before it is in the running list.
  pub Reach-unstarted :
      {s : Pool} (k : ℕ)
      → is_for (jobs k) ≡ true
      → Reach jobs tasks nbworkers roomy s
      → 0 < waits jobs tasks (nbworkers + nbworkers) k s + unadded (s.added k)
      → (s.shared k).batches_done ≡ 0
  Reach-unstarted k loops here h = refl
  Reach-unstarted k loops (later {s} r (add j some_job known new)) h =
      Reach-unstarted k loops r
        (omega (arith, h, times-snoc k j s.ready_jobs, added-change s.added j k new))
  Reach-unstarted k loops (later {s} r (wake_up w t lt left which)) h = Reach-unstarted k loops r h
  Reach-unstarted k loops (later {s} r (run ok i lt room)) h =
      let n = nbworkers + nbworkers in
      let step = act-Turn jobs tasks ok i s (s.pc i) in
      let fewer = turn-waits jobs tasks n k ok i s (s.pc i) _ lt refl step in
      let same = turn-added jobs tasks n ok i s (s.pc i) _ step in
      let before : 0 < waits jobs tasks n k s + unadded (s.added k) =
        omega (arith, h, fewer, ap (λ (added : ℕ → Bool). unadded (added k)) same) in
      elim (turn-done jobs tasks n k ok i s (s.pc i) _ loops step) [
        | inl done ↦ done ∙ Reach-unstarted k loops r before
        | inr in_hand ↦ absurd (
            omega (
              arith,
              (Reach-Placed jobs tasks k r).before,
              le-total (inside k) n s.pc i lt,
              before,
            ))
      ]
