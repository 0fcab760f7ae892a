-- ===== src/Sched/Pool/Awake.antt =====
-- The threads of Sched.Pool do not all go to sleep while there is work in the running list.
use libfly.Prelude.{
  ℕ, ◌+◌, ◌<◌, ◌≡◌, ◌≢◌, refl, sym, ap, ◌∙◌, Bool, true, false, none, [], ◌∷◌, ◌++◌, ◌==◌,
  Bool-cases, inl, inr, change, arith, total-pos, le-total, weigh,
}
use libfly.Memory.{null}
use libfly.Job.{Job, get_exec_batch}
use libfly.Sched.{Task, is_for}
use libfly.Sched.Pool.{
  PoolPc, searching, moving, looking, executing, waiting, Pool, leave, claim, is_known, current,
  look, add, wake_up, run, Reach, here, later,
}
use libfly.Sched.Workers.{Shared, outside, calling, checking}
use libfly.Sched.Workers.Invariant.{busy}
use libfly.Sched.Workers.Busy.{open-busy}
use libfly.Sched.Pool.Seen.{seen, seen_all, seen-executing}
use libfly.Sched.Pool.Project.{pool-Workers}
use libfly.Sched.Pool.Counts.{is_it_self, times, times-erase, running_loop-IsOpen, moves}
use libfly.Sched.Pool.Places.{Reach-Placed}
use libfly.Sched.Pool.Alert.{dozing, is_done, alert, alert-leave, busy-alert}
use libfly.Sched.Pool.Facts.{Reach-Admitted, Reach-dozing, Reach-unstarted}
use libfly.Sched.Pool.Parts.{part-change, done_of}
use libfly.Sched.Pool.Turns.{
  Turn, act-Turn, nothing_ready, got_ready, moved, none_running, got_running, took, none_free,
  task_called, unknown, called, batch_ended, found_done, found_open, completed, removed, finished,
  posted, asleep, woken,
}
use libfly.Sched.Pool.Someone.{
  IsCut, Someone, Awake, true-ne-false, itself, another, still, alike, caller, alert-enter,
  alert-unknown, alert-done,
}

module _ (jobs : ℕ → Job) (tasks : ℕ → Task) {nbworkers : ℕ} {roomy : Bool}
    (cut : (j : ℕ) → is_for (jobs j) ≡ true → IsCut (jobs j)) {s : Pool}
    (r : Reach jobs tasks nbworkers roomy s) where
  -- A job that stands somewhere has been added.
  moving-Admitted :
      (i j : ℕ) → i < nbworkers + nbworkers → s.pc i ≡ moving j → is_known (jobs j) ≡ true
  moving-Admitted i j lt e =
      (Reach-Admitted jobs tasks j r (
        ground (
          arith,
          (Reach-Placed jobs tasks j r).once,
          le-total (moves j) (nbworkers + nbworkers) s.pc i lt,
          ap (moves j) e,
          is_it_self j,
        ))).0

  running-Admitted : (j : ℕ) → 0 < times j s.running_jobs → (is_known (jobs j) ≡ true) × (j ≢ null)
  running-Admitted j runs =
      Reach-Admitted jobs tasks j r (ground (arith, (Reach-Placed jobs tasks j r).once))

  -- Nothing of a parallel for is done when it comes to the running list.
  moving-open :
      (i j : ℕ)
      → i < nbworkers + nbworkers
      → s.pc i ≡ moving j
      → is_for (jobs j) ≡ true
      → is_done jobs s.shared j ≡ false
  moving-open i j lt e loops =
      let none_done = Reach-unstarted jobs tasks j loops r (
        omega (
          arith,
          le-total (moves j) (nbworkers + nbworkers) s.pc i lt,
          ap (moves j) e,
          is_it_self j,
        )) in
      ground (arith, none_done, (cut j loops).2)

  -- The job that is picked from the running list is not done, if some parallel for in it is not.
  picked :
      (j : ℕ)
      → 0 < times j s.running_jobs
      → is_done jobs s.shared j ≡ false
      → (is_done jobs s.shared (look jobs tasks s) ≡ false)
        × (0 < times (look jobs tasks s) s.running_jobs)
  unfolding look
  picked j runs not_done =
      running_loop-IsOpen (current jobs tasks s) null j s.running_jobs runs not_done

  -- Who finds no batch of a job that is not done leaves a thread that has one.
  others_call :
      (i : ℕ) (sleepy : Bool) (j : ℕ) (q : PoolPc)
      → i < nbworkers + nbworkers
      → s.pc i ≡ executing sleepy j outside
      → is_for (jobs j) ≡ true
      → get_exec_batch (s.shared j).batches ≡ none
      → is_done jobs s.shared j ≡ false
      → Someone jobs (nbworkers + nbworkers) (change s.shared j (s.shared j)) (change s.pc i q)
  others_call i sleepy j q lt e loops none_left not_done =
      let n = nbworkers + nbworkers in
      let (fresh, count, some) = cut j loops in
      let calls = open-busy (pool-Workers jobs tasks j loops r) fresh count none_left not_done in
      let (k, k_lt, is_busy) = total-pos busy n (seen_all j s.pc) calls in
      let none_dozes : dozing (s.pc k) ≡ 0 =
        omega (arith, le-total dozing n s.pc k k_lt, Reach-dozing jobs tasks r) in
      let idle : busy (seen j (s.pc i)) ≡ 0 =
        ap (λ p. busy (seen j p)) e ∙ ap busy (seen-executing j sleepy outside) in
      let other : (i == k) ≡ false = elim (Bool-cases (i == k)) [
        | inl it ↦
            let eq : i ≡ k = ground arith in
            absurd (omega (arith, ap (λ k. busy (seen j (s.pc k))) eq, idle, is_busy))
        | inr other ↦ other
      ] in
      another jobs n s i lt e (change s.shared j (s.shared j)) q k
        (λ k. part-change done_of s.shared j (s.shared j) k refl) other k_lt
        (busy-alert jobs s.shared j (s.pc k) is_busy none_dozes)

  -- A job that is not done after a step that counts no batch was not done before it.
  open_before :
      (j : ℕ) (sh : Shared) (k : ℕ)
      → sh.batches_done ≡ (s.shared j).batches_done
      → is_done jobs (change s.shared j sh) k ≡ false
      → is_done jobs s.shared k ≡ false
  open_before j sh k same not_done =
      ap (λ d. d == (jobs k).nbbatches) (sym (part-change done_of s.shared j sh k same)) ∙ not_done

  turn-Awake :
      (ok : Bool) (i : ℕ) (p : PoolPc) (t : Pool)
      → i < nbworkers + nbworkers
      → s.pc i ≡ p
      → Turn jobs tasks ok i s p t
      → Awake jobs (nbworkers + nbworkers) s
      → Awake jobs (nbworkers + nbworkers) t
  turn-Awake ok i p t lt e (nothing_ready none_left) inv k loops runs not_done =
      itself jobs _ s i lt e s.shared looking refl
  turn-Awake ok i p t lt e (got_ready rest j first) inv k loops runs not_done =
      itself jobs _ s i lt e (change s.shared j (claim (jobs j) (s.shared j))) (moving j) refl
  turn-Awake ok i p t lt e (moved j running pending cases all more few) inv k loops runs not_done =
      itself jobs _ s i lt e s.shared _
        (alert-enter jobs s.shared j (moving-Admitted i j lt e) (moving-open i j lt e))
  turn-Awake ok i p t lt e (none_running none_left) inv k loops runs not_done =
      absurd ((running-Admitted (look jobs tasks s) (picked k runs not_done).1).1 (ground arith))
  turn-Awake ok i p t lt e (got_running j found some) inv k loops runs not_done =
      let (not_finished, in_list) = picked k runs not_done in
      itself jobs _ s i lt e s.shared _ (
        alert-enter jobs s.shared j
          (ap (λ j. is_known (jobs j)) found ∙ (running-Admitted _ in_list).0)
          (λ loops. ap (is_done jobs s.shared) found ∙ not_finished))
  turn-Awake ok i p t lt e (took sl j b bs loops' first) inv k loops runs not_done =
      itself jobs _ s i lt e (change s.shared j (record (s.shared j) { batches = bs })) _ refl
  turn-Awake ok i p t lt e (none_free sl j loops' none_left) inv k loops runs not_done =
      elim (Bool-cases (is_done jobs s.shared j)) [
        | inl done ↦
            still jobs _ s i lt e (change s.shared j (s.shared j)) _
              (λ k. part-change done_of s.shared j (s.shared j) k refl)
              (alert-done jobs s.shared sl j loops' done)
              (inv k loops runs (open_before j (s.shared j) k refl not_done))
        | inr open_one ↦ others_call i sl j _ lt e loops' none_left open_one
      ]
  turn-Awake ok i p t lt e (task_called sl j c no_loop is its) inv k loops runs not_done =
      itself jobs _ s i lt e
        (change s.shared j (record (s.shared j) { calls = (s.shared j).calls ++ c ∷ [] }))
        (executing false j checking) refl
  turn-Awake ok i p t lt e (unknown sl j no_type) inv k loops runs not_done =
      still jobs _ s i lt e s.shared _ (λ k. refl) (alert-unknown jobs s.shared sl j no_type)
        (inv k loops runs not_done)
  turn-Awake ok i p t lt e (called sl j c cs) inv k loops runs not_done =
      itself jobs _ s i lt e
        (change s.shared j (record (s.shared j) { calls = (s.shared j).calls ++ c ∷ [] }))
        (executing sl j (calling cs))
        (caller jobs _ s i lt e sl j (Reach-dozing jobs tasks r) (ap dozing e))
  turn-Awake ok i p t lt e (batch_ended sl j) inv k loops runs not_done =
      itself jobs _ s i lt e
        (change s.shared j (record (s.shared j) { batches_done = (s.shared j).batches_done + 1 }))
        (executing sl j checking)
        (caller jobs _ s i lt e sl j (Reach-dozing jobs tasks r) (ap dozing e))
  turn-Awake ok i p t lt e (found_done sl j done) inv k loops runs not_done =
      alike jobs _ s i lt e sl s.shared _ (λ k. refl) refl refl (inv k loops runs not_done)
  turn-Awake ok i p t lt e (found_open sl j more) inv k loops runs not_done =
      alike jobs _ s i lt e sl s.shared _ (λ k. refl) refl (alert-leave jobs s.shared sl)
        (inv k loops runs not_done)
  turn-Awake ok i p t lt e (completed sl j) inv k loops runs not_done =
      alike jobs _ s i lt e sl s.shared _ (λ k. refl) refl refl (inv k loops runs not_done)
  turn-Awake ok i p t lt e (removed sl j) inv k loops runs not_done =
      alike jobs _ s i lt e sl s.shared _ (λ k. refl) refl refl
        (inv k loops (omega (arith, runs, (times-erase k j s.running_jobs).0)) not_done)
  turn-Awake ok i p t lt e (finished sl j l) inv k loops runs not_done =
      alike jobs _ s i lt e sl s.shared _ (λ k. refl) refl refl (inv k loops runs not_done)
  turn-Awake ok i p t lt e (posted sl j) inv k loops runs not_done =
      let sh = record (s.shared j) { sem = (s.shared j).sem + 1 } in
      alike jobs _ s i lt e sl (change s.shared j sh) (leave sl)
        (λ k. part-change done_of s.shared j sh k refl) refl
        (alert-leave jobs (change s.shared j sh) sl)
        (inv k loops runs (open_before j sh k refl not_done))
  turn-Awake ok i p t lt e (woken c post) inv k loops runs not_done =
      itself jobs _ s i lt e s.shared searching refl
  turn-Awake ok i p t lt e (asleep no_post) inv k loops runs not_done = inv k loops runs not_done

none_runs : (k : ℕ) → 0 < times k [] → ⊥
none_runs k runs = unfold weigh in omega arith

module _ (jobs : ℕ → Job) (tasks : ℕ → Task) {nbworkers : ℕ} {roomy : Bool}
    (cut : (j : ℕ) → is_for (jobs j) ≡ true → IsCut (jobs j)) where
  Reach-Awake :
      {s : Pool} → Reach jobs tasks nbworkers roomy s → Awake jobs (nbworkers + nbworkers) s
  Reach-Awake here = λ k loops runs not_done. absurd (none_runs k runs)
  Reach-Awake (later {s} r (add j some_job known new)) = Reach-Awake r
  Reach-Awake (later {s} r (wake_up w t lt left which)) = Reach-Awake r
  Reach-Awake (later {s} r (run ok i lt room)) =
      turn-Awake jobs tasks cut r ok i (s.pc i) _ lt refl (act-Turn jobs tasks ok i s (s.pc i))
        (Reach-Awake r)

  -- The workers do not go to sleep before the work is done: with any number of workers and any jobs,
  -- where every job that is a parallel for comes with at least one batch, as many as `nbbatches` says
  -- and all unexecuted: as long as a parallel for in the running list is not
  -- done, some thread does not wait.
  pub open-somebody_awake :
      {s : Pool} (j : ℕ)
      → is_for (jobs j) ≡ true
      → Reach jobs tasks nbworkers roomy s
      → 0 < times j s.running_jobs
      → (s.shared j).batches_done ≢ (jobs j).nbbatches
      → (i : ℕ) × (i < nbworkers + nbworkers) × (s.pc i ≢ waiting)
  open-somebody_awake {s} j loops r runs not_done =
      let (i, lt, awake) = Reach-Awake r j loops runs (ground (arith, not_done)) in
      (i, lt, λ e. true-ne-false (sym awake ∙ ap (alert jobs s.shared) e))
