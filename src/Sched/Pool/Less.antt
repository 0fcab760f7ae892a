-- ===== src/Sched/Pool/Less.antt =====
-- The steps of Sched.Pool that leave less to do for one thread, or for one job.
use mathlib.Core.Path.{subst}
use libfly.Prelude.{
  ℕ, ◌+◌, ◌≤◌, ◌<◌, ◌≡◌, ap, true, some, List, ◌==◌, if◌then◌else◌, Bool-cases, inl, inr, change,
  change_at, arith, length, weigh,
}
use libfly.Job.{Job, Batch, get_exec_batch}
use libfly.Sched.{is_for}
use libfly.Sched.Drain.{job_calls}
use libfly.Sched.Workers.{Shared, outside, calling, checking, completing}
use libfly.Sched.Pool.{
  PoolPc, searching, moving, looking, executing, removing, finishing, posting, waiting, Pool, goto,
}
use libfly.Sched.Pool.Seen.{change-other}
use libfly.Sched.Pool.Counts.{times, shift}
use libfly.Sched.Pool.Parts.{part-change}
use libfly.Sched.Pool.Effort.{
  weigh-le, weigh-drop, total-le, batch_work, work, effort, ready_work, running_work, left_to_do,
  take-work,
}

module _ (jobs : ℕ → Job) (nbworkers : ℕ) where
  pub effort-le :
      (shared shared' : ℕ → Shared)
      → ((k : ℕ) → work jobs shared' k ≤ work jobs shared k)
      → (p : PoolPc) → effort jobs nbworkers shared' p ≤ effort jobs nbworkers shared p
  effort-le shared shared' le searching = omega arith
  effort-le shared shared' le (moving j) = omega (arith, le j)
  effort-le shared shared' le looking = omega arith
  effort-le shared shared' le (executing sl j outside) = omega arith
  effort-le shared shared' le (executing sl j (calling cs)) = omega arith
  effort-le shared shared' le (executing sl j checking) = omega arith
  effort-le shared shared' le (executing sl j completing) = omega arith
  effort-le shared shared' le (removing sl j) = omega arith
  effort-le shared shared' le (finishing sl j) = omega arith
  effort-le shared shared' le (posting sl j) = omega arith
  effort-le shared shared' le waiting = omega arith

  abbrev pub Less : Pool → Pool → Type 0
  Less t s = left_to_do jobs nbworkers t < left_to_do jobs nbworkers s

  pub same_work :
      (shared : ℕ → Shared) (j : ℕ) (sh : Shared)
      → sh.batches ≡ (shared j).batches
      → (k : ℕ) → work jobs (change shared j sh) k ≤ work jobs shared k
  same_work shared j sh same k =
      let e : (change shared j sh k).batches ≡ (shared k).batches =
        part-change (λ (x : Shared). x.batches) shared j sh k same in
      omega (arith, ap (λ bs. if is_for (jobs k) then weigh (batch_work (jobs k)) bs else 0) e)

  module _ (s : Pool) (i : ℕ) {p : PoolPc} (lt : i < nbworkers + nbworkers) (e : s.pc i ≡ p) where
    moves_on :
        (shared : ℕ → Shared) (q : PoolPc)
        → ((k : ℕ) → work jobs shared k ≤ work jobs s.shared k)
        → effort jobs nbworkers s.shared q < effort jobs nbworkers s.shared p
        → Less (goto (record s { shared = shared }) i q) s
    moves_on shared q le drop = omega (
      arith,
      drop,
      weigh-le (ready_work jobs nbworkers shared) (ready_work jobs nbworkers s.shared)
          (λ k. omega (arith, le k)) s.ready_jobs,
      weigh-le (running_work jobs shared) (running_work jobs s.shared) (λ k. omega (arith, le k))
          s.running_jobs,
      total-le (effort jobs nbworkers shared) (effort jobs nbworkers s.shared)
          (effort-le s.shared shared le) (nbworkers + nbworkers) (change s.pc i q),
      shift (effort jobs nbworkers s.shared) s.pc q lt e,
    )

    pub stays_on :
        (q : PoolPc)
        → effort jobs nbworkers s.shared q < effort jobs nbworkers s.shared p
        → Less (goto s i q) s
    stays_on q drop = moves_on s.shared q (λ k. omega arith) drop

    pub moves_at :
        (q : PoolPc) (j : ℕ) (sh : Shared)
        → sh.batches ≡ (s.shared j).batches
        → effort jobs nbworkers s.shared q < effort jobs nbworkers s.shared p
        → Less (goto (record s { shared = change s.shared j sh }) i q) s
    moves_at q j sh same drop =
        moves_on (change s.shared j sh) q (same_work s.shared j sh same) drop

    -- A batch is taken of a job in the running list.
    pub takes :
        (j : ℕ) (b : Batch) (bs : List Batch) (q : PoolPc)
        → is_for (jobs j) ≡ true
        → get_exec_batch (s.shared j).batches ≡ some (b, bs)
        → 0 < times j s.running_jobs
        → effort jobs nbworkers s.shared q
          < effort jobs nbworkers s.shared p + 8 + length (job_calls (jobs j) b)
        → Less
            (goto
              (record s { shared = change s.shared j (record (s.shared j) { batches = bs }) })
              i
              q)
            s
    takes j b bs q loops first in_list drop =
        let d = 8 + length (job_calls (jobs j) b) in
        let shared = change s.shared j (record (s.shared j) { batches = bs }) in
        let batches : (shared j).batches ≡ bs =
          ap (λ (x : Shared). x.batches)
            (change_at s.shared j (record (s.shared j) { batches = bs })) in
        let less : work jobs shared j + d ≤ work jobs s.shared j =
          rw (loops, batches) (omega (arith, take-work (jobs j) (s.shared j).batches b bs first)) in
        let le : (k : ℕ) → work jobs shared k ≤ work jobs s.shared k = λ k.
          elim (Bool-cases (j == k)) [
            | inl same ↦
                let e : j ≡ k = ground arith in
                subst (λ k. work jobs shared k ≤ work jobs s.shared k) e (omega (arith, less))
            | inr other ↦ omega (
              arith,
              ap
                  (λ (x : Shared).
                    if is_for (jobs k) then weigh (batch_work (jobs k)) x.batches else 0)
                  (change-other s.shared j (record (s.shared j) { batches = bs }) k other),
            )
          ] in
        omega (
          arith,
          drop,
          weigh-le (ready_work jobs nbworkers shared) (ready_work jobs nbworkers s.shared)
              (λ k. omega (arith, le k)) s.ready_jobs,
          weigh-drop (running_work jobs shared) (running_work jobs s.shared) j d
              (λ k. omega (arith, le k)) (omega (arith, less)) s.running_jobs in_list,
          total-le (effort jobs nbworkers shared) (effort jobs nbworkers s.shared)
              (effort-le s.shared shared le) (nbworkers + nbworkers) (change s.pc i q),
          shift (effort jobs nbworkers s.shared) s.pc q lt e,
        )
