-- ===== src/Sched/Pool/Leads.antt =====
-- Where a step of Sched.Pool leads: to less to do, or to one more run of a task.
use native.Mathlib.Decide.{dec_lt}
use libfly.Prelude.{
  ℕ, zero, suc, ◌+◌, ◌≤◌, ◌<◌, ◌≡◌, ◌≢◌, refl, sym, ap, ◌∙◌, Bool, true, false, none, some, List,
  [], ◌∷◌, ◌++◌, ◌==◌, if◌then◌else◌, Bool-cases, inl, inr, ◌⊎◌, arith, total, le-total,
}
use libfly.Job.{Job, Batch, task, get_exec_batch}
use libfly.Sched.{Task, is_for}
use libfly.Sched.Drain.{job_calls}
use libfly.Sched.Workers.{outside, calling, checking}
use libfly.Sched.Workers.Invariant.{posts}
use libfly.Sched.Workers.Busy.{posting-done}
use libfly.Sched.Workers.Once.{done-none_free}
use libfly.Sched.Pool.{
  PoolPc, searching, moving, looking, executing, removing, finishing, posting, waiting, Pool, goto,
  leave, is_known, Reach,
}
use libfly.Sched.Pool.Seen.{seen, seen_all}
use libfly.Sched.Pool.Project.{pool-Workers}
use libfly.Sched.Pool.Counts.{times, is_it_self, moves, inside, ends}
use libfly.Sched.Pool.Places.{one_place, look-times}
use libfly.Sched.Pool.Kept.{never_lost}
use libfly.Sched.Pool.Someone.{IsCut}
use libfly.Sched.Pool.Effort.{effort}
use libfly.Sched.Pool.Less.{Less, stays_on, moves_at, takes}
use libfly.Sched.Pool.Drops.{pops_one, outside_effort, puts, wakes_up, erases}
use libfly.Sched.Pool.Turns.{
  Turn, nothing_ready, got_ready, moved, none_running, got_running, took, none_free, task_called,
  unknown, called, batch_ended, found_done, found_open, completed, removed, finished, posted,
  asleep, woken,
}

some-ne-none {ℓ} : {A : Type ℓ} {a : A} → some a ≡ none → ⊥
some-ne-none e = cc

-- A thread that is about to post a job has found it done.
ends-posts : (j : ℕ) (p : PoolPc) → ends j p ≤ posts (seen j p)
ends-posts j (finishing sl k) = ground arith
ends-posts j (posting sl k) = ground arith
ends-posts j searching = omega arith
ends-posts j (moving k) = omega arith
ends-posts j looking = omega arith
ends-posts j (executing sl k p) = omega arith
ends-posts j (removing sl k) = omega arith
ends-posts j waiting = omega arith

total-ends : (j n : ℕ) (pc : ℕ → PoolPc) → total (ends j) n pc ≤ total posts n (seen_all j pc)
unfolding total
total-ends j zero pc = omega arith
total-ends j (suc n) pc = omega (arith, ends-posts j (pc n), total-ends j n pc)

-- The one step that leaves more to do: a task is picked from the running list once more.
pub record Picks (jobs : ℕ → Job) (s : Pool) (i : ℕ) (t : Pool) : Type 0 where
  pub job : ℕ
  pub was : s.pc i ≡ looking
  pub is_task : ((jobs job).jtype == task) ≡ true
  pub in_list : 0 < times job s.running_jobs
  pub picked : t ≡ goto s i (executing false job outside)

abbrev pub Leads : (jobs : ℕ → Job) (nbworkers : ℕ) (s : Pool) → ℕ → Pool → Type 0
Leads jobs nbworkers s i t = Less jobs nbworkers t s ⊎ Picks jobs s i t

module _ (jobs : ℕ → Job) (tasks : ℕ → Task) {nbworkers : ℕ}
    (cut : (j : ℕ) → is_for (jobs j) ≡ true → IsCut (jobs j)) {s : Pool}
    (r : Reach jobs tasks nbworkers true s) where
  -- A thread that can take a batch of a job has it from the running list, and it is still there.
  batch-Listed :
      (i : ℕ) (sleepy : Bool) (j : ℕ) (b : Batch) (bs : List Batch)
      → i < nbworkers + nbworkers
      → s.pc i ≡ executing sleepy j outside
      → is_for (jobs j) ≡ true
      → get_exec_batch (s.shared j).batches ≡ some (b, bs)
      → 0 < times j s.running_jobs
  batch-Listed i sleepy j b bs lt e loops first =
      let n = nbworkers + nbworkers in
      let (fresh, count, some_batch) = cut j loops in
      let runs = pool-Workers jobs tasks j loops r in
      let known : is_known (jobs j) ≡ true = rw loops refl in
      let in_hand : 0 < total (inside j) n s.pc =
        omega (arith, le-total (inside j) n s.pc i lt, ap (inside j) e, is_it_self j) in
      let (once, before, new) = one_place jobs tasks j r in
      let not_done : (s.shared j).batches_done ≢ (jobs j).nbbatches =
        λ done. some-ne-none (sym first ∙ done-none_free runs fresh count done) in
      let added : s.added j ≡ true = elim (Bool-cases (s.added j)) [
        | inl yes_added ↦ yes_added
        | inr not_added ↦ absurd (omega (arith, new not_added, in_hand))
      ] in
      let nowhere : times j s.ready_jobs + total (moves j) n s.pc ≡ 0 =
        elim (dec_lt 0 (times j s.ready_jobs + total (moves j) n s.pc)) [
          | yes waits ↦ absurd (omega (arith, before waits, in_hand))
          | no not_there ↦ omega (arith, not_there)
        ] in
      let unposted : (s.shared j).sem + total (ends j) n s.pc ≡ 0 =
        elim (dec_lt 0 ((s.shared j).sem + total (ends j) n s.pc)) [
          | yes at_end ↦ absurd (
              not_done (posting-done runs fresh count (omega (arith, at_end, total-ends j n s.pc))))
          | no not_there ↦ omega (arith, not_there)
        ] in
      omega (arith, never_lost jobs tasks j known r added, nowhere, unposted)

  leave-less :
      (sl : Bool) (a b : ℕ)
      → 0 < a
      → 7 < b
      → effort jobs nbworkers s.shared (leave sl) < (if sl then a else b)
  leave-less true a b lt lt' = lt
  leave-less false a b lt lt' = lt'

  sleep-less :
      (sl : Bool) (a b c d : ℕ) → a < c → b < d → (if sl then a else b) < (if sl then c else d)
  sleep-less true a b c d lt lt' = lt
  sleep-less false a b c d lt lt' = lt'

  pub turn-Leads :
      (i : ℕ) (p : PoolPc) (t : Pool)
      → i < nbworkers + nbworkers
      → s.pc i ≡ p
      → (p ≡ waiting → 0 < s.sem i)
      → Turn jobs tasks true i s p t
      → Leads jobs nbworkers s i t
  turn-Leads i p t lt e awake (nothing_ready none_left) =
      inl (stays_on jobs nbworkers s i lt e looking (omega arith))
  turn-Leads i p t lt e awake (got_ready rest j (x, xs, ready, popped)) =
      inl (pops_one jobs nbworkers s i rest j x xs lt e ready popped)
  turn-Leads i p t lt e awake (moved j running pending cases all more few) =
      inl (puts jobs nbworkers s i j running pending lt e cases few)
  turn-Leads i p t lt e awake (none_running none_left) =
      inl (stays_on jobs nbworkers s i lt e waiting (omega arith))
  turn-Leads i p t lt e awake (got_running j found some_job) =
      elim (Bool-cases ((jobs j).jtype == task)) [
        | inl is_task ↦ inr (record {
          job = j;
          was = e;
          is_task = is_task;
          in_list = omega (arith, look-times jobs tasks s j j found some_job, is_it_self j);
          picked = refl;
        })
        | inr other ↦
            let five : effort jobs nbworkers s.shared (executing false j outside) ≡ 5 =
              rw other refl in
            inl (stays_on jobs nbworkers s i lt e (executing false j outside) (omega (arith, five)))
      ]
  turn-Leads i p t lt e awake (took sl j b bs loops first) = inl (
      takes jobs nbworkers s i lt e j b bs (executing false j (calling (job_calls (jobs j) b)))
        loops first (batch-Listed i sl j b bs lt e loops first)
        (omega (arith, outside_effort jobs nbworkers s.shared sl j)))
  turn-Leads i p t lt e awake (none_free sl j loops none_left) = inl (
      moves_at jobs nbworkers s i lt e (executing true j checking) j (s.shared j) refl
        (omega (arith, outside_effort jobs nbworkers s.shared sl j)))
  turn-Leads i p t lt e awake (unknown sl j no_type) = inl (
      stays_on jobs nbworkers s i lt e (executing true j checking)
        (omega (arith, outside_effort jobs nbworkers s.shared sl j)))
  turn-Leads i p t lt e awake (task_called sl j c no_loop is its) =
      let twelve : effort jobs nbworkers s.shared (executing sl j outside) ≡ 12 = rw is refl in
      inl (
        moves_at jobs nbworkers s i lt e (executing false j checking) j
          (record (s.shared j) { calls = (s.shared j).calls ++ c ∷ [] }) refl
          (omega (arith, twelve)))
  turn-Leads i p t lt e awake (called sl j c cs) = inl (
      moves_at jobs nbworkers s i lt e (executing sl j (calling cs)) j
        (record (s.shared j) { calls = (s.shared j).calls ++ c ∷ [] }) refl (omega arith))
  turn-Leads i p t lt e awake (batch_ended sl j) = inl (
      moves_at jobs nbworkers s i lt e (executing sl j checking) j
        (record (s.shared j) { batches_done = (s.shared j).batches_done + 1 }) refl
        (omega (arith, sleep-less sl 4 11 5 12 (omega arith) (omega arith))))
  turn-Leads i p t lt e awake (found_done sl j done) = inl (
      stays_on jobs nbworkers s i lt e (removing sl j)
        (sleep-less sl 3 10 4 11 (omega arith) (omega arith)))
  turn-Leads i p t lt e awake (found_open sl j more) =
      inl (
        stays_on jobs nbworkers s i lt e (leave sl)
          (leave-less sl 4 11 (omega arith) (omega arith)))
  turn-Leads i p t lt e awake (completed sl j) = inl (
      stays_on jobs nbworkers s i lt e (removing sl j)
        (sleep-less sl 3 10 4 11 (omega arith) (omega arith)))
  turn-Leads i p t lt e awake (removed sl j) = inl (
      erases jobs nbworkers s i j (finishing sl j) lt e
        (sleep-less sl 2 9 3 10 (omega arith) (omega arith)))
  turn-Leads i p t lt e awake (finished sl j l) = inl (
      stays_on jobs nbworkers s i lt e (posting sl j)
        (sleep-less sl 1 8 2 9 (omega arith) (omega arith)))
  turn-Leads i p t lt e awake (posted sl j) = inl (
      moves_at jobs nbworkers s i lt e (leave sl) j
        (record (s.shared j) { sem = (s.shared j).sem + 1 }) refl
        (leave-less sl 1 8 (omega arith) (omega arith)))
  turn-Leads i p t lt e awake (woken c post) = inl (wakes_up jobs nbworkers s i c lt e post)
  turn-Leads i p t lt e awake (asleep no_post) = absurd (omega (arith, awake refl, no_post))
