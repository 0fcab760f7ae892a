-- ===== src/Sched/Pool/Taken.antt =====
-- What holds of a task of Sched.Pool, and that every step of a thread preserves it.
use native.Mathlib.Decide.{dec_lt}
use libfly.Prelude.{
  ℕ, ◌+◌, ◌≤◌, ◌<◌, ◌≡◌, ◌≢◌, refl, sym, ap, ◌∙◌, Bool, true, false, List, [], ◌∷◌, ◌++◌, ◌==◌,
  Bool-cases, inl, inr, change, arith, total,
}
use libfly.Job.{Job, task}
use libfly.Sched.{Task, is_for}
use libfly.Sched.Pool.{PoolPc, searching, moving, executing, finishing, Pool, goto, leave, claim}
use libfly.Sched.Workers.{Shared, outside, calling, checking}
use libfly.Sched.Drain.{job_calls}
use libfly.Sched.Pool.Counts.{
  is_it, times, times-snoc, weigh-pop_back, times-erase, shift, at_leave, moves, inside, unadded,
}
use libfly.Sched.Pool.Parts.{part-change, part-other, part-of, sem_of, done_of, sem-post, claim-sem}
use libfly.Sched.Pool.Places.{look-times}
use libfly.Sched.Pool.Turns.{
  Turn, nothing_ready, got_ready, moved, none_running, got_running, took, none_free, task_called,
  unknown, called, batch_ended, found_done, found_open, completed, removed, finished, posted,
  asleep, woken,
}

-- The threads in the loop over a batch of job `k`.
abbrev pub loops_on : ℕ → PoolPc → ℕ
loops_on k (executing sleepy j (calling cs)) = is_it k j
loops_on k _ = 0

-- What holds of a task `k` of `nb` batches with `n` threads.
pub record Taken (n k nb : ℕ) (ready running : List ℕ) (added : Bool) (pc : ℕ → PoolPc)
    (done sem : ℕ) : Type 0 where
  pub no_loop : total (loops_on k) n pc ≡ 0
  -- It counts as done from the moment when it is taken.
  pub claimed : 0 < total (moves k) n pc + total (inside k) n pc + times k running → done ≡ nb
  pub somewhere :
      0 < times k ready + total (moves k) n pc + total (inside k) n pc + sem + unadded added

module _ (jobs : ℕ → Job) (tasks : ℕ → Task) (n k : ℕ)
    (is_task : ((jobs k).jtype == task) ≡ true) where
  abbrev pub TaskInv : Pool → Type 0
  TaskInv s =
      Taken n k (jobs k).nbbatches s.ready_jobs s.running_jobs (s.added k) s.pc
        (s.shared k).batches_done (s.shared k).sem

  -- It is no parallel for.
  pub not_it : (j : ℕ) → is_for (jobs j) ≡ true → is_it k j ≡ 0
  not_it j loops = elim (Bool-cases (j == k)) [
    | inl same ↦
        let e : j ≡ k = ground arith in
        let loops_k : is_for (jobs k) ≡ true = ap (λ j. is_for (jobs j)) (sym e) ∙ loops in
        absurd (ground arith)
    | inr other ↦ rw other refl
  ]

  claim-done :
      (s : Pool) (j : ℕ)
      → 0 < is_it k j
      → (change s.shared j (claim (jobs j) (s.shared j)) k).batches_done ≡ (jobs k).nbbatches
  claim-done s j it =
      let e : j ≡ k = ground arith in
      let is_task' : ((jobs j).jtype == task) ≡ true =
        ap (λ j. (jobs j).jtype == task) e ∙ is_task in
      part-of done_of s.shared j (claim (jobs j) (s.shared j)) k it
      ∙ rw is_task' refl
      ∙ ap (λ j. (jobs j).nbbatches) e

  module _ (s : Pool) (i : ℕ) {p : PoolPc} (lt : i < n) (e : s.pc i ≡ p) (inv : TaskInv s) where
    -- A thread that keeps the job that it has.
    keeps :
        (q : PoolPc) (shared : ℕ → Shared)
        → (moves k p ≡ 0) × (moves k q ≡ 0)
        → inside k q ≡ inside k p
        → loops_on k q ≤ loops_on k p
        → (shared k).batches_done ≡ (s.shared k).batches_done
        → (shared k).sem ≡ (s.shared k).sem
        → TaskInv (goto (record s { shared = shared }) i q)
    keeps q shared (no_move, no_move') same fewer done sem =
        let m = shift (moves k) s.pc q lt e in
        let r = shift (inside k) s.pc q lt e in
        record {
          no_loop = omega (arith, inv.no_loop, shift (loops_on k) s.pc q lt e);
          claimed = λ h. omega (arith, inv.claimed, m, r, done);
          somewhere = omega (arith, inv.somewhere, m, r, sem);
        }

    keeps_at :
        (q : PoolPc) (j : ℕ) (sh : Shared)
        → (moves k p ≡ 0) × (moves k q ≡ 0)
        → inside k q ≡ inside k p
        → loops_on k q ≤ loops_on k p
        → sh.batches_done ≡ (s.shared j).batches_done
        → sh.sem ≡ (s.shared j).sem
        → TaskInv (goto (record s { shared = change s.shared j sh }) i q)
    keeps_at q j sh no_move same fewer done sem =
        keeps q (change s.shared j sh) no_move same fewer (part-change done_of s.shared j sh k done)
          (part-change sem_of s.shared j sh k sem)

  -- Nobody finds it open.
  open-ne :
      (s : Pool) (j : ℕ)
      → ((s.shared j).batches_done == (jobs j).nbbatches) ≡ false
      → 0 < is_it k j
      → (s.shared k).batches_done ≢ (jobs k).nbbatches
  open-ne s j more it done =
      let e : j ≡ k = ground arith in
      let more' = ap (λ j. (s.shared j).batches_done == (jobs j).nbbatches) (sym e) ∙ more in
      ground (arith, more')

  pub turn-TaskInv :
      (ok : Bool) (i : ℕ) (s : Pool) (p : PoolPc) (t : Pool)
      → i < n
      → s.pc i ≡ p
      → Turn jobs tasks ok i s p t
      → TaskInv s
      → TaskInv t
  turn-TaskInv ok i s p t lt e (got_ready rest j (x, xs, ready, popped)) inv =
      let m = shift (moves k) s.pc (moving j) lt e in
      let r = shift (inside k) s.pc (moving j) lt e in
      let cl = claim (jobs j) (s.shared j) in
      let one_less : times k s.ready_jobs ≡ is_it k j + times k rest =
        ap (times k) ready
        ∙ weigh-pop_back (is_it k) x xs
        ∙ ap (λ (out : ℕ × List ℕ). is_it k out.0 + times k out.1) popped in
      record {
        no_loop = omega (arith, inv.no_loop, shift (loops_on k) s.pc (moving j) lt e);
        claimed = λ h. elim (dec_lt 0 (is_it k j)) [
          | yes it ↦ claim-done s j it
          | no not_it ↦ elim (part-other done_of s.shared j cl k) [
            | inl same ↦ omega (arith, inv.claimed, m, r, same)
            | inr it ↦ absurd (not_it it)
          ]
        ];
        somewhere = omega (
          arith,
          inv.somewhere,
          m,
          r,
          one_less,
          part-change sem_of s.shared j (claim (jobs j) (s.shared j)) k
              (claim-sem (jobs j) (s.shared j)),
        );
      }
  turn-TaskInv ok i s p t lt e (moved j running pending cases all more few) inv =
      let m = shift (moves k) s.pc (executing false j outside) lt e in
      let r = shift (inside k) s.pc (executing false j outside) lt e in
      let added : times k running ≤ times k s.running_jobs + is_it k j = elim cases [
        | inl same ↦ omega (arith, ap (times k) same)
        | inr longer ↦ omega (arith, ap (times k) longer, times-snoc k j s.running_jobs)
      ] in
      record {
        no_loop =
            omega (arith, inv.no_loop, shift (loops_on k) s.pc (executing false j outside) lt e);
        claimed = λ h. omega (arith, inv.claimed, m, r, added);
        somewhere = omega (arith, inv.somewhere, m, r);
      }
  turn-TaskInv ok i s p t lt e (got_running j found some) inv =
      let m = shift (moves k) s.pc (executing false j outside) lt e in
      let r = shift (inside k) s.pc (executing false j outside) lt e in
      record {
        no_loop =
            omega (arith, inv.no_loop, shift (loops_on k) s.pc (executing false j outside) lt e);
        claimed = λ h. omega (arith, inv.claimed, m, r, look-times jobs tasks s j k found some);
        somewhere = omega (arith, inv.somewhere, m, r);
      }
  turn-TaskInv ok i s p t lt e (took sl j b bs loops first) inv =
      keeps_at s i lt e inv (executing false j (calling (job_calls (jobs j) b))) j
        (record (s.shared j) { batches = bs }) (refl, refl) refl (omega (arith, not_it j loops))
        refl refl
  turn-TaskInv ok i s p t lt e (batch_ended sl j) inv =
      let sh = record (s.shared j) { batches_done = (s.shared j).batches_done + 1 } in
      keeps s i lt e inv (executing sl j checking) (change s.shared j sh) (refl, refl) refl
        (omega arith)
        (elim (part-other done_of s.shared j sh k) [
          | inl same ↦ same
          | inr it ↦ absurd (omega (arith, it, inv.no_loop, shift (loops_on k) s.pc searching lt e))
        ])
        (part-change sem_of s.shared j sh k refl)
  turn-TaskInv ok i s p t lt e (found_open sl j more) inv =
      let m = shift (moves k) s.pc (leave sl) lt e in
      let r = shift (inside k) s.pc (leave sl) lt e in
      let no_move = at_leave (moves k) sl refl refl in
      let out = at_leave (inside k) sl refl refl in
      let no_loop = at_leave (loops_on k) sl refl refl in
      let other : is_it k j ≡ 0 = elim (dec_lt 0 (is_it k j)) [
        | yes it ↦ absurd (open-ne s j more it (omega (arith, inv.claimed, r)))
        | no not_it ↦ omega (arith, not_it)
      ] in
      record {
        no_loop = omega (arith, inv.no_loop, no_loop, shift (loops_on k) s.pc (leave sl) lt e);
        claimed = λ h. omega (arith, inv.claimed, m, r, no_move, out);
        somewhere = omega (arith, inv.somewhere, m, r, no_move, out, other);
      }
  turn-TaskInv ok i s p t lt e (posted sl j) inv =
      let m = shift (moves k) s.pc (leave sl) lt e in
      let r = shift (inside k) s.pc (leave sl) lt e in
      let sh = record (s.shared j) { sem = (s.shared j).sem + 1 } in
      let done = part-change done_of s.shared j sh k refl in
      let no_move = at_leave (moves k) sl refl refl in
      let out = at_leave (inside k) sl refl refl in
      let no_loop = at_leave (loops_on k) sl refl refl in
      record {
        no_loop = omega (arith, inv.no_loop, no_loop, shift (loops_on k) s.pc (leave sl) lt e);
        claimed = λ h. omega (arith, inv.claimed, m, r, no_move, out, done);
        somewhere = omega (arith, inv.somewhere, m, r, no_move, out, sem-post s.shared j k);
      }
  turn-TaskInv ok i s p t lt e (removed sl j) inv =
      let m = shift (moves k) s.pc (finishing sl j) lt e in
      let r = shift (inside k) s.pc (finishing sl j) lt e in
      let fewer = times-erase k j s.running_jobs in
      record {
        no_loop = omega (arith, inv.no_loop, shift (loops_on k) s.pc (finishing sl j) lt e);
        claimed = λ h. omega (arith, inv.claimed, m, r, fewer.0);
        somewhere = omega (arith, inv.somewhere, m, r);
      }
  turn-TaskInv ok i s p t lt e (asleep no_post) inv = inv
  turn-TaskInv ok i s p t lt e (nothing_ready none_left) inv =
      keeps s i lt e inv _ s.shared (refl, refl) refl (omega arith) refl refl
  turn-TaskInv ok i s p t lt e (none_running none_left) inv =
      keeps s i lt e inv _ s.shared (refl, refl) refl (omega arith) refl refl
  turn-TaskInv ok i s p t lt e (unknown sl j not) inv =
      keeps s i lt e inv _ s.shared (refl, refl) refl (omega arith) refl refl
  turn-TaskInv ok i s p t lt e (found_done sl j done) inv =
      keeps s i lt e inv _ s.shared (refl, refl) refl (omega arith) refl refl
  turn-TaskInv ok i s p t lt e (completed sl j) inv =
      keeps s i lt e inv _ s.shared (refl, refl) refl (omega arith) refl refl
  turn-TaskInv ok i s p t lt e (finished sl j l) inv =
      keeps s i lt e inv _ s.shared (refl, refl) refl (omega arith) refl refl
  turn-TaskInv ok i s p t lt e (woken c post) inv =
      keeps s i lt e inv _ s.shared (refl, refl) refl (omega arith) refl refl
  turn-TaskInv ok i s p t lt e (none_free sl j loops none_left) inv =
      keeps_at s i lt e inv (executing true j checking) j (s.shared j) (refl, refl) refl
        (omega arith) refl refl
  turn-TaskInv ok i s p t lt e (task_called sl j c no_loop is its) inv =
      keeps_at s i lt e inv (executing false j checking) j
        (record (s.shared j) { calls = (s.shared j).calls ++ c ∷ [] }) (refl, refl) refl
        (omega arith) refl refl
  turn-TaskInv ok i s p t lt e (called sl j c cs) inv =
      keeps_at s i lt e inv (executing sl j (calling cs)) j
        (record (s.shared j) { calls = (s.shared j).calls ++ c ∷ [] }) (refl, refl) refl
        (omega arith) refl refl
