-- ===== src/Sched/Pool/Onward.antt =====
-- In Sched.Pool, whoever is awake can make some steps after which there is less to do.
use mathlib.Core.Path.{subst}
use libfly.Prelude.{
  ℕ, ◌+◌, ◌-◌, ◌≤◌, ◌<◌, ◌≡◌, refl, sym, ap, ◌∙◌, true, false, [], ◌∷◌, ◌++◌, ◌==◌, inl, inr,
  change, change_at, arith,
}
use libfly.Job.{Job, task}
use libfly.Sched.{Task, is_for}
use libfly.Sched.Workers.{outside, checking}
use libfly.Sched.Pool.{
  PoolPc, executing, removing, finishing, waiting, Pool, act, Step, wake_up, run, Reach, later,
}
use libfly.Sched.Pool.Counts.{times}
use libfly.Sched.Pool.Each.{turn-added}
use libfly.Sched.Pool.Tasks.{Reach-claimed}
use libfly.Sched.Pool.Someone.{IsCut}
use libfly.Sched.Pool.Effort.{effort, left_to_do}
use libfly.Sched.Pool.Less.{Less, stays_on, moves_at}
use libfly.Sched.Pool.Drops.{erases_it, picks_it, posts_one}
use libfly.Sched.Pool.Leads.{Picks, turn-Leads}
use libfly.Sched.Pool.Turns.{
  Turn, act-Turn, took, none_free, task_called, unknown, found_done, found_open, removed,
}

module _ (jobs : ℕ → Job) (tasks : ℕ → Task) (nbworkers : ℕ) where
  -- Some steps, one after the other.
  pub data Steps (s : Pool) : Pool → Type 0 where
    no_step : Steps s s
    and_then : {t u : Pool} → Steps s t → Step jobs tasks nbworkers true t u → Steps s u

  pub Steps-append : {s t u : Pool} → Steps s t → Steps t u → Steps s u
  Steps-append xs no_step = xs
  Steps-append xs (and_then ys y) = and_then (Steps-append xs ys) y

  pub Steps-Reach :
      {s t : Pool}
      → Reach jobs tasks nbworkers true s
      → Steps s t
      → Reach jobs tasks nbworkers true t
  Steps-Reach r no_step = r
  Steps-Reach r (and_then xs x) = later (Steps-Reach r xs) x

  -- Thread `i` goes to `p`, and nobody else does anything to the running list.
  record Goes (s : Pool) (i : ℕ) (p : PoolPc) (t : Pool) : Type 0 where
    at : t.pc i ≡ p
    less : Less jobs nbworkers t s
    same_list : t.running_jobs ≡ s.running_jobs
    same_jobs : t.added ≡ s.added

  module _ (s : Pool) (i j : ℕ) (lt : i < nbworkers + nbworkers)
      (is_task : ((jobs j).jtype == task) ≡ true) where
    call-Goes :
        (t : Pool)
        → s.pc i ≡ executing false j outside
        → Turn jobs tasks true i s (executing false j outside) t
        → Goes s i (executing false j checking) t
    call-Goes t e (took sl k b bs loops first) = absurd (ground arith)
    call-Goes t e (none_free sl k loops none_left) = absurd (ground arith)
    call-Goes t e (unknown sl k no_type) = absurd (ground arith)
    call-Goes t e (task_called sl k c no_loop is its) = record {
      at = change_at s.pc i (executing false j checking);
      less =
          moves_at jobs nbworkers s i lt e (executing false j checking) j
            (record (s.shared j) { calls = (s.shared j).calls ++ c ∷ [] }) refl
            (omega (arith, task_effort));
      same_list = refl;
      same_jobs = refl;
    }
      where
        task_effort : effort jobs nbworkers s.shared (executing false j outside) ≡ 12
        task_effort = rw is_task refl

    check-Goes :
        (t : Pool)
        → s.pc i ≡ executing false j checking
        → (s.shared j).batches_done ≡ (jobs j).nbbatches
        → Turn jobs tasks true i s (executing false j checking) t
        → Goes s i (removing false j) t
    check-Goes t e done (found_open sl k more) = absurd (ground (arith, done))
    check-Goes t e done (found_done sl k is_done) = record {
      at = change_at s.pc i (removing false j);
      less = stays_on jobs nbworkers s i lt e (removing false j) (omega arith);
      same_list = refl;
      same_jobs = refl;
    }

    remove-Goes :
        (t : Pool)
        → s.pc i ≡ removing false j
        → 0 < times j s.running_jobs
        → Turn jobs tasks true i s (removing false j) t
        → (left_to_do jobs nbworkers t + 5 ≤ left_to_do jobs nbworkers s) × (t.added ≡ s.added)
    remove-Goes t e in_list (removed sl k) =
        (erases_it jobs nbworkers s i j (finishing false j) lt e (omega arith) in_list, refl)

  -- The next step of thread `i`, which stands at `p`.
  turn_of :
      (s : Pool) (i : ℕ) (p : PoolPc)
      → s.pc i ≡ p
      → Turn jobs tasks true i s p (act jobs tasks true i (s.pc i) s)
  turn_of s i p e =
      subst (λ q. Turn jobs tasks true i s q (act jobs tasks true i (s.pc i) s)) e
        (act-Turn jobs tasks true i s (s.pc i))

  one_run :
      (s : Pool) (i : ℕ)
      → i < nbworkers + nbworkers
      → Step jobs tasks nbworkers true s (act jobs tasks true i (s.pc i) s)
  one_run s i lt = run true i lt (λ _. refl)

  -- Some steps lead to less to do.
  abbrev pub Onward : Pool → Type 0
  Onward s = (t : Pool) × Steps s t × Less jobs nbworkers t s × (t.added ≡ s.added)

  -- A task that is picked from the running list leaves it.
  picked-Onward :
      (s : Pool) (i : ℕ)
      → i < nbworkers + nbworkers
      → Reach jobs tasks nbworkers true s
      → Picks jobs s i (act jobs tasks true i (s.pc i) s)
      → Onward s
  picked-Onward s i lt r picks =
      let j = picks.job in
      let s1 : Pool = act jobs tasks true i (s.pc i) s in
      let s2 : Pool = act jobs tasks true i (s1.pc i) s1 in
      let s3 : Pool = act jobs tasks true i (s2.pc i) s2 in
      let s4 : Pool = act jobs tasks true i (s3.pc i) s3 in
      let at1 : s1.pc i ≡ executing false j outside =
        ap (λ (t : Pool). t.pc i) picks.picked ∙ change_at s.pc i (executing false j outside) in
      let more : left_to_do jobs nbworkers s1 ≤ left_to_do jobs nbworkers s + 6 =
        subst (λ t. left_to_do jobs nbworkers t ≤ left_to_do jobs nbworkers s + 6)
          (sym picks.picked) (picks_it jobs nbworkers s i j lt picks.was) in
      let list1 : s1.running_jobs ≡ s.running_jobs =
        ap (λ (t : Pool). t.running_jobs) picks.picked in
      let jobs1 : s1.added ≡ s.added = ap (λ (t : Pool). t.added) picks.picked in
      let to2 =
        call-Goes s1 i j lt picks.is_task s2 at1 (turn_of s1 i (executing false j outside) at1) in
      let steps2 : Steps s s2 = and_then (and_then no_step (one_run s i lt)) (one_run s1 i lt) in
      let in_list2 : 0 < times j s2.running_jobs =
        omega (arith, picks.in_list, ap (times j) (to2.same_list ∙ list1)) in
      let done = Reach-claimed jobs tasks j picks.is_task (Steps-Reach r steps2) in_list2 in
      let to3 =
        check-Goes s2 i j lt picks.is_task s3 to2.at done
          (turn_of s2 i (executing false j checking) to2.at) in
      let in_list3 : 0 < times j s3.running_jobs =
        omega (arith, in_list2, ap (times j) to3.same_list) in
      let to4 =
        remove-Goes s3 i j lt picks.is_task s4 to3.at in_list3
          (turn_of s3 i (removing false j) to3.at) in
      (
        s4,
        and_then (and_then steps2 (one_run s2 i lt)) (one_run s3 i lt),
        omega (arith, to4.0, to3.less, to2.less, more),
        to4.1 ∙ to3.same_jobs ∙ to2.same_jobs ∙ jobs1,
      )

  module _ (cut : (j : ℕ) → is_for (jobs j) ≡ true → IsCut (jobs j)) where
    -- A thread that does not sleep, or that has been posted, makes some steps.
    pub run-Onward :
        (s : Pool) (i : ℕ)
        → i < nbworkers + nbworkers
        → Reach jobs tasks nbworkers true s
        → (s.pc i ≡ waiting → 0 < s.sem i)
        → Onward s
    run-Onward s i lt r awake =
        elim (turn-Leads jobs tasks cut r i (s.pc i) (act jobs tasks true i (s.pc i) s) lt refl
          awake (act-Turn jobs tasks true i s (s.pc i))) [
            | inl less ↦ (
              act jobs tasks true i (s.pc i) s,
              and_then no_step (one_run s i lt),
              less,
              turn-added jobs tasks nbworkers true i s (s.pc i) _
                  (act-Turn jobs tasks true i s (s.pc i)),
            )
            | inr picks ↦ picked-Onward s i lt r picks
          ]

    pub post-Onward : (s : Pool) (w : ℕ) → w < nbworkers → 0 < s.pending w → Onward s
    post-Onward s w lt left = (
      record s {
        pending = change s.pending w (s.pending w - 1);
        sem = change s.sem (w + w) (s.sem (w + w) + 1);
      },
      and_then no_step (wake_up w (w + w) lt left (inl refl)),
      posts_one jobs nbworkers s w (w + w) lt (omega arith) left,
      refl,
    )
