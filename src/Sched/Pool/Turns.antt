-- ===== src/Sched/Pool/Turns.antt =====
-- The steps of a thread of Sched.Pool, one by one: what each of them changes, and when it is taken.
use libfly.Prelude.{
  ℕ, zero, suc, ◌+◌, ◌≤◌, ◌≡◌, refl, Bool, true, false, none, List, [], ◌∷◌, ◌++◌, ◌==◌,
  if◌then◌else◌, Bool-cases, Option-cases, ◌⊎◌, some, inl, inr, change, arith,
}
use libfly.Memory.{null}
use libfly.FlyList.View.{erase, pop_back}
use libfly.Job.{Job, task, Batch, get_exec_batch}
use libfly.Sched.{Task, Call, task_call, is_for}
use libfly.Sched.Drain.{job_calls}
use libfly.Sched.Workers.{Shared, outside, calling, checking, completing, turn, take}
use libfly.Sched.Pool.{
  PoolPc, searching, moving, looking, executing, removing, finishing, posting, waiting, Pool, goto,
  leave, claim, is_known, belongs, search, move, look, enter, call, check, post, wake, act,
}

module _ (jobs : ℕ → Job) (tasks : ℕ → Task) (ok : Bool) (i : ℕ) (s : Pool) where
  -- `s` with job `j` and thread `i` changed.
  abbrev pub with_job : (j : ℕ) → Shared → PoolPc → Pool
  with_job j sh p = goto (record s { shared = change s.shared j sh }) i p

  -- The call of the function of the task of job `j`.
  abbrev its_call : ℕ → Call
  its_call j = let t = tasks (jobs j).arg in task_call t.func t.param

  -- `Turn p t`: from `p`, thread `i` leads to `t`.
  pub data Turn : PoolPc → Pool → Type 0 where
    nothing_ready : s.ready_jobs ≡ [] → Turn searching (goto s i looking)
    got_ready :
        (rest : List ℕ) (j : ℕ)
        → ((x : ℕ) × (xs : List ℕ) × (s.ready_jobs ≡ x ∷ xs) × (pop_back (x ∷ xs) ≡ (j, rest)))
        → Turn searching (
            goto
              (record s {
                ready_jobs = rest;
                shared = change s.shared j (claim (jobs j) (s.shared j));
              })
              i
              (moving j))
    moved :
        (j : ℕ) (running : List ℕ) (pending : ℕ → ℕ)
        → ((running ≡ s.running_jobs) ⊎ (running ≡ s.running_jobs ++ j ∷ []))
        → (is_known (jobs j) ≡ true → ok ≡ true → running ≡ s.running_jobs ++ j ∷ [])
        → ((w : ℕ) → s.pending w ≤ pending w)
        → ((w : ℕ) → pending w ≤ s.pending w + 1)
        → Turn (moving j) (
            goto
              (record s { running_jobs = running; pending = pending })
              i
              (executing false j outside))
    none_running : (look jobs tasks s == null) ≡ true → Turn looking (goto s i waiting)
    got_running :
        (j : ℕ)
        → j ≡ look jobs tasks s
        → (j == null) ≡ false
        → Turn looking (goto s i (executing false j outside))
    took :
        (sleepy : Bool) (j : ℕ) (b : Batch) (bs : List Batch)
        → is_for (jobs j) ≡ true
        → get_exec_batch (s.shared j).batches ≡ some (b, bs)
        → Turn (executing sleepy j outside) (
            with_job j
              (record (s.shared j) { batches = bs })
              (executing false j (calling (job_calls (jobs j) b))))
    none_free :
        (sleepy : Bool) (j : ℕ)
        → is_for (jobs j) ≡ true
        → get_exec_batch (s.shared j).batches ≡ none
        → Turn (executing sleepy j outside) (with_job j (s.shared j) (executing true j checking))
    task_called :
        (sleepy : Bool) (j : ℕ) (c : Call)
        → is_for (jobs j) ≡ false
        → ((jobs j).jtype == task) ≡ true
        → c ≡ its_call j
        → Turn (executing sleepy j outside) (
            with_job j
              (record (s.shared j) { calls = (s.shared j).calls ++ c ∷ [] })
              (executing false j checking))
    unknown :
        (sleepy : Bool) (j : ℕ)
        → is_known (jobs j) ≡ false
        → Turn (executing sleepy j outside) (goto s i (executing true j checking))
    called :
        (sleepy : Bool) (j : ℕ) (c : Call) (cs : List Call)
        → Turn (executing sleepy j (calling (c ∷ cs))) (
            with_job j
              (record (s.shared j) { calls = (s.shared j).calls ++ c ∷ [] })
              (executing sleepy j (calling cs)))
    batch_ended :
        (sleepy : Bool) (j : ℕ)
        → Turn (executing sleepy j (calling [])) (
            with_job j
              (record (s.shared j) { batches_done = (s.shared j).batches_done + 1 })
              (executing sleepy j checking))
    found_done :
        (sleepy : Bool) (j : ℕ)
        → (s.shared j).batches_done ≡ (jobs j).nbbatches
        → Turn (executing sleepy j checking) (goto s i (removing sleepy j))
    found_open :
        (sleepy : Bool) (j : ℕ)
        → ((s.shared j).batches_done == (jobs j).nbbatches) ≡ false
        → Turn (executing sleepy j checking) (goto s i (leave sleepy))
    completed :
        (sleepy : Bool) (j : ℕ)
        → Turn (executing sleepy j completing) (goto s i (removing sleepy j))
    removed :
        (sleepy : Bool) (j : ℕ)
        → Turn
            (removing sleepy j)
            (goto (record s { running_jobs = erase j s.running_jobs }) i (finishing sleepy j))
    finished :
        (sleepy : Bool) (j : ℕ) (done_jobs : List ℕ)
        → Turn (finishing sleepy j) (goto (record s { done_jobs = done_jobs }) i (posting sleepy j))
    posted :
        (sleepy : Bool) (j : ℕ)
        → Turn
            (posting sleepy j)
            (with_job j (record (s.shared j) { sem = (s.shared j).sem + 1 }) (leave sleepy))
    asleep : s.sem i ≡ 0 → Turn waiting s
    woken :
        (c : ℕ)
        → s.sem i ≡ suc c
        → Turn waiting (goto (record s { sem = change s.sem i c }) i searching)

  search-Turn : (xs : List ℕ) → s.ready_jobs ≡ xs → Turn searching (search jobs tasks i xs s)
  unfolding search
  search-Turn [] e = nothing_ready e
  search-Turn (x ∷ xs) e = let (j, rest) = pop_back (x ∷ xs) in got_ready rest j (x, xs, e, refl)

  enter-Turn : (sleepy : Bool) (j : ℕ) → Turn (executing sleepy j outside) (enter jobs tasks i j s)
  unfolding enter turn take
  enter-Turn sleepy j = elim (Bool-cases (is_for (jobs j))) [
    | inl loops ↦ elim (Option-cases (get_exec_batch (s.shared j).batches)) [
      | inl none_left ↦ rw (loops, none_left) (none_free sleepy j loops none_left)
      | inr ((b, bs), first) ↦ rw (loops, first) (took sleepy j b bs loops first)
    ]
    | inr no_loop ↦ elim (Bool-cases ((jobs j).jtype == task)) [
      | inl is_task ↦ rw (no_loop, is_task) (task_called sleepy j _ no_loop is_task refl)
      | inr neither ↦ rw (no_loop, neither) (unknown sleepy j (rw (no_loop, neither) refl))
    ]
  ]

  -- The running list after `fly_sched_move_to_running`.
  abbrev put : ℕ → List ℕ
  put j = if ok then s.running_jobs ++ j ∷ [] else s.running_jobs

  put-cases : (j : ℕ) → (put j ≡ s.running_jobs) ⊎ (put j ≡ s.running_jobs ++ j ∷ [])
  put-cases j = elim (Bool-cases ok) [
    | inl room ↦ inr (rw room refl)
    | inr no_room ↦ inl (rw no_room refl)
  ]

  put-roomy : (j : ℕ) → ok ≡ true → put j ≡ s.running_jobs ++ j ∷ []
  put-roomy j room = rw room refl

  move-Turn :
      (j : ℕ) → Turn (moving j) (goto (move jobs tasks ok i j s) i (executing false j outside))
  unfolding move
  move-Turn j = elim (Bool-cases (is_for (jobs j))) [
    | inl loops ↦
        let pending : ℕ → ℕ = λ w. if belongs i w then s.pending w else s.pending w + 1 in
        rw loops (
          moved j (put j) pending (put-cases j) (λ known. put-roomy j) (λ w. ground arith)
            (λ w. ground arith))
    | inr no_loop ↦ elim (Bool-cases ((jobs j).jtype == task)) [
      | inl is_task ↦
          rw (no_loop, is_task)
            (moved j (put j) s.pending (put-cases j) (λ known. put-roomy j) (λ w. omega arith)
              (λ w. omega arith))
      | inr neither ↦
          rw (no_loop, neither)
            (moved j s.running_jobs s.pending (inl refl) (λ known. absurd (ground arith))
              (λ w. omega arith) (λ w. omega arith))
    ]
  ]

  look-Turn : Turn looking (
      goto s i (
        if look jobs tasks s == null then waiting else executing false (look jobs tasks s) outside))
  look-Turn = elim (Bool-cases (look jobs tasks s == null)) [
    | inl none_left ↦ rw none_left (none_running none_left)
    | inr found ↦ rw found (got_running (look jobs tasks s) refl found)
  ]

  check-Turn :
      (sleepy : Bool) (j : ℕ) → Turn (executing sleepy j checking) (check jobs tasks i sleepy j s)
  unfolding check
  check-Turn sleepy j = elim (Bool-cases ((s.shared j).batches_done == (jobs j).nbbatches)) [
    | inl done ↦ rw done (found_done sleepy j (ground arith))
    | inr more ↦ rw more (found_open sleepy j more)
  ]

  wake-Turn : (c : ℕ) → s.sem i ≡ c → Turn waiting (wake jobs tasks i c s)
  unfolding wake
  wake-Turn zero e = asleep e
  wake-Turn (suc c) e = woken c e

  -- Every step of a thread is one of these.
  pub act-Turn : (p : PoolPc) → Turn p (act jobs tasks ok i p s)
  unfolding act call turn post
  act-Turn searching = search-Turn s.ready_jobs refl
  act-Turn (moving j) = move-Turn j
  act-Turn looking = look-Turn
  act-Turn (executing sleepy j outside) = enter-Turn sleepy j
  act-Turn (executing sleepy j (calling [])) = batch_ended sleepy j
  act-Turn (executing sleepy j (calling (c ∷ cs))) = called sleepy j c cs
  act-Turn (executing sleepy j checking) = check-Turn sleepy j
  act-Turn (executing sleepy j completing) = completed sleepy j
  act-Turn (removing sleepy j) = removed sleepy j
  act-Turn (finishing sleepy j) = finished sleepy j _
  act-Turn (posting sleepy j) = posted sleepy j
  act-Turn waiting = wake-Turn (s.sem i) refl
