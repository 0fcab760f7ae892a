-- ===== src/Sched/Workers/Once.antt =====
-- What any number of threads do together with one parallel for (Sched.Workers).
use mathlib.Core.List.{append-nil}
use libfly.Prelude.{
  weigh, ℕ, ◌+◌, ◌≤◌, ◌<◌, ◌≡◌, refl, sym, ap, ◌∙◌, none, some, List, [], ◌∷◌, map, arith, length,
  total, total-zero_with, total-zero, ◌++◌, inl, inr, some,
}
use libfly.Prelude.Int.{Spans, range}
use libfly.Errors.{success}
use libfly.Malloc.{Memory, Enough}
use libfly.Job.{Job, Batch, get_exec_batch, make_batches, parallel_for}
use libfly.Job.Batches.{Makes, made, make_batches-even}
use libfly.Sched.Calls.{ptr_call, all_calls-ptr}
use libfly.Sched.Parallel.{job_of}
use libfly.Job.Indices.{Fresh, all_indices}
use libfly.Sched.{Call}
use libfly.Sched.Drain.{all_calls, mark, get_exec_batch-first, get_exec_batch-taken}
use libfly.Sched.Workers.{Pc, outside, calling, checking, completing, System, Reach}
use libfly.Sched.Workers.Invariant.{to_make, busy, tests, Reach-Divided, split_left}

-- No call is made twice: at every moment, whatever weight is given to the calls, those that were
-- made weigh at most as much as those of all batches.
pub calls_at_most_once :
    {n : ℕ} {job : Job} {s : System} (w : Call → ℕ)
    → Fresh job.batches
    → length job.batches ≡ job.nbbatches
    → Reach n job s
    → weigh w s.shared.calls ≤ weigh w (all_calls job job.batches)
calls_at_most_once w fresh count r =
    let (taken, left, inv) = Reach-Divided w fresh count r in omega (arith, inv.weight)

some-ne-none {ℓ} : {A : Type ℓ} {a : A} → some a ≡ none → ⊥
some-ne-none e = cc

module _ {n : ℕ} {job : Job} {s : System} (r : Reach n job s) (fresh : Fresh job.batches)
    (count : length job.batches ≡ job.nbbatches) where
  none_left :
      (left : List Batch) → length left ≡ 0 → (w : Call → ℕ) → weigh w (all_calls job left) ≡ 0
  unfolding all_calls weigh
  none_left [] e w = refl
  none_left (b ∷ bs) e w = absurd (omega arith)

  idle_weight : (w : Call → ℕ) (p : Pc) → busy p ≡ 0 → to_make w p ≡ 0
  idle_weight w outside e = refl
  idle_weight w (calling left) e = absurd (omega arith)
  idle_weight w checking e = refl
  idle_weight w completing e = refl

  -- Once all batches are counted as done, every call has been made.
  pub done-all_called :
      (w : Call → ℕ)
      → s.shared.batches_done ≡ job.nbbatches
      → weigh w s.shared.calls ≡ weigh w (all_calls job job.batches)
  done-all_called w done =
      let (taken, left, inv) = Reach-Divided w fresh count r in
      let nobody : total busy n s.pc ≡ 0 = omega (arith, inv.in_hand, inv.count) in
      let nothing : length left ≡ 0 = omega (arith, inv.in_hand, inv.count) in
      omega (
        arith,
        inv.weight,
        none_left left nothing w,
        total-zero_with busy (to_make w) n s.pc (idle_weight w) nobody,
      )

  pub posted-done : 0 < s.shared.sem → s.shared.batches_done ≡ job.nbbatches
  posted-done posted =
      let (taken, left, inv) = Reach-Divided (λ _. 0) fresh count r in omega (arith, inv.posted)

  -- A job that any number of threads run, interleaved in any order, whose batches are at first all
  -- unexecuted, as many as `nbbatches` says, and at least one: once no batch is left to hand out and
  -- every thread is out of `fly_sched_exec_job` again, its semaphore has been posted, so that whoever
  -- waits for the job is woken.
  finished-posted :
      ((i : ℕ) → s.pc i ≡ outside)
      → get_exec_batch s.shared.batches ≡ none
      → 0 < job.nbbatches
      → 0 < s.shared.sem
  finished-posted out none_free some_batch =
      let (taken, left, inv) = Reach-Divided (λ _. 0) fresh count r in
      elim (split_left left) [
        | inl nil ↦
            let nothing : length left ≡ 0 = ap length nil in
            let nobody : total busy n s.pc ≡ 0 = total-zero busy s.pc (λ i. ap busy (out i)) n in
            let no_test : total tests n s.pc ≡ 0 =
              total-zero tests s.pc (λ i. ap tests (out i)) n in
            omega (arith, inv.will_post, inv.in_hand, inv.count)
        | inr (b, bs, more) ↦
            let fresh' : Fresh (b ∷ bs) = rw more at inv.fresh in
            let first =
              ap get_exec_batch (inv.batches ∙ ap (λ left. map mark taken ++ left) more)
              ∙ get_exec_batch-first taken b bs fresh'.0 in
            absurd (some-ne-none (sym first ∙ none_free))
      ]

  -- Once all batches are done there is none to hand out.
  pub done-none_free :
      s.shared.batches_done ≡ job.nbbatches → get_exec_batch s.shared.batches ≡ none
  done-none_free done =
      let (taken, left, inv) = Reach-Divided (λ _. 0) fresh count r in
      elim (split_left left) [
        | inl nil ↦
            ap get_exec_batch (inv.batches ∙ rw nil (append-nil (map mark taken)))
            ∙ get_exec_batch-taken taken
        | inr (b, bs, more) ↦ absurd (omega (arith, ap length more, inv.in_hand, inv.count))
      ]

module _ (idle job : Job) (c nbbatches : ℕ) (m m' : Memory)
    (cut : make_batches idle nbbatches m ≡ some (success, job, m')) (none_yet : idle.batches ≡ [])
    (calls : Spans idle.start idle.end c) (some_batch : 0 < nbbatches)
    (enough : Enough (nbbatches + nbbatches) m.answers) (le : nbbatches ≤ c) where
  abbrev batches : Makes idle nbbatches m (range idle.start c)
  batches = make_batches-even idle c nbbatches none_yet calls some_batch m enough le

  pub is_made : job ≡ made idle nbbatches batches.bs
  is_made = ap (job_of idle) (sym cut ∙ batches.runs)

  cut-Fresh : Fresh job.batches
  cut-Fresh = rw (ap (λ (x : Job). x.batches) is_made) batches.fresh

  cut-count : length job.batches ≡ job.nbbatches
  cut-count =
      ap (λ (x : Job). length x.batches) is_made
      ∙ batches.count
      ∙ sym (ap (λ (x : Job). x.nbbatches) is_made)

  cut-all_calls :
      idle.jtype ≡ parallel_for
      → all_calls job job.batches ≡ map (ptr_call job) (range idle.start c)
  cut-all_calls e =
      all_calls-ptr job job.batches (ap (λ (x : Job). x.jtype) is_made ∙ e)
      ∙ ap (map (ptr_call job)) (ap (λ (x : Job). all_indices x.batches) is_made ∙ batches.indices)

  -- A job of `fly_parallel_for` with `c` calls, a number that an `int` holds, and no batches yet, cut by `fly_make_batches` into
  -- between 1 and `c` batches, where memory suffices for them. Any number of threads run it, interleaved
  -- call by call in any order: as soon as the semaphore that `fly_wait_job` waits on is posted, the
  -- client's function has been called exactly once for each of the `c` indices from `start` on, and for
  -- no other: under every weight, the calls weigh as much as those.
  pub parallel_for-exactly_once :
      {n : ℕ} {s : System} (w : Call → ℕ)
      → idle.jtype ≡ parallel_for
      → Reach n job s
      → 0 < s.shared.sem
      → weigh w s.shared.calls ≡ weigh w (map (ptr_call job) (range idle.start c))
  parallel_for-exactly_once w e r posted =
      done-all_called r cut-Fresh cut-count w (posted-done r cut-Fresh cut-count posted)
      ∙ ap (weigh w) (cut-all_calls e)

  -- The same job at any moment, also before it is posted: under every weight, the calls made so far
  -- weigh at most as much as one for each of the `c` indices from `start` on, so that no index is ever
  -- called twice.
  parallel_for-at_most_once :
      {n : ℕ} {s : System} (w : Call → ℕ)
      → idle.jtype ≡ parallel_for
      → Reach n job s
      → weigh w s.shared.calls ≤ weigh w (map (ptr_call job) (range idle.start c))
  parallel_for-at_most_once w e r =
      omega (arith, calls_at_most_once w cut-Fresh cut-count r, ap (weigh w) (cut-all_calls e))
