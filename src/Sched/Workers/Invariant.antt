-- ===== src/Sched/Workers/Invariant.antt =====
-- What holds of the threads of Sched.Workers at every moment.
use mathlib.Core.List.{append-nil, append_assoc}
use mathlib.Core.Path.{subst}
use libfly.Prelude.{
  ℕ, suc, ◌+◌, ◌≤◌, ◌<◌, ◌≡◌, refl, sym, ap, ◌∙◌, none, some, List, [], ◌∷◌, ◌++◌, map, arith,
  length, length-append, ◌==◌, if◌then◌else◌, Bool-cases, ◌⊎◌, inl, inr, change, total,
  total-change, total-zero, le-total, weigh, weigh-append,
}
use libfly.Job.{Job, Batch, get_exec_batch}
use libfly.Job.Indices.{Fresh}
use libfly.Sched.{Call}
use libfly.Sched.Run.{ptr_calls, arr_calls}
use libfly.Sched.Drain.{
  job_calls, all_calls, mark, get_exec_batch-first, get_exec_batch-taken, map-append_mark,
}
use libfly.Sched.Workers.{
  Shared, Pc, outside, calling, checking, completing, take, turn, System, run, start, Reach, here,
  later,
}

-- The weight of the calls that a thread has still to make.
abbrev pub to_make : (Call → ℕ) → Pc → ℕ
to_make w (calling left) = weigh w left
to_make w _ = 0

-- The threads that have a batch in hand, those that will post or test the job, those that will post.
abbrev pub busy : Pc → ℕ
busy (calling _) = 1
busy _ = 0

abbrev pub tests : Pc → ℕ
tests checking = 1
tests completing = 1
tests _ = 0

abbrev pub posts : Pc → ℕ
posts completing = 1
posts _ = 0

-- `taken` of the batches have been handed out, and `left` have not.
pub record Inv (n : ℕ) (job : Job) (s : Shared) (pc : ℕ → Pc) (w : Call → ℕ)
    (taken left : List Batch) : Type 0 where
  pub batches : s.batches ≡ map mark taken ++ left
  pub fresh : Fresh left
  pub count : length taken + length left ≡ job.nbbatches
  pub in_hand : s.batches_done + total busy n pc ≡ length taken
  pub weight :
      weigh w s.calls + total (to_make w) n pc + weigh w (all_calls job left)
      ≡ weigh w (all_calls job job.batches)
  pub posted : 0 < s.sem + total posts n pc → s.batches_done ≡ job.nbbatches
  pub will_post : s.batches_done ≡ job.nbbatches → 0 < job.nbbatches → 0 < s.sem + total tests n pc

-- Some division of the batches makes the invariant hold.
abbrev pub Divided : (n : ℕ) (job : Job) (s : Shared) (pc : ℕ → Pc) (w : Call → ℕ) → Type 0
Divided n job s pc w = (taken : List Batch) × (left : List Batch) × Inv n job s pc w taken left

pub split_left :
    (left : List Batch) → (left ≡ []) ⊎ ((b : Batch) × (bs : List Batch) × (left ≡ b ∷ bs))
split_left [] = inl refl
split_left (b ∷ bs) = inr (b, bs, refl)

module _ {n : ℕ} {job : Job} {s : Shared} {pc : ℕ → Pc} {w : Call → ℕ} {taken left : List Batch}
    (inv : Inv n job s pc w taken left) (i : ℕ) (lt : i < n) where
  -- Thread `i` moves from `p` to `p'`: how the sums change.
  record Moved (p p' : Pc) : Type 0 where
    busy_to : total busy n (change pc i p') + busy p ≡ total busy n pc + busy p'
    tests_to : total tests n (change pc i p') + tests p ≡ total tests n pc + tests p'
    posts_to : total posts n (change pc i p') + posts p ≡ total posts n pc + posts p'
    to_make_to :
        total (to_make w) n (change pc i p') + to_make w p ≡ total (to_make w) n pc + to_make w p'
    itself : (busy p ≤ total busy n pc) × (posts p ≤ total posts n pc)

  moved : (p p' : Pc) → pc i ≡ p → Moved p p'
  moved p p' e = record {
    busy_to = omega (arith, total-change busy n pc i p' lt, ap busy e);
    tests_to = omega (arith, total-change tests n pc i p' lt, ap tests e);
    posts_to = omega (arith, total-change posts n pc i p' lt, ap posts e);
    to_make_to = omega (arith, total-change (to_make w) n pc i p' lt, ap (to_make w) e);
    itself = (
      omega (arith, le-total busy n pc i lt, ap busy e),
      omega (arith, le-total posts n pc i lt, ap posts e),
    );
  }

  -- The turns that take no batch.
  settled :
      {p p' : Pc} (s' : Shared)
      → Moved p p'
      → s'.batches ≡ s.batches
      → weigh w s'.calls + to_make w p' ≡ weigh w s.calls + to_make w p
      → s'.batches_done + busy p' ≡ s.batches_done + busy p
      → (0 < s'.sem + total posts n (change pc i p') → s'.batches_done ≡ job.nbbatches)
      → (s'.batches_done ≡ job.nbbatches
          → 0 < job.nbbatches
          → 0 < s'.sem + total tests n (change pc i p'))
      → Divided n job s' (change pc i p') w
  settled s' m batches weight done posted will_post = (
    taken,
    left,
    record {
      batches = batches ∙ inv.batches;
      fresh = inv.fresh;
      count = inv.count;
      in_hand = omega (arith, inv.in_hand, m.busy_to, m.itself.0);
      weight = omega (arith, inv.weight, m.to_make_to);
      posted = posted;
      will_post = will_post;
    },
  )

  turn-checking :
      pc i ≡ checking
      → Divided n job s
          (change pc i (if s.batches_done == job.nbbatches then completing else outside))
          w
  turn-checking e = elim (Bool-cases (s.batches_done == job.nbbatches)) [
    | inl done ↦
        let m = moved checking completing e in
        rw done (settled s m refl refl refl (λ h. ground arith) (λ h k. omega (arith, m.tests_to)))
    | inr more ↦
        let m = moved checking outside e in
        rw more (
          settled s m refl refl refl (λ h. omega (arith, inv.posted, m.posts_to))
            (λ h k. absurd (ground arith)))
  ]

  take-none :
      left ≡ []
      → pc i ≡ outside
      → Divided n job
          (take job s (get_exec_batch s.batches)).0
          (change pc i (take job s (get_exec_batch s.batches)).1)
          w
  unfolding take
  take-none nil e =
      let m = moved outside checking e in
      let none_left : get_exec_batch s.batches ≡ none =
        ap get_exec_batch (inv.batches ∙ rw nil (append-nil (map mark taken)))
        ∙ get_exec_batch-taken taken in
      rw none_left (
        settled s m refl refl refl (λ h. omega (arith, inv.posted, m.posts_to))
          (λ h k. omega (arith, inv.will_post, m.tests_to)))

  -- The calls of the first batch that is left, and those of the others.
  taken_weight :
      (b : Batch) (bs : List Batch)
      → left ≡ b ∷ bs
      → weigh w (all_calls job left) ≡ weigh w (job_calls job (mark b)) + weigh w (all_calls job bs)
  unfolding all_calls job_calls ptr_calls arr_calls
  taken_weight b bs more =
      ap (λ left. weigh w (all_calls job left)) more
      ∙ weigh-append w (job_calls job b) (all_calls job bs)

  take-some :
      (b : Batch) (bs : List Batch)
      → left ≡ b ∷ bs
      → pc i ≡ outside
      → Divided n job
          (take job s (get_exec_batch s.batches)).0
          (change pc i (take job s (get_exec_batch s.batches)).1)
          w
  unfolding take
  take-some b bs more e =
      let fresh : Fresh (b ∷ bs) = rw more at inv.fresh in
      let first : get_exec_batch s.batches ≡ some (mark b, map mark taken ++ mark b ∷ bs) =
        ap get_exec_batch (inv.batches ∙ ap (λ left. map mark taken ++ left) more)
        ∙ get_exec_batch-first taken b bs fresh.0 in
      let m = moved outside (calling (job_calls job (mark b))) e in
      let one_less : length left ≡ suc (length bs) = ap length more in
      rw first (
        taken ++ b ∷ [],
        bs,
        record {
          batches =
              rw (map-append_mark taken (b ∷ []))
                (sym (append_assoc (map mark taken) (mark b ∷ []) bs));
          fresh = fresh.1;
          count = omega (arith, inv.count, one_less, length-append taken (b ∷ []));
          in_hand = omega (arith, inv.in_hand, m.busy_to, length-append taken (b ∷ []));
          weight = omega (arith, inv.weight, m.to_make_to, taken_weight b bs more);
          posted = λ h. omega (arith, inv.posted, m.posts_to);
          will_post = λ h k. omega (arith, inv.will_post, m.tests_to);
        },
      )

  turn-Divided :
      (p : Pc) → pc i ≡ p → Divided n job (turn job s p).0 (change pc i (turn job s p).1) w
  unfolding turn weigh
  turn-Divided outside e = elim (split_left left) [
    | inl nil ↦ take-none nil e
    | inr (b, bs, more) ↦ take-some b bs more e
  ]
  turn-Divided (calling []) e =
      let m = moved (calling []) checking e in
      settled _ m refl refl (omega arith)
        (λ h. omega (arith, inv.posted, m.posts_to, m.itself.0, inv.in_hand, inv.count))
        (λ h k. omega (arith, m.tests_to))
  turn-Divided (calling (c ∷ cs)) e =
      let m = moved (calling (c ∷ cs)) (calling cs) e in
      settled _ m refl (omega (arith, weigh-append w s.calls (c ∷ []))) refl
        (λ h. omega (arith, inv.posted, m.posts_to))
        (λ h k. omega (arith, inv.will_post, m.tests_to))
  turn-Divided checking e = turn-checking e
  turn-Divided completing e =
      let m = moved completing outside e in
      settled _ m refl refl refl (λ h. omega (arith, inv.posted, m.itself.1)) (λ h k. omega arith)

Inv-start :
    (n : ℕ) (job : Job) (w : Call → ℕ)
    → Fresh job.batches
    → length job.batches ≡ job.nbbatches
    → Inv n job (start job).shared (λ _. outside) w [] job.batches
unfolding weigh
Inv-start n job w fresh count = record {
  batches = refl;
  fresh = fresh;
  count = omega (arith, count);
  in_hand = omega (arith, none_of busy refl);
  weight = omega (arith, none_of (to_make w) refl);
  posted = λ h. absurd (omega (arith, none_of posts refl));
  will_post = λ h k. absurd (omega (arith));
}
  where
    none_of : (v : Pc → ℕ) → v outside ≡ 0 → total v n (λ _. outside) ≡ 0
    none_of v e = total-zero v (λ _. outside) (λ _. e) n

pub Reach-Divided :
    {n : ℕ} {job : Job} {s : System} (w : Call → ℕ)
    → Fresh job.batches
    → length job.batches ≡ job.nbbatches
    → Reach n job s
    → Divided n job s.shared s.pc w
Reach-Divided {n} {job} w fresh count here = ([], job.batches, Inv-start n job w fresh count)
Reach-Divided {n} {job} w fresh count (later {s} r (run i lt e)) =
    let (taken, left, inv) = Reach-Divided w fresh count r in
    subst (λ out. Divided n job out.0 (change s.pc i out.1) w) e
      (turn-Divided inv i lt (s.pc i) refl)
