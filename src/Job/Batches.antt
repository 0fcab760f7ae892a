-- ===== src/Job/Batches.antt =====
-- What `fly_make_batches` of src/fly_job.c comes to.
use mathlib.Core.List.{append-nil, append_assoc}
use libfly.Prelude.{
  ℕ, zero, suc, ◌+◌, ◌-◌, ◌*◌, ◌/◌, ◌%◌, ◌≤◌, ◌<◌, ◌≡◌, refl, ap, ◌∙◌, Bool, true, false, some,
  List, [], ◌∷◌, ◌++◌, arith, length, length-append, Bool-cases, inl, inr, not, ◌&&◌, ◌==◌, sym,
  if◌then◌else◌,
}
use libfly.Prelude.Int.{ℤ, pos, Spans, int_sub, int_sub-Spans, ltb_ℤ, is_zero, div_ℤ, mod_ℤ, range}
use native.Mathlib.Nat.{div-add-mod}
use libfly.Errors.{success, no_resources}
use libfly.Malloc.{Memory, malloc, free, Enough}
use libfly.Job.{
  Job, Batch, ready, idle, add_batch, batches_loop, at_least_one, batch_size, extend_last,
  free_batches, make_batches,
}
use libfly.Job.Indices.{
  all_indices, batch_at, batches_from, all_indices-batches, extend_last-zero, length-batches_from,
  length-extend_last, Fresh, batches_from-Fresh, extend_last-Fresh,
}

abbrev pub memory : List Bool → ℕ → Memory
memory answers live = record { answers = answers; live = live }

-- Both blocks of a batch are found.
add_batch-ok :
    (k : ℕ) (answers : List Bool) (live : ℕ) (bs : List Batch) (b : Batch)
    → Enough (suc (suc k)) answers
    → (rest : List Bool) × (add_batch bs b (memory answers live)
        ≡ (true, bs ++ b ∷ [], memory rest (live + 2)))
      × Enough k rest
unfolding add_batch malloc
add_batch-ok k (true ∷ true ∷ rest) live bs b h =
    (rest, ap (λ n. (true, bs ++ b ∷ [], memory rest n)) (omega arith), h)
add_batch-ok k [] live bs b h = absurd h
add_batch-ok k (false ∷ rest) live bs b h = absurd h
add_batch-ok k (true ∷ []) live bs b h = absurd h
add_batch-ok k (true ∷ false ∷ rest) live bs b h = absurd h

batches_loop-ok :
    (left i : ℕ) (s z : ℤ) (bs : List Batch) (answers : List Bool) (live : ℕ)
    → Enough (left + left) answers
    → (rest : List Bool) × (batches_loop left i s z bs (memory answers live)
        ≡ (true, bs ++ batches_from s z left i, memory rest (live + (left + left))))
unfolding batches_loop batches_from
batches_loop-ok zero i s z bs answers live h =
    let same : live + (0 + 0) ≡ live = omega arith in (answers, rw (append-nil, same))
batches_loop-ok (suc left) i s z bs answers live h =
    let twice : suc left + suc left ≡ suc (suc (left + left)) = omega arith in
    let b = batch_at s z i in
    let (mid, added, h') = add_batch-ok (left + left) answers live bs b (rw twice at h) in
    let (rest, runs) = batches_loop-ok left (i + 1) s z (bs ++ b ∷ []) mid (live + 2) h' in
    let count : live + 2 + (left + left) ≡ live + (suc left + suc left) = omega arith in
    (rest, rw added (rw (runs, append_assoc, count)))

-- A block is missing: the loop stops early, with nothing but the batches that it added in use.
batches_loop-short :
    (left i : ℕ) (s z : ℤ) (bs : List Batch) (answers : List Bool) (live : ℕ)
    → ¬ Enough (left + left) answers
    → (bs' : List Batch) × (rest : List Bool) × (live' : ℕ) × (batches_loop left i s z bs
          (memory answers live)
        ≡ (false, bs', memory rest live'))
      × (live' + (length bs + length bs) ≡ live + (length bs' + length bs'))
unfolding batches_loop add_batch malloc free
batches_loop-short zero i s z bs answers live h = absurd (h tt)
batches_loop-short (suc left) i s z bs [] live h = (bs, [], live, refl, refl)
batches_loop-short (suc left) i s z bs (false ∷ rest) live h = (bs, rest, live, refl, refl)
batches_loop-short (suc left) i s z bs (true ∷ []) live h =
    let back : live + 1 - 1 ≡ live = omega arith in (bs, [], live, rw back, refl)
batches_loop-short (suc left) i s z bs (true ∷ false ∷ rest) live h =
    let back : live + 1 - 1 ≡ live = omega arith in (bs, rest, live, rw back, refl)
batches_loop-short (suc left) i s z bs (true ∷ true ∷ rest) live h =
    let twice : suc left + suc left ≡ suc (suc (left + left)) = omega arith in
    let (bs', rest', live', runs, balance) =
      batches_loop-short left (i + 1) s z (bs ++ batch_at s z i ∷ []) rest (live + 1 + 1)
        (rw twice at h) in
    (bs', rest', live', runs, omega (arith, balance, length-append bs (batch_at s z i ∷ [])))

pub free_batches-live :
    (bs : List Batch) (m : Memory)
    → length bs + length bs ≤ m.live
    → (free_batches bs m).live + (length bs + length bs) ≡ m.live
unfolding free_batches free
free_batches-live [] m h = omega arith
free_batches-live (b ∷ bs) m h = omega (arith, free_batches-live bs m)

-- The calls that the batches of a job stand for, where `n` batches share `c` calls.
pub batch_size-pos : (c n : ℕ) → 0 < n → n ≤ c → batch_size (pos c) n ≡ pos (c / n)
unfolding batch_size div_ℤ
batch_size-pos c n h le =
    let some_calls : c / n ≡ suc (c / n - 1) = grind arith in rw (some_calls, at_least_one)

batch_size-few : (c n : ℕ) → c < n → batch_size (pos c) n ≡ pos 1
unfolding batch_size div_ℤ
batch_size-few c n lt = let none : c / n ≡ 0 = grind arith in rw (none, at_least_one)

mod_ℤ-pos : (c n : ℕ) → mod_ℤ (pos c) n ≡ pos (c % n)
unfolding mod_ℤ
mod_ℤ-pos c n = refl

abbrev pub made : Job → ℕ → List Batch → Job
made job n bs = record job { batches = bs; nbbatches = n; state = ready }

-- `fly_make_batches` cuts the job into `n` batches, none of them executed, that stand for the
-- indices `is`, and takes two blocks of memory for each batch.
pub record Makes (job : Job) (n : ℕ) (m : Memory) (is : List ℤ) : Type 0 where
  pub bs : List Batch
  pub rest : List Bool
  pub runs : make_batches job n m ≡ some (success, made job n bs, memory rest (m.live + (n + n)))
  pub indices : all_indices bs ≡ is
  pub count : length bs ≡ n
  pub fresh : Fresh bs

-- The batches that `fly_make_batches` leaves in a job without batches, when memory suffices.
module _ (job : Job) (c n : ℕ) (none_yet : job.batches ≡ []) (calls : Spans job.start job.end c)
    (some_batch : 0 < n) (m : Memory) (enough : Enough (n + n) m.answers) where
  -- The batches of size `z`, the last one with the remainder where the code adds it.
  abbrev pub cut : ℕ → List Batch
  cut z =
      let bs = batches_from job.start (pos z) n 0 in
      if ltb_ℤ (pos n) (pos c) && not (is_zero (pos (c % n)))
      then extend_last bs (pos (c % n))
      else bs

  pub make_batches-runs :
      (z : ℕ)
      → batch_size (pos c) n ≡ pos z
      → (rest : List Bool) × (make_batches job n m
          ≡ some (success, made job n (cut z), memory rest (m.live + (n + n))))
  unfolding make_batches
  make_batches-runs z size =
      let (rest, runs) = batches_loop-ok n 0 job.start (pos z) [] m.answers m.live enough in
      let divides : (n == 0) ≡ false = ground arith in
      (
        rest,
        rw (divides, int_sub-Spans job.start job.end c calls, size, mod_ℤ-pos c n, none_yet, runs),
      )

  length-cut : (z : ℕ) → length (cut z) ≡ n
  length-cut z = elim (Bool-cases (ltb_ℤ (pos n) (pos c) && not (is_zero (pos (c % n))))) [
    | inl longer ↦
        rw (longer, length-extend_last (batches_from job.start (pos z) n 0) (pos (c % n)))
          (length-batches_from job.start (pos z) n 0)
    | inr equal ↦ rw equal (length-batches_from job.start (pos z) n 0)
  ]

  cut-Fresh : (z : ℕ) → Fresh (cut z)
  cut-Fresh z =
      let bs = batches_from job.start (pos z) n 0 in
      let fresh = batches_from-Fresh job.start (pos z) n 0 in
      elim (Bool-cases (ltb_ℤ (pos n) (pos c) && not (is_zero (pos (c % n))))) [
        | inl longer ↦ rw longer (extend_last-Fresh bs (pos (c % n)) fresh)
        | inr equal ↦ rw equal fresh
      ]

  pub cut_evenly :
      n ≤ c → cut (c / n) ≡ extend_last (batches_from job.start (pos (c / n)) n 0) (pos (c % n))
  cut_evenly le = elim (Bool-cases (ltb_ℤ (pos n) (pos c) && not (is_zero (pos (c % n))))) [
    | inl longer ↦ rw longer
    | inr equal ↦
        let no_rest : c % n ≡ 0 = grind arith in
        rw (equal, no_rest) (sym (extend_last-zero (batches_from job.start (pos (c / n)) n 0)))
  ]

  cut_few : c < n → cut 1 ≡ extend_last (batches_from job.start (pos 1) n 0) (pos 0)
  cut_few lt =
      let equal : ltb_ℤ (pos n) (pos c) ≡ false = ground arith in
      rw equal (sym (extend_last-zero (batches_from job.start (pos 1) n 0)))

  -- A job of `c` calls, a number that an `int` holds, without batches that is cut for `n` workers, where `n` is positive and at
  -- most `c` and memory suffices for two blocks a batch, gets `n` batches that hold each of the `c`
  -- indices from `start` on, once and in order, and no other index.
  pub make_batches-even : n ≤ c → Makes job n m (range job.start c)
  make_batches-even le =
      let (rest, runs) = make_batches-runs (c / n) (batch_size-pos c n some_batch le) in
      let whole : n * (c / n) + c % n ≡ c = div-add-mod c n in
      record {
        bs = cut (c / n);
        rest = rest;
        runs = runs;
        indices =
            ap all_indices (cut_evenly le)
            ∙ all_indices-batches job.start (c / n) (c % n) n some_batch
            ∙ ap (range job.start) whole;
        count = length-cut (c / n);
        fresh = cut-Fresh (c / n);
      }

  -- A job of `c` calls, a number that an `int` holds, without batches that is cut for more than `c` workers, where memory suffices
  -- for two blocks a batch, gets a batch of one index for every worker: the indices are the `n`
  -- ones from `start` on, so that the last `n - c` of them lie at or behind `end`.
  pub make_batches-few : c < n → Makes job n m (range job.start n)
  make_batches-few lt =
      let (rest, runs) = make_batches-runs 1 (batch_size-few c n lt) in
      let whole : n * 1 + 0 ≡ n = omega arith in
      record {
        bs = cut 1;
        rest = rest;
        runs = runs;
        indices =
            ap all_indices (cut_few lt)
            ∙ all_indices-batches job.start 1 0 n some_batch
            ∙ ap (range job.start) whole;
        count = length-cut 1;
        fresh = cut-Fresh 1;
      }

-- What `fly_make_batches` leaves of a job where memory does not suffice.
abbrev pub given_up : Job → Job
given_up job = record job { batches = []; state = idle }

-- Where one of the two blocks of one of the `n` batches cannot be had, `n` being positive and the
-- job without batches, `fly_make_batches` fails with `FLYENORES`, leaves the job idle and without
-- batches, and has given back every block it took.
pub make_batches-short :
    (job : Job) (n : ℕ) (m : Memory)
    → job.batches ≡ []
    → 0 < n
    → ¬ Enough (n + n) m.answers
    → (m' : Memory) × (make_batches job n m ≡ some (no_resources, given_up job, m'))
      × (m'.live ≡ m.live)
unfolding make_batches
make_batches-short job n m none_yet some_batch short =
    let funcscount = int_sub job.end job.start in
    let (bs, rest, live, runs, balance) =
      batches_loop-short n 0 job.start (batch_size funcscount n) [] m.answers m.live short in
    let divides : (n == 0) ≡ false = ground arith in
    let given : length bs + length bs ≤ live = omega (arith, balance) in
    (
      free_batches bs (memory rest live),
      rw (divides, none_yet, runs),
      omega (arith, balance, free_batches-live bs (memory rest live) given),
    )
