-- ===== src/Job/Bounds.antt =====
-- Where the batches of `fly_make_batches` of src/fly_job.c begin and end.
use mathlib.Core.Path.{subst}
use libfly.Prelude.{
  ℕ, zero, suc, ◌+◌, ◌*◌, ◌/◌, ◌%◌, ◌≤◌, ◌<◌, ◌≡◌, refl, sym, ap, ◌∙◌, some, List, [], ◌∷◌, arith,
}
use libfly.Prelude.Int.{ℤ, pos, ◌+ℤ◌, ◌-ℤ◌, Spans, ◌*ℤ◌, ◌≤ℤ◌, int_laws, pos-mul, +ℤ-zero}
use native.Mathlib.Nat.{div-add-mod}
use libfly.Errors.{success}
use libfly.Malloc.{Memory, Enough}
use libfly.Job.{Job, Batch, extend_last, make_batches}
use libfly.Job.Indices.{batches_from, next_start}
use libfly.Job.Batches.{made, memory, cut, cut_evenly, make_batches-runs, batch_size-pos}

-- The batches lie end to end: the first begins at `lo`, each begins where the one before it ends, and
-- the last ends at `hi`.
abbrev pub Tiles : (lo hi : ℤ) → List Batch → Type 0
Tiles lo hi [] = lo ≡ hi
Tiles lo hi (b ∷ bs) = (b.start ≡ lo) × (b.start ≤ℤ b.end) × Tiles b.end hi bs

-- No batch begins before `lo` or ends behind `hi`.
abbrev pub AllWithin : (lo hi : ℤ) → List Batch → Type 0
AllWithin lo hi [] = Unit
AllWithin lo hi (b ∷ bs) = (lo ≤ℤ b.start) × (b.end ≤ℤ hi) × AllWithin lo hi bs

Tiles-le : (lo hi : ℤ) (bs : List Batch) → Tiles lo hi bs → lo ≤ℤ hi
Tiles-le lo hi [] t = rw t (omega arith)
Tiles-le lo hi (b ∷ bs) t =
    let later = Tiles-le b.end hi bs t.2 in subst (λ x. x ≤ℤ hi) t.0 (omega (arith, t.1))

Tiles-AllWithin :
    (lo at_lo hi : ℤ) (bs : List Batch) → lo ≤ℤ at_lo → Tiles at_lo hi bs → AllWithin lo hi bs
Tiles-AllWithin lo at_lo hi [] le t = tt
Tiles-AllWithin lo at_lo hi (b ∷ bs) le t =
    let begins : lo ≤ℤ b.start = subst (λ x. lo ≤ℤ x) (sym t.0) le in
    (
      begins,
      Tiles-le b.end hi bs t.2,
      Tiles-AllWithin lo b.end hi bs (omega (arith, begins, t.1)) t.2,
    )

-- Consecutive batches of size `z`, the last one longer by `extra`.
extend_last-Tiles :
    (s : ℤ) (z extra left i : ℕ)
    → Tiles
        (s +ℤ (pos i *ℤ pos z))
        (s +ℤ (pos i *ℤ pos z) +ℤ pos (suc left * z + extra))
        (extend_last (batches_from s (pos z) (suc left) i) (pos extra))
unfolding extend_last batches_from
extend_last-Tiles s z extra zero i =
    let once : 1 * z + extra ≡ z + extra = omega arith in
    (refl, omega int_laws, rw once (omega int_laws))
extend_last-Tiles s z extra (suc left) i =
    let first = s +ℤ (pos i *ℤ pos z) in
    let more : suc (suc left) * z + extra ≡ z + (suc left * z + extra) = grind arith in
    let ends : first +ℤ pos z +ℤ pos (suc left * z + extra)
        ≡ first +ℤ pos (suc (suc left) * z + extra) =
      rw more (omega int_laws) in
    (
      refl,
      omega int_laws,
      subst
          (λ hi.
            Tiles (first +ℤ pos z) hi
              (extend_last (batches_from s (pos z) (suc left) (i + 1)) (pos extra)))
          ends
          (subst
            (λ lo.
              Tiles lo (lo +ℤ pos (suc left * z + extra))
                (extend_last (batches_from s (pos z) (suc left) (i + 1)) (pos extra)))
            (next_start s z i) (extend_last-Tiles s z extra left (i + 1))),
    )

-- The same for a positive number of batches, from the first one on.
batches-Tiles :
    (s : ℤ) (z extra n : ℕ)
    → 0 < n
    → Tiles s (s +ℤ pos (n * z + extra)) (extend_last (batches_from s (pos z) n 0) (pos extra))
batches-Tiles s z extra zero h = absurd (omega arith)
batches-Tiles s z extra (suc left) h =
    let none : 0 * z ≡ 0 = omega arith in
    let from : s +ℤ (pos 0 *ℤ pos z) ≡ s = rw (pos-mul 0 z, none) (+ℤ-zero s) in
    subst
      (λ lo.
        Tiles lo (lo +ℤ pos (suc left * z + extra))
          (extend_last (batches_from s (pos z) (suc left) 0) (pos extra)))
      from (extend_last-Tiles s z extra left 0)

end_from_start : (a b : ℤ) → b +ℤ (a -ℤ b) ≡ a
end_from_start a b = omega int_laws

-- A job of `c` calls, a number that an `int` holds, without batches that is cut for `n` workers, where `n` is positive and at most
-- `c` and memory suffices for two blocks a batch: the batches lie end to end from the start of the job
-- to its end. So none begins before the start or ends behind the end, and no bound of a batch leaves
-- the range of an `int` where those two do not.
pub make_batches-Tiles :
    (job : Job) (c n : ℕ) (m : Memory)
    → job.batches ≡ []
    → Spans job.start job.end c
    → 0 < n
    → n ≤ c
    → Enough (n + n) m.answers
    → (bs : List Batch) × (m' : Memory) × (make_batches job n m ≡ some (success, made job n bs, m'))
      × Tiles job.start job.end bs
      × AllWithin job.start job.end bs
make_batches-Tiles job c n m none_yet calls some_batch le enough =
    let bs = cut job c n none_yet calls some_batch m enough (c / n) in
    let (rest, runs) =
      make_batches-runs job c n none_yet calls some_batch m enough (c / n)
        (batch_size-pos c n some_batch le) in
    let whole : n * (c / n) + c % n ≡ c = div-add-mod c n in
    let ends : job.start +ℤ pos (n * (c / n) + c % n) ≡ job.end =
      ap (λ k. job.start +ℤ pos k) whole
      ∙ ap (λ x. job.start +ℤ x) (sym calls.0)
      ∙ end_from_start job.end job.start in
    let tiles : Tiles job.start job.end bs =
      subst (Tiles job.start job.end)
        (sym (cut_evenly job c n none_yet calls some_batch m enough le))
        (subst
          (λ hi.
            Tiles job.start hi
              (extend_last (batches_from job.start (pos (c / n)) n 0) (pos (c % n))))
          ends (batches-Tiles job.start (c / n) (c % n) n some_batch)) in
    (
      bs,
      memory rest (m.live + (n + n)),
      runs,
      tiles,
      Tiles-AllWithin job.start job.start job.end bs (omega arith) tiles,
    )
