-- ===== src/Job/Indices.antt =====
-- The indices that the batches of src/fly_job.c stand for.
use mathlib.Core.List.{append-nil}
use libfly.Prelude.{
  ℕ, zero, suc, ◌+◌, ◌*◌, ◌<◌, ◌≡◌, refl, ap, ◌∙◌, length, false, List, [], ◌∷◌, ◌++◌, arith,
}
use libfly.Prelude.Int.{
  ℤ, pos, rounds, ◌+ℤ◌, ◌-ℤ◌, ◌*ℤ◌, range, range-add, int_laws, pos-mul, +ℤ-zero,
}
use libfly.Job.{Batch, extend_last}

-- The indices on which the client's function is called for a batch: `start` to `end - 1`.
abbrev pub indices : Batch → List ℤ
indices b = range b.start (rounds (b.end -ℤ b.start))

unfoldable pub all_indices : List Batch → List ℤ
all_indices [] = []
all_indices (b ∷ bs) = indices b ++ all_indices bs

-- No batch is taken.
abbrev pub Fresh : List Batch → Type 0
Fresh [] = Unit
Fresh (b ∷ bs) = (b.execed ≡ false) × Fresh bs

-- Batch `i` of those that `fly_make_batches` makes, and `left` of them from `i` on.
abbrev pub batch_at : ℤ → ℤ → ℕ → Batch
batch_at s z i = record { start = s +ℤ (pos i *ℤ z); end = s +ℤ (pos i *ℤ z) +ℤ z; execed = false }

unfoldable pub batches_from : ℤ → ℤ → (left i : ℕ) → List Batch
batches_from s z zero i = []
batches_from s z (suc left) i = batch_at s z i ∷ batches_from s z left (i + 1)

rounds-sum : (a : ℤ) (n k : ℕ) → rounds (a +ℤ pos n +ℤ pos k -ℤ a) ≡ n + k
rounds-sum a n k = let total : a +ℤ pos n +ℤ pos k -ℤ a ≡ pos (n + k) = omega int_laws in rw total

rounds-size : (a : ℤ) (n : ℕ) → rounds (a +ℤ pos n -ℤ a) ≡ n
rounds-size a n = let size : a +ℤ pos n -ℤ a ≡ pos n = omega int_laws in rw size

pub next_start : (s : ℤ) (z i : ℕ) → s +ℤ (pos (i + 1) *ℤ pos z) ≡ s +ℤ (pos i *ℤ pos z) +ℤ pos z
next_start s z i =
    let more : (i + 1) * z ≡ i * z + z = grind arith in
    rw (pos-mul (i + 1) z, pos-mul i z, more) (omega int_laws)

-- Consecutive batches of size `z`, the last one longer by `extra`.
pub all_indices-extend_last :
    (s : ℤ) (z extra left i : ℕ)
    → all_indices (extend_last (batches_from s (pos z) (suc left) i) (pos extra))
      ≡ range (s +ℤ (pos i *ℤ pos z)) (suc left * z + extra)
unfolding all_indices extend_last batches_from
all_indices-extend_last s z extra zero i =
    let once : 1 * z + extra ≡ z + extra = omega arith in
    rw (append-nil, rounds-sum (s +ℤ (pos i *ℤ pos z)) z extra, once)
all_indices-extend_last s z extra (suc left) i =
    let first = s +ℤ (pos i *ℤ pos z) in
    let more : suc (suc left) * z + extra ≡ z + (suc left * z + extra) = grind arith in
    let next : s +ℤ (pos (i + 1) *ℤ pos z) ≡ first +ℤ pos z = next_start s z i in
    rw (more, range-add first z (suc left * z + extra), rounds-size first z)
      (ap (λ is. range first z ++ is)
        (all_indices-extend_last s z extra left (i + 1)
          ∙ ap (λ t. range t (suc left * z + extra)) next))

pub extend_last-zero : (bs : List Batch) → extend_last bs (pos 0) ≡ bs
unfolding extend_last
extend_last-zero [] = refl
extend_last-zero (b ∷ []) = rw (+ℤ-zero b.end)
extend_last-zero (b ∷ c ∷ bs) = ap (λ cs. b ∷ cs) (extend_last-zero (c ∷ bs))

-- The same for a positive number of batches, from the first one on.
pub all_indices-batches :
    (s : ℤ) (z extra n : ℕ)
    → 0 < n
    → all_indices (extend_last (batches_from s (pos z) n 0) (pos extra)) ≡ range s (n * z + extra)
all_indices-batches s z extra zero h = absurd (omega arith)
all_indices-batches s z extra (suc left) h =
    let from : s +ℤ (pos 0 *ℤ pos z) ≡ s = start_zero in
    all_indices-extend_last s z extra left 0 ∙ ap (λ t. range t (suc left * z + extra)) from
  where
    none : 0 * z ≡ 0
    none = omega arith

    start_zero : s +ℤ (pos 0 *ℤ pos z) ≡ s
    start_zero = rw (pos-mul 0 z, none) (+ℤ-zero s)

pub length-batches_from : (s z : ℤ) (left i : ℕ) → length (batches_from s z left i) ≡ left
unfolding batches_from
length-batches_from s z zero i = refl
length-batches_from s z (suc left) i = ap suc (length-batches_from s z left (i + 1))

pub length-extend_last : (bs : List Batch) (extra : ℤ) → length (extend_last bs extra) ≡ length bs
unfolding extend_last
length-extend_last [] extra = refl
length-extend_last (b ∷ []) extra = refl
length-extend_last (b ∷ c ∷ bs) extra = ap suc (length-extend_last (c ∷ bs) extra)

pub batches_from-Fresh : (s z : ℤ) (left i : ℕ) → Fresh (batches_from s z left i)
unfolding batches_from
batches_from-Fresh s z zero i = tt
batches_from-Fresh s z (suc left) i = (refl, batches_from-Fresh s z left (i + 1))

pub extend_last-Fresh : (bs : List Batch) (extra : ℤ) → Fresh bs → Fresh (extend_last bs extra)
unfolding extend_last
extend_last-Fresh [] extra f = tt
extend_last-Fresh (b ∷ []) extra f = f
extend_last-Fresh (b ∷ c ∷ bs) extra f = (f.0, extend_last-Fresh (c ∷ bs) extra f.1)
