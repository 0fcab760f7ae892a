-- ===== src/Memdebug/Slots.antt =====
-- The loops of src/fly_memdebug.h over the slots: what they do to sums over the used slots.
use libfly.Prelude.{
  ℕ, zero, suc, ◌+◌, ◌≤◌, ◌<◌, ◌≡◌, refl, ◌≢◌, ap, inl, inr, arith, ◌==◌, if◌then◌else◌, change,
  total, weigh, Bool-cases, first_and_later,
}
use libfly.Memdebug.{Slot, empty, try_add, clear, forget, report_loop}

-- The weight of a slot that is used; an empty one has none.
abbrev pub used : (Slot → ℕ) → Slot → ℕ
used w s = if s.ptr == 0 then 0 else w s

-- The part of a weight that stands for the blocks at `ptr`.
abbrev pub only : (ptr : ℕ) → (Slot → ℕ) → Slot → ℕ
only ptr w s = if s.ptr == ptr then w s else 0

abbrev pub one : Slot → ℕ
one s = 1

-- `try_add` fills the first empty slot, or finds none.
pub data Added (left i : ℕ) (new : Slot) (slots : ℕ → Slot) : ℕ × (ℕ → Slot) → Type 0 where
  filled :
      (k : ℕ)
      → i ≤ k
      → k < i + left
      → (slots k).ptr ≡ 0
      → Added left i new slots (1, change slots k new)
  full : ((k : ℕ) → i ≤ k → k < i + left → (slots k).ptr ≢ 0) → Added left i new slots (0, slots)

-- `forget` empties the first slot of the block, or finds none.
pub data Forgot (left i ptr : ℕ) (slots : ℕ → Slot) : (ℕ → Slot) → Type 0 where
  emptied :
      (k : ℕ)
      → i ≤ k
      → k < i + left
      → (slots k).ptr ≡ ptr
      → Forgot left i ptr slots (change slots k empty)
  unknown : ((k : ℕ) → i ≤ k → k < i + left → (slots k).ptr ≢ ptr) → Forgot left i ptr slots slots

Added-later :
    (left i : ℕ) (new : Slot) (slots : ℕ → Slot) (out : ℕ × (ℕ → Slot))
    → (slots i).ptr ≢ 0
    → Added left (i + 1) new slots out
    → Added (suc left) i new slots out
Added-later left i new slots out ne (filled k le lt e) = filled k (omega arith) (omega arith) e
Added-later left i new slots out ne (full none) = full (
    first_and_later {P = λ k. (slots k).ptr ≢ 0} i (i + suc left) ne
      (λ k le lt. none k le (omega arith)))

pub try_add-Added :
    (left i : ℕ) (new : Slot) (slots : ℕ → Slot) → Added left i new slots (try_add left i new slots)
unfolding try_add
try_add-Added zero i new slots = full (λ k le lt. absurd (omega arith))
try_add-Added (suc left) i new slots = elim (Bool-cases ((slots i).ptr == 0)) [
  | inl free ↦
      let e : (slots i).ptr ≡ 0 = ground arith in
      let here : Added (suc left) i new slots (1, change slots i new) =
        filled i (omega arith) (omega arith) e in
      rw free here
  | inr taken ↦
      let ne : (slots i).ptr ≢ 0 = ground arith in
      rw taken (
        Added-later left i new slots (try_add left (i + 1) new slots) ne
          (try_add-Added left (i + 1) new slots))
]

Forgot-later :
    (left i ptr : ℕ) (slots out : ℕ → Slot)
    → (slots i).ptr ≢ ptr
    → Forgot left (i + 1) ptr slots out
    → Forgot (suc left) i ptr slots out
Forgot-later left i ptr slots out ne (emptied k le lt e) = emptied k (omega arith) (omega arith) e
Forgot-later left i ptr slots out ne (unknown none) = unknown (
    first_and_later {P = λ k. (slots k).ptr ≢ ptr} i (i + suc left) ne
      (λ k le lt. none k le (omega arith)))

pub forget-Forgot :
    (left i ptr : ℕ) (slots : ℕ → Slot) → Forgot left i ptr slots (forget left i ptr slots)
unfolding forget
forget-Forgot zero i ptr slots = unknown (λ k le lt. absurd (omega arith))
forget-Forgot (suc left) i ptr slots = elim (Bool-cases ((slots i).ptr == ptr)) [
  | inl same ↦
      let e : (slots i).ptr ≡ ptr = ground arith in
      let here : Forgot (suc left) i ptr slots (change slots i empty) =
        emptied i (omega arith) (omega arith) e in
      rw same here
  | inr differ ↦
      let ne : (slots i).ptr ≢ ptr = ground arith in
      rw differ (
        Forgot-later left i ptr slots (forget left (i + 1) ptr slots) ne
          (forget-Forgot left (i + 1) ptr slots))
]

pub total-zero_below :
    (w : Slot → ℕ) (n : ℕ) (slots : ℕ → Slot)
    → ((k : ℕ) → k < n → w (slots k) ≡ 0)
    → total w n slots ≡ 0
unfolding total
total-zero_below w zero slots none = refl
total-zero_below w (suc n) slots none =
    omega (arith, none n (omega arith), total-zero_below w n slots (λ k lt. none k (omega arith)))

-- Where every slot has a positive weight, the sum is at least their number.
pub total-full :
    (w : Slot → ℕ) (n : ℕ) (slots : ℕ → Slot)
    → ((k : ℕ) → k < n → 0 < w (slots k))
    → n ≤ total w n slots
unfolding total
total-full w zero slots all = omega arith
total-full w (suc n) slots all =
    omega (arith, all n (omega arith), total-full w n slots (λ k lt. all k (omega arith)))

-- The report lists the used slots.
pub report_loop-total :
    (left i : ℕ) (slots : ℕ → Slot) (w : Slot → ℕ)
    → weigh w (report_loop left i slots) + total (used w) i slots ≡ total (used w) (i + left) slots
unfolding report_loop weigh total
report_loop-total zero i slots w =
    let e : i ≡ i + 0 = omega arith in
    let same : total (used w) i slots ≡ total (used w) (i + 0) slots =
      ap (λ k. total (used w) k slots) e in
    omega (arith, same)
report_loop-total (suc left) i slots w =
    let e : suc i + left ≡ i + suc left = omega arith in
    let rest = report_loop-total left (suc i) slots w in
    let same : total (used w) (suc i + left) slots ≡ total (used w) (i + suc left) slots =
      ap (λ k. total (used w) k slots) e in
    ground (arith, rest, same)

-- `clear` empties the slots.
pub clear-empty :
    (left i : ℕ) (slots : ℕ → Slot) (k : ℕ)
    → ((j : ℕ) → j < i → slots j ≡ empty)
    → k < i + left
    → clear left i slots k ≡ empty
unfolding clear change
clear-empty zero i slots k before lt = before k (omega arith)
clear-empty (suc left) i slots k before lt =
    clear-empty left (i + 1) (change slots i empty) k (λ j lt. ground (arith, before j))
      (omega arith)
