-- ===== src/Prelude/Totals.antt =====
-- A family of threads `ℕ → A`: the change of one member, and the sum of a weight over the first
-- `n` members, with the lemmas that relate the two.
use Prim.Native.Nat.{ℕ, zero, suc, ◌+◌, ◌≤◌, ◌<◌}
use mathlib.Core.Path.{◌≡◌, refl, fun_ext}
use mathlib.Core.Logic.{◌≢◌}
use native.Mathlib.Decide.{dec_lt}
use native.Mathlib.Omega.{arith}
use libfly.Prelude.Tests.{◌==◌, if◌then◌else◌}

-- The family with member `i` replaced by `a`.
unfoldable pub change {ℓ} : {A : Type ℓ} → (ℕ → A) → ℕ → A → ℕ → A
change f i a j = if i == j then a else f j

module _ {ℓ} {A : Type ℓ} (w : A → ℕ) where
  -- The sum of `w` over the members 0, …, n - 1.
  unfoldable pub total : ℕ → (ℕ → A) → ℕ
  total zero f = 0
  total (suc n) f = w (f n) + total n f

  total-change_above :
      (n : ℕ) (f : ℕ → A) (i : ℕ) (a : A) → n ≤ i → total n (change f i a) ≡ total n f
  unfolding total change
  total-change_above zero f i a h = refl
  total-change_above (suc n) f i a h = ground (arith, total-change_above n f i a)

  pub total-change :
      (n : ℕ) (f : ℕ → A) (i : ℕ) (a : A)
      → i < n
      → total n (change f i a) + w (f i) ≡ total n f + w a
  unfolding total change
  total-change zero f i a h = absurd (omega arith)
  total-change (suc n) f i a h = elim (dec_lt i n) [
    | yes below ↦ ground (arith, total-change n f i a below)
    | no last ↦ ground (arith, total-change_above n f i a)
  ]

  -- One member's weight is part of the sum.
  pub le-total : (n : ℕ) (f : ℕ → A) (i : ℕ) → i < n → w (f i) ≤ total n f
  unfolding total
  le-total zero f i h = absurd (omega arith)
  le-total (suc n) f i h = elim (dec_lt i n) [
    | yes below ↦ omega (arith, le-total n f i below)
    | no last ↦ ground arith
  ]

  -- So are the weights of two different members together.
  pub add-le-total :
      (n : ℕ) (f : ℕ → A) (i j : ℕ) → i < n → j < n → i ≢ j → w (f i) + w (f j) ≤ total n f
  unfolding total
  add-le-total zero f i j hi hj ne = absurd (omega arith)
  add-le-total (suc n) f i j hi hj ne = elim (dec_lt i n) [
    | yes i_below ↦ elim (dec_lt j n) [
      | yes j_below ↦ omega (arith, add-le-total n f i j i_below j_below ne)
      | no last ↦ ground (arith, le-total n f i i_below)
    ]
    | no last ↦ ground (arith, le-total n f j)
  ]

  -- A positive sum has a member of positive weight.
  pub total-pos : (n : ℕ) (f : ℕ → A) → 0 < total n f → (i : ℕ) × (i < n) × (0 < w (f i))
  unfolding total
  total-pos zero f h = absurd (omega arith)
  total-pos (suc n) f h = elim (dec_lt 0 (w (f n))) [
    | yes here ↦ (n, omega arith, here)
    | no not_here ↦ let (i, lt, p) = total-pos n f (omega arith) in (i, omega arith, p)
  ]

  pub total-zero : (f : ℕ → A) → ((k : ℕ) → w (f k) ≡ 0) → (n : ℕ) → total n f ≡ 0
  unfolding total
  total-zero f none zero = refl
  total-zero f none (suc n) = omega (arith, none n, total-zero f none n)

pub change-change {ℓ} :
    {A : Type ℓ} (f : ℕ → A) (i : ℕ) (a b : A) → change (change f i a) i b ≡ change f i b
unfolding change
change-change f i a b = fun_ext (λ j. ground arith)

pub change_same {ℓ} : {A : Type ℓ} (f : ℕ → A) (i : ℕ) (a : A) → a ≡ f i → change f i a ≡ f
unfolding change
change_same f i a e = fun_ext (λ j. ground arith)

pub change_at {ℓ} : {A : Type ℓ} (f : ℕ → A) (i : ℕ) (a : A) → change f i a i ≡ a
unfolding change
change_at f i a = ground arith

-- Where one weight has no sum and another is positive only with it, the other has none either.
pub total-zero_with {ℓ} :
    {A : Type ℓ} (v w : A → ℕ) (n : ℕ) (f : ℕ → A)
    → ((a : A) → v a ≡ 0 → w a ≡ 0)
    → total v n f ≡ 0
    → total w n f ≡ 0
unfolding total
total-zero_with v w zero f with_it none = refl
total-zero_with v w (suc n) f with_it none =
    omega (arith, with_it (f n) (omega arith), total-zero_with v w n f with_it (omega arith))
