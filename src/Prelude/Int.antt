-- ===== src/Prelude/Int.antt =====
-- Signed integers over the native numbers, with the sums, products and truncated division of C.
use Prim.Native.Nat.{ℕ, zero, suc, ◌+◌, ◌-◌, ◌*◌, ◌/◌, ◌%◌, ◌≤◌}
use mathlib.Core.Path.{◌≡◌, ap, ◌∙◌}
use mathlib.Core.Bool.{Bool}
use mathlib.Core.List.{List, [], ◌∷◌, ◌++◌}
use native.Mathlib.Omega.{arith}
use libfly.Prelude.Tests.{ltb, leb, if◌then◌else◌}

-- `negsuc n` is -(n + 1).
pub data ℤ : Type 0 where
  pos : ℕ → ℤ
  negsuc : ℕ → ℤ

abbrev pub pos_part : ℤ → ℕ
pos_part (pos n) = n
pos_part (negsuc n) = 0

abbrev pub neg_part : ℤ → ℕ
neg_part (pos n) = 0
neg_part (negsuc n) = suc n

-- a - b, as an integer.
abbrev pub sub_ℕ : ℕ → ℕ → ℤ
sub_ℕ a b = if leb b a then pos (a - b) else negsuc (b - a - 1)

infixl 65 ◌+ℤ◌ ◌-ℤ◌
infixl 70 ◌*ℤ◌
infix 50 ◌≤ℤ◌
unfoldable pub ◌+ℤ◌ : ℤ → ℤ → ℤ
a +ℤ b = sub_ℕ (pos_part a + pos_part b) (neg_part a + neg_part b)

unfoldable pub ◌-ℤ◌ : ℤ → ℤ → ℤ
a -ℤ b = sub_ℕ (pos_part a + neg_part b) (neg_part a + pos_part b)

unfoldable pub ◌*ℤ◌ : ℤ → ℤ → ℤ
a *ℤ b =
    sub_ℕ (pos_part a * pos_part b + neg_part a * neg_part b)
      (pos_part a * neg_part b + neg_part a * pos_part b)

abbrev pub ◌≤ℤ◌ : ℤ → ℤ → Type 0
a ≤ℤ b = pos_part a + neg_part b ≤ pos_part b + neg_part a

abbrev pub ltb_ℤ : ℤ → ℤ → Bool
ltb_ℤ a b = ltb (pos_part a + neg_part b) (pos_part b + neg_part a)

-- `a / n` and `a % n` of C for a positive `n`: rounded to zero, with the sign of `a`.
unfoldable pub div_ℤ : ℤ → ℕ → ℤ
div_ℤ (pos a) n = pos (a / n)
div_ℤ (negsuc a) n = sub_ℕ 0 (suc a / n)

unfoldable pub mod_ℤ : ℤ → ℕ → ℤ
mod_ℤ (pos a) n = pos (a % n)
mod_ℤ (negsuc a) n = sub_ℕ 0 (suc a % n)

-- INT_MAX and 2 ^ 32, for an `int` of 32 bits.
abbrev pub int_max : ℕ
int_max = 2147483647

abbrev pub int_range : ℕ
int_range = 4294967296

-- What an `int` keeps of an integer: it wraps around.
unfoldable pub to_int : ℤ → ℤ
to_int (pos n) = let r = n % int_range in if leb r int_max then pos r else sub_ℕ r int_range
to_int (negsuc n) =
    let r = n % int_range in if leb r int_max then negsuc r else pos (int_range - 1 - r)

-- `a - b` of two `int`s.
unfoldable pub int_sub : ℤ → ℤ → ℤ
unfolding to_int
int_sub a b = to_int (a -ℤ b)

-- From `start` to `end` it is `c`, a number that an `int` holds.
abbrev pub Spans : (start end : ℤ) (c : ℕ) → Type 0
Spans start end c = (end -ℤ start ≡ pos c) × (c ≤ int_max)

-- `a == 0`
abbrev pub is_zero : ℤ → Bool
is_zero a = leb (pos_part a + neg_part a) 0

-- The rounds of `for (i = 0; i < a; i++)`.
abbrev pub rounds : ℤ → ℕ
rounds a = pos_part a

pub +ℤ_parts :
    (a b : ℤ)
    → pos_part (a +ℤ b) + neg_part a + neg_part b ≡ neg_part (a +ℤ b) + pos_part a + pos_part b
unfolding ◌+ℤ◌
+ℤ_parts a b = ground arith

pub -ℤ_parts :
    (a b : ℤ)
    → pos_part (a -ℤ b) + neg_part a + pos_part b ≡ neg_part (a -ℤ b) + pos_part a + neg_part b
unfolding ◌-ℤ◌
-ℤ_parts a b = ground arith

pub eq_of_parts : (a b : ℤ) → pos_part a + neg_part b ≡ pos_part b + neg_part a → a ≡ b
eq_of_parts a b h = ground arith

-- One of the two parts is zero.
pub rounds-pos : (a : ℤ) (n : ℕ) → a ≡ pos n → pos_part a ≡ n
rounds-pos a n h = ground arith

pub ruleset int_laws = (arith, +ℤ_parts, -ℤ_parts, eq_of_parts)

pub +ℤ-zero : (a : ℤ) → a +ℤ pos 0 ≡ a
+ℤ-zero a = omega int_laws

pub +ℤ-suc : (a : ℤ) (n : ℕ) → a +ℤ pos 1 +ℤ pos n ≡ a +ℤ pos (suc n)
+ℤ-suc a n = omega int_laws

pub pos-mul : (a b : ℕ) → pos a *ℤ pos b ≡ pos (a * b)
unfolding ◌*ℤ◌
pos-mul a b = ground arith

*ℤ_parts :
    (a : ℤ) (e : ℕ)
    → pos_part (a *ℤ pos e) + neg_part a * e ≡ neg_part (a *ℤ pos e) + pos_part a * e
unfolding ◌*ℤ◌
*ℤ_parts a e = ground arith

pub *ℤ-next : (a : ℤ) (e : ℕ) → (a +ℤ pos 1) *ℤ pos e ≡ a *ℤ pos e +ℤ pos e
*ℤ-next a e = eq_of_parts _ _ (
    omega (
      arith,
      *ℤ_parts a e,
      *ℤ_parts (a +ℤ pos 1) e,
      +ℤ_parts (a *ℤ pos e) (pos e),
      ap (λ (t : ℕ). t * e) (+ℤ_parts a (pos 1)),
    ))

-- The `n` integers from `start` on.
unfoldable pub range : ℤ → ℕ → List ℤ
range start zero = []
range start (suc n) = start ∷ range (start +ℤ pos 1) n

pub range-add :
    (start : ℤ) (a b : ℕ) → range start (a + b) ≡ range start a ++ range (start +ℤ pos a) b
unfolding range
range-add start zero b = let none_first : 0 + b ≡ b = omega arith in rw (none_first, +ℤ-zero start)
range-add start (suc a) b =
    let one_first : suc a + b ≡ suc (a + b) = omega arith in
    rw (one_first, range-add (start +ℤ pos 1) a b, +ℤ-suc start a)

to_int-fits : (c : ℕ) → c ≤ int_max → to_int (pos c) ≡ pos c
unfolding to_int
to_int-fits c fits = let small : c % int_range ≡ c = grind arith in rw small (ground arith)

-- The `int` subtraction does not overflow where its result fits.
pub int_sub-Spans : (start end : ℤ) (c : ℕ) → Spans start end c → int_sub end start ≡ pos c
unfolding int_sub
int_sub-Spans start end c (calls, fits) = ap to_int calls ∙ to_int-fits c fits
