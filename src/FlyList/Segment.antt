-- ===== src/FlyList/Segment.antt =====
-- Doubly linked segments of cells, and what a write does to them.
use mathlib.Core.Bool.{or_assoc}
use libfly.Prelude.{
  ◌≡◌, ◌≢◌, refl, ap, ◌⊎◌, inl, inr, Bool, false, true, ◌||◌, some, List, [], ◌∷◌, ◌++◌, arith,
  ◌==◌,
}
use libfly.Memory.{Ptr, null, node, Heap}

-- Address and element of each cell, in order.
abbrev pub Cells : Type 0
Cells = List (Ptr × Ptr)

abbrev pub has : Ptr → Cells → Bool
has a [] = false
has a ((p, e) ∷ xs) = (a == p) || has a xs

-- The address of the first cell, or `nxt` where there is none.
abbrev pub first : Cells → Ptr → Ptr
first [] nxt = nxt
first ((p, e) ∷ xs) nxt = p

-- The address of the last cell, or `prv` where there is none.
abbrev pub last : Ptr → Cells → Ptr
last prv [] = prv
last prv ((p, e) ∷ xs) = last p xs

-- Behind `prv`, the cells `xs` are linked in both directions, and `nxt` follows.
abbrev pub Seg : Heap → Ptr → Cells → Ptr → Type 0
Seg h prv [] nxt = Unit
Seg h prv ((p, e) ∷ xs) nxt = (p ≢ null) × (h p ≡ some (node (first xs nxt) prv e)) × Seg h p xs nxt

-- No address occurs twice.
abbrev pub Distinct : Cells → Type 0
Distinct [] = Unit
Distinct ((p, e) ∷ xs) = (has p xs ≡ false) × Distinct xs

-- The memory holds at `list` the header of a list with the cells `xs`.
pub record IsList (h : Heap) (list : Ptr) (xs : Cells) : Type 0 where
  pub ne_null : list ≢ null
  pub header : h list ≡ some (node (first xs null) (last null xs) null)
  pub chain : Seg h null xs null
  pub outside : has list xs ≡ false
  pub distinct : Distinct xs

-- `g` differs from `h` at most at `list` and at the cells of `xs`.
abbrev pub SameOutside : Ptr → Cells → Heap → Heap → Type 0
SameOutside list xs h g = (a : Ptr) → a ≢ list → has a xs ≡ false → g a ≡ h a

pub has-append :
    (addr : Ptr) (front back : Cells) → has addr (front ++ back) ≡ (has addr front || has addr back)
has-append addr [] back = refl
has-append addr ((p, e) ∷ front) back = rw (has-append addr front back, or_assoc)

pub first-append : (xs ys : Cells) (nxt : Ptr) → first (xs ++ ys) nxt ≡ first xs (first ys nxt)
first-append [] ys nxt = refl
first-append ((p, e) ∷ xs) ys nxt = refl

pub last-append : (prv : Ptr) (xs ys : Cells) → last prv (xs ++ ys) ≡ last (last prv xs) ys
last-append prv [] ys = refl
last-append prv ((p, e) ∷ xs) ys = last-append p xs ys

-- A list is empty or has a last cell.
pub snoc-cases :
    (xs : Cells) → (xs ≡ []) ⊎ ((ys : Cells) × (p : Ptr) × (e : Ptr) × (xs ≡ ys ++ (p, e) ∷ []))
snoc-cases [] = inl refl
snoc-cases ((p, e) ∷ xs) = elim (snoc-cases xs) [
  | inl none ↦ inr ([], p, e, rw none)
  | inr (ys, q, f, more) ↦ inr ((p, e) ∷ ys, q, f, rw more)
]

pub frame :
    (h g : Heap) (prv : Ptr) (xs : Cells) (nxt : Ptr)
    → ((a : Ptr) → has a xs ≡ true → g a ≡ h a)
    → Seg h prv xs nxt
    → Seg g prv xs nxt
frame h g prv [] nxt same s = tt
frame h g prv ((p, e) ∷ xs) nxt same s =
    (s.0, ground (arith, same p), frame h g p xs nxt (λ a m. same a (ground arith)) s.2)

pub Seg-append :
    (h : Heap) (prv : Ptr) (xs ys : Cells) (nxt : Ptr)
    → Seg h prv xs (first ys nxt)
    → Seg h (last prv xs) ys nxt
    → Seg h prv (xs ++ ys) nxt
Seg-append h prv [] ys nxt s t = t
Seg-append h prv ((p, e) ∷ xs) ys nxt s t =
    (s.0, rw (first-append xs ys nxt) s.1, Seg-append h p xs ys nxt s.2 t)

pub Seg-split :
    (h : Heap) (prv : Ptr) (xs ys : Cells) (nxt : Ptr)
    → Seg h prv (xs ++ ys) nxt
    → Seg h prv xs (first ys nxt) × Seg h (last prv xs) ys nxt
Seg-split h prv [] ys nxt s = (tt, s)
Seg-split h prv ((p, e) ∷ xs) ys nxt s =
    let (front, back) = Seg-split h p xs ys nxt s.2 in
    ((s.0, rw (first-append xs ys nxt) at s.1, front), back)

-- Disjoint lists of distinct addresses.
pub Distinct-append :
    (xs ys : Cells)
    → Distinct xs
    → Distinct ys
    → ((a : Ptr) → has a xs ≡ true → has a ys ≡ false)
    → Distinct (xs ++ ys)
Distinct-append [] ys d e apart = e
Distinct-append ((p, _) ∷ xs) ys d e apart = (
  rw (has-append p xs ys) (ground (arith, apart p)),
  Distinct-append xs ys d.1 e (λ a m. apart a (ground arith)),
)

pub Distinct-split :
    (xs ys : Cells)
    → Distinct (xs ++ ys)
    → Distinct xs × Distinct ys × ((a : Ptr) → has a xs ≡ true → has a ys ≡ false)
Distinct-split [] ys d = (tt, d, λ a m. cc)
Distinct-split ((p, _) ∷ xs) ys d =
    let (dx, dy, apart) = Distinct-split xs ys d.1 in
    (
      (ground (arith, has-append p xs ys), dx),
      dy,
      λ a m. ground (arith, has-append p xs ys, apart a),
    )

pub not-has-append :
    (a : Ptr) (xs ys : Cells) → has a (xs ++ ys) ≡ false → (has a xs ≡ false) × (has a ys ≡ false)
not-has-append a xs ys out = ground (arith, has-append a xs ys)

pub not-has-cell : (a b e : Ptr) → has a ((b, e) ∷ []) ≡ false → b ≢ a
not-has-cell a b e out = ground arith

pub ne_of_has : (a b : Ptr) (xs : Cells) → has a xs ≡ true → has b xs ≡ false → a ≢ b
ne_of_has a b xs m out e = cc (ap (λ c. has c xs) e)

-- The one address that a list loses with its cell `b`.
pub eq_of_lost :
    (a b e : Ptr) (ys zs : Cells)
    → has a (ys ++ (b, e) ∷ zs) ≡ true
    → has a (ys ++ zs) ≡ false
    → a ≡ b
eq_of_lost a b e ys zs m out = ground (arith, has-append a ys ((b, e) ∷ zs), has-append a ys zs)

pub not-has-without :
    (a b e : Ptr) (ys zs : Cells)
    → has a (ys ++ (b, e) ∷ zs) ≡ false
    → (b ≢ a) × (has a (ys ++ zs) ≡ false)
not-has-without a b e ys zs out = (
  λ q. ground (arith, has-append a ys ((b, e) ∷ zs)),
  ground (arith, has-append a ys ((b, e) ∷ zs), has-append a ys zs),
)
