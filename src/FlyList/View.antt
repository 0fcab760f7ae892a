-- ===== src/FlyList/View.antt =====
-- What a list of src/fly_list.h means to its users: the sequence of its elements, with the
-- operations on it that the functions over memory are proved to implement.
use libfly.Prelude.{
  ◌≡◌, refl, inl, inr, ◌⊎◌, Bool, false, ◌||◌, List, [], ◌∷◌, ◌++◌, ap, arith, ◌==◌, Bool-cases,
  if◌then◌else◌,
}
use libfly.Memory.{Ptr, null}
use libfly.FlyList.Segment.{Cells}

unfoldable pub els : Cells → List Ptr
els [] = []
els ((p, e) ∷ xs) = e ∷ els xs

-- `fly_list_append`
abbrev pub push_back : List Ptr → Ptr → List Ptr
push_back es el = es ++ el ∷ []

-- `fly_list_remove`: the first occurrence goes.
unfoldable pub erase : Ptr → List Ptr → List Ptr
erase el [] = []
erase el (e ∷ es) = if e == el then es else e ∷ erase el es

unfoldable pub member : Ptr → List Ptr → Bool
member el [] = false
member el (e ∷ es) = (e == el) || member el es

-- `fly_list_tail_remove`: the last element, `NULL` where there is none, and the others.
unfoldable pub pop_back : List Ptr → Ptr × List Ptr
pop_back [] = (null, [])
pop_back (e ∷ []) = (e, [])
pop_back (e ∷ f ∷ es) = let (last, rest) = pop_back (f ∷ es) in (last, e ∷ rest)

pub els-append : (xs ys : Cells) → els (xs ++ ys) ≡ els xs ++ els ys
unfolding els
els-append [] ys = refl
els-append ((p, e) ∷ xs) ys = ap (λ es. e ∷ es) (els-append xs ys)

pub els-snoc : (xs : Cells) (p e : Ptr) → els (xs ++ (p, e) ∷ []) ≡ push_back (els xs) e
unfolding els
els-snoc xs p e = els-append xs ((p, e) ∷ [])

pub pop_back-push_back : (es : List Ptr) (el : Ptr) → pop_back (push_back es el) ≡ (el, es)
unfolding pop_back
pop_back-push_back [] el = refl
pop_back-push_back (e ∷ []) el = refl
pop_back-push_back (e ∷ f ∷ es) el = rw (pop_back-push_back (f ∷ es) el)

pub erase-append :
    (el : Ptr) (es fs : List Ptr) → member el es ≡ false → erase el (es ++ fs) ≡ es ++ erase el fs
unfolding erase member
erase-append el [] fs out = refl
erase-append el (e ∷ es) fs out = ground (arith, erase-append el es fs)

pub erase-absent : (el : Ptr) (es : List Ptr) → member el es ≡ false → erase el es ≡ es
unfolding erase member
erase-absent el [] out = refl
erase-absent el (e ∷ es) out = ground (arith, erase-absent el es)

pub erase-first :
    (el : Ptr) (xs : Cells) (p : Ptr) (zs : Cells)
    → member el (els xs) ≡ false
    → els (xs ++ zs) ≡ erase el (els (xs ++ (p, el) ∷ zs))
unfolding els
erase-first el xs p zs out =
    rw (els-append xs zs, els-append xs ((p, el) ∷ zs), erase-append el (els xs) (el ∷ els zs) out)
      (ap (λ es. els xs ++ es) (erase-head el (els zs)))
  where
    erase-head : (e : Ptr) (es : List Ptr) → es ≡ erase e (e ∷ es)
    erase-head e es = unfold erase in ground arith

-- The first cell with an element, where there is one.
pub cell-cases :
    (el : Ptr) (xs : Cells)
    → (member el (els xs) ≡ false)
      ⊎ ((ys : Cells) × (b : Ptr) × (zs : Cells) × (xs ≡ ys ++ (b, el) ∷ zs)
          × (member el (els ys) ≡ false))
unfolding els member
cell-cases el [] = inl refl
cell-cases el ((p, e) ∷ xs) = elim (Bool-cases (e == el)) [
  | inl here ↦ inr ([], p, xs, ground arith, refl)
  | inr other ↦ elim (cell-cases el xs) [
    | inl absent ↦ inl (ground arith)
    | inr (ys, b, zs, split, first) ↦ inr ((p, e) ∷ ys, b, zs, rw split, ground arith)
  ]
]
