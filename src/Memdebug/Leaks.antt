-- ===== src/Memdebug/Leaks.antt =====
-- What `fly_memdebug_report` of src/fly_memdebug.h lists behind any use of the allocator.
use libfly.Prelude.{
  ℕ, ◌+◌, ◌≤◌, ◌<◌, ◌≡◌, refl, ◌≢◌, ap, sym, ◌∙◌, inl, inr, false, Option, some, List, [], ◌∷◌,
  arith, ◌==◌, if◌then◌else◌, change, total, total-change, total-zero_with, weigh, length,
  Bool-cases,
}
use mathlib.Core.Path.{subst}
use libfly.Prelude.Options.{◌>>=◌}
use libfly.Memdebug.{
  Slot, Table, Growth, empty, try_add, forget, count_alloc, count_free, report, default_malloc,
  default_free, init_memdebug, start_arr_size, clear,
}
use libfly.Memdebug.Slots.{
  used, only, one, Added, filled, full, Forgot, emptied, unknown, try_add-Added, forget-Forgot,
  total-zero_below, total-full, report_loop-total, clear-empty,
}

-- A use of the allocator: a `malloc` that returned `ptr`, or 0, or a `free` of `ptr`.
pub data Use : Type 0 where
  alloc : (ptr size : ℕ) → Use
  release : (ptr : ℕ) → Use

-- The code, use by use.
unfoldable pub run : Growth → List Use → Table → Option Table
run g [] t = some t
run g (alloc ptr size ∷ us) t = do t' ← default_malloc g ptr size t; run g us t'
run g (release ptr ∷ us) t = run g us (default_free ptr t)

-- The blocks that are in use, told without the table.
unfoldable pub without : (ptr : ℕ) → List Slot → List Slot
without ptr [] = []
without ptr (b ∷ bs) = if b.ptr == ptr then without ptr bs else b ∷ without ptr bs

unfoldable pub in_use : List Use → List Slot → List Slot
in_use [] bs = bs
in_use (alloc ptr size ∷ us) bs =
    in_use us (if ptr == 0 then bs else record { ptr = ptr; size = size } ∷ bs)
in_use (release ptr ∷ us) bs = in_use us (without ptr bs)

-- The number of blocks at an address.
abbrev pub times : (ptr : ℕ) → List Slot → ℕ
times ptr bs = weigh (only ptr one) bs

-- `malloc` returns no address that is in use, and never more than `room` blocks are in use.
unfoldable pub Fits : (room : ℕ) → List Use → List Slot → Type 0
Fits room [] bs = Unit
Fits room (alloc ptr size ∷ us) bs =
    (times ptr bs ≡ 0)
    × (length bs < room)
    × Fits room us (if ptr == 0 then bs else record { ptr = ptr; size = size } ∷ bs)
Fits room (release ptr ∷ us) bs = Fits room us (without ptr bs)

-- The table holds exactly the blocks: under every weight, the used slots weigh as much as they do.
record Holds (t : Table) (bs : List Slot) : Type 0 where
  weights : (w : Slot → ℕ) → total (used w) t.array_size t.slots ≡ weigh w bs
  once : (ptr : ℕ) → times ptr bs ≤ 1
  real : weigh (only 0 one) bs ≡ 0

weigh-without :
    (w : Slot → ℕ) (ptr : ℕ) (bs : List Slot)
    → weigh w (without ptr bs) + weigh (only ptr w) bs ≡ weigh w bs
unfolding without weigh
weigh-without w ptr [] = refl
weigh-without w ptr (b ∷ bs) = ground (arith, weigh-without w ptr bs)

weigh-one : (bs : List Slot) → weigh one bs ≡ length bs
unfolding weigh
weigh-one [] = refl
weigh-one (b ∷ bs) = omega (arith, weigh-one bs)

-- A free slot is found while fewer slots are used than there are.
Added-filled :
    (n : ℕ) (new : Slot) (slots : ℕ → Slot) (out : ℕ × (ℕ → Slot))
    → Added n 0 new slots out
    → total (used one) n slots < n
    → (k : ℕ) × (k < n) × ((slots k).ptr ≡ 0) × (out ≡ (1, change slots k new))
Added-filled n new slots out (filled k le lt e) room = (k, omega arith, e, refl)
Added-filled n new slots out (full no_free) room =
    let all = total-full (used one) n slots (λ k lt. ground (arith, no_free k)) in
    absurd (omega (arith, all))

alloc-Holds :
    (g : Growth) (ptr size : ℕ) (t : Table) (bs : List Slot)
    → Holds t bs
    → times ptr bs ≡ 0
    → length bs < t.array_size
    → ptr ≢ 0
    → (t' : Table) × (default_malloc g ptr size t ≡ some t')
      × (t'.array_size ≡ t.array_size)
      × Holds t' (record { ptr = ptr; size = size } ∷ bs)
unfolding default_malloc count_alloc weigh
alloc-Holds g ptr size t bs h fresh room real =
    let new : Slot = record { ptr = ptr; size = size } in
    let (k, lt, e, out) =
      Added-filled t.array_size new t.slots (try_add t.array_size 0 new t.slots)
        (try_add-Added t.array_size 0 new t.slots) (omega (arith, h.weights one, weigh-one bs)) in
    let not_null : (ptr == 0) ≡ false = ground arith in
    (
      record t { slots = change t.slots k new },
      rw (not_null, out),
      refl,
      record {
        weights =
            λ w. ground (arith, h.weights w, total-change (used w) t.array_size t.slots k new lt);
        once = λ q. elim (Bool-cases (ptr == q)) [
          | inl same ↦
              let e' : ptr ≡ q = ground arith in
              let none : times q bs ≡ 0 = ap (λ x. times x bs) (sym e') ∙ fresh in
              ground (arith, none)
          | inr differ ↦ ground (arith, h.once q)
        ];
        real = ground (arith, h.real);
      },
    )

-- Emptying the first slot of an address that at most one slot has takes that slot's weight away.
Forgot-total :
    (n ptr : ℕ) (slots out : ℕ → Slot) (w : Slot → ℕ)
    → Forgot n 0 ptr slots out
    → total (used (only ptr one)) n slots ≤ 1
    → (ptr ≡ 0 → total (used (only ptr one)) n slots ≡ 0)
    → total (used w) n out + total (used (only ptr w)) n slots ≡ total (used w) n slots
Forgot-total n ptr slots out w (emptied k le lt e) once null =
    let below : k < n = omega arith in
    let others : total (used (only ptr one)) n (change slots k empty) ≡ 0 =
      ground (arith, total-change (used (only ptr one)) n slots k empty below, null) in
    let gone =
      total-zero_with (used (only ptr one)) (used (only ptr w)) n (change slots k empty)
        (λ s z. ground arith) others in
    ground (
      arith,
      total-change (used w) n slots k empty below,
      total-change (used (only ptr w)) n slots k empty below,
      gone,
    )
Forgot-total n ptr slots out w (unknown no_slot) once null =
    let gone = total-zero_below (used (only ptr w)) n slots (λ k lt. ground (arith, no_slot k)) in
    omega (arith, gone)

free-Holds :
    (ptr : ℕ) (t : Table) (bs : List Slot)
    → Holds t bs
    → Holds (default_free ptr t) (without ptr bs)
unfolding default_free count_free
free-Holds ptr t bs h = record {
  weights = λ w.
      let taken =
        Forgot-total t.array_size ptr t.slots (forget t.array_size 0 ptr t.slots) w
          (forget-Forgot t.array_size 0 ptr t.slots)
          (omega (arith, h.weights (only ptr one), h.once ptr))
          (λ e.
            ap (λ q. total (used (only q one)) t.array_size t.slots) e
            ∙ h.weights (only 0 one)
            ∙ h.real) in
      omega (arith, taken, h.weights w, h.weights (only ptr w), weigh-without w ptr bs);
  once = λ q. omega (arith, h.once q, weigh-without (only q one) ptr bs);
  real = omega (arith, h.real, weigh-without (only 0 one) ptr bs);
}

malloc-Holds :
    (g : Growth) (ptr size : ℕ) (t : Table) (bs : List Slot)
    → Holds t bs
    → times ptr bs ≡ 0
    → length bs < t.array_size
    → (t' : Table) × (default_malloc g ptr size t ≡ some t')
      × (t'.array_size ≡ t.array_size)
      × Holds t' (if ptr == 0 then bs else record { ptr = ptr; size = size } ∷ bs)
unfolding default_malloc count_alloc
malloc-Holds g ptr size t bs h fresh room = elim (Bool-cases (ptr == 0)) [
  | inl null ↦ (t, rw null, refl, rw null h)
  | inr real ↦
      let ne : ptr ≢ 0 = ground arith in
      let (t', e, same, h') = alloc-Holds g ptr size t bs h fresh room ne in
      (t', e, same, rw real h')
]

run-Holds :
    (g : Growth) (us : List Use) (t : Table) (bs : List Slot)
    → Holds t bs
    → Fits t.array_size us bs
    → (t' : Table) × (run g us t ≡ some t') × Holds t' (in_use us bs)
unfolding run in_use Fits default_free count_free
run-Holds g [] t bs h fits = (t, refl, h)
run-Holds g (alloc ptr size ∷ us) t bs h fits =
    let more = if ptr == 0 then bs else record { ptr = ptr; size = size } ∷ bs in
    let (t1, e, same, h1) = malloc-Holds g ptr size t bs h fits.0 fits.1 in
    let (t2, e2, h2) = run-Holds g us t1 more h1 (subst (λ n. Fits n us more) (sym same) fits.2) in
    (t2, ap (λ o. o >>= run g us) e ∙ e2, h2)
run-Holds g (release ptr ∷ us) t bs h fits =
    run-Holds g us (default_free ptr t) (without ptr bs) (free-Holds ptr t bs h) fits

init_memdebug-Holds : (garbage : ℕ → Slot) → Holds (init_memdebug garbage) []
unfolding init_memdebug weigh
init_memdebug-Holds garbage = record {
  weights = λ w. total-zero_below (used w) start_arr_size (clear start_arr_size 0 garbage) (λ k lt.
      ap (used w) (clear-empty start_arr_size 0 garbage k (λ j below. absurd (omega arith)) lt));
  once = λ ptr. omega arith;
  real = refl;
}

report-total : (t : Table) (w : Slot → ℕ) → weigh w (report t) ≡ total (used w) t.array_size t.slots
unfolding report total
report-total t w =
    let e : 0 + t.array_size ≡ t.array_size = omega arith in
    let same : total (used w) (0 + t.array_size) t.slots ≡ total (used w) t.array_size t.slots =
      ap (λ n. total (used w) n t.slots) e in
    omega (arith, report_loop-total t.array_size 0 t.slots w, same)

-- After `fly_init_memdebug`, whatever the two arrays held, and then any number of calls of the default
-- `fly_malloc` and `fly_free`, in any order: if `malloc` returns 0 or an address that is not in use,
-- and never finds 256 blocks in use, the table keeps up, and the report lists the blocks that are in
-- use and nothing else: under every weight it weighs as much as they do.
pub report-in_use :
    (garbage : ℕ → Slot) (g : Growth) (us : List Use) (w : Slot → ℕ)
    → Fits start_arr_size us []
    → (t : Table) × (run g us (init_memdebug garbage) ≡ some t)
      × (weigh w (report t) ≡ weigh w (in_use us []))
unfolding init_memdebug
report-in_use garbage g us w fits =
    let (t, e, h) = run-Holds g us (init_memdebug garbage) [] (init_memdebug-Holds garbage) fits in
    (t, e, report-total t w ∙ h.weights w)
