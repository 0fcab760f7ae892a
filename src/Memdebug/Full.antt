-- ===== src/Memdebug/Full.antt =====
-- The growth of the full table of src/fly_memdebug.h.
use libfly.Prelude.{
  ℕ, zero, suc, ◌+◌, ◌-◌, ◌*◌, ◌≤◌, ◌<◌, ◌≡◌, refl, ◌≢◌, true, false, some, arith, ◌==◌,
}
use libfly.Memdebug.{Slot, Table, Growth, try_add, grown, count_alloc}

try_add-full :
    (left i : ℕ) (new : Slot) (slots : ℕ → Slot)
    → ((k : ℕ) → i ≤ k → k < i + left → (slots k).ptr ≢ 0)
    → try_add left i new slots ≡ (0, slots)
unfolding try_add
try_add-full zero i new slots taken = refl
try_add-full (suc left) i new slots taken =
    let other : ((slots i).ptr == 0) ≡ false = ground (arith, taken i) in
    rw (other, try_add-full left (i + 1) new slots (λ k le lt. taken k (omega arith) (omega arith)))

-- A block that is counted while every slot is used, with a `realloc` that succeeds and leaves no 0 in
-- the new half: the block gets no slot, and what the new half holds becomes part of the table.
pub count_alloc-full :
    (g : Growth) (new : Slot) (t : Table)
    → g.ok ≡ true
    → new.ptr ≢ 0
    → ((k : ℕ) → k < t.array_size → (t.slots k).ptr ≢ 0)
    → ((k : ℕ) → (g.garbage k).ptr ≢ 0)
    → count_alloc g new t ≡ some (record { slots = grown g t; array_size = t.array_size * 2 })
unfolding count_alloc grown
count_alloc-full g new t ok real taken no_null =
    let old = try_add-full t.array_size 0 new t.slots (λ k le lt. taken k (omega arith)) in
    let half =
      try_add-full (t.array_size * 2 - t.array_size) t.array_size new (grown g t)
        (λ k le lt. ground (arith, no_null k)) in
    let not_null : (new.ptr == 0) ≡ false = ground arith in rw (not_null, old, ok, half)
