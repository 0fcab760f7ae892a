-- ===== src/Memdebug.antt =====
-- The table of blocks in use of src/fly_memdebug.h, and the default allocator of src/fly.c that
-- keeps it. The arrays `fly_mem_ptrs` and `fly_mem_sizes` are one family: slot `i` is their entries
-- at `i`. What a new array holds is an argument. The two arrays of `fly_init_memdebug` are taken to
-- be had, and the mutex around each macro makes it one step.
pub mod Slots
pub mod Leaks
pub mod Full
mod Examples
use libfly.Prelude.{
  ℕ, zero, suc, ◌+◌, ◌-◌, ◌*◌, Bool, true, false, Option, none, some, List, [], ◌∷◌, ◌==◌, ltb,
  if◌then◌else◌, change,
}

pub record Slot : Type 0 where
  pub ptr : ℕ
  pub size : ℕ

abbrev pub empty : Slot
empty = record { ptr = 0; size = 0 }

pub record Table : Type 0 where
  pub slots : ℕ → Slot
  pub array_size : ℕ

-- FLY_MEM_START_ARR_SIZE
abbrev pub start_arr_size : ℕ
start_arr_size = 256

-- `fly_mem_count_alloc_try_add` at `i`, with `left` rounds to go.
unfoldable pub try_add : (left i : ℕ) → Slot → (ℕ → Slot) → ℕ × (ℕ → Slot)
try_add zero i new slots = (0, slots)
try_add (suc left) i new slots =
    let rest = try_add left (i + 1) new slots in
    if (slots i).ptr == 0 then (1, change slots i new) else rest

-- The loop of `fly_init_memdebugf`.
unfoldable pub clear : (left i : ℕ) → (ℕ → Slot) → ℕ → Slot
clear zero i slots = slots
clear (suc left) i slots = clear left (i + 1) (change slots i empty)

-- `fly_init_memdebugf`; `garbage` is what the two arrays hold.
unfoldable pub init_memdebug : (garbage : ℕ → Slot) → Table
init_memdebug garbage = record {
  slots = clear start_arr_size 0 garbage;
  array_size = start_arr_size;
}

-- What the two calls of `realloc` give: whether both succeed, and what the new entries hold.
pub record Growth : Type 0 where
  pub ok : Bool
  pub garbage : ℕ → Slot

-- The arrays behind `realloc`.
unfoldable pub grown : Growth → Table → ℕ → Slot
grown g t i = if ltb i t.array_size then t.slots i else g.garbage i

-- `fly_mem_count_alloc`. `none`: a `realloc` fails, and the loops run up to a size that an array
-- does not have.
unfoldable pub count_alloc : Growth → Slot → Table → Option Table
count_alloc g new t =
    let (added, slots) = try_add t.array_size 0 new t.slots in
    let array_size = t.array_size * 2 in
    let (_, slots') = try_add (array_size - t.array_size) t.array_size new (grown g t) in
    if new.ptr == 0
    then some t
    else (if added == 1
        then some (record t { slots = slots })
        else (if g.ok then some (record { slots = slots'; array_size = array_size }) else none))

-- The loop of `fly_mem_count_free` at `i`, with `left` rounds to go.
unfoldable pub forget : (left i ptr : ℕ) → (ℕ → Slot) → ℕ → Slot
forget zero i ptr slots = slots
forget (suc left) i ptr slots =
    let rest = forget left (i + 1) ptr slots in
    if (slots i).ptr == ptr then change slots i empty else rest

-- `fly_mem_count_free`
unfoldable pub count_free : (ptr : ℕ) → Table → Table
count_free ptr t = record t { slots = forget t.array_size 0 ptr t.slots }

-- The loop of `fly_memdebug_report`: the blocks that it prints.
unfoldable pub report_loop : (left i : ℕ) → (ℕ → Slot) → List Slot
report_loop zero i slots = []
report_loop (suc left) i slots =
    let rest = report_loop left (i + 1) slots in if (slots i).ptr == 0 then rest else slots i ∷ rest

-- `fly_memdebug_report`
unfoldable pub report : Table → List Slot
report t = report_loop t.array_size 0 t.slots

-- `fly_default_malloc`, where `malloc` returns the address `ptr`, or 0; and `fly_default_free`.
unfoldable pub default_malloc : Growth → (ptr size : ℕ) → Table → Option Table
default_malloc g ptr size t = count_alloc g (record { ptr = ptr; size = size }) t

unfoldable pub default_free : (ptr : ℕ) → Table → Table
default_free ptr t = count_free ptr t
