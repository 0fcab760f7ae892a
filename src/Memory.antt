-- ===== src/Memory.antt =====
-- The memory that src/fly_list.h works on: `struct fly_list` cells at addresses, and commands that
-- read and write them. A list's header is such a cell too.
use libfly.Prelude.{ℕ, Option, none, some, ◌==◌, if◌then◌else◌}

abbrev pub Ptr : Type 0
Ptr = ℕ

abbrev pub null : Ptr
null = 0

-- `struct fly_list`
pub record Node : Type 0 where
  pub next : Ptr
  pub prev : Ptr
  pub el : Ptr

abbrev pub node : (next prev el : Ptr) → Node
node n p e = record { next = n; prev = p; el = e }

-- `none`: no cell is allocated there.
abbrev pub Heap : Type 0
Heap = Ptr → Option Node

unfoldable pub write : Heap → Ptr → Option Node → Heap
write h p c a = if p == a then c else h a

-- `fault`: a `NULL` or dangling pointer was followed. `out_of_fuel`: a loop used up its rounds.
pub data Run {ℓ} (A : Type ℓ) : Type ℓ where
  fault : Run A
  out_of_fuel : Run A
  ok : A → Heap → Run A

abbrev pub Cmd : Type 0 → Type 0
Cmd Result = Heap → Run Result

abbrev pub pure : {Result : Type 0} → Result → Cmd Result
pure result h = ok result h

module _ {A B : Type 0} where
  -- A run that ends goes on in the memory that it leaves; a fault ends all.
  abbrev pub and_then : (A → Cmd B) → Run A → Run B
  and_then next out_of_fuel = out_of_fuel
  and_then next fault = fault
  and_then next (ok result left) = next result left

  infixl 5 ◌>>◌ ◌>>=◌
  abbrev pub ◌>>◌ : Cmd A → Cmd B → Cmd B
  ◌>>◌ first second h = and_then (λ _. second) (first h)

  abbrev pub ◌>>=◌ : Cmd A → (A → Cmd B) → Cmd B
  ◌>>=◌ first next h = and_then next (first h)

abbrev pub when : {A : Type 0} → Option Node → (Node → Run A) → Run A
when none k = fault
when (some n) k = k n

unfoldable pub load : Ptr → Cmd Node
load p h = if p == null then fault else when (h p) (λ n. ok n h)

-- `p->next = q`, `p->prev = q`, `p->el = e`
unfoldable pub set_next : Ptr → Ptr → Cmd (Unit {0})
set_next p q = do n ← load p; (λ h. ok tt (write h p (some (record n { next = q }))))

unfoldable pub set_prev : Ptr → Ptr → Cmd (Unit {0})
set_prev p q = do n ← load p; (λ h. ok tt (write h p (some (record n { prev = q }))))

unfoldable pub set_el : Ptr → Ptr → Cmd (Unit {0})
set_el p e = do n ← load p; (λ h. ok tt (write h p (some (record n { el = e }))))

-- A cell from `fly_malloc`, at the address `fresh` that it returned, with what it held before.
unfoldable pub alloc : (fresh : Ptr) → (garbage : Node) → Cmd (Unit {0})
alloc fresh garbage h = ok tt (write h fresh (some garbage))

unfoldable pub free : Ptr → Cmd (Unit {0})
free p = do n ← load p; (λ h. ok tt (write h p none))
