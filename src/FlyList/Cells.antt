-- ===== src/FlyList/Cells.antt =====
-- The single reads and writes of src/fly_list.h at a cell that is known, and changes of memory
-- that keep a list.
use mathlib.Core.Path.{fun_ext}
use libfly.Prelude.{◌≡◌, ◌≢◌, some, none, arith, Option}
use libfly.Memory.{Ptr, null, Node, node, Heap, write, ok, load, set_next, set_prev, set_el, free}
use libfly.FlyList.{init_with_el}

pub write-write : (h : Heap) (p : Ptr) (c d : Option Node) → write (write h p c) p d ≡ write h p d
unfolding write
write-write h p c d = fun_ext (λ a. ground arith)

pub write-ne : (h : Heap) {p a : Ptr} (c : Option Node) → p ≢ a → write h p c a ≡ h a
unfolding write
write-ne h c ne = ground arith

-- At `p` stands a cell with the fields `n`.
pub record Holds (h : Heap) (p : Ptr) (n : Node) : Type 0 where
  pub ne_null : p ≢ null
  pub at : h p ≡ some n

module _ {h : Heap} {p : Ptr} {n : Node} (e : Holds h p n) where
  pub load-ok : load p h ≡ ok n h
  unfolding load
  load-ok = ground arith

  pub set_next-ok : (q : Ptr) → set_next p q h ≡ ok tt (write h p (some (record n { next = q })))
  unfolding set_next
  set_next-ok q = rw load-ok

  pub set_prev-ok : (q : Ptr) → set_prev p q h ≡ ok tt (write h p (some (record n { prev = q })))
  unfolding set_prev
  set_prev-ok q = rw load-ok

  pub set_el-ok : (q : Ptr) → set_el p q h ≡ ok tt (write h p (some (record n { el = q })))
  unfolding set_el
  set_el-ok q = rw load-ok

  pub free-ok : free p h ≡ ok tt (write h p none)
  unfolding free
  free-ok = rw load-ok

pub Holds-write : (h : Heap) {p : Ptr} (n : Node) → p ≢ null → Holds (write h p (some n)) p n
unfolding write
Holds-write h n ne = record { ne_null = ne; at = ground arith }

pub init_with_el-ok :
    {h : Heap} {p : Ptr} {n : Node} (el : Ptr)
    → Holds h p n
    → init_with_el p el h ≡ ok tt (write h p (some (node null null el)))
unfolding init_with_el
init_with_el-ok {h} {p} {n} el e = rw (
  set_next-ok e null,
  set_prev-ok (Holds-write h (record n { next = null }) e.ne_null) null,
  write-write,
  set_el-ok (Holds-write h (node null null n.el) e.ne_null) el,
  write-write,
)
