-- ===== src/FlyList.antt =====
-- src/fly_list.h: the functions of the intrusive doubly linked list, over explicit memory.
-- `list` is the address of the header, whose `next` is the head and whose `prev` is the tail.
-- `fresh` is what `fly_malloc` returns and `garbage` what it leaves in the cell. The two loops run
-- on fuel, which the theorems bound by the length of the list.
pub mod Segment
mod Cells
mod Around
pub mod Examples
pub mod Append
pub mod Remove
pub mod View
pub mod Search
pub mod Prepend
use libfly.Prelude.{ℕ, zero, suc, Bool, ◌==◌, if◌then◌else◌}
use libfly.Memory.{
  Ptr, null, Node, Cmd, out_of_fuel, pure, ◌>>=◌, ◌>>◌, load, set_next, set_prev, set_el, alloc,
  free,
}
use libfly.Errors.{Errcode, success, no_resources}

unfoldable pub init_with_el : Ptr → Ptr → Cmd (Unit {0})
init_with_el list el = do set_next list null; set_prev list null; set_el list el

unfoldable pub init : Ptr → Cmd (Unit {0})
init list = do set_next list null; set_prev list null; set_el list null

unfoldable pub head : Ptr → Cmd Ptr
head list = do l ← load list; pure l.next

unfoldable pub tail : Ptr → Cmd Ptr
tail list = do l ← load list; pure l.prev

unfoldable pub append_node : (list node : Ptr) → Cmd (Unit {0})
append_node list node = do
  l ← load list
  (if l.prev == null
      then set_next list node
      else do set_next l.prev node; l' ← load list; set_prev node l'.prev)
  set_prev list node

unfoldable pub append : (fresh : Ptr) (garbage : Node) (list el : Ptr) → Cmd Errcode
append fresh garbage list el =
    if fresh == null
    then pure no_resources
    else do alloc fresh garbage; init_with_el fresh el; append_node list fresh; pure success

unfoldable pub prepend_node : (list node : Ptr) → Cmd (Unit {0})
prepend_node list node = do l ← load list; set_next node l.next; set_next list node

unfoldable pub prepend : (fresh : Ptr) (garbage : Node) (list el : Ptr) → Cmd Errcode
prepend fresh garbage list el =
    if fresh == null
    then pure no_resources
    else do alloc fresh garbage; init_with_el fresh el; prepend_node list fresh; pure success

-- `while (head && (head != node)) head = head->next;`
unfoldable pub seek_node : ℕ → (head node : Ptr) → Cmd Ptr
seek_node zero head node = λ h. out_of_fuel
seek_node (suc k) head node =
    if head == null
    then pure head
    else if head == node
    then pure head
    else do n ← load head; seek_node k n.next node

-- `if (list->next == node) list->next = node->next;`
unfoldable pub unhook_next : (list node : Ptr) → Cmd (Unit {0})
unhook_next list node = do
  l ← load list
  if l.next == node then (do n ← load node; set_next list n.next) else pure tt

-- `if (list->prev == node) list->prev = node->prev;`
unfoldable pub unhook_prev : (list node : Ptr) → Cmd (Unit {0})
unhook_prev list node = do
  l ← load list
  if l.prev == node then (do n ← load node; set_prev list n.prev) else pure tt

-- `if (head->prev) head->prev->next = head->next;`
unfoldable pub bypass_next : (head : Ptr) → Cmd (Unit {0})
bypass_next head = do n ← load head; if n.prev == null then pure tt else set_next n.prev n.next

-- `if (head->next) head->next->prev = head->prev;`
unfoldable pub bypass_prev : (head : Ptr) → Cmd (Unit {0})
bypass_prev head = do n ← load head; if n.next == null then pure tt else set_prev n.next n.prev

unfoldable pub remove_node : (fuel : ℕ) (list node : Ptr) → Cmd (Unit {0})
remove_node fuel list node = do
  first ← head list
  unhook_next list node
  unhook_prev list node
  found ← seek_node fuel first node
  if found == null then pure tt else do bypass_next found; bypass_prev found

-- `while (node && (node->el != el)) node = node->next;`
unfoldable pub seek_el : ℕ → (node el : Ptr) → Cmd Ptr
seek_el zero node el = λ h. out_of_fuel
seek_el (suc k) node el =
    if node == null
    then pure node
    else do n ← load node; if n.el == el then pure node else seek_el k n.next el

unfoldable pub get : (fuel : ℕ) (list el : Ptr) → Cmd Ptr
get fuel list el = do l ← load list; seek_el fuel l.next el

unfoldable pub remove : (fuel : ℕ) (list el : Ptr) → Cmd (Unit {0})
remove fuel list el = do
  node ← get fuel list el
  if node == null then pure tt else do remove_node fuel list node; free node

unfoldable pub is_empty : Ptr → Cmd Bool
is_empty list = do l ← load list; pure (l.next == null)

unfoldable pub tail_remove : (fuel : ℕ) (list : Ptr) → Cmd Ptr
tail_remove fuel list = do
  node ← tail list
  if node == null
      then pure null
      else do n ← load node; remove_node fuel list node; free node; pure n.el
