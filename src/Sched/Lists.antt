-- ===== src/Sched/Lists.antt =====
-- The lists of jobs of the scheduler stand for lists of src/fly_list.h in memory: the operations of
-- Sched on sequences are what the functions of FlyList do to the elements of such a list.
mod Examples
use libfly.Prelude.{
  ℕ, ◌<◌, ◌≡◌, refl, ◌≢◌, ap, sym, ◌∙◌, ◌⊎◌, inl, inr, Bool, true, false, none, List, [], ◌∷◌, ◌++◌,
  length, if◌then◌else◌,
}
use libfly.Errors.{Errcode, success, no_resources}
use libfly.Memory.{Ptr, null, Node, Heap, Run, ok}
use libfly.Malloc.{Memory, malloc}
use libfly.FlyList.{append, remove, tail_remove}
use libfly.FlyList.Segment.{Cells, IsList}
use libfly.FlyList.View.{els, els-snoc, pop_back, erase}
use libfly.FlyList.Append.{append_lem, append-null}
use libfly.FlyList.Search.{remove_lem, tail_remove_lem}
use libfly.Sched.{list_append, list_remove, list_tail_remove}
use libfly.Sched.Complete.{list_remove-erase}

-- The memory `g` holds at `list` a list with the elements `es`.
abbrev pub Holds : Heap → Ptr → List Ptr → Type 0
Holds g list es = (left : Cells) × IsList g list left × (els left ≡ es)

-- The address `fresh` is what `fly_malloc` returns: `NULL`, or an address that is not in use.
abbrev pub Returned : Heap → Ptr → (got : Bool) → Type 0
Returned h fresh got =
    ((got ≡ true) × (fresh ≢ null) × (h fresh ≡ none)) ⊎ ((got ≡ false) × (fresh ≡ null))

-- `fly_list_append` on a list in memory, whether `fly_malloc` returns an address that is not in use or
-- `NULL`: it returns the code that
-- the operation on the sequence of elements returns, and leaves a list of the elements that this leaves.
pub append-list_append :
    (h : Heap) (list fresh el : Ptr) (garbage : Node) (xs : Cells) (m : Memory)
    → IsList h list xs
    → Returned h fresh (malloc m).0
    → (g : Heap) × (append fresh garbage list el h ≡ ok (list_append (els xs) el m).0 g)
      × Holds g list (list_append (els xs) el m).1
unfolding list_append
append-list_append h list fresh el garbage xs m is (inl (got, ne, unused)) =
    let (g, runs, is', same) = append_lem h list fresh el garbage xs is ne unused in
    rw got (g, runs, (xs ++ (fresh, el) ∷ [], is', els-snoc xs fresh el))
append-list_append h list fresh el garbage xs m is (inr (refused, e)) =
    rw (refused, e) (h, append-null h list el garbage, (xs, is, refl))

-- `fly_list_remove` on a list in memory, with more fuel than cells, returns and leaves a list of the elements that the operation on the
-- sequence of elements leaves.
remove-list_remove :
    (fuel : ℕ) (h : Heap) (list el : Ptr) (xs : Cells) (m : Memory)
    → IsList h list xs
    → length xs < fuel
    → (g : Heap) × (remove fuel list el h ≡ ok tt g) × Holds g list (list_remove (els xs) el m).0
remove-list_remove fuel h list el xs m is enough =
    let (g, left, runs, same, removed) = remove_lem fuel h list xs el is enough in
    (g, runs, (left, removed.is_list, same ∙ sym (list_remove-erase (els xs) el m)))

list_tail_remove-pop_back :
    (es : List ℕ) (m : Memory)
    → ((list_tail_remove es m).0 ≡ (pop_back es).0) × ((list_tail_remove es m).1 ≡ (pop_back es).1)
unfolding list_tail_remove pop_back
list_tail_remove-pop_back [] m = (refl, refl)
list_tail_remove-pop_back (e ∷ es) m = (refl, refl)

-- `fly_list_tail_remove` on a list in memory, with more fuel than cells, returns the element that the operation on the sequence
-- of elements returns, and leaves a list of the elements that this leaves.
tail_remove-list_tail_remove :
    (fuel : ℕ) (h : Heap) (list : Ptr) (xs : Cells) (m : Memory)
    → IsList h list xs
    → length xs < fuel
    → (g : Heap) × (tail_remove fuel list h ≡ ok (list_tail_remove (els xs) m).0 g)
      × Holds g list (list_tail_remove (els xs) m).1
tail_remove-list_tail_remove fuel h list xs m is enough =
    let (g, left, runs, same, removed) = tail_remove_lem fuel h list xs is enough in
    let view = list_tail_remove-pop_back (els xs) m in
    (g, runs ∙ ap (λ el. ok el g) (sym view.0), (left, removed.is_list, same ∙ sym view.1))
