-- ===== src/Sched/Lists/Examples.antt =====
-- A list of two jobs in memory, and the scheduler's operations on it.
use libfly.Prelude.{◌≡◌, refl, inl, true, [], ◌∷◌, arith}
use libfly.Memory.{node, Heap, ok}
use libfly.Malloc.{Memory, malloc}
use libfly.FlyList.{append}
use libfly.FlyList.View.{els}
use libfly.FlyList.Examples.{two_cells, memory, two_cells-IsList}
use libfly.Sched.{list_append}
use libfly.Sched.Lists.{Holds, append-list_append}

abbrev left : Memory
left = record { answers = true ∷ []; live = 2 }

append-list_append_example :
    (g : Heap) × (append 4 (node 7 7 7) 1 30 memory ≡ ok (list_append (els two_cells) 30 left).0 g)
    × Holds g 1 (list_append (els two_cells) 30 left).1
unfolding malloc
append-list_append_example =
    append-list_append memory 1 4 30 (node 7 7 7) two_cells left two_cells-IsList
      (inl (refl, omega arith, refl))
