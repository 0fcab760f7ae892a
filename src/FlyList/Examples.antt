-- ===== src/FlyList/Examples.antt =====
-- The functions of src/fly_list.h on a list at address 1 with two cells, at 2 and 3.
use libfly.Prelude.{refl, none, some, [], ◌∷◌, arith, ◌==◌, if◌then◌else◌}
use libfly.Memory.{node, Heap}
use libfly.FlyList.{remove}
use libfly.FlyList.Segment.{Cells, IsList}
use libfly.FlyList.View.{els, erase}
use libfly.FlyList.Search.{Leaves, remove_lem}

abbrev pub two_cells : Cells
two_cells = (2, 10) ∷ (3, 20) ∷ []

abbrev pub memory : Heap
memory a =
    if a == 1
    then some (node 2 3 0)
    else if a == 2
    then some (node 3 0 10)
    else if a == 3
    then some (node 0 2 20)
    else none

pub two_cells-IsList : IsList memory 1 two_cells
two_cells-IsList = record {
  ne_null = omega arith;
  header = refl;
  chain = (omega arith, refl, (omega arith, refl, tt));
  outside = refl;
  distinct = (refl, (refl, tt));
}

remove_lem_example : Leaves (remove 3 1 10 memory) memory 1 two_cells tt (erase 10 (els two_cells))
remove_lem_example = remove_lem 3 memory 1 two_cells 10 two_cells-IsList (omega arith)
