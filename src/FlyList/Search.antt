-- ===== src/FlyList/Search.antt =====
-- The functions of src/fly_list.h that look for a cell: `fly_list_get`, `fly_list_remove`,
-- `fly_list_tail_remove` and `fly_list_is_empty`.
use libfly.Prelude.{
  ℕ, zero, suc, ◌<◌, ◌≡◌, ◌≢◌, refl, ◌∙◌, sym, ap, inl, inr, true, false, none, List, [], ◌∷◌, ◌++◌,
  arith, ◌==◌, length, length-append,
}
use mathlib.Core.List.{append-nil}
use libfly.Memory.{Run, Ptr, null, node, Heap, write, ok, free}
use libfly.FlyList.Segment.{
  Cells, has, first, last, Seg, IsList, SameOutside, frame, has-append, snoc-cases, ne_of_has,
  eq_of_lost, not-has-without,
}
use libfly.FlyList.Cells.{Holds, load-ok, free-ok, write-ne}
use libfly.FlyList.Around.{header-Holds, around}
use libfly.FlyList.Remove.{remove_node_lem}
use libfly.FlyList.View.{
  els, erase, member, pop_back, els-snoc, pop_back-push_back, erase-first, erase-absent, cell-cases,
}
use libfly.FlyList.{tail, seek_el, get, remove_node, remove, is_empty, tail_remove}

seek_el-found :
    (fuel : ℕ) (h : Heap) (prv : Ptr) (ys : Cells) (b nxt prv' el : Ptr)
    → Seg h prv ys b
    → Holds h b (node nxt prv' el)
    → member el (els ys) ≡ false
    → length ys < fuel
    → seek_el fuel (first ys b) el h ≡ ok b h
unfolding seek_el els member
seek_el-found zero h prv ys b nxt prv' el s cell out enough = absurd (omega arith)
seek_el-found (suc k) h prv [] b nxt prv' el s cell out enough =
    let not_null : (b == null) ≡ false = ground arith in
    let hit : (el == el) ≡ true = ground arith in rw (not_null, load-ok cell, hit)
seek_el-found (suc k) h prv ((p, e) ∷ ys) b nxt prv' el s cell out enough =
    let not_null : (p == null) ≡ false = ground (arith, s.0) in
    let other : (e == el) ≡ false = ground arith in
    rw (not_null, load-ok (record { ne_null = s.0; at = s.1 }), other)
      (seek_el-found k h p ys b nxt prv' el s.2 cell (ground arith) (omega arith))

seek_el-absent :
    (fuel : ℕ) (h : Heap) (prv : Ptr) (xs : Cells) (el : Ptr)
    → Seg h prv xs null
    → member el (els xs) ≡ false
    → length xs < fuel
    → seek_el fuel (first xs null) el h ≡ ok null h
unfolding seek_el els member
seek_el-absent zero h prv xs el s out enough = absurd (omega arith)
seek_el-absent (suc k) h prv [] el s out enough = refl
seek_el-absent (suc k) h prv ((p, e) ∷ xs) el s out enough =
    let not_null : (p == null) ≡ false = ground (arith, s.0) in
    let other : (e == el) ≡ false = ground arith in
    rw (not_null, load-ok (record { ne_null = s.0; at = s.1 }), other)
      (seek_el-absent k h p xs el s.2 (ground arith) (omega arith))

module _ (fuel : ℕ) (h : Heap) (list el : Ptr) where
  get-absent :
      (xs : Cells)
      → IsList h list xs
      → length xs < fuel
      → member el (els xs) ≡ false
      → get fuel list el h ≡ ok null h
  unfolding get
  get-absent xs is enough out =
      rw (load-ok (header-Holds is)) (seek_el-absent fuel h null xs el is.chain out enough)

  get-found :
      (ys : Cells) (b : Ptr) (zs : Cells)
      → IsList h list (ys ++ (b, el) ∷ zs)
      → length ys < fuel
      → member el (els ys) ≡ false
      → get fuel list el h ≡ ok b h
  unfolding get
  get-found ys b zs is enough out =
      let at = around ys b el zs is in
      rw (load-ok (record { ne_null = at.ne_null; at = at.header })) (
        seek_el-found fuel h null ys b _ _ el at.front
          (record { ne_null = at.cell_ne_null; at = at.cell }) out enough)

-- A cell outside a list can be given back.
freed-IsList :
    {h : Heap} {list b : Ptr} {xs : Cells}
    → IsList h list xs
    → b ≢ list
    → has b xs ≡ false
    → IsList (write h b none) list xs
freed-IsList {h} {b} {xs} is ne out = record {
  ne_null = is.ne_null;
  header = write-ne h none ne ∙ is.header;
  chain =
      frame h (write h b none) null xs null
        (λ a m. write-ne h none (λ e. ne_of_has a b xs m out (sym e))) is.chain;
  outside = is.outside;
  distinct = is.distinct;
}

-- From `h`, where `list` has the cells `xs`, to `g`, where it has `left` with the elements `es`:
-- the cells that left the list are given back, and no other memory changes.
pub record Removed (h : Heap) (list : Ptr) (xs left : Cells) (g : Heap) : Type 0 where
  pub is_list : IsList g list left
  pub freed : (a : Ptr) → has a xs ≡ true → has a left ≡ false → g a ≡ none
  pub same : SameOutside list xs h g

-- One cell is taken out of its list and given back.
remove_free :
    (fuel : ℕ) (h : Heap) (list : Ptr) (ys : Cells) (b eb : Ptr) (zs : Cells)
    → IsList h list (ys ++ (b, eb) ∷ zs)
    → length ys < fuel
    → (bypassed : Heap) × (g : Heap) × (remove_node fuel list b h ≡ ok tt bypassed)
      × (free b bypassed ≡ ok tt g)
      × Removed h list (ys ++ (b, eb) ∷ zs) (ys ++ zs) g
remove_free fuel h list ys b eb zs is enough =
    let at = around ys b eb zs is in
    let (g, runs, is', kept, same) = remove_node_lem fuel h list ys b eb zs is enough in
    let out_b : has b (ys ++ zs) ≡ false =
      rw (has-append b ys zs) (ground (arith, at.b_ys, at.b_zs)) in
    (
      g,
      write g b none,
      runs,
      free-ok (record { ne_null = at.cell_ne_null; at = kept ∙ at.cell }),
      record {
        is_list = freed-IsList is' at.b_ne_list out_b;
        freed = λ a m out. rw (eq_of_lost a b eb ys zs m out) (unfold write in ground arith);
        same = λ a ne out.
            let (b_ne_a, out') = not-has-without a b eb ys zs out in
            write-ne g none b_ne_a ∙ same a ne out';
      },
    )

-- What `remove` and `tail_remove` come to: the result `a`, and a list with the elements `es`.
abbrev pub Leaves : {A : Type 0} → Run A → Heap → Ptr → Cells → A → List Ptr → Type 0
Leaves run h list xs a es =
    (g : Heap) × (left : Cells) × (run ≡ ok a g) × (els left ≡ es) × Removed h list xs left g

module _ (fuel : ℕ) (h : Heap) (list : Ptr) where
  remove-found :
      (el : Ptr) (ys : Cells) (b : Ptr) (zs : Cells)
      → IsList h list (ys ++ (b, el) ∷ zs)
      → length (ys ++ (b, el) ∷ zs) < fuel
      → member el (els ys) ≡ false
      → Leaves
          (remove fuel list el h)
          h
          list
          (ys ++ (b, el) ∷ zs)
          tt
          (erase el (els (ys ++ (b, el) ∷ zs)))
  unfolding remove
  remove-found el ys b zs is enough out =
      let short : length ys < fuel = omega (arith, length-append ys ((b, el) ∷ zs)) in
      let (bypassed, g, runs, frees, removed) = remove_free fuel h list ys b el zs is short in
      let not_null : (b == null) ≡ false = ground (arith, (around ys b el zs is).cell_ne_null) in
      (
        g,
        ys ++ zs,
        rw (get-found fuel h list el ys b zs is short out, not_null, runs) frees,
        erase-first el ys b zs out,
        removed,
      )

  tail_remove-nil : IsList h list [] → Leaves (tail_remove fuel list h) h list [] null []
  unfolding tail_remove tail els
  tail_remove-nil is = (
    h,
    [],
    rw (load-ok (header-Holds is)),
    refl,
    record { is_list = is; freed = λ a m out. cc; same = λ a ne out. refl },
  )

  tail_remove-snoc :
      (ys : Cells) (b eb : Ptr)
      → IsList h list (ys ++ (b, eb) ∷ [])
      → length (ys ++ (b, eb) ∷ []) < fuel
      → Leaves (tail_remove fuel list h) h list (ys ++ (b, eb) ∷ []) eb (els ys)
  unfolding tail_remove tail
  tail_remove-snoc ys b eb is enough =
      let short : length ys < fuel = omega (arith, length-append ys ((b, eb) ∷ [])) in
      let (bypassed, g, runs, frees, removed) = remove_free fuel h list ys b eb [] is short in
      let at = around ys b eb [] is in
      let not_null : (b == null) ≡ false = ground (arith, at.cell_ne_null) in
      let header : Holds h list (node (first ys b) b null) = record {
        ne_null = at.ne_null;
        at = at.header;
      } in
      let cell : Holds h b (node null (last null ys) eb) = record {
        ne_null = at.cell_ne_null;
        at = at.cell;
      } in
      (
        g,
        ys ++ [],
        rw (load-ok header, not_null, load-ok cell, runs, frees),
        ap els (append-nil ys),
        removed,
      )

  -- `fly_list_remove` with more rounds than the list has cells: it ends, the list loses the first
  -- cell with the element and nothing else, that cell is given back, and no other memory changes;
  -- where no cell has the element, the list keeps all its elements.
  pub remove_lem :
      (xs : Cells) (el : Ptr)
      → IsList h list xs
      → length xs < fuel
      → Leaves (remove fuel list el h) h list xs tt (erase el (els xs))
  remove_lem xs el is enough = elim (cell-cases el xs) [
    | inl absent ↦ (
      h,
      xs,
      unfold remove in rw (get-absent fuel h list el xs is enough absent),
      sym (erase-absent el (els xs) absent),
      record { is_list = is; freed = λ a m out. cc; same = λ a ne out. refl },
    )
    | inr (ys, b, zs, split, out) ↦
        rw split (remove-found el ys b zs (rw split at is) (rw split at enough) out)
  ]

  -- `fly_list_tail_remove` with more rounds than the list has cells: it ends, gives the last
  -- element and takes its cell out of the list and back to the allocator; on an empty list it
  -- gives `NULL`. No other memory changes.
  pub tail_remove_lem :
      (xs : Cells)
      → IsList h list xs
      → length xs < fuel
      → Leaves (tail_remove fuel list h) h list xs (pop_back (els xs)).0 (pop_back (els xs)).1
  tail_remove_lem xs is enough = elim (snoc-cases xs) [
    | inl nil ↦ rw nil (unfold els pop_back in tail_remove-nil (rw nil at is))
    | inr (ys, b, eb, split) ↦
        rw (split, els-snoc ys b eb, pop_back-push_back (els ys) eb)
          (tail_remove-snoc ys b eb (rw split at is) (rw split at enough))
  ]

-- `fly_list_is_empty` holds exactly of the list without elements, and touches nothing.
is_empty_lem :
    (h : Heap) (list : Ptr) (xs : Cells)
    → IsList h list xs
    → is_empty list h ≡ ok (length (els xs) == 0) h
unfolding is_empty els
is_empty_lem h list [] is = rw (load-ok (header-Holds is))
is_empty_lem h list ((p, e) ∷ xs) is = rw (load-ok (header-Holds is)) (ground (arith, is.chain.0))
