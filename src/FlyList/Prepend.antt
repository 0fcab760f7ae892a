-- ===== src/FlyList/Prepend.antt =====
-- `fly_list_prepend` of src/fly_list.h, which no part of the library calls, links the new cell in
-- one direction only.
use libfly.Prelude.{◌≡◌, ◌≢◌, ◌∙◌, sym, false, none, some, [], ◌∷◌, arith, ◌==◌}
use libfly.Errors.{success}
use libfly.Memory.{Ptr, null, Node, node, Heap, write, ok, alloc}
use libfly.FlyList.Segment.{Cells, first, last, IsList}
use libfly.FlyList.Cells.{
  Holds, load-ok, set_next-ok, Holds-write, init_with_el-ok, write-write, write-ne,
}
use libfly.FlyList.{prepend_node, prepend}

module _ (h : Heap) (list fresh el : Ptr) (ne : fresh ≢ null) where
  -- the memory that `prepend` leaves
  prepended : Cells → Heap
  prepended xs =
      write (write h fresh (some (node (first xs null) null el))) list
        (some (node fresh (last null xs) null))

  prepend-runs :
      (garbage : Node) (xs : Cells)
      → IsList h list xs
      → fresh ≢ list
      → prepend fresh garbage list el h ≡ ok success (prepended xs)
  unfolding prepend prepend_node prepended alloc
  prepend-runs garbage xs is fresh_ne_list =
      let found : (fresh == null) ≡ false = ground arith in
      rw (found, init_with_el-ok el (Holds-write h garbage ne), write-write)
        (rw
          (
            load-ok header,
            set_next-ok (Holds-write h (node null null el) ne) (first xs null),
            write-write,
          )
          (rw (set_next-ok header' fresh)))
    where
      header :
          Holds
            (write h fresh (some (node null null el)))
            list
            (node (first xs null) (last null xs) null)
      header = record { ne_null = is.ne_null; at = unfold write in ground (arith, is.header) }

      header' :
          Holds
            (write h fresh (some (node (first xs null) null el)))
            list
            (node (first xs null) (last null xs) null)
      header' = record { ne_null = is.ne_null; at = unfold write in ground (arith, is.header) }

  at_list : (xs : Cells) → prepended xs list ≡ some (node fresh (last null xs) null)
  unfolding prepended write
  at_list xs = ground arith

  at_fresh : (xs : Cells) → fresh ≢ list → prepended xs fresh ≡ some (node (first xs null) null el)
  unfolding prepended write
  at_fresh xs apart = ground arith

  -- What a list behind the header would have to begin with.
  begins :
      (xs : Cells) (p e : Ptr) (ys : Cells)
      → fresh ≢ list
      → IsList (prepended xs) list ((p, e) ∷ ys)
      → (p ≡ fresh) × (first ys null ≡ first xs null) × (last p ys ≡ last null xs)
  begins xs p e ys apart is' =
      let p_fresh : p ≡ fresh = cc (is'.header, at_list xs) in
      (p_fresh, cc (is'.chain.1, at_fresh xs apart), cc (is'.header, at_list xs))

  -- The old first cell keeps its `prev`.
  keeps :
      (q f : Ptr) (xs : Cells)
      → IsList h list ((q, f) ∷ xs)
      → h fresh ≡ none
      → prepended ((q, f) ∷ xs) q ≡ some (node (first xs null) null f)
  unfolding prepended
  keeps q f xs is unused =
      write-ne _ _ (λ e. ground (arith, is.outside))
      ∙ write-ne h _ (λ e. cc (is.chain.1, unused))
      ∙ is.chain.1

  prepended-not-IsList :
      (xs ys : Cells)
      → IsList h list xs
      → h fresh ≡ none
      → fresh ≢ list
      → IsList (prepended xs) list ys
      → ⊥
  prepended-not-IsList xs [] is unused apart is' = empty (is'.header)
    where
      empty : prepended xs list ≡ some (node null null null) → ⊥
      empty e = unfold prepended write in ground arith
  prepended-not-IsList [] ((p, e) ∷ []) is unused apart is' =
      let (p_fresh, next, end) = begins [] p e [] apart is' in ground arith
  prepended-not-IsList [] ((p, e) ∷ (q, f) ∷ ys) is unused apart is' =
      let (p_fresh, next, end) = begins [] p e ((q, f) ∷ ys) apart is' in is'.chain.2.0 next
  prepended-not-IsList ((q, f) ∷ xs) ((p, e) ∷ []) is unused apart is' =
      let (p_fresh, next, end) = begins ((q, f) ∷ xs) p e [] apart is' in is.chain.0 (sym next)
  prepended-not-IsList ((q, f) ∷ xs) ((p, e) ∷ (r, k) ∷ ys) is unused apart is' =
      let (p_fresh, next, end) = begins ((q, f) ∷ xs) p e ((r, k) ∷ ys) apart is' in
      ne (cc (is'.chain.2.1, keeps q f xs is unused))

  -- `fly_list_prepend` on any list, with a fresh cell from `fly_malloc`, succeeds and leaves memory
  -- in which the header heads no doubly linked list, whatever its cells `ys` were to be: the new
  -- cell is not the `prev` of the old first cell, and in an empty list not the tail.
  prepend_breaks :
      (garbage : Node) (xs ys : Cells)
      → IsList h list xs
      → h fresh ≡ none
      → (g : Heap) × (prepend fresh garbage list el h ≡ ok success g) × ¬ (IsList g list ys)
  prepend_breaks garbage xs ys is unused =
      let apart : fresh ≢ list = ground (arith, is.header) in
      (prepended xs, prepend-runs garbage xs is apart, prepended-not-IsList xs ys is unused apart)
