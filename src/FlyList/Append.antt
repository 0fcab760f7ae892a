-- ===== src/FlyList/Append.antt =====
-- `fly_list_append_node` and `fly_list_append` of src/fly_list.h put a cell at the end.
use libfly.Prelude.{
  ◌≡◌, ◌≢◌, refl, inl, inr, false, some, none, [], ◌∷◌, ◌++◌, arith, ◌==◌, sym, ◌∙◌,
}
use libfly.Errors.{success, no_resources}
use libfly.Memory.{Ptr, null, Node, node, Heap, write, ok, alloc}
use libfly.FlyList.Segment.{
  Cells, has, first, last, Seg, IsList, SameOutside, frame, Seg-append, first-append, last-append,
  has-append, snoc-cases, Distinct-append, not-has-append, not-has-cell,
}
use libfly.FlyList.Cells.{
  Holds, load-ok, set_next-ok, set_prev-ok, Holds-write, init_with_el-ok, write-write, write-ne,
}
use libfly.FlyList.Around.{Leaves, header-Holds, Around, around, join}
use libfly.FlyList.{append_node, append}

module _ {h : Heap} {list f e : Ptr} (new : Holds h f (node null null e)) (ne : f ≢ list) where
  append_node-nil :
      IsList h list []
      → (g : Heap) × (append_node list f h ≡ ok tt g) × Leaves h list ((f, e) ∷ []) ((f, e) ∷ []) g
  unfolding append_node
  append_node-nil is = (
    write h list (some (node f f null)),
    rw (load-ok (header-Holds is), set_next-ok (header-Holds is) f)
        (rw (set_prev-ok (Holds-write h (node f null null) is.ne_null) f, write-write)),
    record {
      is_list = record {
        ne_null = is.ne_null;
        header = unfold write in ground arith;
        chain = (new.ne_null, unfold write in ground (arith, new.at), tt);
        outside = ground arith;
        distinct = (refl, tt);
      };
      same = unfold write in ground arith;
    },
  )

  module _ (ys : Cells) (b eb : Ptr) (at : Around h list ys b eb []) (b_ne_f : b ≢ f)
      (f_ys : has f ys ≡ false) where
    open at use {ne_null, header, front, cell_ne_null, cell, b_ne_list, list_ys, b_ys, distinct_ys}

    linked : Heap
    linked = write h b (some (node f (last null ys) eb))

    -- the memory that `append_node` leaves behind the last cell `b`
    appended : Heap
    unfolding linked
    appended = write (write linked f (some (node null b e))) list (some (node (first ys b) f null))

    append_node-runs : append_node list f h ≡ ok tt appended
    unfolding append_node appended
    append_node-runs =
        let found : (b == null) ≡ false = ground arith in
        rw (load-ok (record { ne_null = ne_null; at = header }), found)
          (rw (set_next-ok (record { ne_null = cell_ne_null; at = cell }) f)
            (rw (load-ok header_1, set_prev-ok new_1 b) (rw (set_prev-ok header_2 f))))
      where
        header_1 : Holds linked list (node (first ys b) b null)
        header_1 = record { ne_null = ne_null; at = unfold write in ground arith }

        new_1 : Holds linked f (node null null e)
        new_1 = record { ne_null = new.ne_null; at = unfold write in ground (arith, new.at) }

        header_2 : Holds (write linked f (some (node null b e))) list (node (first ys b) b null)
        header_2 = record { ne_null = ne_null; at = unfold write in ground arith }

    append_node-Leaves :
        Leaves h list
          ((ys ++ (b, eb) ∷ []) ++ (f, e) ∷ [])
          ((ys ++ (b, eb) ∷ []) ++ (f, e) ∷ [])
          appended
    unfolding appended linked
    append_node-Leaves = record {
      is_list =
          join (ys ++ (b, eb) ∷ []) ((f, e) ∷ []) ne_null
            (rw (first-append ys ((b, eb) ∷ []) f) (unfold write in ground arith))
            (Seg-append appended null ys ((b, eb) ∷ []) f
              (frame h appended null ys b (λ a m. unfold write in ground arith) front)
              (cell_ne_null, unfold write in ground arith, tt))
            (rw (last-append null ys ((b, eb) ∷ []))
              (new.ne_null, unfold write in ground arith, tt))
            (rw (has-append list ys ((b, eb) ∷ [])) (ground arith)) (ground arith)
            (Distinct-append ys ((b, eb) ∷ []) distinct_ys (refl, tt) (λ a m. ground arith))
            (refl, tt) (λ a m. ground (arith, has-append a ys ((b, eb) ∷ [])));
      same = λ a ne_list out.
          let (out_xs, out_f) = not-has-append a (ys ++ (b, eb) ∷ []) ((f, e) ∷ []) out in
          let (out_ys, out_b) = not-has-append a ys ((b, eb) ∷ []) out_xs in
          write-ne _ _ (λ q. ne_list (sym q))
          ∙ write-ne _ _ (not-has-cell a f e out_f)
          ∙ write-ne _ _ (not-has-cell a b eb out_b);
    }

  append_node-ok :
      (xs : Cells)
      → IsList h list xs
      → has f xs ≡ false
      → (g : Heap) × (append_node list f h ≡ ok tt g)
        × Leaves h list (xs ++ (f, e) ∷ []) (xs ++ (f, e) ∷ []) g
  append_node-ok xs is out = elim (snoc-cases xs) [
    | inl nil ↦ rw nil (append_node-nil (rw nil at is))
    | inr (ys, b, eb, more) ↦
        let at = around ys b eb [] (rw more at is) in
        let f_xs = has-append f ys ((b, eb) ∷ []) in
        let out' : has f (ys ++ (b, eb) ∷ []) ≡ false = rw more at out in
        let b_ne_f : b ≢ f = ground arith in
        let f_ys : has f ys ≡ false = ground arith in
        rw more (
          appended ys b eb at b_ne_f f_ys,
          append_node-runs ys b eb at b_ne_f f_ys,
          append_node-Leaves ys b eb at b_ne_f f_ys,
        )
  ]

alloc-IsList :
    {h : Heap} {list : Ptr} {xs : Cells} (fresh : Ptr) (n : Node)
    → IsList h list xs
    → h fresh ≡ none
    → has fresh xs ≡ false
    → fresh ≢ list
    → IsList (write h fresh (some n)) list xs
alloc-IsList {xs} fresh n is unused out ne = record {
  ne_null = is.ne_null;
  header = write-ne _ _ ne ∙ is.header;
  chain = frame _ _ null xs null (λ a m. write-ne _ _ (λ e. cc)) is.chain;
  outside = is.outside;
  distinct = is.distinct;
}

-- A cell that is not allocated is not one of a list's.
unused-not-has :
    (h : Heap) (prv : Ptr) (xs : Cells) (nxt a : Ptr)
    → h a ≡ none
    → Seg h prv xs nxt
    → has a xs ≡ false
unused-not-has h prv [] nxt a unused s = refl
unused-not-has h prv ((p, e) ∷ xs) nxt a unused s =
    ground (arith, unused-not-has h p xs nxt a unused s.2)

-- `fly_list_append` on a list, where `fly_malloc` returns an address that is not `NULL` and not in
-- use: it succeeds, the new cell stands at the end with the element, the other cells keep their
-- places, and no memory but the list's changes.
pub append_lem :
    (h : Heap) (list fresh el : Ptr) (garbage : Node) (xs : Cells)
    → IsList h list xs
    → fresh ≢ null
    → h fresh ≡ none
    → (g : Heap) × (append fresh garbage list el h ≡ ok success g)
      × IsList g list (xs ++ (fresh, el) ∷ [])
      × SameOutside list (xs ++ (fresh, el) ∷ []) h g
unfolding append alloc
append_lem h list fresh el garbage xs is ne unused =
    let found : (fresh == null) ≡ false = ground arith in
    let out = unused-not-has h null xs null fresh unused is.chain in
    let fresh_ne_list : fresh ≢ list = ground (arith, is.header) in
    let new = Holds-write h (node null null el) ne in
    let is' = alloc-IsList fresh (node null null el) is unused out fresh_ne_list in
    let (g, runs, leaves) = append_node-ok new fresh_ne_list xs is' out in
    (
      g,
      rw found (rw (init_with_el-ok el (Holds-write h garbage ne), write-write) (rw runs)),
      leaves.is_list,
      λ a a_ne_list outside.
          let (out_xs, out_f) = not-has-append a xs ((fresh, el) ∷ []) outside in
          leaves.same a a_ne_list outside ∙ write-ne h _ (not-has-cell a fresh el out_f),
    )

-- If `fly_malloc` fails, `fly_list_append` returns FLYENORES and touches nothing.
pub append-null :
    (h : Heap) (list el : Ptr) (garbage : Node) → append null garbage list el h ≡ ok no_resources h
unfolding append
append-null h list el garbage = refl
