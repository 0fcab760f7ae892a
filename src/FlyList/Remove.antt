-- ===== src/FlyList/Remove.antt =====
-- `fly_list_remove_node` of src/fly_list.h takes one cell out of the chain.
use libfly.Prelude.{
  ℕ, zero, suc, ◌<◌, ◌≡◌, ◌≢◌, refl, ◌∙◌, inl, inr, true, false, some, [], ◌∷◌, ◌++◌, arith, ◌==◌,
  length,
}
use libfly.Memory.{Ptr, null, Node, node, Heap, write, ok}
use libfly.FlyList.Segment.{
  Cells, has, first, last, Seg, IsList, SameOutside, frame, Seg-append, Seg-split, last-append,
  snoc-cases, Distinct, Distinct-split, not-has-append, not-has-cell, ne_of_has,
}
use libfly.FlyList.Cells.{Holds, load-ok, set_next-ok, set_prev-ok, write-ne}
use libfly.FlyList.Around.{around, join}
use libfly.FlyList.{
  head, unhook_next, unhook_prev, seek_node, bypass_next, bypass_prev, remove_node,
}

-- `g` holds `n` at `a`, and elsewhere what `h` holds.
pub record Changed (h : Heap) (a : Ptr) (n : Node) (g : Heap) : Type 0 where
  pub at : g a ≡ some n
  pub elsewhere : (b : Ptr) → b ≢ a → g b ≡ h b

first-has : (p e : Ptr) (xs : Cells) → has (last p xs) ((p, e) ∷ xs) ≡ true
first-has p e [] = ground arith
first-has p e ((q, f) ∷ xs) = ground (arith, first-has q f xs)

module _ (h : Heap) (list : Ptr) (b eb : Ptr) where
  -- Behind both tests the header knows the ends of `ys ++ zs`.
  unhook_next-ok :
      (ys : Cells) (nxt prv prv' : Ptr)
      → Holds h list (node (first ys b) prv null)
      → Holds h b (node nxt prv' eb)
      → has b ys ≡ false
      → (g : Heap) × (unhook_next list b h ≡ ok tt g)
        × Changed h list (node (first ys nxt) prv null) g
  unfolding unhook_next write
  unhook_next-ok [] nxt prv prv' at cell out = (
    write h list (some (node nxt prv null)),
    rw (load-ok at) (
        let self : (b == b) ≡ true = ground arith in
        rw self (rw (load-ok cell, set_next-ok at nxt))),
    record { at = ground arith; elsewhere = ground arith },
  )
  unhook_next-ok ((p, e) ∷ ys) nxt prv prv' at cell out = (
    h,
    rw (load-ok at) (let other : (p == b) ≡ false = ground arith in rw other),
    record { at = at.at; elsewhere = λ a ne. refl },
  )

  unhook_prev-ok :
      (zs : Cells) (nxt nxt' prv' : Ptr)
      → Holds h list (node nxt (last b zs) null)
      → Holds h b (node nxt' prv' eb)
      → has b zs ≡ false
      → (g : Heap) × (unhook_prev list b h ≡ ok tt g)
        × Changed h list (node nxt (last prv' zs) null) g
  unfolding unhook_prev write
  unhook_prev-ok [] nxt nxt' prv' at cell out = (
    write h list (some (node nxt prv' null)),
    rw (load-ok at) (
        let self : (b == b) ≡ true = ground arith in
        rw self (rw (load-ok cell, set_prev-ok at prv'))),
    record { at = ground arith; elsewhere = ground arith },
  )
  unhook_prev-ok ((q, f) ∷ zs) nxt nxt' prv' at cell out = (
    h,
    rw (load-ok at)
        (let other : (last q zs == b) ≡ false = ground (arith, first-has q f zs) in rw other),
    record { at = at.at; elsewhere = λ a ne. refl },
  )

-- The loop finds the cell.
seek_node-ok :
    (fuel : ℕ) (h : Heap) (prv : Ptr) (ys : Cells) (b : Ptr)
    → Seg h prv ys b
    → has b ys ≡ false
    → length ys < fuel
    → seek_node fuel (first ys b) b h ≡ ok b h
unfolding seek_node
seek_node-ok zero h prv ys b s out enough = absurd (omega arith)
seek_node-ok (suc k) h prv [] b s out enough = ground arith
seek_node-ok (suc k) h prv ((p, e) ∷ ys) b s out enough =
    let not_null : (p == null) ≡ false = ground (arith, s.0) in
    let other : (p == b) ≡ false = ground arith in
    rw (not_null, other)
      (rw (load-ok (record { ne_null = s.0; at = s.1 }))
        (seek_node-ok k h p ys b s.2 (ground arith) (omega arith)))

module _ (h : Heap) (b eb : Ptr) where
  bypass_next-ok :
      (ys : Cells) (nxt : Ptr)
      → Holds h b (node nxt (last null ys) eb)
      → Seg h null ys b
      → Distinct ys
      → (g : Heap) × (bypass_next b h ≡ ok tt g)
        × Seg g null ys nxt
        × ((a : Ptr) → has a ys ≡ false → g a ≡ h a)
  bypass_next-ok ys nxt cell s d = elim (snoc-cases ys) [
    | inl nil ↦ rw nil (h, unfold bypass_next in rw (load-ok (rw nil at cell)), tt, λ a out. refl)
    | inr (xs, c, ec, more) ↦
        rw more (behind xs c ec (rw more at cell) (rw more at s) (rw more at d))
  ]
    where
      behind :
          (xs : Cells) (c ec : Ptr)
          → Holds h b (node nxt (last null (xs ++ (c, ec) ∷ [])) eb)
          → Seg h null (xs ++ (c, ec) ∷ []) b
          → Distinct (xs ++ (c, ec) ∷ [])
          → (g : Heap) × (bypass_next b h ≡ ok tt g)
            × Seg g null (xs ++ (c, ec) ∷ []) nxt
            × ((a : Ptr) → has a (xs ++ (c, ec) ∷ []) ≡ false → g a ≡ h a)
      behind xs c ec cell s d =
          let (front, back) = Seg-split h null xs ((c, ec) ∷ []) b s in
          let (dx, dc, apart) = Distinct-split xs ((c, ec) ∷ []) d in
          let not_null : (c == null) ≡ false = ground (arith, back.0) in
          let cell' = rw (last-append null xs ((c, ec) ∷ [])) at cell in
          let g = write h c (some (node nxt (last null xs) ec)) in
          (
            g,
            unfold bypass_next in
                rw (load-ok cell')
                  (rw not_null (rw (set_next-ok (record { ne_null = back.0; at = back.1 }) nxt))),
            Seg-append g null xs ((c, ec) ∷ []) nxt
                (frame h g null xs c (λ a m. write-ne h _ (not-has-cell a c ec (apart a m))) front)
                (back.0, unfold write in ground arith, tt),
            λ a out. write-ne h _ (not-has-cell a c ec (not-has-append a xs ((c, ec) ∷ []) out).1),
          )

  bypass_prev-ok :
      (zs : Cells) (prv : Ptr)
      → Holds h b (node (first zs null) prv eb)
      → Seg h b zs null
      → Distinct zs
      → (g : Heap) × (bypass_prev b h ≡ ok tt g)
        × Seg g prv zs null
        × ((a : Ptr) → has a zs ≡ false → g a ≡ h a)
  unfolding bypass_prev write
  bypass_prev-ok [] prv cell s d = (h, rw (load-ok cell), tt, λ a out. refl)
  bypass_prev-ok ((q, f) ∷ zs) prv cell s d =
      let not_null : (q == null) ≡ false = ground (arith, s.0) in
      (
        write h q (some (node (first zs null) prv f)),
        rw (load-ok cell) (rw not_null (rw (set_prev-ok (record { ne_null = s.0; at = s.1 }) prv))),
        (s.0, ground arith, frame h _ q zs null (λ a m. ground arith) s.2),
        λ a out. ground arith,
      )

-- `fly_list_remove_node` on a cell of a list, with more rounds than cells stand before it: it ends,
-- the list has the other cells in their order, the removed cell is left as it was, and no memory
-- but the list's changes.
pub remove_node_lem :
    (fuel : ℕ) (h : Heap) (list : Ptr) (ys : Cells) (b eb : Ptr) (zs : Cells)
    → IsList h list (ys ++ (b, eb) ∷ zs)
    → length ys < fuel
    → (g : Heap) × (remove_node fuel list b h ≡ ok tt g)
      × IsList g list (ys ++ zs)
      × (g b ≡ h b)
      × SameOutside list (ys ++ zs) h g
unfolding remove_node head
remove_node_lem fuel h list ys b eb zs is enough =
    let at = around ys b eb zs is in
    let apart' : ((a : Ptr) → has a zs ≡ true → has a ys ≡ false) =
      λ a m. ground (arith, at.apart a) in
    let start : Holds h list (node (first ys b) (last b zs) null) = record {
      ne_null = at.ne_null;
      at = at.header;
    } in
    let cell : Holds h b (node (first zs null) (last null ys) eb) = record {
      ne_null = at.cell_ne_null;
      at = at.cell;
    } in
    let (h1, runs1, c1) =
      unhook_next-ok h list b eb ys (first zs null) (last b zs) (last null ys) start cell at.b_ys in
    let cell1 : Holds h1 b (node (first zs null) (last null ys) eb) = record {
      ne_null = at.cell_ne_null;
      at = c1.elsewhere b at.b_ne_list ∙ at.cell;
    } in
    let (h2, runs2, c2) =
      unhook_prev-ok h1 list b eb zs (first ys (first zs null)) (first zs null) (last null ys)
        (record { ne_null = at.ne_null; at = c1.at }) cell1 at.b_zs in
    let same2 : ((a : Ptr) → a ≢ list → h2 a ≡ h a) =
      λ a ne. c2.elsewhere a ne ∙ c1.elsewhere a ne in
    let front2 =
      frame h h2 null ys b (λ a m. same2 a (ne_of_has a list ys m at.list_ys)) at.front in
    let cell2 : Holds h2 b (node (first zs null) (last null ys) eb) = record {
      ne_null = at.cell_ne_null;
      at = same2 b at.b_ne_list ∙ at.cell;
    } in
    let (h3, runs3, s3, same3) =
      bypass_next-ok h2 b eb ys (first zs null) cell2 front2 at.distinct_ys in
    let cell3 : Holds h3 b (node (first zs null) (last null ys) eb) = record {
      ne_null = at.cell_ne_null;
      at = same3 b at.b_ys ∙ cell2.at;
    } in
    let back3 =
      frame h h3 b zs null
        (λ a m. same3 a (apart' a m) ∙ same2 a (ne_of_has a list zs m at.list_zs)) at.back in
    let (h4, runs4, s4, same4) =
      bypass_prev-ok h3 b eb zs (last null ys) cell3 back3 at.distinct_zs in
    let found : (b == null) ≡ false = ground (arith, at.cell_ne_null) in
    (
      h4,
      rw
          (
            load-ok start,
            runs1,
            runs2,
            seek_node-ok fuel h2 null ys b front2 at.b_ys enough,
            found,
            runs3,
          )
          runs4,
      join ys zs at.ne_null (same4 list at.list_zs ∙ same3 list at.list_ys ∙ c2.at)
          (frame h3 h4 null ys (first zs null) (λ a m. same4 a (at.apart a m)) s3) s4 at.list_ys
          at.list_zs at.distinct_ys at.distinct_zs at.apart,
      same4 b at.b_zs ∙ same3 b at.b_ys ∙ same2 b at.b_ne_list,
      λ a ne out.
          let (out_ys, out_zs) = not-has-append a ys zs out in
          same4 a out_zs ∙ same3 a out_ys ∙ same2 a ne,
    )
