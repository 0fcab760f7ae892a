-- ===== src/FlyList/Around.antt =====
-- A list seen from one of its cells, and a list put together from two parts.
use libfly.Prelude.{◌≡◌, ◌≢◌, true, false, some, ◌∷◌, ◌++◌, arith}
use libfly.Memory.{Ptr, null, node, Heap}
use libfly.FlyList.Segment.{
  Cells, has, first, last, Seg, Distinct, IsList, SameOutside, Seg-append, Seg-split,
  Distinct-split, Distinct-append, first-append, last-append, has-append,
}
use libfly.FlyList.Cells.{Holds}

-- In `g`, `list` has the cells `xs`, and `g` differs from `h` at most at the addresses of `all`.
pub record Leaves (h : Heap) (list : Ptr) (all xs : Cells) (g : Heap) : Type 0 where
  pub is_list : IsList g list xs
  pub same : SameOutside list all h g

pub header-Holds :
    {h : Heap} {list : Ptr} {xs : Cells}
    → IsList h list xs
    → Holds h list (node (first xs null) (last null xs) null)
header-Holds is = record { ne_null = is.ne_null; at = is.header }

-- `list` has the cells `ys`, then `b` with element `eb`, then `zs`.
pub record Around (h : Heap) (list : Ptr) (ys : Cells) (b eb : Ptr) (zs : Cells) : Type 0 where
  pub ne_null : list ≢ null
  pub header : h list ≡ some (node (first ys b) (last b zs) null)
  pub front : Seg h null ys b
  pub cell_ne_null : b ≢ null
  pub cell : h b ≡ some (node (first zs null) (last null ys) eb)
  pub back : Seg h b zs null
  pub b_ne_list : b ≢ list
  pub list_ys : has list ys ≡ false
  pub list_zs : has list zs ≡ false
  pub b_ys : has b ys ≡ false
  pub b_zs : has b zs ≡ false
  pub distinct_ys : Distinct ys
  pub distinct_zs : Distinct zs
  pub apart : (a : Ptr) → has a ys ≡ true → has a zs ≡ false

pub around :
    {h : Heap} {list : Ptr} (ys : Cells) (b eb : Ptr) (zs : Cells)
    → IsList h list (ys ++ (b, eb) ∷ zs)
    → Around h list ys b eb zs
around {h} {list} ys b eb zs is =
    let (front, back) = Seg-split h null ys ((b, eb) ∷ zs) null is.chain in
    let (dys, dzs, apart) = Distinct-split ys ((b, eb) ∷ zs) is.distinct in
    let out = has-append list ys ((b, eb) ∷ zs) in
    record {
      ne_null = is.ne_null;
      header =
          rw (is.header, first-append ys ((b, eb) ∷ zs) null, last-append null ys ((b, eb) ∷ zs));
      front = front;
      cell_ne_null = back.0;
      cell = back.1;
      back = back.2;
      b_ne_list = ground (arith, out, is.outside);
      list_ys = ground (arith, out, is.outside);
      list_zs = ground (arith, out, is.outside);
      b_ys = ground (arith, apart b);
      b_zs = dzs.0;
      distinct_ys = dys;
      distinct_zs = dzs.1;
      apart = λ a m. ground (arith, apart a);
    }

-- Two parts that are linked to one another, behind a header that knows both ends, make a list.
pub join :
    {h : Heap} {list : Ptr} (ys zs : Cells)
    → list ≢ null
    → h list ≡ some (node (first ys (first zs null)) (last (last null ys) zs) null)
    → Seg h null ys (first zs null)
    → Seg h (last null ys) zs null
    → has list ys ≡ false
    → has list zs ≡ false
    → Distinct ys
    → Distinct zs
    → ((a : Ptr) → has a ys ≡ true → has a zs ≡ false)
    → IsList h list (ys ++ zs)
join {h} {list} ys zs ne header s t out_ys out_zs dys dzs apart = record {
  ne_null = ne;
  header = rw (first-append ys zs null, last-append null ys zs) header;
  chain = Seg-append h null ys zs null s t;
  outside = rw (has-append list ys zs) (ground arith);
  distinct = Distinct-append ys zs dys dzs apart;
}
