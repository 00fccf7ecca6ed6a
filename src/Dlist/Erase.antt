-- ===== src/Dlist/Erase.antt =====
-- `dlist_remove` and `dlist_delete` of src/dlist.c: the entry at an index goes, its node is freed,
-- and the rest of the memory stays.
use easyipc.Base.{
  ℕ, ◌<◌, ◌≡◌, refl, sym, subst, ◌≢◌, ◌∙◌, ap, Bool, true, false, none, some, ◌∷◌, ◌++◌, arith,
  ◌==◌, ltb, length, get_elem?, erase_idx,
}
use easyipc.Base.Int.{pos}
use easyipc.Memory.{Ptr, null, Node, Memory, ok, write, update, free_node, free_block}
use easyipc.Memory.Returns.{Returns, returns}
use easyipc.Dlist.{Dlist, ret_ok, unlink, remove, delete}
use easyipc.Dlist.Chain.{Cells, has, Holds, Seg, load-Holds, frame, Distinct, has-append}
use easyipc.Dlist.Walk.{IsDlist, whole, len-IsDlist, get-IsDlist}
use easyipc.Dlist.Splice.{unlink-Seg, Distinct-erase, update_ne}
use easyipc.Dlist.Cut.{cut, insert-erase, length-erase, lt-get, first-drop_get, All-erase}

-- The list has lost its entry at index `i`, whose node is freed; nothing else of the nodes changed.
pub record Erased (m g : Memory) (l : Dlist) (xs : Cells) (i : ℕ) (p : Ptr) : Type 0 where
  pub list : IsDlist g l (erase_idx xs i)
  pub freed : g.cell p ≡ none
  pub others : (q : Ptr) → has q (whole l xs) ≡ false → g.cell q ≡ m.cell q

has-behind :
    (q p d a da : Ptr) (us ws : Cells)
    → has q (us ++ (a, da) ∷ (p, d) ∷ ws) ≡ false
    → (q ≢ p) × (has q (us ++ (a, da) ∷ ws) ≡ false)
has-behind q p d a da us ws o =
    let e = has-append q us ((a, da) ∷ (p, d) ∷ ws) in
    (ground (arith, e), ground (arith, e, has-append q us ((a, da) ∷ ws)))

pub free-Holds :
    {m : Memory} {a : Ptr} {n : Node} → Holds m a n → free_node a m ≡ ok tt (write m a none)
unfolding free_node
free-Holds h = rw (load-Holds h)

-- Blocks are no part of a list.
Erased-blocks :
    {m g : Memory} {l : Dlist} {xs : Cells} {i p : Ptr} (b : Ptr → Bool)
    → Erased m g l xs i p
    → Erased m (record g { block = b }) l xs i p
Erased-blocks {g} {l} {xs} {i} b e = record {
  list = record {
    chain =
        frame g (record g { block = b }) null (whole l (erase_idx xs i)) null e.list.chain
          λ q _. refl;
    apart = e.list.apart;
    filled = e.list.filled;
  };
  freed = e.freed;
  others = e.others;
}

module _ (m : Memory) (l : Dlist) (xs : Cells) (i p d : Ptr) (is : IsDlist m l xs)
    (at : get_elem? xs i ≡ some (p, d)) where
  unlink-Erased :
      (g : Memory) × (unlink p m ≡ ok d g)
      × (p ≢ null)
      × ((n : Node) × Holds g p n)
      × Erased m (write g p none) l xs i p
      × (g.block ≡ m.block)
  unfolding update
  unlink-Erased =
      let r =
        cut (l.head, null) l.tail (erase_idx xs i) i
          (omega (arith, lt-get xs i at, length-erase xs i at)) in
      let split = ap (whole l) (sym (insert-erase xs i at)) ∙ r.inserted (p, d) in
      let seg = subst (λ w. Seg m null w null) split is.chain in
      let dis =
        Distinct-erase ((r.b, r.db) ∷ r.vs) p d r.a r.da r.us (subst Distinct split is.apart) in
      let (g, run, seg', hp, others, blocks) =
        unlink-Seg m null null r.a r.da r.b r.db r.us r.vs p d seg
          (subst Distinct split is.apart) in
      (
        g,
        run,
        hp.ne_null,
        (_, hp),
        record {
          list = record {
            chain =
                subst (λ w. Seg (write g p none) null w null) (sym r.split)
                  (frame g (write g p none) null _ null seg' (λ q i. ground (arith, dis.1)));
            apart = subst Distinct (sym r.split) dis.0;
            filled = All-erase (λ c. c.1 ≢ null) xs i is.filled;
          };
          freed = ground arith;
          others = λ q o.
              let (n, out) =
                has-behind q p d r.a r.da r.us ((r.b, r.db) ∷ r.vs)
                  (subst (λ w. has q w ≡ false) split o) in
              update_ne g.cell p none q n ∙ others q out;
        },
        blocks,
      )

module _ (fuel : ℕ) (m : Memory) (l : Dlist) (xs : Cells) (i p d : Ptr) (is : IsDlist m l xs)
    (at : get_elem? xs i ≡ some (p, d)) (enough : length xs < fuel) where
  -- On a list that holds `xs`, with fuel for its length, `dlist_remove` at the index of an entry
  -- returns `RET_OK`. The list then holds `xs` without that entry, its node is free, and every
  -- node outside the list and every block, the payload's too, is as before.
  pub remove-erase :
      Returns
        (λ r g. (r ≡ ret_ok) × Erased m g l xs i p × (g.block ≡ m.block))
        (remove fuel (some l) (pos i) m)
  unfolding remove
  remove-erase =
      let (g, run, not_null, (n, hp), done, blocks) = unlink-Erased m l xs i p d is at in
      let in_range : ltb i (length xs) ≡ true = ground (arith, lt-get xs i at) in
      let no_p : (p == null) ≡ false = ground arith in
      rw
        (
          len-IsDlist fuel is enough,
          in_range,
          get-IsDlist fuel is enough i,
          first-drop_get xs i null at,
          no_p,
          run,
          free-Holds hp,
        )
        (returns (refl, done, blocks))

  -- On a list that holds `xs`, with fuel for its length, `dlist_delete` at the index of an entry
  -- whose payload is an allocated block, not `NULL`, returns `RET_OK` without a fault. The list
  -- then holds `xs` without that entry, its node and its payload are free, every node outside
  -- the list and every other block is as before.
  pub delete-erase :
      m.block d ≡ true
      → d ≢ null
      → Returns
          (λ r g. (r ≡ ret_ok) × Erased m g l xs i p × (g.block ≡ update m.block d false))
          (delete fuel (some l) (pos i) m)
  unfolding delete free_block
  delete-erase allocated full =
      let moved = λ (g : Memory) (n : Node) (h : Holds g p n).
        let r : Holds (record g { block = update m.block d false }) p n = record {
          ne_null = h.ne_null;
          holds = h.holds;
        } in
        r in
      let (g, run, not_null, (n, hp), done, blocks) = unlink-Erased m l xs i p d is at in
      let in_range : ltb i (length xs) ≡ true = ground (arith, lt-get xs i at) in
      let no_p : (p == null) ≡ false = ground arith in
      let no_d : (d == null) ≡ false = ground arith in
      rw
        (
          len-IsDlist fuel is enough,
          in_range,
          get-IsDlist fuel is enough i,
          first-drop_get xs i null at,
          no_p,
          run,
          no_d,
          blocks,
          allocated,
          free-Holds (moved g n hp),
        )
        (returns (refl, Erased-blocks (update m.block d false) done, refl))
