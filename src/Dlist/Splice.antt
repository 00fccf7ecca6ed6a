-- ===== src/Dlist/Splice.antt =====
-- The pointer surgery of src/dlist.c at any place of a chain: a node linked in behind another, and
-- a node taken out.
use easyipc.Base.{◌≡◌, refl, sym, ◌∙◌, ◌≢◌, true, false, some, [], ◌∷◌, ◌++◌, arith}
use easyipc.Memory.{Ptr, null, Node, node, Memory, ok, write, update}
use easyipc.Dlist.{link, unlink}
use easyipc.Dlist.Chain.{
  Cells, first, last, has, Distinct, Holds, Seg, load-Holds, set_next-Holds, set_prev-Holds,
  has-append, Seg-split, relink,
}

module _ (ws : Cells) where
  pub apart-append :
      (us : Cells) → Distinct (us ++ ws) → (q : Ptr) → has q us ≡ true → has q ws ≡ false
  apart-append [] dis q i = ground arith
  apart-append ((a, d) ∷ us) dis q i =
      ground (arith, has-append q us ws, has-append a us ws, apart-append us dis.1 q)

  pub Distinct-right : (us : Cells) → Distinct (us ++ ws) → Distinct ws
  Distinct-right [] dis = dis
  Distinct-right ((a, d) ∷ us) dis = Distinct-right us dis.1

  pub Distinct-insert :
      (p d a da : Ptr) (us : Cells)
      → Distinct (us ++ (a, da) ∷ ws)
      → has p (us ++ (a, da) ∷ ws) ≡ false
      → Distinct (us ++ (a, da) ∷ (p, d) ∷ ws)
  Distinct-insert p d a da [] dis out = (ground arith, (ground arith, dis.1))
  Distinct-insert p d a da ((x, e) ∷ us) dis out = (
    ground (arith, has-append x us ((a, da) ∷ (p, d) ∷ ws), has-append x us ((a, da) ∷ ws)),
    Distinct-insert p d a da us dis.1 (ground arith),
  )

  pub Distinct-erase :
      (p d a da : Ptr) (us : Cells)
      → Distinct (us ++ (a, da) ∷ (p, d) ∷ ws)
      → Distinct (us ++ (a, da) ∷ ws) × (has p (us ++ (a, da) ∷ ws) ≡ false)
  Distinct-erase p d a da [] dis = ((ground arith, dis.1.1), ground (arith, dis.1.0))
  Distinct-erase p d a da ((x, e) ∷ us) dis =
      let r = Distinct-erase p d a da us dis.1 in
      (
        (
          ground (arith, has-append x us ((a, da) ∷ (p, d) ∷ ws), has-append x us ((a, da) ∷ ws)),
          r.0,
        ),
        ground (arith, r.1, has-append x us ((a, da) ∷ (p, d) ∷ ws)),
      )

-- The node at `a`, in a memory that differs elsewhere.
pub keep : {m g : Memory} {a : Ptr} {n : Node} → Holds m a n → g.cell a ≡ m.cell a → Holds g a n
keep h e = record { ne_null = h.ne_null; holds = e ∙ h.holds }

put : (m : Memory) {a : Ptr} (n : Node) → a ≢ null → Holds (write m a (some n)) a n
unfolding update
put m n h = record { ne_null = h; holds = ground arith }

pub update_ne {ℓ} :
    {A : Type ℓ} (f : Ptr → A) (p : Ptr) (v : A) (q : Ptr) → q ≢ p → update f p v q ≡ f q
unfolding update
update_ne f p v q h = ground arith

-- The four writes of `link`, each at a node that stands.
link-Holds :
    (m : Memory) (p a b d da pa db nb : Ptr)
    → p ≢ a
    → p ≢ b
    → a ≢ b
    → Holds m a (node da pa b)
    → Holds m b (node db a nb)
    → Holds m p (node d null null)
    → (g : Memory) × (link p a b m ≡ ok tt g)
      × Holds g a (node da pa p)
      × Holds g p (node d a b)
      × Holds g b (node db p nb)
      × ((q : Ptr) → q ≢ a → q ≢ b → q ≢ p → g.cell q ≡ m.cell q)
      × (g.block ≡ m.block)
unfolding link update
link-Holds m p a b d da pa db nb pa' pb ab ha hb hp =
    let g1 = write m a (some (node da pa p)) in
    let p1 : Holds g1 p (node d null null) = keep hp (update_ne m.cell a _ p pa') in
    let g2 = write g1 p (some (node d a null)) in
    let p2 : Holds g2 p (node d a null) = put g1 _ hp.ne_null in
    let g3 = write g2 p (some (node d a b)) in
    let b3 : Holds g3 b (node db a nb) = keep hb (
      update_ne g2.cell p _ b (λ e. pb (sym e))
      ∙ update_ne g1.cell p _ b (λ e. pb (sym e))
      ∙ update_ne m.cell a _ b (λ e. ab (sym e))) in
    let g4 = write g3 b (some (node db p nb)) in
    (
      g4,
      rw (set_next-Holds ha p, set_prev-Holds p1 a, set_next-Holds p2 b, set_prev-Holds b3 p),
      ground arith,
      ground arith,
      ground arith,
      ground arith,
      refl,
    )

-- Taking the node at `p` out, between `a` and `b`.
unlink-Holds :
    (m : Memory) (p a b d da pa db nb : Ptr)
    → p ≢ a
    → p ≢ b
    → a ≢ b
    → Holds m a (node da pa p)
    → Holds m p (node d a b)
    → Holds m b (node db p nb)
    → (g : Memory) × (unlink p m ≡ ok d g)
      × Holds g a (node da pa b)
      × Holds g p (node d a b)
      × Holds g b (node db a nb)
      × ((q : Ptr) → q ≢ a → q ≢ b → g.cell q ≡ m.cell q)
      × (g.block ≡ m.block)
unfolding unlink update
unlink-Holds m p a b d da pa db nb pa' pb ab ha hp hb =
    let g1 = write m a (some (node da pa b)) in
    let b1 : Holds g1 b (node db p nb) = keep hb (update_ne m.cell a _ b (λ e. ab (sym e))) in
    let g2 = write g1 b (some (node db a nb)) in
    (
      g2,
      rw (load-Holds hp, set_next-Holds ha b, set_prev-Holds b1 a),
      ground arith,
      ground arith,
      ground arith,
      ground arith,
      refl,
    )

-- The chain `us`, then the nodes `a` and `b`, then `vs`.
module _ (m : Memory) (before stop a da b db : Ptr) (us vs : Cells) where
  abbrev pub around : Cells → Cells
  around mid = us ++ (a, da) ∷ (mid ++ (b, db) ∷ vs)

  pub link-Seg :
      (p d : Ptr)
      → Seg m before (around []) stop
      → Distinct (around [])
      → has p (around []) ≡ false
      → Holds m p (node d null null)
      → (g : Memory) × (link p a b m ≡ ok tt g)
        × Seg g before (around ((p, d) ∷ [])) stop
        × ((q : Ptr) → has q (around []) ≡ false → q ≢ p → g.cell q ≡ m.cell q)
        × (g.block ≡ m.block)
  link-Seg p d seg dis out fresh =
      let r = Seg-split m stop before us ((a, da) ∷ (b, db) ∷ vs) seg in
      let here = Distinct-right ((a, da) ∷ (b, db) ∷ vs) us dis in
      let apart = apart-append ((a, da) ∷ (b, db) ∷ vs) us dis in
      let cut = has-append p us ((a, da) ∷ (b, db) ∷ vs) in
      let (g, run, ha, hp, hb, same, blocks) =
        link-Holds m p a b d da (last before us) db (first vs stop) (ground (arith, cut))
          (ground (arith, cut)) (ground (arith, here)) r.1.0 r.1.1.0 fresh in
      (
        g,
        run,
        relink m g stop a da b db [] ((p, d) ∷ []) vs before us seg
            (λ q i.
              same q (ground (arith, apart q)) (ground (arith, apart q)) (ground (arith, cut)))
            (λ q i. same q (ground (arith, here)) (ground (arith, here)) (ground (arith, cut))) ha
            hb (hp, tt),
        λ q o n.
            same q (ground (arith, has-append q us ((a, da) ∷ (b, db) ∷ vs)))
              (ground (arith, has-append q us ((a, da) ∷ (b, db) ∷ vs))) n,
        blocks,
      )

  pub unlink-Seg :
      (p d : Ptr)
      → Seg m before (around ((p, d) ∷ [])) stop
      → Distinct (around ((p, d) ∷ []))
      → (g : Memory) × (unlink p m ≡ ok d g)
        × Seg g before (around []) stop
        × Holds g p (node d a b)
        × ((q : Ptr) → has q (around []) ≡ false → g.cell q ≡ m.cell q)
        × (g.block ≡ m.block)
  unlink-Seg p d seg dis =
      let ws = (a, da) ∷ (p, d) ∷ (b, db) ∷ vs in
      let r = Seg-split m stop before us ws seg in
      let here = Distinct-right ws us dis in
      let apart = apart-append ws us dis in
      let (g, run, ha, hp, hb, same, blocks) =
        unlink-Holds m p a b d da (last before us) db (first vs stop) (ground (arith, here))
          (ground (arith, here)) (ground (arith, here)) r.1.0 r.1.1.0 r.1.1.1.0 in
      (
        g,
        run,
        relink m g stop a da b db ((p, d) ∷ []) [] vs before us seg
            (λ q i. same q (ground (arith, apart q)) (ground (arith, apart q)))
            (λ q i. same q (ground (arith, here)) (ground (arith, here))) ha hb tt,
        hp,
        λ q o.
            same q (ground (arith, has-append q us ((a, da) ∷ (b, db) ∷ vs)))
              (ground (arith, has-append q us ((a, da) ∷ (b, db) ∷ vs))),
        blocks,
      )
