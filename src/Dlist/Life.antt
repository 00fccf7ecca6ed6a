-- ===== src/Dlist/Life.antt =====
-- `dlist_destroy` of src/dlist.c.
use easyipc.Base.{
  ℕ, zero, suc, ◌<◌, ◌≡◌, refl, ◌≢◌, ◌∙◌, ap, Bool, true, false, ◌||◌, none, some, [], ◌∷◌, ◌++◌,
  arith, ◌==◌, length, All,
}
use easyipc.Memory.{Ptr, null, Node, node, Memory, ok, write, update, free_block}
use easyipc.Memory.Returns.{Returns, returns}
use easyipc.Dlist.{Dlist, ret_ok, destroy_loop, destroy}
use easyipc.Dlist.Chain.{
  Cells, first, has, Holds, Seg, load-Holds, frame, Seg-split, Distinct, has-append, first-append,
}
use easyipc.Dlist.Walk.{IsDlist, whole}
use easyipc.Dlist.Splice.{update_ne, keep}
use easyipc.Dlist.Erase.{free-Holds}

-- `b` is the payload of an entry.
abbrev pub paid : Ptr → Cells → Bool
paid b [] = false
paid b ((a, d) ∷ xs) = (b == d) || paid b xs

-- Each entry has an allocated payload of its own.
abbrev pub Owned : Memory → Cells → Type 0
Owned m [] = Unit {0}
Owned m ((a, d) ∷ xs) = (m.block d ≡ true) × (paid d xs ≡ false) × Owned m xs

Owned-frame :
    (m g : Memory) (xs : Cells)
    → ((b : Ptr) → paid b xs ≡ true → g.block b ≡ m.block b)
    → Owned m xs
    → Owned g xs
Owned-frame m g [] same o = tt
Owned-frame m g ((a, d) ∷ xs) same o =
    (same d (ground arith) ∙ o.0, o.1, Owned-frame m g xs (λ b i. same b (ground arith)) o.2)

-- The nodes `xs` and their payloads are free, and nothing else changed.
pub record Released (m g : Memory) (xs : Cells) : Type 0 where
  pub cells : (q : Ptr) → has q xs ≡ true → g.cell q ≡ none
  pub other_cells : (q : Ptr) → has q xs ≡ false → g.cell q ≡ m.cell q
  pub blocks : (b : Ptr) → paid b xs ≡ true → g.block b ≡ false
  pub other_blocks : (b : Ptr) → paid b xs ≡ false → g.block b ≡ m.block b

ne_of_has : (a q : Ptr) (xs : Cells) → has a xs ≡ false → has q xs ≡ true → q ≢ a
ne_of_has a q xs out i e = ground (arith, ap (λ p. has p xs) e)

ne_of_paid : (d b : Ptr) (xs : Cells) → paid d xs ≡ false → paid b xs ≡ true → b ≢ d
ne_of_paid d b xs out i e = ground (arith, ap (λ p. paid p xs) e)

free_block-allocated :
    (m : Memory) (d : Ptr)
    → d ≢ null
    → m.block d ≡ true
    → free_block d m ≡ ok tt (record m { block = update m.block d false })
unfolding free_block
free_block-allocated m d full allocated = ground arith

Released-cons :
    (m g : Memory) (a d : Ptr) (xs : Cells)
    → has a xs ≡ false
    → paid d xs ≡ false
    → Released (write (record m { block = update m.block d false }) a none) g xs
    → Released m g ((a, d) ∷ xs)
unfolding update
Released-cons m g a d xs out unpaid r = record {
  cells = λ q i. ground (arith, r.cells q, r.other_cells q);
  other_cells = λ q i. ground (arith, r.other_cells q);
  blocks = λ b i. ground (arith, r.blocks b, r.other_blocks b);
  other_blocks = λ b i. ground (arith, r.other_blocks b);
}

destroy_loop-Released :
    (m : Memory) (fuel before tail : ℕ) (xs : Cells)
    → Seg m before (xs ++ (tail, null) ∷ []) null
    → Distinct (xs ++ (tail, null) ∷ [])
    → All (λ c. c.1 ≢ null) xs
    → Owned m xs
    → length xs < fuel
    → (g : Memory) × (destroy_loop fuel (first xs tail) m ≡ ok tt g) × Released m g xs
unfolding destroy_loop
destroy_loop-Released m zero before tail xs h dis f o lt = absurd (omega arith)
destroy_loop-Released m (suc fuel) before tail [] h dis f o lt = (
  m,
  rw (load-Holds h.0),
  record {
    cells = λ q i. ground arith;
    other_cells = λ q i. refl;
    blocks = λ q i. ground arith;
    other_blocks = λ q i. refl;
  },
)
destroy_loop-Released m (suc fuel) before tail ((a, d) ∷ xs) h dis f o lt =
    let full : (d == null) ≡ false = ground (arith, f.0) in
    let m1 : Memory = record m { block = update m.block d false } in
    let at_a : Holds m1 a (node d before (first xs tail)) = record {
      ne_null = h.0.ne_null;
      holds =
          h.0.holds ∙ ap (λ q. some (node d before q)) (first-append xs ((tail, null) ∷ []) null);
    } in
    let m2 : Memory = write m1 a none in
    let lone = has-append a xs ((tail, null) ∷ []) in
    let (g, run, rest) =
      destroy_loop-Released m2 fuel a tail xs
        (frame m m2 a (xs ++ (tail, null) ∷ []) null h.1
          λ q i. update_ne m.cell a none q (ne_of_has a q (xs ++ (tail, null) ∷ []) dis.0 i))
        dis.1 f.1
        (Owned-frame m m2 xs (λ b i. update_ne m.block d false b (ne_of_paid d b xs o.1 i)) o.2)
        (ground (arith, lt)) in
    (
      g,
      rw (
        load-Holds h.0,
        full,
        free_block-allocated m d f.0 o.0,
        free-Holds at_a,
        first-append xs ((tail, null) ∷ []) null,
        run,
      ),
      Released-cons m g a d xs (ground (arith, lone)) o.1 rest,
    )

tail_out : (t : Ptr) (xs : Cells) → Distinct (xs ++ (t, null) ∷ []) → has t xs ≡ false
tail_out t [] dis = refl
tail_out t ((a, d) ∷ xs) dis = ground (arith, has-append a xs ((t, null) ∷ []), tail_out t xs dis.1)

-- What is left of the list after the loop: its sentinels and its header.
module _ (m g : Memory) (l : Dlist) (xs : Cells) (is : IsDlist m l xs) (rest : Released m g xs)
    (self : l.self ≢ null) (allocated : m.block l.self ≡ true)
    (unpaid : paid l.self xs ≡ false) where
  abbrev swept : Memory
  swept = record (write (write g l.head none) l.tail none) { block = update g.block l.self false }

  sweep_lem :
      ((n : Node) × Holds g l.head n)
      × ((n : Node) × Holds (write g l.head none) l.tail n)
      × (free_block l.self (write (write g l.head none) l.tail none) ≡ ok tt swept)
  sweep_lem =
      let head_out : has l.head xs ≡ false =
        ground (arith, has-append l.head xs ((l.tail, null) ∷ []), is.apart.0) in
      let apart : l.tail ≢ l.head =
        ground (arith, has-append l.head xs ((l.tail, null) ∷ []), is.apart.0) in
      let left : g.block l.self ≡ true = rest.other_blocks l.self unpaid ∙ allocated in
      (
        (_, keep is.chain.0 (rest.other_cells l.head head_out)),
        (
          _,
          keep (Seg-split m null l.head xs ((l.tail, null) ∷ []) is.chain.1).1.0 (
              update_ne g.cell l.head none l.tail apart
              ∙ rest.other_cells l.tail (tail_out l.tail xs is.apart.1)),
        ),
        free_block-allocated (write (write g l.head none) l.tail none) l.self self left,
      )

  swept_cells : (q : Ptr) → has q (whole l xs) ≡ true → swept.cell q ≡ none
  unfolding update
  swept_cells q i = ground (arith, has-append q xs ((l.tail, null) ∷ []), rest.cells q)

  swept_others : (q : Ptr) → has q (whole l xs) ≡ false → swept.cell q ≡ m.cell q
  unfolding update
  swept_others q i = ground (arith, has-append q xs ((l.tail, null) ∷ []), rest.other_cells q)

  swept_blocks : (b : Ptr) → paid b xs ≡ true → swept.block b ≡ false
  unfolding update
  swept_blocks b i = ground (arith, rest.blocks b)

  swept_other_blocks : (b : Ptr) → b ≢ l.self → paid b xs ≡ false → swept.block b ≡ m.block b
  unfolding update
  swept_other_blocks b n i = ground (arith, rest.other_blocks b)

-- The list is gone: its nodes, its payloads and its header are free, and nothing else is touched.
pub record Destroyed (m g : Memory) (l : Dlist) (xs : Cells) : Type 0 where
  pub cells : (q : Ptr) → has q (whole l xs) ≡ true → g.cell q ≡ none
  pub other_cells : (q : Ptr) → has q (whole l xs) ≡ false → g.cell q ≡ m.cell q
  pub header : g.block l.self ≡ false
  pub blocks : (b : Ptr) → paid b xs ≡ true → g.block b ≡ false
  pub other_blocks : (b : Ptr) → b ≢ l.self → paid b xs ≡ false → g.block b ≡ m.block b

-- On a list that holds `xs`, each entry with an allocated payload of its own, none of them the
-- allocated header, `dlist_destroy` with fuel for the length returns `RET_OK` without a fault.
-- All nodes, the payloads and the header are then free, and every other node and block is as
-- before.
pub destroy_lem :
    (fuel : ℕ) (m : Memory) (l : Dlist) (xs : Cells)
    → IsDlist m l xs
    → Owned m xs
    → l.self ≢ null
    → m.block l.self ≡ true
    → paid l.self xs ≡ false
    → length xs < fuel
    → Returns (λ r g. (r ≡ ret_ok) × Destroyed m g l xs) (destroy fuel (some l) m)
unfolding destroy update
destroy_lem fuel m l xs is own self allocated unpaid enough =
    let (g, run, rest) =
      destroy_loop-Released m fuel l.head l.tail xs is.chain.1 is.apart.1 is.filled own enough in
    let ((n, at_head), (k, at_tail), header) = sweep_lem m g l xs is rest self allocated unpaid in
    rw
      (
        load-Holds is.chain.0,
        first-append xs ((l.tail, null) ∷ []) null,
        run,
        free-Holds at_head,
        free-Holds at_tail,
        header,
      )
      (returns (
        refl,
        record {
          cells = swept_cells m g l xs is rest self allocated unpaid;
          other_cells = swept_others m g l xs is rest self allocated unpaid;
          header = ground arith;
          blocks = swept_blocks m g l xs is rest self allocated unpaid;
          other_blocks = swept_other_blocks m g l xs is rest self allocated unpaid;
        },
      ))
