-- ===== src/Dlist/Chain.antt =====
-- What a chain of nodes in memory stands for: src/dlist.c's nodes from `head` to `tail`, as a list
-- of addresses with their payloads.
use easyipc.Base.{◌≡◌, refl, ◌≢◌, Bool, true, false, ◌||◌, some, List, [], ◌∷◌, ◌++◌, arith, ◌==◌}
use easyipc.Memory.{Ptr, null, Node, node, Memory, ok, load, write, set_next, set_prev}

abbrev pub Cells : Type 0
Cells = List (Ptr × Ptr)

abbrev pub first : Cells → Ptr → Ptr
first [] stop = stop
first ((a, d) ∷ xs) stop = a

abbrev pub last : Ptr → Cells → Ptr
last start [] = start
last start ((a, d) ∷ xs) = last a xs

abbrev pub has : Ptr → Cells → Bool
has q [] = false
has q ((a, d) ∷ xs) = (q == a) || has q xs

abbrev pub Distinct : Cells → Type 0
Distinct [] = Unit {0}
Distinct ((a, d) ∷ xs) = (has a xs ≡ false) × Distinct xs

-- The node at `a`.
pub record Holds (m : Memory) (a : Ptr) (n : Node) : Type 0 where
  pub ne_null : a ≢ null
  pub holds : m.cell a ≡ some n

-- The nodes `xs` are linked both ways, between `before` and `stop`.
abbrev pub Seg : Memory → Ptr → Cells → Ptr → Type 0
Seg m before [] stop = Unit {0}
Seg m before ((a, d) ∷ xs) stop = Holds m a (node d before (first xs stop)) × Seg m a xs stop

module _ {m : Memory} {a : Ptr} {n : Node} (h : Holds m a n) where
  pub load-Holds : load a m ≡ ok n m
  unfolding load
  load-Holds = ground (arith, h.ne_null, h.holds)

  pub set_next-Holds : (q : Ptr) → set_next a q m ≡ ok tt (write m a (some (record n { next = q })))
  unfolding set_next
  set_next-Holds q = rw load-Holds

  pub set_prev-Holds : (q : Ptr) → set_prev a q m ≡ ok tt (write m a (some (record n { prev = q })))
  unfolding set_prev
  set_prev-Holds q = rw load-Holds

pub first-append : (xs ys : Cells) (stop : Ptr) → first (xs ++ ys) stop ≡ first xs (first ys stop)
first-append [] ys stop = refl
first-append ((a, d) ∷ xs) ys stop = refl

pub has-append : (q : Ptr) (xs ys : Cells) → has q (xs ++ ys) ≡ (has q xs || has q ys)
has-append q [] ys = refl
has-append q ((a, d) ∷ xs) ys = ground (arith, has-append q xs ys)

module _ (m : Memory) (stop : Ptr) where
  pub Seg-append :
      (before : Ptr) (xs ys : Cells)
      → Seg m before xs (first ys stop)
      → Seg m (last before xs) ys stop
      → Seg m before (xs ++ ys) stop
  Seg-append before [] ys hx hy = hy
  Seg-append before ((a, d) ∷ xs) ys hx hy =
      (rw (first-append xs ys stop) hx.0, Seg-append a xs ys hx.1 hy)

  pub Seg-split :
      (before : Ptr) (xs ys : Cells)
      → Seg m before (xs ++ ys) stop
      → Seg m before xs (first ys stop) × Seg m (last before xs) ys stop
  Seg-split before [] ys h = (tt, h)
  Seg-split before ((a, d) ∷ xs) ys h =
      let r = Seg-split a xs ys h.1 in ((rw (first-append xs ys stop) at h.0, r.0), r.1)

-- A segment survives a change that spares its own addresses.
pub frame :
    (m g : Memory) (before : Ptr) (xs : Cells) (stop : Ptr)
    → Seg m before xs stop
    → ((q : Ptr) → has q xs ≡ true → g.cell q ≡ m.cell q)
    → Seg g before xs stop
frame m g before [] stop h same = tt
frame m g before ((a, d) ∷ xs) stop h same = (
  record { ne_null = h.0.ne_null; holds = ground (arith, same a, h.0.holds) },
  frame m g a xs stop h.1 λ q i. same q (ground arith),
)

-- Both surgeries on a list: what stands between the nodes `a` and `b` is replaced.
module _ (m g : Memory) (stop a da b db : Ptr) (old new vs : Cells) where
  pub relink :
      (before : Ptr) (us : Cells)
      → Seg m before (us ++ (a, da) ∷ (old ++ (b, db) ∷ vs)) stop
      → ((q : Ptr) → has q us ≡ true → g.cell q ≡ m.cell q)
      → ((q : Ptr) → has q vs ≡ true → g.cell q ≡ m.cell q)
      → Holds g a (node da (last before us) (first new b))
      → Holds g b (node db (last a new) (first vs stop))
      → Seg g a new b
      → Seg g before (us ++ (a, da) ∷ (new ++ (b, db) ∷ vs)) stop
  relink before [] h us_same vs_same left right mid =
      let r = Seg-split m stop a old ((b, db) ∷ vs) h.1 in
      (
        rw (first-append new ((b, db) ∷ vs) stop) left,
        Seg-append g stop a new ((b, db) ∷ vs) mid (right, frame m g b vs stop r.1.1 vs_same),
      )
  relink before ((x, d) ∷ us) h us_same vs_same left right mid = (
    record {
      ne_null = h.0.ne_null;
      holds = rw (
        us_same x (ground arith),
        h.0.holds,
        first-append us ((a, da) ∷ (old ++ (b, db) ∷ vs)) stop,
        first-append us ((a, da) ∷ (new ++ (b, db) ∷ vs)) stop,
      );
    },
    relink x us h.1 (λ q i. us_same q (ground arith)) vs_same left right mid,
  )
