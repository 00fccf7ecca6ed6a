-- ===== src/Dlist/Insert.antt =====
-- `dlist_attach` and `dlist_add` of src/dlist.c: a new entry goes to its index, and the rest of the
-- memory stays.
use easyipc.Base.{
  ℕ, zero, suc, ◌-◌, ◌<◌, ◌≤◌, ◌≡◌, refl, sym, subst, ◌≢◌, ◌∙◌, true, false, none, some, [], ◌∷◌,
  arith, ◌==◌, leb, length, drop, insert_idx, if◌then◌else◌,
}
use easyipc.Base.Int.{pos}
use easyipc.Memory.{
  Ptr, null, node, Memory, ok, pure, write, update, calloc_node, set_payload, load,
}
use easyipc.Memory.Returns.{Returns, returns}
use easyipc.Dlist.{Dlist, ret_ok, attach, add, link, get}
use easyipc.Dlist.Chain.{Cells, first, has, Holds, Seg, load-Holds, frame, Seg-split, Distinct}
use easyipc.Dlist.Walk.{IsDlist, whole, len-IsDlist, get-IsDlist}
use easyipc.Dlist.Splice.{link-Seg, Distinct-insert}
use easyipc.Dlist.Cut.{cut, before_idx, All-insert, not-mem_of_none}

-- A fresh node with its payload.
fresh-Holds :
    (m : Memory) (p d : Ptr)
    → p ≢ null
    → (g : Memory) × (calloc_node p m ≡ ok p (write m p (some (node null null null))))
      × (set_payload p d (write m p (some (node null null null))) ≡ ok tt g)
      × Holds g p (node d null null)
      × ((q : Ptr) → q ≢ p → g.cell q ≡ m.cell q)
      × (g.block ≡ m.block)
unfolding calloc_node set_payload load update
fresh-Holds m p d h = (
  write (write m p (some (node null null null))) p (some (node d null null)),
  ground arith,
  ground arith,
  ground arith,
  ground arith,
  refl,
)

-- The list has the entry `c` more, at index `i`, and nothing else of the memory changed.
pub record Inserted (m g : Memory) (l : Dlist) (xs : Cells) (i : ℕ) (c : Ptr × Ptr) : Type 0 where
  pub list : IsDlist g l (insert_idx xs i c)
  pub others : (q : Ptr) → has q (whole l xs) ≡ false → q ≢ c.0 → g.cell q ≡ m.cell q
  pub blocks : g.block ≡ m.block

-- The four writes behind the node at index `i`.
link-Inserted :
    (m g1 : Memory) (l : Dlist) (xs : Cells) (i p d : Ptr) (le : i ≤ length xs)
    → IsDlist m l xs
    → d ≢ null
    → m.cell p ≡ none
    → Holds g1 p (node d null null)
    → ((q : Ptr) → q ≢ p → g1.cell q ≡ m.cell q)
    → (g1.block ≡ m.block)
    → (let r = cut (l.head, null) l.tail xs i le in
        IsDlist g1 l xs
        × ((pa : Ptr) × Holds g1 r.a (node r.da pa r.b))
        × ((nb : Ptr) × Holds g1 r.b (node r.db r.a nb))
        × ((g : Memory) × (link p r.a r.b g1 ≡ ok tt g) × Inserted m g l xs i (p, d)))
link-Inserted m g1 l xs i p d le is full unused new same blocks =
    let r = cut (l.head, null) l.tail xs i le in
    let out = not-mem_of_none m null (whole l xs) null p is.chain unused in
    let seg = frame m g1 null (whole l xs) null is.chain (λ q i. same q (ground (arith, out))) in
    let parts =
      Seg-split g1 null null r.us ((r.a, r.da) ∷ (r.b, r.db) ∷ r.vs)
        (subst (λ w. Seg g1 null w null) r.split seg) in
    let (g, run, seg', others, blocks') =
      link-Seg g1 null null r.a r.da r.b r.db r.us r.vs p d
        (subst (λ w. Seg g1 null w null) r.split seg) (subst Distinct r.split is.apart)
        (subst (λ w. has p w ≡ false) r.split out) new in
    (
      record { chain = seg; apart = is.apart; filled = is.filled },
      (_, parts.1.0),
      (_, parts.1.1.0),
      (
        g,
        run,
        record {
          list = record {
            chain = subst (λ w. Seg g null w null) (sym (r.inserted (p, d))) seg';
            apart = subst Distinct (sym (r.inserted (p, d))) (
                Distinct-insert ((r.b, r.db) ∷ r.vs) p d r.a r.da r.us
                  (subst Distinct r.split is.apart) (subst (λ w. has p w ≡ false) r.split out));
            filled = All-insert (λ c. c.1 ≢ null) xs i (p, d) is.filled full;
          };
          others = λ q o n. others q (subst (λ w. has q w ≡ false) r.split o) n ∙ same q n;
          blocks = blocks' ∙ blocks;
        },
      ),
    )

first-drop-length : (xs : Cells) (stop : Ptr) → first (drop (length xs) xs) stop ≡ stop
first-drop-length [] stop = refl
first-drop-length (x ∷ xs) stop = first-drop-length xs stop

-- The node that `dlist_add` links the new one behind.
before_idx_lem :
    (fuel : ℕ) {m : Memory} {l : Dlist} {xs : Cells}
    → IsDlist m l xs
    → length xs < fuel
    → (i : ℕ)
    → (if i == 0 then pure l.head else get fuel (some l) (pos (i - 1))) m
      ≡ ok (before_idx l.head xs i) m
before_idx_lem fuel is enough zero = refl
before_idx_lem fuel {xs} is enough (suc i) =
    let e : suc i - 1 ≡ i = omega arith in
    let f : (suc i == 0) ≡ false = ground arith in rw (f, e) (get-IsDlist fuel is enough i)

module _ (m : Memory) (l : Dlist) (xs : Cells) (fresh d : Ptr) (is : IsDlist m l xs)
    (got : fresh ≢ null) (unused : m.cell fresh ≡ none) (full : d ≢ null) where
  -- On a list that holds `xs`, with a fresh node from the allocator, `dlist_attach` of a payload
  -- that is not `NULL` returns `RET_OK`. The list then holds `xs` with the new entry behind the
  -- others, every node outside the list and every block is as before.
  pub attach-append :
      Returns
        (λ r g. (r ≡ ret_ok) × Inserted m g l xs (length xs) (fresh, d))
        (attach fresh (some l) d m)
  unfolding attach
  attach-append =
      let (g1, run1, run2, new, same, blocks) = fresh-Holds m fresh d got in
      let linked =
        link-Inserted m g1 l xs (length xs) fresh d (omega arith) is full unused new same blocks in
      let r = cut (l.head, null) l.tail xs (length xs) (omega arith) in
      let no_d : (d == null) ≡ false = ground arith in
      let no_p : (fresh == null) ≡ false = ground arith in
      let at_tail : Holds g1 l.tail (node r.db r.a linked.2.0) =
        subst (λ b. Holds g1 b (node r.db r.a linked.2.0)) (r.right ∙ first-drop-length xs l.tail)
          linked.2.1 in
      let run : link fresh r.a l.tail g1 ≡ ok tt linked.3.0 =
        subst (λ b. link fresh r.a b g1 ≡ ok tt linked.3.0) (r.right ∙ first-drop-length xs l.tail)
          linked.3.1 in
      rw (no_d, run1, no_p, run2, load-Holds at_tail, run) (returns (refl, linked.3.2))

  -- On a list that holds `xs`, with fuel for its length and a fresh node from the allocator,
  -- `dlist_add` of a payload that is not `NULL` at any index up to the length returns `RET_OK`.
  -- The list then holds `xs` with the new entry at that index, every node outside the list and
  -- every block is as before.
  pub add-insert :
      (fuel i : ℕ)
      → i ≤ length xs
      → length xs < fuel
      → Returns
          (λ r g. (r ≡ ret_ok) × Inserted m g l xs i (fresh, d))
          (add fuel fresh (some l) (pos i) d m)
  unfolding add
  add-insert fuel i le enough =
      let (g1, run1, run2, new, same, blocks) = fresh-Holds m fresh d got in
      let linked = link-Inserted m g1 l xs i fresh d le is full unused new same blocks in
      let no_d : (d == null) ≡ false = ground arith in
      let no_p : (fresh == null) ≡ false = ground arith in
      let in_range : leb i (length xs) ≡ true = ground arith in
      let r = cut (l.head, null) l.tail xs i le in
      let at_a : Holds g1 (before_idx l.head xs i) (node r.da linked.1.0 r.b) =
        subst (λ a. Holds g1 a (node r.da linked.1.0 r.b)) r.left linked.1.1 in
      let run : link fresh (before_idx l.head xs i) r.b g1 ≡ ok tt linked.3.0 =
        subst (λ a. link fresh a r.b g1 ≡ ok tt linked.3.0) r.left linked.3.1 in
      rw
        (
          no_d,
          len-IsDlist fuel is enough,
          in_range,
          run1,
          no_p,
          run2,
          before_idx_lem fuel linked.0 enough i,
          load-Holds at_a,
          run,
        )
        (returns (refl, linked.3.2))
