-- ===== src/Dlist/Create.antt =====
-- `dlist_create` of src/dlist.c.
use easyipc.Base.{◌≡◌, refl, ◌≢◌, true, false, some, [], arith, ◌==◌}
use easyipc.Memory.{Ptr, null, node, Memory, ok, write, update, calloc_node, calloc_block}
use easyipc.Memory.Returns.{Returns, returns}
use easyipc.Dlist.{Dlist, create}
use easyipc.Dlist.Chain.{Holds, set_next-Holds, set_prev-Holds}
use easyipc.Dlist.Walk.{IsDlist}

calloc_block-fresh :
    (m : Memory) (p : Ptr)
    → p ≢ null
    → calloc_block p m ≡ ok p (record m { block = update m.block p true })
unfolding calloc_block
calloc_block-fresh m p h = ground arith

calloc_node-fresh :
    (m : Memory) (p : Ptr)
    → p ≢ null
    → calloc_node p m ≡ ok p (write m p (some (node null null null)))
unfolding calloc_node
calloc_node-fresh m p h = ground arith

-- Where the allocator gives three addresses that are not `NULL`, those of the two nodes
-- distinct, `dlist_create` returns a list that holds nothing, with its header allocated, and
-- every node elsewhere is as before.
pub create-nil :
    (m : Memory) (self head tail : Ptr)
    → self ≢ null
    → head ≢ null
    → tail ≢ null
    → head ≢ tail
    → Returns
        (λ r g.
          (l : Dlist) × (r ≡ some l)
          × IsDlist g l []
          × (g.block l.self ≡ true)
          × ((q : Ptr) → q ≢ head → q ≢ tail → g.cell q ≡ m.cell q))
        (create self head tail m)
unfolding create update
create-nil m self head tail s h t ht =
    let m0 = record m { block = update m.block self true } in
    let m1 = write m0 head (some (node null null null)) in
    let m2 = write m1 tail (some (node null null null)) in
    let m3 = write m2 head (some (node null null tail)) in
    let g = write m3 tail (some (node null head null)) in
    let at_h : Holds m2 head (node null null null) = ground arith in
    let at_t : Holds m3 tail (node null null null) = ground arith in
    let no_s : (self == null) ≡ false = ground arith in
    let no_h : (head == null) ≡ false = ground arith in
    let no_t : (tail == null) ≡ false = ground arith in
    rw
      (
        no_s,
        calloc_block-fresh m self s,
        calloc_node-fresh m0 head h,
        no_h,
        calloc_node-fresh m1 tail t,
        no_t,
        set_next-Holds at_h tail,
        set_prev-Holds at_t head,
      )
      (returns (
        record { self = self; head = head; tail = tail },
        refl,
        record { chain = ground arith; apart = ground arith; filled = tt },
        ground arith,
        ground arith,
      ))
