-- ===== src/Memory.antt =====
-- The part of the C heap that exp_inc/dlist.h and src/dlist.c work on: list nodes at addresses, and
-- the other allocated blocks (payloads and list headers), with commands that fault where C has no
-- defined behaviour.
pub mod Returns
use easyipc.Base.{ℕ, Bool, true, false, Option, none, some, ◌==◌, if◌then◌else◌}

abbrev pub Ptr : Type 0
Ptr = ℕ

abbrev pub null : Ptr
null = 0

-- `DListNode`
pub record Node : Type 0 where
  pub payload : Ptr
  pub prev : Ptr
  pub next : Ptr

abbrev pub node : Ptr → Ptr → Ptr → Node
node d a b = record { payload = d; prev = a; next = b }

pub record Memory : Type 0 where
  pub cell : Ptr → Option Node
  pub block : Ptr → Bool

pub data Run (A : Type 0) : Type 0 where
  ok : A → Memory → Run A
  fault : Run A
  out_of_fuel : Run A

abbrev pub Cmd : Type 0 → Type 0
Cmd A = Memory → Run A

abbrev pub pure : {A : Type 0} → A → Cmd A
pure = ok

module _ {A B : Type 0} where
  abbrev pub and_then : Run A → (A → Cmd B) → Run B
  and_then (ok a m) k = k a m
  and_then fault k = fault
  and_then out_of_fuel k = out_of_fuel

  infixl 5 ◌>>=◌ ◌>>◌
  abbrev pub ◌>>=◌ : Cmd A → (A → Cmd B) → Cmd B
  c >>= k = λ m. and_then (c m) k

  abbrev pub ◌>>◌ : Cmd A → Cmd B → Cmd B
  c >> d = c >>= λ _. d

-- A function changed at one address.
unfoldable pub update {ℓ} : {A : Type ℓ} → (Ptr → A) → Ptr → A → Ptr → A
update f p v q = if q == p then v else f q

abbrev pub write : Memory → Ptr → Option Node → Memory
write m p c = record m { cell = update m.cell p c }

-- `*p`, a fault at `NULL` and at an address that holds no node.
unfoldable pub load : Ptr → Cmd Node
load p m = if p == null then fault else elim (m.cell p) [ none ↦ fault | some n ↦ ok n m ]

abbrev store : Ptr → Node → Cmd (Unit {0})
store p n m = ok tt (write m p (some n))

-- `p->next = q`, `p->prev = q` and `p->data = d`
unfoldable pub set_next : Ptr → Ptr → Cmd (Unit {0})
set_next p q = do n ← load p; store p (record n { next = q })

unfoldable pub set_prev : Ptr → Ptr → Cmd (Unit {0})
set_prev p q = do n ← load p; store p (record n { prev = q })

unfoldable pub set_payload : Ptr → Ptr → Cmd (Unit {0})
set_payload p d = do n ← load p; store p (record n { payload = d })

-- `calloc(1, sizeof(DListNode))`: `fresh` is the address that the allocator answers.
unfoldable pub calloc_node : Ptr → Cmd Ptr
calloc_node fresh m =
    if fresh == null then ok null m else ok fresh (write m fresh (some (node null null null)))

unfoldable pub calloc_block : Ptr → Cmd Ptr
calloc_block fresh m =
    if fresh == null then ok null m else ok fresh (record m { block = update m.block fresh true })

unfoldable pub free_node : Ptr → Cmd (Unit {0})
free_node p = load p >> λ m. ok tt (write m p none)

-- `free` of a block that is not allocated is a fault; of `NULL` it does nothing.
unfoldable pub free_block : Ptr → Cmd (Unit {0})
free_block p m =
    if p == null
    then ok tt m
    else if m.block p
    then ok tt (record m { block = update m.block p false })
    else fault
