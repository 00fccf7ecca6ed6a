-- ===== src/Dlist.antt =====
-- src/dlist.c: the doubly linked list with two sentinel nodes that every table of the program is
-- kept in. A walk runs on fuel, which the theorems below this module bound by the length.
pub mod Chain
pub mod Walk
pub mod Splice
pub mod Cut
pub mod Insert
pub mod Erase
pub mod Life
pub mod Create
use easyipc.Base.{ℕ, zero, suc, ◌+◌, ◌-◌, Bool, Option, none, some, ◌==◌, ltb, leb, if◌then◌else◌}
use easyipc.Base.Int.{ℤ, pos, negsuc}
use easyipc.Memory.{
  Ptr, null, Cmd, out_of_fuel, fault, pure, ◌>>=◌, ◌>>◌, load, set_next, set_prev, set_payload,
  calloc_node, calloc_block, free_node, free_block,
}

-- A `DList`, with its own address. Its two fields never change after `dlist_create`.
pub record Dlist : Type 0 where
  pub self : Ptr
  pub head : Ptr
  pub tail : Ptr

-- `Ret`
pub data Ret : Type 0 where
  ret_ok ret_fault ret_oom : Ret

-- `dlist_create`, given the three answers of the allocator; `none` is the `NULL` result.
pub create : Ptr → Ptr → Ptr → Cmd (Option Dlist)
create self head tail = if self == null then pure none else do
  calloc_block self
  h ← calloc_node head
  if h == null then (do free_block self; pure none) else do
    t ← calloc_node tail
    if t == null
        then (do free_node h; free_block self; pure none)
        else do set_next h t; set_prev t h; pure (some (record { self = self; head = h; tail = t }))

-- The loop of `dlist_len`: it stops at the first node without a payload.
len_loop : ℕ → Ptr → ℕ → Cmd ℕ
len_loop zero p n = λ _. out_of_fuel
len_loop (suc fuel) p n = do
  c ← load p
  let rest = len_loop fuel c.next (n + 1)
  if c.payload == null then pure n else rest

-- `dlist_len`
pub len : ℕ → Option Dlist → Cmd ℕ
unfolding len_loop
len fuel none = pure 0
len fuel (some l) = do h ← load l.head; len_loop fuel h.next 0

-- The loop of `dlist_get`, over the steps that are left.
get_loop : ℕ → Ptr → Cmd Ptr
get_loop zero p = pure p
get_loop (suc k) p = do c ← load p; get_loop k c.next

-- `dlist_get`: the address of the node, or `NULL`.
pub get : ℕ → Option Dlist → ℤ → Cmd Ptr
unfolding get_loop len
get fuel none index = pure null
get fuel (some l) (negsuc index) = pure null
get fuel (some l) (pos index) = do
  n ← len fuel (some l)
  if ltb index n then (do h ← load l.head; get_loop index h.next) else pure null

-- The four writes by which `dlist_add` and `dlist_attach` link a node behind `before`.
pub link : Ptr → Ptr → Ptr → Cmd (Unit {0})
link p before after = do set_next before p; set_prev p before; set_next p after; set_prev after p

-- `dlist_add`
pub add : ℕ → Ptr → Option Dlist → ℤ → Ptr → Cmd Ret
unfolding link get
add fuel fresh none index d = pure ret_fault
add fuel fresh (some l) (negsuc index) d = pure ret_fault
add fuel fresh (some l) (pos index) d = if d == null then pure ret_fault else do
  n ← len fuel (some l)
  if leb index n
      then (do
        p ← calloc_node fresh
        if p == null then pure ret_oom else do
          set_payload p d
          before ← if index == 0 then pure l.head else get fuel (some l) (pos (index - 1))
          b ← load before
          link p before b.next
          pure ret_ok)
      else pure ret_fault

-- `dlist_attach`
pub attach : Ptr → Option Dlist → Ptr → Cmd Ret
unfolding link
attach fresh none d = pure ret_fault
attach fresh (some l) d = if d == null then pure ret_fault else do
  p ← calloc_node fresh
  if p == null
      then pure ret_fault
      else do set_payload p d; t ← load l.tail; link p t.prev l.tail; pure ret_ok

-- The two writes by which `dlist_delete` and `dlist_remove` take the node at `p` out.
pub unlink : Ptr → Cmd Ptr
unlink p = do c ← load p; set_next c.prev c.next; set_prev c.next c.prev; pure c.payload

-- `dlist_remove`: the payload stays allocated.
pub remove : ℕ → Option Dlist → ℤ → Cmd Ret
unfolding unlink get len
remove fuel none index = pure ret_fault
remove fuel (some l) (negsuc index) = pure ret_fault
remove fuel (some l) (pos index) = do
  n ← len fuel (some l)
  if ltb index n
      then (do
        p ← get fuel (some l) (pos index)
        if p == null then pure ret_fault else do unlink p; free_node p; pure ret_ok)
      else pure ret_fault

-- `dlist_delete`: the payload is freed too.
pub delete : ℕ → Option Dlist → ℤ → Cmd Ret
unfolding unlink get len
delete fuel none index = pure ret_fault
delete fuel (some l) (negsuc index) = pure ret_fault
delete fuel (some l) (pos index) = do
  n ← len fuel (some l)
  if ltb index n
      then (do
        p ← get fuel (some l) (pos index)
        if p == null
            then pure ret_fault
            else do d ← unlink p; free_block d; free_node p; pure ret_ok)
      else pure ret_fault

-- The loop of `dlist_destroy`.
destroy_loop : ℕ → Ptr → Cmd (Unit {0})
destroy_loop zero p = λ _. out_of_fuel
destroy_loop (suc fuel) p = do
  c ← load p
  let rest = (do free_block c.payload; free_node p; destroy_loop fuel c.next)
  if c.payload == null then pure tt else rest

-- `dlist_destroy`
pub destroy : ℕ → Option Dlist → Cmd Ret
unfolding destroy_loop
destroy fuel none = pure ret_fault
destroy fuel (some l) = do
  h ← load l.head
  destroy_loop fuel h.next
  free_node l.head
  free_node l.tail
  free_block l.self
  pure ret_ok
