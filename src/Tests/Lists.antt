-- ===== src/Tests/Lists.antt =====
-- src/dlist.c and include/easyipc_daemon.h on concrete data.
use easyipc.Base.{◌≡◌, refl, false, ◌||◌, none, some, [], ◌∷◌, arith, ◌==◌, if◌then◌else◌}
use easyipc.Base.Int.{pos}
use easyipc.Memory.{null, node, Memory, update}
use easyipc.Memory.Returns.{Returns}
use easyipc.Dlist.{Dlist, ret_ok, add, delete, destroy}
use easyipc.Dlist.Chain.{Cells}
use easyipc.Dlist.Walk.{IsDlist}
use easyipc.Dlist.Insert.{Inserted, add-insert}
use easyipc.Dlist.Erase.{Erased, delete-erase}
use easyipc.Dlist.Life.{Destroyed, destroy_lem}

-- A list of two entries, at 4 and 5, between the sentinels 2 and 3.
abbrev two_list : Dlist
two_list = record { self = 1; head = 2; tail = 3 }

abbrev two_cells : Cells
two_cells = (4, 10) ∷ (5, 11) ∷ []

abbrev two_memory : Memory
two_memory = record {
  cell = λ q.
      if q == 2
      then some (node null null 4)
      else (if q == 4
          then some (node 10 2 5)
          else (if q == 5
              then some (node 11 4 3)
              else (if q == 3 then some (node null 5 null) else none)));
  block = λ q. (q == 1) || (q == 10) || (q == 11);
}

two_memory-IsDlist : IsDlist two_memory two_list two_cells
two_memory-IsDlist = record { chain = ground arith; apart = ground arith; filled = ground arith }

abbrev no_memory : Memory
no_memory = record { cell = λ q. none; block = λ q. false }

delete-erase_example :
    Returns
      (λ r g.
        (r ≡ ret_ok)
        × Erased two_memory g two_list two_cells 0 4
        × (g.block ≡ update two_memory.block 10 false))
      (delete 3 (some two_list) (pos 0) two_memory)
delete-erase_example =
    delete-erase 3 two_memory two_list two_cells 0 4 10 two_memory-IsDlist refl (omega arith) refl
      (ground arith)

add-insert_example :
    Returns
      (λ r g. (r ≡ ret_ok) × Inserted two_memory g two_list two_cells 1 (6, 12))
      (add 3 6 (some two_list) (pos 1) 12 two_memory)
add-insert_example =
    add-insert two_memory two_list two_cells 6 12 two_memory-IsDlist (ground arith) refl
      (ground arith) 3 1 (omega arith) (omega arith)

destroy_lem_example :
    Returns
      (λ r g. (r ≡ ret_ok) × Destroyed two_memory g two_list two_cells)
      (destroy 3 (some two_list) two_memory)
destroy_lem_example =
    destroy_lem 3 two_memory two_list two_cells two_memory-IsDlist (ground arith) (ground arith)
      refl refl (omega arith)
