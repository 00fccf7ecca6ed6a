-- ===== src/Client/Unregister.antt =====
-- What `ipc_unregister_msg` of src/easyipc_support.c drops.
use easyipc.Base.{
  ℕ, zero, suc, ◌+◌, Bool, true, false, ◌&&◌, not, ◌≤◌, append_assoc, length-append,
  get_elem?-length, get_elem?-past, Bool-cases, inl, inr, none, some, List, [], ◌∷◌, ◌++◌, length,
  ◌≡◌, refl, ap, arith, ◌∙◌, get_elem?, erase_idx, if◌then◌else◌, any,
}
use easyipc.Base.Text.{Text, str_eq, nonempty}
use easyipc.Wire.{msg_unregister}
use easyipc.Client.{Client, MsgHandler, Struct, data_to_daemon, register_info_of}
use easyipc.Client.Handlers.{unregister_loop, unregister_msg}

-- The loop told on the list: after each entry that it drops, it keeps the next one unread.
unfoldable pub drop_skipping : Text → Bool → List MsgHandler → List MsgHandler
drop_skipping name skip [] = []
drop_skipping name skip (h ∷ hs) =
    let kept = drop_skipping name false hs in
    let skipped = drop_skipping name true hs in
    if not skip && str_eq h.msg_name name then skipped else h ∷ kept

abbrev pub named : Text → MsgHandler → Bool
named name h = str_eq h.msg_name name

unregister_loop-past :
    (name : Text) (k i : ℕ) (hs : List MsgHandler)
    → get_elem? hs i ≡ none
    → unregister_loop name k i hs ≡ (false, hs)
unfolding unregister_loop
unregister_loop-past name zero i hs e = refl
unregister_loop-past name (suc k) i hs e = rw (unregister_loop, e)

unregister_loop-some :
    (name : Text) (k i : ℕ) (hs : List MsgHandler) (h : MsgHandler)
    → get_elem? hs i ≡ some h
    → unregister_loop name (suc k) i hs ≡ (
        if named name h
        then (true, (unregister_loop name k (i + 1) (erase_idx hs i)).1)
        else unregister_loop name k (i + 1) hs)
unfolding unregister_loop
unregister_loop-some name k i hs h e = rw (unregister_loop, e)

erase_idx-length :
    (us : List MsgHandler) (h : MsgHandler) (hs : List MsgHandler)
    → erase_idx (us ++ h ∷ hs) (length us) ≡ us ++ hs
erase_idx-length [] h hs = refl
erase_idx-length (u ∷ us) h hs = ap (◌∷◌ u) (erase_idx-length us h hs)

-- The loop from an index on.
abbrev Tells : Text → ℕ → List MsgHandler → List MsgHandler → Type 0
Tells name k us hs =
    unregister_loop name k (length us) (us ++ hs)
    ≡ (any (named name) hs, us ++ drop_skipping name false hs)

-- The same list with the split one entry further on.
step_over :
    (name : Text) (k : ℕ) (us : List MsgHandler) (h : MsgHandler) (hs : List MsgHandler)
    → Tells name k (us ++ h ∷ []) hs
    → unregister_loop name k (length us + 1) (us ++ h ∷ hs)
      ≡ (any (named name) hs, us ++ h ∷ drop_skipping name false hs)
step_over name k us h hs t =
    rw⁻¹
      (
        append_assoc us (h ∷ []) hs,
        append_assoc us (h ∷ []) (drop_skipping name false hs),
        length-append us (h ∷ []),
      )
      t

-- A round that deletes its entry.
deletes :
    (name : Text) (k : ℕ) (us : List MsgHandler) (x : MsgHandler) (hs : List MsgHandler)
    → named name x ≡ true
    → unregister_loop name (suc k) (length us) (us ++ x ∷ hs)
      ≡ (true, (unregister_loop name k (length us + 1) (us ++ hs)).1)
deletes name k us x hs e = rw (
  unregister_loop-some name k (length us) (us ++ x ∷ hs) x (get_elem?-length us x hs),
  e,
  erase_idx-length us x hs,
)

-- A round that keeps its entry.
keeps :
    (name : Text) (k : ℕ) (us : List MsgHandler) (x : MsgHandler) (hs : List MsgHandler)
    → named name x ≡ false
    → unregister_loop name (suc k) (length us) (us ++ x ∷ hs)
      ≡ unregister_loop name k (length us + 1) (us ++ x ∷ hs)
keeps name k us x hs e =
    rw (unregister_loop-some name k (length us) (us ++ x ∷ hs) x (get_elem?-length us x hs), e)

unregister_loop_lem :
    (name : Text) (k : ℕ) (us hs : List MsgHandler) → length hs ≤ k → Tells name k us hs
unfolding unregister_loop drop_skipping
unregister_loop_lem name zero us [] h = refl
unregister_loop_lem name zero us (x ∷ hs) h = absurd (omega arith)
unregister_loop_lem name (suc k) us [] h =
    unregister_loop-past name (suc k) (length us) (us ++ [])
      (get_elem?-past (us ++ []) (length us) (omega (arith, length-append us [])))
unregister_loop_lem name (suc k) us (x ∷ []) h = elim (Bool-cases (named name x)) [
  | inl e ↦ rw e (
      deletes name k us x [] e
      ∙ ap (λ r. (true, r.1))
          (unregister_loop-past name k (length us + 1) (us ++ [])
            (get_elem?-past (us ++ []) (length us + 1) (omega (arith, length-append us [])))))
  | inr e ↦ rw e (
      keeps name k us x [] e
      ∙ step_over name k us x [] (unregister_loop_lem name k (us ++ x ∷ []) [] (omega arith)))
]
unregister_loop_lem name (suc k) us (x ∷ y ∷ hs) h = elim (Bool-cases (named name x)) [
  | inl e ↦ rw e (
      deletes name k us x (y ∷ hs) e
      ∙ ap (λ r. (true, r.1))
          (step_over name k us y hs (unregister_loop_lem name k (us ++ y ∷ []) hs (omega arith))))
  | inr e ↦ rw e (
      keeps name k us x (y ∷ hs) e
      ∙ step_over name k us x (y ∷ hs)
          (unregister_loop_lem name k (us ++ x ∷ []) (y ∷ hs) (omega arith)))
]

module _ (sizeof : Struct → ℕ) (packet_max : ℕ) where
  -- `ipc_unregister_msg` of a name that is not empty goes through the registered functions once.
  -- It drops each that has the name, except that it keeps unread the one that follows a dropped
  -- one. It sends the daemon one packet if any function had the name, and otherwise none.
  pub unregister_msg_lem :
      (name : Text) (c : Client)
      → nonempty name ≡ true
      → unregister_msg sizeof packet_max name c ≡ (
        record c { msg_list = drop_skipping name false c.msg_list },
        if any (named name) c.msg_list
            then data_to_daemon sizeof packet_max c (msg_unregister (register_info_of c name))
            else [],
      )
  unfolding unregister_msg
  unregister_msg_lem name c h =
      rw (
        unregister_msg,
        h,
        unregister_loop_lem name (length c.msg_list) [] c.msg_list (omega arith),
      )
