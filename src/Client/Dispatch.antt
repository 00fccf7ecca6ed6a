-- ===== src/Client/Dispatch.antt =====
-- Which functions of the application a message or a call runs, src/easyipc_support.c.
use easyipc.Base.{
  ℕ, ◌+◌, Bool, false, Option, none, some, List, [], ◌∷◌, ◌++◌, ◌≡◌, refl, ◌∙◌, arith, any,
  append-nil, if◌then◌else◌,
}
use easyipc.Base.Text.{Text, str_eq, codes}
use easyipc.Time.{Timespec}
use easyipc.Wire.{Msg}
use easyipc.Client.{Client, MsgHandler, Struct}
use easyipc.Client.Receive.{
  Action, runs, runs_ext, runs_api, runs_null, sends, call_handler, call_any_handler, recorded,
  named_loop, any_loop, msg_recv_probe,
}

-- The calls of functions among the actions.
unfoldable pub ran : List Action → List Action
ran [] = []
ran (sends ps ∷ as') = ran as'
ran (runs f name data' ∷ as') = runs f name data' ∷ ran as'
ran (runs_ext f name data' usr ∷ as') = runs_ext f name data' usr ∷ ran as'
ran (runs_api f name data' left ∷ as') = runs_api f name data' left ∷ ran as'
ran (runs_null ∷ as') = runs_null ∷ ran as'

-- What an entry with the message's name is to run: the function without user data if it has one, and
-- otherwise the one with user data.
abbrev pub run_of : Option ℕ → Option ℕ → Msg → ℕ → List Action
run_of (some f) g m usr = runs f m.msg_name m.payload ∷ []
run_of none (some g) m usr = runs_ext g m.msg_name m.payload usr ∷ []
run_of none none m usr = []

-- The functions of the entries with the message's name.
unfoldable pub named_handlers : Msg → List MsgHandler → List Action
named_handlers m [] = []
named_handlers m (h ∷ hs) =
    if str_eq h.msg_name m.msg_name
    then run_of h.fun h.fun_ext m h.usrdata ++ named_handlers m hs
    else named_handlers m hs

-- What an entry for "*" runs.
abbrev pub any_run_of : Option ℕ → Msg → Action
any_run_of (some f) m = runs f m.msg_name m.payload
any_run_of none m = runs_null

-- The function of the first entry for "*".
unfoldable pub any_handler : Msg → List MsgHandler → List Action
any_handler m [] = []
any_handler m (h ∷ hs) =
    if str_eq h.msg_name (codes "*") then any_run_of h.fun m ∷ [] else any_handler m hs

abbrev pub matches : Msg → MsgHandler → Bool
matches m h = str_eq h.msg_name m.msg_name

ran-append : (as' bs : List Action) → ran (as' ++ bs) ≡ ran as' ++ ran bs
unfolding ran
ran-append [] bs = refl
ran-append (sends ps ∷ as') bs = ran-append as' bs
ran-append (runs f name data' ∷ as') bs = ground (arith, ran-append as' bs)
ran-append (runs_ext f name data' usr ∷ as') bs = ground (arith, ran-append as' bs)
ran-append (runs_api f name data' left ∷ as') bs = ground (arith, ran-append as' bs)
ran-append (runs_null ∷ as') bs = ground (arith, ran-append as' bs)

ran-call_handler :
    (h : MsgHandler) (m : Msg) → ran (call_handler h m) ≡ run_of h.fun h.fun_ext m h.usrdata
unfolding ran call_handler
ran-call_handler h m = ground arith

ran-call_any_handler :
    (h : MsgHandler) (m : Msg) → ran (call_any_handler h m ∷ []) ≡ any_run_of h.fun m ∷ []
unfolding ran call_any_handler
ran-call_any_handler h m = ground arith

no_named : (m : Msg) (hs : List MsgHandler) → any (matches m) hs ≡ false → named_handlers m hs ≡ []
unfolding named_handlers
no_named m [] e = refl
no_named m (h ∷ hs) e = ground (arith, no_named m hs)

module _ (sizeof : Struct → ℕ) (packet_max : ℕ) (clock : ℕ → Timespec × Timespec) where
  ran-recorded :
      (c : Client) (name : Text) (i : ℕ) (as' : List Action)
      → ran (recorded sizeof packet_max clock c name i as') ≡ ran as'
  unfolding ran recorded
  ran-recorded c name i as' = ran-append as' _ ∙ append-nil (ran as')

  ran-named_loop :
      (c : Client) (m : Msg) (i : ℕ) (hs : List MsgHandler)
      → ran (named_loop sizeof packet_max clock c m i hs).1 ≡ named_handlers m hs
  unfolding ran named_loop named_handlers
  ran-named_loop c m i [] = refl
  ran-named_loop c m i (h ∷ hs) = ground (
    arith,
    ran-named_loop c m (i + 1) hs,
    ran-call_handler h m,
    ran-recorded c m.msg_name i (call_handler h m),
    ran-append (recorded sizeof packet_max clock c m.msg_name i (call_handler h m))
        (named_loop sizeof packet_max clock c m (i + 1) hs).1,
  )

  named_loop-any :
      (c : Client) (m : Msg) (i : ℕ) (hs : List MsgHandler)
      → (named_loop sizeof packet_max clock c m i hs).0 ≡ any (matches m) hs
  unfolding named_loop
  named_loop-any c m i [] = refl
  named_loop-any c m i (h ∷ hs) = ground (arith, named_loop-any c m (i + 1) hs)

  ran-any_loop :
      (c : Client) (m : Msg) (i : ℕ) (hs : List MsgHandler)
      → ran (any_loop sizeof packet_max clock c m i hs) ≡ any_handler m hs
  unfolding any_loop any_handler ran
  ran-any_loop c m i [] = refl
  ran-any_loop c m i (h ∷ hs) = ground (
    arith,
    ran-any_loop c m (i + 1) hs,
    ran-recorded c m.msg_name i (call_any_handler h m ∷ []),
    ran-call_any_handler h m,
  )

  -- A message at a client runs the function of every entry with its name, in the order in which
  -- they were registered. If there is no such entry, it runs that of the first entry for "*", if
  -- there is one, which is a call through `NULL` when that entry has only a function with user
  -- data.
  pub msg_recv_probe_lem :
      (m : Msg) (c : Client)
      → ran (msg_recv_probe sizeof packet_max clock m c) ≡ (
          if any (matches m) c.msg_list
          then named_handlers m c.msg_list
          else any_handler m c.msg_list)
  unfolding msg_recv_probe
  msg_recv_probe_lem m c =
      let loop = named_loop sizeof packet_max clock c m 0 c.msg_list in
      let any' = any_loop sizeof packet_max clock c m 0 c.msg_list in
      ground (
        arith,
        named_loop-any c m 0 c.msg_list,
        ran-named_loop c m 0 c.msg_list,
        ran-any_loop c m 0 c.msg_list,
        ran-append loop.1 any',
        no_named m c.msg_list,
      )
