-- ===== src/Client/Receive.antt =====
-- What a client does with the packets of the daemon, src/easyipc_support.c: the receiving threads put
-- messages and calls into queues and hand answers to the waiting calls, and the probing threads run the
-- registered functions.
use easyipc.Base.{
  ℕ, ◌+◌, Bool, true, false, Option, none, some, List, [], ◌∷◌, ◌++◌, ◌==◌, if◌then◌else◌,
}
use easyipc.Base.Int.{ℤ}
use easyipc.Base.Text.{Text, str_eq, codes, snprintf}
use easyipc.Time.{Timespec, diff}
use easyipc.Wire.{
  Msg, Api, Ack, ApiRet, Runtime, Packet, Body, msg_relay, api_relay, api_ack_relay, join_ack,
  join_ack_fail, api_runtime, msg_runtime, ack_ok,
}
use easyipc.Registry.{msg_max_size}
use easyipc.Client.{Client, MsgHandler, ApiHandler, Struct, data_to_daemon}

-- `ipc_msg_push`
unfoldable pub msg_push : Msg → Client → Client
msg_push m c = record c {
  msg_recv_list = c.msg_recv_list ++ m ∷ [];
  msg_recv_sem = c.msg_recv_sem + 1;
}

-- `ipc_api_push`
unfoldable pub api_push : Api → Client → Client
api_push a c = record c {
  api_recv_list = c.api_recv_list ++ a ∷ [];
  api_recv_sem = c.api_recv_sem + 1;
}

-- The search of the waiting calls for an id, and `dlist_remove` there.
unfoldable pub take_wait : ℕ → List ℕ → Option (List ℕ)
take_wait id [] = none
take_wait id (w ∷ ws) =
    let rest = take_wait id ws in
    if id == w then some ws else elim rest [ none ↦ none | some us ↦ some (w ∷ us) ]

-- ENUM_IPC_CLI_API_ACK_RELAY
unfoldable pub take_ack : Ack → Client → Client
unfolding take_wait
take_ack a c = elim (take_wait a.ack_id c.api_ack_wait_list) [
  | none ↦ c
  | some ws ↦ record c { api_ack_wait_list = ws; woken = c.woken ++ a ∷ [] }
]

-- `ipc_recv_analysis`
unfoldable pub recv_analysis : Body → Client → Client
unfolding take_ack msg_push api_push
recv_analysis (msg_relay m) c = msg_push m c
recv_analysis (api_relay a) c = api_push a c
recv_analysis (api_ack_relay a) c = take_ack a c
recv_analysis join_ack c = record c { connect_sem = c.connect_sem + 1 }
recv_analysis join_ack_fail c = c

-- What a probing thread does with an item: it calls a function of the application, with the name and
-- the data, and with the user data or with the time that a call has left, calls through NULL, or sends
-- a packet.
pub data Action : Type 0 where
  runs : ℕ → Text → List ℕ → Action
  runs_ext : ℕ → Text → List ℕ → ℕ → Action
  runs_api : ℕ → Text → List ℕ → ℤ → Action
  runs_null : Action
  sends : List Packet → Action

-- The function of an entry, as the first loop of `ipc_msg_recv_probe` chooses it.
unfoldable pub call_handler : MsgHandler → Msg → List Action
call_handler h m = elim h.fun [
  | some f ↦ runs f m.msg_name m.payload ∷ []
  | none ↦ elim h.fun_ext [ some f ↦ runs_ext f m.msg_name m.payload h.usrdata ∷ [] | none ↦ [] ]
]

-- The function of an entry, as the second loop takes it.
unfoldable pub call_any_handler : MsgHandler → Msg → Action
call_any_handler h m = elim h.fun [ some f ↦ runs f m.msg_name m.payload | none ↦ runs_null ]

abbrev pub runtime_start : Text → Timespec → Runtime
runtime_start name start = record {
  msg_name = snprintf msg_max_size name;
  flag = false;
  ptime = start;
  caller_magic_number = 0;
  daemon_magic_number = 0;
  ret = ack_ok;
  ret_data = [];
}

abbrev pub runtime_end : Text → Timespec → Timespec → Runtime
runtime_end name start end = record {
  msg_name = snprintf msg_max_size name;
  flag = true;
  ptime = diff start end;
  caller_magic_number = 0;
  daemon_magic_number = 0;
  ret = ack_ok;
  ret_data = [];
}

-- `clock` has the times at which the function of an entry starts and ends.
module _ (sizeof : Struct → ℕ) (packet_max : ℕ) (clock : ℕ → Timespec × Timespec) where
  -- A function between its two records, `ipc_msg_runtime_start_record` and `ipc_msg_runtime_end_record`.
  unfoldable pub recorded : Client → Text → ℕ → List Action → List Action
  unfolding data_to_daemon
  recorded c name i as' =
      sends (data_to_daemon sizeof packet_max c (msg_runtime (runtime_start name (clock i).0)))
        ∷ as'
      ++ sends (
          data_to_daemon sizeof packet_max c
            (msg_runtime (runtime_end name (clock i).0 (clock i).1)))
        ∷ []

  -- The first loop of `ipc_msg_recv_probe`, with `normal_fun_exist`.
  unfoldable pub named_loop : Client → Msg → ℕ → List MsgHandler → Bool × List Action
  unfolding recorded call_handler
  named_loop c m i [] = (false, [])
  named_loop c m i (h ∷ hs) =
      let (found, as') = named_loop c m (i + 1) hs in
      if str_eq h.msg_name m.msg_name
      then (true, recorded c m.msg_name i (call_handler h m) ++ as')
      else (found, as')

  -- The second loop of `ipc_msg_recv_probe`.
  unfoldable pub any_loop : Client → Msg → ℕ → List MsgHandler → List Action
  unfolding recorded call_any_handler
  any_loop c m i [] = []
  any_loop c m i (h ∷ hs) =
      if str_eq h.msg_name (codes "*")
      then recorded c m.msg_name i (call_any_handler h m ∷ [])
      else any_loop c m (i + 1) hs

  -- `ipc_msg_recv_probe`, the body of its loop with the message that it has taken.
  unfoldable pub msg_recv_probe : Msg → Client → List Action
  unfolding named_loop any_loop
  msg_recv_probe m c =
      let (found, as') = named_loop c m 0 c.msg_list in
      if found then as' else as' ++ any_loop c m 0 c.msg_list

-- The result of the application's function on a call, as the packet that carries it.
abbrev pub reply : Api → Timespec → Timespec → ApiRet → List ℕ → Runtime
reply a start end r data' = record {
  msg_name = snprintf msg_max_size a.api_name;
  flag = true;
  ptime = diff start end;
  caller_magic_number = a.ack_id;
  daemon_magic_number = a.daemon_magic_number;
  ret = r;
  ret_data = data';
}

-- The application's functions, by what they return.
module _ (sizeof : Struct → ℕ) (packet_max : ℕ) (clock : Timespec × Timespec)
    (apply : ℕ → Text → List ℕ → ℤ → ApiRet × List ℕ) where
  -- `ipc_api_callreal_thread`, with its records `ipc_api_runtime_start_record` and
  -- `ipc_api_runtime_end_record`
  unfoldable pub callreal : Client → Api → List ApiHandler → List Action
  unfolding data_to_daemon
  callreal c a [] = []
  callreal c a (h ∷ hs) =
      let (r, data') = apply h.fun a.api_name a.payload a.daemon_count_number in
      if str_eq h.msg_name a.api_name
      then sends
          (data_to_daemon sizeof packet_max c (api_runtime (runtime_start a.api_name clock.0)))
        ∷ runs_api h.fun a.api_name a.payload a.daemon_count_number
        ∷ sends (data_to_daemon sizeof packet_max c (api_runtime (reply a clock.0 clock.1 r data')))
        ∷ []
      else callreal c a hs
