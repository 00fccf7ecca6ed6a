-- ===== src/Client.antt =====
-- The library in a client process, src/easyipc_support.c: the handle with its registered functions, its
-- receive queues and its waiting calls, and the operations that send packets to the daemon. Handlers
-- of the application are numbers, which stand for the function pointers.
pub mod Calls
pub mod Handlers
pub mod Unregister
pub mod Receive
pub mod Dispatch
pub mod Create
pub mod Pull
use easyipc.Base.{
  ℕ, zero, suc, ◌+◌, Bool, true, false, not, Option, none, some, List, [], ◌∷◌, ◌++◌, ltb, leb,
  ◌==◌, length, get_elem?, erase_idx, if◌then◌else◌,
}
use easyipc.Base.Int.{ℤ, pos}
use easyipc.Base.Text.{Text, str_eq, snprintf, nonempty}
use easyipc.Wire.{
  RegisterInfo, JoinInfo, DaemonInfo, Msg, Api, Ack, Runtime, Packet, Request, Level, api_register,
  msg_register, api_unregister, msg_unregister, process_join, process_exit, process_live,
  process_hangup, daemon_syscmd, api_call, msg_send, api_runtime, msg_runtime, process_log, unknown,
}
use easyipc.Registry.{msg_max_size, process_name_max_size, syscmd_size}

-- `_ipc_msg_map_member`
pub record MsgHandler : Type 0 where
  pub msg_name : Text
  pub fun : Option ℕ
  pub fun_ext : Option ℕ
  pub usrdata : ℕ

-- `_ipc_api_map_member`
pub record ApiHandler : Type 0 where
  pub msg_name : Text
  pub fun : ℕ

-- `ipc_handle`. A waiting call is its `ack_id`; `woken` holds the answers that have been handed to
-- the calling threads.
pub record Client : Type 0 where
  pub pid : ℕ
  pub alias_name : Text
  pub msg_recv_port : ℕ
  pub api_recv_port : ℕ
  pub msg_list : List MsgHandler
  pub api_list : List ApiHandler
  pub msg_recv_list : List Msg
  pub api_recv_list : List Api
  pub api_ack_wait_list : List ℕ
  pub api_ack_magic_num : ℕ
  pub msg_recv_sem : ℕ
  pub api_recv_sem : ℕ
  pub connect_sem : ℕ
  pub woken : List Ack

-- The structures whose size the library reads.
pub data Struct : Type 0 where
  ipc_packet register_info join_exit_info ipc_daemon_info ipc_msg ipc_api ipc_runtime ipc_log :
      Struct

-- The `size` that a request is sent with.
abbrev pub request_size : (Struct → ℕ) → Request → ℕ
request_size sizeof (api_register r) = sizeof register_info
request_size sizeof (msg_register r) = sizeof register_info
request_size sizeof (api_unregister r) = sizeof register_info
request_size sizeof (msg_unregister r) = sizeof register_info
request_size sizeof (process_join j) = sizeof join_exit_info
request_size sizeof (process_exit j) = sizeof join_exit_info
request_size sizeof (process_live j) = sizeof join_exit_info
request_size sizeof (process_hangup j) = sizeof join_exit_info
request_size sizeof (daemon_syscmd i) = sizeof ipc_daemon_info
request_size sizeof (api_call a) = sizeof ipc_api + length a.payload
request_size sizeof (msg_send m) = sizeof ipc_msg + length m.payload
request_size sizeof (api_runtime r) = sizeof ipc_runtime + length r.ret_data
request_size sizeof (msg_runtime r) = sizeof ipc_runtime
request_size sizeof (process_log level text) = sizeof ipc_log + length text + 1
request_size sizeof unknown = 0

abbrev pub register_info_of : Client → Text → RegisterInfo
register_info_of c name = record { pid = c.pid; name = snprintf msg_max_size name }

abbrev pub join_info_of : Client → JoinInfo
join_info_of c = record {
  pid = c.pid;
  name = snprintf process_name_max_size c.alias_name;
  api_port = c.api_recv_port;
  msg_port = c.msg_recv_port;
  signal_no = 0;
}

-- `ipc_hangup_record`, over the process's handles; its packets are not measured.
unfoldable pub hangup_record : ℕ → List Client → List Packet
hangup_record signo [] = []
hangup_record signo (c ∷ cs) =
    record {
      send_pid = c.pid;
      request = process_hangup (record {
        pid = c.pid;
        name = snprintf process_name_max_size c.alias_name;
        api_port = 0;
        msg_port = 0;
        signal_no = signo;
      });
    }
    ∷ hangup_record signo cs

-- The sizes of the structures on the platform, and `ipc_msg_packet_max_size` of the configuration.
module _ (sizeof : Struct → ℕ) (packet_max : ℕ) where
  -- `ipc_data_to_daemon`: a packet that is too large is not sent.
  unfoldable pub data_to_daemon : Client → Request → List Packet
  data_to_daemon c q =
      if leb packet_max (sizeof ipc_packet + request_size sizeof q)
      then []
      else record { send_pid = c.pid; request = q } ∷ []

  -- `ipc_connect_daemon`, past the socket
  unfoldable pub connect_daemon : Client → List Packet
  unfolding data_to_daemon
  connect_daemon c = data_to_daemon c (process_join (join_info_of c))

  -- `ipc_live`
  unfoldable pub live : Client → List Packet
  unfolding data_to_daemon
  live c = data_to_daemon c (process_live (join_info_of c))

  -- `ipc_exit`, of an open handle
  unfoldable pub ipc_exit : Client → List Packet
  unfolding data_to_daemon
  ipc_exit c = data_to_daemon c (process_exit (join_info_of c))

  -- `ipc_daemon_syscmd`
  unfoldable pub syscmd : Text → Client → List Packet
  unfolding data_to_daemon
  syscmd cmd c =
      data_to_daemon c
        (daemon_syscmd (record { pid = c.pid; daemon_cmd = snprintf syscmd_size cmd }))

  -- `ipc_log` and `ipc_print`, with the text that `vsprintf` made
  unfoldable pub log : Level → Text → Client → List Packet
  unfolding data_to_daemon
  log level text c = data_to_daemon c (process_log level text)

  -- `ipc_send_msg`
  unfoldable pub send_msg : Text → List ℕ → Client → List Packet
  unfolding data_to_daemon
  send_msg name data' c = data_to_daemon c (
      msg_send (record {
        msg_name = snprintf msg_max_size name;
        ipc_name = snprintf process_name_max_size c.alias_name;
        send_pid = c.pid;
        payload = data';
      }))
