-- ===== src/Wire.antt =====
-- The packets between clients and the daemon, from include/easyipc_daemon.h and
-- exp_inc/easyipc_base.h, and what the daemon does to the outside: datagrams and log records.
-- A structure that ends in a variable part carries it as a list of bytes, whose length is its
-- `size` field.
use easyipc.Base.{ℕ, Bool, Option, List}
use easyipc.Base.Int.{ℤ}
use easyipc.Base.Text.{Text}
use easyipc.Time.{Timespec}

-- `IPC_LOG_TYPE`
pub data LogType : Type 0 where
  user progress system : LogType

-- `IPC_LOG_LEVEL`
pub data Level : Type 0 where
  err warn normal info dbg : Level

-- `IPC_API_RET`
pub data ApiRet : Type 0 where
  ack_ok ack_fail in_param_error cantfind_api cantfind_program ack_timeout : ApiRet

-- `_register_info`
pub record RegisterInfo : Type 0 where
  pub pid : ℕ
  pub name : Text

-- `_join_exit_info`
pub record JoinInfo : Type 0 where
  pub pid : ℕ
  pub name : Text
  pub api_port : ℕ
  pub msg_port : ℕ
  pub signal_no : ℕ

-- `_ipc_daemon_info`
pub record DaemonInfo : Type 0 where
  pub pid : ℕ
  pub daemon_cmd : Text

-- `_ipc_msg`
pub record Msg : Type 0 where
  pub msg_name : Text
  pub ipc_name : Text
  pub send_pid : ℕ
  pub payload : List ℕ

-- `_ipc_api`; of `iaal` only the id crosses the wire with a meaning.
pub record Api : Type 0 where
  pub pname : Text
  pub api_name : Text
  pub ack_id : ℕ
  pub daemon_magic_number : ℕ
  pub daemon_count_number : ℤ
  pub send_pid : ℕ
  pub payload : List ℕ

-- `_ipc_api_ack_list`, as it is sent
pub record Ack : Type 0 where
  pub ack_id : ℕ
  pub ack_result : ApiRet
  pub ack_data : List ℕ

-- `_ipc_runtime`
pub record Runtime : Type 0 where
  pub msg_name : Text
  pub flag : Bool
  pub ptime : Timespec
  pub caller_magic_number : ℕ
  pub daemon_magic_number : ℕ
  pub ret : ApiRet
  pub ret_data : List ℕ

-- `_ipc_packet` towards the daemon: `iit` with the structure that it announces.
pub data Request : Type 0 where
  api_register msg_register api_unregister msg_unregister : RegisterInfo → Request
  process_join process_exit process_live process_hangup : JoinInfo → Request
  daemon_syscmd : DaemonInfo → Request
  api_call : Api → Request
  msg_send : Msg → Request
  api_runtime msg_runtime : Runtime → Request
  process_log : Level → Text → Request
  unknown : Request

pub record Packet : Type 0 where
  pub send_pid : ℕ
  pub request : Request

-- `_ipc_packet` towards a client.
pub data Body : Type 0 where
  msg_relay : Msg → Body
  api_relay : Api → Body
  api_ack_relay : Ack → Body
  join_ack join_ack_fail : Body

-- The reasons that a hangup is logged with.
pub data Reason : Type 0 where
  user_ctrl_c user_ctrl_z user_kill memory_overflow : Reason
  signal : ℕ → Reason

-- The texts of `ipcd_log_save_and_print`, each with its arguments.
pub data Note : Type 0 where
  register_api_repeat register_api_success register_msg_success : Text → Note
  unregister_api_success unregister_api_fail : Text → Note
  unregister_msg_success unregister_msg_fail : Text → Note
  join_pid_repeat join_name_repeat joined : Text → ℕ → Note
  process_miss : Text → Note
  api_expired : Text → Text → Note
  program_miss provider_miss : Option Text → Text → Note
  msg_sent_to : Text → Text → Note
  msg_receiver_miss : Text → Note
  progress_exit : Text → Note
  progress_hangup : Text → Reason → Note
  api_called : Option Text → Text → Text → Note
  api_begin api_finish api_finish_slow api_finish_late api_finish_miss : Text → Note
  msg_begin msg_finish msg_finish_slow msg_finish_miss : Text → Note
  user_text : Text → Note

pub data Effect : Type 0 where
  -- `sendto` on the daemon's socket: host, port, the packet's `send_pid` and its content
  sent : ℕ → ℕ → ℕ → Body → Effect
  logged : LogType → Level → ℕ → Note → Effect
