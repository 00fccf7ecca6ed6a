-- ===== src/Client/Create.antt =====
-- `ipc_creat` of src/easyipc_support.c: a new handle of the process, from the check of its name to the
-- daemon's answer. The ports that are free, the daemon's silence and the thread that may fail are
-- parameters.
pub mod Created
use easyipc.Base.{
  ℕ, zero, suc, ◌+◌, ◌*◌, ◌%◌, ◌^◌, Bool, true, false, ◌&&◌, ◌==◌, not, Option, none, some, List,
  [], ◌∷◌, ◌++◌, any, if◌then◌else◌,
}
use easyipc.Base.Text.{Text, str_eq, snprintf, nonempty}
use easyipc.Wire.{Packet}
use easyipc.Registry.{process_name_max_size}
use easyipc.Client.{Client, Struct, connect_daemon}

-- `IPC_CLI_PORT_BASE`
abbrev pub cli_port_base : ℕ
cli_port_base = 40100

-- The static variables of the library in a process; `pid_magic_number` is that of `ipc_creat`.
pub record Process : Type 0 where
  pub ipc_list : List Client
  pub pid_magic_number : ℕ
  pub default_ipc : Option Client

-- The loop at `msg_re_bind`, and at `api_re_bind`, with fuel; `htons` keeps 16 bits of the port.
unfoldable pub bind_port : (ℕ → Bool) → ℕ → ℕ → Option ℕ
bind_port free zero port = none
bind_port free (suc fuel) port =
    let next = bind_port free fuel (port + 1) in if free (port % 2 ^ 16) then some port else next

-- The ports that `bind` takes once one of them is bound.
abbrev pub free_but : (ℕ → Bool) → ℕ → ℕ → Bool
free_but free bound port = free port && not (port == bound)

-- A zeroed handle with its name, its pid and its ports.
unfoldable pub new_client : Text → ℕ → ℕ → ℕ → Client
new_client pname pid msg_port api_port = record {
  pid = pid;
  alias_name = snprintf process_name_max_size pname;
  msg_recv_port = msg_port;
  api_recv_port = api_port;
  msg_list = [];
  api_list = [];
  msg_recv_list = [];
  api_recv_list = [];
  api_ack_wait_list = [];
  api_ack_magic_num = 0;
  msg_recv_sem = 0;
  api_recv_sem = 0;
  connect_sem = 0;
  woken = [];
}

-- The handle, or `NULL`, with the process and the packets that were sent; `searching` for a search
-- that is out of fuel.
pub data Creation : Type 0 where
  created : Client → Process → List Packet → Creation
  null : Process → List Packet → Creation
  searching : Creation

-- The packets of as many attempts to join.
unfoldable pub attempts : (Struct → ℕ) → ℕ → Client → ℕ → List Packet
unfolding connect_daemon
attempts sizeof packet_max c zero = []
attempts sizeof packet_max c (suc n) =
    connect_daemon sizeof packet_max c ++ attempts sizeof packet_max c n

-- What the machine does: the process's id, the ports that `bind` takes, the attempts that the daemon
-- leaves unanswered for two seconds each, and whether `pthread_create` succeeds.
pub record Machine : Type 0 where
  pub getpid : ℕ
  pub free : ℕ → Bool
  pub unanswered : ℕ
  pub thread : Bool

module _ (sizeof : Struct → ℕ) (packet_max : ℕ) (h : Machine) (fuel : ℕ) where
  -- From the ports to the end; the token of `connect_sem` that the answer brings is used up.
  unfoldable pub connect : Text → ℕ → ℕ → Process → Creation
  unfolding new_client attempts
  connect pname msg_port api_port p =
      let c = new_client pname (h.getpid + p.pid_magic_number * 1000000) msg_port api_port in
      let listed : Process = record p { ipc_list = p.ipc_list ++ c ∷ [] } in
      let sent = attempts sizeof packet_max c (suc h.unanswered) in
      if h.thread
      then created c
          (record listed { default_ipc = some c; pid_magic_number = p.pid_magic_number + 1 }) sent
      else null listed sent

  -- `ipc_creat`
  unfoldable pub creat : Text → Process → Creation
  unfolding connect bind_port
  creat pname p =
      if nonempty pname
      then (if any (λ c. str_eq c.alias_name pname) p.ipc_list
          then null p []
          else elim (bind_port h.free fuel cli_port_base) [
            | none ↦ searching
            | some msg_port ↦
                elim (bind_port (free_but h.free (msg_port % 2 ^ 16)) fuel (msg_port + 1)) [
                  | none ↦ searching
                  | some api_port ↦ connect pname msg_port api_port p
                ]
          ])
      else null p []
