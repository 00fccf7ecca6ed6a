-- ===== src/Daemon.antt =====
-- The state of the daemon, src/easyipc_daemon.c: the process table with the queues between its
-- threads, the queue operations, and the datagrams to clients. The threads take `mlist_mutex`
-- around each step that the children of this module define.
pub mod Probe
pub mod Sweep
pub mod Analysis
pub mod Queues
pub mod Routing
pub mod Timeouts
pub mod Answers
pub mod Order
pub mod Start
use easyipc.Base.{ℕ, zero, suc, ◌+◌, Option, none, some, List, [], ◌∷◌, ◌++◌}
use easyipc.Wire.{
  Msg, Api, Ack, ApiRet, Effect, sent, msg_relay, api_relay, api_ack_relay, join_ack, join_ack_fail,
}
use easyipc.Registry.{Member, get_mlist_via_pid}

pub record Daemon : Type 0 where
  pub mlist : List Member
  pub recv_mlist : List Msg
  pub recv_alist : List Api
  pub recv_acklist : List Api
  -- the values of `msg_list_sem` and `api_list_sem`
  pub msg_sem : ℕ
  pub api_sem : ℕ
  pub api_public_magic_number : ℕ

-- The state after `ipcd_init`.
abbrev pub init : Daemon
init = record {
  mlist = [];
  recv_mlist = [];
  recv_alist = [];
  recv_acklist = [];
  msg_sem = 0;
  api_sem = 0;
  api_public_magic_number = 0;
}

-- `ipcd_msg_push`
unfoldable pub msg_push : Msg → Daemon → Daemon
msg_push m d = record d { recv_mlist = d.recv_mlist ++ m ∷ []; msg_sem = d.msg_sem + 1 }

-- `ipcd_api_push`
unfoldable pub api_push : Api → Daemon → Daemon
api_push a d = record d { recv_alist = d.recv_alist ++ a ∷ []; api_sem = d.api_sem + 1 }

-- `ipcd_api_ack_list_push`
unfoldable pub api_ack_list_push : Api → Daemon → Daemon
api_ack_list_push a d = record d { recv_acklist = d.recv_acklist ++ a ∷ [] }

-- A pull waits while its semaphore is 0. Past it, an empty list would leave the result
-- uninitialised.
pub data Pull (A : Type 0) : Type 0 where
  waiting : Pull A
  uninitialised : Pull A
  pulled : A → Daemon → Pull A

msg_take : ℕ → List Msg → Daemon → Pull Msg
msg_take zero ms d = waiting
msg_take (suc s) [] d = uninitialised
msg_take (suc s) (m ∷ ms) d = pulled m (record d { recv_mlist = ms; msg_sem = s })

-- `ipcd_msg_pull`
unfoldable pub msg_pull : Daemon → Pull Msg
unfolding msg_take
msg_pull d = msg_take d.msg_sem d.recv_mlist d

api_take : ℕ → List Api → Daemon → Pull Api
api_take zero as' d = waiting
api_take (suc s) [] d = uninitialised
api_take (suc s) (a ∷ as') d = pulled a (record d { recv_alist = as'; api_sem = s })

-- `ipcd_api_pull`
unfoldable pub api_pull : Daemon → Pull Api
unfolding api_take
api_pull d = api_take d.api_sem d.recv_alist d

-- `ipcd_relay_msg`
unfoldable pub relay_msg : Member → Msg → Effect
relay_msg m msg = sent m.host m.msg_port m.pid (msg_relay msg)

-- `ipcd_relay_api`
unfoldable pub relay_api : Member → Api → Effect
relay_api m a = sent m.host m.api_port m.pid (api_relay a)

-- `ipcd_join_ack`
unfoldable pub join_ack_to : Member → Effect
join_ack_to m = sent m.host m.msg_port m.pid join_ack

-- `ipcd_join_ack_fail`
unfoldable pub join_ack_fail_to : ℕ → ℕ → ℕ → Effect
join_ack_fail_to pid port host = sent host port pid join_ack_fail

-- `ipcd_api_ack_relay`
unfoldable pub api_ack_relay_to : Member → Ack → Effect
api_ack_relay_to m a = sent m.host m.api_port m.pid (api_ack_relay a)

-- The answer to a caller, if its pid is in the table.
unfoldable pub answer : ℕ → Ack → List Member → List Effect
unfolding get_mlist_via_pid api_ack_relay_to
answer pid a ms = elim (get_mlist_via_pid pid ms) [ none ↦ [] | some m ↦ api_ack_relay_to m a ∷ [] ]

-- An answer without data, by the daemon itself.
abbrev pub plain_ack : Api → ApiRet → Ack
plain_ack a r = record { ack_id = a.ack_id; ack_result = r; ack_data = [] }
