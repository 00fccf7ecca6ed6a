-- ===== src/Registry.antt =====
-- `mlist`, the daemon's table of processes, and the functions of src/easyipc_daemon.c that read and
-- change it. The lists are src/dlist.c's, whose operations Dlist shows to be those on sequences.
pub mod Unique
pub mod Names
pub mod Join
pub mod Rejoin
use easyipc.Base.{
  ℕ, zero, suc, ◌+◌, Bool, true, false, Option, none, some, List, [], ◌∷◌, ◌++◌, ◌==◌, get_elem?,
  if◌then◌else◌, length, any, take,
}
use easyipc.Base.Int.{pos}
use easyipc.Base.Text.{Text, str_eq, snprintf}
use easyipc.Time.{Timespec}
use easyipc.Wire.{
  RegisterInfo, JoinInfo, Effect, logged, progress, warn, info, register_api_repeat,
  register_api_success, register_msg_success, unregister_api_success, unregister_api_fail,
  unregister_msg_success, unregister_msg_fail, join_pid_repeat, join_name_repeat, joined,
}

-- `IPC_MSG_MAX_SIZE`, `PROCESS_NAME_MAX_SIZE` and `IPC_SYSCMD_SIZE`
abbrev pub msg_max_size : ℕ
msg_max_size = 64

abbrev pub process_name_max_size : ℕ
process_name_max_size = 64

abbrev pub syscmd_size : ℕ
syscmd_size = 256

-- `_m_member`: a registered name with its statistics
pub record Entry : Type 0 where
  pub msg_name : Text
  pub process_cnt : ℕ
  pub process_time : Timespec

-- `_mlist_member`. The port in `toAddr` is set by each relay just before it is used, so `host`
-- stands for the rest of that address.
pub record Member : Type 0 where
  pub pid : ℕ
  pub live_cnt : ℕ
  pub msg_port : ℕ
  pub api_port : ℕ
  pub pname : Text
  pub send_cnt : ℕ
  pub recv_cnt : ℕ
  pub suspended : Bool
  pub pmsg_list : List Entry
  pub api_list : List Entry
  pub host : ℕ
  pub mask_sender : List Text
  pub mask_receiver : List Text
  pub daemon_cmd : Text

-- `ipcd_get_mlist_via_pid`
unfoldable pub get_mlist_via_pid : ℕ → List Member → Option Member
get_mlist_via_pid pid [] = none
get_mlist_via_pid pid (m ∷ ms) = if m.pid == pid then some m else get_mlist_via_pid pid ms

-- `ipcd_get_pname_via_pid`
unfoldable pub get_pname_via_pid : ℕ → List Member → Option Text
get_pname_via_pid pid [] = none
get_pname_via_pid pid (m ∷ ms) = if m.pid == pid then some m.pname else get_pname_via_pid pid ms

-- A write through the pointer that `ipcd_get_mlist_via_pid` returned.
unfoldable pub update_via_pid : ℕ → (Member → Member) → List Member → List Member
update_via_pid pid f [] = []
update_via_pid pid f (m ∷ ms) = if m.pid == pid then f m ∷ ms else m ∷ update_via_pid pid f ms

-- The search of a list of entries for a name.
unfoldable pub has_name : Text → List Entry → Bool
has_name name [] = false
has_name name (e ∷ es) = if str_eq e.msg_name name then true else has_name name es

-- `dlist_delete` at the first entry with the name.
unfoldable pub drop_name : Text → List Entry → List Entry
drop_name name [] = []
drop_name name (e ∷ es) = if str_eq name e.msg_name then es else e ∷ drop_name name es

-- A zeroed `_m_member` with its name.
abbrev pub new_entry : Text → Entry
new_entry name = record {
  msg_name = snprintf msg_max_size name;
  process_cnt = 0;
  process_time = record { tv_sec = pos 0; tv_nsec = pos 0 };
}

-- `ipcd_register_api`
unfoldable pub register_api : RegisterInfo → List Member → List Member × List Effect
register_api r [] = ([], [])
register_api r (m ∷ ms) =
    let (ms', es) = register_api r ms in
    if m.pid == r.pid
    then (if has_name r.name m.api_list
        then (m ∷ ms, logged progress warn r.pid (register_api_repeat r.name) ∷ [])
        else (
          record m { api_list = m.api_list ++ new_entry r.name ∷ [] } ∷ ms,
          logged progress info r.pid (register_api_success r.name) ∷ [],
        ))
    else (m ∷ ms', es)

-- `ipcd_register_msg`
unfoldable pub register_msg : RegisterInfo → List Member → List Member × List Effect
register_msg r [] = ([], [])
register_msg r (m ∷ ms) =
    let (ms', es) = register_msg r ms in
    if m.pid == r.pid
    then (if has_name r.name m.pmsg_list then (m ∷ ms, []) else (
      record m { pmsg_list = m.pmsg_list ++ new_entry r.name ∷ [] } ∷ ms,
      logged progress info r.pid (register_msg_success r.name) ∷ [],
    ))
    else (m ∷ ms', es)

-- `ipcd_unregister_api`: a process that has no such entry does not end the search.
unfoldable pub unregister_api : RegisterInfo → List Member → List Member × List Effect
unregister_api r [] = ([], logged progress warn r.pid (unregister_api_fail r.name) ∷ [])
unregister_api r (m ∷ ms) =
    let (ms', es) = unregister_api r ms in
    if m.pid == r.pid
    then (if has_name r.name m.api_list
        then (
          record m { api_list = drop_name r.name m.api_list } ∷ ms,
          logged progress info r.pid (unregister_api_success r.name) ∷ [],
        )
        else (m ∷ ms', es))
    else (m ∷ ms', es)

-- `ipcd_unregister_msg`
unfoldable pub unregister_msg : RegisterInfo → List Member → List Member × List Effect
unregister_msg r [] = ([], logged progress warn r.pid (unregister_msg_fail r.name) ∷ [])
unregister_msg r (m ∷ ms) =
    let (ms', es) = unregister_msg r ms in
    if m.pid == r.pid
    then (if has_name r.name m.pmsg_list
        then (
          record m { pmsg_list = drop_name r.name m.pmsg_list } ∷ ms,
          logged progress info r.pid (unregister_msg_success r.name) ∷ [],
        )
        else (m ∷ ms', es))
    else (m ∷ ms', es)

-- `ipcd_mlist_remove_via_pid`: the member's lists go with it.
unfoldable pub remove_via_pid : ℕ → List Member → List Member
remove_via_pid pid [] = []
remove_via_pid pid (m ∷ ms) = if m.pid == pid then ms else m ∷ remove_via_pid pid ms

-- `ipcd_exit`
unfoldable pub exit : JoinInfo → List Member → List Member
unfolding remove_via_pid
exit j ms = remove_via_pid j.pid ms

-- The outcome of the loop of `ipcd_join`: the join is refused, the loop runs to its end, or it
-- reads a member that it has just freed.
pub data Scan : Type 0 where
  refused : Effect → Scan
  clear : List Member → Scan
  freed_read : Scan

-- An index before the given one has that pid.
abbrev pub earlier : ℕ → ℕ → List Member → Bool
earlier pid i ms = any (λ m. m.pid == pid) (take i ms)

-- The loop of `ipcd_join`, over the rounds left of the length that was read before it. A suspended
-- member of the same name is removed, and the next index is read all the same. For a suspended member
-- of the same pid the first member with this pid is removed; if that is the member itself, it is then
-- read again, for its name, through the dead pointer.
unfoldable pub join_loop : JoinInfo → ℕ → ℕ → List Member → Scan
unfolding remove_via_pid
join_loop j zero i ms = clear ms
join_loop j (suc k) i ms = elim (get_elem? ms i) [
  | none ↦ join_loop j k (i + 1) ms
  | some m ↦
      let less = remove_via_pid m.pid ms in
      let on = join_loop j k (i + 1) ms in
      let rebuilt = join_loop j k (i + 1) less in
      let rebuilt_twice = join_loop j k (i + 1) (remove_via_pid m.pid less) in
      if m.pid == j.pid
      then (if m.suspended
          then (if earlier m.pid i ms
              then (if str_eq m.pname j.name then rebuilt_twice else rebuilt)
              else freed_read)
          else refused (logged progress warn m.pid (join_pid_repeat j.name j.pid)))
      else (if str_eq m.pname j.name
          then (if m.suspended
              then rebuilt
              else refused (logged progress warn m.pid (join_name_repeat j.name j.pid)))
          else on)
]

-- The member that `ipcd_join` creates.
unfoldable pub new_member : JoinInfo → ℕ → Member
new_member j host = record {
  pid = j.pid;
  live_cnt = 0;
  msg_port = j.msg_port;
  api_port = j.api_port;
  pname = snprintf process_name_max_size j.name;
  send_cnt = 0;
  recv_cnt = 0;
  suspended = false;
  pmsg_list = [];
  api_list = [];
  host = host;
  mask_sender = [];
  mask_receiver = [];
  daemon_cmd = [];
}

pub data JoinResult : Type 0 where
  join_refused : Effect → JoinResult
  join_accepted : List Member → Effect → JoinResult
  join_undefined : JoinResult

-- What follows the loop.
unfoldable pub admit : JoinInfo → ℕ → Scan → JoinResult
unfolding new_member
admit j host (refused e) = join_refused e
admit j host freed_read = join_undefined
admit j host (clear ms) =
    join_accepted (ms ++ new_member j host ∷ []) (logged progress info j.pid (joined j.name j.pid))

-- `ipcd_join`
unfoldable pub join : JoinInfo → ℕ → List Member → JoinResult
unfolding join_loop admit
join j host ms = admit j host (join_loop j (length ms) 0 ms)
