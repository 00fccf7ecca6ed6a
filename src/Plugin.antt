-- ===== src/Plugin.antt =====
-- The plugins of src/easyipc_plugin.c: what is set off by which message, and what setting it off
-- does. The children read the plugin files and take the plugins away again.
pub mod Parse
pub mod Load
pub mod Clean
pub mod Registered
pub mod Triggered
pub mod Parsed
pub mod Masked
pub mod View
use easyipc.Base.{
  ℕ, ◌+◌, Bool, true, false, ◌&&◌, Option, none, some, List, [], ◌∷◌, ◌++◌, if◌then◌else◌,
}
use easyipc.Base.Int.{ℤ, pos, negsuc}
use easyipc.Base.Text.{Text, str_eq, snprintf, codes}
use easyipc.Wire.{Effect, LogType, Level, Msg, system, progress, info}
use easyipc.Registry.{Entry, Member, msg_max_size}
use easyipc.Daemon.{relay_msg}

-- `IPC_PLUGIN_MSG_MAX_SIZE`
abbrev pub plugin_msg_max_size : ℕ
plugin_msg_max_size = 256

-- `PLUGIN_BROADCAT_TYPE`
pub data BroadcastType : Type 0 where
  msg uiled syscmd shell : BroadcastType

abbrev pub same_type : BroadcastType → BroadcastType → Bool
same_type msg msg = true
same_type uiled uiled = true
same_type syscmd syscmd = true
same_type shell shell = true
same_type _ _ = false

-- `broadcast_unit`; `msg` in the source.
pub record BroadcastUnit : Type 0 where
  pub text : Text
  pub type : BroadcastType

-- `monitor_msg`; the three further lists are never set.
pub record MonitorMsg : Type 0 where
  pub monitor_msg_name : Text
  pub broadcast_msglist : List BroadcastUnit

-- The texts of the log records, each with its arguments.
pub data PluginNote : Type 0 where
  unit_registered monitor_registered : Text → BroadcastType → Text → PluginNote
  trigger_msg trigger_uiled trigger_syscmd trigger_shell : Text → Text → PluginNote
  path_error not_found size_error parse_fail : Text → PluginNote
  sender_mask receiver_mask : Text → Text → PluginNote

-- What the plugins do to the outside.
pub data Action : Type 0 where
  logged : LogType → Level → PluginNote → Action
  -- a datagram
  relayed : Effect → Action
  -- `system`, and the line that is printed when it returns less than 0
  executed exec_fail : Text → Action
  -- `ipcd_console_print`, `ipcd_plugin_monitor_add_file`'s lines
  printed : PluginNote → Action
  search_file add_file_succeed : Text → Action

-- `ipcd_plugin_getmsgtype_str`
unfoldable pub getmsgtype_str : BroadcastType → Text
getmsgtype_str msg = codes "msg"
getmsgtype_str uiled = codes "uiled"
getmsgtype_str syscmd = codes "syscmd"
getmsgtype_str shell = codes "shell"

-- The search of `ipcd_plugin_monitor_msg_insert` for the same unit.
unfoldable pub has_unit : Text → BroadcastType → List BroadcastUnit → Bool
has_unit text type [] = false
has_unit text type (b ∷ bs) =
    if str_eq b.text text && same_type type b.type then true else has_unit text type bs

-- A zeroed `broadcast_unit`, filled.
unfoldable pub new_unit : Text → BroadcastType → BroadcastUnit
new_unit t ty = record { text = snprintf plugin_msg_max_size t; type = ty }

-- The registration at the entry that the search has found.
unfoldable pub unit_insert : Text → Text → BroadcastType → MonitorMsg → MonitorMsg × List Action
unfolding has_unit new_unit
unit_insert monitor text type m = if has_unit text type m.broadcast_msglist then (m, []) else (
  record m { broadcast_msglist = m.broadcast_msglist ++ new_unit text type ∷ [] },
  logged system info (unit_registered text type monitor) ∷ [],
)

-- The search, from the end of the list, for the entry of the message.
unfoldable pub insert_at :
    Text → Text → BroadcastType → List MonitorMsg → Option (List MonitorMsg × List Action)
unfolding unit_insert
insert_at monitor text type [] = none
insert_at monitor text type (m ∷ ms) = elim (insert_at monitor text type ms) [
  | some (ms', es) ↦ some (m ∷ ms', es)
  | none ↦
      let (m', es) = unit_insert monitor text type m in
      if str_eq monitor m.monitor_msg_name then some (m' ∷ ms, es) else none
]

-- The entry of a message that had none.
unfoldable pub new_monitor : Text → Text → BroadcastType → MonitorMsg
unfolding new_unit
new_monitor monitor text type = record {
  monitor_msg_name = snprintf msg_max_size monitor;
  broadcast_msglist = new_unit text type ∷ [];
}

-- The list that is there after `dlist_create`, where there was `NULL`.
abbrev pub created {ℓ} : {A : Type ℓ} → Option (List A) → List A
created none = []
created (some xs) = xs

-- `ipcd_plugin_monitor_msg_insert`, on `monitor_msglist`
unfoldable pub monitor_msg_insert :
    Text → Text → BroadcastType → Option (List MonitorMsg) → Option (List MonitorMsg) × List Action
unfolding insert_at new_monitor
monitor_msg_insert monitor text type l = elim (insert_at monitor text type (created l)) [
  | some (ms, es) ↦ (some ms, es)
  | none ↦ (
    some (created l ++ new_monitor monitor text type ∷ []),
    logged system info (monitor_registered text type monitor) ∷ [],
  )
]

-- The first entry of a process with the name.
unfoldable pub find_name : Text → List Entry → Option Entry
find_name name [] = none
find_name name (e ∷ es) = if str_eq name e.msg_name then some e else find_name name es

-- The message that `ipcd_plugin_exec_msg` makes; `ipc_name` is what the stack has there.
unfoldable pub sim : Text → Entry → Msg
sim stack e = record {
  msg_name = snprintf msg_max_size e.msg_name;
  ipc_name = stack;
  send_pid = 0;
  payload = [];
}

-- `ipcd_plugin_exec_msg`: the first process that has registered for it gets it, suspended or not.
unfoldable pub exec_msg : Text → Text → Text → List Member → List Action
unfolding find_name sim relay_msg
exec_msg stack src dest [] = []
exec_msg stack src dest (m ∷ ms) = elim (find_name dest m.pmsg_list) [
  | none ↦ exec_msg stack src dest ms
  | some e ↦
      relayed (relay_msg m (sim stack e)) ∷ logged progress info (trigger_msg src e.msg_name) ∷ []
]

-- `ipcd_plugin_exec_uiled`
unfoldable pub exec_uiled : Text → Text → List Action
exec_uiled src dest = logged progress info (trigger_uiled src dest) ∷ []

-- `system` of a command and the message on its failure; `fails` tells the commands for which it
-- returns less than 0.
abbrev pub run_system : (Text → Bool) → Text → Text → List Action
run_system fails cmd text = executed cmd ∷ (if fails cmd then exec_fail text ∷ [] else [])

-- `ipcd_plugin_exec_syscmd`
unfoldable pub exec_syscmd : (Text → Bool) → Text → Text → List Action
exec_syscmd fails src dest =
    logged progress info (trigger_syscmd src dest) ∷ run_system fails dest dest

-- `newcmd` of `ipcd_plugin_exec_shell`
unfoldable pub newcmd : Text → Text
newcmd dest = snprintf (msg_max_size + 4) (codes "sh " ++ dest)

-- `ipcd_plugin_exec_shell`
unfoldable pub exec_shell : (Text → Bool) → Text → Text → List Action
unfolding newcmd
exec_shell fails src dest =
    logged progress info (trigger_shell src dest) ∷ run_system fails (newcmd dest) (newcmd dest)

-- The switch of `ipcd_plugin_trigger`.
unfoldable pub exec_unit : (Text → Bool) → Text → Text → List Member → BroadcastUnit → List Action
unfolding exec_msg exec_uiled exec_syscmd exec_shell
exec_unit fails stack src ms b = elim b.type [
  | msg ↦ exec_msg stack src b.text ms
  | uiled ↦ exec_uiled src b.text
  | syscmd ↦ exec_syscmd fails src b.text
  | shell ↦ exec_shell fails src b.text
]

-- The inner loop, from the end of the list, with `sendflag`.
unfoldable pub exec_units :
    (Text → Bool) → Text → Text → List Member → List BroadcastUnit → ℤ × List Action
unfolding exec_unit
exec_units fails stack src ms [] = (negsuc 0, [])
exec_units fails stack src ms (b ∷ bs) =
    (pos 1, (exec_units fails stack src ms bs).1 ++ exec_unit fails stack src ms b)

-- The outer loop, from the end of the list: the entry of the message.
unfoldable pub find_monitor : Text → List MonitorMsg → Option MonitorMsg
find_monitor name [] = none
find_monitor name (m ∷ ms) = elim (find_monitor name ms) [
  | some r ↦ some r
  | none ↦ if str_eq name m.monitor_msg_name then some m else none
]

-- `ipcd_plugin_trigger`
unfoldable pub trigger :
    (Text → Bool) → Text → Text → Option (List MonitorMsg) → List Member → ℤ × List Action
unfolding find_monitor exec_units
trigger fails stack name none ms = (negsuc 0, [])
trigger fails stack name (some l) ms = elim (find_monitor name l) [
  | none ↦ (negsuc 0, [])
  | some m ↦ exec_units fails stack name ms m.broadcast_msglist
]
