-- ===== src/Daemon/Analysis.antt =====
-- `ipcd_analysis_core` of src/easyipc_daemon.c: one packet from a client, each kind by a handler.
use easyipc.Base.{
  ℕ, ◌+◌, ◌/◌, Bool, false, ◌||◌, Option, none, some, List, [], ◌∷◌, ◌++◌, ltb, ◌==◌, if◌then◌else◌,
}
use easyipc.Base.Int.{ℤ, pos, negsuc, ltb_ℤ}
use easyipc.Base.Text.{Text, str_eq, snprintf, codes}
use easyipc.Time.{Timespec, sum}
use easyipc.Wire.{
  JoinInfo, DaemonInfo, Msg, Api, Ack, Runtime, Packet, Request, Effect, Reason, user_ctrl_c,
  user_ctrl_z, user_kill, memory_overflow, signal, logged, user, progress, system, err, warn, info,
  progress_exit, progress_hangup, api_called, api_begin, api_finish, api_finish_slow,
  api_finish_late, api_finish_miss, msg_begin, msg_finish, msg_finish_slow, msg_finish_miss,
  user_text, api_register, msg_register, api_unregister, msg_unregister, process_join, process_exit,
  process_live, process_hangup, daemon_syscmd, api_call, msg_send, api_runtime, msg_runtime,
  process_log, unknown,
}
use easyipc.Registry.{
  Entry, Member, syscmd_size, get_mlist_via_pid, get_pname_via_pid, update_via_pid, has_name,
  register_api, register_msg, unregister_api, unregister_msg, exit, JoinResult, join_refused,
  join_accepted, join_undefined, join, new_member,
}
use easyipc.Daemon.{Daemon, msg_push, api_push, join_ack_to, join_ack_fail_to, answer}

-- A handler returns the new state with what it sent and logged, or its behaviour is not defined.
pub data Outcome : Type 0 where
  done : Daemon → List Effect → Outcome
  undefined : Outcome

-- A change of the table alone.
abbrev pub on_table : Daemon → List Member × List Effect → Outcome
on_table d (ms, es) = done (record d { mlist = ms }) es

-- ENUM_PROCESS_JOIN
unfoldable pub joined_outcome : JoinInfo → ℕ → Daemon → JoinResult → Outcome
joined_outcome j host d (join_refused e) = done d (e ∷ join_ack_fail_to j.pid j.msg_port host ∷ [])
joined_outcome j host d (join_accepted ms e) =
    done (record d { mlist = ms }) (e ∷ join_ack_to (new_member j host) ∷ [])
joined_outcome j host d join_undefined = undefined

unfoldable pub on_join : JoinInfo → ℕ → Daemon → Outcome
unfolding joined_outcome
on_join j host d = joined_outcome j host d (join j host d.mlist)

-- ENUM_IPC_DAEMON
unfoldable pub on_daemon_syscmd : DaemonInfo → Daemon → Outcome
on_daemon_syscmd i d =
    done
      (record d {
        mlist =
            update_via_pid i.pid (λ m. record m { daemon_cmd = snprintf syscmd_size i.daemon_cmd })
              d.mlist;
      })
      []

-- ENUM_PROCESS_EXIT
unfoldable pub on_exit : ℕ → JoinInfo → Daemon → Outcome
on_exit sender j d =
    done (record d { mlist = exit j d.mlist })
      (logged system info sender (progress_exit j.name) ∷ [])

-- A sign of life.
abbrev pub revive : Member → Member
revive m = record m { live_cnt = 0; suspended = false }

-- ENUM_PROCESS_LIVE
unfoldable pub on_live : JoinInfo → Daemon → Outcome
on_live j d = done (record d { mlist = update_via_pid j.pid revive d.mlist }) []

-- The signal that ended a process, as the log words it.
unfoldable pub exit_reason : ℕ → Reason
exit_reason signo =
    if signo == 2
    then user_ctrl_c
    else (if signo == 20
        then user_ctrl_z
        else (if signo == 15
            then user_kill
            else (if signo == 11 then memory_overflow else signal signo)))

-- ENUM_PROCESS_HANGUP
unfoldable pub on_hangup : ℕ → JoinInfo → Daemon → Outcome
on_hangup sender j d =
    done (record d { mlist = exit j d.mlist })
      (logged system err sender (progress_hangup j.name (exit_reason j.signal_no)) ∷ [])

-- The sender of a call or a message is alive and has sent one packet more.
abbrev pub count_sent : Member → Member
count_sent m = record m { live_cnt = 0; suspended = false; send_cnt = m.send_cnt + 1 }

-- ENUM_PROCESS_API_CALL
unfoldable pub on_api_call : ℕ → Api → Daemon → Outcome
on_api_call sender a d = elim (get_mlist_via_pid sender d.mlist) [
  | none ↦ done d []
  | some m ↦
      let magic = d.api_public_magic_number in
      let counted = record d {
        mlist = update_via_pid sender count_sent d.mlist;
        api_public_magic_number = magic + 1;
      } in
      done (api_push (record a { daemon_magic_number = magic }) counted) (
        logged progress info sender
          (api_called (get_pname_via_pid a.send_pid counted.mlist) a.pname a.api_name)
        ∷ [])
]

-- ENUM_PROCESS_MSG_SEND
unfoldable pub on_msg_send : ℕ → Msg → Daemon → Outcome
on_msg_send sender m d = elim (get_mlist_via_pid sender d.mlist) [
  | none ↦ done d []
  | some _ ↦ done (msg_push m (record d { mlist = update_via_pid sender count_sent d.mlist })) []
]

-- The statistics of the first entry of that name.
unfoldable pub add_run : Text → Timespec → List Entry → List Entry
add_run name t [] = []
add_run name t (e ∷ es) =
    if str_eq e.msg_name name
    then record e { process_time = sum e.process_time t; process_cnt = e.process_cnt + 1 } ∷ es
    else e ∷ add_run name t es

abbrev pub millis : ℤ → ℕ
millis (pos n) = n / 1000000
millis (negsuc n) = 0

-- `tv_sec>=1||(tv_nsec/1000000)>500`
unfoldable pub is_slow : Timespec → Bool
is_slow t = ltb_ℤ (pos 0) t.tv_sec || ltb 500 (millis t.tv_nsec)

-- `dlist_remove` of the waiting call that has the magic number.
unfoldable pub take_call : ℕ → List Api → Option (Api × List Api)
take_call magic [] = none
take_call magic (a ∷ as') =
    let rest = take_call magic as' in
    if magic == a.daemon_magic_number
    then some (a, as')
    else elim rest [ none ↦ none | some (b, bs) ↦ some (b, a ∷ bs) ]

abbrev pub result_ack : Runtime → Ack
result_ack r = record { ack_id = r.caller_magic_number; ack_result = r.ret; ack_data = r.ret_data }

abbrev pub count_received : Member → Member
count_received m = record m { recv_cnt = m.recv_cnt + 1 }

-- A finished API call of a process that has the API.
unfoldable pub finish_api : ℕ → Runtime → Daemon → Outcome
finish_api sender r d = elim (take_call r.daemon_magic_number d.recv_acklist) [
  | none ↦ done d (logged progress err sender (api_finish_late r.msg_name) ∷ [])
  | some (a, rest) ↦
      done (record d { recv_acklist = rest })
        (answer a.send_pid (result_ack r) d.mlist
          ++ (if is_slow r.ptime
              then logged progress warn sender (api_finish_slow r.msg_name)
              else logged progress info sender (api_finish r.msg_name))
            ∷ [])
]

-- A finished API call of a process that does not have the API: the answer goes to that process.
unfoldable pub finish_api_miss : ℕ → Runtime → Daemon → Outcome
finish_api_miss sender r d = elim (get_mlist_via_pid sender d.mlist) [
  | none ↦ done d []
  | some m ↦ done d (
      answer sender (result_ack r) d.mlist
      ++ logged progress err sender (api_finish_miss r.msg_name) ∷ [])
]

abbrev pub counted_api : Runtime → Member → Member
counted_api r m = record m {
  recv_cnt = m.recv_cnt + 1;
  api_list = add_run r.msg_name r.ptime m.api_list;
}

abbrev pub counted_msg : Runtime → Member → Member
counted_msg r m = record m {
  recv_cnt = m.recv_cnt + 1;
  pmsg_list = add_run r.msg_name r.ptime m.pmsg_list;
}

-- ENUM_PROCESS_API_RUNTIME_RECODE
unfoldable pub on_api_runtime : ℕ → Runtime → Daemon → Outcome
unfolding finish_api finish_api_miss
on_api_runtime sender r d =
    if r.flag
    then (elim (get_mlist_via_pid sender d.mlist) [
      | none ↦ finish_api_miss sender r d
      | some m ↦
          let counted = record d { mlist = update_via_pid sender (counted_api r) d.mlist } in
          if has_name r.msg_name m.api_list
          then finish_api sender r counted
          else finish_api_miss sender r counted
    ])
    else done d (logged progress info sender (api_begin r.msg_name) ∷ [])

-- ENUM_PROCESS_MSG_RUNTIME_RECODE
unfoldable pub on_msg_runtime : ℕ → Runtime → Daemon → Outcome
on_msg_runtime sender r d =
    if r.flag
    then (elim (get_mlist_via_pid sender d.mlist) [
      | none ↦ done d (logged progress err sender (msg_finish_miss r.msg_name) ∷ [])
      | some m ↦
          done (record d { mlist = update_via_pid sender (counted_msg r) d.mlist })
            (if has_name r.msg_name m.pmsg_list
              then logged progress info sender
                  (if is_slow r.ptime then msg_finish_slow r.msg_name else msg_finish r.msg_name)
                ∷ []
              else (if has_name (codes "*") m.pmsg_list
                  then []
                  else logged progress err sender (msg_finish_miss r.msg_name) ∷ []))
    ])
    else done d (logged progress info sender (msg_begin r.msg_name) ∷ [])

abbrev pub handle : ℕ → ℕ → Request → Daemon → Outcome
handle host sender (api_register r) d = on_table d (register_api r d.mlist)
handle host sender (msg_register r) d = on_table d (register_msg r d.mlist)
handle host sender (api_unregister r) d = on_table d (unregister_api r d.mlist)
handle host sender (msg_unregister r) d = on_table d (unregister_msg r d.mlist)
handle host sender (process_join j) d = on_join j host d
handle host sender (process_exit j) d = on_exit sender j d
handle host sender (process_live j) d = on_live j d
handle host sender (process_hangup j) d = on_hangup sender j d
handle host sender (daemon_syscmd i) d = on_daemon_syscmd i d
handle host sender (api_call a) d = on_api_call sender a d
handle host sender (msg_send m) d = on_msg_send sender m d
handle host sender (api_runtime r) d = on_api_runtime sender r d
handle host sender (msg_runtime r) d = on_msg_runtime sender r d
handle host sender (process_log level text) d =
    done d (logged user level sender (user_text text) ∷ [])
handle host sender unknown d = done d []

-- `ipcd_analysis_core`; `host` is the address that the packet came from.
unfoldable pub analysis_core : ℕ → Packet → Daemon → Outcome
analysis_core host p d = handle host p.send_pid p.request d
