-- ===== src/Tests/Clients.antt =====
-- The client library of src/easyipc_support.c on concrete data.
use easyipc.Base.{ℕ, ◌≡◌, refl, true, false, none, some, List, [], ◌∷◌, ◌++◌, arith}
use easyipc.Base.Int.{ℤ, pos}
use easyipc.Base.Text.{Text, codes, str_eq, snprintf}
use easyipc.Time.{Timespec}
use easyipc.Wire.{Msg, Api, ApiRet, Runtime, api_ack_relay, ack_ok, msg_unregister}
use easyipc.Registry.{get_mlist_via_pid, has_name}
use easyipc.Daemon.{Daemon, api_ack_relay_to, api_push, relay_api}
use easyipc.Daemon.Analysis.{done, analysis_core}
use easyipc.Daemon.Answers.{finish_note, report, reported}
use easyipc.Daemon.Probe.{api_probe}
use easyipc.Daemon.Routing.{find_live}
use easyipc.Client.{Client, MsgHandler, ApiHandler, Struct, data_to_daemon, register_info_of}
use easyipc.Client.Handlers.{unregister_msg}
use easyipc.Client.Unregister.{drop_skipping, unregister_msg_lem}
use easyipc.Client.Receive.{recv_analysis, reply, callreal, msg_recv_probe, runs_null}
use easyipc.Client.Dispatch.{ran, any_handler, msg_recv_probe_lem}
use easyipc.Client.Calls.{call_api, call_result, count_number, is_answer, api_of, ack_of}
use easyipc.Client.Calls.Returned.{call_packet, called, call_note, answering, call_api-callreal}
use easyipc.Tests.Tables.{table-IsTable, camera, display}
use easyipc.Tests.Threads.{busy, call}

abbrev sizeof : Struct → ℕ
sizeof s = 100

abbrev handler : Text → ℕ → MsgHandler
handler name f = record { msg_name = name; fun = some f; fun_ext = none; usrdata = 0 }

-- A client with two functions for one message, and one for any message that takes user data.
abbrev shown : Client
shown = record {
  pid = 11;
  alias_name = codes "display";
  msg_recv_port = 6002;
  api_recv_port = 6001;
  msg_list =
      handler (codes "frame") 1
      ∷ handler (codes "frame") 2
      ∷ record { msg_name = codes "*"; fun = none; fun_ext = some 3; usrdata = 5 }
      ∷ [];
  api_list = [];
  msg_recv_list = [];
  api_recv_list = [];
  api_ack_wait_list = 3 ∷ [];
  api_ack_magic_num = 4;
  msg_recv_sem = 0;
  api_recv_sem = 0;
  connect_sem = 0;
  woken = [];
}

abbrev other : Msg
other = record { msg_name = codes "sound"; ipc_name = []; send_pid = 10; payload = [] }

abbrev clock : ℕ → Timespec × Timespec
clock i = (record { tv_sec = pos 0; tv_nsec = pos 0 }, record { tv_sec = pos 1; tv_nsec = pos 0 })

-- The entry for any message is called through NULL.
msg_recv_probe_lem_example : ran (msg_recv_probe sizeof 1000 clock other shown) ≡ runs_null ∷ []
unfolding str_eq any_handler
msg_recv_probe_lem_example = msg_recv_probe_lem sizeof 1000 clock other shown

unregister_msg_lem_example : unregister_msg sizeof 1000 (codes "frame") shown ≡ (
  record shown { msg_list = drop_skipping (codes "frame") false shown.msg_list },
  data_to_daemon sizeof 1000 shown (msg_unregister (register_info_of shown (codes "frame"))),
)
unfolding str_eq
unregister_msg_lem_example = unregister_msg_lem sizeof 1000 (codes "frame") shown refl

-- The call of the display, as the daemon queues it, and the provider.
abbrev asked : Api
asked = record (call 7 (pos 0xffffff)) { ack_id = 4 }

abbrev zoom : ApiHandler
zoom = record { msg_name = codes "zoom"; fun = 8 }

abbrev provider : Client
provider = record shown {
  pid = 10;
  alias_name = codes "camera";
  msg_list = [];
  api_list = zoom ∷ [];
}

abbrev apply : ℕ → Text → List ℕ → ℤ → ApiRet × List ℕ
apply f name data' left = (ack_ok, 9 ∷ [])

abbrev waits : Daemon
waits = record busy { recv_acklist = call 4 (pos 250) ∷ asked ∷ [] }

abbrev result : Runtime
result = reply asked (clock 0).0 (clock 0).1 ack_ok (9 ∷ [])

call_api-callreal_example :
    ((call_api sizeof 1000 (codes "camera") (codes "zoom") [] (pos 0) shown).1
      ≡ call_packet shown (api_of (codes "camera") (codes "zoom") [] (pos 0) shown) ∷ [])
    × (analysis_core 1
          (call_packet shown (api_of (codes "camera") (codes "zoom") [] (pos 0) shown))
          busy
        ≡ done (api_push asked (called 11 busy)) (call_note 11 asked (called 11 busy) ∷ []))
    × (api_probe asked busy ≡ (
      record busy { recv_acklist = busy.recv_acklist ++ asked ∷ [] },
      relay_api camera asked ∷ [],
    ))
    × (callreal sizeof 1000 (clock 0) apply provider asked (zoom ∷ [])
        ≡ answering sizeof 1000 (clock 0) apply provider asked zoom ack_ok (9 ∷ []))
    × (analysis_core 1 (report 10 result) waits
        ≡ done
            (record (reported 10 result waits) { recv_acklist = call 4 (pos 250) ∷ [] })
            (api_ack_relay_to display (ack_of asked ack_ok (9 ∷ [])) ∷ finish_note 10 result ∷ []))
    × (recv_analysis
          (api_ack_relay (ack_of asked ack_ok (9 ∷ [])))
          (call_api sizeof 1000 (codes "camera") (codes "zoom") [] (pos 0) shown).0
        ≡ record shown { api_ack_magic_num = 5; woken = ack_of asked ack_ok (9 ∷ []) ∷ [] })
    × (call_result true (ack_of asked ack_ok (9 ∷ [])) ≡ (ack_ok, some (9 ∷ [])))
unfolding api_of count_number get_mlist_via_pid is_answer find_live str_eq snprintf has_name
call_api-callreal_example =
    call_api-callreal sizeof 1000 (clock 0) apply (codes "camera") (codes "zoom") [] (pos 0) shown
      busy display (omega arith, tt) (omega arith) refl asked refl busy camera table-IsTable refl
      refl provider zoom
      (record { before = []; behind = []; split = refl; others = refl; hit = refl }) ack_ok (9 ∷ [])
      refl (omega arith) waits (call 4 (pos 250) ∷ []) [] display camera refl
      ((λ e. absurd (omega arith)), tt) refl refl refl 1
