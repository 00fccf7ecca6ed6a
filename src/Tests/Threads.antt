-- ===== src/Tests/Threads.antt =====
-- The threads of src/easyipc_daemon.c on concrete data.
use easyipc.Base.{ℕ, ◌≡◌, refl, true, [], ◌∷◌, ◌++◌, arith}
use easyipc.Base.Int.{ℤ, pos}
use easyipc.Base.Text.{codes, str_eq, snprintf}
use easyipc.Wire.{
  api_register, api_call, Msg, Api, Runtime, Packet, process_join, logged, progress, err, info,
  ack_ok, msg_sent_to, api_finish_late, process_join,
}
use easyipc.Registry.{
  get_mlist_via_pid, has_name, new_entry, register_api, update_via_pid, join, new_member,
}
use easyipc.Daemon.{api_push, Daemon, init, api_pull, relay_msg, answer}
use easyipc.Daemon.Queues.{IsBalanced}
use easyipc.Daemon.Probe.{api_scan, api_probe, msg_probe}
use easyipc.Daemon.Sweep.{api_timeout_check, live_check}
use easyipc.Daemon.Analysis.{on_api_call, done, analysis_core, on_join, joined_outcome}
use easyipc.Daemon.Routing.{routed, find_live, api_probe_lem, receivers, msg_probe_lem}
use easyipc.Daemon.Timeouts.{
  after_rounds, expiries, timeout_rounds, api_timeout_check_lem, after_silence, misses, live_rounds,
  live_check_lem,
}
use easyipc.Daemon.Answers.{finish_note, report, reported, ack_for, analysis_core-api_runtime}
use easyipc.Daemon.Order.{System, Reach, started, stepped, packet, pull_call, distribute_call}
use easyipc.Daemon.Order.Handlers.{WellFormed}
use easyipc.Daemon.Order.Invariant.{Reach-WellFormed, Reach-finish_api}
use easyipc.Tests.Tables.{table, table-IsTable, camera, display, joining}

abbrev pub call : ℕ → ℤ → Api
call magic time = record {
  pname = codes "camera";
  api_name = codes "zoom";
  ack_id = 0;
  daemon_magic_number = magic;
  daemon_count_number = time;
  send_pid = 11;
  payload = [];
}

abbrev frame : Msg
frame = record {
  msg_name = codes "frame";
  ipc_name = codes "camera";
  send_pid = 10;
  payload = 7 ∷ [];
}

-- Two calls wait, one is queued, and so is a message.
abbrev pub busy : Daemon
busy = record {
  mlist = table;
  recv_mlist = frame ∷ [];
  recv_alist = call 6 (pos 500) ∷ [];
  recv_acklist = call 4 (pos 250) ∷ call 5 (pos 0xffffff) ∷ [];
  msg_sem = 1;
  api_sem = 1;
  api_public_magic_number = 7;
}

busy-IsBalanced : IsBalanced busy
busy-IsBalanced = record { msgs = refl; apis = refl }

-- The first packet that a daemon accepts is a join.
abbrev first_join : Packet
first_join = record { send_pid = 10; request = process_join (joining 10 (codes "camera")) }

abbrev joined : Daemon
joined = record init { mlist = new_member (joining 10 (codes "camera")) 1 ∷ [] }

Reach-joined : Reach (record { daemon = joined; in_hand = [] })
unfolding analysis_core on_join joined_outcome join
Reach-joined = stepped started (packet 1 first_join (tt, omega arith) refl)

Reach-WellFormed_example : WellFormed [] joined
Reach-WellFormed_example = Reach-WellFormed Reach-joined

abbrev result : ℕ → Runtime
result magic = record {
  msg_name = codes "zoom";
  flag = true;
  ptime = record { tv_sec = pos 0; tv_nsec = pos 1000 };
  caller_magic_number = 0;
  daemon_magic_number = magic;
  ret = ack_ok;
  ret_data = 9 ∷ [];
}

-- The camera registers its API and calls it itself.
abbrev asking : Api
asking = record (call 0 (pos 500)) { send_pid = 10 }

abbrev offered : Daemon
offered = record joined {
  mlist =
      record (new_member (joining 10 (codes "camera")) 1) {
        api_list = new_entry (codes "zoom") ∷ [];
      }
      ∷ [];
}

abbrev counted : Daemon
counted = record offered {
  mlist =
      record (new_member (joining 10 (codes "camera")) 1) {
        api_list = new_entry (codes "zoom") ∷ [];
        send_cnt = 1;
      }
      ∷ [];
  api_public_magic_number = 1;
}

abbrev asked : Daemon
asked = record counted { recv_alist = asking ∷ []; api_sem = 1 }

Reach-asked : Reach (record { daemon = asked; in_hand = [] })
unfolding analysis_core on_join joined_outcome join register_api has_name on_api_call
    get_mlist_via_pid update_via_pid api_push
Reach-asked =
    stepped
      (stepped Reach-joined (
        packet 1
          (record {
            send_pid = 10;
            request = api_register (record { pid = 10; name = codes "zoom" });
          })
          tt refl))
      (packet 1 (record { send_pid = 10; request = api_call asking }) tt refl)

abbrev waiting_call : System
waiting_call = record { daemon = (api_probe asking counted).0; in_hand = [] }

Reach-waiting_call : Reach waiting_call
unfolding api_pull
Reach-waiting_call = stepped (stepped Reach-asked (pull_call refl)) (distribute_call asking)

-- The camera, once its report is counted.
abbrev after_report : Daemon
after_report = record (reported 10 (result 0) waiting_call.daemon) { recv_acklist = [] }

Reach-finish_api_example :
    (analysis_core 1 (report 10 (result 0)) waiting_call.daemon
      ≡ done after_report (
          answer 10 (ack_for asking (result 0)) after_report.mlist
          ++ finish_note 10 (result 0) ∷ []))
    × (analysis_core 1 (report 10 (result 0)) after_report
        ≡ done
            (reported 10 (result 0) after_report)
            (logged progress err 10 (api_finish_late (codes "zoom")) ∷ []))
unfolding api_probe api_scan has_name str_eq snprintf new_member get_mlist_via_pid
Reach-finish_api_example =
    Reach-finish_api [] asking [] 1 10 (result 0) _ Reach-waiting_call refl refl refl refl refl refl

api_probe_lem_example :
    api_probe (call 7 (pos 500)) busy
    ≡ routed (call 7 (pos 500)) busy (find_live (codes "camera") table)
api_probe_lem_example = api_probe_lem (call 7 (pos 500)) busy table-IsTable

msg_probe_lem_example : msg_probe frame busy ≡ (
  busy,
  relay_msg display frame
      ∷ logged progress info 10 (msg_sent_to (codes "frame") (codes "display"))
      ∷ [],
)
unfolding receivers str_eq snprintf
msg_probe_lem_example = msg_probe_lem frame busy

analysis_core-api_runtime_example :
    analysis_core 1 (report 10 (result 5)) busy
    ≡ done
        (record (reported 10 (result 5) busy) { recv_acklist = call 4 (pos 250) ∷ [] })
        (answer 11 (ack_for (call 5 (pos 0xffffff)) (result 5)) (reported 10 (result 5) busy).mlist
          ++ finish_note 10 (result 5) ∷ [])
unfolding has_name get_mlist_via_pid str_eq snprintf
analysis_core-api_runtime_example =
    analysis_core-api_runtime 1 10 (result 5) (call 4 (pos 250) ∷ []) (call 5 (pos 0xffffff)) []
      busy camera refl refl refl refl refl ((λ e. absurd (omega arith)), tt)

api_timeout_check_lem_example :
    api_timeout_check (timeout_rounds 2 busy)
    ≡ (after_rounds 3 busy, expiries 2 table busy.recv_acklist)
api_timeout_check_lem_example =
    api_timeout_check_lem 2 busy
      ((250, refl, omega arith, omega arith), ((0xffffff, refl, omega arith, omega arith), tt))

live_check_lem_example : live_check (live_rounds 15 busy) ≡ (after_silence 16 busy, misses 15 table)
live_check_lem_example = live_check_lem 15 busy ((λ e. omega arith), ((λ e. omega arith), tt))
