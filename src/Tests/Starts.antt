-- ===== src/Tests/Starts.antt =====
-- The start of a client and of the daemon on concrete data.
use easyipc.Base.{
  ℕ, ◌+◌, ◌*◌, ◌/◌, ◌%◌, ◌^◌, ◌<◌, true, some, none, List, [], ◌∷◌, ◌≡◌, refl, arith, All, ltb,
}
use easyipc.Base.Int.{pos}
use easyipc.Base.Text.{Text, codes, str_eq}
use easyipc.Wire.{Packet, LogType, Level, msg_relay, Msg}
use easyipc.Time.{timeradd_ms}
use easyipc.Time.Deadline.{total, timeradd_ms-total}
use easyipc.Client.{Client, Struct}
use easyipc.Client.Create.{Process, Machine, creat, created, free_but, new_client, cli_port_base}
use easyipc.Client.Create.Created.{FirstFree, IsProcess, joined, creat_lem}
use easyipc.Client.Receive.{recv_analysis}
use easyipc.Client.Pull.{begin, after, receives, msg_pull, api_pull, next_msg, next_api, Steps-pull}
use easyipc.Log.{Log, Flags, has_char, level_char, save_and_print}
use easyipc.Config.Values.{IsEntry}
use easyipc.Config.Files.{print_file}
use easyipc.Config.Settings.{configured, load_settings}
use easyipc.Config.Settings.Stored.{load_settings-print_file}
use easyipc.Daemon.{init}
use easyipc.Daemon.Start.{start, opt_L, running, start-printed}

timeradd_ms-total_example :
    ((timeradd_ms (record { sec = 5; usec = 999000 }) 2000).usec < 1000000)
    × (total (timeradd_ms (record { sec = 5; usec = 999000 }) 2000)
          + 2 ^ 32 * ((2000 * 1000) / 2 ^ 32)
        ≡ total (record { sec = 5; usec = 999000 }) + 2000 * 1000)
timeradd_ms-total_example = timeradd_ms-total (record { sec = 5; usec = 999000 }) 2000 (omega arith)

abbrev no_handles : Process
no_handles = record { ipc_list = []; pid_magic_number = 1; default_ipc = none }

-- The first port is in use.
abbrev machine : Machine
machine = record { getpid = 500; free = ltb 40100; unanswered = 1; thread = true }

abbrev word : Struct → ℕ
word t = 8

creat_lem_example :
    (msg_port api_port : ℕ) × (sent : List Packet) × (creat word 4096 machine 9
        (codes "camera")
        no_handles
      ≡ created
          (new_client (codes "camera") 1000500 msg_port api_port)
          (joined word 4096 machine 9 (codes "camera") no_handles msg_port api_port)
          sent)
    × FirstFree machine.free cli_port_base msg_port
    × FirstFree (free_but machine.free (msg_port % 2 ^ 16)) (msg_port + 1) api_port
    × IsProcess machine.getpid
        (joined word 4096 machine 9 (codes "camera") no_handles msg_port api_port)
creat_lem_example =
    creat_lem word 4096 machine 9 (codes "camera") no_handles 1 2
      (record { apart = tt; below = tt }) refl (omega arith) refl refl refl refl (omega arith)
      (λ e. absurd (omega arith)) (omega arith)

abbrev frame : Msg
frame = record { msg_name = codes "frame"; ipc_name = []; send_pid = 7; payload = [] }

abbrev fresh : Client
fresh = new_client (codes "camera") 1000500 40101 40102

abbrev fed : Client
fed = recv_analysis (msg_relay frame) fresh

Steps-pull_example :
    (msg_pull fed ≡ next_msg fed.msg_recv_list fed)
    × (api_pull fed ≡ next_api fed.api_recv_list fed)
Steps-pull_example =
    Steps-pull (codes "camera") 1000500 40101 40102 fed
      (after fresh fresh fed (begin fresh) (receives (msg_relay frame) fresh))

abbrev entries : List (Text × Text)
entries =
    (codes "ipc_log_save_path", codes "/tmp/aabb.log")
    ∷ (codes "ipc_syslog_enable", codes "0")
    ∷ (codes "packet_max_size", codes "128000")
    ∷ []

entries-IsEntry : All IsEntry entries
entries-IsEntry = (
  (omega arith, refl, refl, omega arith),
  ((omega arith, refl, refl, omega arith), ((omega arith, refl, refl, omega arith), tt)),
)

load_settings-print_file_example :
    load_settings (some (print_file (codes "Config") entries)) (pos 0)
    ≡ configured (record {
      ipc_log_save_path = codes "/tmp/aabb.log";
      ipc_msg_packet_max_size = pos 128000;
      ipc_syslog_enable = pos 0;
    })
unfolding str_eq
load_settings-print_file_example =
    load_settings-print_file entries entries-IsEntry (codes "/tmp/aabb.log") 128000 0 (pos 0) refl
      refl refl (omega arith) (omega arith) (omega arith)

abbrev quiet : Flags
quiet = record { printf_log_type_flag = []; printf_log_level_flag = [] }

start-printed_example :
    (g : Flags) × (start
        (opt_L (codes "EW") ∷ [])
        quiet
        true
        (some (print_file (codes "Config") entries))
        (pos 0)
      ≡ running
          (pos 0)
          g
          (record {
            ipc_log_save_path = codes "/tmp/aabb.log";
            ipc_msg_packet_max_size = pos 128000;
            ipc_syslog_enable = pos 0;
          })
          init)
    × ((type : LogType) (level : Level) (size : ℕ) (text : Text) (l : Log)
        → (save_and_print size g type level text l).printed
          ≡ has_char (level_char level) (codes "EW"))
unfolding str_eq
start-printed_example =
    start-printed (codes "EW") quiet (some (print_file (codes "Config") entries)) (pos 0)
      (record {
        ipc_log_save_path = codes "/tmp/aabb.log";
        ipc_msg_packet_max_size = pos 128000;
        ipc_syslog_enable = pos 0;
      })
      (omega arith)
      (load_settings-print_file entries entries-IsEntry (codes "/tmp/aabb.log") 128000 0 (pos 0)
        refl refl refl (omega arith) (omega arith) (omega arith))
