-- ===== src/Tests/Consoles.antt =====
-- The console programs and the control requests on concrete data.
use easyipc.Base.{ℕ, true, none, some, List, [], ◌∷◌, ◌++◌, ◌≡◌, refl, map, arith, All, ◌&&◌}
use easyipc.Base.Int.{pos}
use easyipc.Base.Text.{Text, str_eq, codes, snprintf}
use easyipc.Wire.{LogType, user, system, Level, warn, info}
use easyipc.Log.{Log, has_char, tlt_char, level_char}
use easyipc.Misc.{PrintPacket, cat_memory, byte_at, strstr_char, crlf}
use easyipc.Misc.Selected.{IsRecord, at_index, chosen_lines, cat_memory-chosen}
use easyipc.Log.Format.{Event}
use easyipc.Misc.Logged.{IsEvent, wanted_lines}
use easyipc.Misc.Broadcast.{no_sockets, broadcast_all, wanted, broadcast_all-wanted}
use easyipc.Misc.Kept.{logged, kept_events, cat_memory-kept_events}
use easyipc.Misc.Listing.{blank, is_message}
use easyipc.Control.{Control, Host, print, broadcast_off, replied, line, ctl_analysis_core}
use easyipc.Console.{sends, eipcprint, print_t, print_l, first_packet, query}
use easyipc.Console.Params.{int32, string, param_type, size_of, build_params, built}
use easyipc.Console.Encoded.{Valid}
use easyipc.Console.Decoded.{types, values, read_fields, read_fields-build_params}
use easyipc.Console.Printed.{printed_after, eipcprint-printed}
use easyipc.Console.Queried.{hits, query-hits}
use easyipc.Base.Scan.{to_int, atoi, digits, scan_int}
use easyipc.Tests.Tables.{table}
use easyipc.Tests.Plugins.{Tree, trees, one_file, no_plugins}

abbrev error_record : Text
error_record = codes "S E easyipc_daemon                        12.345 : no space"

error_record-IsRecord : IsRecord error_record
unfolding strstr_char byte_at
error_record-IsRecord = record {
  long = omega arith;
  short = omega arith;
  no_end = refl;
  type = refl;
  level = refl;
}

cat_memory-chosen_example :
    cat_memory 2 first_packet 0 [] (at_index [] (error_record ∷ []))
    ≡ some (chosen_lines first_packet (error_record ∷ []) ++ crlf, at_index [] (error_record ∷ []))
cat_memory-chosen_example =
    cat_memory-chosen first_packet (error_record ∷ []) 2 0 [] (error_record-IsRecord, tt)
      (omega arith)

abbrev event : LogType → Level → Text → Event
event t l name = record {
  type = t;
  level = l;
  pname = name;
  sec = 12;
  msec = 34;
  text = codes "started";
}

event-IsEvent : IsEvent (event user info (codes "camera"))
unfolding strstr_char level_char
event-IsEvent = record {
  named = refl;
  fits = omega arith;
  word = refl;
  clean = refl;
  short = omega arith;
  level = refl;
}

other-IsEvent : IsEvent (event system warn (codes "focus"))
unfolding strstr_char level_char
other-IsEvent = record {
  named = refl;
  fits = omega arith;
  word = refl;
  clean = refl;
  short = omega arith;
  level = refl;
}

abbrev events : List Event
events =
    event user info (codes "camera")
    ∷ event system warn (codes "focus")
    ∷ event user info (codes "camera")
    ∷ []

cat_memory-kept_events_example :
    cat_memory 3 first_packet 0 [] (logged 1 events)
    ≡ some (wanted_lines first_packet (kept_events 1 events) ++ crlf, logged 1 events)
cat_memory-kept_events_example =
    cat_memory-kept_events first_packet 1 events 3 0 [] refl
      (event-IsEvent, (other-IsEvent, (event-IsEvent, tt))) (omega arith)

abbrev params : List (Text × Text)
params = (codes "I32", codes "-2") ∷ (codes "S4", codes "hello") ∷ []

params-Valid : All Valid params
unfolding param_type size_of atoi scan_int digits str_eq to_int
params-Valid = (
  record { type = int32; size = 3; known = refl; positive = refl },
  (record { type = string (pos 4); size = 3; known = refl; positive = refl }, tt),
)

read_fields-build_params_example :
    (bytes : List ℕ) × (build_params params ≡ built bytes)
    × (read_fields (types params params-Valid) bytes ≡ values params params-Valid)
read_fields-build_params_example = read_fields-build_params params params-Valid (refl, (refl, tt))

abbrev idle : Control Tree
idle = record {
  flags = first_packet.flags;
  printf_broadcast_flag = 0;
  printf_rpc_flag = 0;
  log = at_index [] [];
  plugins = no_plugins;
}

abbrev host : Host trees
host = record {
  sys = one_file;
  cjson_print = λ t. [];
  debug_log_size = 0;
  log_file = none;
  last_color = 0;
  readline = [];
}

eipcprint-printed_example :
    (p : PrintPacket) × (c' : Control Tree) × (eipcprint true
        (print_t (codes "S") ∷ print_l (codes "E") ∷ [])
        first_packet
      ≡ sends (print p ∷ []))
    × (ctl_analysis_core trees host (print p) idle ≡ replied c' (broadcast_off ∷ []))
    × ((type : LogType) (level : Level) (size : ℕ) (text : Text) (l : Log)
        → printed_after c' type level size text l
          ≡ (has_char (tlt_char type) (codes "S") && has_char (level_char level) (codes "E")))
eipcprint-printed_example =
    eipcprint-printed trees host true idle (codes "S") (codes "E") (omega arith) (omega arith)

query-hits_example :
    ctl_analysis_core trees host (query (codes "fra" ∷ [])) idle
    ≡ replied idle (map line (blank ∷ (hits (codes "fra" ∷ []) table ++ blank ∷ [])))
unfolding is_message str_eq snprintf
query-hits_example =
    query-hits trees host idle (codes "fra") [] ((refl, omega arith), tt) (omega arith) refl

broadcast_all-wanted_example :
    broadcast_all 1 1 (codes "one" ∷ codes "two" ∷ []) (pos 5) (pos 6) no_sockets
    ≡ wanted 1 1 (codes "one" ∷ codes "two" ∷ [])
broadcast_all-wanted_example =
    broadcast_all-wanted 1 1 (codes "one" ∷ codes "two" ∷ []) (pos 5) (pos 6) no_sockets refl refl
