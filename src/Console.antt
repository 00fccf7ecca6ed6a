-- ===== src/Console.antt =====
-- The command line of src/easyipc_console.c: what each program asks of the daemon, and the message
-- that `eipcmsg` sends.
pub mod Params
pub mod Encoded
pub mod Decoded
pub mod Queried
pub mod Printed
use easyipc.Base.{
  ℕ, zero, suc, ◌+◌, ◌-◌, ◌*◌, ◌%◌, ◌^◌, Bool, true, false, ◌&&◌, ◌||◌, not, Option, none, some,
  List, [], ◌∷◌, ◌++◌, map, take, length, ltb, leb, ◌==◌, if◌then◌else◌,
}
use easyipc.Base.Int.{ℤ, pos, negsuc}
use easyipc.Base.Text.{Text, str_eq, snprintf, codes}
use easyipc.Registry.{process_name_max_size}
use easyipc.Log.{Flags}
use easyipc.Misc.{PrintPacket}
use easyipc.Control.{CliRequest, cat, print, rpc, ls, msg}

-- `key_word_max_size` and `key_word_max_index`
abbrev pub key_word_max_size : ℕ
key_word_max_size = 64

abbrev pub key_word_max_index : ℕ
key_word_max_index = 6

-- What `getopt` returns of the options of `eipcls`, with `optarg`.
pub data LsOption : Type 0 where
  n : Text → LsOption
  unknown : LsOption

-- What a program does with the daemon: it sends requests and ends, or goes on to show what the
-- daemon sends (`eipcprint -u`), or reads the log file itself, or ends with its usage.
pub data Run : Type 0 where
  sends : List CliRequest → Run
  shows : List CliRequest → Run
  reads_log : PrintPacket → ℤ → Run
  usage : List CliRequest → Run

-- `eipcls`
unfoldable pub eipcls : List LsOption → Text → Run
eipcls [] pname = sends (ls pname ∷ [])
eipcls (n arg ∷ os) pname = eipcls os (snprintf process_name_max_size arg)
eipcls (unknown ∷ os) pname = usage []

-- The zeroed packet with the flags that `eipccat` and `eipcprint` begin with.
abbrev pub first_packet : PrintPacket
first_packet = record {
  flags = record { printf_log_type_flag = codes "UPS"; printf_log_level_flag = codes "EWNID" };
  printf_log_pname = [];
  key_word = [];
  printf_broadcast_flag = 0;
}

abbrev pub set_level : Text → PrintPacket → PrintPacket
set_level arg p = record p { flags = record p.flags { printf_log_level_flag = snprintf 16 arg } }

abbrev pub set_type : Text → PrintPacket → PrintPacket
set_type arg p = record p { flags = record p.flags { printf_log_type_flag = snprintf 16 arg } }

abbrev pub set_pname : Text → PrintPacket → PrintPacket
set_pname arg p = record p { printf_log_pname = snprintf process_name_max_size arg }

-- The options of `eipccat`; the argument of `-D` is the number that `atoi` reads.
pub data CatOption : Type 0 where
  l p t q : Text → CatOption
  h d : CatOption
  D : ℤ → CatOption

-- `eipccat`, with `cat_deamon` and `d_offset`
unfoldable pub eipccat : List CatOption → Bool → ℤ → PrintPacket → Run
eipccat [] true offset packet = reads_log packet offset
eipccat [] false offset packet = sends (cat packet ∷ [])
eipccat (l arg ∷ os) deamon offset packet = eipccat os deamon offset (set_level arg packet)
eipccat (p arg ∷ os) deamon offset packet = eipccat os deamon offset (set_pname arg packet)
eipccat (t arg ∷ os) deamon offset packet = eipccat os deamon offset (set_type arg packet)
eipccat (q arg ∷ os) deamon offset packet =
    eipccat os deamon offset (record packet { key_word = snprintf key_word_max_size arg })
eipccat (h ∷ os) deamon offset packet = usage []
eipccat (d ∷ os) deamon offset packet = eipccat os true offset packet
eipccat (D z ∷ os) deamon offset packet = eipccat os true z packet

-- The options of `eipcprint`.
pub data PrintOption : Type 0 where
  print_u print_r print_d print_h : PrintOption
  print_l print_p print_t : Text → PrintOption

-- A request before those of the rest.
abbrev first : CliRequest → Run → Run
first r (sends rs) = sends (r ∷ rs)
first r (shows rs) = shows (r ∷ rs)
first r (reads_log packet z) = reads_log packet z
first r (usage rs) = usage (r ∷ rs)

-- `eipcprint`; `displays` tells whether `eipcc_print_console_display` has its socket, and so does
-- not return.
unfoldable pub eipcprint : Bool → List PrintOption → PrintPacket → Run
eipcprint displays [] packet = sends (print packet ∷ [])
eipcprint displays (print_u ∷ os) packet =
    let asked : PrintPacket = record packet { printf_broadcast_flag = 1 } in
    let rest = eipcprint displays os asked in
    if displays then shows (print asked ∷ []) else first (print asked) rest
eipcprint displays (print_r ∷ os) packet = sends (rpc packet ∷ [])
eipcprint displays (print_d ∷ os) packet =
    eipcprint displays os
      (record packet { flags = record { printf_log_type_flag = []; printf_log_level_flag = [] } })
eipcprint displays (print_h ∷ os) packet = usage []
eipcprint displays (print_l arg ∷ os) packet = eipcprint displays os (set_level arg packet)
eipcprint displays (print_p arg ∷ os) packet = eipcprint displays os (set_pname arg packet)
eipcprint displays (print_t arg ∷ os) packet = eipcprint displays os (set_type arg packet)

-- The key words of `eipcmsg -q`: what the packet has room for, each cut to its array.
unfoldable pub keywords : ℕ → List Text → List Text
keywords zero ws = []
keywords (suc k) [] = [] ∷ keywords k []
keywords (suc k) (w ∷ ws) = snprintf key_word_max_size w ∷ keywords k ws

-- The request of `eipcmsg -q`.
unfoldable pub query : List Text → CliRequest
unfolding keywords
query args = elim (keywords key_word_max_index args) [ [] ↦ msg [] [] | w ∷ ws ↦ msg w ws ]
