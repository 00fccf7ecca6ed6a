-- ===== src/Config/Settings.antt =====
-- The settings that the daemon, the library and `eipccat` read from /etc/easyipc.conf, with
-- `GetConfigIntValue` of src/easyipc_conf_support.c.
pub mod Stored
use easyipc.Base.{
  ℕ, zero, suc, ◌+◌, Bool, true, false, ◌&&◌, ◌||◌, Option, none, some, List, [], ◌∷◌, ◌==◌,
  if◌then◌else◌,
}
use easyipc.Base.Int.{ℤ, pos}
use easyipc.Base.Scan.{scan_int, scan_hex}
use easyipc.Base.Text.{Text, codes, snprintf}
use easyipc.Config.{
  Found, success, overflow, filename_notexist, sectionname_notexist, keyname_notexist, skip_blank,
  get_config_string_value,
}

-- What `GetConfigIntValue` does to the number behind its last argument: `failed` leaves it and
-- returns a code that is not 0.
pub data IntFound : Type 0 where
  read_as : ℤ → IntFound
  failed smashed : IntFound

abbrev is_hex : Text → Bool
is_hex [] = false
is_hex (c ∷ []) = false
is_hex (c ∷ x ∷ s) = (c == 48) && ((x == 120) || (x == 88))

-- Two bytes further on.
abbrev behind_prefix : Text → Text
behind_prefix [] = []
behind_prefix (c ∷ []) = []
behind_prefix (c ∷ x ∷ s) = s

-- `sscanf` leaves the number as it was where there is none in the text.
unfoldable pub int_of : Text → ℤ → ℤ
unfolding skip_blank scan_int scan_hex
int_of v value =
    let s = skip_blank v in
    let scanned : Option ℤ = if is_hex s then scan_hex (behind_prefix s) else scan_int s in
    elim scanned [ none ↦ value | some z ↦ z ]

-- `GetConfigIntValue`, with the number that is there before it
unfoldable pub get_config_int_value : Text → Text → Option Text → ℤ → IntFound
unfolding get_config_string_value int_of
get_config_int_value section key file value = elim (get_config_string_value 16 section key file) [
  | success v ↦ read_as (int_of v value)
  | overflow ↦ smashed
  | filename_notexist ↦ failed
  | sectionname_notexist ↦ failed
  | keyname_notexist ↦ failed
]

-- `easyipc_config`
pub record Settings : Type 0 where
  pub ipc_log_save_path : Text
  pub ipc_msg_packet_max_size : ℤ
  pub ipc_syslog_enable : ℤ

-- The settings, or a value that was written past the end of its array.
pub data Configured : Type 0 where
  configured : Settings → Configured
  overrun : Configured

-- `IPC_DEBUG_SAVE_PATH` and `IPC_MAX_PACKET`
abbrev pub first_settings : Settings
first_settings = record {
  ipc_log_save_path = codes "/tmp/easyipc.log";
  ipc_msg_packet_max_size = pos 4096;
  ipc_syslog_enable = pos 0;
}

-- The path, from the file.
unfoldable pub with_path : Option Text → Settings → Configured
unfolding get_config_string_value
with_path file c =
    elim (get_config_string_value 256 (codes "Config") (codes "ipc_log_save_path") file) [
      | success v ↦ configured (record c { ipc_log_save_path = snprintf 256 v })
      | overflow ↦ overrun
      | filename_notexist ↦ configured c
      | sectionname_notexist ↦ configured c
      | keyname_notexist ↦ configured c
    ]

-- The switch for the system's log, from the file, and the rest; `value` is the one variable that
-- both numbers are read into.
unfoldable pub with_syslog : Option Text → ℤ → Settings → Configured
unfolding get_config_int_value with_path
with_syslog file value c =
    elim (get_config_int_value (codes "Config") (codes "ipc_syslog_enable") file value) [
      | read_as z ↦ with_path file (record c { ipc_syslog_enable = z })
      | smashed ↦ overrun
      | failed ↦ with_path file c
    ]

-- The settings that `main` of the daemon and `_ipc_init` make of the file; `value` is what the stack
-- has.
unfoldable pub load_settings : Option Text → ℤ → Configured
unfolding get_config_int_value with_syslog
load_settings file value =
    elim (get_config_int_value (codes "Config") (codes "packet_max_size") file value) [
      | read_as z ↦ with_syslog file z (record first_settings { ipc_msg_packet_max_size = z })
      | smashed ↦ overrun
      | failed ↦ with_syslog file value first_settings
    ]
