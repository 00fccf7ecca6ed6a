-- ===== src/Daemon/Start.antt =====
-- The start of the daemon, `main` and `ipcd_init` of src/easyipc_daemon.c, up to its threads.
use easyipc.Base.{
  ℕ, Bool, true, Option, none, some, List, [], ◌∷◌, ◌≡◌, refl, arith, length, ◌<◌, if◌then◌else◌,
}
use easyipc.Base.Int.{ℤ, pos}
use easyipc.Base.Scan.{atoi}
use easyipc.Base.Text.{Text, codes, snprintf, snprintf-of_lt}
use easyipc.Wire.{LogType, user, progress, system, Level}
use easyipc.Log.{Log, Flags, has_char, tlt_char, level_char, debug_init, save_and_print}
use easyipc.Config.Settings.{Settings, Configured, configured, overrun, load_settings}
use easyipc.Daemon.{Daemon, init}

-- What `getopt` returns of the daemon's options; "-l" and "-d" are known to it, but have no case.
pub data StartOption : Type 0 where
  opt_t opt_L opt_l : Text → StartOption
  opt_d opt_h : StartOption

-- `debug_log_size` and `printf_log_level_flag`, or the end of the program with its usage.
unfoldable pub read_options : List StartOption → ℤ → Flags → Option (ℤ × Flags)
read_options [] size f = some (size, f)
read_options (opt_t arg ∷ os) size f = read_options os (atoi arg) f
read_options (opt_L arg ∷ os) size f =
    read_options os size (record f { printf_log_level_flag = snprintf 16 arg })
read_options (opt_l arg ∷ os) size f = read_options os size f
read_options (opt_d ∷ os) size f = read_options os size f
read_options (opt_h ∷ os) size f = none

-- The state of the daemon when its threads start, or why there is none.
pub data Started : Type 0 where
  running : ℤ → Flags → Settings → Daemon → Started
  usage no_lo overwritten : Started

-- `ipcd_init`, `ipcd_debug_init` and what the threads then find.
unfoldable pub start_threads : ℤ × Flags → Configured → Started
unfolding debug_init
start_threads (size, f) overrun = overwritten
start_threads (size, f) (configured c) = running size (debug_init f) c init

-- `main`: `lo` tells whether `find_netif` has found the interface, `value` is what the stack has.
unfoldable pub start : List StartOption → Flags → Bool → Option Text → ℤ → Started
unfolding read_options load_settings start_threads
start os f lo file value = elim (read_options os (pos 0) f) [
  | none ↦ usage
  | some o ↦ if lo then start_threads o (load_settings file value) else no_lo
]

all_types : (type : LogType) → has_char (tlt_char type) (codes "UPS") ≡ true
unfolding tlt_char
all_types user = refl
all_types progress = refl
all_types system = refl

-- Let the settings be read without a value that is too long, and the interface be there. After a
-- start with `-L levels`, an argument shorter than 16 bytes, the daemon has its first state, and
-- `ipcd_log_save_and_print` prints a record of any type exactly if the letter of its level is in
-- `levels`.
pub start-printed :
    (levels : Text) (f : Flags) (file : Option Text) (value : ℤ) (c : Settings)
    → length levels < 16
    → load_settings file value ≡ configured c
    → (g : Flags) × (start (opt_L levels ∷ []) f true file value ≡ running (pos 0) g c init)
      × ((type : LogType) (level : Level) (size : ℕ) (text : Text) (l : Log)
          → (save_and_print size g type level text l).printed ≡ has_char (level_char level) levels)
unfolding start read_options start_threads debug_init save_and_print
start-printed levels f file value c short loaded =
    let fits : snprintf 16 levels ≡ levels = snprintf-of_lt 16 levels short in
    let ups : snprintf 16 (codes "UPS") ≡ codes "UPS" =
      snprintf-of_lt 16 (codes "UPS") (omega arith) in
    (
      record { printf_log_type_flag = codes "UPS"; printf_log_level_flag = levels },
      rw (start, loaded, fits, ups),
      λ type level size text l. rw (all_types type),
    )
